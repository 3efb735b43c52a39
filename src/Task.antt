-- ===== src/Task.antt =====
-- co_async/awaiter/task.hpp: `Task`, `TaskAwaiter` and `TaskFinalAwaiter`, as a machine of coroutines. A
-- handle is a number, and 0 is the handle to which the outermost task returns. All values are of one
-- type, and so are all exceptions. An event is what the kernel answers to an operation, the `mRes` of
-- `UringOp` in co_async/platform/platform_io.hpp.
pub mod Call
pub mod Transform
use mcoro.Prelude.{
  ℕ, zero, suc, Bool, true, false, ◌||◌, if◌then◌else◌, Option, none, some, List, [], ◌∷◌, update,
}

-- What `await_resume` does: it returns a value or throws an exception.
pub data Outcome (V X : Type 0) : Type 0 where
  returned : V → Outcome V X
  threw : X → Outcome V X

-- The rest of a coroutine: `co_return`, an exception that leaves it, `co_await` of a new task, or
-- `co_await` of an operation. What follows a `co_await` may catch the exception that it throws.
pub data Body (V X : Type 0) : Type 0 where
  co_return : V → Body V X
  throw : X → Body V X
  co_await : Body V X → (Outcome V X → Body V X) → Body V X
  operation : (V → Body V X) → Body V X

-- What a suspended coroutine does when it is resumed: it begins, it goes on behind the `co_await` of a
-- task, or behind that of an operation; or its frame is destroyed.
pub data Frame (V X : Type 0) : Type 0 where
  initial : Body V X → Frame V X
  awaiting : ℕ → (Outcome V X → Body V X) → Frame V X
  pending : (V → Body V X) → Frame V X
  destroyed : Frame V X

-- `TaskAwaiter`, without its callee.
pub record Awaiter (V X : Type 0) : Type 0 where
  pub caller_coroutine : ℕ
  pub result : Option V
  pub exception : Option X

-- The frame of each coroutine, the awaiter to which its promise points, the next free handle, and the
-- events to come.
pub record Machine (V X : Type 0) : Type 0 where
  pub frame : ℕ → Frame V X
  pub awaiter : ℕ → Awaiter V X
  pub next : ℕ
  pub events : List V

-- Where the thread is: about to resume a coroutine, in the body of one, or in the event loop, where the
-- given coroutine waits; or it did something undefined.
pub data Control (V X : Type 0) : Type 0 where
  resume : ℕ → Control V X
  run : ℕ → Body V X → Control V X
  idle : ℕ → Control V X
  undefined : Control V X

abbrev pub has_some : {A : Type 0} → Option A → Bool
has_some none = false
has_some (some a) = true

module _ {V X : Type 0} where
  -- The awaiter of a new task that `caller` awaits.
  abbrev pub awaiter_of : ℕ → Awaiter V X
  awaiter_of caller = record { caller_coroutine = caller; result = none; exception = none }

  abbrev pub set_frame : ℕ → Frame V X → Machine V X → Machine V X
  set_frame h f m = record m { frame = update m.frame h f }

  abbrev pub return_value : ℕ → V → Machine V X → Machine V X
  return_value h v m = record m {
    awaiter = update m.awaiter h (record (m.awaiter h) { result = some v });
  }

  abbrev pub unhandled_exception : ℕ → X → Machine V X → Machine V X
  unhandled_exception h x m = record m {
    awaiter = update m.awaiter h (record (m.awaiter h) { exception = some x });
  }

  abbrev pub final_suspend : ℕ → Machine V X → Control V X
  final_suspend h m = resume (m.awaiter h).caller_coroutine

  unfoldable pub await_ready : Awaiter V X → Bool
  await_ready a = has_some a.exception || has_some a.result

  -- `await_suspend` of the awaiter of a new task, whose handle is the next.
  abbrev pub await_suspend : ℕ → Body V X → (Outcome V X → Body V X) → Machine V X → Machine V X
  await_suspend h b k m = record m {
    frame = update (update m.frame m.next (initial b)) h (awaiting m.next k);
    awaiter = update m.awaiter m.next (awaiter_of h);
    next = suc m.next;
  }

  abbrev pub outcome : Option X → Option V → Option (Outcome V X)
  outcome (some x) r = some (threw x)
  outcome none (some v) = some (returned v)
  outcome none none = none

  -- `await_resume`, which is undefined when there is neither a result nor an exception.
  unfoldable pub await_resume : Awaiter V X → Option (Outcome V X)
  await_resume a = outcome a.exception a.result

  abbrev pub go_on : ℕ → (Outcome V X → Body V X) → Option (Outcome V X) → Control V X
  go_on h k none = undefined
  go_on h k (some o) = run h (k o)

  -- A coroutine is resumed. `TaskOwnedAwaiter` destroys the frame of the task when it is done.
  abbrev pub resumed : ℕ → Frame V X → Machine V X → Control V X × Machine V X
  resumed h (initial b) m = (run h b, m)
  resumed h (awaiting c k) m = (go_on h k (await_resume (m.awaiter c)), set_frame c destroyed m)
  resumed h (pending k) m = (undefined, m)
  resumed h destroyed m = (undefined, m)

  -- The event loop resumes a coroutine that waits for an operation.
  abbrev pub answered : ℕ → Frame V X → List V → Machine V X → Control V X × Machine V X
  answered h (pending k) (v ∷ vs) m = (run h (k v), record m { events = vs })
  answered h f vs m = (idle h, m)

  abbrev pub awaited :
      ℕ → Body V X → (Outcome V X → Body V X) → Machine V X → Control V X × Machine V X
  awaited h b k m =
      let a = awaiter_of h in
      if await_ready a
      then (go_on h k (await_resume a), record m { next = suc m.next })
      else (resume m.next, await_suspend h b k m)

  -- One transfer of control.
  unfoldable pub step : Control V X × Machine V X → Control V X × Machine V X
  step (resume h, m) = resumed h (m.frame h) m
  step (run h (co_return v), m) = (final_suspend h m, return_value h v m)
  step (run h (throw x), m) = (final_suspend h m, unhandled_exception h x m)
  step (run h (co_await b k), m) = awaited h b k m
  step (run h (operation k), m) = (idle h, set_frame h (pending k) m)
  step (idle h, m) = answered h (m.frame h) m.events m
  step (undefined, m) = (undefined, m)

  unfoldable pub steps : ℕ → Control V X × Machine V X → Control V X × Machine V X
  steps zero s = s
  steps (suc n) s = steps n (step s)
