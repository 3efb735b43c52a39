-- ===== src/IoContext.antt =====
-- co_async/generic/io_context.cpp: `IOContext::runOnce` and `IOContext::run`; and `waitEventsFor` of
-- co_async/platform/platform_io.cpp. An operation is the address of its `UringOp`, and a coroutine is a
-- number. What an exception carries is a `std::error_code`. `mNumSqesPending` has 64 bits.
pub mod Events
pub mod Once
pub mod Workers
use mcoro.Prelude.{
  ℕ, zero, suc, ◌+◌, ◌-◌, ◌%◌, ◌^◌, Bool, true, false, Option, none, some, List, [], ◌∷◌, length,
  ltb, leb, ◌==◌, ◌&&◌, if◌then◌else◌, not, ◌⊎◌, inl, inr, Access, done, undefined, and_then, Cmd,
  ◌>>=◌, ◌>>◌, return, update,
}
use mcoro.Expected.{ErrorCode}
use mcoro.Timer.{Timers, run_duration}

-- What `io_uring_submit_and_wait_timeout` gives: `-ETIME`, `-EINTR`, another error, or completions.
pub data Completion (R : Type 0) : Type 0 where
  timed : Completion R
  completed : ℕ → R → Completion R

pub data Waited (R : Type 0) : Type 0 where
  timed_out : Waited R
  interrupted : Waited R
  failed : ErrorCode → Waited R
  ready : List (Completion R) → Waited R

-- `mNumSqesPending`, the members of each `UringOp`, and what is outside of the context.
pub record Uring (R E : Type 0) : Type 0 where
  pub pending : ℕ
  pub res : ℕ → R
  pub previous : ℕ → ℕ
  pub outside : E

abbrev pub subtract : ℕ → ℕ → ℕ
subtract a b = (a + (2 ^ 64 - b % 2 ^ 64)) % 2 ^ 64

module _ {R E : Type 0} where
  -- The loop over the completions: the coroutines to resume.
  unfoldable pub gather : List (Completion R) → Uring R E → List ℕ × Uring R E
  gather [] u = ([], u)
  gather (timed ∷ cs) u = gather cs u
  gather (completed op r ∷ cs) u =
      let (tasks, u') = gather cs (record u { res = update u.res op r }) in
      (u.previous op ∷ tasks, u')

  -- `getSqe`, once the ring gives an entry.
  abbrev pub count_sqe : Uring R E → Uring R E
  count_sqe u = record u { pending = (u.pending + 1) % 2 ^ 64 }

  abbrev pub has_pending_events : Uring R E → Bool
  has_pending_events u = not (u.pending == 0)

abbrev pub clip : ℕ → Option ℕ → ℕ
clip max_sleep none = max_sleep
clip max_sleep (some d) = if ltb max_sleep d then max_sleep else d

-- `runOnce` does not look at what `waitEventsFor` returns.
abbrev pub once_more : ErrorCode ⊎ Bool → ErrorCode ⊎ Bool
once_more (inl e) = inl e
once_more (inr b) = inr true

abbrev is_none : {A : Type 0} → Option A → Bool
is_none none = true
is_none (some a) = false

-- The kernel and the coroutines are parameters.
module _ {R E : Type 0} (submit_and_wait : ℕ → E → Waited R × E)
    (resume : ℕ → Cmd (Timers (Uring R E)) (Unit {0})) where
  unfoldable pub resume_all : List ℕ → Cmd (Timers (Uring R E)) (Unit {0})
  resume_all [] = return tt
  resume_all (task ∷ tasks) = resume task >> resume_all tasks

  -- The completions that are there: all are counted before a coroutine is resumed.
  unfoldable pub deliver : List (Completion R) → Cmd (Timers (Uring R E)) (Unit {0})
  deliver cs s =
      let (tasks, u) = gather cs s.world in
      resume_all tasks (record s { world = record u { pending = subtract u.pending (length cs) } })

  -- An exception, or whether there was an event.
  unfoldable pub events_of : Waited R → Cmd (Timers (Uring R E)) (ErrorCode ⊎ Bool)
  events_of timed_out = return (inr false)
  events_of interrupted = return (inr false)
  events_of (failed e) = return (inl e)
  events_of (ready cs) = deliver cs >> return (inr true)

  unfoldable pub wait_events_for : ℕ → Cmd (Timers (Uring R E)) (ErrorCode ⊎ Bool)
  wait_events_for timeout s =
      let (waited, e) = submit_and_wait timeout s.world.outside in
      events_of waited (record s { world = record (s.world) { outside = e } })

  module _ (now : Uring R E → ℕ × Uring R E)
      (resume_timer : ℕ → Cmd (Timers (Uring R E)) (Unit {0})) (max_sleep nodes fuel : ℕ) where
    unfoldable pub run_once : Cmd (Timers (Uring R E)) (ErrorCode ⊎ Bool)
    run_once = do
      duration ← run_duration now resume_timer nodes fuel
      pending ← (λ s. done (has_pending_events s.world, s))
      if is_none duration && not pending
          then return (inr false)
          else wait_events_for (clip max_sleep duration) >>= λ r. return (once_more r)

    abbrev again :
        ErrorCode ⊎ Bool
        → Cmd (Timers (Uring R E)) (ErrorCode ⊎ (Unit {0}))
        → Cmd (Timers (Uring R E)) (ErrorCode ⊎ (Unit {0}))
    again (inl e) rest = return (inl e)
    again (inr true) rest = rest
    again (inr false) rest = return (inr tt)

    -- In as many rounds as the fuel says.
    unfoldable pub run_rounds : ℕ → Cmd (Timers (Uring R E)) (ErrorCode ⊎ (Unit {0}))
    run_rounds zero = λ s. undefined
    run_rounds (suc rounds) = let rest = run_rounds rounds in run_once >>= λ more. again more rest
