-- ===== src/WhenAll.antt =====
-- co_async/awaiter/when_all.hpp: `when_all` of `n` tasks, as the steps of `WhenAllAwaiter` and of the
-- `whenAllHelper` of each task. A task may suspend for as long as it likes, so the helpers end in any
-- order. `count` is a `std::size_t` of 64 bits.
pub mod Count
pub mod Once
use mcoro.Prelude.{
  ℕ, zero, suc, ◌+◌, ◌-◌, ◌%◌, ◌^◌, ◌<◌, ◌≡◌, Bool, true, false, Option, none, some, List, [], ◌∷◌,
  ◌++◌, ◌==◌, if◌then◌else◌, update,
}

-- The helper of a task, and the `Uninitialized` that it fills.
pub data Helper (V X : Type 0) : Type 0 where
  initial : Helper V X
  running : Helper V X
  finished : V → Helper V X
  failed : X → Helper V X

-- `WhenAllCtlBlock`, the helpers, how many of them `await_suspend` has resumed, and how often the
-- coroutine `mPrevious` was resumed.
pub record Control (V X : Type 0) : Type 0 where
  pub count : ℕ
  pub exception : Option X
  pub helper : ℕ → Helper V X
  pub started : ℕ
  pub resumed : ℕ

abbrev pub decrement : ℕ → ℕ
decrement count = (count + (2 ^ 64 - 1)) % 2 ^ 64

module _ {V X : Type 0} where
  -- `when_all` up to the first resumption: without tasks the caller goes on.
  abbrev pub control : ℕ → Control V X
  control n = record {
    count = n;
    exception = none;
    helper = λ i. initial;
    started = 0;
    resumed = if n == 0 then 1 else 0;
  }

  -- The loop of `await_suspend`, and the transfer to the last task at its end.
  unfoldable pub start_next : Control V X → Control V X
  start_next s = record s { helper = update s.helper s.started running; started = s.started + 1 }

  -- The end of the helper of the `i`th task.
  unfoldable pub finish : ℕ → V → Control V X → Control V X
  finish i v s = record s {
    helper = update s.helper i (finished v);
    count = decrement s.count;
    resumed = if decrement s.count == 0 then s.resumed + 1 else s.resumed;
  }

  -- The handler of the exceptions that leave the `i`th task.
  unfoldable pub fail : ℕ → X → Control V X → Control V X
  fail i x s = record s {
    helper = update s.helper i (failed x);
    exception = some x;
    resumed = s.resumed + 1;
  }

  pub data Step (n : ℕ) (s : Control V X) : Control V X → Type 0 where
    starts : s.started < n → Step n s (start_next s)
    finishes : (i : ℕ) (v : V) → i < n → s.helper i ≡ running → Step n s (finish i v s)
    fails : (i : ℕ) (x : X) → i < n → s.helper i ≡ running → Step n s (fail i x s)

  pub data Reach (n : ℕ) : Control V X → Type 0 where
    start : Reach n (control n)
    later : {s t : Control V X} → Reach n s → Step n s t → Reach n t

-- The results in the order of the tasks, which the caller moves out; each must be there.
abbrev pub added : {V X : Type 0} → Helper V X → Option (List V) → Option (List V)
added (finished v) (some vs) = some (vs ++ v ∷ [])
added (finished v) none = none
added initial vs = none
added running vs = none
added (failed x) vs = none

unfoldable pub results : {V X : Type 0} → ℕ → (ℕ → Helper V X) → Option (List V)
results zero helper = some []
results (suc n) helper = added (helper n) (results n helper)
