-- ===== src/Sync/Condition.antt =====
-- co_async/generic/condition_variable.hpp: `ConditionVariable`. The overloads with a mask do the same to
-- `mFutex`.
pub mod Notified
use mcoro.Prelude.{ℕ, suc, ◌+◌, ◌%◌, ◌^◌, ◌≡◌, ◌==◌, if◌then◌else◌}
use mcoro.Prelude.{update}

-- Where a coroutine stands: outside of `wait()`, in its `futex_wait` with the value `old`, or behind
-- the loop.
pub data Position : Type 0 where
  outside : Position
  waiting : ℕ → Position
  returned : Position

-- The test of the loop of `wait()`, once `futex_wait` has returned.
unfoldable pub wait_test : (futex old : ℕ) → Position
wait_test futex old = if futex == old then waiting old else returned

-- `fetch_add` of `notify_one` and `notify_all`.
unfoldable pub notified : ℕ → ℕ
notified futex = (futex + 1) % 2 ^ 32

-- What one coroutine can do to `mFutex` and its position.
pub data Move (futex : ℕ) : Position → ℕ → Position → Type 0 where
  wait : Move futex outside futex (waiting futex)
  woken : (old : ℕ) → Move futex (waiting old) futex (wait_test futex old)
  failed : (old : ℕ) → Move futex (waiting old) futex outside
  leave : Move futex returned futex outside

pub record System : Type 0 where
  pub futex : ℕ
  pub pc : ℕ → Position

-- The systems that are reached from `s`, with the number of notifications on the way.
pub data Run (s : System) : ℕ → System → Type 0 where
  stop : Run s 0 s
  pick :
      (i : ℕ) {n : ℕ} {t : System} {p p' : Position} {futex : ℕ}
      → Run s n t
      → t.pc i ≡ p
      → Move t.futex p futex p'
      → Run s n (record { futex = futex; pc = update t.pc i p' })
  notify : {n : ℕ} {t : System} → Run s n t → Run s (suc n) (record t { futex = notified t.futex })
