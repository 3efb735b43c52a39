-- ===== src/Sync/Mutex.antt =====
-- co_async/generic/mutex.hpp: `BasicMutex`, and the `Locked` of `MutexImpl` that unlocks it.
pub mod Exclusion
use mcoro.Prelude.{ℕ, ◌≡◌, Bool, true, false, not}
use mcoro.Prelude.{update}

-- Where a coroutine stands: outside, before the exchange of `lock()`, in `futex_wait`, or with a
-- `Locked`.
pub data Position : Type 0 where
  outside : Position
  trying : Position
  waiting : Position
  holding : Position

-- `try_lock()`: whether the lock was taken, and `mFutex` afterwards.
unfoldable pub try_lock : Bool → Bool × Bool
try_lock old = (not old, true)

-- `try_lock()` of `MutexImpl`
unfoldable pub after_try : Bool → Position
after_try true = holding
after_try false = outside

-- A round of `lock()` after its exchange, which found `old`.
unfoldable pub after_exchange : Bool → Position
after_exchange false = holding
after_exchange true = waiting

-- What one coroutine can do to `mFutex` and its position.
pub data Move (flag : Bool) : Position → Bool → Position → Type 0 where
  try : Move flag outside (try_lock flag).1 (after_try (try_lock flag).0)
  lock : Move flag outside flag trying
  exchange : Move flag trying true (after_exchange flag)
  woken : Move flag waiting flag trying
  failed : Move flag waiting flag outside
  unlock : Move flag holding false outside

pub record System : Type 0 where
  pub flag : Bool
  pub pc : ℕ → Position

pub data Step (s : System) : System → Type 0 where
  pick :
      (i : ℕ) {p p' : Position} {flag : Bool}
      → s.pc i ≡ p
      → Move s.flag p flag p'
      → Step s (record { flag = flag; pc = update s.pc i p' })

abbrev pub initial : System
initial = record { flag = false; pc = λ i. outside }

pub data Reach : System → Type 0 where
  start : Reach initial
  later : {s t : System} → Reach s → Step s t → Reach t
