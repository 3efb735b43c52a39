-- ===== src/Sync/Semaphore.antt =====
-- co_async/generic/semaphore.hpp. `count` is the local variable of `acquire()` and `release()`.
pub mod Bounds
pub mod Shared
use mcoro.Prelude.{ℕ, ◌+◌, ◌-◌, ◌%◌, ◌^◌, ◌≡◌, Bool, true, false, not, ◌&&◌, ◌==◌, if◌then◌else◌}
use mcoro.Prelude.{update}

-- Where a coroutine stands: outside, with a unit that it has acquired, before an exchange, or in
-- `futex_wait`.
pub data Position : Type 0 where
  outside : Position
  acquired : Position
  acquiring : ℕ → Position
  acquire_waiting : Position
  releasing : ℕ → Position
  release_waiting : Position

module _ (max_count : ℕ) where
  -- The tests of the inner loops, at a `count` just loaded or left by an exchange.
  unfoldable pub acquire_test : ℕ → Position
  acquire_test count = if count == 0 then acquire_waiting else acquiring count

  unfoldable pub release_test : ℕ → Position
  release_test count = if count == max_count then release_waiting else releasing count

  -- An exchange of `mCounter`, which may fail without a reason, and where the coroutine stands then.
  -- The loops have no `!`: after an exchange they go on, with the same `count`.
  unfoldable pub acquire_exchange : Bool → (counter count : ℕ) → ℕ × Position
  unfolding acquire_test
  acquire_exchange spurious counter count =
      if (counter == count) && not spurious
      then ((count + 2 ^ 32 - 1) % 2 ^ 32, acquire_test count)
      else (counter, acquired)

  unfoldable pub release_exchange : Bool → (counter count : ℕ) → ℕ × Position
  unfolding release_test
  release_exchange spurious counter count =
      if (counter == count) && not spurious
      then ((count + 1) % 2 ^ 32, release_test count)
      else (counter, outside)

  -- What one coroutine can do to `mCounter` and its position.
  pub data Move (counter : ℕ) : Position → ℕ → Position → Type 0 where
    acquire : Move counter outside counter (acquire_test counter)
    acquire_woken : Move counter acquire_waiting counter (acquire_test counter)
    acquire_failed : Move counter acquire_waiting counter outside
    acquire_swap :
        (spurious : Bool) (count : ℕ)
        → Move counter
            (acquiring count)
            (acquire_exchange spurious counter count).0
            (acquire_exchange spurious counter count).1
    release : Move counter acquired counter (release_test counter)
    release_outside : Move counter outside counter (release_test counter)
    release_woken : Move counter release_waiting counter (release_test counter)
    release_failed : Move counter release_waiting counter outside
    release_swap :
        (spurious : Bool) (count : ℕ)
        → Move counter
            (releasing count)
            (release_exchange spurious counter count).0
            (release_exchange spurious counter count).1

  pub record System : Type 0 where
    pub counter : ℕ
    pub pc : ℕ → Position

  pub data Step (s : System) : System → Type 0 where
    pick :
        (i : ℕ) {p p' : Position} {counter : ℕ}
        → s.pc i ≡ p
        → Move s.counter p counter p'
        → Step s (record { counter = counter; pc = update s.pc i p' })

  -- The constructor.
  abbrev pub semaphore : ℕ → System
  semaphore initial_count = record { counter = initial_count; pc = λ i. outside }

  pub data Reach (initial_count : ℕ) : System → Type 0 where
    start : Reach initial_count (semaphore initial_count)
    later : {s t : System} → Reach initial_count s → Step s t → Reach initial_count t
