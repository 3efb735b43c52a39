-- ===== src/ConcurrentQueue/Unbounded.antt =====
-- `SpinMutex` (co_async/utils/spin_mutex.hpp) and `ConcurrentRingQueue<T, 0>`, a `std::deque` behind
-- it. `lock()` spins over the values that it finds in the flag.
use mcoro.Prelude.{◌≡◌, Bool, true, false, not, Option, none, some, List, [], ◌∷◌, ◌++◌, arith, ◌≢◌}

-- `try_lock`: whether the lock was taken, and the flag afterwards.
pub try_lock : Bool → Bool × Bool
try_lock flag = (not flag, true)

-- `lock`, over the flags that its rounds find; `none` when it still spins at their end.
unfoldable pub lock : List Bool → Option Bool
lock [] = none
lock (flag ∷ flags) = let again = lock flags in elim flag [ false ↦ some true | true ↦ again ]

pub unlock : Bool → Bool
unlock flag = false

pub record Unbounded {ℓ} (A : Type ℓ) : Type ℓ where
  pub queue : List A
  pub mutex : Bool

module _ {ℓ} {A : Type ℓ} where
  abbrev pop_front : List A → Option A × List A
  pop_front [] = (none, [])
  pop_front (p ∷ q) = (some p, q)

  -- The outer `none` is a call that still spins.
  pub pop : List Bool → Unbounded A → Option (Option A × Unbounded A)
  pop flags q = elim (lock flags) [
    | none ↦ none
    | some held ↦
        some ((pop_front q.queue).0, record { queue = (pop_front q.queue).1; mutex = unlock held })
  ]

  pub push : List Bool → A → Unbounded A → Option (Unbounded A)
  push flags value q = elim (lock flags) [
    | none ↦ none
    | some held ↦ some (record { queue = q.queue ++ value ∷ []; mutex = unlock held })
  ]

  -- With a lock that becomes free in the rounds that a call makes, `push` appends to the
  -- unbounded queue, `pop` takes the oldest element if there is one, and both leave the lock
  -- free.
  pub push-pop_lem :
      (flags flags' : List Bool) (value : A) (q : Unbounded A)
      → lock flags ≢ none
      → lock flags' ≢ none
      → (push flags value q ≡ some (record { queue = q.queue ++ value ∷ []; mutex = false }))
        × (pop flags' (record q { queue = value ∷ q.queue })
            ≡ some (some value, record { queue = q.queue; mutex = false }))
        × (pop flags' (record q { queue = [] }) ≡ some (none, record { queue = []; mutex = false }))
  unfolding push pop unlock
  push-pop_lem flags flags' value q h h' = ground arith
