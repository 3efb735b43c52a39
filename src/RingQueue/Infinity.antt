-- ===== src/RingQueue/Infinity.antt =====
-- `InfinityQueue<T>` of co_async/utils/ring_queue.hpp, by the elements of its `std::deque`.
use mcoro.Prelude.{Option, none, some, List, [], ◌∷◌, ◌++◌, Access, done, undefined}

module _ {ℓ} {A : Type ℓ} where
  pub push : A → List A → List A
  push value q = q ++ value ∷ []

  pub pop : List A → Option A × List A
  pop [] = (none, [])
  pop (value ∷ q) = (some value, q)

  -- `front()` of an empty deque is undefined.
  pub pop_unchecked : List A → Access (A × List A)
  pop_unchecked [] = undefined
  pop_unchecked (value ∷ q) = done (value, q)

  pub push_all : List A → List A → List A
  push_all [] q = q
  push_all (value ∷ values) q = push_all values (push value q)
