-- ===== src/RingQueue.antt =====
-- co_async/utils/ring_queue.hpp: `RingQueue<T>`; `InfinityQueue<T>` is the child `Infinity`. The pointers are offsets
-- from `mHead`; an access at an offset at which nothing is allocated is `undefined`. A slot that was
-- moved from keeps its value.
pub mod Valid
pub mod Size
pub mod Infinity
use mcoro.Prelude.{
  ℕ, ◌+◌, ◌-◌, ◌%◌, ◌^◌, Bool, true, false, Option, none, some, List, [], ◌∷◌, ◌++◌, ltb, ◌==◌,
  if◌then◌else◌, length, get_elem?, set, replicate, Access, done, undefined, and_then, loaded,
}

-- `slots` is the array behind `mHead`; `tail`, `read` and `write` are `mTail`, `mRead`, `mWrite`.
pub record RingQueue {ℓ} (A : Type ℓ) : Type ℓ where
  pub slots : List A
  pub tail : ℕ
  pub read : ℕ
  pub write : ℕ

module _ {ℓ} {A : Type ℓ} where
  -- The constructor; `value` is `T()`, which `std::make_unique<T[]>` puts in each slot.
  unfoldable pub ring_queue : A → ℕ → RingQueue A
  ring_queue value max_size = record {
    slots = replicate max_size value;
    tail = max_size;
    read = 0;
    write = 0;
  }

  -- Whatever was in the queue is dropped.
  unfoldable pub set_max_size : A → ℕ → RingQueue A → RingQueue A
  unfolding ring_queue
  set_max_size value max_size q = record q {
    slots = replicate max_size value;
    tail = max_size;
    read = 0;
    write = 0;
  }

  unfoldable pub max_size : RingQueue A → ℕ
  max_size q = q.tail

  -- `mWrite - mRead` is converted to `std::size_t`. `% 0` is undefined.
  unfoldable pub size : RingQueue A → Access ℕ
  unfolding max_size
  size q =
      if max_size q == 0
      then undefined
      else done ((q.write + 2 ^ 64 - q.read + max_size q) % 2 ^ 64 % max_size q)

  unfoldable pub empty : RingQueue A → Bool
  empty q = q.read == q.write

  -- `p == mTail ? mHead.get() : p + 1`
  abbrev pub next : RingQueue A → ℕ → ℕ
  next q p = if p == q.tail then 0 else p + 1

  unfoldable pub full : RingQueue A → Bool
  full q = next q q.write == q.read

  unfoldable pub pop_unchecked : RingQueue A → Access (A × RingQueue A)
  pop_unchecked q =
      and_then (loaded (get_elem? q.slots q.read)) λ p. done (p, record q { read = next q q.read })

  unfoldable pub pop : RingQueue A → Access (Option A × RingQueue A)
  pop q =
      if q.read == q.write
      then done (none, q)
      else and_then (loaded (get_elem? q.slots q.read))
          λ p. done (some p, record q { read = next q q.read })

  -- `*mWrite = std::move(value)`
  abbrev pub store : RingQueue A → A → Access (RingQueue A)
  store q value =
      if ltb q.write (length q.slots)
      then done (record q { slots = set q.slots q.write value })
      else undefined

  unfoldable pub push : RingQueue A → A → Access (Bool × RingQueue A)
  push q value =
      if next q q.write == q.read
      then done (false, q)
      else and_then (store q value) λ q'. done (true, record q' { write = next q q.write })

  unfoldable pub push_unchecked : RingQueue A → A → Access (RingQueue A)
  push_unchecked q value =
      and_then (store q value) λ q'. done (record q' { write = next q q.write })
