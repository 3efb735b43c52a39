-- ===== src/ConcurrentQueue.antt =====
-- co_async/utils/concurrent_queue.hpp: `ConcurrentRingQueue<T, Capacity>` for a positive `Capacity`;
-- the case of capacity 0 is the child `Unbounded`. A stamp is the value of the atomic `mStamp`; the
-- bits below `Shift` are the write index and those above are the read index. A mask by `kSize - 1`
-- is `% size`, a shift by `Shift` is `* size` or `/ size`, an `|` of disjoint bits is `+`, and a
-- cast to `Stamp` is `% modulus`.
pub mod Unbounded
pub mod Stamp
pub mod Sequential
pub mod Masks
use mcoro.Prelude.{
  ℕ, zero, suc, ◌+◌, ◌-◌, ◌*◌, ◌/◌, ◌%◌, ◌^◌, Bool, true, false, not, ◌&&◌, Option, none, some,
  List, [], ◌∷◌, leb, ◌==◌, if◌then◌else◌, length, get_elem?, set,
}

-- `std::bit_width(n)`, over the rounds of halving that it may take.
unfoldable pub bit_width_loop : ℕ → ℕ → ℕ
bit_width_loop zero n = 0
bit_width_loop (suc fuel) n =
    let more = suc (bit_width_loop fuel (n / 2)) in if n == 0 then 0 else more

unfoldable pub bit_width : ℕ → ℕ
unfolding bit_width_loop
bit_width n = bit_width_loop n n

-- `sizeof(Stamp) * 8`
unfoldable pub stamp_bits : ℕ → ℕ
stamp_bits shift =
    if leb shift 4 then 8 else if leb shift 8 then 16 else if leb shift 16 then 32 else 64

-- What happens to `mStamp` just before an exchange: another thread may have stored a stamp, and the
-- exchange may fail although the stamp is the expected one.
pub record Attempt : Type 0 where
  pub others : Option ℕ
  pub spurious : Bool

abbrev pub quiet : Attempt
quiet = record { others = none; spurious = false }

pub record ConcurrentRingQueue {ℓ} (A : Type ℓ) : Type ℓ where
  pub head : List A
  pub stamp : ℕ

module _ (capacity : ℕ) where
  unfoldable pub shift : ℕ
  shift = bit_width capacity

  -- `kSize`
  unfoldable pub size : ℕ
  size = 2 ^ shift

  -- A `Stamp` holds the numbers below this one.
  unfoldable pub modulus : ℕ
  modulus = 2 ^ stamp_bits shift

  unfoldable pub offset_read : ℕ → ℕ
  offset_read s = s / size

  unfoldable pub offset_write : ℕ → ℕ
  offset_write s = s % size

  unfoldable pub can_read : ℕ → Bool
  can_read s = not (offset_read s == offset_write s)

  unfoldable pub can_write : ℕ → Bool
  can_write s = not (offset_read s % size == (offset_write s + (size - capacity) % modulus) % size)

  unfoldable pub advect_read : ℕ → ℕ
  advect_read s = (s / size % modulus + 1) % size * size % modulus + s % size

  unfoldable pub advect_write : ℕ → ℕ
  advect_write s = (s % size + 1) % size + s / size % size * size % modulus

  -- `mStamp` as the exchange of one attempt finds it.
  abbrev pub found : Attempt → ℕ → ℕ
  found a stamp = elim a.others [ none ↦ stamp | some other ↦ other ]

  -- `compare_exchange_weak(s, desired)`: whether it exchanged, the stamp, and `s` afterwards.
  unfoldable pub compare_exchange : Attempt → (stamp s desired : ℕ) → Bool × ℕ × ℕ
  compare_exchange a stamp s desired =
      if (found a stamp == s) && not a.spurious
      then (true, desired, s)
      else (false, found a stamp, found a stamp)

  -- The loop of `pop()`, over what happens at its exchanges; the outer `none` when the list of those
  -- is used up. The result is `s` when the loop is left, or none for an empty queue.
  unfoldable pub pop_loop : List Attempt → (stamp s : ℕ) → Option (Option ℕ × ℕ)
  pop_loop [] stamp s = none
  pop_loop (a ∷ rest) stamp s =
      let (exchanged, stamp', s') = compare_exchange a stamp s (advect_read s) in
      let again = pop_loop rest stamp' s' in
      if exchanged
      then some (some s', stamp')
      else if not (can_read s')
      then some (none, stamp')
      else again

  -- The loop of `push()`, whose test has no `!`: it goes on after an exchange.
  pub push_loop : List Attempt → (stamp s : ℕ) → Option (Option ℕ × ℕ)
  push_loop [] stamp s = none
  push_loop (a ∷ rest) stamp s =
      let (exchanged, stamp', s') = compare_exchange a stamp s (advect_write s) in
      let again = push_loop rest stamp' s' in
      if not exchanged
      then some (some s', stamp')
      else if not (can_write s')
      then some (none, stamp')
      else again

  module _ {ℓ} {A : Type ℓ} where
    abbrev pub finish_pop : ConcurrentRingQueue A → Option ℕ × ℕ → Option A × ConcurrentRingQueue A
    finish_pop q (none, stamp) = (none, record q { stamp = stamp })
    finish_pop q (some s, stamp) = (get_elem? q.head (offset_read s), record q { stamp = stamp })

    -- A slot that was moved from keeps its value. (The offset is below `size`, so there is a slot.)
    pub pop : List Attempt → ConcurrentRingQueue A → Option (Option A × ConcurrentRingQueue A)
    pop tries q =
        if not (can_read q.stamp) then some (none, q) else elim (pop_loop tries q.stamp q.stamp) [
          | none ↦ none
          | some left ↦ some (finish_pop q left)
        ]

    abbrev pub finish_push : ConcurrentRingQueue A → A → Option ℕ × ℕ → Bool × ConcurrentRingQueue A
    finish_push q value (none, stamp) = (false, record q { stamp = stamp })
    finish_push q value (some s, stamp) =
        (true, record q { head = set q.head (offset_write s) value; stamp = stamp })

    pub push : List Attempt → A → ConcurrentRingQueue A → Option (Bool × ConcurrentRingQueue A)
    push tries value q =
        if not (can_write q.stamp)
        then some (false, q)
        else elim (push_loop tries q.stamp q.stamp) [
          | none ↦ none
          | some left ↦ some (finish_push q value left)
        ]
