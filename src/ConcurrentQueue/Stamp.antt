-- ===== src/ConcurrentQueue/Stamp.antt =====
-- The arithmetic of stamps.
use mcoro.Prelude.{
  ℕ, zero, suc, ◌+◌, ◌-◌, ◌*◌, ◌/◌, ◌%◌, ◌^◌, ◌≤◌, ◌<◌, ◌≡◌, ◌≢◌, true, arith, inl, inr, not, ◌⊎◌,
  ◌==◌, ◌↔◌, ap, ◌∙◌,
}
use native.Mathlib.Nat.{
  two-pow-succ, mul-add-div_right, mul-add-mod_self_right, div-eq_of_lt, mod-eq_of_lt,
  mod-eq-sub-mod, mod-lt, pow-le-pow_right, add_comm,
}
use native.Mathlib.Decide.{dec_lt}
use mcoro.ConcurrentQueue.{
  bit_width_loop, bit_width, stamp_bits, shift, size, modulus, offset_read, offset_write, can_read,
  can_write, advect_read, advect_write,
}

bit_width_loop-lt : (fuel n : ℕ) → n ≤ fuel → n < 2 ^ bit_width_loop fuel n
unfolding bit_width_loop
bit_width_loop-lt zero n h = omega arith
bit_width_loop-lt (suc fuel) n h =
    ground (arith, bit_width_loop-lt fuel (n / 2), two-pow-succ (bit_width_loop fuel (n / 2)))

pow-pos : (n : ℕ) → 0 < 2 ^ n
pow-pos zero = omega arith
pow-pos (suc n) = omega (arith, two-pow-succ n, pow-pos n)

-- `static_assert(Capacity < (1 << Shift))` holds for every capacity.
pub capacity-lt-size : (capacity : ℕ) → capacity < size capacity
unfolding size shift bit_width
capacity-lt-size capacity = bit_width_loop-lt capacity capacity (omega arith)

pow-add : (a b c : ℕ) → c ≡ a + b → 2 ^ c ≡ 2 ^ a * 2 ^ b
pow-add zero b c e = let e' : c ≡ b = omega arith in rw e' (omega arith)
pow-add (suc a) b zero e = absurd (omega arith)
pow-add (suc a) b (suc c) e = omega (
  arith,
  two-pow-succ c,
  two-pow-succ a,
  pow-add a b c (omega arith),
  ap (λ (t : ℕ). t * 2 ^ b) (two-pow-succ a),
)

-- `static_assert(Shift * 2 <= sizeof(Stamp) * 8)`.
abbrev pub Fits : ℕ → Type 0
Fits capacity = shift capacity * 2 ≤ stamp_bits (shift capacity)

pub size-pos : (capacity : ℕ) → 0 < size capacity
unfolding size
size-pos capacity = pow-pos (shift capacity)

square-le-modulus :
    (capacity : ℕ) → Fits capacity → size capacity * size capacity ≤ modulus capacity
unfolding size modulus
square-le-modulus capacity h = omega (
  arith,
  pow-add (shift capacity) (shift capacity) (shift capacity * 2) (omega arith),
  pow-le-pow_right {n = 2} (omega arith) h,
)

-- The stamp with the given read and write indices.
abbrev pub stamp : ℕ → ℕ → ℕ → ℕ
stamp capacity r w = r * size capacity + w

product_small : (x k m : ℕ) → x < k → k * k ≤ m → x * k < m
product_small x k m h le = grind arith

index_small : (x k m : ℕ) → x < k → k * k ≤ m → x < m
index_small x k m h le = grind arith

-- `2 * k` is more than any sum of two indices, so a remainder is one of two numbers.
pub mod_once : (x k : ℕ) → x < k + k → ((x < k) × (x % k ≡ x)) ⊎ ((k ≤ x) × (x % k ≡ x - k))
mod_once x k h = elim (dec_lt x k) [
  | yes p ↦ inl (p, mod-eq_of_lt p)
  | no p ↦ inr (
    omega arith,
    mod-eq-sub-mod {n = x} {m = k} (omega arith) ∙ mod-eq_of_lt {n = x - k} {m = k} (omega arith),
  )
]

ring_distance :
    (r w k c : ℕ)
    → r < k
    → w < k
    → 0 < c
    → c < k
    → (not (r == (w + (k - c)) % k) ≡ true) ↔ ((w + k - r) % k ≢ c)
ring_distance r w k c hr hw pos lt =
    ground (arith, mod_once (w + (k - c)) k (omega arith), mod_once (w + k - r) k (omega arith))

module _ (capacity r w : ℕ) (hr : r < size capacity) (hw : w < size capacity) where
  div-stamp : stamp capacity r w / size capacity ≡ r
  div-stamp = mul-add-div_right (size-pos capacity) r w ∙ omega (arith, div-eq_of_lt hw)

  mod-stamp : stamp capacity r w % size capacity ≡ w
  mod-stamp = mul-add-mod_self_right r (size capacity) w ∙ mod-eq_of_lt hw

  pub offset_read-stamp : offset_read capacity (stamp capacity r w) ≡ r
  unfolding offset_read
  offset_read-stamp = div-stamp

  pub offset_write-stamp : offset_write capacity (stamp capacity r w) ≡ w
  unfolding offset_write
  offset_write-stamp = mod-stamp

  -- For indices in range, `canRead` is true exactly when the two indices of the stamp differ.
  pub can_read-stamp : (can_read capacity (stamp capacity r w) ≡ true) ↔ (r ≢ w)
  unfolding can_read
  can_read-stamp = rw (offset_read-stamp, offset_write-stamp) (ground arith)

  module _ (fits : Fits capacity) where
    -- For a capacity for which the second `static_assert` holds and indices in range,
    -- `advectRead` steps the read index round the ring and keeps the write index.
    pub advect_read-stamp :
        advect_read capacity (stamp capacity r w) ≡ stamp capacity ((r + 1) % size capacity) w
    unfolding advect_read
    advect_read-stamp =
        let le = square-le-modulus capacity fits in
        let small = index_small r (size capacity) (modulus capacity) hr le in
        let next = mod-lt (r + 1) (size-pos capacity) in
        rw (
          div-stamp,
          mod-stamp,
          mod-eq_of_lt small,
          mod-eq_of_lt (product_small ((r + 1) % size capacity) _ _ next le),
        )

    -- For a capacity for which the second `static_assert` holds and indices in range,
    -- `advectWrite` steps the write index round the ring and keeps the read index.
    pub advect_write-stamp :
        advect_write capacity (stamp capacity r w) ≡ stamp capacity r ((w + 1) % size capacity)
    unfolding advect_write
    advect_write-stamp =
        let le = square-le-modulus capacity fits in
        rw (
          div-stamp,
          mod-stamp,
          mod-eq_of_lt hr,
          mod-eq_of_lt (product_small r _ _ hr le),
          add_comm,
        )

    -- For a positive capacity for which the second `static_assert` holds and indices in range,
    -- `canWrite` is false exactly when the write index is `Capacity` slots in front of the read
    -- index.
    pub can_write-stamp :
        0 < capacity
        → (can_write capacity (stamp capacity r w) ≡ true)
          ↔ ((w + size capacity - r) % size capacity ≢ capacity)
    unfolding can_write
    can_write-stamp pos =
        let lt = capacity-lt-size capacity in
        let le = square-le-modulus capacity fits in
        rw
          (
            offset_read-stamp,
            offset_write-stamp,
            mod-eq_of_lt hr,
            mod-eq_of_lt (index_small (size capacity - capacity) _ _ (omega arith) le),
          )
          (ring_distance r w (size capacity) capacity hr hw pos lt)
