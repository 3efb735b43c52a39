-- ===== src/RingQueue/Size.antt =====
-- `size()` of a `RingQueue`, and how many pushes a queue accepts in its lifetime.
use mcoro.Prelude.{
  ◌↔◌, ℕ, ◌+◌, ◌-◌, ◌^◌, ◌%◌, take-zero_eq, ◌≤◌, ◌<◌, ◌≡◌, refl, Bool, true, false, Option, List,
  [], ◌∷◌, arith, ap, sym, ◌∙◌, length, Access, done, and_then, length-set, get_elem?, Option-cases,
  inl, inr, Access-cases,
}
use mcoro.RingQueue.{RingQueue, ring_queue, pop, push, size, max_size, full, empty}
use mcoro.RingQueue.Valid.{IsValid, contents, length-contents, ring_queue-IsValid}

mod-add_self : (d t : ℕ) → (d + t) % t ≡ d % t
mod-add_self d t = grind arith

-- `mWrite - mRead + max_size()` as `std::size_t`.
size_wraps : (w r t : ℕ) → r ≤ w → w ≤ t → t < 2 ^ 63 → (w + 2 ^ 64 - r + t) % 2 ^ 64 ≡ w - r + t
size_wraps w r t h k small = omega arith

module _ {ℓ} {A : Type ℓ} where
  -- For a queue whose pointers have not gone round, with at least one slot and a size that a
  -- `std::ptrdiff_t` holds, `size()` is the number of elements modulo `max_size()`: 0 when the
  -- queue holds `max_size()` elements.
  pub size-contents :
      {q : RingQueue A}
      → IsValid q
      → 0 < max_size q
      → max_size q < 2 ^ 63
      → size q ≡ done (length (contents q) % max_size q)
  unfolding size max_size
  size-contents {q} v pos small = ground (
    arith,
    v,
    length-contents v,
    size_wraps q.write q.read q.tail v.read_le v.write_le small,
    mod-add_self (q.write - q.read) q.tail,
  )

  -- A queue whose pointers have not gone round is `empty()` exactly when it holds nothing, and
  -- `full()` exactly when it holds `max_size()` elements.
  pub empty-full :
      {q : RingQueue A}
      → IsValid q
      → ((empty q ≡ true) ↔ (contents q ≡ []))
        × ((full q ≡ true) ↔ (length (contents q) ≡ max_size q))
  unfolding empty full max_size
  empty-full {q} v = (
    (
      λ h. take-zero_eq (q.write - q.read) _ (ground arith),
      λ h. ground (arith, length-contents v, ap length h),
    ),
    (λ h. ground (arith, v, length-contents v), λ h. ground (arith, v, length-contents v)),
  )

-- What a client does with a queue.
pub data Op {ℓ} (A : Type ℓ) : Type ℓ where
  put : A → Op A
  get : Op A

abbrev count : ℕ → Bool → ℕ
count n true = n + 1
count n false = n

module _ {ℓ} {A : Type ℓ} where
  -- The calls in order, with the number of pushes accepted so far.
  unfoldable pub run : List (Op A) → ℕ → RingQueue A → Access (ℕ × RingQueue A)
  run [] n q = done (n, q)
  run (put value ∷ ops) n q = and_then (push q value) λ (ok, q'). run ops (count n ok) q'
  run (get ∷ ops) n q = and_then (pop q) λ (value, q'). run ops n q'

  -- The accepted pushes are where the write pointer stands.
  push-counts :
      {q : RingQueue A} (value : A) (n : ℕ) {ok : Bool} {q' : RingQueue A}
      → IsValid q
      → n ≡ q.write
      → push q value ≡ done (ok, q')
      → IsValid q' × (q'.tail ≡ q.tail) × (count n ok ≡ q'.write)
  unfolding push
  push-counts {q} value n v c e = ground (arith, v, length-set q.slots q.write value)

  pub pop-counts :
      {q : RingQueue A} {out : Option A} {q' : RingQueue A}
      → IsValid q
      → pop q ≡ done (out, q')
      → IsValid q' × (q'.tail ≡ q.tail) × (q'.write ≡ q.write)
  unfolding pop
  pop-counts {q} v e = elim (Option-cases (get_elem? q.slots q.read)) [
    | inl f ↦ ground (arith, v, f)
    | inr (x, f) ↦ ground (arith, v, f)
  ]

  run-counts :
      (ops : List (Op A)) (n k : ℕ) (q q' : RingQueue A)
      → IsValid q
      → n ≡ q.write
      → run ops n q ≡ done (k, q')
      → k ≤ q.tail
  unfolding run
  run-counts [] n k q q' v e h = ground (arith, v)
  run-counts (put value ∷ ops) n k q q' v e h = elim (Access-cases (push q value)) [
    | inl f ↦ cc (rw f at h)
    | inr ((ok, q₁), f) ↦
        let (v₁, t₁, w₁) = push-counts value n v e f in
        omega (arith, run-counts ops (count n ok) k q₁ q' v₁ w₁ (rw f at h))
  ]
  run-counts (get ∷ ops) n k q q' v e h = elim (Access-cases (pop q)) [
    | inl f ↦ cc (rw f at h)
    | inr ((out, q₁), f) ↦
        let (v₁, t₁, w₁) = pop-counts v f in
        omega (arith, run-counts ops n k q₁ q' v₁ (e ∙ sym w₁) (rw f at h))
  ]

  -- However pushes and pops follow on one another, a new queue of `max_size` slots accepts at
  -- most `max_size` pushes in its lifetime, unless it accesses memory out of bounds.
  pub accepted-le :
      (value : A) (max_size : ℕ) (ops : List (Op A)) (k : ℕ) (q : RingQueue A)
      → run ops 0 (ring_queue value max_size) ≡ done (k, q)
      → k ≤ max_size
  unfolding ring_queue
  accepted-le value max_size ops k q h =
      run-counts ops 0 k _ q (ring_queue-IsValid value max_size) refl h
