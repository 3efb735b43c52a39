-- ===== src/RingQueue/Valid.antt =====
-- `RingQueue` as the code allocates it: which calls are defined, and what they do.
use mcoro.Prelude.{
  ◌≢◌, ℕ, zero, suc, ◌+◌, ◌-◌, ◌≤◌, ◌<◌, ◌≡◌, refl, true, false, none, some, List, [], ◌∷◌, ◌++◌,
  arith, ap, sym, ◌∙◌, length, get_elem?, set, take, drop, done, undefined, length-set, length-take,
  length-replicate, length-drop, if◌then◌else◌, ◌==◌, ==_iff, Bool-cases, inl, inr,
}
use mcoro.RingQueue.{RingQueue, ring_queue, pop, push}

-- No pointer has gone round yet.
pub record IsValid {ℓ} {A : Type ℓ} (q : RingQueue A) : Type 0 where
  pub allocated : length q.slots ≡ q.tail
  pub read_le : q.read ≤ q.write
  pub write_le : q.write ≤ q.tail

module _ {ℓ} {A : Type ℓ} where
  -- The elements between the pointers, oldest first.
  abbrev pub contents : RingQueue A → List A
  contents q = take (q.write - q.read) (drop q.read q.slots)

  pub ring_queue-IsValid : (value : A) (n : ℕ) → IsValid (ring_queue value n)
  unfolding ring_queue
  ring_queue-IsValid value n = omega (arith, length-replicate n value)

  -- A write at the end of a segment extends it.
  take-set :
      (xs : List A) (r n w : ℕ) (v : A)
      → w ≡ r + n
      → w < length xs
      → take (suc n) (drop r (set xs w v)) ≡ take n (drop r xs) ++ v ∷ []
  take-set [] r n w v e h = absurd (omega arith)
  take-set (x ∷ xs) zero zero zero v e h = refl
  take-set (x ∷ xs) zero zero (suc w) v e h = absurd (omega arith)
  take-set (x ∷ xs) zero (suc n) zero v e h = absurd (omega arith)
  take-set (x ∷ xs) zero (suc n) (suc w) v e h =
      ap (λ (t : List A). x ∷ t) (take-set xs zero n w v (omega arith) (omega arith))
  take-set (x ∷ xs) (suc r) n zero v e h = absurd (omega arith)
  take-set (x ∷ xs) (suc r) n (suc w) v e h = take-set xs r n w v (omega arith) (omega arith)

  take-drop_cons :
      (xs : List A) (r n : ℕ)
      → r < length xs
      → (x : A) × (get_elem? xs r ≡ some x)
        × (take (suc n) (drop r xs) ≡ x ∷ take n (drop (suc r) xs))
  take-drop_cons [] r n h = absurd (omega arith)
  take-drop_cons (x ∷ xs) zero n h = (x, refl, refl)
  take-drop_cons (x ∷ xs) (suc r) n h = take-drop_cons xs r n (omega arith)

  module _ {q : RingQueue A} (v : IsValid q) where
    -- For a queue whose pointers have not gone round, while the write pointer is not at the end
    -- of the array, `push` succeeds and appends its value to the contents; the queue stays
    -- valid, the write pointer steps by one, and the other pointers stay.
    pub push-room :
        (value : A)
        → q.write < q.tail
        → (q' : RingQueue A) × (push q value ≡ done (true, q'))
          × IsValid q'
          × (contents q' ≡ contents q ++ value ∷ [])
          × (q'.write ≡ q.write + 1)
          × (q'.read ≡ q.read)
          × (q'.tail ≡ q.tail)
    unfolding push
    push-room value h =
        let grow : q.write + 1 - q.read ≡ suc (q.write - q.read) = omega (arith, v) in
        (
          record q { slots = set q.slots q.write value; write = q.write + 1 },
          ground (arith, v),
          ground (arith, length-set q.slots q.write value),
          rw grow (
              take-set q.slots q.read (q.write - q.read) q.write value (omega (arith, v))
                (omega (arith, v))),
          refl,
          refl,
          refl,
        )

    push_full : (value : A) → q.write ≡ q.tail → q.read ≡ 0 → push q value ≡ done (false, q)
    unfolding push
    push_full value h e = ground arith

    push_past : (value : A) → q.write ≡ q.tail → q.read ≢ 0 → push q value ≡ undefined
    unfolding push
    push_past value h e = ground arith

    -- For a queue whose pointers have not gone round, with the write pointer at the end of the
    -- array: `push` refuses while nothing was popped, and writes behind the array once
    -- something was.
    pub push-end :
        (value : A)
        → q.write ≡ q.tail
        → push q value ≡ (if q.read == 0 then done (false, q) else undefined)
    push-end value h = elim (Bool-cases (q.read == 0)) [
      | inl e ↦ rw e (push_full value h ((==_iff q.read 0).0 e))
      | inr e ↦ rw e (push_past value h (ground arith))
    ]

    pub length-contents : length (contents q) ≡ q.write - q.read
    length-contents =
        omega (
          arith,
          v,
          length-take (q.write - q.read) (drop q.read q.slots),
          length-drop q.read q.slots,
        )

    -- `pop` is always defined: it takes the oldest element, if there is one.
    pub pop-empty : contents q ≡ [] → pop q ≡ done (none, q)
    unfolding pop
    pop-empty e =
        let same : q.read ≡ q.write = omega (arith, v, length-contents, ap length e) in ground arith

    -- For a queue whose pointers have not gone round and that holds an element, `pop` returns
    -- the oldest one; the queue stays valid and holds the others.
    pub pop-cons :
        {x : A} {xs : List A}
        → contents q ≡ x ∷ xs
        → (q' : RingQueue A) × (pop q ≡ done (some x, q')) × IsValid q' × (contents q' ≡ xs)
    unfolding pop
    pop-cons {x} {xs} e =
        let lt : q.read < q.write = omega (arith, v, length-contents, ap length e) in
        let (y, load, split) =
          take-drop_cons q.slots q.read (q.write - q.read - 1) (omega (arith, v)) in
        let size : q.write - q.read ≡ suc (q.write - q.read - 1) = omega arith in
        let shown : y ∷ take (q.write - q.read - 1) (drop (suc q.read) q.slots) ≡ x ∷ xs =
          sym split ∙ ap (λ (n : ℕ). take n (drop q.read q.slots)) (sym size) ∙ e in
        let head_eq : y ≡ x = cc shown in
        let tail_eq : take (q.write - q.read - 1) (drop (suc q.read) q.slots) ≡ xs = cc shown in
        let one : q.read + 1 ≡ suc q.read = omega arith in
        let left : q.write - suc q.read ≡ q.write - q.read - 1 = omega arith in
        (
          record q { read = q.read + 1 },
          ground (arith, load, head_eq, v),
          omega (arith, v),
          rw (one, left) tail_eq,
        )
