-- ===== src/Strings/Trim.antt =====
-- `trim_string`: what the two searches find, and what is cut off.
use mcoro.Prelude.{
  ℕ, zero, suc, ◌+◌, ◌-◌, ◌<◌, ◌≡◌, refl, ◌≢◌, ◌⊎◌, inl, inr, true, false, Option, none, some, [],
  ◌∷◌, ◌++◌, arith, ap, sym, ◌∙◌, All, length, take, drop, get_elem?, take-append-drop, length-take,
  length-drop, get_elem?-take, get_elem?-drop, drop-drop, take-length_le, Option-cases, append-nil,
  ◌≤◌, append_assoc, subst,
}
use native.Mathlib.Numerals.{unary_clauses}
use mcoro.Strings.{Bytes, one_of, find_first_not_of, find_last_not_of, trim_string}

module _ (trims : Bytes) where
  abbrev pub IsTrim : ℕ → Type 0
  IsTrim c = one_of trims c ≡ true

  -- There is a byte, and it is not to be trimmed.
  abbrev pub IsKept : Option ℕ → Type 0
  IsKept none = ⊥
  IsKept (some c) = one_of trims c ≡ false

  -- Empty, or bounded by two bytes that are not to be trimmed.
  abbrev pub IsTrimmed : Bytes → Type 0
  IsTrimmed t = (t ≡ []) ⊎ (IsKept (get_elem? t 0) × IsKept (get_elem? t (length t - 1)))

  find_first-none : (s : Bytes) → find_first_not_of trims s ≡ none → All IsTrim s
  unfolding find_first_not_of
  find_first-none [] h = tt
  find_first-none (c ∷ s) h = ground (arith, find_first-none s)

  find_first-some :
      (s : Bytes) (i : ℕ)
      → find_first_not_of trims s ≡ some i
      → All IsTrim (take i s) × IsKept (get_elem? s i)
  unfolding find_first_not_of
  find_first-some [] i h = ground arith
  find_first-some (c ∷ s) zero h = ground arith
  find_first-some (c ∷ s) (suc i) h = ground (arith, find_first-some s i)

  find_last-none : (s : Bytes) → find_last_not_of trims s ≡ none → All IsTrim s
  unfolding find_last_not_of
  find_last-none [] h = tt
  find_last-none (c ∷ s) h = ground (arith, find_last-none s)

  find_last-some :
      (s : Bytes) (i : ℕ)
      → find_last_not_of trims s ≡ some i
      → All IsTrim (drop (suc i) s) × IsKept (get_elem? s i)
  unfolding find_last_not_of
  find_last-some [] i h = ground arith
  find_last-some (c ∷ s) zero h = ground (arith, find_last-none s)
  find_last-some (c ∷ s) (suc i) h = ground (arith, find_last-some s i)

  find_last-ne-none :
      (s : Bytes) (i : ℕ) → find_first_not_of trims s ≡ some i → find_last_not_of trims s ≢ none
  unfolding find_first_not_of find_last_not_of
  find_last-ne-none [] i h = ground arith
  find_last-ne-none (c ∷ s) zero h = ground arith
  find_last-ne-none (c ∷ s) (suc i) h = ground (arith, find_last-ne-none s i)

  -- The first byte to keep does not stand behind the last one.
  find_first-le-find_last :
      (s : Bytes) (i j : ℕ)
      → find_first_not_of trims s ≡ some i
      → find_last_not_of trims s ≡ some j
      → i ≤ j
  unfolding find_first_not_of find_last_not_of
  find_first-le-find_last [] i j h k = ground arith
  find_first-le-find_last (c ∷ s) zero j h k = omega arith
  find_first-le-find_last (c ∷ s) (suc i) zero h k = ground (arith, find_last-ne-none s i)
  find_first-le-find_last (c ∷ s) (suc i) (suc j) h k =
      ground (arith, find_first-le-find_last s i j)

  find_last-lt-length : (s : Bytes) (i : ℕ) → find_last_not_of trims s ≡ some i → i < length s
  unfolding find_last_not_of
  find_last-lt-length [] i h = ground arith
  find_last-lt-length (c ∷ s) zero h = omega arith
  find_last-lt-length (c ∷ s) (suc i) h = ground (arith, find_last-lt-length s i)

module _ (trims : Bytes) where
  -- The searched bounds cut a text in three, of which the middle one is the result.
  cut_lem :
      (s : Bytes) (i j : ℕ)
      → find_first_not_of trims s ≡ some i
      → find_last_not_of trims s ≡ some j
      → let t = take (j + 1 - i) (drop i s) in
        (s ≡ take i s ++ t ++ drop (suc j) s)
        × IsKept trims (get_elem? t 0)
        × IsKept trims (get_elem? t (length t - 1))
  cut_lem s i j h k =
      let le = find_first-le-find_last trims s i j h k in
      let lt = find_last-lt-length trims s j k in
      let n : ℕ = j + 1 - i in
      let size : length (take n (drop i s)) ≡ n =
        omega (arith, length-take n (drop i s), length-drop i s) in
      (
        sym (
            append_assoc (take i s) _ _
            ∙ ap (λ (b : Bytes). take i s ++ (take n (drop i s) ++ b))
                (sym (drop-drop i n (suc j) s (omega arith)))
            ∙ ap (λ (b : Bytes). take i s ++ b) (take-append-drop n (drop i s))
            ∙ take-append-drop i s),
        subst (IsKept trims)
            (sym
              (get_elem?-take n 0 (drop i s) (omega arith) ∙ get_elem?-drop i 0 i s (omega arith)))
            (find_first-some trims s i h).1,
        subst (IsKept trims)
            (sym
              (get_elem?-take n _ (drop i s) (omega arith) ∙ get_elem?-drop i _ j s (omega arith)))
            (find_last-some trims s j k).1,
      )

  trim_string-none : (s : Bytes) → find_first_not_of trims s ≡ none → trim_string trims s ≡ []
  unfolding trim_string
  trim_string-none s e = ground arith

  trim_string-some :
      (s : Bytes) (i j : ℕ)
      → find_first_not_of trims s ≡ some i
      → find_last_not_of trims s ≡ some j
      → trim_string trims s ≡ take (j + 1 - i) (drop i s)
  unfolding trim_string
  trim_string-some s i j e f = ground arith

  -- The result of `trim_string` is the text without some bytes to trim at its front and at its
  -- back, and neither its first nor its last byte, if it has one, is to be trimmed.
  pub trim_string_lem :
      (s : Bytes)
      → (front : Bytes) × (back : Bytes) × (s ≡ front ++ trim_string trims s ++ back)
        × All (IsTrim trims) front
        × All (IsTrim trims) back
        × IsTrimmed trims (trim_string trims s)
  trim_string_lem s = elim (Option-cases (find_first_not_of trims s)) [
    | inl e ↦
        rw (trim_string-none s e)
          (s, [], sym (append-nil s) ∙ sym (append-nil _), find_first-none trims s e, tt, inl refl)
    | inr (i, e) ↦ elim (Option-cases (find_last_not_of trims s)) [
      | inl f ↦ absurd (find_last-ne-none trims s i e f)
      | inr (j, f) ↦ rw (trim_string-some s i j e f) (
        take i s,
        drop (suc j) s,
        (cut_lem s i j e f).0,
        (find_first-some trims s i e).0,
        (find_last-some trims s j f).0,
        inr ((cut_lem s i j e f).1, (cut_lem s i j e f).2),
      )
    ]
  ]

  find_first-zero : (s : Bytes) → IsKept trims (get_elem? s 0) → find_first_not_of trims s ≡ some 0
  unfolding find_first_not_of
  find_first-zero [] k = absurd k
  find_first-zero (c ∷ s) k = ground arith

  find_last-end :
      (s : Bytes) (n : ℕ)
      → length s ≡ suc n
      → IsKept trims (get_elem? s n)
      → find_last_not_of trims s ≡ some n
  unfolding find_last_not_of
  find_last-end [] n e k = absurd k
  find_last-end (c ∷ []) zero e k = ground arith
  find_last-end (c ∷ d ∷ s) zero e k = absurd (omega arith)
  find_last-end (c ∷ s) (suc n) e k = ground (arith, find_last-end s n)

  trim_string-of-IsTrimmed : (t : Bytes) → IsTrimmed trims t → trim_string trims t ≡ t
  unfolding trim_string find_first_not_of
  trim_string-of-IsTrimmed [] h = refl
  trim_string-of-IsTrimmed (c ∷ s) (inl e) = cc
  trim_string-of-IsTrimmed (c ∷ s) (inr (a, b)) =
      trim_string-some (c ∷ s) 0 (length s) (find_first-zero (c ∷ s) a)
        (find_last-end (c ∷ s) (length s) refl (simp unary_clauses at b))
      ∙ take-length_le (length s + 1 - 0) (c ∷ s) (omega arith)

  -- Trimming twice is trimming once.
  pub trim_string_idem : (s : Bytes) → trim_string trims (trim_string trims s) ≡ trim_string trims s
  trim_string_idem s = let (f, b, e, hf, hb, t) = trim_string_lem s in trim_string-of-IsTrimmed _ t
