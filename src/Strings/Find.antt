-- ===== src/Strings/Find.antt =====
-- What `find` finds.
use mcoro.Prelude.{
  ℕ, zero, suc, ◌+◌, ◌≡◌, refl, ◌≢◌, true, none, some, [], ◌∷◌, ◌++◌, arith, All, length, take,
  drop, ◌≤◌,
}
use mcoro.Strings.{Bytes, Delim, view, char, spell, starts_with, find_view, find_char, find}

pub starts_with_lem : (d s : Bytes) → starts_with d s ≡ true → s ≡ d ++ drop (length d) s
unfolding starts_with
starts_with_lem [] s h = refl
starts_with_lem (d ∷ ds) [] h = cc
starts_with_lem (d ∷ ds) (c ∷ s) h = ground (arith, starts_with_lem ds s)

-- The delimiter stands at the place that `find` returns.
find_view-some :
    (d s : Bytes) (i k : ℕ)
    → k ≡ i + length d
    → find_view d s ≡ some i
    → s ≡ take i s ++ (d ++ drop k s)
unfolding find_view
find_view-some d [] zero k e h =
    let e' : k ≡ length d = omega arith in rw e' (ground (arith, starts_with_lem d []))
find_view-some d [] (suc i) k e h = ground arith
find_view-some d (c ∷ s) zero k e h =
    let e' : k ≡ length d = omega arith in rw e' (ground (arith, starts_with_lem d (c ∷ s)))
find_view-some d (c ∷ s) (suc i) zero e h = absurd (omega arith)
find_view-some d (c ∷ s) (suc i) (suc k) e h = ground (arith, find_view-some d s i k (omega arith))

pub find_char-some :
    (c : ℕ) (s : Bytes) (i : ℕ)
    → find_char c s ≡ some i
    → (s ≡ take i s ++ (c ∷ drop (i + 1) s)) × All (λ b. b ≢ c) (take i s)
unfolding find_char
find_char-some c [] i h = ground arith
find_char-some c (b ∷ s) zero h = ground arith
find_char-some c (b ∷ s) (suc i) h = ground (arith, find_char-some c s i)

pub find_char-none : (c : ℕ) (s : Bytes) → find_char c s ≡ none → All (λ b. b ≢ c) s
unfolding find_char
find_char-none c [] h = tt
find_char-none c (b ∷ s) h = ground (arith, find_char-none c s)

pub find_char-Lacks : (c : ℕ) (s : Bytes) → All (λ b. b ≢ c) s → find_char c s ≡ none
unfolding find_char
find_char-Lacks c [] h = refl
find_char-Lacks c (b ∷ s) h = ground (arith, find_char-Lacks c s h.1)

pub find_char-append :
    (c : ℕ) (p s : Bytes) → All (λ b. b ≢ c) p → find_char c (p ++ c ∷ s) ≡ some (length p)
unfolding find_char
find_char-append c [] s h = ground arith
find_char-append c (b ∷ p) s h = ground (arith, find_char-append c p s h.1)

pub find-some :
    (d : Delim) (s : Bytes) (i k : ℕ)
    → k ≡ i + length (spell d)
    → find d s ≡ some i
    → s ≡ take i s ++ (spell d ++ drop k s)
unfolding find
find-some (view d) s i k e h = find_view-some d s i k e h
find-some (char c) s i k e h = rw e (find_char-some c s i h).0

-- A delimiter that is not empty is not found in the empty text.
pub find-nil : (d : Delim) → spell d ≢ [] → find d [] ≡ none
unfolding find find_view starts_with find_char
find-nil (view []) h = absurd (h refl)
find-nil (view (c ∷ d)) h = refl
find-nil (char c) h = refl

-- The empty view is found at once in every text.
pub find-empty : (s : Bytes) → find (view []) s ≡ some 0
unfolding find find_view starts_with
find-empty [] = refl
find-empty (c ∷ s) = refl

starts_with-le : (d s : Bytes) → starts_with d s ≡ true → length d ≤ length s
unfolding starts_with
starts_with-le [] s h = omega arith
starts_with-le (d ∷ ds) [] h = cc
starts_with-le (d ∷ ds) (c ∷ s) h = ground (arith, starts_with-le ds s)

find_view-le : (d s : Bytes) (i : ℕ) → find_view d s ≡ some i → i + length d ≤ length s
unfolding find_view
find_view-le d [] zero h = ground (arith, starts_with-le d [])
find_view-le d [] (suc i) h = ground arith
find_view-le d (c ∷ s) zero h = ground (arith, starts_with-le d (c ∷ s))
find_view-le d (c ∷ s) (suc i) h = ground (arith, find_view-le d s i)

pub find_char-lt : (c : ℕ) (s : Bytes) (i : ℕ) → find_char c s ≡ some i → i + 1 ≤ length s
unfolding find_char
find_char-lt c [] i h = ground arith
find_char-lt c (b ∷ s) zero h = omega arith
find_char-lt c (b ∷ s) (suc i) h = ground (arith, find_char-lt c s i)

-- What is found lies inside of the text.
pub find-le : (d : Delim) (s : Bytes) (i : ℕ) → find d s ≡ some i → i + length (spell d) ≤ length s
unfolding find
find-le (view d) s i h = find_view-le d s i h
find-le (char c) s i h = find_char-lt c s i h
