-- ===== src/IntrusiveList/Ring.antt =====
-- The ring of nodes that a list is.
use mcoro.Prelude.{ℕ, ◌≡◌, ◌≢◌, List, [], ◌∷◌, ◌++◌, ◌∙◌, All}
use mcoro.IntrusiveList.{Nodes, null}

-- `q` follows `p`.
abbrev pub Links : Nodes → ℕ → ℕ → Type 0
Links s p q = (s.next p ≡ q) × (s.prev q ≡ p)

-- From `p` the nodes `xs` follow one another, and then `q`.
abbrev pub Chain : Nodes → ℕ → List ℕ → ℕ → Type 0
Chain s p [] q = Links s p q
Chain s p (x ∷ xs) q = Links s p x × Chain s x xs q

-- Every two nodes differ.
abbrev pub Distinct : List ℕ → Type 0
Distinct [] = Unit {0}
Distinct (x ∷ xs) = All (λ y. x ≢ y) xs × Distinct xs

-- The list at `root` holds the nodes `xs`: they are in a ring with `root`, none is null and none
-- is there twice.
pub record IsList (root : ℕ) (s : Nodes) (xs : List ℕ) : Type 0 where
  pub ring : Chain s root xs root
  pub distinct : Distinct (root ∷ xs)
  pub not_null : All (λ x. x ≢ null) (root ∷ xs)

-- A change of the memory that spares the links of a chain.
pub Chain-frame :
    (s s' : Nodes) (p q : ℕ) (xs : List ℕ)
    → All (λ x. s'.next x ≡ s.next x) (p ∷ xs)
    → All (λ x. s'.prev x ≡ s.prev x) (q ∷ xs)
    → Chain s p xs q
    → Chain s' p xs q
Chain-frame s s' p q [] n m (a, b) = (n.0 ∙ a, m.0 ∙ b)
Chain-frame s s' p q (x ∷ xs) n m ((a, b), c) =
    ((n.0 ∙ a, m.1.0 ∙ b), Chain-frame s s' x q xs n.1 (m.0, m.1.1) c)

-- The last node before `q`, and the first behind `p`.
abbrev pub last : ℕ → List ℕ → ℕ
last p [] = p
last p (x ∷ xs) = last x xs

abbrev pub first : List ℕ → ℕ → ℕ
first [] q = q
first (x ∷ xs) q = x

pub Chain-first : (s : Nodes) (p q : ℕ) (xs : List ℕ) → Chain s p xs q → Links s p (first xs q)
Chain-first s p q [] c = c
Chain-first s p q (x ∷ xs) c = c.0

pub Chain-last : (s : Nodes) (p q : ℕ) (xs : List ℕ) → Chain s p xs q → Links s (last p xs) q
Chain-last s p q [] c = c
Chain-last s p q (x ∷ xs) c = Chain-last s x q xs c.1

module _ {ℓ} (P : ℕ → Type ℓ) where
  pub All-last : (p : ℕ) (xs : List ℕ) → All P (p ∷ xs) → P (last p xs)
  All-last p [] h = h.0
  All-last p (x ∷ xs) h = All-last x xs h.1

  pub All-first : (xs : List ℕ) (q : ℕ) → All P (q ∷ xs) → P (first xs q)
  All-first [] q h = h.0
  All-first (x ∷ xs) q h = h.1.0

  pub All-append_left : (xs ys : List ℕ) → All P (xs ++ ys) → All P xs
  All-append_left [] ys h = tt
  All-append_left (x ∷ xs) ys h = (h.0, All-append_left xs ys h.1)

  pub All-append_right : (xs ys : List ℕ) → All P (xs ++ ys) → All P ys
  All-append_right [] ys h = h
  All-append_right (x ∷ xs) ys h = All-append_right xs ys h.1

  pub All-insert : (n : ℕ) (us ys : List ℕ) → P n → All P (us ++ ys) → All P (us ++ n ∷ ys)
  All-insert n [] ys h k = (h, k)
  All-insert n (u ∷ us) ys h k = (k.0, All-insert n us ys h k.1)

  pub All-erase : (n : ℕ) (us ys : List ℕ) → All P (us ++ n ∷ ys) → All P (us ++ ys)
  All-erase n [] ys h = h.1
  All-erase n (u ∷ us) ys h = (h.0, All-erase n us ys h.1)

  pub All-at : (n : ℕ) (us ys : List ℕ) → All P (us ++ n ∷ ys) → P n
  All-at n [] ys h = h.0
  All-at n (u ∷ us) ys h = All-at n us ys h.1

  pub All-map {κ} : (Q : ℕ → Type κ) (xs : List ℕ) → ((x : ℕ) → P x → Q x) → All P xs → All Q xs
  All-map Q [] f h = tt
  All-map Q (x ∷ xs) f h = (f x h.0, All-map Q xs f h.1)

-- None of the nodes is `n`.
abbrev pub Misses : ℕ → List ℕ → Type 0
Misses n = All (λ x. n ≢ x)
