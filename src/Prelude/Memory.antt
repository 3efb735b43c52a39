-- ===== src/Prelude/Memory.antt =====
-- Memory. The outcome of code that reads and writes memory through pointers: a result, or an access outside
-- of what was allocated (or another undefined operation), after which nothing is known.
use mathlib.Core.Option.{Option, none, some}
use mathlib.Core.Path.{◌≡◌, refl}
use Prim.Native.Nat.{ℕ}
use mathlib.Core.Logic.{◌⊎◌, inl, inr, ◌≢◌}
use native.Mathlib.Omega.{arith}
use mcoro.Prelude.Tests.{◌==◌, if◌then◌else◌}

pub data Access {ℓ} (A : Type ℓ) : Type ℓ where
  done : A → Access A
  undefined : Access A

abbrev pub and_then {ℓ κ} : {A : Type ℓ} {B : Type κ} → Access A → (A → Access B) → Access B
and_then (done a) f = f a
and_then undefined f = undefined

-- A read is defined where there is an element.
abbrev pub loaded {ℓ} : {A : Type ℓ} → Option A → Access A
loaded none = undefined
loaded (some a) = done a

pub Access-cases {ℓ} : {A : Type ℓ} (r : Access A) → (r ≡ undefined) ⊎ ((a : A) × (r ≡ done a))
Access-cases (done a) = inr (a, refl)
Access-cases undefined = inl refl

-- Code that changes the memory `S`.
abbrev pub Cmd : Type 0 → Type 0 → Type 0
Cmd S A = S → Access (A × S)

module _ {S A B : Type 0} where
  infixl 5 ◌>>=◌ ◌>>◌
  abbrev pub ◌>>=◌ : Cmd S A → (A → Cmd S B) → Cmd S B
  c >>= k = λ s. and_then (c s) λ r. k r.0 r.1

  abbrev pub ◌>>◌ : Cmd S A → Cmd S B → Cmd S B
  c >> d = c >>= λ _. d

abbrev pub return : {S A : Type 0} → A → Cmd S A
return a = λ s. done (a, s)

-- A family, changed at one index.
abbrev pub update : {A : Type 0} → (ℕ → A) → ℕ → A → ℕ → A
update f i a j = if i == j then a else f j

pub update-same : {A : Type 0} (f : ℕ → A) (i : ℕ) (a : A) → update f i a i ≡ a
update-same f i a = ground arith

pub update-other : {A : Type 0} (f : ℕ → A) (i j : ℕ) (a : A) → i ≢ j → update f i a j ≡ f j
update-other f i j a ne = ground arith
