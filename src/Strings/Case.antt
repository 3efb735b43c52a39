-- ===== src/Strings/Case.antt =====
-- `lower_string` and `upper_string`.
use mcoro.Prelude.{ℕ, ◌≡◌, refl, ◌↔◌, [], ◌∷◌, arith, ap, sym, ◌∙◌}
use mcoro.Strings.{Bytes, lower_char, upper_char, lower_string, upper_string}

lower-upper_char : (c : ℕ) → lower_char (upper_char c) ≡ lower_char c
unfolding lower_char upper_char
lower-upper_char c = ground arith

upper-lower_char : (c : ℕ) → upper_char (lower_char c) ≡ upper_char c
unfolding lower_char upper_char
upper-lower_char c = ground arith

pub lower-upper : (s : Bytes) → lower_string (upper_string s) ≡ lower_string s
unfolding lower_string upper_string
lower-upper [] = refl
lower-upper (c ∷ s) = cc (lower-upper_char c, lower-upper s)

pub upper-lower : (s : Bytes) → upper_string (lower_string s) ≡ upper_string s
unfolding lower_string upper_string
upper-lower [] = refl
upper-lower (c ∷ s) = cc (upper-lower_char c, upper-lower s)

-- Two strings have the same lower case exactly when they have the same upper case: the two
-- functions agree on which strings differ in case only.
pub lower_eq_iff_upper_eq :
    (s t : Bytes) → (lower_string s ≡ lower_string t) ↔ (upper_string s ≡ upper_string t)
lower_eq_iff_upper_eq s t = (
  λ h. sym (upper-lower s) ∙ ap upper_string h ∙ upper-lower t,
  λ h. sym (lower-upper s) ∙ ap lower_string h ∙ lower-upper t,
)
