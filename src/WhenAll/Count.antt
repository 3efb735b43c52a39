-- ===== src/WhenAll/Count.antt =====
-- When the caller goes on.
use native.Mathlib.Decide.{dec_lt}
use mcoro.Prelude.{
  ℕ, zero, suc, ◌+◌, ◌^◌, ◌≤◌, ◌<◌, ◌≡◌, refl, ap, sym, ◌∙◌, update, update-same, update-other,
  arith,
}
use mcoro.WhenAll.{Helper, initial, running, finished, failed, decrement}

abbrev pub one_done : {V X : Type 0} → Helper V X → ℕ
one_done (finished v) = 1
one_done _ = 0

-- How many of the first `n` helpers have finished.
unfoldable pub number_done : {V X : Type 0} → ℕ → (ℕ → Helper V X) → ℕ
number_done zero helper = 0
number_done (suc n) helper = number_done n helper + one_done (helper n)

module _ {V X : Type 0} where
  one_done-le : (h : Helper V X) → one_done h ≤ 1
  one_done-le initial = omega arith
  one_done-le running = omega arith
  one_done-le (finished v) = omega arith
  one_done-le (failed x) = omega arith

  number_done-outside :
      (n i : ℕ) (helper : ℕ → Helper V X) (h : Helper V X)
      → n ≤ i
      → number_done n (update helper i h) ≡ number_done n helper
  unfolding number_done
  number_done-outside zero i helper h l = refl
  number_done-outside (suc n) i helper h l = omega (
    arith,
    number_done-outside n i helper h (omega (arith, l)),
    ap one_done (update-other helper i n h (λ z. omega (arith, l, z))),
  )

  pub number_done-update :
      (n i : ℕ) (helper : ℕ → Helper V X) (h : Helper V X)
      → i < n
      → number_done n (update helper i h) + one_done (helper i) ≡ number_done n helper + one_done h
  unfolding number_done
  number_done-update zero i helper h l = absurd (omega arith)
  number_done-update (suc n) i helper h l = elim (dec_lt i n) [
    | yes less ↦ omega (
      arith,
      number_done-update n i helper h less,
      ap one_done (update-other helper i n h (λ z. omega (arith, less, z))),
    )
    | no more ↦
        let e : i ≡ n = omega (arith, more, l) in
        omega (
          arith,
          number_done-outside n i helper h (omega (arith, more)),
          ap one_done (ap (update helper i h) (sym e) ∙ update-same helper i h),
          ap (λ j. one_done (helper j)) e,
        )
  ]

  pub number_done-le : (n : ℕ) (helper : ℕ → Helper V X) → number_done n helper ≤ n
  unfolding number_done
  number_done-le zero helper = omega arith
  number_done-le (suc n) helper = omega (arith, number_done-le n helper, one_done-le (helper n))

  pub number_done-lt :
      (n i : ℕ) (helper : ℕ → Helper V X)
      → i < n
      → one_done (helper i) ≡ 0
      → number_done n helper < n
  unfolding number_done
  number_done-lt zero i helper l h = absurd (omega arith)
  number_done-lt (suc n) i helper l h = elim (dec_lt i n) [
    | yes less ↦ omega (arith, number_done-lt n i helper less h, one_done-le (helper n))
    | no more ↦
        let e : i ≡ n = omega (arith, more, l) in
        omega (arith, number_done-le n helper, h, ap (λ j. one_done (helper j)) e)
  ]

pub decrement_lem : (count : ℕ) → 0 < count → count < 2 ^ 64 → decrement count + 1 ≡ count
decrement_lem count p l = omega arith

pub number_done-initial :
    (V X : Type 0) (n : ℕ) (helper : ℕ → Helper V X)
    → ((i : ℕ) → helper i ≡ initial)
    → number_done n helper ≡ 0
unfolding number_done
number_done-initial V X zero helper h = refl
number_done-initial V X (suc n) helper h =
    omega (arith, number_done-initial V X n helper h, ap one_done (h n))
