-- ===== src/Expected/Laws.antt =====
-- The methods of `Expected` together.
use mcoro.Prelude.{◌≡◌, ◌≢◌, refl, ◌↔◌, ◌⊎◌, true, false, arith}
use mcoro.Expected.{
  Category, generic, eof, another, same_category, ErrorCode, same_error, eof_error, Expected, value,
  error, has_error, ignore_error, or_else_on, transform,
}

same_category_iff : (c d : Category) → (same_category c d ≡ true) ↔ (c ≡ d)
same_category_iff generic generic = (λ h. refl, λ h. refl)
same_category_iff eof eof = (λ h. refl, λ h. refl)
same_category_iff (another a) (another b) = ground arith
same_category_iff generic eof = (λ h. cc, λ h. cc)
same_category_iff generic (another b) = (λ h. cc, λ h. cc)
same_category_iff eof generic = (λ h. cc, λ h. cc)
same_category_iff eof (another b) = (λ h. cc, λ h. cc)
same_category_iff (another a) generic = (λ h. cc, λ h. cc)
same_category_iff (another a) eof = (λ h. cc, λ h. cc)

-- `operator==` of error codes decides equality.
pub same_error_iff : (e f : ErrorCode) → (same_error e f ≡ true) ↔ (e ≡ f)
same_error_iff e f = ground (arith, same_category_iff e.category f.category)

module _ {ℓ} {A : Type ℓ} where
  -- `ignore_error(e, d)` gives a value in two cases: `*this` has that value, or its error is `e`
  -- and the value is `d`. It gives an error exactly when `*this` has that error and the error is
  -- not `e`.
  pub ignore_error_lem :
      (e : ErrorCode) (d : A) (r : Expected A)
      → ((a : A) → (ignore_error e d r ≡ value a) ↔ ((r ≡ value a) ⊎ ((r ≡ error e) × (a ≡ d))))
        × ((f : ErrorCode) → (ignore_error e d r ≡ error f) ↔ ((r ≡ error f) × (f ≢ e)))
  unfolding ignore_error
  ignore_error_lem e d (value b) = (λ a. ground arith, λ f. ground arith)
  ignore_error_lem e d (error g) =
      (λ a. ground (arith, same_error_iff g e), λ f. ground (arith, same_error_iff g e))

  -- The test of the loops that read to the end of a stream gives true exactly on a value, false
  -- exactly on `eofError()`, and every other error as it is.
  pub until_eof_lem :
      (r : Expected A)
      → let more = or_else_on eof_error (value false) (transform (λ a. true) r) in
        ((more ≡ value true) ↔ (has_error r ≡ false))
        × ((more ≡ value false) ↔ (r ≡ error eof_error))
        × ((e : ErrorCode) → (more ≡ error e) ↔ ((r ≡ error e) × (e ≢ eof_error)))
  unfolding or_else_on transform has_error
  until_eof_lem (value a) = ground arith
  until_eof_lem (error g) = (
    ground (arith, same_error_iff g eof_error),
    ground (arith, same_error_iff g eof_error),
    λ e. ground (arith, same_error_iff g eof_error),
  )
