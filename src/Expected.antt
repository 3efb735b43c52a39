-- ===== src/Expected.antt =====
-- co_async/utils/expected.hpp: `Expected<T>`, a value or a `std::error_code`, and the way in which
-- `co_await` passes errors on (`await_transform` of co_async/awaiter/task.hpp). The overloads of a
-- method for the value categories of `*this` are one function.
pub mod Laws
use mcoro.Prelude.{
  ℕ, Bool, true, false, Option, none, some, ◌&&◌, ◌==◌, if◌then◌else◌, ◌⊎◌, inl, inr,
}

-- An `std::error_category`: the generic one, that of `eofError` in co_async/iostream/stream_base.hpp,
-- or another.
pub data Category : Type 0 where
  generic : Category
  eof : Category
  another : ℕ → Category

-- Categories are the same if they are the same object.
abbrev pub same_category : Category → Category → Bool
same_category generic generic = true
same_category eof eof = true
same_category (another a) (another b) = a == b
same_category _ _ = false

pub record ErrorCode : Type 0 where
  pub code : ℕ
  pub category : Category

-- `operator==` of two `std::error_code`.
abbrev pub same_error : ErrorCode → ErrorCode → Bool
same_error e f = (e.code == f.code) && same_category e.category f.category

-- `eofError()`
abbrev pub eof_error : ErrorCode
eof_error = record { code = 1; category = eof }

-- An `std::errc`, by its number.
abbrev pub errc : ℕ → ErrorCode
errc n = record { code = n; category = generic }

pub data Expected {ℓ} (A : Type ℓ) : Type ℓ where
  value : A → Expected A
  error : ErrorCode → Expected A

module _ {ℓ} {A : Type ℓ} where
  unfoldable pub has_error : Expected A → Bool
  has_error (value a) = false
  has_error (error e) = true

  unfoldable pub has_value : Expected A → Bool
  has_value (value a) = true
  has_value (error e) = false

  -- `value()`, which throws the error as an `std::system_error`, and `repr()`.
  unfoldable pub repr : Expected A → A ⊎ ErrorCode
  repr (value a) = inl a
  repr (error e) = inr e

  unfoldable pub value_or : A → Expected A → A
  value_or d (value a) = a
  value_or d (error e) = d

  unfoldable pub opt_value : Expected A → Option A
  opt_value (value a) = some a
  opt_value (error e) = none

  unfoldable pub opt_error : Expected A → Option ErrorCode
  opt_error (value a) = none
  opt_error (error e) = some e

  -- `ignore_error(e, d)`
  unfoldable pub ignore_error : ErrorCode → A → Expected A → Expected A
  ignore_error e d (value a) = value a
  ignore_error e d (error f) = if same_error f e then value d else error f

  -- `or_else(f)`, where `f` returns an `Expected`.
  unfoldable pub or_else : Expected A → Expected A → Expected A
  or_else f (value a) = value a
  or_else f (error e) = f

  -- `or_else(e, f)`
  unfoldable pub or_else_on : ErrorCode → Expected A → Expected A → Expected A
  or_else_on e f (value a) = value a
  or_else_on e f (error g) = if same_error g e then f else error g

module _ {ℓ κ} {A : Type ℓ} {B : Type κ} where
  unfoldable pub transform : (A → B) → Expected A → Expected B
  transform f (value a) = value (f a)
  transform f (error e) = error e

  -- `and_then(f)`; `co_await` of an `Expected` in a task that returns one, with the rest of the task
  -- as `f`.
  abbrev pub and_then : Expected A → (A → Expected B) → Expected B
  and_then (value a) f = f a
  and_then (error e) f = error e
