-- ===== src/Registered.antt =====
-- co_async/platform/platform_io.cpp: the buffers and the files that `PlatformIOContext` registers with its
-- ring. The two tables have the same code over another type of entry, which is a parameter. The calls of
-- liburing are a parameter, too: each gives the code of an error that it returns, or `none`, and what
-- becomes of the kernel's state. An exception is a result; a write behind an array is `undefined`. A
-- copy of no bytes is defined, and memory is never short.
pub mod Room
use mcoro.Prelude.{
  map, ℕ, zero, suc, ◌+◌, ◌*◌, ◌%◌, ◌^◌, Bool, true, false, Option, none, some, List, ◌++◌, ◌==◌,
  ◌&&◌, if◌then◌else◌, leb, Access, done, undefined, and_then, ◌⊎◌, inl, inr, length, take, drop,
  replicate,
}

-- `io_uring_unregister_buffers`, `io_uring_register_buffers_sparse` and
-- `io_uring_register_buffers_update_tag`, or those for files.
pub record Ring (K A : Type 0) : Type 0 where
  pub unregister : K → Option ℕ × K
  pub register_sparse : ℕ → K → Option ℕ × K
  pub update_tag : ℕ → List A → K → Option ℕ × K

-- `mBuffers`, `mNumBufs` and `mCapBufs`, or those for files, and the kernel's state.
pub record Table (K A : Type 0) : Type 0 where
  pub kernel : K
  pub items : List A
  pub num : ℕ
  pub cap : ℕ

-- Code that changes a table, and may throw the code of an error.
abbrev pub Act : Type 0 → Type 0 → Type 0
Act S B = S → Access ((ℕ ⊎ B) × S)

abbrev pub bind : {S A B : Type 0} → (A → Act S B) → (ℕ ⊎ A) × S → Access ((ℕ ⊎ B) × S)
bind k (inl e, s) = done (inl e, s)
bind k (inr a, s) = k a s

module _ {S A B : Type 0} where
  infixl 5 ◌>>=◌ ◌>>◌
  abbrev pub ◌>>=◌ : Act S A → (A → Act S B) → Act S B
  c >>= k = λ s. and_then (c s) (bind k)

  abbrev pub ◌>>◌ : Act S A → Act S B → Act S B
  c >> d = c >>= λ _. d

abbrev pub return : {S A : Type 0} → A → Act S A
return a = λ s. done (inr a, s)

-- The value of an `unsigned int`.
abbrev pub uint : ℕ → ℕ
uint n = n % 2 ^ 32

module _ {K A : Type 0} where
  abbrev pub thrown : Table K A → Option ℕ × K → Access ((ℕ ⊎ Unit {0}) × Table K A)
  thrown s (none, k) = done (inr tt, record s { kernel = k })
  thrown s (some e, k) = done (inl e, record s { kernel = k })

  -- `throwingError`.
  unfoldable pub throwing_error : (K → Option ℕ × K) → Act (Table K A) (Unit {0})
  throwing_error call s = thrown s (call s.kernel)

  -- `std::memcpy` of the entries of the old array.
  unfoldable pub copy_items : List A → Act (Table K A) (Unit {0})
  copy_items old s =
      if leb s.num (length s.items) && leb s.num (length old)
      then done (inr tt, record s { items = take s.num old ++ drop s.num s.items })
      else undefined

  -- The loop over the new entries, from the end of those that there are.
  unfoldable pub store_items : List A → Act (Table K A) (Unit {0})
  store_items new s =
      if leb (s.num + length new) (length s.items)
      then done (
        inr tt,
        record s { items = take s.num s.items ++ new ++ drop (s.num + length new) s.items },
      )
      else undefined

module _ {K A : Type 0} (ring : Ring K A) (empty_item : A) where
  -- The end of `reserveBuffers`, from the new capacity on.
  unfoldable pub resize : ℕ → List A → Act (Table K A) (Unit {0})
  resize n old = do
    λ t. done (inr tt, record t { cap = uint n })
    copy_items old
    throwing_error (ring.register_sparse (uint n))
    λ t. throwing_error (ring.update_tag 0 (take t.num t.items)) t

  -- `reserveBuffers` and `reserveFiles`.
  unfoldable pub reserve : ℕ → Act (Table K A) (Unit {0})
  reserve n s =
      let unregister = if s.cap == 0 then return tt else throwing_error ring.unregister in
      (unregister >> resize n s.items) (record s { items = replicate n empty_item })

  -- `addBuffers` and `addFiles`, from the stores on.
  unfoldable pub append : List A → Act (Table K A) ℕ
  append new = do
    store_items new
    λ t. throwing_error (ring.update_tag t.num (take (uint (length new)) new)) t
    λ t. done (inr t.num, record t { num = uint (t.num + uint (length new)) })

  -- `addBuffers` and `addFiles`.
  unfoldable pub add : List A → Act (Table K A) ℕ
  add new s =
      let room = if leb s.cap s.num then reserve (uint (s.cap * 2 + 1)) else return tt in
      (room >> append new) s

-- `struct iovec`, and a span of bytes.
pub record IoVec : Type 0 where
  pub iov_base : ℕ
  pub iov_len : ℕ

pub record Span : Type 0 where
  pub start : ℕ
  pub size : ℕ

abbrev pub no_buffer : IoVec
no_buffer = record { iov_base = 0; iov_len = 0 }

abbrev pub io_vec : Span → IoVec
io_vec buf = record { iov_base = buf.start; iov_len = buf.size }

module _ {K : Type 0} where
  unfoldable pub reserve_files : Ring K ℕ → ℕ → Act (Table K ℕ) (Unit {0})
  reserve_files ring = reserve ring 0

  unfoldable pub add_buffers : Ring K IoVec → List Span → Act (Table K IoVec) ℕ
  add_buffers ring bufs = add ring no_buffer (map io_vec bufs)

  unfoldable pub add_files : Ring K ℕ → List ℕ → Act (Table K ℕ) ℕ
  add_files ring = add ring 0
