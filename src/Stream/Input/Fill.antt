-- ===== src/Stream/Input/Fill.antt =====
-- `fillbuf`, over a device that delivers a text.
use mcoro.Prelude.{
  ℕ, ◌+◌, ◌-◌, ◌≤◌, ◌<◌, ◌≡◌, refl, ◌⊎◌, inl, inr, none, some, [], ◌∷◌, ◌++◌, arith, ap, sym, ◌∙◌,
  length, take, drop, take-zero_eq, take-append, length-append, length-take, length-replicate,
  length-drop, drop-take, drop-drop, ==_ne, ◌==◌, Bool-cases,
}
use mcoro.Strings.{Bytes}
use mcoro.Expected.{Expected, value, error, eof_error}
use mcoro.Stream.{Stream, BytesBuffer, bytes, size, stream_buffer_size, overwrite, BorrowedStream}
use mcoro.Stream.Input.{peekbuf, filled, fillbuf, refill}

module _ {S : Type 0} (ahead : S → Bytes) where
  -- What the outcome of `raw_read` for `n` bytes says of the text ahead: the bytes read are its first
  -- ones, and there are at most `n`; none are read into a span that has room only at the end of the
  -- text; an error leaves the text as it is.
  abbrev pub Delivered : ℕ → S → Expected Bytes × S → Type 0
  Delivered n s (error e, s') = (ahead s' ≡ ahead s) × (e ≡ eof_error → ahead s ≡ [])
  Delivered n s (value chunk, s') =
      (ahead s ≡ chunk ++ ahead s') × (length chunk ≤ n) × (0 < n → chunk ≡ [] → ahead s ≡ [])

  -- The device delivers its text.
  abbrev pub Delivers : Stream S → Type 0
  Delivers device = (n : ℕ) (s : S) → Delivered n s (device.raw_read n s)

  -- What is left to read: the bytes in the buffer, then those of the device.
  abbrev pub unread : BorrowedStream S → Bytes
  unread b = peekbuf b ++ ahead b.raw

-- The pointers lie in order in the buffer, which has room once it is allocated.
pub record IsReady {S : Type 0} (b : BorrowedStream S) : Type 0 where
  pub index_le : b.in_index ≤ b.in_end
  pub end_le : b.in_end ≤ size b.in_buffer
  pub has_room : (b.in_buffer ≡ none) ⊎ (0 < size b.in_buffer)

pub peekbuf-empty : {S : Type 0} (b : BorrowedStream S) → b.in_index ≡ b.in_end → peekbuf b ≡ []
unfolding peekbuf
peekbuf-empty b e = take-zero_eq (b.in_end - b.in_index) _ (omega arith)

module _ {S : Type 0} (ahead : S → Bytes) where
  -- What a rewind and a fill do: the text ahead moves to the buffer, and some of it came; or there is
  -- an error, nothing of the text is gone, and the buffer is empty.
  abbrev pub Refilled : BorrowedStream S → Expected (Unit {0}) × BorrowedStream S → Type 0
  Refilled b (value u, b') =
      (ahead b.raw ≡ unread ahead b') × (length (ahead b'.raw) < length (ahead b.raw)) × IsReady b'
  Refilled b (error e, b') =
      (ahead b'.raw ≡ ahead b.raw)
      × (e ≡ eof_error → ahead b.raw ≡ [])
      × (peekbuf b' ≡ [])
      × IsReady b'

  -- The buffer after a fill from index 0 shows what was read.
  peekbuf-overwrite :
      (b : BorrowedStream S) (chunk bs : Bytes) (s : S)
      → peekbuf (record b {
        raw = s;
        in_buffer = some (overwrite 0 chunk bs);
        in_index = 0;
        in_end = 0 + length chunk;
      })
        ≡ chunk
  unfolding peekbuf
  peekbuf-overwrite b chunk bs s =
      let n : 0 + length chunk - 0 ≡ length chunk = omega arith in
      rw n (take-append chunk (drop (0 + length chunk) bs))

  filled-Refilled :
      (b : BorrowedStream S) (bs : Bytes) (r : Expected Bytes × S)
      → 0 < length bs
      → Delivered ahead (length bs - 0) b.raw r
      → Refilled b (filled (record b { in_buffer = some bs; in_index = 0; in_end = 0 }) r)
  unfolding filled
  filled-Refilled b bs (error e, s) room d = (
    d.0,
    d.1,
    peekbuf-empty _ refl,
    record { index_le = omega arith; end_le = omega arith; has_room = inr room },
  )
  filled-Refilled b bs (value [], s) room d = (
    sym d.0,
    λ e. d.2 (omega arith) refl,
    peekbuf-empty _ refl,
    record { index_le = omega arith; end_le = omega arith; has_room = inr room },
  )
  filled-Refilled b bs (value (c ∷ chunk), s) room d =
      let some_read = ==_ne (length (c ∷ chunk)) 0 (omega arith) in
      let long = length-append (c ∷ chunk) (drop (0 + length (c ∷ chunk)) bs) in
      rw some_read (
        rw (peekbuf-overwrite b (c ∷ chunk) bs s) d.0,
        omega (arith, ap length d.0, length-append (c ∷ chunk) (ahead s)),
        record {
          index_le = omega arith;
          end_le = omega (arith, long);
          has_room = inr (omega arith);
        },
      )

  fill_rewound :
      (device : Stream S)
      → Delivers ahead device
      → (buffer : BytesBuffer) (b : BorrowedStream S) → (buffer ≡ none) ⊎ (0 < size buffer)
      → Refilled b (fillbuf device (record b { in_buffer = buffer; in_index = 0; in_end = 0 }))
  unfolding fillbuf
  fill_rewound device law none b room =
      filled-Refilled b _ _ (omega (arith, length-replicate {A = ℕ} stream_buffer_size 0)) (law _ _)
  fill_rewound device law (some bs) b (inl e) = cc
  fill_rewound device law (some bs) b (inr lt) = filled-Refilled b bs _ lt (law _ _)

  -- A rewind and `fillbuf()` of a stream whose pointers are in order, over a device that delivers
  -- a text. On success the bytes that the device held are those that the buffer shows and those
  -- that it holds now, which are fewer. On an error, which is `eofError` only at the end of the
  -- text, the device has the text that it had, and the buffer shows nothing. The pointers are in
  -- order afterwards.
  pub refill-Refilled :
      (device : Stream S)
      → Delivers ahead device
      → (b : BorrowedStream S) → IsReady b
      → Refilled b (refill device b)
  refill-Refilled device law b ready = fill_rewound device law b.in_buffer b ready.has_room

filled-index :
    {S : Type 0} (b : BorrowedStream S) (r : Expected Bytes × S)
    → (filled b r).1.in_index ≡ b.in_index
unfolding filled
filled-index b (error e, s) = refl
filled-index b (value chunk, s) = elim (Bool-cases (length chunk == 0)) [
  | inl e ↦ rw e refl
  | inr e ↦ rw e refl
]

-- A rewind and a fill leave the read index at the front.
pub refill-index :
    {S : Type 0} (device : Stream S) (b : BorrowedStream S) → (refill device b).1.in_index ≡ 0
unfolding fillbuf
refill-index device b = go b.in_buffer
  where
    go :
        (bs : BytesBuffer)
        → (fillbuf device (record b { in_buffer = bs; in_index = 0; in_end = 0 })).1.in_index ≡ 0
    go none = filled-index _ _
    go (some bs) = filled-index _ _

-- The stream after `k` bytes were taken from the buffer.
abbrev pub consumed : {S : Type 0} → ℕ → BorrowedStream S → BorrowedStream S
consumed k b = record b { in_index = b.in_index + k }

module _ {S : Type 0} (b : BorrowedStream S) (ready : IsReady b) where
  pub length-peekbuf : length (peekbuf b) ≡ b.in_end - b.in_index
  unfolding peekbuf
  length-peekbuf = omega (
    arith,
    ready,
    length-take (b.in_end - b.in_index) (drop b.in_index (bytes b.in_buffer)),
    length-drop b.in_index (bytes b.in_buffer),
  )

  pub peekbuf-consumed :
      (k : ℕ) → k ≤ length (peekbuf b) → peekbuf (consumed k b) ≡ drop k (peekbuf b)
  unfolding peekbuf
  peekbuf-consumed k h = sym (
      drop-take k (b.in_end - b.in_index) (b.in_end - (b.in_index + k)) _ (omega arith)
      ∙ ap (take (b.in_end - (b.in_index + k)))
          (drop-drop b.in_index k (b.in_index + k) (bytes b.in_buffer) refl))

  pub consumed-IsReady : (k : ℕ) → k ≤ length (peekbuf b) → IsReady (consumed k b)
  consumed-IsReady k h = record {
    index_le = omega (arith, ready, length-peekbuf);
    end_le = ready.end_le;
    has_room = ready.has_room;
  }
