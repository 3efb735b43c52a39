-- ===== src/Stream/Input.antt =====
-- The reading half of `BorrowedStream`. A loop takes fuel and gives `none` when that runs out. A
-- string parameter that is appended to is returned beside the result.
pub mod Fill
pub mod Line
pub mod Count
pub mod All
pub mod Peek
use mcoro.Prelude.{
  ℕ, zero, suc, ◌+◌, ◌-◌, ◌%◌, ◌^◌, min, Bool, true, false, Option, none, some, List, [], ◌∷◌, ◌++◌,
  leb, ltb, ◌==◌, if◌then◌else◌, length, get_elem?, take, drop,
}
use mcoro.Strings.{Bytes, find_char}
use mcoro.Expected.{Expected, value, error, eof_error, errc, transform, or_else_on}
use mcoro.Stream.{
  Stream, BytesBuffer, bytes, size, allocate, stream_buffer_size, overwrite, BorrowedStream,
}

module _ {S : Type 0} where
  -- `peekbuf()`: the bytes that are filled in and not yet consumed.
  unfoldable pub peekbuf : BorrowedStream S → Bytes
  peekbuf b = take (b.in_end - b.in_index) (drop b.in_index (bytes b.in_buffer))

  unfoldable pub bufempty : BorrowedStream S → Bool
  bufempty b = b.in_index == b.in_end

  unfoldable pub seenbuf : ℕ → BorrowedStream S → BorrowedStream S
  seenbuf n b = record b { in_index = b.in_index + n }

  abbrev pub allocinbuf : ℕ → BorrowedStream S → BorrowedStream S
  allocinbuf n b = elim b.in_buffer [
    | some bs ↦ b
    | none ↦ record b { in_buffer = allocate n; in_index = 0; in_end = 0 }
  ]

  -- `mInEnd = mInIndex = 0`
  abbrev pub rewind : BorrowedStream S → BorrowedStream S
  rewind b = record b { in_index = 0; in_end = 0 }

  -- `start + n`, a `std::size_t` of 64 bits, where `start` is the read index.
  abbrev pub span_end : BorrowedStream S → ℕ → ℕ
  span_end b n = (b.in_index + n) % 2 ^ 64

  -- `tryread`: the bytes copied out.
  unfoldable pub tryread : ℕ → BorrowedStream S → Bytes × BorrowedStream S
  unfolding peekbuf seenbuf
  tryread n b = let k = min n (length (peekbuf b)) in (take k (peekbuf b), seenbuf k b)

  -- What `fillbuf` does with the outcome of `raw_read`.
  unfoldable pub filled :
      BorrowedStream S → Expected Bytes × S → Expected (Unit {0}) × BorrowedStream S
  filled b (error e, s) = (error e, record b { raw = s })
  filled b (value chunk, s) =
      if length chunk == 0 then (error eof_error, record b { raw = s }) else (
        value tt,
        record b {
          raw = s;
          in_buffer = some (overwrite b.in_index chunk (bytes b.in_buffer));
          in_end = b.in_index + length chunk;
        },
      )

  module _ (device : Stream S) where
    unfoldable pub fillbuf : BorrowedStream S → Expected (Unit {0}) × BorrowedStream S
    fillbuf b =
        let b' = allocinbuf stream_buffer_size b in
        filled b' (device.raw_read (size b'.in_buffer - b'.in_index) b'.raw)

    -- The rewind and the fill that precede a read from an empty buffer.
    abbrev pub refill : BorrowedStream S → Expected (Unit {0}) × BorrowedStream S
    refill b = fillbuf (rewind b)

    abbrev pub ensure : BorrowedStream S → Expected (Unit {0}) × BorrowedStream S
    ensure b = if bufempty b then refill b else (value tt, b)

    -- The byte at the read index; it is there after `ensure` succeeded.
    abbrev pub current : BorrowedStream S → ℕ
    current b = elim (get_elem? (bytes b.in_buffer) b.in_index) [ none ↦ 0 | some c ↦ c ]

    unfoldable pub getchar : BorrowedStream S → Expected ℕ × BorrowedStream S
    getchar b = elim (ensure b).0 [
      | error e ↦ (error e, (ensure b).1)
      | value u ↦ (
        value (current (ensure b).1),
        record (ensure b).1 { in_index = (ensure b).1.in_index + 1 },
      )
    ]

    unfoldable pub peekchar : BorrowedStream S → Expected ℕ × BorrowedStream S
    peekchar b = elim (ensure b).0 [
      | error e ↦ (error e, (ensure b).1)
      | value u ↦ (value (current (ensure b).1), (ensure b).1)
    ]

    unfoldable pub getchunk : BorrowedStream S → Expected Bytes × BorrowedStream S
    unfolding peekbuf seenbuf
    getchunk b = elim (ensure b).0 [
      | error e ↦ (error e, (ensure b).1)
      | value u ↦
          (value (peekbuf (ensure b).1), seenbuf (length (peekbuf (ensure b).1)) (ensure b).1)
    ]

    -- `getline(s, eol)` for a char. The search starts at the read index in every round.
    unfoldable pub getline :
        ℕ → ℕ → Bytes → BorrowedStream S → Option (Expected (Unit {0}) × Bytes × BorrowedStream S)
    getline zero eol s b = none
    getline (suc fuel) eol s b = elim (find_char eol (peekbuf b)) [
      | some i ↦
          some (value tt, s ++ take i (peekbuf b), record b { in_index = b.in_index + i + 1 })
      | none ↦ elim (refill b).0 [
        | error e ↦ some (error e, s ++ peekbuf b, (refill b).1)
        | value u ↦ getline fuel eol (s ++ peekbuf b) (refill b).1
      ]
    ]

    -- `dropline(eol)` for a char.
    unfoldable pub dropline :
        ℕ → ℕ → BorrowedStream S → Option (Expected (Unit {0}) × BorrowedStream S)
    dropline zero eol b = none
    dropline (suc fuel) eol b = elim (find_char eol (peekbuf b)) [
      | some i ↦ some (value tt, record b { in_index = b.in_index + i + 1 })
      | none ↦ elim (refill b).0 [
        | error e ↦ some (error e, (refill b).1)
        | value u ↦ dropline fuel eol (refill b).1
      ]
    ]

    -- `getn(s, n)`. The bytes are there when `span_end` does not wrap; where it does, the code reads on
    -- behind the buffer, and here nothing is read behind it. A count that goes on to the next
    -- buffer is more than what this one shows, so the subtraction does not wrap.
    unfoldable pub getn :
        ℕ → ℕ → Bytes → BorrowedStream S → Option (Expected (Unit {0}) × Bytes × BorrowedStream S)
    getn zero n s b = none
    getn (suc fuel) n s b =
        let more : Option (Expected (Unit {0}) × Bytes × BorrowedStream S) = elim (refill b).0 [
          | error e ↦ some (error e, s ++ peekbuf b, (refill b).1)
          | value u ↦ getn fuel (n - (b.in_end - b.in_index)) (s ++ peekbuf b) (refill b).1
        ] in
        if leb (span_end b n) b.in_end
        then some (
          value tt,
          s ++ take n (drop b.in_index (bytes b.in_buffer)),
          record b { in_index = span_end b n },
        )
        else more

    -- `dropn(n)`
    unfoldable pub dropn :
        ℕ → ℕ → BorrowedStream S → Option (Expected (Unit {0}) × BorrowedStream S)
    dropn zero n b = none
    dropn (suc fuel) n b =
        let more : Option (Expected (Unit {0}) × BorrowedStream S) = elim (refill b).0 [
          | error e ↦ some (error e, (refill b).1)
          | value u ↦ dropn fuel (n - (b.in_end - b.in_index)) (refill b).1
        ] in
        if leb (span_end b n) b.in_end
        then some (value tt, record b { in_index = span_end b n })
        else more

    -- `getspan(s)` for a span of `n` bytes. `out` is what was copied to `p` so far: the span, and
    -- what lies behind it. The line that would take from `n` what was copied is commented out.
    unfoldable pub getspan :
        ℕ → ℕ → Bytes → BorrowedStream S → Option (Expected (Unit {0}) × Bytes × BorrowedStream S)
    getspan zero n out b = none
    getspan (suc fuel) n out b =
        let more : Option (Expected (Unit {0}) × Bytes × BorrowedStream S) = elim (refill b).0 [
          | error e ↦ some (error e, out ++ peekbuf b, (refill b).1)
          | value u ↦ getspan fuel n (out ++ peekbuf b) (refill b).1
        ] in
        if leb (span_end b n) b.in_end
        then some (
          value tt,
          out ++ take n (drop b.in_index (bytes b.in_buffer)),
          record b { in_index = span_end b n },
        )
        else more

    -- The test of the loops that read to the end.
    abbrev pub until_eof : Expected (Unit {0}) → Expected Bool
    until_eof r = or_else_on eof_error (value false) (transform (λ u. true) r)

    -- `getall(s)`
    unfoldable pub getall :
        ℕ → Bytes → BorrowedStream S → Option (Expected (Unit {0}) × Bytes × BorrowedStream S)
    getall zero s b = none
    getall (suc fuel) s b = elim (until_eof (refill b).0) [
      | error e ↦ some (error e, s ++ peekbuf b, (refill b).1)
      | value true ↦ getall fuel (s ++ peekbuf b) (refill b).1
      | value false ↦ some (value tt, s ++ peekbuf b, (refill b).1)
    ]

    -- `dropall()`
    unfoldable pub dropall : ℕ → BorrowedStream S → Option (Expected (Unit {0}) × BorrowedStream S)
    dropall zero b = none
    dropall (suc fuel) b = elim (until_eof (refill b).0) [
      | error e ↦ some (error e, (refill b).1)
      | value true ↦ dropall fuel (refill b).1
      | value false ↦ some (value tt, (refill b).1)
    ]

    -- `read(buffer)` for a buffer of `n` bytes: the bytes read.
    unfoldable pub read : ℕ → BorrowedStream S → Expected Bytes × BorrowedStream S
    read n b =
        let k = min (b.in_end - b.in_index) n in
        if bufempty b
        then ((device.raw_read n b.raw).0, record b { raw = (device.raw_read n b.raw).1 })
        else (
          value (take k (drop b.in_index (bytes b.in_buffer))),
          record b { in_index = b.in_index + k },
        )

    -- The loop of `peekn(s, n)`, which fills without moving the read index.
    unfoldable pub peekn_loop :
        ℕ → ℕ → Bytes → BorrowedStream S → Option (Expected (Unit {0}) × Bytes × BorrowedStream S)
    peekn_loop zero n s b = none
    peekn_loop (suc fuel) n s b =
        let more : Option (Expected (Unit {0}) × Bytes × BorrowedStream S) = elim (fillbuf b).0 [
          | error e ↦ some (error e, s, (fillbuf b).1)
          | value u ↦ peekn_loop fuel n s (fillbuf b).1
        ] in
        if ltb (b.in_end - b.in_index) n
        then more
        else some (value tt, s ++ take n (drop b.in_index (bytes b.in_buffer)), b)

    -- `std::memmove` of the unconsumed bytes to the front.
    abbrev pub compact : BorrowedStream S → BorrowedStream S
    compact b = record b {
      in_buffer = some (overwrite 0 (peekbuf b) (bytes b.in_buffer));
      in_end = b.in_end - b.in_index;
      in_index = 0;
    }

    -- `peekn(s, n)`; `value_too_large` is 75.
    unfoldable pub peekn :
        ℕ → ℕ → Bytes → BorrowedStream S → Option (Expected (Unit {0}) × Bytes × BorrowedStream S)
    peekn fuel n s b =
        if ltb (size b.in_buffer - b.in_index) n
        then if ltb (size b.in_buffer) n
          then some (error (errc 75), s, b)
          else peekn_loop fuel n s (compact b)
        else peekn_loop fuel n s b
