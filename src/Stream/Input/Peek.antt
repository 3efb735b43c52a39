-- ===== src/Stream/Input/Peek.antt =====
-- `getspan` and `peekn`.
use mcoro.Prelude.{
  ℕ, zero, suc, ◌+◌, ◌-◌, ◌^◌, ◌≤◌, ◌<◌, ◌≡◌, refl, true, false, Option, none, some, [], ◌∷◌, ◌++◌,
  ◌==◌, arith, ap, ◌∙◌, leb, ltb, length, take, drop, length-append, length-take, take-append,
}
use native.Mathlib.Nat.{mod-eq_of_lt}
use mcoro.Strings.{Bytes}
use mcoro.Expected.{Expected, value, error, errc}
use mcoro.Stream.{Stream, bytes, overwrite, BorrowedStream}
use mcoro.Stream.Input.{peekbuf, refill, fillbuf, filled, getspan, peekn, peekn_loop}
use mcoro.Stream.Input.Fill.{IsReady, length-peekbuf}
use mcoro.Stream.Input.Count.{take-peekbuf}

drop-append_le : (i : ℕ) (xs ys : Bytes) → i ≡ length xs → drop i (xs ++ ys) ≡ ys
drop-append_le zero [] ys e = refl
drop-append_le zero (x ∷ xs) ys e = absurd (omega arith)
drop-append_le (suc i) [] ys e = absurd (omega arith)
drop-append_le (suc i) (x ∷ xs) ys e = drop-append_le i xs ys (omega arith)

drop-overwrite :
    (i : ℕ) (chunk bs : Bytes)
    → i ≤ length bs
    → drop i (overwrite i chunk bs) ≡ chunk ++ drop (i + length chunk) bs
drop-overwrite i chunk bs h = drop-append_le i (take i bs) _ (omega (arith, length-take i bs))

take-append_le : (n : ℕ) (xs ys : Bytes) → n ≤ length xs → take n (xs ++ ys) ≡ take n xs
take-append_le zero xs ys h = refl
take-append_le (suc n) [] ys h = absurd (omega arith)
take-append_le (suc n) (x ∷ xs) ys h =
    ap (λ (t : Bytes). x ∷ t) (take-append_le n xs ys (omega arith))

module _ {S : Type 0} (device : Stream S) where
  span_fits :
      (fuel n : ℕ) (out : Bytes) (b : BorrowedStream S)
      → IsReady b
      → n ≤ length (peekbuf b)
      → b.in_index + n < 2 ^ 64
      → getspan device (suc fuel) n out b
        ≡ some (value tt, out ++ take n (peekbuf b), record b { in_index = b.in_index + n })
  unfolding getspan
  span_fits fuel n out b ready h small =
      let inside : b.in_index + n ≤ b.in_end = omega (arith, length-peekbuf b ready) in
      let test : leb (b.in_index + n) b.in_end ≡ true = ground arith in
      rw (mod-eq_of_lt small, test) (rw (take-peekbuf b n inside))

  span_short :
      (fuel n : ℕ) (out : Bytes) (b b' : BorrowedStream S)
      → IsReady b
      → length (peekbuf b) < n
      → b.in_index + n < 2 ^ 64
      → refill device b ≡ (value tt, b')
      → getspan device (suc fuel) n out b ≡ getspan device fuel n (out ++ peekbuf b) b'
  unfolding getspan
  span_short fuel n out b b' ready short small reads =
      let beyond : b.in_end < b.in_index + n = omega (arith, length-peekbuf b ready) in
      let test : leb (b.in_index + n) b.in_end ≡ false = ground arith in
      rw (mod-eq_of_lt small, test) (round (refill device b) reads)
    where
      round :
          (r : Expected (Unit {0}) × BorrowedStream S)
          → r ≡ (value tt, b')
          → ◌≡◌ {A = Option (Expected (Unit {0}) × Bytes × BorrowedStream S)}
              (elim r.0 [
                | error e ↦ some (error e, out ++ peekbuf b, r.1)
                | value u ↦ getspan device fuel n (out ++ peekbuf b) r.1
              ])
              (getspan device fuel n (out ++ peekbuf b) b')
      round (value u, b'') e =
          ap
            (λ (r : Expected (Unit {0}) × BorrowedStream S).
              getspan device fuel n (out ++ peekbuf b) r.1)
            e
      round (error c, b'') e = cc

  -- `getspan` of `n` bytes, of a stream whose pointers are in order, when the buffer holds fewer
  -- and the next fill brings at least `n`: it copies all that the buffer held and then `n` bytes
  -- more, so it writes as many bytes behind the end of the span as the buffer held.
  pub getspan-short :
      (fuel n : ℕ) (b b' : BorrowedStream S)
      → IsReady b
      → length (peekbuf b) < n
      → refill device b ≡ (value tt, b')
      → IsReady b'
      → n ≤ length (peekbuf b')
      → b.in_index + n < 2 ^ 64
      → b'.in_index + n < 2 ^ 64
      → let written = peekbuf b ++ take n (peekbuf b') in
        (getspan device (suc (suc fuel)) n [] b
          ≡ some (value tt, written, record b' { in_index = b'.in_index + n }))
        × (length written ≡ length (peekbuf b) + n)
  getspan-short fuel n b b' ready short reads ready' h small small' = (
    span_short (suc fuel) n [] b b' ready short small reads
        ∙ span_fits fuel n (peekbuf b) b' ready' h small',
    omega (arith, length-append (peekbuf b) (take n (peekbuf b')), length-take n (peekbuf b')),
  )

  -- Before the first fill there is no buffer, and `peekn` of a positive count fails with
  -- `value_too_large`, whatever the device holds.
  pub peekn-unallocated :
      (fuel n : ℕ) (s : Bytes) (b : BorrowedStream S)
      → b.in_buffer ≡ none
      → 0 < n
      → peekn device fuel n s b ≡ some (error (errc 75), s, b)
  unfolding peekn
  peekn-unallocated fuel n s b e h = ground (arith, e)

  -- The stream after a fill from the read index on.
  abbrev refilled_at : BorrowedStream S → Bytes → Bytes → S → BorrowedStream S
  refilled_at b bs chunk dev = record b {
    in_buffer = some (overwrite b.in_index chunk bs);
    in_end = b.in_index + length chunk;
    raw = dev;
  }

  fill_at_index :
      (b : BorrowedStream S) (bs chunk : Bytes) (dev : S)
      → device.raw_read (length bs - b.in_index) b.raw ≡ (value chunk, dev)
      → 0 < length chunk
      → fillbuf device (record b { in_buffer = some bs }) ≡ (value tt, refilled_at b bs chunk dev)
  unfolding fillbuf filled
  fill_at_index b bs chunk dev reads some_read =
      let test : (length chunk == 0) ≡ false = ground arith in rw reads (rw test)

  peekbuf-refilled_at :
      (b : BorrowedStream S) (bs chunk : Bytes) (dev : S)
      → b.in_index ≤ length bs
      → peekbuf (refilled_at b bs chunk dev) ≡ chunk
  unfolding peekbuf
  peekbuf-refilled_at b bs chunk dev h =
      let n : b.in_index + length chunk - b.in_index ≡ length chunk = omega arith in
      rw (n, drop-overwrite b.in_index chunk bs h) (take-append chunk _)

  peekn_step :
      (fuel n : ℕ) (s : Bytes) (b b' : BorrowedStream S)
      → ltb (b.in_end - b.in_index) n ≡ true
      → fillbuf device b ≡ (value tt, b')
      → peekn_loop device (suc fuel) n s b ≡ peekn_loop device fuel n s b'
  unfolding peekn_loop
  peekn_step fuel n s b b' few fills = rw few (round (fillbuf device b) fills)
    where
      round :
          (r : Expected (Unit {0}) × BorrowedStream S)
          → r ≡ (value tt, b')
          → ◌≡◌ {A = Option (Expected (Unit {0}) × Bytes × BorrowedStream S)}
              (elim r.0 [
                | error e ↦ some (error e, s, r.1)
                | value u ↦ peekn_loop device fuel n s r.1
              ])
              (peekn_loop device fuel n s b')
      round (value u, b'') e =
          ap (λ (r : Expected (Unit {0}) × BorrowedStream S). peekn_loop device fuel n s r.1) e
      round (error c, b'') e = cc

  peekn_end :
      (fuel n : ℕ) (s : Bytes) (b : BorrowedStream S)
      → ltb (b.in_end - b.in_index) n ≡ false
      → peekn_loop device (suc fuel) n s b
        ≡ some (value tt, s ++ take n (drop b.in_index (bytes b.in_buffer)), b)
  unfolding peekn_loop
  peekn_end fuel n s b enough = rw enough

  -- `peekn(s, n)` when the buffer shows fewer than `n` bytes but has room for `n`, and the device
  -- brings a chunk of at least `n`: the chunk takes the place of the bytes that the buffer
  -- showed, and `s` gets the first `n` bytes of the chunk alone.
  pub peekn-short :
      (fuel n : ℕ) (s bs chunk : Bytes) (b : BorrowedStream S) (dev : S)
      → b.in_index ≤ b.in_end
      → b.in_end < b.in_index + n
      → b.in_index + n ≤ length bs
      → device.raw_read (length bs - b.in_index) b.raw ≡ (value chunk, dev)
      → n ≤ length chunk
      → (b' : BorrowedStream S) × (peekn device
            (suc (suc fuel))
            n
            s
            (record b { in_buffer = some bs })
          ≡ some (value tt, s ++ take n chunk, b'))
        × (peekbuf b' ≡ chunk)
  unfolding peekn
  peekn-short fuel n s bs chunk b dev order short room reads long =
      let fits : ltb (length bs - b.in_index) n ≡ false = ground arith in
      let few : ltb (b.in_end - b.in_index) n ≡ true = ground arith in
      let enough : ltb (b.in_index + length chunk - b.in_index) n ≡ false = ground arith in
      let inside : b.in_index ≤ length bs = omega arith in
      let shown : ◌≡◌ {A = Option (Expected (Unit {0}) × Bytes × BorrowedStream S)}
          (some (
            value tt,
            s ++ take n (drop b.in_index (overwrite b.in_index chunk bs)),
            refilled_at b bs chunk dev,
          ))
          (some (value tt, s ++ take n chunk, refilled_at b bs chunk dev)) =
        rw (drop-overwrite b.in_index chunk bs inside, take-append_le n chunk _ long) in
      (
        refilled_at b bs chunk dev,
        rw fits (
            peekn_step (suc fuel) n s _ _ few (fill_at_index b bs chunk dev reads (omega arith))
            ∙ peekn_end fuel n s (refilled_at b bs chunk dev) enough
            ∙ shown),
        peekbuf-refilled_at b bs chunk dev inside,
      )
