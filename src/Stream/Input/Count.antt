-- ===== src/Stream/Input/Count.antt =====
-- `getn` and `dropn`: the loops over a count of bytes.
use mcoro.Prelude.{
  ℕ, zero, suc, ◌+◌, ◌-◌, ◌^◌, ◌≤◌, ◌<◌, ◌≡◌, refl, inl, inr, Option, some, [], ◌++◌, arith, ap,
  sym, ◌∙◌, leb, Bool-cases, length, take, drop, append_assoc, length-append, take-append-drop,
  length-take, take-take,
}
use mathlib.Core.Option
use native.Mathlib.Nat.{mod-eq_of_lt}
use mcoro.Strings.{Bytes}
use mcoro.Expected.{Expected, value, error, eof_error}
use mcoro.Stream.{Stream, bytes, size, BorrowedStream}
use mcoro.Stream.Input.{peekbuf, refill, getn, dropn, span_end}
use mcoro.Stream.Input.Fill.{
  Delivers, unread, IsReady, Refilled, refill-Refilled, refill-index, consumed-IsReady,
  peekbuf-consumed, length-peekbuf,
}

-- `n` bytes from the read index on, where the buffer holds as many.
pub take-peekbuf :
    {S : Type 0} (b : BorrowedStream S) (n : ℕ)
    → b.in_index + n ≤ b.in_end
    → take n (drop b.in_index (bytes b.in_buffer)) ≡ take n (peekbuf b)
unfolding peekbuf
take-peekbuf b n h = sym (take-take n (b.in_end - b.in_index) _ (omega arith))

module _ {S : Type 0} (ahead : S → Bytes) where
  -- What a call of `getn(s, n)` does to `s` and the stream. On success the next `n` bytes were
  -- appended to `s` and are gone. On an error fewer bytes, all up to where the device failed, were
  -- appended and are gone; if the error is `eofError`, nothing is left to read.
  abbrev pub GotN :
      ℕ → Bytes → BorrowedStream S → Expected (Unit {0}) × Bytes × BorrowedStream S → Type 0
  GotN n s b (value u, s', b') =
      (taken : Bytes) × (s' ≡ s ++ taken)
      × (length taken ≡ n)
      × (unread ahead b ≡ taken ++ unread ahead b')
      × IsReady b'
  GotN n s b (error e, s', b') =
      (taken : Bytes) × (s' ≡ s ++ taken)
      × (length taken < n)
      × (unread ahead b ≡ taken ++ unread ahead b')
      × (peekbuf b' ≡ [])
      × (e ≡ eof_error → unread ahead b' ≡ [])
      × IsReady b'

  -- A count that goes on in the next buffer.
  extend :
      (n m : ℕ) (s p : Bytes) (b b' : BorrowedStream S)
      (r : Expected (Unit {0}) × Bytes × BorrowedStream S)
      → n ≡ length p + m
      → unread ahead b ≡ p ++ unread ahead b'
      → GotN m (s ++ p) b' r
      → GotN n s b r
  extend n m s p b b' (value u, s', b'') count split (taken, app, size, rest, ready) = (
    p ++ taken,
    app ∙ append_assoc s p taken,
    omega (arith, length-append p taken),
    split ∙ ap (λ (t : Bytes). p ++ t) rest ∙ sym (append_assoc p taken _),
    ready,
  )
  extend n m s p b b' (error e, s', b'') count split
        (taken, app, size, rest, empty, at_end, ready) =
      (
        p ++ taken,
        app ∙ append_assoc s p taken,
        omega (arith, length-append p taken),
        split ∙ ap (λ (t : Bytes). p ++ t) rest ∙ sym (append_assoc p taken _),
        empty,
        at_end,
        ready,
      )

  -- The count that ends in the buffer.
  counted :
      (n : ℕ) (s : Bytes) (b : BorrowedStream S)
      → IsReady b
      → b.in_index + n ≤ b.in_end
      → GotN n s b (
        value tt,
        s ++ take n (drop b.in_index (bytes b.in_buffer)),
        record b { in_index = b.in_index + n },
      )
  counted n s b ready h =
      let fits : n ≤ length (peekbuf b) = omega (arith, length-peekbuf b ready) in
      rw (take-peekbuf b n h) (
        take n (peekbuf b),
        refl,
        omega (arith, length-take n (peekbuf b)),
        rw (peekbuf-consumed b ready n fits) (
            ap (λ (t : Bytes). t ++ ahead b.raw) (sym (take-append-drop n (peekbuf b)))
            ∙ append_assoc (take n (peekbuf b)) (drop n (peekbuf b)) _),
        consumed-IsReady b ready n fits,
      )

  module _ (device : Stream S) (law : Delivers ahead device) where
    -- The round after a fill, for the `n` bytes that were to be read and the `m` that are left.
    next_round :
        (fuel n m : ℕ) (s : Bytes) (b : BorrowedStream S)
        (r : Expected (Unit {0}) × BorrowedStream S)
        → ((s' : Bytes) (b' : BorrowedStream S)
            → IsReady b'
            → length (ahead b'.raw) < fuel
            → b'.in_index ≡ 0
            → (r : Expected (Unit {0}) × Bytes × BorrowedStream S) × (getn device fuel m s' b'
                ≡ some r)
              × GotN m s' b' r)
        → length (ahead b.raw) < suc fuel
        → n ≡ length (peekbuf b) + m
        → length (peekbuf b) < n
        → Refilled ahead b r
        → r.1.in_index ≡ 0
        → (out : Expected (Unit {0}) × Bytes × BorrowedStream S) × ◌≡◌
            {A = Option (Expected (Unit {0}) × Bytes × BorrowedStream S)}
            (elim r.0 [
              | error e ↦ some (error e, s ++ peekbuf b, r.1)
              | value u ↦ getn device fuel m (s ++ peekbuf b) r.1
            ])
            (some out)
          × GotN n s b out
    next_round fuel n m s b (value u, b') rec h count short (moved, less, ready) front =
        let (out, runs, got) = rec (s ++ peekbuf b) b' ready (omega arith) front in
        let split = ap (λ (t : Bytes). peekbuf b ++ t) moved in
        (out, runs, extend n m s (peekbuf b) b b' out count split got)
    next_round fuel n m s b (error e, b') rec h count short (same, at_end, empty, ready) front = (
      (error e, s ++ peekbuf b, b'),
      refl,
      (
        peekbuf b,
        refl,
        short,
        rw empty (ap (λ (t : Bytes). peekbuf b ++ t) (sym same)),
        empty,
        λ eof. rw empty (same ∙ at_end eof),
        ready,
      ),
    )

    -- `getn(s, n)` of a stream whose pointers are in order, over a device that delivers a text,
    -- ends with a result when `fuel` is more than the bytes that the device still holds and the
    -- read index and `n` together are below 2 ^ 64. On success `s` is longer by the next `n`
    -- bytes, and these are gone from what is left to read. On an error `s` is longer by fewer
    -- bytes, all up to where the device failed, and these are gone; if the error is `eofError`,
    -- nothing is left.
    pub getn-GotN :
        (fuel n : ℕ) (s : Bytes) (b : BorrowedStream S)
        → IsReady b
        → length (ahead b.raw) < fuel
        → b.in_index + n < 2 ^ 64
        → (r : Expected (Unit {0}) × Bytes × BorrowedStream S) × (getn device fuel n s b ≡ some r)
          × GotN n s b r
    unfolding getn
    getn-GotN zero n s b ready h small = absurd (omega arith)
    getn-GotN (suc fuel) n s b ready h small = elim (Bool-cases (leb (b.in_index + n) b.in_end)) [
      | inl e ↦ (
        (
          value tt,
          s ++ take n (drop b.in_index (bytes b.in_buffer)),
          record b { in_index = b.in_index + n },
        ),
        rw (mod-eq_of_lt small, e, getn),
        counted n s b ready (ground (arith, e)),
      )
      | inr e ↦
          let short : b.in_end < b.in_index + n = ground (arith, e) in
          let size = length-peekbuf b ready in
          let m = n - (b.in_end - b.in_index) in
          rw (mod-eq_of_lt small, e, getn)
            (next_round fuel n m s b (refill device b)
              (λ s' b' ready' h' front.
                getn-GotN fuel m s' b' ready' h' (omega (arith, front, small)))
              h (omega (arith, size, ready)) (omega (arith, size, ready))
              (refill-Refilled ahead device law b ready) (refill-index device b))
    ]

    same_round :
        (fuel n : ℕ) (s : Bytes) (r : Expected (Unit {0}) × BorrowedStream S)
        → ((b' : BorrowedStream S)
            → dropn device fuel n b'
              ≡ Option.map (λ (r, s', b'). (r, b')) (getn device fuel n s b'))
        → ◌≡◌ {A = Option (Expected (Unit {0}) × BorrowedStream S)}
            (elim r.0 [ error e ↦ some (error e, r.1) | value u ↦ dropn device fuel n r.1 ])
            (Option.map
              (λ (r, s', b'). (r, b'))
              (elim r.0 [ error e ↦ some (error e, s, r.1) | value u ↦ getn device fuel n s r.1 ]))
    same_round fuel n s (value u, b') rec = rec b'
    same_round fuel n s (error e, b') rec = refl

    -- `dropn(n)` has the result of `getn(s, n)` and leaves the same stream, for every `s` and
    -- with as many rounds.
    pub dropn-getn :
        (fuel n : ℕ) (s : Bytes) (b : BorrowedStream S)
        → dropn device fuel n b ≡ Option.map (λ (r, s', b'). (r, b')) (getn device fuel n s b)
    unfolding getn dropn
    dropn-getn zero n s b = refl
    dropn-getn (suc fuel) n s b = elim (Bool-cases (leb (span_end b n) b.in_end)) [
      | inl e ↦ rw (e, getn, dropn)
      | inr e ↦
          let m = n - (b.in_end - b.in_index) in
          rw (e, getn, dropn)
            (same_round fuel m (s ++ peekbuf b) (refill device b)
              (dropn-getn fuel m (s ++ peekbuf b)))
    ]
