-- ===== src/Stream/Input/Line.antt =====
-- `getline` and `dropline` with a char.
use mcoro.Prelude.{
  ℕ, zero, suc, ◌+◌, ◌<◌, ◌≡◌, refl, inl, inr, Option, some, [], ◌∷◌, ◌++◌, arith, ap, sym, ◌∙◌,
  All-append, length, take, drop, Option-cases, append_assoc,
}
use mathlib.Core.Option
use mcoro.Strings.{Bytes, find_char}
use mcoro.Strings.Find.{find_char-some, find_char-none, find_char-lt}
use mcoro.Strings.Split.{Lacks}
use mcoro.Expected.{Expected, value, error, eof_error}
use mcoro.Stream.{Stream, BorrowedStream}
use mcoro.Stream.Input.{peekbuf, refill, getline, dropline}
use mcoro.Stream.Input.Fill.{
  Delivers, unread, IsReady, Refilled, refill-Refilled, consumed-IsReady, peekbuf-consumed,
}

module _ {S : Type 0} (ahead : S → Bytes) (eol : ℕ) where
  -- What a call of `getline(s, eol)` does to `s` and the stream. On success there is a line, without
  -- the delimiter: it was appended to `s`, and it and the delimiter are gone from the text to read. On
  -- an error the whole text up to where the device failed, which holds no delimiter, was appended to
  -- `s` and is gone; if the error is `eofError`, nothing is left to read.
  abbrev pub GotLine :
      Bytes → BorrowedStream S → Expected (Unit {0}) × Bytes × BorrowedStream S → Type 0
  GotLine s b (value u, s', b') =
      (line : Bytes) × (s' ≡ s ++ line)
      × Lacks eol line
      × (unread ahead b ≡ line ++ eol ∷ unread ahead b')
      × IsReady b'
  GotLine s b (error e, s', b') =
      (line : Bytes) × (s' ≡ s ++ line)
      × Lacks eol line
      × (unread ahead b ≡ line ++ unread ahead b')
      × (peekbuf b' ≡ [])
      × (e ≡ eof_error → unread ahead b' ≡ [])
      × IsReady b'

  -- A line that goes on in the next buffer.
  extend :
      (s p : Bytes) (b b' : BorrowedStream S) (r : Expected (Unit {0}) × Bytes × BorrowedStream S)
      → Lacks eol p
      → unread ahead b ≡ p ++ unread ahead b'
      → GotLine (s ++ p) b' r
      → GotLine s b r
  extend s p b b' (value u, s', b'') lacks split (line, app, none_in, rest, ready) = (
    p ++ line,
    app ∙ append_assoc s p line,
    All-append _ p line lacks none_in,
    split ∙ ap (λ (t : Bytes). p ++ t) rest ∙ sym (append_assoc p line _),
    ready,
  )
  extend s p b b' (error e, s', b'') lacks split (line, app, none_in, rest, empty, at_end, ready) =
      (
        p ++ line,
        app ∙ append_assoc s p line,
        All-append _ p line lacks none_in,
        split ∙ ap (λ (t : Bytes). p ++ t) rest ∙ sym (append_assoc p line _),
        empty,
        at_end,
        ready,
      )

  -- The line that ends in the buffer.
  found_line :
      (s : Bytes) (b : BorrowedStream S)
      → IsReady b
      → (i : ℕ) → find_char eol (peekbuf b) ≡ some i
      → GotLine s b (value tt, s ++ take i (peekbuf b), record b { in_index = b.in_index + i + 1 })
  found_line s b ready i e =
      let (split, lacks) = find_char-some eol (peekbuf b) i e in
      let fits = find_char-lt eol (peekbuf b) i e in
      let step : b.in_index + i + 1 ≡ b.in_index + (i + 1) = omega arith in
      rw step (
        take i (peekbuf b),
        refl,
        lacks,
        rw (peekbuf-consumed b ready (i + 1) fits) (
            ap (λ (t : Bytes). t ++ ahead b.raw) split
            ∙ append_assoc (take i (peekbuf b)) (eol ∷ drop (i + 1) (peekbuf b)) _),
        consumed-IsReady b ready (i + 1) fits,
      )

  module _ (device : Stream S) (law : Delivers ahead device) where
    -- The round after a fill.
    next_round :
        (fuel : ℕ) (s : Bytes) (b : BorrowedStream S) (r : Expected (Unit {0}) × BorrowedStream S)
        → ((s' : Bytes) (b' : BorrowedStream S)
            → IsReady b'
            → length (ahead b'.raw) < fuel
            → (r : Expected (Unit {0}) × Bytes × BorrowedStream S) × (getline device fuel eol s' b'
                ≡ some r)
              × GotLine s' b' r)
        → length (ahead b.raw) < suc fuel
        → Lacks eol (peekbuf b)
        → Refilled ahead b r
        → (out : Expected (Unit {0}) × Bytes × BorrowedStream S) × ◌≡◌
            {A = Option (Expected (Unit {0}) × Bytes × BorrowedStream S)}
            (elim r.0 [
              | error e ↦ some (error e, s ++ peekbuf b, r.1)
              | value u ↦ getline device fuel eol (s ++ peekbuf b) r.1
            ])
            (some out)
          × GotLine s b out
    next_round fuel s b (value u, b') rec h lacks (moved, less, ready) =
        let (out, runs, got) = rec (s ++ peekbuf b) b' ready (omega arith) in
        (
          out,
          runs,
          extend s (peekbuf b) b b' out lacks (ap (λ (t : Bytes). peekbuf b ++ t) moved) got,
        )
    next_round fuel s b (error e, b') rec h lacks (same, at_end, empty, ready) = (
      (error e, s ++ peekbuf b, b'),
      refl,
      (
        peekbuf b,
        refl,
        lacks,
        rw empty (ap (λ (t : Bytes). peekbuf b ++ t) (sym same)),
        empty,
        λ eof. rw empty (same ∙ at_end eof),
        ready,
      ),
    )

    -- `getline(s, eol)` of a stream whose pointers are in order, over a device that delivers a
    -- text, ends with a result when `fuel` is more than the bytes that the device still holds.
    -- On success `s` is longer by one line without `eol`, and what was left to read was that
    -- line, `eol`, and what is left now. On an error `s` is longer by all bytes up to where the
    -- device failed, none of them `eol`; if the error is `eofError`, nothing is left.
    pub getline-GotLine :
        (fuel : ℕ) (s : Bytes) (b : BorrowedStream S)
        → IsReady b
        → length (ahead b.raw) < fuel
        → (r : Expected (Unit {0}) × Bytes × BorrowedStream S) × (getline device fuel eol s b
            ≡ some r)
          × GotLine s b r
    unfolding getline
    getline-GotLine zero s b ready h = absurd (omega arith)
    getline-GotLine (suc fuel) s b ready h = elim (Option-cases (find_char eol (peekbuf b))) [
      | inr (i, e) ↦ (
        (value tt, s ++ take i (peekbuf b), record b { in_index = b.in_index + i + 1 }),
        rw (e, getline),
        found_line s b ready i e,
      )
      | inl e ↦
          rw (e, getline)
            (next_round fuel s b (refill device b) (getline-GotLine fuel) h
              (find_char-none eol (peekbuf b) e) (refill-Refilled ahead device law b ready))
    ]

    same_round :
        (fuel : ℕ) (s : Bytes) (r : Expected (Unit {0}) × BorrowedStream S)
        → ((b' : BorrowedStream S)
            → dropline device fuel eol b'
              ≡ Option.map (λ (r, s', b'). (r, b')) (getline device fuel eol s b'))
        → ◌≡◌ {A = Option (Expected (Unit {0}) × BorrowedStream S)}
            (elim r.0 [ error e ↦ some (error e, r.1) | value u ↦ dropline device fuel eol r.1 ])
            (Option.map
              (λ (r, s', b'). (r, b'))
              (elim r.0 [
                | error e ↦ some (error e, s, r.1)
                | value u ↦ getline device fuel eol s r.1
              ]))
    same_round fuel s (value u, b') rec = rec b'
    same_round fuel s (error e, b') rec = refl

    -- `dropline(eol)` has the result of `getline(s, eol)` and leaves the same stream, for every
    -- `s` and with as many rounds.
    pub dropline-getline :
        (fuel : ℕ) (s : Bytes) (b : BorrowedStream S)
        → dropline device fuel eol b
          ≡ Option.map (λ (r, s', b'). (r, b')) (getline device fuel eol s b)
    unfolding getline dropline
    dropline-getline zero s b = refl
    dropline-getline (suc fuel) s b = elim (Option-cases (find_char eol (peekbuf b))) [
      | inr (i, e) ↦ rw (e, getline, dropline)
      | inl e ↦
          rw (e, getline, dropline)
            (same_round fuel (s ++ peekbuf b) (refill device b)
              (dropline-getline fuel (s ++ peekbuf b)))
    ]
