-- ===== src/Stream/Input/All.antt =====
-- `getall`: the loop to the end of the stream.
use mcoro.Prelude.{
  ℕ, zero, suc, ◌<◌, ◌≡◌, ◌≢◌, refl, inl, inr, true, false, Option, some, [], ◌++◌, arith, ap, sym,
  ◌∙◌, Bool-cases, length, append_assoc, append-nil,
}
use mcoro.Strings.{Bytes}
use mcoro.Expected.{Expected, value, error, eof_error, same_error, transform, or_else_on}
use mcoro.Expected.Laws.{same_error_iff}
use mcoro.Stream.{Stream, BorrowedStream}
use mcoro.Stream.Input.{peekbuf, refill, until_eof, getall}
use mcoro.Stream.Input.Fill.{Delivers, unread, IsReady, Refilled, refill-Refilled}

module _ {S : Type 0} (ahead : S → Bytes) where
  -- What a call of `getall(s)` does to `s` and the stream. On success all that was left to read was
  -- appended to `s`, and nothing is left. On an error, which is not `eofError`, all up to where the
  -- device failed was appended and is gone.
  abbrev pub GotAll :
      Bytes → BorrowedStream S → Expected (Unit {0}) × Bytes × BorrowedStream S → Type 0
  GotAll s b (value u, s', b') = (s' ≡ s ++ unread ahead b) × (unread ahead b' ≡ []) × IsReady b'
  GotAll s b (error e, s', b') =
      (taken : Bytes) × (s' ≡ s ++ taken)
      × (unread ahead b ≡ taken ++ unread ahead b')
      × (peekbuf b' ≡ [])
      × (e ≢ eof_error)
      × IsReady b'

  extend :
      (s p : Bytes) (b b' : BorrowedStream S) (r : Expected (Unit {0}) × Bytes × BorrowedStream S)
      → unread ahead b ≡ p ++ unread ahead b'
      → GotAll (s ++ p) b' r
      → GotAll s b r
  extend s p b b' (value u, s', b'') split (app, done, ready) =
      (app ∙ append_assoc s p _ ∙ ap (λ (t : Bytes). s ++ t) (sym split), done, ready)
  extend s p b b' (error e, s', b'') split (taken, app, rest, empty, ne, ready) = (
    p ++ taken,
    app ∙ append_assoc s p taken,
    split ∙ ap (λ (t : Bytes). p ++ t) rest ∙ sym (append_assoc p taken _),
    empty,
    ne,
    ready,
  )

  module _ (device : Stream S) (law : Delivers ahead device) where
    next_round :
        (fuel : ℕ) (s : Bytes) (b : BorrowedStream S) (r : Expected (Unit {0}) × BorrowedStream S)
        → ((s' : Bytes) (b' : BorrowedStream S)
            → IsReady b'
            → length (ahead b'.raw) < fuel
            → (r : Expected (Unit {0}) × Bytes × BorrowedStream S) × (getall device fuel s' b'
                ≡ some r)
              × GotAll s' b' r)
        → length (ahead b.raw) < suc fuel
        → Refilled ahead b r
        → (out : Expected (Unit {0}) × Bytes × BorrowedStream S) × ◌≡◌
            {A = Option (Expected (Unit {0}) × Bytes × BorrowedStream S)}
            (elim (until_eof device r.0) [
              | error e ↦ some (error e, s ++ peekbuf b, r.1)
              | value true ↦ getall device fuel (s ++ peekbuf b) r.1
              | value false ↦ some (value tt, s ++ peekbuf b, r.1)
            ])
            (some out)
          × GotAll s b out
    unfolding or_else_on transform
    next_round fuel s b (value u, b') rec h (moved, less, ready) =
        let (out, runs, got) = rec (s ++ peekbuf b) b' ready (omega arith) in
        (out, runs, extend s (peekbuf b) b b' out (ap (λ (t : Bytes). peekbuf b ++ t) moved) got)
    next_round fuel s b (error e, b') rec h (same, at_end, empty, ready) =
        elim (Bool-cases (same_error e eof_error)) [
          | inl is ↦
              let none_ahead = at_end ((same_error_iff e eof_error).0 is) in
              rw is (
                (value tt, s ++ peekbuf b, b'),
                refl,
                (
                  rw none_ahead (ap (λ (t : Bytes). s ++ t) (sym (append-nil (peekbuf b)))),
                  rw empty (same ∙ none_ahead),
                  ready,
                ),
              )
          | inr not ↦ rw not (
            (error e, s ++ peekbuf b, b'),
            refl,
            (
              peekbuf b,
              refl,
              rw empty (ap (λ (t : Bytes). peekbuf b ++ t) (sym same)),
              empty,
              λ is. cc ((same_error_iff e eof_error).1 is),
              ready,
            ),
          )
        ]

    -- `getall(s)` of a stream whose pointers are in order, over a device that delivers a text,
    -- ends with a result when `fuel` is more than the bytes that the device still holds. On
    -- success `s` is longer by all that was left to read, and nothing is left. On an error,
    -- which is not `eofError`, `s` is longer by the bytes up to where the device failed, these
    -- are gone, and the buffer shows nothing.
    pub getall-GotAll :
        (fuel : ℕ) (s : Bytes) (b : BorrowedStream S)
        → IsReady b
        → length (ahead b.raw) < fuel
        → (r : Expected (Unit {0}) × Bytes × BorrowedStream S) × (getall device fuel s b ≡ some r)
          × GotAll s b r
    unfolding getall
    getall-GotAll zero s b ready h = absurd (omega arith)
    getall-GotAll (suc fuel) s b ready h =
        next_round fuel s b (refill device b) (getall-GotAll fuel) h
          (refill-Refilled ahead device law b ready)
