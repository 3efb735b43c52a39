-- ===== src/Stream/Delimited/Scan.antt =====
-- `getline` with a string, over a device that delivers a text.
use mcoro.Prelude.{
  ℕ, zero, suc, ◌<◌, ◌≡◌, refl, Option, none, some, [], ◌∷◌, ◌++◌, arith, ap, sym, ◌∙◌, subst,
  length, take, drop, length-append, append_assoc,
}
use mcoro.Strings.{Bytes}
use mcoro.Strings.Split.{Lacks}
use mcoro.Expected.{ErrorCode, Expected, value, error, eof_error}
use mcoro.Stream.{Stream, BorrowedStream}
use mcoro.Stream.Input.{peekbuf}
use mcoro.Stream.Input.Fill.{Delivers, unread, IsReady}
use mcoro.Stream.Input.Line.{GotLine, getline-GotLine}
use mcoro.Stream.Delimited.{match_rest, getline_string}
use mcoro.Stream.Delimited.Rest.{Differs, Rest, match_rest-Rest}

-- How a search for a delimiter of the first byte `c` goes through a text: the result, the bytes
-- before the delimiter, and the rest of the text. A search for the first byte finds it; the bytes
-- behind are the rest of the delimiter, or one differs, and the search goes on in front of that
-- one, with the matched bytes a part of the line. An error ends either loop, and the matched bytes
-- are in neither text.
pub data Scan (c : ℕ) (cs : Bytes) : Bytes → Expected (Unit {0}) → Bytes → Bytes → Type 0 where
  ends : (p rest : Bytes) → Lacks c p → Scan c cs (p ++ c ∷ (cs ++ rest)) (value tt) p rest
  goes_on :
      (p t : Bytes) (j : ℕ) {r : Expected (Unit {0})} {line rest : Bytes}
      → Lacks c p
      → Differs (drop j cs) t
      → Scan c cs t r line rest
      → Scan c cs (p ++ c ∷ (take j cs ++ t)) r ((p ++ c ∷ take j cs) ++ line) rest
  fails :
      (p rest : Bytes) {e : ErrorCode}
      → Lacks c p
      → (e ≡ eof_error → rest ≡ [])
      → Scan c cs (p ++ rest) (error e) p rest
  fails_inside :
      (p rest : Bytes) (j : ℕ) {e : ErrorCode}
      → Lacks c p
      → j < length cs
      → (e ≡ eof_error → rest ≡ [])
      → Scan c cs (p ++ c ∷ (take j cs ++ rest)) (error e) p rest

module _ {S : Type 0} (ahead : S → Bytes) (c : ℕ) (cs : Bytes) where
  -- The outcome of `getline(s, eol)` with a string.
  abbrev pub Scanned :
      Bytes → BorrowedStream S → Expected (Unit {0}) × Bytes × BorrowedStream S → Type 0
  Scanned s b (r, s', b') =
      (line : Bytes) × (s' ≡ s ++ line)
      × Scan c cs (unread ahead b) r line (unread ahead b')
      × IsReady b'

  module _ (device : Stream S) (law : Delivers ahead device) (rounds fuel : ℕ) where
    abbrev Again : ℕ → Type 0
    Again n =
        (s : Bytes) (b : BorrowedStream S)
        → IsReady b
        → length (unread ahead b) < n
        → (r : Expected (Unit {0}) × Bytes × BorrowedStream S) × (getline_string device rounds fuel
              c cs s b
            ≡ some r)
          × Scanned s b r

    -- What follows a line that ends with the first byte.
    after_line :
        (s p s' : Bytes) (b b' : BorrowedStream S) (m : Expected (Option ℕ) × BorrowedStream S)
        → s' ≡ s ++ p
        → Lacks c p
        → unread ahead b ≡ p ++ c ∷ unread ahead b'
        → Rest ahead device law 1 cs b' m
        → Again (length (unread ahead b))
        → (r : Expected (Unit {0}) × Bytes × BorrowedStream S) × ◌≡◌
            {A = Option (Expected (Unit {0}) × Bytes × BorrowedStream S)}
            (elim m.0 [
              | error e ↦ some (error e, s', m.1)
              | value none ↦ some (value tt, s', m.1)
              | value (some i) ↦ getline_string device rounds fuel c cs (s' ++ take i (c ∷ cs)) m.1
            ])
            (some r)
          × Scanned s b r
    after_line s p s' b b' (error e, t) start lacks text (j, lt, split, empty, at_end, ready)
          again =
        (
          (error e, s', t),
          refl,
          (
            p,
            start,
            subst (λ (q : Bytes). Scan c cs q (error e) p (unread ahead t))
                (sym (text ∙ ap (λ (q : Bytes). p ++ c ∷ q) split))
                (fails_inside p (unread ahead t) j lacks lt at_end),
            ready,
          ),
        )
    after_line s p s' b b' (value none, t) start lacks text (split, ready) again = (
      (value tt, s', t),
      refl,
      (
        p,
        start,
        subst (λ (q : Bytes). Scan c cs q (value tt) p (unread ahead t))
            (sym (text ∙ ap (λ (q : Bytes). p ++ c ∷ q) split)) (ends p (unread ahead t) lacks),
        ready,
      ),
    )
    after_line s p s' b b' (value (some k), t) start lacks text (j, at, differs, split, ready)
          again =
        let k_is : k ≡ suc j = omega (arith, at) in
        let whole : unread ahead b ≡ p ++ c ∷ (take j cs ++ unread ahead t) =
          text ∙ ap (λ (q : Bytes). p ++ c ∷ q) split in
        let less : length (unread ahead t) < length (unread ahead b) = omega (
          arith,
          ap length whole,
          length-append p (c ∷ (take j cs ++ unread ahead t)),
          length-append (take j cs) (unread ahead t),
        ) in
        let ((r, s'', b''), runs, (line, app, scan, ready')) =
          again (s' ++ c ∷ take j cs) t ready less in
        (
          (r, s'', b''),
          rw k_is runs,
          (
            (p ++ c ∷ take j cs) ++ line,
            app
                ∙ ap (λ (q : Bytes). (q ++ c ∷ take j cs) ++ line) start
                ∙ ap (λ (q : Bytes). q ++ line) (append_assoc s p (c ∷ take j cs))
                ∙ append_assoc s (p ++ c ∷ take j cs) line,
            subst (λ (q : Bytes). Scan c cs q r ((p ++ c ∷ take j cs) ++ line) (unread ahead b''))
                (sym whole) (goes_on p (unread ahead t) j lacks differs scan),
            ready',
          ),
        )

    -- A round.
    one_round :
        (s : Bytes) (b : BorrowedStream S) (r : Expected (Unit {0}) × Bytes × BorrowedStream S)
        → GotLine ahead c s b r
        → Again (length (unread ahead b))
        → (out : Expected (Unit {0}) × Bytes × BorrowedStream S) × ◌≡◌
            {A = Option (Expected (Unit {0}) × Bytes × BorrowedStream S)}
            (elim (some r) [
              | none ↦ none
              | some (error e, s', b') ↦ some (error e, s', b')
              | some (value u, s', b') ↦ elim (match_rest device 1 cs b').0 [
                | error e ↦ some (error e, s', (match_rest device 1 cs b').1)
                | value none ↦ some (value tt, s', (match_rest device 1 cs b').1)
                | value (some i) ↦
                    getline_string device rounds fuel c cs
                      (s' ++ take i (c ∷ cs))
                      (match_rest device 1 cs b').1
              ]
            ])
            (some out)
          × Scanned s b out
    one_round s b (error e, s', b') (p, app, lacks, text, empty, at_end, ready) again = (
      (error e, s', b'),
      refl,
      (
        p,
        app,
        subst (λ (q : Bytes). Scan c cs q (error e) p (unread ahead b')) (sym text)
            (fails p (unread ahead b') lacks at_end),
        ready,
      ),
    )
    one_round s b (value u, s', b') (p, app, lacks, text, ready) again =
        let rest = match_rest-Rest ahead device law 1 cs b' ready in
        after_line s p s' b b' (match_rest device 1 cs b') app lacks text rest again

  pub getline_string-Scanned :
      (device : Stream S)
      → Delivers ahead device
      → (rounds fuel : ℕ) (s : Bytes) (b : BorrowedStream S) → IsReady b
      → length (unread ahead b) < rounds
      → length (unread ahead b) < fuel
      → (r : Expected (Unit {0}) × Bytes × BorrowedStream S) × (getline_string device rounds fuel c
            cs s b
          ≡ some r)
        × Scanned s b r
  unfolding getline_string
  getline_string-Scanned device law zero fuel s b ready few enough = absurd (omega arith)
  getline_string-Scanned device law (suc rounds) fuel s b ready few enough =
      let (r, runs, got) =
        getline-GotLine ahead c device law fuel s b ready
          (omega (arith, enough, length-append (peekbuf b) (ahead b.raw))) in
      rw (runs, getline_string)
        (one_round device law rounds fuel s b r got (λ s' b' ready' less.
          getline_string-Scanned device law rounds fuel s' b' ready' (omega (arith, less, few))
            (omega (arith, less, enough))))
