-- ===== src/Stream/Delimited/Same.antt =====
-- `dropline` and `getline` with a string.
use mcoro.Prelude.{
  ℕ, zero, suc, ◌≡◌, ◌<◌, refl, Bool, true, false, length, Option, none, some, ◌∷◌, ◌++◌, ap, ◌∙◌,
  take,
}
use mathlib.Core.Option
use mcoro.Strings.{Bytes}
use mcoro.Expected.{Expected, value, error, transform}
use mcoro.Stream.{Stream, BorrowedStream}
use mcoro.Stream.Input.{getline}
use mcoro.Stream.Input.Fill.{Delivers, unread, IsReady}
use mcoro.Stream.Input.Line.{dropline-getline}
use mcoro.Stream.Delimited.{match_rest, drop_rest, getline_string, dropline_string}
use mcoro.Stream.Delimited.Rest.{drop_rest-match_rest}
use mcoro.Stream.Delimited.Scan.{Scan, getline_string-Scanned}

module _ {S : Type 0} (ahead : S → Bytes) (device : Stream S) (law : Delivers ahead device) where
  abbrev Dropped : Type 0
  Dropped = Option (Expected (Unit {0}) × BorrowedStream S)

  abbrev Gotten : Type 0
  Gotten = Option (Expected (Unit {0}) × Bytes × BorrowedStream S)

  abbrev forget : Gotten → Dropped
  forget r = Option.map (λ (r, s', b'). (r, b')) r

  same_outcome :
      (rounds fuel c : ℕ) (cs s : Bytes) (b : BorrowedStream S)
      → dropline_string device rounds fuel c cs b
        ≡ Option.map (λ (r, s', b'). (r, b')) (getline_string device rounds fuel c cs s b)
  unfolding getline_string dropline_string transform
  same_outcome zero fuel c cs s b = refl
  same_outcome (suc rounds) fuel c cs s b =
      ap step (dropline-getline ahead c device law fuel s b)
      ∙ go (λ s' b'. same_outcome rounds fuel c cs s' b') (getline device fuel c s b)
    where
      finish : Expected Bool × BorrowedStream S → Dropped
      finish d = elim d.0 [
        | error e ↦ some (error e, d.1)
        | value true ↦ some (value tt, d.1)
        | value false ↦ dropline_string device rounds fuel c cs d.1
      ]

      step : Dropped → Dropped
      step r = elim r [
        | none ↦ none
        | some (error e, b') ↦ some (error e, b')
        | some (value u, b') ↦ finish (drop_rest device cs b')
      ]

      tail :
          ((t : Bytes) (b' : BorrowedStream S)
            → dropline_string device rounds fuel c cs b'
              ≡ forget (getline_string device rounds fuel c cs t b'))
          → (s' : Bytes) (m : Expected (Option ℕ) × BorrowedStream S)
          → ◌≡◌ {A = Dropped}
              (finish (transform (λ r. elim r [ none ↦ true | some k ↦ false ]) m.0, m.1))
              (forget (elim m.0 [
                | error e ↦ some (error e, s', m.1)
                | value none ↦ some (value tt, s', m.1)
                | value (some i) ↦
                    getline_string device rounds fuel c cs (s' ++ take i (c ∷ cs)) m.1
              ]))
      tail rec s' (error e, b') = refl
      tail rec s' (value none, b') = refl
      tail rec s' (value (some i), b') = rec (s' ++ take i (c ∷ cs)) b'

      go :
          ((t : Bytes) (b' : BorrowedStream S)
            → dropline_string device rounds fuel c cs b'
              ≡ forget (getline_string device rounds fuel c cs t b'))
          → (r : Gotten)
          → ◌≡◌ {A = Dropped} (step (forget r)) (
              forget (elim r [
                | none ↦ none
                | some (error e, s', b') ↦ some (error e, s', b')
                | some (value u, s', b') ↦ elim (match_rest device 1 cs b').0 [
                  | error e ↦ some (error e, s', (match_rest device 1 cs b').1)
                  | value none ↦ some (value tt, s', (match_rest device 1 cs b').1)
                  | value (some i) ↦
                      getline_string device rounds fuel c cs
                        (s' ++ take i (c ∷ cs))
                        (match_rest device 1 cs b').1
                ]
              ]))
      go rec none = refl
      go rec (some (error e, s', b')) = refl
      go rec (some (value u, s', b')) =
          ap finish (drop_rest-match_rest device 1 cs b') ∙ tail rec s' (match_rest device 1 cs b')

  -- `getline(s, eol)` and `dropline(eol)` with a string of the first byte `c` and the others
  -- `cs`, on a stream whose pointers are in order, over a device that delivers a text, end with a
  -- result when the rounds and the fuel are each more than the bytes that are left to read. The
  -- two have the same result and leave the same stream, and `getline` appends a line to `s`. The
  -- result, the line and what is left to read afterwards are those of `Scan` on what was left to
  -- read: it goes to the next `c`; when `cs` is behind that, the line ends; at a byte that
  -- differs it goes on from there, with `c` and the bytes that matched a part of the line. An
  -- error ends it in front of a `c` or behind one, where the bytes that matched are gone without
  -- being a part of the line; if the error is `eofError`, nothing is left.
  pub dropline_string-getline_string :
      (rounds fuel c : ℕ) (cs s : Bytes) (b : BorrowedStream S)
      → IsReady b
      → length (unread ahead b) < rounds
      → length (unread ahead b) < fuel
      → (r : Expected (Unit {0})) × (line : Bytes) × (b' : BorrowedStream S) × (getline_string
            device rounds fuel c cs s b
          ≡ some (r, s ++ line, b'))
        × (dropline_string device rounds fuel c cs b ≡ some (r, b'))
        × Scan c cs (unread ahead b) r line (unread ahead b')
        × IsReady b'
  dropline_string-getline_string rounds fuel c cs s b ready few enough =
      let ((r, s', b'), runs, (line, app, scan, ready')) =
        getline_string-Scanned ahead c cs device law rounds fuel s b ready few enough in
      let got = runs ∙ ap (λ (q : Bytes). some (r, q, b')) app in
      (r, line, b', got, same_outcome rounds fuel c cs s b ∙ ap forget got, scan, ready')
