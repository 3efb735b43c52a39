-- ===== src/Stream/Delimited.antt =====
-- `getline` and `dropline` with a string, which is a first byte and the bytes behind it. (The code
-- takes the front of an empty string otherwise.)
pub mod Rest
pub mod Scan
pub mod Same
use mcoro.Prelude.{
  ℕ, zero, suc, ◌+◌, Bool, true, false, Option, none, some, List, [], ◌∷◌, ◌++◌, ◌==◌,
  if◌then◌else◌, take,
}
use mcoro.Strings.{Bytes}
use mcoro.Expected.{Expected, value, error}
use mcoro.Stream.{Stream, BorrowedStream}
use mcoro.Stream.Input.{ensure, current, getline, dropline}

module _ {S : Type 0} (device : Stream S) where
  -- The loop of `getline` over the bytes of the delimiter behind the first, of which `i` bytes are matched: the
  -- number of those that were matched before one that differs, or none if all are.
  unfoldable pub match_rest : ℕ → Bytes → BorrowedStream S → Expected (Option ℕ) × BorrowedStream S
  match_rest i [] b = (value none, b)
  match_rest i (c ∷ cs) b =
      let b' = (ensure device b).1 in
      let more = match_rest (suc i) cs (record b' { in_index = b'.in_index + 1 }) in
      elim (ensure device b).0 [
        | error e ↦ (error e, b')
        | value u ↦ if c == current device b' then more else (value (some i), b')
      ]

  -- `getline(s, eol)`; `rounds` bounds the jumps to `again`.
  unfoldable pub getline_string :
      ℕ
      → ℕ
      → ℕ
      → Bytes
      → Bytes
      → BorrowedStream S
      → Option (Expected (Unit {0}) × Bytes × BorrowedStream S)
  getline_string zero fuel c cs s b = none
  getline_string (suc rounds) fuel c cs s b = elim (getline device fuel c s b) [
    | none ↦ none
    | some (error e, s', b') ↦ some (error e, s', b')
    | some (value u, s', b') ↦ elim (match_rest 1 cs b').0 [
      | error e ↦ some (error e, s', (match_rest 1 cs b').1)
      | value none ↦ some (value tt, s', (match_rest 1 cs b').1)
      | value (some i) ↦
          getline_string rounds fuel c cs (s' ++ take i (c ∷ cs)) (match_rest 1 cs b').1
    ]
  ]

  -- The loop of `dropline`: whether all bytes were matched.
  unfoldable pub drop_rest : Bytes → BorrowedStream S → Expected Bool × BorrowedStream S
  drop_rest [] b = (value true, b)
  drop_rest (c ∷ cs) b =
      let b' = (ensure device b).1 in
      let more = drop_rest cs (record b' { in_index = b'.in_index + 1 }) in
      elim (ensure device b).0 [
        | error e ↦ (error e, b')
        | value u ↦ if c == current device b' then more else (value false, b')
      ]

  -- `dropline(eol)`
  unfoldable pub dropline_string :
      ℕ → ℕ → ℕ → Bytes → BorrowedStream S → Option (Expected (Unit {0}) × BorrowedStream S)
  dropline_string zero fuel c cs b = none
  dropline_string (suc rounds) fuel c cs b = elim (dropline device fuel c b) [
    | none ↦ none
    | some (error e, b') ↦ some (error e, b')
    | some (value u, b') ↦ elim (drop_rest cs b').0 [
      | error e ↦ some (error e, (drop_rest cs b').1)
      | value true ↦ some (value tt, (drop_rest cs b').1)
      | value false ↦ dropline_string rounds fuel c cs (drop_rest cs b').1
    ]
  ]
