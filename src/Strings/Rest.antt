-- ===== src/Strings/Rest.antt =====
-- `rest()` and `collect<N>()`.
use mcoro.Prelude.{
  sym, ◌∙◌, Option, Option-cases, inl, inr, ℕ, ◌+◌, ◌-◌, ◌≡◌, false, none, some, [], ◌∷◌, arith, ap,
  length, take, drop, length-drop, take-length_le, length-take,
}
use mcoro.Strings.{Bytes, Delim, spell, find, Iterator, find_next, rest, begin, collect_array}
use mcoro.Strings.Find.{find-le}

-- What `rest()` shows, for an iterator that has stepped to a part: if there is no further delimiter,
-- the whole remaining text; otherwise the remaining text without as many bytes at its end as the
-- delimiter has.
pub rest-find_next :
    (it : Iterator) (i : ℕ)
    → find it.delimiter it.s ≡ some i
    → rest (find_next it) ≡ take (length it.s - length (spell it.delimiter)) it.s
unfolding rest find_next
rest-find_next it i e = rw e (
    ap (λ (n : ℕ). take n it.s)
      (omega (
        arith,
        length-take i it.s,
        length-drop (i + length (spell it.delimiter)) it.s,
        find-le it.delimiter it.s i e,
      )))

pub rest-find_next_last :
    (it : Iterator) → find it.delimiter it.s ≡ none → rest (find_next it) ≡ it.s
unfolding rest find_next
rest-find_next_last it e = rw e (take-length_le _ it.s (omega arith))

abbrev first : Bytes → Delim → ℕ → Iterator
first s d i = record {
  s = drop (i + length (spell d)) s;
  delimiter = d;
  current = take i s;
  from = s;
  ended = false;
  to_be_ended = false;
}

begin-first : (s : Bytes) (d : Delim) (i : ℕ) → find d s ≡ some i → begin s d ≡ first s d i
unfolding begin find_next
begin-first s d i e = rw e

-- The step from the first part does not end the iteration.
ended-find_next : (s : Bytes) (d : Delim) (i : ℕ) → (find_next (first s d i)).ended ≡ false
unfolding find_next
ended-find_next s d i = ground arith

-- A text, or all of it but as many bytes as the delimiter has.
abbrev pub cut : Delim → Bytes → Option ℕ → Bytes
cut d tail none = tail
cut d tail (some j) = take (length tail - length (spell d)) tail

rest-cut : (it : Iterator) → rest (find_next it) ≡ cut it.delimiter it.s (find it.delimiter it.s)
rest-cut it = elim (Option-cases (find it.delimiter it.s)) [
  | inl h ↦ rest-find_next_last it h ∙ sym (ap (cut it.delimiter it.s) h)
  | inr (j, h) ↦ rest-find_next it j h ∙ sym (ap (cut it.delimiter it.s) h)
]

-- `collect<2>()` of a text with the delimiter in it, where `tail` is the text behind its first
-- occurrence: the first element is the text in front of that. If `tail` holds the delimiter again,
-- the second element is `tail` without as many bytes at its end as the delimiter has; if not, it is
-- `tail`.
pub collect_array_two :
    (s : Bytes) (d : Delim) (i : ℕ)
    → find d s ≡ some i
    → let tail = drop (i + length (spell d)) s in
      collect_array 2 s d ≡ take i s ∷ cut d tail (find d tail) ∷ []
unfolding collect_array
collect_array_two s d i e =
    rw (begin-first s d i e, ended-find_next s d i)
      (ap (λ (t : Bytes). take i s ∷ t ∷ []) (rest-cut (first s d i)))
