-- ===== src/Strings/Split.antt =====
-- `SplitString` and `collect()`: the parts spell the text, and the loop ends.
use mcoro.Prelude.{
  ℕ, zero, suc, ◌+◌, ◌<◌, ◌≡◌, refl, ◌≢◌, Bool, true, false, none, some, List, [], ◌∷◌, ◌++◌, arith,
  ap, sym, ◌∙◌, All, length, take, drop, Option-cases, append-nil, append_assoc, ◌≤◌, inl, inr,
  take-append, length-drop,
}
use mcoro.Strings.{
  Bytes, Delim, view, char, spell, find, Iterator, find_next, begin, collect_loop, collect,
}
use mcoro.Strings.Find.{find-some, find-nil, find-empty, find_char-Lacks, find_char-append}

-- The parts, each behind the delimiter.
abbrev pub behind : Bytes → List Bytes → Bytes
behind d [] = []
behind d (p ∷ ps) = d ++ (p ++ behind d ps)

-- The parts with the delimiter between them.
abbrev pub join : Bytes → List Bytes → Bytes
join d [] = []
join d (p ∷ ps) = p ++ behind d ps

abbrev state : Bytes → Delim → Bytes → Bytes → Bool → Iterator
state s d current from last = record {
  s = s;
  delimiter = d;
  current = current;
  from = from;
  ended = false;
  to_be_ended = last;
}

length-pos : (d : Bytes) → d ≢ [] → 0 < length d
length-pos [] h = absurd (h refl)
length-pos (c ∷ d) h = omega arith

module _ (d : Delim) (ne : spell d ≢ []) where
  -- At the last part the loop stops after one more round.
  last_part :
      (n : ℕ) (cur from : Bytes) (result : List Bytes)
      → 2 ≤ n
      → collect_loop n (state [] d cur from true) result ≡ some (result ++ cur ∷ [])
  unfolding collect_loop find_next
  last_part zero cur from result h = absurd (omega arith)
  last_part (suc zero) cur from result h = absurd (omega arith)
  last_part (suc (suc n)) cur from result h = rw (find-nil d ne)

  drop_shorter :
      (s : Bytes) (i : ℕ) → find d s ≡ some i → length (drop (i + length (spell d)) s) < length s
  drop_shorter [] i h = cc (find-nil d ne)
  drop_shorter (c ∷ s) i h =
      omega (arith, length-drop (i + length (spell d)) (c ∷ s), length-pos (spell d) ne)

  -- Before the last part the loop adds the current part, and the parts that the rest of the text holds.
  more_parts :
      (n : ℕ) (s cur from : Bytes) (result : List Bytes)
      → length s + 3 ≤ n
      → (parts : List Bytes) × (collect_loop n (state s d cur from false) result
          ≡ some (result ++ cur ∷ parts))
        × (behind (spell d) parts ≡ spell d ++ s)
  unfolding collect_loop find_next
  more_parts zero s cur from result h = absurd (omega arith)
  more_parts (suc n) s cur from result h = elim (Option-cases (find d s)) [
    | inl e ↦ (
      s ∷ [],
      rw e (
          last_part n s s (result ++ cur ∷ []) (omega arith)
          ∙ ap some (append_assoc result (cur ∷ []) (s ∷ []))),
      rw append-nil,
    )
    | inr (i, e) ↦
        let rest = drop (i + length (spell d)) s in
        let (parts, runs, spells) =
          more_parts n rest (take i s) s (result ++ cur ∷ []) (omega (arith, drop_shorter s i e)) in
        (
          take i s ∷ parts,
          rw e (runs ∙ ap some (append_assoc result (cur ∷ []) (take i s ∷ parts))),
          rw spells (ap (λ (t : Bytes). spell d ++ t) (sym (find-some d s i _ refl e))),
        )
  ]

  -- For a delimiter that is not empty and every text, `collect()` ends with `length s + 4`
  -- rounds, and its parts with the delimiter between them are the text.
  pub join-collect :
      (s : Bytes) (fuel : ℕ)
      → length s + 4 ≤ fuel
      → (parts : List Bytes) × (collect fuel s d ≡ some parts) × (join (spell d) parts ≡ s)
  unfolding collect find_next
  join-collect s fuel h = elim (Option-cases (find d s)) [
    | inl e ↦ (s ∷ [], rw e (last_part fuel s s [] (omega arith)), append-nil s)
    | inr (i, e) ↦
        let tail = drop (i + length (spell d)) s in
        let (parts, runs, spells) =
          more_parts fuel tail (take i s) s [] (omega (arith, drop_shorter s i e)) in
        (take i s ∷ parts, rw e runs, rw spells (sym (find-some d s i _ refl e)))
  ]

-- With an empty delimiter the loop of `collect()` never ends: no number of rounds is enough.
more_empty :
    (n : ℕ) (s cur from : Bytes) (result : List Bytes)
    → collect_loop n (state s (view []) cur from false) result ≡ none
unfolding collect_loop find_next
more_empty zero s cur from result = refl
more_empty (suc n) s cur from result = rw (find-empty s) (more_empty n s [] s (result ++ cur ∷ []))

-- With an empty delimiter the loop of `collect()` never ends: no number of rounds is enough.
pub collect-empty : (fuel : ℕ) (s : Bytes) → collect fuel s (view []) ≡ none
unfolding collect find_next
collect-empty fuel s = rw (find-empty s) (more_empty fuel s [] s [])

abbrev pub Lacks : ℕ → Bytes → Type 0
Lacks c = All (λ b. b ≢ c)

drop_past : (p : Bytes) (c : ℕ) (t : Bytes) (k : ℕ) → k ≡ length p + 1 → drop k (p ++ c ∷ t) ≡ t
drop_past p c t zero e = absurd (omega arith)
drop_past [] c t (suc k) e = let z : k ≡ 0 = omega arith in rw z
drop_past (b ∷ p) c t (suc k) e = drop_past p c t k (omega arith)

module _ (c : ℕ) where
  next_last :
      (p cur from : Bytes)
      → Lacks c p
      → find_next (state (p ++ []) (char c) cur from false) ≡ state [] (char c) p p true
  unfolding find_next find
  next_last p cur from h = rw (append-nil, find_char-Lacks c p h)

  next_part :
      (p t cur from : Bytes)
      → Lacks c p
      → find_next (state (p ++ c ∷ t) (char c) cur from false)
        ≡ state t (char c) p (p ++ c ∷ t) false
  unfolding find_next find
  next_part p t cur from h =
      rw (find_char-append c p t h, take-append p (c ∷ t), drop_past p c t (length p + 1) refl)

  parts_loop :
      (ps : List Bytes) (p : Bytes) (n : ℕ) (cur from : Bytes) (result : List Bytes)
      → Lacks c p
      → All (Lacks c) ps
      → length ps + 4 ≤ n
      → collect_loop n (state (p ++ behind (c ∷ []) ps) (char c) cur from false) result
        ≡ some (result ++ cur ∷ p ∷ ps)
  unfolding collect_loop
  parts_loop ps p zero cur from result hp hps h = absurd (omega arith)
  parts_loop [] p (suc n) cur from result hp hps h = rw (next_last p cur from hp) (
      last_part (char c) (cc) n p p (result ++ cur ∷ []) (omega arith)
      ∙ ap some (append_assoc result (cur ∷ []) (p ∷ [])))
  parts_loop (q ∷ ps) p (suc n) cur from result hp hps h =
      rw (next_part p (q ++ behind (c ∷ []) ps) cur from hp) (
        parts_loop ps q n p _ (result ++ cur ∷ []) hps.0 hps.1 (omega arith)
        ∙ ap some (append_assoc result (cur ∷ []) (p ∷ q ∷ ps)))

  -- A list of at least one part, none of which holds the delimiting char, comes back from
  -- `collect()` of the text that joins the parts by that char, with four rounds more than there
  -- are parts behind the first.
  pub collect-join :
      (p : Bytes) (ps : List Bytes) (fuel : ℕ)
      → Lacks c p
      → All (Lacks c) ps
      → length ps + 4 ≤ fuel
      → collect fuel (join (c ∷ []) (p ∷ ps)) (char c) ≡ some (p ∷ ps)
  unfolding collect begin
  collect-join p [] fuel hp hps h =
      rw (next_last p [] [] hp) (last_part (char c) (cc) fuel p p [] (omega arith))
  collect-join p (q ∷ ps) fuel hp hps h =
      rw (next_part p (q ++ behind (c ∷ []) ps) [] [] hp)
        (parts_loop ps q fuel p _ [] hps.0 hps.1 (omega arith))
