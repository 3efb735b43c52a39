-- ===== src/Stream/Delimited/Rest.antt =====
-- The loops over the rest of the delimiter.
use mcoro.Prelude.{
  ℕ, zero, suc, ◌+◌, ◌-◌, ◌<◌, ◌≡◌, ◌≢◌, refl, Bool, true, false, Option, none, some, [], ◌∷◌, ◌++◌,
  arith, ap, sym, ◌∙◌, inl, inr, ◌==◌, if◌then◌else◌, Bool-cases, length, take, drop, get_elem?,
  length-append,
}
use mcoro.Strings.{Bytes}
use mcoro.Expected.{Expected, value, error, eof_error, transform}
use mcoro.Stream.{Stream, bytes, BorrowedStream}
use mcoro.Stream.Input.{peekbuf, bufempty, refill, ensure, current}
use mcoro.Stream.Input.Fill.{
  Delivers, unread, IsReady, Refilled, refill-Refilled, peekbuf-empty, consumed, consumed-IsReady,
  length-peekbuf,
}
use mcoro.Stream.Delimited.{match_rest, drop_rest}

-- The byte at an index, and those behind it.
drop-get_elem? :
    (i k : ℕ) (xs : Bytes)
    → k ≡ i + 1
    → i < length xs
    → drop i xs ≡ (elim (get_elem? xs i) [ none ↦ 0 | some c ↦ c ]) ∷ drop k xs
drop-get_elem? i zero xs e h = absurd (omega arith)
drop-get_elem? i (suc k) [] e h = absurd (omega arith)
drop-get_elem? zero (suc zero) (x ∷ xs) e h = refl
drop-get_elem? zero (suc (suc k)) (x ∷ xs) e h = absurd (omega arith)
drop-get_elem? (suc i) (suc k) (x ∷ xs) e h = drop-get_elem? i k xs (omega arith) (omega arith)

-- Both go on, with different bytes.
abbrev pub Differs : Bytes → Bytes → Type 0
Differs [] ys = ⊥
Differs (x ∷ xs) [] = ⊥
Differs (x ∷ xs) (y ∷ ys) = x ≢ y

module _ {S : Type 0} (ahead : S → Bytes) (device : Stream S) (law : Delivers ahead device) where
  abbrev Ensured : BorrowedStream S → Expected (Unit {0}) × BorrowedStream S → Type 0
  Ensured b (value u, b') =
      (unread ahead b ≡ unread ahead b') × (b'.in_index < b'.in_end) × IsReady b'
  Ensured b (error e, b') =
      (unread ahead b ≡ unread ahead b')
      × (peekbuf b' ≡ [])
      × (e ≡ eof_error → unread ahead b' ≡ [])
      × IsReady b'

  refilled :
      (b : BorrowedStream S) (r : Expected (Unit {0}) × BorrowedStream S)
      → peekbuf b ≡ []
      → Refilled ahead b r
      → Ensured b r
  refilled b (value u, b') empty (moved, less, ready) = (
    rw empty moved,
    omega (
      arith,
      less,
      length-peekbuf b' ready,
      ap length moved,
      length-append (peekbuf b') (ahead b'.raw),
    ),
    ready,
  )
  refilled b (error e, b') empty (same, at_end, empty', ready) =
      (rw (empty, empty') (sym same), empty', λ eof. rw empty' (same ∙ at_end eof), ready)

  ensure-Ensured : (b : BorrowedStream S) → IsReady b → Ensured b (ensure device b)
  unfolding bufempty
  ensure-Ensured b ready = elim (Bool-cases (b.in_index == b.in_end)) [
    | inl e ↦ rw e (
        refilled b (refill device b) (peekbuf-empty b (ground (arith, e)))
          (refill-Refilled ahead device law b ready))
    | inr e ↦ rw e (refl, ground (arith, e, ready.index_le), ready)
  ]

  unread-current :
      (b : BorrowedStream S)
      → IsReady b
      → b.in_index < b.in_end
      → unread ahead b ≡ current device b ∷ unread ahead (consumed 1 b)
  unfolding peekbuf
  unread-current b ready h =
      let n : b.in_end - b.in_index ≡ suc (b.in_end - (b.in_index + 1)) = omega arith in
      rw
        (
          drop-get_elem? b.in_index (b.in_index + 1) (bytes b.in_buffer) refl
              (omega (arith, ready)),
          n,
        )
        refl

  -- What the loop of `getline` does.
  abbrev pub Rest : ℕ → Bytes → BorrowedStream S → Expected (Option ℕ) × BorrowedStream S → Type 0
  Rest i cs b (value none, b') = (unread ahead b ≡ cs ++ unread ahead b') × IsReady b'
  Rest i cs b (value (some k), b') =
      (j : ℕ) × (k ≡ i + j)
      × Differs (drop j cs) (unread ahead b')
      × (unread ahead b ≡ take j cs ++ unread ahead b')
      × IsReady b'
  Rest i cs b (error e, b') =
      (j : ℕ) × (j < length cs)
      × (unread ahead b ≡ take j cs ++ unread ahead b')
      × (peekbuf b' ≡ [])
      × (e ≡ eof_error → unread ahead b' ≡ [])
      × IsReady b'

  one_more :
      (i c : ℕ) (cs : Bytes) (b b' : BorrowedStream S) (r : Expected (Option ℕ) × BorrowedStream S)
      → unread ahead b ≡ c ∷ unread ahead b'
      → Rest (suc i) cs b' r
      → Rest i (c ∷ cs) b r
  one_more i c cs b b' (value none, t) e (f, ready) = (e ∙ ap (λ (q : Bytes). c ∷ q) f, ready)
  one_more i c cs b b' (value (some k), t) e (j, at, ne, f, ready) =
      (suc j, omega (arith, at), ne, e ∙ ap (λ (q : Bytes). c ∷ q) f, ready)
  one_more i c cs b b' (error x, t) e (j, lt, f, shows, at_end, ready) =
      (suc j, omega (arith, lt), e ∙ ap (λ (q : Bytes). c ∷ q) f, shows, at_end, ready)

  pub match_rest-Rest :
      (i : ℕ) (cs : Bytes) (b : BorrowedStream S)
      → IsReady b
      → Rest i cs b (match_rest device i cs b)
  unfolding match_rest
  match_rest-Rest i [] b ready = (refl, ready)
  match_rest-Rest i (c ∷ cs) b ready =
      step (ensure device b) (ensure-Ensured b ready) (λ b'. match_rest-Rest (suc i) cs b')
    where
      step :
          (r : Expected (Unit {0}) × BorrowedStream S)
          → Ensured b r
          → ((b' : BorrowedStream S)
              → IsReady b'
              → Rest (suc i) cs b' (match_rest device (suc i) cs b'))
          → Rest i (c ∷ cs) b (elim r.0 [
            | error e ↦ (error e, r.1)
            | value u ↦
                if c == current device r.1
                then match_rest device (suc i) cs (consumed 1 r.1)
                else (value (some i), r.1)
          ])
      step (error e, b') (same, empty, at_end, ready') rec =
          (0, omega arith, same, empty, at_end, ready')
      step (value u, b') (same, lt, ready') rec =
          let shown = unread-current b' ready' lt in
          elim (Bool-cases (c == current device b')) [
            | inl e ↦
                let c_is : c ≡ current device b' = ground (arith, e) in
                rw e (
                  one_more i c cs b (consumed 1 b') _
                    (same ∙ shown ∙ ap (λ (q : ℕ). q ∷ unread ahead (consumed 1 b')) (sym c_is))
                    (rec (consumed 1 b')
                      (consumed-IsReady b' ready' 1 (omega (arith, length-peekbuf b' ready', lt)))))
            | inr e ↦
                let ne : c ≢ current device b' = ground (arith, e) in
                rw e (0, omega arith, rw shown ne, same, ready')
          ]

-- The loop of `dropline` has the outcome of that of `getline`.
pub drop_rest-match_rest :
    {S : Type 0} (device : Stream S) (i : ℕ) (cs : Bytes) (b : BorrowedStream S)
    → drop_rest device cs b ≡ (
      transform (λ r. elim r [ none ↦ true | some k ↦ false ]) (match_rest device i cs b).0,
      (match_rest device i cs b).1,
    )
unfolding match_rest drop_rest transform
drop_rest-match_rest device i [] b = refl
drop_rest-match_rest {S} device i (c ∷ cs) b =
    step (ensure device b) (drop_rest-match_rest device (suc i) cs)
  where
    step :
        (r : Expected (Unit {0}) × BorrowedStream S)
        → ((b' : BorrowedStream S)
            → drop_rest device cs b' ≡ (
              transform
                  (λ r. elim r [ none ↦ true | some k ↦ false ])
                  (match_rest device (suc i) cs b').0,
              (match_rest device (suc i) cs b').1,
            ))
        → ◌≡◌ {A = Expected Bool × BorrowedStream S}
            (elim r.0 [
              | error e ↦ (error e, r.1)
              | value u ↦
                  if c == current device r.1
                  then drop_rest device cs (consumed 1 r.1)
                  else (value false, r.1)
            ])
            (let m : Expected (Option ℕ) × BorrowedStream S = elim r.0 [
              | error e ↦ (error e, r.1)
              | value u ↦
                  if c == current device r.1
                  then match_rest device (suc i) cs (consumed 1 r.1)
                  else (value (some i), r.1)
            ] in
              (transform (λ r. elim r [ none ↦ true | some k ↦ false ]) m.0, m.1))
    step (error e, b') rec = refl
    step (value u, b') rec = elim (Bool-cases (c == current device b')) [
      | inl e ↦ rw e (rec (consumed 1 b'))
      | inr e ↦ rw e refl
    ]
