-- ===== src/WhenAll/Once.antt =====
-- The caller of `when_all` goes on once, when all tasks have ended.
use native.Mathlib.Decide.{dec_lt}
use mathlib.Core.Option.{none-ne-some}
use mcoro.Prelude.{
  ℕ, zero, suc, ◌+◌, ◌^◌, ◌≤◌, ◌<◌, ◌≡◌, ◌≢◌, ◌⊎◌, inl, inr, refl, ap, sym, ◌∙◌, Option, none, some,
  List, [], ◌∷◌, ◌++◌, ◌==◌, if◌then◌else◌, update-other, arith, length, get_elem?, Bool-cases,
  length-append,
}
use mcoro.WhenAll.{
  Helper, initial, running, finished, failed, Control, start_next, finish, fail, starts, finishes,
  fails, Reach, start, later, results, added,
}
use mcoro.WhenAll.Count.{
  one_done, number_done, number_done-update, number_done-le, number_done-lt, number_done-initial,
  decrement_lem,
}

-- Without an exception: `count` is the number of tasks that are under way, and the caller has gone on
-- if that is 0.
record IsCounted {V X : Type 0} (n : ℕ) (s : Control V X) : Type 0 where
  pub sum : s.count + number_done n s.helper ≡ n
  pub resumed : s.resumed ≡ (if s.count == 0 then 1 else 0)
  pub fresh : (i : ℕ) → s.started ≤ i → s.helper i ≡ initial

module _ {V X : Type 0} (n : ℕ) (small : n < 2 ^ 64) where
  start-IsCounted : (s : Control V X) → s.started < n → IsCounted n s → IsCounted n (start_next s)
  unfolding start_next
  start-IsCounted s l h = record {
    sum = omega (
      arith,
      h.sum,
      number_done-update n s.started s.helper running l,
      ap one_done (h.fresh s.started (omega arith)),
    );
    resumed = h.resumed;
    fresh = λ i li.
        update-other s.helper s.started i running (λ z. omega (arith, li, z))
        ∙ h.fresh i (omega (arith, li));
  }

  under_way :
      (s : Control V X) (i : ℕ)
      → i < n
      → s.helper i ≡ running
      → IsCounted n s
      → (0 < s.count) × (s.count < 2 ^ 64) × (s.resumed ≡ 0)
  under_way s i l e h =
      let less = number_done-lt n i s.helper l (ap one_done e) in
      let sum = h.sum in
      let p : 0 < s.count = omega (arith, less, sum) in
      (p, omega (arith, sum, small), h.resumed ∙ ground (arith, p))

  finish-IsCounted :
      (s : Control V X) (i : ℕ) (v : V)
      → i < n
      → s.helper i ≡ running
      → IsCounted n s
      → IsCounted n (finish i v s)
  unfolding finish
  finish-IsCounted s i v l e h =
      let (p, b, r) = under_way s i l e h in
      record {
        sum = omega (
          arith,
          h.sum,
          number_done-update n i s.helper (finished v) l,
          ap one_done e,
          decrement_lem s.count p b,
        );
        resumed = rw r refl;
        fresh = λ j lj.
            update-other s.helper i j (finished v) (λ z. cc (e, z, h.fresh j lj)) ∙ h.fresh j lj;
      }

  Reach-IsCounted : {s : Control V X} → Reach n s → s.exception ≡ none → IsCounted n s
  unfolding start_next finish fail
  Reach-IsCounted start e = record {
    sum = omega (arith, number_done-initial V X n (λ i. initial) (λ i. refl));
    resumed = refl;
    fresh = λ i l. refl;
  }
  Reach-IsCounted (later {s} r (starts l)) e = start-IsCounted s l (Reach-IsCounted r e)
  Reach-IsCounted (later {s} r (finishes i v l h)) e =
      finish-IsCounted s i v l h (Reach-IsCounted r e)
  Reach-IsCounted (later r (fails i x l h)) e = absurd (none-ne-some x (sym e))

get_elem?-last : {A : Type 0} (xs : List A) (a : A) → get_elem? (xs ++ a ∷ []) (length xs) ≡ some a
get_elem?-last [] a = refl
get_elem?-last (x ∷ xs) a = get_elem?-last xs a

get_elem?-front :
    {A : Type 0} (xs ys : List A) (i : ℕ) → i < length xs → get_elem? (xs ++ ys) i ≡ get_elem? xs i
get_elem?-front [] ys i l = absurd (omega arith)
get_elem?-front (x ∷ xs) ys zero l = refl
get_elem?-front (x ∷ xs) ys (suc i) l = get_elem?-front xs ys i (omega arith)

-- Every task has ended, and these are the results in the order of the tasks.
pub record AllDone {V X : Type 0} (n : ℕ) (helper : ℕ → Helper V X) (vs : List V) : Type 0 where
  pub moved : results n helper ≡ some vs
  pub size : length vs ≡ n
  pub in_order : (i : ℕ) → i < n → (v : V) × (helper i ≡ finished v) × (get_elem? vs i ≡ some v)

module _ {V X : Type 0} where
  done_cases :
      (h : Helper V X)
      → ((v : V) × (h ≡ finished v))
        ⊎ ((one_done h ≡ 0) × ((r : Option (List V)) → added h r ≡ none))
  done_cases initial = inr (refl, λ r. refl)
  done_cases running = inr (refl, λ r. refl)
  done_cases (finished v) = inl (v, refl)
  done_cases (failed x) = inr (refl, λ r. refl)

  results-AllDone :
      (n : ℕ) (helper : ℕ → Helper V X)
      → number_done n helper ≡ n
      → (vs : List V) × AllDone n helper vs
  unfolding results number_done
  results-AllDone zero helper e =
      ([], record { moved = refl; size = refl; in_order = λ i l. absurd (omega arith) })
  results-AllDone (suc n) helper e = elim (done_cases (helper n)) [
    | inl (v, ev) ↦
        let (vs, all) = results-AllDone n helper (omega (arith, e, ap one_done ev)) in
        (
          vs ++ v ∷ [],
          record {
            moved = rw (all.moved, ev) refl;
            size = omega (arith, length-append vs (v ∷ []), all.size);
            in_order = λ i l. elim (dec_lt i n) [
              | yes less ↦
                  let (w, ew, gw) = all.in_order i less in
                  (w, ew, get_elem?-front vs (v ∷ []) i (omega (arith, all.size, less)) ∙ gw)
              | no more ↦
                  let same : length vs ≡ i = omega (arith, all.size, more, l) in
                  (
                    v,
                    ap helper (sym same ∙ all.size) ∙ ev,
                    ap (get_elem? (vs ++ v ∷ [])) (sym same) ∙ get_elem?-last vs v,
                  )
            ];
          },
        )
    | inr (ev, ea) ↦ absurd (omega (arith, e, ev, number_done-le n helper))
  ]

  results-none :
      (n : ℕ) (helper : ℕ → Helper V X) → number_done n helper < n → results n helper ≡ none
  unfolding results number_done
  results-none zero helper l = absurd (omega arith)
  results-none (suc n) helper l = elim (done_cases (helper n)) [
    | inl (v, ev) ↦ rw (results-none n helper (omega (arith, l, ap one_done ev)), ev) refl
    | inr (ev, ea) ↦ ea (results n helper)
  ]

  -- `when_all` of fewer than 2 ^ 64 tasks, in every state that its tasks reach by starting and
  -- ending in any order, while none has thrown: either the caller has not been resumed, and not
  -- all results are there, or it was resumed once, all tasks have ended, and the vector that
  -- `when_all` returns has their results in the order of the tasks.
  pub resumed-AllDone :
      (n : ℕ) (s : Control V X)
      → n < 2 ^ 64
      → Reach n s
      → s.exception ≡ none
      → ((s.resumed ≡ 0) × (results n s.helper ≡ none))
        ⊎ ((s.resumed ≡ 1) × ((vs : List V) × AllDone n s.helper vs))
  resumed-AllDone n s small r e =
      let h = Reach-IsCounted n small r e in
      elim (Bool-cases (s.count == 0)) [
        | inl z ↦
            let empty : s.count ≡ 0 = ground (arith, z) in
            inr (h.resumed ∙ rw z refl, results-AllDone n s.helper (omega (arith, h.sum, empty)))
        | inr z ↦
            let more : 0 < s.count = ground (arith, z) in
            inl (h.resumed ∙ rw z refl, results-none n s.helper (omega (arith, h.sum, more)))
      ]

  -- When a task of `when_all` throws while another one is under way, and none has thrown before,
  -- a state is reached in which the caller, which had not been resumed, was resumed with the
  -- exception while the other task is still under way.
  pub fail-resumed :
      (n i j : ℕ) (x : X) (s : Control V X)
      → n < 2 ^ 64
      → Reach n s
      → s.exception ≡ none
      → i < n
      → j < n
      → i ≢ j
      → s.helper i ≡ running
      → s.helper j ≡ running
      → (t : Control V X) × Reach n t
        × (s.resumed ≡ 0)
        × (t.resumed ≡ 1)
        × (t.exception ≡ some x)
        × (t.helper j ≡ running)
  unfolding fail
  fail-resumed n i j x s small r e li lj ne ri rj =
      let (p, b, none_yet) = under_way n small s i li ri (Reach-IsCounted n small r e) in
      (
        fail i x s,
        later r (fails i x li ri),
        none_yet,
        rw none_yet refl,
        refl,
        update-other s.helper i j (failed x) ne ∙ rj,
      )
