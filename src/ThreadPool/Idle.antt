-- ===== src/ThreadPool/Idle.antt =====
-- The threads of a pool that are idle, and the steps of `submitJob`.
use mathlib.Core.Option.{none-ne-some, some-injective}
use mcoro.Prelude.{
  ℕ, suc, ◌≤◌, ◌<◌, ◌≡◌, ◌≢◌, ◌⊎◌, inl, inr, refl, Bool, true, false, Option, none, some, List, [],
  ◌∷◌, ◌++◌, arith, ap, sym, ◌∙◌, subst, All, update, update-other, Bool-cases, ◌==◌, All-map,
  All-both, All-append,
}
use mcoro.ThreadPool.{
  Worker, waiting, running, cleared, removed, Submitter, away, creating, holding, given, Pool,
  create, work_on,
}

abbrev pub Unlisted : ℕ → List ℕ → Type 0
Unlisted t us = All (λ u. u ≢ t) us

abbrev pub Distinct : List ℕ → Type 0
Distinct [] = Unit {0}
Distinct (t ∷ ts) = Unlisted t ts × Distinct ts

pub Distinct-last : (ts : List ℕ) (t : ℕ) → Distinct ts → Unlisted t ts → Distinct (ts ++ t ∷ [])
Distinct-last [] t d h = (tt, tt)
Distinct-last (u ∷ us) t (hu, d) (ne, h) =
    (All-append (λ v. v ≢ u) us (t ∷ []) hu ((λ z. ne (sym z)), tt), Distinct-last us t d h)

abbrev pub is_waiting : {J : Type 0} → Worker J → Bool
is_waiting waiting = true
is_waiting (running j) = false
is_waiting cleared = false
is_waiting removed = false

-- The thread that a call of `submitJob` has taken.
abbrev pub taken : {J : Type 0} → Submitter J → Option ℕ
taken (holding t j) = some t
taken away = none
taken (creating j) = none
taken (given t) = none

-- A thread that has no job and does not look for one.
pub record Idle {J : Type 0} (threads : ℕ) (worker : ℕ → Worker J) (task : ℕ → Option J) (t : ℕ)
    : Type 0 where
  pub made : t < threads
  pub waits : worker t ≡ waiting
  pub no_task : task t ≡ none

-- `mFreeThreads` holds idle threads, each once, and a thread that `submitJob` has taken is idle and not
-- there, and only one call has taken it.
pub record IsPool {J : Type 0} (p : Pool J) : Type 0 where
  pub free_idle : All (Idle p.threads p.worker p.task) p.free
  pub free_once : Distinct p.free
  pub held :
      (k t : ℕ)
      → taken (p.submitter k) ≡ some t
      → Idle p.threads p.worker p.task t × Unlisted t p.free
  pub held_once :
      (k l t : ℕ) → taken (p.submitter k) ≡ some t → taken (p.submitter l) ≡ some t → k ≡ l
  pub busy : (t : ℕ) → p.worker t ≢ waiting → p.task t ≡ none
  pub fresh : (t : ℕ) → p.threads ≤ t → (p.worker t ≡ waiting) × (p.task t ≡ none)

module _ {J : Type 0} where
  pub taken_cases :
      (f : ℕ → Submitter J) (k l t : ℕ) (x : Submitter J)
      → taken (update f k x l) ≡ some t
      → ((k ≡ l) × (taken x ≡ some t)) ⊎ ((k ≢ l) × (taken (f l) ≡ some t))
  taken_cases f k l t x h = elim (Bool-cases (k == l)) [
    | inl e ↦
        let same : update f k x l ≡ x = rw e refl in
        inl (ground (arith, e), ap taken (sym same) ∙ h)
    | inr e ↦
        let ne : k ≢ l = ground (arith, e) in inr (ne, ap taken (sym (update-other f k l x ne)) ∙ h)
  ]

  pub not_taken :
      (f : ℕ → Submitter J) (k l t : ℕ) (x : Submitter J)
      → taken x ≡ none
      → taken (update f k x l) ≡ some t
      → (k ≢ l) × (taken (f l) ≡ some t)
  not_taken f k l t x e h = elim (taken_cases f k l t x h) [
    | inl (z, g) ↦ absurd (none-ne-some t (sym e ∙ g))
    | inr g ↦ g
  ]

  -- A call goes on that has taken no thread, and does not take one now.
  pub away-IsPool :
      (p : Pool J) (k : ℕ) (x : Submitter J) (ws : List ℕ)
      → taken x ≡ none
      → IsPool p
      → IsPool (record p { working = ws; submitter = update p.submitter k x })
  away-IsPool p k x ws e q = record {
    free_idle = q.free_idle;
    free_once = q.free_once;
    held = λ l t h. q.held l t (not_taken p.submitter k l t x e h).1;
    held_once = λ l m t h i.
        q.held_once l m t (not_taken p.submitter k l t x e h).1
          (not_taken p.submitter k m t x e i).1;
    busy = q.busy;
    fresh = q.fresh;
  }

  pub take-IsPool :
      (p : Pool J) (k t : ℕ) (j : J) (ts : List ℕ)
      → p.free ≡ t ∷ ts
      → IsPool p
      → IsPool (record p { free = ts; submitter = update p.submitter k (holding t j) })
  take-IsPool p k t j ts e q =
      let (idle, idles) = subst (All (Idle p.threads p.worker p.task)) e q.free_idle in
      let (once, onces) = subst Distinct e q.free_once in
      let old : (l u : ℕ) → taken (p.submitter l) ≡ some u → (t ≢ u) × Unlisted u ts =
        λ l u h. subst (Unlisted u) e (q.held l u h).1 in
      record {
        free_idle = idles;
        free_once = onces;
        held = λ l u h. elim (taken_cases p.submitter k l u (holding t j) h) [
          | inl (z, g) ↦
              subst (λ v. Idle p.threads p.worker p.task v × Unlisted v ts) (some-injective t u g)
                (idle, once)
          | inr (z, g) ↦ ((q.held l u g).0, (old l u g).1)
        ];
        held_once = λ l m u h i. elim (taken_cases p.submitter k l u (holding t j) h) [
          | inl (z, g) ↦ elim (taken_cases p.submitter k m u (holding t j) i) [
            | inl (z', g') ↦ sym z ∙ z'
            | inr (z', g') ↦ absurd ((old m u g').0 (some-injective t u g))
          ]
          | inr (z, g) ↦ elim (taken_cases p.submitter k m u (holding t j) i) [
            | inl (z', g') ↦ absurd ((old l u g).0 (some-injective t u g'))
            | inr (z', g') ↦ q.held_once l m u g g'
          ]
        ];
        busy = q.busy;
        fresh = q.fresh;
      }

  pub create-IsPool : (p : Pool J) (k : ℕ) (j : J) → IsPool p → IsPool (create k j p)
  unfolding create
  create-IsPool p k j q =
      let wider : (u : ℕ)
          → Idle p.threads p.worker p.task u
          → Idle (suc p.threads) p.worker p.task u =
        λ u i. record { made = omega (arith, i.made); waits = i.waits; no_task = i.no_task } in
      let (waits, no_task) = q.fresh p.threads (omega arith) in
      let new : Idle (suc p.threads) p.worker p.task p.threads = record {
        made = omega arith;
        waits = waits;
        no_task = no_task;
      } in
      let unlisted : Unlisted p.threads p.free =
        All-map (Idle p.threads p.worker p.task) (λ u. u ≢ p.threads) p.free
          (λ u i z. omega (arith, i.made, z)) q.free_idle in
      let old : (l : ℕ) → taken (p.submitter l) ≡ some p.threads → ⊥ =
        λ l h. omega (arith, (q.held l p.threads h).0.made) in
      let x = holding p.threads j in
      record {
        free_idle =
            All-map (Idle p.threads p.worker p.task) (Idle (suc p.threads) p.worker p.task) p.free
              wider q.free_idle;
        free_once = q.free_once;
        held = λ l u h. elim (taken_cases p.submitter k l u x h) [
          | inl (z, g) ↦
              subst (λ v. Idle (suc p.threads) p.worker p.task v × Unlisted v p.free)
                (some-injective p.threads u g) (new, unlisted)
          | inr (z, g) ↦ (wider u (q.held l u g).0, (q.held l u g).1)
        ];
        held_once = λ l m u h i. elim (taken_cases p.submitter k l u x h) [
          | inl (z, g) ↦ elim (taken_cases p.submitter k m u x i) [
            | inl (z', g') ↦ sym z ∙ z'
            | inr (z', g') ↦ absurd (old m (g' ∙ sym g))
          ]
          | inr (z, g) ↦ elim (taken_cases p.submitter k m u x i) [
            | inl (z', g') ↦ absurd (old l (g ∙ sym g'))
            | inr (z', g') ↦ q.held_once l m u g g'
          ]
        ];
        busy = q.busy;
        fresh = λ u l. q.fresh u (omega (arith, l));
      }

  pub work_on-IsPool :
      (p : Pool J) (k t : ℕ) (j : J)
      → taken (p.submitter k) ≡ some t
      → IsPool p
      → IsPool (work_on k t j p)
  unfolding work_on
  work_on-IsPool p k t j e q =
      let (idle, unlisted) = q.held k t e in
      let task = update p.task t (some j) in
      let still : (u : ℕ)
          → u ≢ t
          → Idle p.threads p.worker p.task u
          → Idle p.threads p.worker task u =
        λ u ne i. record {
          made = i.made;
          waits = i.waits;
          no_task = update-other p.task t u (some j) (λ z. ne (sym z)) ∙ i.no_task;
        } in
      record {
        free_idle =
            All-both (λ u. u ≢ t) (Idle p.threads p.worker p.task) (Idle p.threads p.worker task)
              p.free still unlisted q.free_idle;
        free_once = q.free_once;
        held = λ l u h.
            let (ne, g) = not_taken p.submitter k l u (given t) refl h in
            (
              still u
                  (λ z. ne (q.held_once k l t e (subst (λ v. taken (p.submitter l) ≡ some v) z g)))
                  (q.held l u g).0,
              (q.held l u g).1,
            );
        held_once = λ l m u h i.
            q.held_once l m u (not_taken p.submitter k l u (given t) refl h).1
              (not_taken p.submitter k m u (given t) refl i).1;
        busy = λ u h.
            update-other p.task t u (some j) (λ z. h (ap p.worker (sym z) ∙ idle.waits))
            ∙ q.busy u h;
        fresh = λ u l. (
          (q.fresh u l).0,
          update-other p.task t u (some j) (λ z. omega (arith, l, idle.made, z)) ∙ (q.fresh u l).1,
        );
      }
