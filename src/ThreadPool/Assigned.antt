-- ===== src/ThreadPool/Assigned.antt =====
-- A thread that is given a job has none.
use mathlib.Core.Option.{none-ne-some}
use mathlib.Core.Bool.{true≢false}
use native.Mathlib.Decide.{dec_lt}
use mcoro.Prelude.{
  ℕ, ◌≤◌, ◌<◌, ◌≡◌, ◌≢◌, inl, inr, refl, Option, none, some, List, [], ◌∷◌, ◌++◌, arith, ap, sym,
  ◌∙◌, subst, update, update-same, update-other, Bool-cases, ◌==◌, All-map, All-append,
}
use mcoro.ThreadPool.{
  Worker, waiting, running, cleared, removed, away, creating, holding, given, Pool, pool, look_in,
  look, add_working, start, finish, remove_working, add_free, remove, Step, looks, creates, gives,
  lists, starts, finishes, removes, frees, Reach, begin, later,
}
use mcoro.ThreadPool.Idle.{
  Unlisted, Distinct-last, is_waiting, taken, Idle, IsPool, away-IsPool, take-IsPool, create-IsPool,
  work_on-IsPool,
}

module _ {J : Type 0} where
  -- A thread of the pool that is not idle goes on, and is not idle then.
  go-IsPool :
      (p : Pool J) (t : ℕ) (w : Worker J) (task : ℕ → Option J) (ws : List ℕ)
      → (p.worker t ≡ waiting → p.task t ≢ none)
      → ((u : ℕ) → t ≢ u → task u ≡ p.task u)
      → w ≢ waiting
      → task t ≡ none
      → IsPool p
      → IsPool (record p { working = ws; task = task; worker = update p.worker t w })
  go-IsPool p t w task ws e same hw ht q =
      let worker = update p.worker t w in
      let apart : (u : ℕ) → Idle p.threads p.worker p.task u → t ≢ u =
        λ u i z. e (ap p.worker z ∙ i.waits) (ap p.task z ∙ i.no_task) in
      let still : (u : ℕ) → Idle p.threads p.worker p.task u → Idle p.threads worker task u = λ u i.
        record {
          made = i.made;
          waits = update-other p.worker t u w (apart u i) ∙ i.waits;
          no_task = same u (apart u i) ∙ i.no_task;
        } in
      let outside : (u : ℕ) → p.threads ≤ u → t ≢ u =
        λ u l z. e (ap p.worker z ∙ (q.fresh u l).0) (ap p.task z ∙ (q.fresh u l).1) in
      record {
        free_idle =
            All-map (Idle p.threads p.worker p.task) (Idle p.threads worker task) p.free still
              q.free_idle;
        free_once = q.free_once;
        held = λ l u h. (still u (q.held l u h).0, (q.held l u h).1);
        held_once = q.held_once;
        busy = λ u h. elim (Bool-cases (t == u)) [
          | inl z ↦ subst (λ v. task v ≡ none) (ground (arith, z)) ht
          | inr z ↦
              let ne : t ≢ u = ground (arith, z) in
              same u ne ∙ q.busy u (λ g. h (update-other p.worker t u w ne ∙ g))
        ];
        fresh = λ u l. (
          update-other p.worker t u w (outside u l) ∙ (q.fresh u l).0,
          same u (outside u l) ∙ (q.fresh u l).1,
        );
      }

  add_free-IsPool : (p : Pool J) (t : ℕ) → p.worker t ≢ waiting → IsPool p → IsPool (add_free t p)
  unfolding add_free
  add_free-IsPool p t e q =
      let worker = update p.worker t waiting in
      let apart : (u : ℕ) → Idle p.threads p.worker p.task u → t ≢ u =
        λ u i z. e (ap p.worker z ∙ i.waits) in
      let still : (u : ℕ) → Idle p.threads p.worker p.task u → Idle p.threads worker p.task u =
        λ u i. record {
          made = i.made;
          waits = update-other p.worker t u waiting (apart u i) ∙ i.waits;
          no_task = i.no_task;
        } in
      let outside : (u : ℕ) → p.threads ≤ u → t ≢ u =
        λ u l z. e (ap p.worker z ∙ (q.fresh u l).0) in
      let made : t < p.threads = elim (dec_lt t p.threads) [
        | yes l ↦ l
        | no l ↦ absurd (outside t (omega (arith, l)) refl)
      ] in
      let idle : Idle p.threads worker p.task t = record {
        made = made;
        waits = update-same p.worker t waiting;
        no_task = q.busy t e;
      } in
      record {
        free_idle =
            All-append (Idle p.threads worker p.task) p.free (t ∷ [])
              (All-map (Idle p.threads p.worker p.task) (Idle p.threads worker p.task) p.free still
                q.free_idle)
              (idle, tt);
        free_once = Distinct-last p.free t q.free_once (
            All-map (Idle p.threads p.worker p.task) (λ u. u ≢ t) p.free
              (λ u i z. apart u i (sym z)) q.free_idle);
        held = λ l u h.
            let (i, un) = q.held l u h in
            (still u i, All-append (λ v. v ≢ u) p.free (t ∷ []) un (apart u i, tt));
        held_once = q.held_once;
        busy = λ u h. elim (Bool-cases (t == u)) [
          | inl z ↦ subst (λ v. p.task v ≡ none) (ground (arith, z)) (q.busy t e)
          | inr z ↦
              let ne : t ≢ u = ground (arith, z) in
              q.busy u (λ g. h (update-other p.worker t u waiting ne ∙ g))
        ];
        fresh = λ u l.
            (update-other p.worker t u waiting (outside u l) ∙ (q.fresh u l).0, (q.fresh u l).1);
      }

  start-IsPool : (p : Pool J) (t : ℕ) (j : J) → p.task t ≡ some j → IsPool p → IsPool (start t j p)
  unfolding start
  start-IsPool p t j e =
      go-IsPool p t (running j) (update p.task t none) p.working (λ w z. none-ne-some j (sym z ∙ e))
        (λ u ne. update-other p.task t u none ne) (λ z. true≢false (sym (ap is_waiting z)))
        (update-same p.task t none)

  finish-IsPool :
      (p : Pool J) (t : ℕ) (j : J) → p.worker t ≡ running j → IsPool p → IsPool (finish t p)
  unfolding finish
  finish-IsPool p t j e =
      go-IsPool p t cleared (update p.task t none) p.working
        (λ w z. true≢false (sym (ap is_waiting w) ∙ ap is_waiting e))
        (λ u ne. update-other p.task t u none ne) (λ z. true≢false (sym (ap is_waiting z)))
        (update-same p.task t none)

  remove_working-IsPool :
      (p : Pool J) (t : ℕ) → p.worker t ≡ cleared → IsPool p → IsPool (remove_working t p)
  unfolding remove_working
  remove_working-IsPool p t e q =
      let busy : p.worker t ≢ waiting = λ w. true≢false (sym (ap is_waiting w) ∙ ap is_waiting e) in
      go-IsPool p t removed p.task (remove t p.working) (λ w z. busy w) (λ u ne. refl)
        (λ z. true≢false (sym (ap is_waiting z))) (q.busy t busy) q

  look-IsPool : (p : Pool J) (k : ℕ) (j : J) → IsPool p → IsPool (look k j p)
  unfolding look
  look-IsPool p k j q = with_free p.free refl
    where
      with_free : (ts : List ℕ) → p.free ≡ ts → IsPool (look_in ts k j p)
      with_free [] e = away-IsPool p k (creating j) p.working refl q
      with_free (t ∷ ts) e = take-IsPool p k t j ts e q

  pool-IsPool : IsPool (pool {J = J})
  pool-IsPool = record {
    free_idle = tt;
    free_once = tt;
    held = λ k t h. absurd (none-ne-some t h);
    held_once = λ k l t h i. absurd (none-ne-some t h);
    busy = λ t h. refl;
    fresh = λ t l. (refl, refl);
  }

  Step-IsPool : {p p' : Pool J} → Step p p' → IsPool p → IsPool p'
  unfolding add_working
  Step-IsPool {p} (looks k j e) q = look-IsPool p k j q
  Step-IsPool {p} (creates k j e) q = create-IsPool p k j q
  Step-IsPool {p} (gives k t j e) q = work_on-IsPool p k t j (ap taken e) q
  Step-IsPool {p} (lists k t e) q = away-IsPool p k away (p.working ++ t ∷ []) refl q
  Step-IsPool {p} (starts t j l w e) q = start-IsPool p t j e q
  Step-IsPool {p} (finishes t j e) q = finish-IsPool p t j e q
  Step-IsPool {p} (removes t e) q = remove_working-IsPool p t e q
  Step-IsPool {p} (frees t e) q =
      add_free-IsPool p t (λ w. true≢false (sym (ap is_waiting w) ∙ ap is_waiting e)) q

  Reach-IsPool : {p : Pool J} → Reach p → IsPool p
  Reach-IsPool begin = pool-IsPool
  Reach-IsPool (later r s) = Step-IsPool s (Reach-IsPool r)

  -- In every pool that threads reach by calls of `submitJob` and the steps of the threads of the
  -- pool, in any order: a thread that `submitJob` has taken, or made, and not yet given its job,
  -- is in `mCV.wait` with a null `mTask`, is not in the list of the free threads, and no other
  -- call has taken it; so `workOn` overwrites no job.
  pub holding-Idle :
      (p : Pool J) (k t : ℕ) (j : J)
      → Reach p
      → p.submitter k ≡ holding t j
      → Idle p.threads p.worker p.task t
        × Unlisted t p.free
        × ((l : ℕ) (i : J) → p.submitter l ≡ holding t i → k ≡ l)
  holding-Idle p k t j r e =
      let q = Reach-IsPool r in
      let (idle, unlisted) = q.held k t (ap taken e) in
      (idle, unlisted, λ l i f. q.held_once k l t (ap taken e) (ap taken f))

  -- From every pool that is reached in which a call of `submitJob` has given a job to a waiting
  -- thread and not yet put it into the list of the working threads, a pool is reached in which
  -- that thread is idle and stands at the end of the list of the free threads and at the end of
  -- the list of the working threads.
  pub given-listed :
      (p : Pool J) (k t : ℕ) (j : J)
      → Reach p
      → p.submitter k ≡ given t
      → t < p.threads
      → p.worker t ≡ waiting
      → p.task t ≡ some j
      → (p' : Pool J) × Reach p'
        × Idle p'.threads p'.worker p'.task t
        × ((us : List ℕ) × (p'.working ≡ us ++ t ∷ []))
        × ((us : List ℕ) × (p'.free ≡ us ++ t ∷ []))
  unfolding start finish remove_working add_free add_working
  given-listed p k t j r e l w f =
      let p1 = start t j p in
      let p2 = finish t p1 in
      let p3 = remove_working t p2 in
      let p4 = add_free t p3 in
      let r1 = later r (starts t j l w f) in
      let r2 = later r1 (finishes t j (update-same p.worker t (running j))) in
      let r3 = later r2 (removes t (update-same p1.worker t cleared)) in
      let r4 = later r3 (frees t (update-same p2.worker t removed)) in
      (
        add_working k t p4,
        later r4 (lists k t e),
        record {
          made = l;
          waits = update-same p3.worker t waiting;
          no_task = update-same p1.task t none;
        },
        (remove t p.working, refl),
        (p.free, refl),
      )
