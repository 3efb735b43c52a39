-- ===== src/Task/Call.antt =====
-- A `co_await` of a task is a call.
use mathlib.Core.Option.{none-ne-some, some-injective}
use native.Mathlib.Decide.{dec_lt}
use mcoro.Prelude.{
  subst, ℕ, zero, suc, ◌≤◌, ◌<◌, ◌≡◌, ◌≢◌, refl, ap, sym, ◌∙◌, Option, none, some, List, [], ◌∷◌,
  arith, update, update-same, update-other,
}
use mcoro.Task.{
  Frame, Outcome, returned, threw, Body, co_return, throw, co_await, operation, initial, awaiting,
  pending, destroyed, Machine, Control, resume, run, idle, step, steps, await_ready, await_resume,
  await_suspend, set_frame, return_value, unhandled_exception, awaiter_of,
}

-- The task as a function: what it returns or throws, and the events that it leaves. There is no
-- outcome when the events are not enough.
abbrev after :
    {V X : Type 0}
    → Option (Outcome V X × List V)
    → (Outcome V X → List V → Option (Outcome V X × List V))
    → Option (Outcome V X × List V)
after none k = none
after (some (o, es)) k = k o es

unfoldable pub call : {V X : Type 0} → Body V X → List V → Option (Outcome V X × List V)
call (co_return v) es = some (returned v, es)
call (throw x) es = some (threw x, es)
call (co_await b k) es = after (call b es) λ o es'. call (k o) es'
call (operation k) [] = none
call (operation k) (e ∷ es) = call (k e) es

after-some :
    {V X : Type 0} (r : Option (Outcome V X × List V))
    (k : Outcome V X → List V → Option (Outcome V X × List V)) (o : Outcome V X × List V)
    → after r k ≡ some o
    → (o' : Outcome V X) × (es : List V) × (r ≡ some (o', es)) × (k o' es ≡ some o)
after-some none k o e = absurd (none-ne-some o e)
after-some (some (o', es)) k o e = (o', es, refl, e)

module _ {V X : Type 0} where
  -- The machine comes from one state to another.
  abbrev Goes : Control V X × Machine V X → Control V X × Machine V X → Type 0
  Goes s s' = (n : ℕ) × (steps n s ≡ s')

  Goes-step : (s s' : Control V X × Machine V X) → Goes (step s) s' → Goes s s'
  unfolding steps
  Goes-step s s' (n, e) = (suc n, e)

  Goes-via : (s t s' : Control V X × Machine V X) → step s ≡ t → Goes t s' → Goes s s'
  Goes-via s t s' e g = Goes-step s s' (subst (λ u. Goes u s') (sym e) g)

  Goes-trans : (s t u : Control V X × Machine V X) → Goes s t → Goes t u → Goes s u
  unfolding steps
  Goes-trans s t u (zero, e) g = subst (λ v. Goes v u) (sym e) g
  Goes-trans s t u (suc n, e) g = Goes-step s u (Goes-trans (step s) t u (n, e) g)

  -- What a coroutine leaves when it is done: its outcome for the one that awaits it, the events behind
  -- those that it took, the others as they were, and no frame of a task that it made.
  pub record Done (m m' : Machine V X) (h : ℕ) (o : Outcome V X) (es : List V) : Type 0 where
    pub outcome : await_resume (m'.awaiter h) ≡ some o
    pub events : m'.events ≡ es
    pub next : m.next ≤ m'.next
    pub frames : (j : ℕ) → j < m.next → j ≢ h → m'.frame j ≡ m.frame j
    pub awaiters : (j : ℕ) → j < m.next → j ≢ h → m'.awaiter j ≡ m.awaiter j
    pub no_leak : (j : ℕ) → m.next ≤ j → j < m'.next → m'.frame j ≡ destroyed

  -- `h` runs to its end and transfers to the coroutine that awaits it.
  abbrev Runs : Machine V X → ℕ → Body V X → Outcome V X → List V → Type 0
  Runs m h b o es =
      (m' : Machine V X) × Goes (run h b, m) (resume (m.awaiter h).caller_coroutine, m')
      × Done m m' h o es

  Runs-return :
      (m : Machine V X) (h : ℕ) (v : V)
      → (m.awaiter h).exception ≡ none
      → Runs m h (co_return v) (returned v) m.events
  unfolding step steps await_resume
  Runs-return m h v e = (
    return_value h v m,
    (1, refl),
    record {
      outcome = rw (update-same m.awaiter h (record (m.awaiter h) { result = some v }), e) refl;
      events = refl;
      next = omega arith;
      frames = λ j l n. refl;
      awaiters = λ j l n. update-other m.awaiter h j _ (λ z. n (sym z));
      no_leak = λ j l l'. absurd (omega arith);
    },
  )

  Runs-throw : (m : Machine V X) (h : ℕ) (x : X) → Runs m h (throw x) (threw x) m.events
  unfolding step steps await_resume
  Runs-throw m h x = (
    unhandled_exception h x m,
    (1, refl),
    record {
      outcome = rw (update-same m.awaiter h (record (m.awaiter h) { exception = some x })) refl;
      events = refl;
      next = omega arith;
      frames = λ j l n. refl;
      awaiters = λ j l n. update-other m.awaiter h j _ (λ z. n (sym z));
      no_leak = λ j l l'. absurd (omega arith);
    },
  )

  Runs-operation :
      (m : Machine V X) (h : ℕ) (k : V → Body V X) (v : V) (vs es : List V) (o : Outcome V X)
      → m.events ≡ v ∷ vs
      → Runs (record (set_frame h (pending k) m) { events = vs }) h (k v) o es
      → Runs m h (operation k) o es
  unfolding step
  Runs-operation m h k v vs es o e (m', g, d) =
      let m1 = set_frame h (pending k) m in
      (
        m',
        Goes-via _ (idle h, m1) _ refl
            (Goes-via _ (run h (k v), record m1 { events = vs }) _
              (rw (update-same m.frame h (pending k), e) refl) g),
        record {
          outcome = d.outcome;
          events = d.events;
          next = d.next;
          frames = λ j l n. d.frames j l n ∙ update-other m.frame h j (pending k) (λ z. n (sym z));
          awaiters = d.awaiters;
          no_leak = d.no_leak;
        },
      )

  -- The frames of a task and of those that it made, once its own is destroyed too.
  destroyed_from :
      (c next : ℕ) (frame : ℕ → Frame V X)
      → ((j : ℕ) → suc c ≤ j → j < next → frame j ≡ destroyed)
      → (j : ℕ) → c ≤ j
      → j < next
      → update frame c destroyed j ≡ destroyed
  destroyed_from c next frame gone j lo hi = elim (dec_lt c j) [
    | yes l ↦
        update-other frame c j destroyed (λ z. omega (arith, l, z)) ∙ gone j (omega (arith, l)) hi
    | no l ↦
        let e : c ≡ j = omega (arith, l, lo) in
        ap (update frame c destroyed) (sym e) ∙ update-same frame c destroyed
  ]

  Runs-await :
      (m : Machine V X) (h : ℕ) (b : Body V X) (k : Outcome V X → Body V X) (es es' : List V)
      (o o' : Outcome V X)
      → h < m.next
      → ((m1 : Machine V X) (c : ℕ)
          → c < m1.next
          → (m1.awaiter c).exception ≡ none
          → m1.events ≡ m.events
          → Runs m1 c b o' es')
      → ((m3 : Machine V X)
          → h < m3.next
          → m3.awaiter h ≡ m.awaiter h
          → m3.events ≡ es'
          → Runs m3 h (k o') o es)
      → Runs m h (co_await b k) o es
  unfolding step await_ready
  Runs-await m h b k es es' o o' l callee rest =
      let c = m.next in
      let m1 = await_suspend h b k m in
      let a = update-same m.awaiter c (awaiter_of h) in
      let h_ne_c : h ≢ c = λ z. omega (arith, l, z) in
      let (m2, g, d) = callee m1 c (omega arith) (ap (λ q. q.exception) a) refl in
      let m3 = set_frame c destroyed m2 in
      let held =
        d.frames h (omega (arith, l)) h_ne_c
        ∙ update-same (update m.frame c (initial b)) h (awaiting c k) in
      let kept =
        d.awaiters h (omega (arith, l)) h_ne_c
        ∙ update-other m.awaiter c h (awaiter_of h) (λ z. h_ne_c (sym z)) in
      let (m', g', d') = rest m3 (omega (arith, l, d.next)) kept d.events in
      (
        m',
        Goes-via _ (resume c, m1) _ refl
            (Goes-via _ (run c b, m1) _
              (rw
                (
                  update-other (update m.frame c (initial b)) h c (awaiting c k) h_ne_c,
                  update-same m.frame c (initial b),
                )
                refl)
              (Goes-trans _ (resume h, m2) _
                (subst (λ q. Goes (run c b, m1) (resume q.caller_coroutine, m2)) a g)
                (Goes-via _ (run h (k o'), m3) _ (rw (held, d.outcome) refl)
                  (subst (λ q. Goes (run h (k o'), m3) (resume q.caller_coroutine, m')) kept g')))),
        record {
          outcome = d'.outcome;
          events = d'.events;
          next = omega (arith, d.next, d'.next);
          frames = λ j lj n.
              let j_ne_c : c ≢ j = λ z. omega (arith, lj, z) in
              d'.frames j (omega (arith, lj, d.next)) n
              ∙ update-other m2.frame c j destroyed j_ne_c
              ∙ d.frames j (omega (arith, lj)) (λ z. j_ne_c (sym z))
              ∙ update-other (update m.frame c (initial b)) h j (awaiting c k) (λ z. n (sym z))
              ∙ update-other m.frame c j (initial b) j_ne_c;
          awaiters = λ j lj n.
              let j_ne_c : c ≢ j = λ z. omega (arith, lj, z) in
              d'.awaiters j (omega (arith, lj, d.next)) n
              ∙ d.awaiters j (omega (arith, lj)) (λ z. j_ne_c (sym z))
              ∙ update-other m.awaiter c j (awaiter_of h) j_ne_c;
          no_leak = λ j lo hi. elim (dec_lt j m2.next) [
            | no lj ↦ d'.no_leak j (omega (arith, lj)) hi
            | yes lj ↦
                d'.frames j lj (λ z. omega (arith, l, lo, z))
                ∙ destroyed_from c m2.next m2.frame d.no_leak j lo lj
          ];
        },
      )

  -- The machine of coroutines, from the start of the body of a coroutine `h` with no exception in
  -- its awaiter, comes after some steps to where it resumes the coroutine that awaits `h`,
  -- whenever the body as a function, in which `co_await` of a task is a call, has an outcome for
  -- the events to come. Then `await_resume` of the awaiter of `h` has that outcome, as many
  -- events are left as the function leaves, the frames and awaiters of the other coroutines are
  -- as they were, and the frame of each task that was made on the way is destroyed.
  pub steps-call :
      (b : Body V X) (m : Machine V X) (h : ℕ) (vs es : List V) (o : Outcome V X)
      → h < m.next
      → (m.awaiter h).exception ≡ none
      → m.events ≡ vs
      → call b vs ≡ some (o, es)
      → (m' : Machine V X) × ((n : ℕ) × (steps n (run h b, m)
            ≡ (resume (m.awaiter h).caller_coroutine, m')))
        × Done m m' h o es
  unfolding call
  steps-call (co_return v) m h vs es o l e ev r =
      subst (λ p. Runs m h (co_return v) p.0 p.1) (some-injective (returned v, vs) (o, es) r)
        (subst (λ q. Runs m h (co_return v) (returned v) q) ev (Runs-return m h v e))
  steps-call (throw x) m h vs es o l e ev r =
      subst (λ p. Runs m h (throw x) p.0 p.1) (some-injective (threw x, vs) (o, es) r)
        (subst (λ q. Runs m h (throw x) (threw x) q) ev (Runs-throw m h x))
  steps-call (operation k) m h [] es o l e ev r = absurd (none-ne-some (o, es) r)
  steps-call (operation k) m h (v ∷ vs) es o l e ev r =
      Runs-operation m h k v vs es o ev
        (steps-call (k v) (record (set_frame h (pending k) m) { events = vs }) h vs es o l e refl r)
  steps-call (co_await b k) m h vs es o l e ev r =
      let (o', es', rb, rk) = after-some (call b vs) (λ q qs. call (k q) qs) (o, es) r in
      Runs-await m h b k es es' o o' l
        (λ m1 c lc ec evc. steps-call b m1 c vs es' o' lc ec (evc ∙ ev) rb)
        (λ m3 l3 a3 ev3. steps-call (k o') m3 h es' es o l3 (ap (λ q. q.exception) a3 ∙ e) ev3 rk)
