-- ===== src/IoContext/Events.antt =====
-- What `waitEventsFor` does with completions.
use mcoro.Prelude.{
  ℕ, ◌+◌, ◌^◌, ◌≤◌, ◌<◌, ◌≡◌, ◌≢◌, refl, true, List, [], ◌∷◌, arith, ap, ◌∙◌, length, inr, done,
  update, update-same, update-other, Cmd,
}
use mcoro.Timer.{Timers}
use mcoro.IoContext.{
  Completion, timed, completed, Waited, ready, Uring, subtract, gather, resume_all, deliver,
  events_of, wait_events_for,
}

-- The results of the operations when completions are stored.
abbrev answered : {R : Type 0} → List (Completion R) → (ℕ → R) → ℕ → R
answered [] f = f
answered (timed ∷ cs) f = answered cs f
answered (completed op r ∷ cs) f = answered cs (update f op r)

abbrev tasks_of : {R : Type 0} → (ℕ → ℕ) → List (Completion R) → List ℕ
tasks_of previous [] = []
tasks_of previous (timed ∷ cs) = tasks_of previous cs
tasks_of previous (completed op r ∷ cs) = previous op ∷ tasks_of previous cs

gather-answered :
    {R E : Type 0} (cs : List (Completion R)) (u : Uring R E)
    → gather cs u ≡ (tasks_of u.previous cs, record u { res = answered cs u.res })
unfolding gather
gather-answered [] u = refl
gather-answered (timed ∷ cs) u = gather-answered cs u
gather-answered (completed op r ∷ cs) u =
    ap (λ p. (u.previous op ∷ p.0, p.1)) (gather-answered cs (record u { res = update u.res op r }))

abbrev Fresh : {R : Type 0} → ℕ → List (Completion R) → Type 0
Fresh op [] = Unit {0}
Fresh op (timed ∷ cs) = Fresh op cs
Fresh op (completed op' r ∷ cs) = (op' ≢ op) × Fresh op cs

-- No operation completes twice.
abbrev pub Distinct : {R : Type 0} → List (Completion R) → Type 0
Distinct [] = Unit {0}
Distinct (timed ∷ cs) = Distinct cs
Distinct (completed op r ∷ cs) = Fresh op cs × Distinct cs

-- The coroutine of each operation that completed waits for this operation.
abbrev pub Waits : {R : Type 0} → (ℕ → ℕ) → (ℕ → ℕ) → List (Completion R) → Type 0
Waits awaits previous [] = Unit {0}
Waits awaits previous (timed ∷ cs) = Waits awaits previous cs
Waits awaits previous (completed op r ∷ cs) = (awaits (previous op) ≡ op) × Waits awaits previous cs

abbrev Right : {R : Type 0} → (ℕ → R) → List (Completion R) → Type 0
Right f [] = Unit {0}
Right f (timed ∷ cs) = Right f cs
Right f (completed op r ∷ cs) = (f op ≡ r) × Right f cs

answered-Fresh :
    {R : Type 0} (cs : List (Completion R)) (f : ℕ → R) (op : ℕ)
    → Fresh op cs
    → answered cs f op ≡ f op
answered-Fresh [] f op h = refl
answered-Fresh (timed ∷ cs) f op h = answered-Fresh cs f op h
answered-Fresh (completed op' r ∷ cs) f op (ne, h) =
    answered-Fresh cs (update f op' r) op h ∙ update-other f op' op r ne

answered-Right :
    {R : Type 0} (cs : List (Completion R)) (f : ℕ → R) → Distinct cs → Right (answered cs f) cs
answered-Right [] f h = tt
answered-Right (timed ∷ cs) f h = answered-Right cs f h
answered-Right (completed op r ∷ cs) f (fresh, h) = (
  answered-Fresh cs (update f op r) op fresh ∙ update-same f op r,
  answered-Right cs (update f op r) h,
)

-- What the coroutines do outside, each with the result of its operation, in the order of completion.
abbrev pub wake_all : {R E : Type 0} → (ℕ → R → E → E) → (ℕ → ℕ) → List (Completion R) → E → E
wake_all woken previous [] e = e
wake_all woken previous (timed ∷ cs) e = wake_all woken previous cs e
wake_all woken previous (completed op r ∷ cs) e =
    wake_all woken previous cs (woken (previous op) r e)

-- A coroutine that is resumed reads the result of the operation for which it waits, and changes only
-- what is outside of the context.
abbrev pub Quiet :
    {R E : Type 0} → (ℕ → ℕ) → (ℕ → Cmd (Timers (Uring R E)) (Unit {0})) → (ℕ → R → E → E) → Type 0
Quiet {R} {E} awaits resume woken =
    (h : ℕ) (s : Timers (Uring R E))
    → resume h s
      ≡ done (
        tt,
        record s {
          world = record (s.world) { outside = woken h (s.world.res (awaits h)) s.world.outside };
        },
      )

module _ {R E : Type 0} (submit_and_wait : ℕ → E → Waited R × E)
    (resume : ℕ → Cmd (Timers (Uring R E)) (Unit {0})) (awaits : ℕ → ℕ) (woken : ℕ → R → E → E)
    (quiet : Quiet awaits resume woken) where
  resume_all-wake_all :
      (cs : List (Completion R)) (s : Timers (Uring R E))
      → Right s.world.res cs
      → Waits awaits s.world.previous cs
      → resume_all submit_and_wait resume (tasks_of s.world.previous cs) s
        ≡ done (
          tt,
          record s {
            world = record (s.world) {
              outside = wake_all woken s.world.previous cs s.world.outside;
            };
          },
        )
  unfolding resume_all
  resume_all-wake_all [] s r w = refl
  resume_all-wake_all (timed ∷ cs) s r w = resume_all-wake_all cs s r w
  resume_all-wake_all (completed op x ∷ cs) s (e, r) (f, w) =
      let h = s.world.previous op in
      rw (quiet h s, f, e)
        (resume_all-wake_all cs
          (record s { world = record (s.world) { outside = woken h x s.world.outside } }) r w)

  -- `waitEventsFor`, when the kernel has completions, at most as many as operations are pending,
  -- no two of one operation, and each operation is awaited by one coroutine, which reads its
  -- result and changes only what is outside of the context: it returns true, each of these
  -- coroutines has run once, in the order of the completions, with the result of its own
  -- operation, and as many operations fewer are pending. The timers are as they were.
  pub wait_events_for-wake_all :
      (timeout : ℕ) (s : Timers (Uring R E)) (cs : List (Completion R)) (e : E)
      → submit_and_wait timeout s.world.outside ≡ (ready cs, e)
      → Distinct cs
      → Waits awaits s.world.previous cs
      → length cs ≤ s.world.pending
      → s.world.pending < 2 ^ 64
      → (s' : Timers (Uring R E)) × (wait_events_for submit_and_wait resume timeout s
          ≡ done (inr true, s'))
        × (s'.world.outside ≡ wake_all woken s.world.previous cs e)
        × (s'.world.pending + length cs ≡ s.world.pending)
        × (s'.tree ≡ s.tree)
  unfolding wait_events_for events_of deliver
  wait_events_for-wake_all timeout s cs e run distinct waits l small =
      let u = record (s.world) {
        res = answered cs s.world.res;
        pending = subtract s.world.pending (length cs);
        outside = e;
      } in
      let s1 = record s { world = u } in
      let s' = record s1 { world = record u { outside = wake_all woken s.world.previous cs e } } in
      (
        s',
        rw
            (
              run,
              gather-answered cs (record (s.world) { outside = e }),
              resume_all-wake_all cs s1 (answered-Right cs s.world.res distinct) waits,
            )
            refl,
        refl,
        omega (arith, l, small),
        refl,
      )
