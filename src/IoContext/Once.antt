-- ===== src/IoContext/Once.antt =====
-- What `runOnce` does.
use mcoro.Prelude.{
  ℕ, ◌≤◌, ◌<◌, ◌≡◌, ◌≢◌, ◌⊎◌, inl, inr, refl, Bool, false, Option, none, some, List, arith, sym,
  length, Bool-cases, ltb, done, Access, ◌==◌, not, ◌&&◌, if◌then◌else◌, subst, Cmd, ◌>>=◌, return,
}
use mcoro.Expected.{Expected, ErrorCode}
use mcoro.Timer.{Timers}
use mcoro.Timer.Queue.{IsQueue}
use mcoro.Timer.Run.{serve, Quiet, run_duration-serve}
use mcoro.IoContext.{
  Waited, Uring, clip, has_pending_events, wait_events_for, once_more, run_once, is_none,
}
use mathlib.Core.Option.{none-ne-some}

-- A wait ends by the time of the next timer.
abbrev pub NotAfter : Option ℕ → ℕ → Type 0
NotAfter none timeout = Unit {0}
NotAfter (some d) timeout = timeout ≤ d

clip-le : (m : ℕ) (d : Option ℕ) → (clip m d ≤ m) × NotAfter d (clip m d)
clip-le m none = (omega arith, tt)
clip-le m (some d) = elim (Bool-cases (ltb m d)) [
  | inl e ↦ rw e (omega arith, ground (arith, e))
  | inr e ↦ rw e (ground (arith, e), omega arith)
]

module _ {R E : Type 0} (submit_and_wait : ℕ → E → Waited R × E)
    (resume : ℕ → Cmd (Timers (Uring R E)) (Unit {0})) (max_sleep : ℕ)
    (s : Timers (Uring R E)) where
  abbrev Result : Type 0
  Result = Access ((ErrorCode ⊎ Bool) × Timers (Uring R E))

  abbrev waited : ℕ → Result
  waited timeout = (wait_events_for submit_and_wait resume timeout >>= λ r. return (once_more r)) s

  -- `runOnce` behind `runDuration`.
  abbrev rest : Option ℕ → Result
  rest wait =
      (if is_none wait && not (has_pending_events s.world)
          then return (inr false)
          else wait_events_for submit_and_wait resume (clip max_sleep wait) >>= λ r.
              return (once_more r))
        s

  abbrev pub Ending : Option ℕ → Result → Type 0
  Ending wait once =
      ((wait ≡ none) × (s.world.pending ≡ 0) × (once ≡ done (inr false, s)))
      ⊎ (((wait ≢ none) ⊎ (0 < s.world.pending))
          × ((timeout : ℕ) × (timeout ≤ max_sleep)
              × NotAfter wait timeout
              × (once ≡ waited timeout)))

  rest-Ending : (wait : Option ℕ) → Ending wait (rest wait)
  rest-Ending none = elim (Bool-cases (s.world.pending == 0)) [
    | inl e ↦ inl (refl, ground (arith, e), rw e refl)
    | inr e ↦ inr (inr (ground (arith, e)), (max_sleep, (clip-le max_sleep none).0, tt, rw e refl))
  ]
  rest-Ending (some d) = inr (
    inl (λ z. none-ne-some d (sym z)),
    (clip max_sleep (some d), (clip-le max_sleep (some d)).0, (clip-le max_sleep (some d)).1, refl),
  )

module _ {R E : Type 0} (submit_and_wait : ℕ → E → Waited R × E)
    (resume resume_timer : ℕ → Cmd (Timers (Uring R E)) (Unit {0}))
    (now : Uring R E → ℕ × Uring R E) (woken : ℕ → Expected (Unit {0}) → Uring R E → Uring R E)
    (quiet : Quiet resume_timer woken) (max_sleep nodes fuel : ℕ) where
  -- `runOnce` of a context whose tree holds the timers `ns`, with fuel for more nodes and more
  -- rounds than there are timers, where a coroutine that sleeps changes only what is outside of
  -- the timers: the timers that have expired are served as by `serve`, and the tree holds those
  -- that are left. Then either no timer is left and no operation is pending, and `runOnce`
  -- returns false without a wait; or a timer is left or an operation is pending, and `runOnce`
  -- goes on as `waitEventsFor` with a time that is neither longer than `mMaxSleep` nor longer
  -- than until the next timer, and returns true if that returns.
  pub run_once-serve :
      (ns : List ℕ) (s : Timers (Uring R E))
      → IsQueue s.tree s.expires ns
      → length ns < nodes
      → length ns < fuel
      → let served = serve now woken s.expires ns s.world in
        let once = run_once submit_and_wait resume now resume_timer max_sleep nodes fuel s in
        (s1 : Timers (Uring R E)) × IsQueue s1.tree s1.expires served.left
        × (s1.world ≡ served.world)
        × Ending submit_and_wait resume max_sleep s1 served.wait once
  unfolding run_once
  run_once-serve ns s q l lf =
      let served = serve now woken s.expires ns s.world in
      let (s1, run, queue, same, world) =
        run_duration-serve now resume_timer woken quiet nodes fuel ns s q l lf in
      (
        s1,
        queue,
        world,
        subst (Ending submit_and_wait resume max_sleep s1 served.wait) (sym (rw run refl))
            (rest-Ending submit_and_wait resume max_sleep s1 served.wait),
      )
