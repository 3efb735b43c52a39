-- ===== src/Tests/Contexts.antt =====
-- The event loop.
use mcoro.Prelude.{
  ℕ, ◌+◌, ◌-◌, ◌≤◌, ◌≡◌, inr, refl, false, true, List, [], ◌∷◌, none, arith, done, Cmd,
}
use mcoro.RbTree.Tree.{leaf, count, count_around, top}
use mcoro.Timer.{Timers}
use mcoro.Timer.Queue.{IsQueue}
use mcoro.Timer.Run
use mcoro.Timer.Run.{serve}
use mcoro.IoContext.{Completion, completed, Waited, ready, Uring, wait_events_for, run_once}
use mcoro.IoContext.Events
use mcoro.IoContext.Events.{wake_all, wait_events_for-wake_all}
use mcoro.IoContext.Once.{Ending, run_once-serve}

-- The operations 7 and 8 of the coroutines 1 and 2, which note their results, and no timer.
abbrev uring : Uring ℕ (List ℕ)
uring = record { pending = 3; res = λ op. 0; previous = λ op. op - 6; outside = [] }

abbrev idle : Timers (Uring ℕ (List ℕ))
idle = record {
  tree = record {
    child = λ d x. 0;
    parent = λ x. 0;
    red = λ x. false;
    in_tree = λ x. false;
    root = 0;
  };
  expires = λ n. 0;
  cancelled = λ n. false;
  world = uring;
}

abbrev answers : List (Completion ℕ)
answers = completed 8 50 ∷ completed 7 40 ∷ []

abbrev kernel : ℕ → List ℕ → Waited ℕ × List ℕ
kernel timeout w = (ready answers, w)

abbrev awaits : ℕ → ℕ
awaits h = h + 6

abbrev note : ℕ → ℕ → List ℕ → List ℕ
note h r w = h ∷ r ∷ w

abbrev resume : ℕ → Cmd (Timers (Uring ℕ (List ℕ))) (Unit {0})
resume h s = done (
  tt,
  record s {
    world = record (s.world) { outside = note h (s.world.res (awaits h)) s.world.outside };
  },
)

resume-Quiet : Events.Quiet awaits resume note
resume-Quiet h s = refl

wait_events_for-wake_all_example :
    (s' : Timers (Uring ℕ (List ℕ))) × (wait_events_for kernel resume 9 idle ≡ done (inr true, s'))
    × (s'.world.outside ≡ 1 ∷ 40 ∷ 2 ∷ 50 ∷ [])
    × (s'.world.pending + 2 ≡ 3)
    × (s'.tree ≡ idle.tree)
wait_events_for-wake_all_example =
    wait_events_for-wake_all kernel resume awaits note resume-Quiet 9 idle answers [] refl
      ((λ z. omega (arith, z), tt), (tt, tt)) (refl, (refl, tt)) (omega arith) (omega arith)

leaf-once : (y : ℕ) → count y leaf + count_around y top ≤ 1
unfolding count count_around
leaf-once y = omega arith

idle-IsQueue : IsQueue idle.tree idle.expires []
idle-IsQueue = record {
  held = leaf;
  at = record { holds = tt; around = refl; once = leaf-once };
  sound = (tt, refl);
  order = refl;
  linked = tt;
  ordered = tt;
}

abbrev resume_timer : ℕ → Cmd (Timers (Uring ℕ (List ℕ))) (Unit {0})
resume_timer n s = done (tt, s)

resume_timer-Quiet : Run.Quiet resume_timer (λ n r u. u)
resume_timer-Quiet n s = refl

abbrev now : Uring ℕ (List ℕ) → ℕ × Uring ℕ (List ℕ)
now u = (5, u)

run_once-serve_example :
    (s1 : Timers (Uring ℕ (List ℕ))) × IsQueue s1.tree s1.expires []
    × (s1.world ≡ uring)
    × Ending kernel resume 200 s1 none (run_once kernel resume now resume_timer 200 1 1 idle)
run_once-serve_example =
    run_once-serve kernel resume resume_timer now (λ n r u. u) resume_timer-Quiet 200 1 1 [] idle
      idle-IsQueue (omega arith) (omega arith)
