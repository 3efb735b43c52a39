-- ===== src/Tests/Timers.antt =====
-- Timers.
use mcoro.Prelude.{
  ℕ, ◌+◌, ◌≤◌, ◌≡◌, refl, false, true, List, [], ◌∷◌, some, arith, done, update, Cmd,
}
use mcoro.Expected.{Expected, value, error}
use mcoro.RbTree.{Side, left, right, null}
use mcoro.RbTree.Tree.{Tree, leaf, node, top, count, count_around}
use mcoro.Timer.{Timers, await_resume, await_suspend, run_duration}
use mcoro.Timer.Queue.{IsQueue, insert_timer, await_suspend-IsQueue}
use mcoro.Timer.Run.{run_duration-serve, Quiet}

-- The timer 1 expires at 10, and 2, its parent, at 20.
abbrev two : Tree
two = node false 2 (node true 1 leaf leaf) leaf

abbrev expires : ℕ → ℕ
expires = update (update (λ n. 0) 1 10) 2 20

abbrev child_of : Side → ℕ → ℕ
child_of left = update (λ x. null) 2 1
child_of right = λ x. null

-- What is outside is the clock and the timers whose sleep has ended.
abbrev two_timers : Timers (ℕ × List ℕ)
two_timers = record {
  tree = record {
    child = child_of;
    parent = update (λ x. null) 1 2;
    red = update (λ x. false) 1 true;
    in_tree = update (update (λ x. false) 1 true) 2 true;
    root = 2;
  };
  expires = expires;
  cancelled = λ n. false;
  world = (15, []);
}

two-once : (y : ℕ) → count y two + count_around y top ≤ 1
unfolding count count_around
two-once y = ground arith

two_timers-IsQueue : IsQueue two_timers.tree expires (1 ∷ 2 ∷ [])
two_timers-IsQueue = record {
  held = two;
  at = record {
    holds = (
      (omega arith, refl, refl),
      (refl, refl),
      (((omega arith, refl, refl), (refl, refl), (tt, tt)), tt),
    );
    around = refl;
    once = two-once;
  };
  sound = ((((tt, refl), (tt, refl)), tt), refl);
  order = refl;
  linked = (refl, (refl, tt));
  ordered = ((omega arith, tt), (tt, tt));
}

await_suspend-IsQueue_example :
    (s' : Timers (ℕ × List ℕ)) × (await_suspend 3 3 12 two_timers ≡ done (tt, s'))
    × IsQueue s'.tree s'.expires (insert_timer s'.expires 3 (1 ∷ 2 ∷ []))
    × (s'.expires ≡ update expires 3 12)
    × (s'.cancelled ≡ (λ n. false))
await_suspend-IsQueue_example =
    await_suspend-IsQueue two_timers (1 ∷ 2 ∷ []) 3 12 3 two_timers-IsQueue (omega arith) refl
      (omega arith)

abbrev note : ℕ → Expected (Unit {0}) → ℕ × List ℕ → ℕ × List ℕ
note n (value u) (time, ns) = (time, n ∷ ns)
note n (error e) (time, ns) = (time, ns)

abbrev resume : ℕ → Cmd (Timers (ℕ × List ℕ)) (Unit {0})
resume n s = done (tt, record s { world = note n (await_resume n s) s.world })

resume-Quiet : Quiet resume note
resume-Quiet n s = refl

abbrev now : ℕ × List ℕ → ℕ × (ℕ × List ℕ)
now (time, ns) = (time, (time + 1, ns))

run_duration-serve_example :
    (s' : Timers (ℕ × List ℕ)) × (run_duration now resume 3 3 two_timers ≡ done (some 4, s'))
    × IsQueue s'.tree s'.expires (2 ∷ [])
    × (s'.expires ≡ expires)
    × (s'.world ≡ (17, 1 ∷ []))
run_duration-serve_example =
    run_duration-serve now resume note resume-Quiet 3 3 (1 ∷ 2 ∷ []) two_timers two_timers-IsQueue
      (omega arith) (omega arith)
