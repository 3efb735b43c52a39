-- ===== src/Tests/Tasks.antt =====
-- Coroutines that wait for each other.
use mcoro.Prelude.{ℕ, zero, suc, ◌+◌, ◌≡◌, ◌⊎◌, refl, none, some, List, [], ◌∷◌, arith}
use mcoro.Expected.{Expected, value, error, errc}
use mcoro.Task.{
  Outcome, returned, threw, Body, co_return, throw, co_await, operation, initial, Awaiter, Machine,
  resume, run, steps, awaiter_of,
}
use mcoro.Task.Call.{Done, call, steps-call}
use mcoro.WhenAll
use mcoro.WhenAll.{
  Helper, running, control, start_next, Step, starts, finishes, Reach, start, later, finish,
  results,
}
use mcoro.WhenAll.Once.{AllDone, resumed-AllDone, fail-resumed}

-- A task that throws 7 when its operation gives 0, and one that awaits it twice and catches what the
-- second throws.
abbrev checked_value : ℕ → Body ℕ ℕ
checked_value zero = throw 7
checked_value (suc n) = co_return n

abbrev after_second : ℕ → Outcome ℕ ℕ → Body ℕ ℕ
after_second n (returned k) = co_return (n + k)
after_second n (threw x) = co_return (n + x)

abbrev after_first : Outcome ℕ ℕ → Body ℕ ℕ
after_first (returned n) = co_await (operation checked_value) (after_second n)
after_first (threw x) = throw x

abbrev caller : Body ℕ ℕ
caller = co_await (operation checked_value) after_first

abbrev machine : Machine ℕ ℕ
machine = record {
  frame = λ i. initial caller;
  awaiter = λ i. awaiter_of 0;
  next = 2;
  events = 5 ∷ 0 ∷ 9 ∷ [];
}

steps-call_example :
    (m' : Machine ℕ ℕ) × ((n : ℕ) × (steps n (run 1 caller, machine) ≡ (resume 0, m')))
    × Done machine m' 1 (returned 11) (9 ∷ [])
unfolding call
steps-call_example =
    steps-call caller machine 1 (5 ∷ 0 ∷ 9 ∷ []) (9 ∷ []) (returned 11) (omega arith) refl refl refl

abbrev two_results : List (Expected (Unit {0}))
two_results = value tt ∷ error (errc 22) ∷ []

abbrev task_awaiter : Awaiter (Expected ℕ) ℕ
task_awaiter = awaiter_of 4

-- Two tasks are under way.
abbrev both : WhenAll.Control ℕ ℕ
both = start_next (start_next (control 2))

both_run : Reach 2 both
unfolding start_next
both_run = later (later start (starts (omega arith))) (starts (omega arith))

-- The second task ends before the first.
abbrev ended : WhenAll.Control ℕ ℕ
ended = finish 0 3 (finish 1 4 both)

ended-Reach : Reach 2 ended
unfolding start_next finish
ended-Reach =
    later (later both_run (finishes 1 4 (omega arith) refl)) (finishes 0 3 (omega arith) refl)

resumed-AllDone_example :
    ((ended.resumed ≡ 0) × (results 2 ended.helper ≡ none))
    ⊎ ((ended.resumed ≡ 1) × ((vs : List ℕ) × AllDone 2 ended.helper vs))
unfolding start_next finish
resumed-AllDone_example = resumed-AllDone 2 ended (omega arith) ended-Reach refl

fail-resumed_example :
    (t : WhenAll.Control ℕ ℕ) × Reach 2 t
    × (both.resumed ≡ 0)
    × (t.resumed ≡ 1)
    × (t.exception ≡ some 7)
    × (t.helper 1 ≡ running)
unfolding start_next
fail-resumed_example =
    fail-resumed 2 0 1 7 both (omega arith) both_run refl (omega arith) (omega arith)
      (λ z. omega (arith, z)) refl refl
