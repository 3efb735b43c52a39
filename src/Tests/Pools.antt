-- ===== src/Tests/Pools.antt =====
-- A thread pool.
use mcoro.Prelude.{ℕ, ◌≡◌, refl, List, [], ◌∷◌, ◌++◌, arith}
use mcoro.ThreadPool.{
  Pool, pool, holding, Reach, begin, later, look, create, work_on, looks, creates, gives,
}
use mcoro.ThreadPool.Idle.{Idle, Unlisted}
use mcoro.ThreadPool.Assigned.{holding-Idle, given-listed}

-- The thread 1 submits the job 5, for which a thread is made.
abbrev before_work : Pool ℕ
before_work = create 1 5 (look 1 5 pool)

before_work-Reach : Reach before_work
unfolding look create
before_work-Reach = later (later begin (looks 1 5 refl)) (creates 1 5 refl)

holding-Idle_example :
    Idle before_work.threads before_work.worker before_work.task 0
    × Unlisted 0 before_work.free
    × ((l : ℕ) (i : ℕ) → before_work.submitter l ≡ holding 0 i → 1 ≡ l)
unfolding look create
holding-Idle_example = holding-Idle before_work 1 0 5 before_work-Reach refl

abbrev at_work : Pool ℕ
at_work = work_on 1 0 5 before_work

at_work-Reach : Reach at_work
unfolding look create
at_work-Reach = later before_work-Reach (gives 1 0 5 refl)

given-listed_example :
    (p' : Pool ℕ) × Reach p'
    × Idle p'.threads p'.worker p'.task 0
    × ((us : List ℕ) × (p'.working ≡ us ++ 0 ∷ []))
    × ((us : List ℕ) × (p'.free ≡ us ++ 0 ∷ []))
unfolding look create work_on
given-listed_example = given-listed at_work 1 0 5 at_work-Reach refl (omega arith) refl refl
