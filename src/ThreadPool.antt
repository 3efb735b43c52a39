-- ===== src/ThreadPool.antt =====
-- co_async/generic/thread_pool.cpp: `ThreadPool::submitJob` and `ThreadPool::Thread`, as the steps of a pool and of
-- the threads that submit jobs to it. A step holds at most one of the mutexes. A thread of the pool and
-- a thread that submits are numbers, and `J` is the type of jobs.
pub mod Idle
pub mod Assigned
use mcoro.Prelude.{
  ℕ, suc, ◌<◌, ◌≡◌, Bool, Option, none, some, List, [], ◌∷◌, ◌++◌, ◌==◌, if◌then◌else◌, update,
}

-- Where a thread of the pool is: in `mCV.wait`, in a job, behind it with `mTask` reset, or taken from the
-- list of the working threads.
pub data Worker (J : Type 0) : Type 0 where
  waiting : Worker J
  running : J → Worker J
  cleared : Worker J
  removed : Worker J

-- Where a thread is in `submitJob`: outside of it, about to make a thread, in front of `workOn`, or behind
-- it.
pub data Submitter (J : Type 0) : Type 0 where
  away : Submitter J
  creating : J → Submitter J
  holding : ℕ → J → Submitter J
  given : ℕ → Submitter J

-- `mFreeThreads`, `mWorkingThreads`, the size of `mThreads`, and `mTask` of each thread.
pub record Pool (J : Type 0) : Type 0 where
  pub free : List ℕ
  pub working : List ℕ
  pub threads : ℕ
  pub task : ℕ → Option J
  pub worker : ℕ → Worker J
  pub submitter : ℕ → Submitter J

-- `std::list::remove`
abbrev pub remove : ℕ → List ℕ → List ℕ
remove t [] = []
remove t (u ∷ us) = if u == t then remove t us else u ∷ remove t us

module _ {J : Type 0} where
  abbrev pub pool : Pool J
  pool = record {
    free = [];
    working = [];
    threads = 0;
    task = λ t. none;
    worker = λ t. waiting;
    submitter = λ k. away;
  }

  -- The first thread that is free, if there is one.
  abbrev pub look_in : List ℕ → ℕ → J → Pool J → Pool J
  look_in [] k j p = record p { submitter = update p.submitter k (creating j) }
  look_in (t ∷ ts) k j p = record p { free = ts; submitter = update p.submitter k (holding t j) }

  unfoldable pub look : ℕ → J → Pool J → Pool J
  look k j p = look_in p.free k j p

  unfoldable pub create : ℕ → J → Pool J → Pool J
  create k j p = record p {
    threads = suc p.threads;
    submitter = update p.submitter k (holding p.threads j);
  }

  unfoldable pub work_on : ℕ → ℕ → J → Pool J → Pool J
  work_on k t j p = record p {
    task = update p.task t (some j);
    submitter = update p.submitter k (given t);
  }

  unfoldable pub add_working : ℕ → ℕ → Pool J → Pool J
  add_working k t p = record p {
    working = p.working ++ t ∷ [];
    submitter = update p.submitter k away;
  }

  -- The steps of `startMain`.
  unfoldable pub start : ℕ → J → Pool J → Pool J
  start t j p = record p { task = update p.task t none; worker = update p.worker t (running j) }

  unfoldable pub finish : ℕ → Pool J → Pool J
  finish t p = record p { task = update p.task t none; worker = update p.worker t cleared }

  unfoldable pub remove_working : ℕ → Pool J → Pool J
  remove_working t p = record p { working = remove t p.working; worker = update p.worker t removed }

  unfoldable pub add_free : ℕ → Pool J → Pool J
  add_free t p = record p { free = p.free ++ t ∷ []; worker = update p.worker t waiting }

  pub data Step (p : Pool J) : Pool J → Type 0 where
    looks : (k : ℕ) (j : J) → p.submitter k ≡ away → Step p (look k j p)
    creates : (k : ℕ) (j : J) → p.submitter k ≡ creating j → Step p (create k j p)
    gives : (k t : ℕ) (j : J) → p.submitter k ≡ holding t j → Step p (work_on k t j p)
    lists : (k t : ℕ) → p.submitter k ≡ given t → Step p (add_working k t p)
    starts :
        (t : ℕ) (j : J)
        → t < p.threads
        → p.worker t ≡ waiting
        → p.task t ≡ some j
        → Step p (start t j p)
    finishes : (t : ℕ) (j : J) → p.worker t ≡ running j → Step p (finish t p)
    removes : (t : ℕ) → p.worker t ≡ cleared → Step p (remove_working t p)
    frees : (t : ℕ) → p.worker t ≡ removed → Step p (add_free t p)

  pub data Reach : Pool J → Type 0 where
    begin : Reach pool
    later : {p q : Pool J} → Reach p → Step p q → Reach q
