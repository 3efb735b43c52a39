-- ===== src/Timer.antt =====
-- co_async/generic/generic_io.hpp and co_async/generic/generic_io.cpp: the timers of `GenericIOContext`, and
-- how a coroutine sleeps on one (co_async/generic/timeout.hpp). A timer is the address of its
-- `TimerNode`, and a time is a number of ticks. `nodes` bounds the nodes that a loop of the tree visits.
pub mod Queue
pub mod Run
use mcoro.Prelude.{
  ℕ, zero, suc, ◌-◌, Bool, true, false, Option, none, some, ltb, leb, if◌then◌else◌, not, Access,
  done, undefined, and_then, Cmd, ◌>>=◌, ◌>>◌, return, update,
}
use mcoro.RbTree.{Nodes}
use mcoro.RbTree.Insert.{insert}
use mcoro.RbTree.Erase.{erase_from_parent}
use mcoro.RbTree.Visit.{get_front, empty}
use mcoro.Expected.{Expected, value, error, errc}

-- `mTimers`, the members `mExpires` and `mCancelled` of each node, and what is outside of the context.
pub record Timers (W : Type 0) : Type 0 where
  pub tree : Nodes
  pub expires : ℕ → ℕ
  pub cancelled : ℕ → Bool
  pub world : W

-- The order of timers.
abbrev pub before : (ℕ → ℕ) → ℕ → ℕ → Bool
before expires a b = ltb (expires a) (expires b)

module _ {W : Type 0} where
  -- An operation of the tree.
  unfoldable pub on_tree : {A : Type 0} → Cmd Nodes A → Cmd (Timers W) A
  on_tree c s = and_then (c s.tree) λ r. done (r.0, record s { tree = r.1 })

  unfoldable pub set_expires : ℕ → ℕ → Cmd (Timers W) (Unit {0})
  set_expires node time s = done (tt, record s { expires = update s.expires node time })

  unfoldable pub set_cancelled : ℕ → Bool → Cmd (Timers W) (Unit {0})
  set_cancelled node b s = done (tt, record s { cancelled = update s.cancelled node b })

  unfoldable pub enqueue_timer_node : ℕ → ℕ → Cmd (Timers W) (Unit {0})
  enqueue_timer_node nodes node s = on_tree (insert (before s.expires) nodes node) s

  unfoldable pub await_suspend : ℕ → ℕ → ℕ → Cmd (Timers W) (Unit {0})
  await_suspend nodes node time = set_expires node time >> enqueue_timer_node nodes node

  -- What a sleep gives to the coroutine that is resumed.
  unfoldable pub await_resume : ℕ → Timers W → Expected (Unit {0})
  await_resume node s = if not (s.cancelled node) then value tt else error (errc 125)

  unfoldable pub do_cancel : ℕ → ℕ → Cmd (Timers W) (Unit {0})
  do_cancel nodes node = set_cancelled node true >> on_tree (erase_from_parent nodes node)

-- The coroutine that waits for a timer is a parameter.
module _ {W : Type 0} (resume : ℕ → Cmd (Timers W) (Unit {0})) where
  -- The canceller of a sleep.
  unfoldable pub cancel_sleep : ℕ → ℕ → Cmd (Timers W) (Unit {0})
  cancel_sleep nodes node = do_cancel nodes node >> resume node

  -- A timer that has expired.
  unfoldable pub wake : ℕ → ℕ → Cmd (Timers W) (Unit {0})
  wake nodes node = do set_cancelled node false; on_tree (erase_from_parent nodes node); resume node

-- So is `steady_clock::now`, which may change what is outside.
abbrev pub read_clock : {W : Type 0} → (W → ℕ × W) → Cmd (Timers W) ℕ
read_clock now s = done ((now s.world).0, record s { world = (now s.world).1 })

module _ {W : Type 0} (now : W → ℕ × W) (resume : ℕ → Cmd (Timers W) (Unit {0})) where
  -- How long it is until the next timer, in as many rounds as the fuel says.
  unfoldable pub run_duration : ℕ → ℕ → Cmd (Timers W) (Option ℕ)
  run_duration nodes zero = λ s. undefined
  run_duration nodes (suc fuel) =
      let again = run_duration nodes fuel in
      let round = do
        node ← on_tree (get_front nodes)
        time ← read_clock now
        expires ← (λ s. done (s.expires node, s))
        if leb expires time then wake resume nodes node >> again else return (some (expires - time))
      in on_tree empty >>= λ no_timer. if no_timer then return none else round
