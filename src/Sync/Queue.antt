-- ===== src/Sync/Queue.antt =====
-- co_async/generic/queue.hpp: `Queue<T>`, a ring queue with a condition variable. The calls that wait
-- are modelled by their rounds.
pub mod Fifo
use mcoro.Prelude.{
  ℕ, Bool, true, false, ◌&&◌, Option, none, some, List, [], ◌∷◌, if◌then◌else◌, Access, done,
  undefined, and_then,
}
use mcoro.RingQueue.{RingQueue, ring_queue, full, empty, push, pop}
use mcoro.Sync.Condition.{notified}

-- `ready` is the futex of `mReady`.
pub record Queue {ℓ} (A : Type ℓ) : Type ℓ where
  pub ring : RingQueue A
  pub ready : ℕ

module _ {ℓ} {A : Type ℓ} where
  -- The constructor; `value` is `T()`.
  unfoldable pub queue : A → ℕ → Queue A
  queue value size = record { ring = ring_queue value size; ready = 0 }

  abbrev is_some : Option A → Bool
  is_some none = false
  is_some (some x) = true

  unfoldable pub try_pop : Queue A → Access (Option A × Queue A)
  try_pop q = and_then (pop q.ring) λ (value, ring'). done (
    value,
    record {
      ring = ring';
      ready = if is_some value && full q.ring then notified q.ready else q.ready;
    },
  )

  unfoldable pub try_push : A → Queue A → Access (Bool × Queue A)
  try_push value q = and_then (push q.ring value) λ (ok, ring'). done (
    ok,
    record { ring = ring'; ready = if ok && empty q.ring then notified q.ready else q.ready },
  )

  -- A round of `push(value)`: false if it waits then.
  unfoldable pub push_round : A → Queue A → Access (Bool × Queue A)
  push_round value q = and_then (push q.ring value) λ (ok, ring').
      done (ok, record { ring = ring'; ready = if ok then notified q.ready else q.ready })

  -- A round of `pop()`: none if it waits then.
  unfoldable pub pop_round : Queue A → Access (Option A × Queue A)
  pop_round q = and_then (pop q.ring) λ (value, ring').
      done (
        value,
        record { ring = ring'; ready = if is_some value then notified q.ready else q.ready },
      )
