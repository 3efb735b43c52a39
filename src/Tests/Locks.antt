-- ===== src/Tests/Locks.antt =====
-- Mutexes and semaphores.
use mcoro.Prelude.{List, ℕ, ◌-◌, ◌≤◌, ◌≡◌, refl, true, false, arith}
use mcoro.Sync.Mutex.{after_exchange}
use mcoro.Sync.Mutex
use mcoro.Sync.Mutex.Exclusion.{pc-exclusive}
use mcoro.Sync.Semaphore.{acquire_test}
use mcoro.Sync.Semaphore
use mcoro.Sync.Semaphore.Bounds.{counter-le}
use mcoro.Sync.Semaphore.Shared.{acquired-twice}
use mcoro.Sync.Condition.{wait_test, notified}
use mcoro.Sync.Condition
use mcoro.Sync.Condition.Notified.{notified-returned}
use mcoro.RingQueue.Valid.{IsValid}
use mcoro.RingQueue.Size.{Op, put, get}
use mcoro.Sync.Queue.{Queue}
use mcoro.Sync.Queue.Fifo.{serve, serve_list, serve-serve_list}
use mcoro.Prelude.{◌<◌, [], ◌∷◌, done}
use mcoro.Prelude.{update}

-- Coroutine 4 takes the lock, and coroutine 5 finds it taken.
abbrev four_trying : Mutex.System
four_trying = record { flag = false; pc = update (λ i. Mutex.outside) 4 Mutex.trying }

abbrev four_holding : Mutex.System
four_holding = record { flag = true; pc = update four_trying.pc 4 Mutex.holding }

abbrev five_trying : Mutex.System
five_trying = record { flag = true; pc = update four_holding.pc 5 Mutex.trying }

abbrev five_waiting : Mutex.System
five_waiting = record { flag = true; pc = update five_trying.pc 5 Mutex.waiting }

five_waiting-Reach : Mutex.Reach five_waiting
unfolding after_exchange
five_waiting-Reach =
    let one = Mutex.later Mutex.start (Mutex.pick 4 refl Mutex.lock) in
    let two : Mutex.Reach four_holding = Mutex.later one (Mutex.pick 4 refl Mutex.exchange) in
    let three = Mutex.later two (Mutex.pick 5 refl Mutex.lock) in
    Mutex.later three (Mutex.pick 5 refl Mutex.exchange)

pc-exclusive_example : ◌≡◌ {A = ℕ} 4 4
pc-exclusive_example = pc-exclusive five_waiting-Reach 4 4 refl refl

-- Coroutine 7 has loaded the count 1 of a semaphore whose maximum is 3.
abbrev seven_acquiring : Semaphore.System 3
seven_acquiring = record {
  counter = 1;
  pc = update (λ i. Semaphore.outside) 7 (Semaphore.acquiring 1);
}

seven_acquiring-Reach : Semaphore.Reach 3 1 seven_acquiring
unfolding acquire_test
seven_acquiring-Reach = Semaphore.later Semaphore.start (Semaphore.pick 7 refl Semaphore.acquire)

counter-le_example : seven_acquiring.counter ≤ 3
counter-le_example = counter-le 3 (omega arith) (omega arith) seven_acquiring-Reach

acquired-twice_example :
    (t : Semaphore.System 3) × Semaphore.Reach 3 1 t
    × (t.counter ≡ seven_acquiring.counter - 1)
    × (t.pc 1 ≡ Semaphore.acquired)
    × (t.pc 2 ≡ Semaphore.acquired)
acquired-twice_example =
    acquired-twice 3 1 seven_acquiring 1 2 (omega arith) (omega arith) seven_acquiring-Reach
      (omega arith) refl refl (omega arith)

-- Coroutine 3 waits for the value 0, one notification comes, and it returns.
abbrev three_waits : Condition.System
three_waits = record { futex = 0; pc = update (λ i. Condition.outside) 3 (Condition.waiting 0) }

abbrev three_returned : Condition.System
three_returned = record { futex = 1; pc = update three_waits.pc 3 Condition.returned }

three_waits-Run : Condition.Run three_waits 1 three_returned
unfolding wait_test notified
three_waits-Run = Condition.pick 3 (Condition.notify Condition.stop) refl (Condition.woken 0)

notified-returned_example : ◌<◌ 0 1
notified-returned_example = notified-returned 3 three_waits-Run refl refl

-- Two slots.
abbrev two_slots : Queue ℕ
two_slots = record {
  ring = record { slots = 0 ∷ 0 ∷ []; tail = 2; read = 0; write = 0 };
  ready = 0;
}

two_slots-IsValid : IsValid two_slots.ring
two_slots-IsValid = record { allocated = refl; read_le = omega arith; write_le = omega arith }

abbrev calls : List (Op ℕ)
calls = put 5 ∷ get ∷ get ∷ put 6 ∷ []

serve-serve_list_example : serve calls two_slots ≡ done (serve_list calls [])
serve-serve_list_example = serve-serve_list calls two_slots [] two_slots-IsValid refl (omega arith)
