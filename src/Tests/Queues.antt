-- ===== src/Tests/Queues.antt =====
-- The queues.
use mcoro.Prelude.{
  ℕ, ◌+◌, ◌-◌, ◌%◌, ◌<◌, ◌≤◌, ◌≡◌, refl, ◌≢◌, true, false, none, some, [], ◌∷◌, ◌++◌, arith,
  get_elem?, replicate, done,
}
use mcoro.RingQueue.{RingQueue, ring_queue}
use mcoro.RingQueue
use mcoro.RingQueue.Valid.{IsValid, contents, push-room, pop-cons}
use mcoro.RingQueue.Size.{put, run, accepted-le}
use mcoro.ConcurrentQueue.{
  Attempt, quiet, ConcurrentRingQueue, size, shift, modulus, bit_width, bit_width_loop, stamp_bits,
  can_read, can_write, advect_read, advect_write, found, compare_exchange, pop_loop,
}
use mcoro.ConcurrentQueue
use mcoro.ConcurrentQueue.Stamp.{Fits}
use mcoro.ConcurrentQueue.Sequential.{At, pop_loop-some, pop-push}
use mcoro.ConcurrentQueue.Unbounded.{lock, Unbounded}

-- Two slots, of which the first was pushed and popped.
abbrev popped : RingQueue ℕ
popped = record { slots = 5 ∷ 6 ∷ []; tail = 2; read = 1; write = 1 }

popped-IsValid : IsValid popped
popped-IsValid = record { allocated = refl; read_le = omega arith; write_le = omega arith }

abbrev at_end : RingQueue ℕ
at_end = record { slots = 5 ∷ 6 ∷ []; tail = 2; read = 1; write = 2 }

at_end-IsValid : IsValid at_end
at_end-IsValid = record { allocated = refl; read_le = omega arith; write_le = omega arith }

push-room_example :
    (q' : RingQueue ℕ) × (RingQueue.push popped 7 ≡ done (true, q'))
    × IsValid q'
    × (contents q' ≡ contents popped ++ 7 ∷ [])
    × (q'.write ≡ popped.write + 1)
    × (q'.read ≡ popped.read)
    × (q'.tail ≡ popped.tail)
push-room_example = push-room popped-IsValid 7 (omega arith)

pop-cons_example :
    (q' : RingQueue ℕ) × (RingQueue.pop at_end ≡ done (some 6, q'))
    × IsValid q'
    × (contents q' ≡ [])
pop-cons_example = pop-cons at_end-IsValid refl

abbrev one_slot : RingQueue ℕ
one_slot = record { slots = 4 ∷ []; tail = 1; read = 0; write = 1 }

two_puts : run (put 4 ∷ put 5 ∷ []) 0 (ring_queue 0 1) ≡ done (1, one_slot)
unfolding run ring_queue RingQueue.push
two_puts = refl

accepted-le_example : one_slot.write ≤ one_slot.tail
accepted-le_example = accepted-le 0 1 (put 4 ∷ put 5 ∷ []) 1 one_slot two_puts

-- Capacity 7: eight slots, three bits for each index, and stamps of a byte.
size_seven : size 7 ≡ 8
unfolding size shift bit_width bit_width_loop
size_seven = refl

Fits-seven : Fits 7
unfolding shift bit_width bit_width_loop stamp_bits
Fits-seven = omega arith

-- Both indices are 2.
abbrev idle : ConcurrentRingQueue ℕ
idle = record { head = replicate 8 9; stamp = 18 }

idle-At : At 7 idle 2 2
unfolding size shift bit_width bit_width_loop
idle-At = record { read_lt = omega arith; write_lt = omega arith; stamped = refl; allocated = refl }

-- The read index is 2 and the write index is 3.
abbrev holding : ConcurrentRingQueue ℕ
holding = record { head = replicate 8 9; stamp = 19 }

holding-At : At 7 holding 2 3
unfolding size shift bit_width bit_width_loop
holding-At = record {
  read_lt = omega arith;
  write_lt = omega arith;
  stamped = refl;
  allocated = refl;
}

two_lt : 2 < size 7
two_lt = holding-At.read_lt

three_lt : 3 < size 7
three_lt = holding-At.write_lt

-- Another thread pops first; the second exchange succeeds.
abbrev taken_first : Attempt
taken_first = record { others = some 28; spurious = false }

pop_loop_runs : pop_loop 7 (taken_first ∷ quiet ∷ []) 20 20 ≡ some (some 28, advect_read 7 28)
unfolding pop_loop compare_exchange can_read ConcurrentQueue.offset_read
    ConcurrentQueue.offset_write advect_read size modulus shift bit_width bit_width_loop stamp_bits
pop_loop_runs = refl

readable_20 : can_read 7 20 ≡ true
unfolding can_read ConcurrentQueue.offset_read ConcurrentQueue.offset_write size shift bit_width
    bit_width_loop
readable_20 = refl

pop_loop-some_example : (can_read 7 28 ≡ true) × (advect_read 7 28 ≡ advect_read 7 28)
pop_loop-some_example =
    pop_loop-some 7 (taken_first ∷ quiet ∷ []) 20 20 28 (advect_read 7 28) readable_20 pop_loop_runs

room_in_idle : (2 + size 7 - 2) % size 7 ≢ 7
room_in_idle = rw size_seven (omega arith)

pop-push_example :
    (q₁ q₂ : ConcurrentRingQueue ℕ) × (ConcurrentQueue.push 7 (quiet ∷ quiet ∷ []) 5 idle
      ≡ some (true, q₁))
    × (ConcurrentQueue.pop 7 (quiet ∷ []) q₁ ≡ some (get_elem? idle.head 2, q₂))
pop-push_example = pop-push 7 idle 2 5 idle-At Fits-seven (omega arith)

lock_free : lock (true ∷ false ∷ []) ≢ none
unfolding lock
lock_free = λ e. cc e

abbrev free : Unbounded ℕ
free = record { queue = 1 ∷ []; mutex = false }
