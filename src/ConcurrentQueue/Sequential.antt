-- ===== src/ConcurrentQueue/Sequential.antt =====
-- `push()` and `pop()` of one thread, and the exchange of `pop()` under interference.
use mcoro.Prelude.{
  ℕ, ◌+◌, ◌-◌, ◌%◌, ◌<◌, ◌≡◌, refl, ◌≢◌, true, false, arith, ◌⊎◌, inl, inr, Option, none, some,
  List, [], ◌∷◌, length, length-set, get_elem?, set, get_elem?-set_ne, ap, ◌∙◌, sym,
}
use native.Mathlib.Nat.{mod-lt, mod_self}
use mcoro.ConcurrentQueue.{
  Attempt, quiet, ConcurrentRingQueue, size, offset_read, offset_write, can_read, can_write,
  advect_read, advect_write, compare_exchange, found, pop_loop, push_loop, pop, push,
}
use mcoro.ConcurrentQueue.Stamp.{
  stamp, Fits, capacity-lt-size, size-pos, mod_once, offset_read-stamp, offset_write-stamp,
  can_read-stamp, can_write-stamp, advect_read-stamp, advect_write-stamp,
}

-- The exchange of `pop()` fails without a reason and the other threads do nothing.
abbrev pub spurious : Attempt
spurious = record { others = none; spurious = true }

module _ (capacity : ℕ) where
  -- The queue's indices, in range, and its slots.
  pub record At {ℓ} {A : Type ℓ} (q : ConcurrentRingQueue A) (r w : ℕ) : Type 0 where
    pub read_lt : r < size capacity
    pub write_lt : w < size capacity
    pub stamped : q.stamp ≡ stamp capacity r w
    pub allocated : length q.head ≡ size capacity

  exchange-cases :
      (a : Attempt) (now s desired : ℕ)
      → (compare_exchange capacity a now s desired ≡ (true, desired, s))
        ⊎ (compare_exchange capacity a now s desired
            ≡ (false, found capacity a now, found capacity a now))
  unfolding compare_exchange
  exchange-cases a now s desired = ground arith

  -- Whatever other threads do between the attempts: when the loop of `pop()` is entered with a
  -- stamp at which there is something to read, and is left with a stamp, then there was something
  -- to read at that stamp, and the exchange stepped its read index.
  pub pop_loop-some :
      (tries : List Attempt) (now s left now' : ℕ)
      → can_read capacity s ≡ true
      → pop_loop capacity tries now s ≡ some (some left, now')
      → (can_read capacity left ≡ true) × (now' ≡ advect_read capacity left)
  unfolding pop_loop
  pop_loop-some [] now s left now' h e = ground arith
  pop_loop-some (a ∷ rest) now s left now' h e =
      elim (exchange-cases a now s (advect_read capacity s)) [
        | inl won ↦ ground (arith, won)
        | inr lost ↦
            let other = found capacity a now in
            ground (arith, lost, pop_loop-some rest other other left now')
      ]

  -- An exchange that nobody disturbs.
  exchange-quiet :
      (now desired : ℕ) → compare_exchange capacity quiet now now desired ≡ (true, desired, now)
  unfolding compare_exchange
  exchange-quiet now desired = ground arith

  exchange_fails :
      (a : Attempt) (now s desired : ℕ)
      → found capacity a now ≡ now
      → (now ≢ s) ⊎ (a.spurious ≡ true)
      → compare_exchange capacity a now s desired ≡ (false, now, now)
  unfolding compare_exchange
  exchange_fails a now s desired e h = ground arith

  module _ {ℓ} {A : Type ℓ} {q : ConcurrentRingQueue A} {r w : ℕ} (at : At q r w)
      (fits : Fits capacity) where
    readable : r ≢ w → can_read capacity q.stamp ≡ true
    readable ne = rw at.stamped ((can_read-stamp capacity r w at.read_lt at.write_lt).1 ne)

    writable :
        0 < capacity
        → (w + size capacity - r) % size capacity ≢ capacity
        → can_write capacity q.stamp ≡ true
    writable pos ne =
        rw at.stamped ((can_write-stamp capacity r w at.read_lt at.write_lt fits pos).1 ne)

    read_index : offset_read capacity q.stamp ≡ r
    read_index = rw at.stamped (offset_read-stamp capacity r w at.read_lt at.write_lt)

    read_next : advect_read capacity q.stamp ≡ stamp capacity ((r + 1) % size capacity) w
    read_next = rw at.stamped (advect_read-stamp capacity r w at.read_lt at.write_lt fits)

    write_index : offset_write capacity q.stamp ≡ w
    write_index = rw at.stamped (offset_write-stamp capacity r w at.read_lt at.write_lt)

    write_next : advect_write capacity q.stamp ≡ stamp capacity r ((w + 1) % size capacity)
    write_next = rw at.stamped (advect_write-stamp capacity r w at.read_lt at.write_lt fits)

    unreadable : r ≡ w → can_read capacity q.stamp ≡ false
    unfolding can_read
    unreadable e = ground (arith, read_index, write_index)

    -- A `pop()` with equal indices finds the queue empty.
    pop-equal : r ≡ w → (tries : List Attempt) → pop capacity tries q ≡ some (none, q)
    unfolding pop
    pop-equal e tries = rw (unreadable e)

    -- A `pop()` that nobody disturbs, of a queue with the read index `r` and a different write
    -- index `w` and a capacity for which the second `static_assert` holds, takes the value in
    -- the slot of `r` and steps the read index round the ring.
    pub pop-quiet :
        (rest : List Attempt)
        → r ≢ w
        → pop capacity (quiet ∷ rest) q
          ≡ some
              (get_elem? q.head r, record q { stamp = stamp capacity ((r + 1) % size capacity) w })
    unfolding pop pop_loop
    pop-quiet rest ne =
        rw (readable ne, exchange-quiet q.stamp (advect_read capacity q.stamp))
          (cc (read_index, read_next))

    next-ne : 0 < capacity → (w + 1) % size capacity ≢ w
    next-ne pos =
        let lt = capacity-lt-size capacity in
        elim (mod_once (w + 1) (size capacity) (omega (arith, at.write_lt))) [
          | inl (p, e) ↦ omega (arith, e)
          | inr (p, e) ↦ omega (arith, e, at.write_lt)
        ]

    stamp-ne : 0 < capacity → stamp capacity r ((w + 1) % size capacity) ≢ q.stamp
    stamp-ne pos = omega (arith, next-ne pos, at.stamped)

    -- A `push()` that nobody disturbs, into a queue of positive capacity with room, goes
    -- through its loop twice: the first exchange steps the write index, the second fails. It
    -- succeeds, and the value goes to the slot of the new write index.
    pub push-quiet :
        (value : A) (rest : List Attempt)
        → 0 < capacity
        → (w + size capacity - r) % size capacity ≢ capacity
        → let w' = (w + 1) % size capacity in
          push capacity (quiet ∷ quiet ∷ rest) value q
          ≡ some (true, record { head = set q.head w' value; stamp = stamp capacity r w' })
    unfolding push push_loop
    push-quiet value rest pos room =
        let next = (w + 1) % size capacity in
        let two =
          exchange_fails quiet (advect_write capacity q.stamp) q.stamp
            (advect_write capacity q.stamp) refl (inl (rw write_next (stamp-ne pos))) in
        let at_next =
          offset_write-stamp capacity r next at.read_lt (mod-lt (w + 1) (size-pos capacity)) in
        rw (
          writable pos room,
          exchange-quiet q.stamp (advect_write capacity q.stamp),
          writable pos room,
          two,
          write_next,
          at_next,
        )

    -- A first exchange that fails without a reason ends the loop of `push()` into a queue of
    -- positive capacity with room: it reports success, and the value stands in the slot of the
    -- write index, but that index is not stepped.
    pub push-spurious :
        (value : A) (rest : List Attempt)
        → 0 < capacity
        → (w + size capacity - r) % size capacity ≢ capacity
        → push capacity (spurious ∷ rest) value q
          ≡ some (true, record q { head = set q.head w value })
    unfolding push push_loop
    push-spurious value rest pos room = rw (
      writable pos room,
      exchange_fails spurious q.stamp q.stamp (advect_write capacity q.stamp) refl (inr refl),
      write_index,
    )

  -- The empty queue at index `w` after an undisturbed push.
  abbrev pushed {ℓ} : {A : Type ℓ} → ConcurrentRingQueue A → ℕ → A → ConcurrentRingQueue A
  pushed q w value = record {
    head = set q.head ((w + 1) % size capacity) value;
    stamp = stamp capacity w ((w + 1) % size capacity);
  }

  -- One thread pushes a value into an empty queue of positive capacity and pops, and nothing
  -- disturbs it: both calls succeed, and the pop returns what lay in the slot of the old write
  -- index before, for every value pushed.
  pub pop-push {ℓ} :
      {A : Type ℓ} (q : ConcurrentRingQueue A) (w : ℕ) (value : A)
      → At q w w
      → Fits capacity
      → 0 < capacity
      → (q₁ q₂ : ConcurrentRingQueue A) × (push capacity (quiet ∷ quiet ∷ []) value q
          ≡ some (true, q₁))
        × (pop capacity (quiet ∷ []) q₁ ≡ some (get_elem? q.head w, q₂))
  pop-push {A = A} q w value at fits pos =
      let next = (w + 1) % size capacity in
      let back : w + size capacity - w ≡ size capacity = omega arith in
      let apart : (w + size capacity - w) % size capacity ≢ capacity =
        rw back (omega (arith, mod_self (size capacity))) in
      let after : At {A = A} (pushed q w value) w next = record {
        read_lt = at.write_lt;
        write_lt = mod-lt (w + 1) (size-pos capacity);
        stamped = refl;
        allocated = length-set q.head next value ∙ at.allocated;
      } in
      let ne : w ≢ next = λ e. next-ne at fits pos (sym e) in
      (
        pushed q w value,
        record (pushed q w value) { stamp = stamp capacity ((w + 1) % size capacity) next },
        push-quiet at fits value [] pos apart,
        pop-quiet after fits [] ne
            ∙ ap
                (λ (x : Option A). some (
                  x,
                  record (pushed q w value) {
                    stamp = stamp capacity ((w + 1) % size capacity) next;
                  },
                ))
                (get_elem?-set_ne q.head next w value (λ e. ne (sym e))),
      )
