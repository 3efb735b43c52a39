-- ===== src/Sync/Semaphore/Shared.antt =====
-- What the loop of `acquire()` does when two coroutines have loaded the same count.
use mcoro.Prelude.{
  ℕ, ◌+◌, ◌-◌, ◌%◌, ◌^◌, ◌≤◌, ◌<◌, ◌≡◌, ◌≢◌, refl, false, arith, sym, ◌∙◌, ap, subst,
}
use mcoro.Prelude.{update, update-same, update-other}
use mcoro.Sync.Semaphore.{
  Position, outside, acquired, acquiring, acquire_test, acquire_exchange, Move, acquire,
  acquire_swap, System, pick, Reach, later,
}
use mcoro.Sync.Semaphore.Bounds.{counter-le}

module _ (max_count initial_count : ℕ) where
  -- A reachable system in which coroutine `i` has moved to a position, from `pc`.
  abbrev Moved : (ℕ → Position) → ℕ → ℕ → Position → Type 0
  Moved pc i counter p =
      (t : System max_count) × Reach max_count initial_count t
      × (t.counter ≡ counter)
      × (t.pc i ≡ p)
      × ((k : ℕ) → i ≢ k → t.pc k ≡ pc k)

  move_on :
      {s : System max_count} {p p' : Position} {counter : ℕ} (i : ℕ)
      → Reach max_count initial_count s
      → s.pc i ≡ p
      → Move max_count s.counter p counter p'
      → Moved s.pc i counter p'
  move_on {s} {p} {p'} {counter} i r e move = (
    record { counter = counter; pc = update s.pc i p' },
    later r (pick i e move),
    refl,
    update-same s.pc i p',
    λ k ne. update-other s.pc i k p' ne,
  )

  acquire_test-pos : (count : ℕ) → 0 < count → acquire_test max_count count ≡ acquiring count
  unfolding acquire_test
  acquire_test-pos count h = ground arith

  exchange_wins :
      (count : ℕ)
      → 0 < count
      → count < 2 ^ 32
      → acquire_exchange max_count false count count ≡ (count - 1, acquiring count)
  unfolding acquire_exchange
  exchange_wins count h small =
      let less : (count + 2 ^ 32 - 1) % 2 ^ 32 ≡ count - 1 = omega arith in
      ground (arith, acquire_test-pos count h)

  exchange_loses :
      (counter count : ℕ)
      → counter ≢ count
      → acquire_exchange max_count false counter count ≡ (counter, acquired)
  unfolding acquire_exchange
  exchange_loses counter count h = ground arith

  begin_acquire :
      (s : System max_count) (i : ℕ)
      → Reach max_count initial_count s
      → 0 < s.counter
      → s.pc i ≡ outside
      → Moved s.pc i s.counter (acquiring s.counter)
  begin_acquire s i r pos e =
      subst (Moved s.pc i s.counter) (acquire_test-pos s.counter pos) (move_on i r e acquire)

  win :
      (s : System max_count) (i count : ℕ)
      → Reach max_count initial_count s
      → s.counter ≡ count
      → 0 < count
      → count < 2 ^ 32
      → s.pc i ≡ acquiring count
      → Moved s.pc i (count - 1) (acquiring count)
  win s i count r c pos small e =
      subst (λ (out : ℕ × Position). Moved s.pc i out.0 out.1)
        (ap (λ (n : ℕ). acquire_exchange max_count false n count) c ∙ exchange_wins count pos small)
        (move_on i r e (acquire_swap false count))

  lose :
      (s : System max_count) (i count : ℕ)
      → Reach max_count initial_count s
      → s.counter ≢ count
      → s.pc i ≡ acquiring count
      → Moved s.pc i s.counter acquired
  lose s i count r ne e =
      subst (λ (out : ℕ × Position). Moved s.pc i out.0 out.1) (exchange_loses s.counter count ne)
        (move_on i r e (acquire_swap false count))

  -- Two coroutines take one unit of a `Semaphore`: from every system that is reached from an
  -- initial count of at most the maximum, a 32-bit number, with a positive counter and two
  -- coroutines outside, a system is reached in which both have returned from `acquire()` and the
  -- counter is one less.
  pub acquired-twice :
      (s : System max_count) (i j : ℕ)
      → initial_count ≤ max_count
      → max_count < 2 ^ 32
      → Reach max_count initial_count s
      → i ≢ j
      → s.pc i ≡ outside
      → s.pc j ≡ outside
      → 0 < s.counter
      → (t : System max_count) × Reach max_count initial_count t
        × (t.counter ≡ s.counter - 1)
        × (t.pc i ≡ acquired)
        × (t.pc j ≡ acquired)
  acquired-twice s i j le small r ne ei ej pos =
      let bound : s.counter ≤ max_count = counter-le max_count small le r in
      let (s₁, r₁, c₁, i₁, o₁) = begin_acquire s i r pos ei in
      let (s₂, r₂, c₂, j₂, o₂) = begin_acquire s₁ j r₁ (omega arith) (o₁ j ne ∙ ej) in
      let (s₃, r₃, c₃, i₃, o₃) =
        win s₂ i s.counter r₂ (omega (arith, c₂, c₁)) pos (omega arith)
          (o₂ i (λ e. ne (sym e)) ∙ i₁) in
      let (s₄, r₄, c₄, i₄, o₄) = lose s₃ i s.counter r₃ (omega arith) i₃ in
      let (s₅, r₅, c₅, j₅, o₅) =
        lose s₄ j s.counter r₄ (omega arith) (o₄ j ne ∙ o₃ j ne ∙ j₂ ∙ ap acquiring c₁) in
      (s₅, r₅, omega (arith, c₅, c₄, c₃), o₅ i (λ e. ne (sym e)) ∙ i₄, j₅)
