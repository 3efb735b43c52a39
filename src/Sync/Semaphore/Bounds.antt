-- ===== src/Sync/Semaphore/Bounds.antt =====
-- The counter stays between 0 and the maximum.
use mcoro.Prelude.{Bool-cases, not, ◌&&◌, ℕ, ◌^◌, ◌≤◌, ◌<◌, Bool, arith, ◌==◌, inl, inr, subst}
use mcoro.Prelude.{update}
use mcoro.Sync.Semaphore.{
  Position, acquiring, releasing, acquire_test, release_test, acquire_exchange, release_exchange,
  Move, acquire, acquire_woken, acquire_failed, acquire_swap, release, release_outside,
  release_woken, release_failed, release_swap, System, pick, Reach, start, later,
}

module _ (max_count : ℕ) where
  -- What a coroutine knows of its `count`.
  abbrev Fair : Position → Type 0
  Fair (acquiring count) = (0 < count) × (count ≤ max_count)
  Fair (releasing count) = count < max_count
  Fair _ = Unit {0}

  acquire_test-Fair : (count : ℕ) → count ≤ max_count → Fair (acquire_test max_count count)
  unfolding acquire_test
  acquire_test-Fair count h = elim (Bool-cases (count == 0)) [
    | inl e ↦ rw e tt
    | inr e ↦ rw e (ground arith, h)
  ]

  release_test-Fair : (count : ℕ) → count ≤ max_count → Fair (release_test max_count count)
  unfolding release_test
  release_test-Fair count h = elim (Bool-cases (count == max_count)) [
    | inl e ↦ rw e tt
    | inr e ↦ rw e (ground arith)
  ]

  -- An exchange keeps the counter in its bounds.
  acquire_exchange-Fair :
      (small : max_count < 2 ^ 32) (spurious : Bool) (counter count : ℕ)
      → counter ≤ max_count
      → Fair (acquiring count)
      → ((acquire_exchange max_count spurious counter count).0 ≤ max_count)
        × Fair (acquire_exchange max_count spurious counter count).1
  unfolding acquire_exchange
  acquire_exchange-Fair small spurious counter count h fair =
      elim (Bool-cases ((counter == count) && not spurious)) [
        | inl e ↦ rw e (omega (arith, fair), acquire_test-Fair count fair.1)
        | inr e ↦ rw e (h, tt)
      ]

  release_exchange-Fair :
      (small : max_count < 2 ^ 32) (spurious : Bool) (counter count : ℕ)
      → counter ≤ max_count
      → Fair (releasing count)
      → ((release_exchange max_count spurious counter count).0 ≤ max_count)
        × Fair (release_exchange max_count spurious counter count).1
  unfolding release_exchange
  release_exchange-Fair small spurious counter count h fair =
      elim (Bool-cases ((counter == count) && not spurious)) [
        | inl e ↦ rw e (omega (arith, fair), release_test-Fair count (omega (arith, fair)))
        | inr e ↦ rw e (h, tt)
      ]

  module _ (small : max_count < 2 ^ 32) where
    move-Fair :
        (counter counter' : ℕ) (p p' : Position)
        → counter ≤ max_count
        → Fair p
        → Move max_count counter p counter' p'
        → (counter' ≤ max_count) × Fair p'
    move-Fair counter counter' p p' h f acquire = (h, acquire_test-Fair counter h)
    move-Fair counter counter' p p' h f acquire_woken = (h, acquire_test-Fair counter h)
    move-Fair counter counter' p p' h f acquire_failed = (h, tt)
    move-Fair counter counter' p p' h f (acquire_swap spurious count) =
        acquire_exchange-Fair small spurious counter count h f
    move-Fair counter counter' p p' h f release = (h, release_test-Fair counter h)
    move-Fair counter counter' p p' h f release_outside = (h, release_test-Fair counter h)
    move-Fair counter counter' p p' h f release_woken = (h, release_test-Fair counter h)
    move-Fair counter counter' p p' h f release_failed = (h, tt)
    move-Fair counter counter' p p' h f (release_swap spurious count) =
        release_exchange-Fair small spurious counter count h f

    update-Fair :
        (pc : ℕ → Position) (i j : ℕ) (p : Position)
        → Fair p
        → ((k : ℕ) → Fair (pc k))
        → Fair (update pc i p j)
    update-Fair pc i j p f others = elim (Bool-cases (i == j)) [
      | inl e ↦ rw e f
      | inr e ↦ rw e (others j)
    ]

    Reach-Fair :
        {initial_count : ℕ} {s : System max_count}
        → initial_count ≤ max_count
        → Reach max_count initial_count s
        → (s.counter ≤ max_count) × ((i : ℕ) → Fair (s.pc i))
    Reach-Fair h start = (h, λ i. tt)
    Reach-Fair h (later {s} r (pick i {p} {p'} {counter} e move)) =
        let (bound, fair) = Reach-Fair h r in
        let (bound', fair') = move-Fair s.counter counter p p' bound (subst Fair e (fair i)) move in
        (bound', λ j. update-Fair s.pc i j p' fair' fair)

    -- The counter of a `Semaphore` whose initial count is at most its maximum, a 32-bit number,
    -- stays at most that maximum, in every system that coroutines reach by calls of `acquire`
    -- and `release`, with exchanges that may fail without a reason and waits that return with
    -- or without an error, in any order.
    pub counter-le :
        {initial_count : ℕ} {s : System max_count}
        → initial_count ≤ max_count
        → Reach max_count initial_count s
        → s.counter ≤ max_count
    counter-le h r = (Reach-Fair h r).0
