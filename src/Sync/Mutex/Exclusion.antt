-- ===== src/Sync/Mutex/Exclusion.antt =====
-- Mutual exclusion.
use mcoro.Prelude.{ℕ, ◌⊎◌, ◌≡◌, ◌≢◌, refl, Bool, true, false, arith, sym, ◌∙◌, inl, inr, ap}
use mcoro.Prelude.{update, update-same}
use mcoro.Sync.Mutex.{
  Position, holding, try_lock, after_try, after_exchange, Move, try, lock, exchange, woken, failed,
  unlock, System, pick, Reach, start, later,
}

-- At most one coroutine holds the lock, and only while the flag is set.
record IsValid (s : System) : Type 0 where
  pub single : (i j : ℕ) → s.pc i ≡ holding → s.pc j ≡ holding → i ≡ j
  pub flagged : (i : ℕ) → s.pc i ≡ holding → s.flag ≡ true

-- What a move does: the holder lets go of the lock; or somebody takes a free one; or the flag stays
-- set, and the coroutine neither held the lock nor holds it now.
move-cases :
    (flag flag' : Bool) (p p' : Position)
    → Move flag p flag' p'
    → ((p ≡ holding) × (p' ≢ holding))
      ⊎ ((flag ≡ false) × (flag' ≡ true))
      ⊎ ((p' ≢ holding) × (p ≢ holding) × (flag ≡ true → flag' ≡ true))
unfolding try_lock after_try after_exchange
move-cases false flag' p p' try = inr (inl (refl, refl))
move-cases true flag' p p' try = inr (inr (λ e. cc e, λ e. cc e, λ e. refl))
move-cases flag flag' p p' lock = inr (inr (λ e. cc e, λ e. cc e, λ e. e))
move-cases false flag' p p' exchange = inr (inl (refl, refl))
move-cases true flag' p p' exchange = inr (inr (λ e. cc e, λ e. cc e, λ e. refl))
move-cases flag flag' p p' woken = inr (inr (λ e. cc e, λ e. cc e, λ e. e))
move-cases flag flag' p p' failed = inr (inr (λ e. cc e, λ e. cc e, λ e. e))
move-cases flag flag' p p' unlock = inl (refl, λ e. cc e)

held-cases :
    (pc : ℕ → Position) (i j : ℕ) (p : Position)
    → update pc i p j ≡ holding
    → ((i ≡ j) × (p ≡ holding)) ⊎ (pc j ≡ holding)
held-cases pc i j p h = ground arith

step-IsValid :
    (s : System) (i : ℕ) (p p' : Position) (flag : Bool)
    → IsValid s
    → s.pc i ≡ p
    → ((p ≡ holding) × (p' ≢ holding))
      ⊎ ((s.flag ≡ false) × (flag ≡ true))
      ⊎ ((p' ≢ holding) × (p ≢ holding) × (s.flag ≡ true → flag ≡ true))
    → IsValid (record { flag = flag; pc = update s.pc i p' })
step-IsValid s i p p' flag v e (inl (held, free)) =
    let nobody : (j : ℕ) → update s.pc i p' j ≢ holding = λ j h. elim (held-cases s.pc i j p' h) [
      | inl (same, h') ↦ free h'
      | inr h' ↦
          let same : i ≡ j = v.single i j (e ∙ held) h' in
          free (sym (ap (λ (k : ℕ). update s.pc i p' k) (sym same) ∙ update-same s.pc i p') ∙ h)
    ] in
    record { single = λ j k h h'. absurd (nobody j h); flagged = λ j h. absurd (nobody j h) }
step-IsValid s i p p' flag v e (inr (inl (unset, set))) =
    let mover : (j : ℕ) → update s.pc i p' j ≡ holding → i ≡ j = λ j h.
      elim (held-cases s.pc i j p' h) [
        | inl (same, h') ↦ same
        | inr h' ↦ cc (v.flagged j h', unset)
      ] in
    record { single = λ j k h h'. sym (mover j h) ∙ mover k h'; flagged = λ j h. set }
step-IsValid s i p p' flag v e (inr (inr (free, was_free, kept))) =
    let before : (j : ℕ) → update s.pc i p' j ≡ holding → s.pc j ≡ holding =
      λ j h. elim (held-cases s.pc i j p' h) [ inl (same, h') ↦ absurd (free h') | inr h' ↦ h' ] in
    record {
      single = λ j k h h'. v.single j k (before j h) (before k h');
      flagged = λ j h. kept (v.flagged j (before j h));
    }

Reach-IsValid : {s : System} → Reach s → IsValid s
Reach-IsValid start = record { single = λ i j h h'. cc h; flagged = λ i h. cc h }
Reach-IsValid (later {s} r (pick i {p} {p'} {flag} e move)) =
    step-IsValid s i p p' flag (Reach-IsValid r) e (move-cases s.flag flag p p' move)

-- Mutual exclusion of `BasicMutex`: in every system that coroutines reach from a free lock, by
-- calls of `try_lock` and `lock`, waits that return with or without an error, and an `unlock` by a
-- holder, in any order, at most one coroutine holds the lock.
pub pc-exclusive : {s : System} → Reach s → (i j : ℕ) → s.pc i ≡ holding → s.pc j ≡ holding → i ≡ j
pc-exclusive r i j h h' = (Reach-IsValid r).single i j h h'
