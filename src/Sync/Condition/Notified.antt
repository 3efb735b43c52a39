-- ===== src/Sync/Condition/Notified.antt =====
-- A coroutine that waits returns after a notification only.
use mcoro.Prelude.{
  ℕ, ◌≡◌, ◌≢◌, ◌<◌, refl, arith, sym, ◌∙◌, ◌==◌, ◌⊎◌, inl, inr, ap, subst, Bool-cases, ==_iff,
}
use mcoro.Prelude.{update}
use mcoro.Sync.Condition.{
  Position, outside, waiting, returned, wait_test, Move, wait, woken, failed, leave, System, Run,
  stop, pick, notify,
}

-- Outside of `wait()`, or in it with the value of the futex.
abbrev Quiet : ℕ → Position → Type 0
Quiet futex p = (p ≡ outside) ⊎ (p ≡ waiting futex)

Quiet-returned : (f : ℕ) (p : Position) → Quiet f p → p ≢ returned
Quiet-returned f p (inl e) h = cc (e, h)
Quiet-returned f p (inr e) h = cc (e, h)

wait_test-Quiet :
    (f futex old : ℕ) → futex ≡ f → Quiet f (waiting old) → Quiet f (wait_test futex old)
unfolding wait_test
wait_test-Quiet f futex old e (inl h) = cc h
wait_test-Quiet f futex old e (inr h) = let same : old ≡ f = cc h in inr (ground (arith, same, e))

move-Quiet :
    (f futex futex' : ℕ) (p p' : Position)
    → futex ≡ f
    → Move futex p futex' p'
    → (futex' ≡ f) × (Quiet f p → Quiet f p')
move-Quiet f futex futex' p p' e wait = (e, λ q. inr (ap waiting e))
move-Quiet f futex futex' p p' e (woken old) = (e, wait_test-Quiet f futex old e)
move-Quiet f futex futex' p p' e (failed old) = (e, λ q. inl refl)
move-Quiet f futex futex' p p' e leave = (e, λ q. inl refl)

moved-Quiet :
    (f : ℕ) (pc : ℕ → Position) (i j : ℕ) (p : Position)
    → (i ≡ j → Quiet f p)
    → Quiet f (pc j)
    → Quiet f (update pc i p j)
moved-Quiet f pc i j p k q = elim (Bool-cases (i == j)) [
  | inl e ↦ rw e (k (ground arith))
  | inr e ↦ rw e q
]

Run-Quiet :
    {s t : System} {n : ℕ} (i : ℕ)
    → Run s n t
    → n ≡ 0
    → Quiet s.futex (s.pc i)
    → (t.futex ≡ s.futex) × Quiet s.futex (t.pc i)
Run-Quiet i stop e q = (refl, q)
Run-Quiet {s} i (pick j {n} {t} {p} {p'} {futex} r at move) e q =
    let (same, quiet) = Run-Quiet i r e q in
    let (same', keeps) = move-Quiet s.futex t.futex futex p p' same move in
    (
      same',
      moved-Quiet s.futex t.pc j i p'
          (λ ji. keeps (subst (Quiet s.futex) (ap t.pc (sym ji) ∙ at) quiet)) quiet,
    )
Run-Quiet i (notify r) e q = absurd (omega arith)

-- A coroutine that is in `wait()` with the present value of the futex and has returned from it
-- later, after any steps of the coroutines, was notified: there was at least one `notify_one` or
-- `notify_all` between.
pub notified-returned :
    {s t : System} {n : ℕ} (i : ℕ)
    → Run s n t
    → s.pc i ≡ waiting s.futex
    → t.pc i ≡ returned
    → 0 < n
notified-returned {s} {t} {n} i r e h = elim (Bool-cases (n == 0)) [
  | inl z ↦
      let silent : n ≡ 0 = (==_iff n 0).0 z in
      absurd (Quiet-returned s.futex (t.pc i) (Run-Quiet i r silent (inr e)).1 h)
  | inr pos ↦ ground arith
]
