-- ===== src/IntrusiveList/Clear.antt =====
-- `doClear`, which the destructor of a list calls.
use mcoro.Prelude.{
  ℕ, zero, suc, ◌<◌, ◌≡◌, ◌≢◌, refl, List, [], ◌∷◌, arith, sym, All, done, update, ==_ne, ==_self,
  length,
}
use mcoro.IntrusiveList.{
  Nodes, null, get_next, set_next, set_prev, unlink, list_head, clear_loop, clear,
}
use mcoro.IntrusiveList.Ring.{Chain, Distinct, IsList, first, Chain-first, Misses}

-- The forward pointers of the nodes lead to `b`.
abbrev Leads : Nodes → List ℕ → ℕ → Type 0
Leads s [] b = Unit {0}
Leads s (x ∷ xs) b = (s.next x ≡ first xs b) × Leads s xs b

Chain-Leads : (s : Nodes) (p b : ℕ) (xs : List ℕ) → Chain s p xs b → Leads s xs b
Chain-Leads s p b [] c = tt
Chain-Leads s p b (x ∷ xs) (l, c) = ((Chain-first s x b xs c).0, Chain-Leads s x b xs c)

abbrev unlinked : ℕ → Nodes → Nodes
unlinked x s = record { next = update s.next x null; prev = update s.prev x null }

Leads-unlinked :
    (s : Nodes) (x b : ℕ) (xs : List ℕ) → Misses x xs → Leads s xs b → Leads (unlinked x s) xs b
Leads-unlinked s x b [] m h = tt
Leads-unlinked s x b (y ∷ ys) m (e, h) = (ground (arith, m.0, e), Leads-unlinked s x b ys m.1 h)

abbrev Unlinked : Nodes → ℕ → Type 0
Unlinked s x = (s.next x ≡ null) × (s.prev x ≡ null)

module _ (root : ℕ) where
  clear_loop-runs :
      (fuel : ℕ) (xs : List ℕ) (s : Nodes)
      → length xs < fuel
      → Leads s xs root
      → Misses root xs
      → Distinct xs
      → All (λ x. x ≢ null) xs
      → (s' : Nodes) × (clear_loop root fuel (first xs root) s ≡ done (tt, s'))
        × All (Unlinked s') xs
        × ((x : ℕ) → Unlinked s x → Unlinked s' x)
  unfolding clear_loop get_next unlink set_next set_prev
  clear_loop-runs zero xs s h p m d ne = absurd (omega arith)
  clear_loop-runs (suc fuel) [] s h p m d ne = (s, rw (==_self root) refl, tt, λ x u. u)
  clear_loop-runs (suc fuel) (x ∷ xs) s h (e, p) m d ne =
      let (s', runs, all, kept) =
        clear_loop-runs fuel xs (unlinked x s) (omega arith) (Leads-unlinked s x root xs d.0 p) m.1
          d.1 ne.1 in
      (
        s',
        rw (==_ne x root (λ f. m.0 (sym f)), ==_ne x null ne.0, e) runs,
        (kept x (ground arith, ground arith), all),
        λ y u. kept y (ground (arith, u.0), ground (arith, u.1)),
      )

  abbrev reset : Nodes → Nodes
  reset s = record { next = update s.next root root; prev = update s.prev root root }

  reset-Unlinked :
      (s : Nodes) (xs : List ℕ) → Misses root xs → All (Unlinked s) xs → All (Unlinked (reset s)) xs
  reset-Unlinked s [] m h = tt
  reset-Unlinked s (x ∷ xs) m h =
      ((ground (arith, h.0.0, m.0), ground (arith, h.0.1, m.0)), reset-Unlinked s xs m.1 h.1)

  -- `clear` with more fuel than the list has nodes is defined; the memory then holds the empty
  -- list, and both pointers of each node that was in the list are null.
  pub clear-IsList :
      (fuel : ℕ) (xs : List ℕ) (s : Nodes)
      → length xs < fuel
      → IsList root s xs
      → (s' : Nodes) × (clear root fuel s ≡ done (tt, s'))
        × IsList root s' []
        × All (λ x. (s'.next x ≡ null) × (s'.prev x ≡ null)) xs
  unfolding clear get_next set_next set_prev
  clear-IsList fuel xs s h is =
      let (s', runs, all, kept) =
        clear_loop-runs fuel xs s h (Chain-Leads s root root xs is.ring) is.distinct.0 is.distinct.1
          is.not_null.1 in
      let full = ==_ne root null is.not_null.0 in
      (
        reset s',
        rw (full, (Chain-first s root root xs is.ring).0, runs) refl,
        record {
          ring = (ground arith, ground arith);
          distinct = (tt, tt);
          not_null = (is.not_null.0, tt);
        },
        reset-Unlinked s' xs is.distinct.0 all,
      )

  -- A new list is empty.
  pub list_head-IsList :
      (s : Nodes)
      → root ≢ null
      → (s' : Nodes) × (list_head root s ≡ done (tt, s')) × IsList root s' []
  unfolding list_head set_next set_prev
  list_head-IsList s ne = (
    reset s,
    rw (==_ne root null ne) refl,
    record { ring = (ground arith, ground arith); distinct = (tt, tt); not_null = (ne, tt) },
  )
