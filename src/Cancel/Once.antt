-- ===== src/Cancel/Once.antt =====
-- What `cancel` runs.
use mcoro.Prelude.{
  ℕ, zero, suc, ◌+◌, ◌<◌, ◌≡◌, ◌≢◌, refl, true, false, List, [], ◌∷◌, arith, sym, done, All, length,
  visit_all, ==_ne, ==_self, Cmd, ◌>>◌,
}
use mcoro.IntrusiveList.{Nodes, null, get_next, front}
use mcoro.IntrusiveList.Ring.{Chain, IsList, first, Chain-first, Misses}
use mcoro.IntrusiveList.Insert.{push-IsList}
use mcoro.IntrusiveList.Erase.{empty-false}
use mcoro.IntrusiveList.Clear.{clear-IsList}
use mcoro.Cancel.{
  Source, collect, on_list, is_canceled, set_canceled, register, run_all, cancel_list, cancel,
  token_cancel, register_at,
}

collect-Chain :
    (root : ℕ) (s : Nodes) (p : ℕ) (xs : List ℕ) (fuel : ℕ)
    → Chain s p xs root
    → Misses root xs
    → All (λ x. x ≢ null) xs
    → length xs < fuel
    → collect root fuel (first xs root) s ≡ done (xs, s)
unfolding collect get_next
collect-Chain root s p xs zero c m ne l = absurd (omega (arith, l))
collect-Chain root s p [] (suc fuel) c m ne l = rw (==_self root) refl
collect-Chain root s p (x ∷ xs) (suc fuel) (e, c) m ne l =
    rw
      (
        ==_ne x root (λ f. m.0 (sym f)),
        ==_ne x null ne.0,
        (Chain-first s x root xs c).0,
        collect-Chain root s x xs fuel c m.1 ne.1 (omega (arith, l)),
      )
      refl

module _ {W : Type 0} (root : ℕ) (cancel_one : ℕ → Cmd (Source W) (Unit {0})) (effect : ℕ → W → W)
    (outside : (n : ℕ) (s : Source W)
      → cancel_one n s ≡ done (tt, record s { world = effect n s.world })) where
  run_all-visit_all :
      (xs : List ℕ) (s : Source W)
      → run_all root cancel_one xs s ≡ done (tt, record s { world = visit_all effect xs s.world })
  unfolding run_all
  run_all-visit_all [] s = refl
  run_all-visit_all (x ∷ xs) s =
      rw (outside x s) (run_all-visit_all xs (record s { world = effect x s.world }))

  -- `cancel` of a source that was not canceled, with more fuel than it has cancellers, where
  -- `doCancel` of a canceller is defined and changes only what is outside of the source: it is
  -- defined, every canceller of the list has run once, in the order of the list, and the list is
  -- empty. Another `cancel` changes nothing.
  pub cancel-visit_all :
      (s : Source W) (xs : List ℕ) (fuel : ℕ)
      → IsList root s.nodes xs
      → s.canceled ≡ false
      → length xs < fuel
      → (s' : Source W) × (cancel root cancel_one fuel s ≡ done (tt, s'))
        × (s'.world ≡ visit_all effect xs s.world)
        × IsList root s'.nodes []
        × ((more : ℕ) → cancel root cancel_one more s' ≡ done (tt, s'))
  unfolding cancel cancel_list on_list is_canceled set_canceled front get_next
  cancel-visit_all s xs fuel is c l =
      let (nodes', run, list, unlinked) = clear-IsList root fuel xs s.nodes l is in
      (
        record s { nodes = nodes'; canceled = true; world = visit_all effect xs s.world },
        rw
            (
              c,
              empty-false xs is,
              ==_ne root null is.not_null.0,
              (Chain-first s.nodes root root xs is.ring).0,
              collect-Chain root s.nodes root xs fuel is.ring is.distinct.0 is.not_null.1 l,
              run_all-visit_all xs (record s { canceled = true }),
              run,
            )
            refl,
        refl,
        list,
        λ more. refl,
      )

  -- For a token that is not null, of a source that was not canceled, where `doCancel` of a
  -- canceller is defined and changes only what is outside of the source: the registration of a
  -- canceller that is not null and not in the list, and then a `cancel` by the token, with fuel
  -- for all cancellers, are defined, and the new canceller has run once, before those of the
  -- list.
  pub cancel-register_at :
      (token n : ℕ) (s : Source W) (xs : List ℕ) (fuel : ℕ)
      → token ≢ null
      → n ≢ null
      → Misses n (root ∷ xs)
      → IsList root s.nodes xs
      → s.canceled ≡ false
      → length xs + 1 < fuel
      → (s' : Source W) × ((register_at token root n
              >> token_cancel token (cancel root cancel_one fuel))
            s
          ≡ done (tt, s'))
        × (s'.world ≡ visit_all effect xs (effect n s.world))
  unfolding register_at token_cancel register on_list
  cancel-register_at token n s xs fuel tn nn new is c l =
      let (nodes', run, list) = (push-IsList n nn xs is new).0 in
      let (s', run', world, rest, again) =
        cancel-visit_all (record s { nodes = nodes' }) (n ∷ xs) fuel list c (omega (arith, l)) in
      (s', rw (==_ne token null tn, run) run', world)
