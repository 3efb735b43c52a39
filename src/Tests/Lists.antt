-- ===== src/Tests/Lists.antt =====
-- Intrusive lists, and sources of cancellation.
use mcoro.Prelude.{ℕ, ◌≡◌, refl, false, List, [], ◌∷◌, ◌++◌, arith, All, done, update, Cmd, ◌>>◌}
use mcoro.IntrusiveList.{Nodes, null, push_front, push_back, erase, erase_from_parent, clear}
use mcoro.IntrusiveList.Ring.{IsList, Misses}
use mcoro.IntrusiveList.Insert.{push-IsList}
use mcoro.IntrusiveList.Erase.{Removed, erase-IsList}
use mcoro.IntrusiveList.Clear.{clear-IsList}
use mcoro.Cancel.{Source, cancel, register_at, token_cancel}
use mcoro.Cancel.Once.{cancel-visit_all, cancel-register_at}

-- The nodes 5 and 7 in the list at 1.
abbrev two : Nodes
two = record {
  next = update (update (update (λ x. null) 1 5) 5 7) 7 1;
  prev = update (update (update (λ x. null) 5 1) 7 5) 1 7;
}

abbrev nodes : List ℕ
nodes = 5 ∷ 7 ∷ []

two-IsList : IsList 1 two nodes
two-IsList = record {
  ring = ((refl, refl), ((refl, refl), (refl, refl)));
  distinct = ((omega arith, (omega arith, tt)), ((omega arith, tt), (tt, tt)));
  not_null = (omega arith, (omega arith, (omega arith, tt)));
}

nine-Misses : Misses 9 (1 ∷ nodes)
nine-Misses = (omega arith, (omega arith, (omega arith, tt)))

push-IsList_example :
    ((s' : Nodes) × (push_front 1 9 two ≡ done (tt, s')) × IsList 1 s' (9 ∷ nodes))
    × ((s' : Nodes) × (push_back 1 9 two ≡ done (tt, s')) × IsList 1 s' (nodes ++ 9 ∷ []))
push-IsList_example = push-IsList 9 (omega arith) nodes two-IsList nine-Misses

erase-IsList_example :
    (s' : Nodes) × ((erase 7 two ≡ done (tt, s'))
      × (erase_from_parent 7 two ≡ done (tt, s'))
      × (erase_from_parent 7 s' ≡ done (tt, s')))
    × IsList 1 s' (5 ∷ [])
    × Removed two s' 5 7 1
erase-IsList_example = erase-IsList 7 (5 ∷ []) [] two-IsList

clear-IsList_example :
    (s' : Nodes) × (clear 1 3 two ≡ done (tt, s'))
    × IsList 1 s' []
    × All (λ x. (s'.next x ≡ null) × (s'.prev x ≡ null)) nodes
clear-IsList_example = clear-IsList 1 3 nodes two (omega arith) two-IsList

-- A source with two cancellers; each notes that it ran.
abbrev source : Source (List ℕ)
source = record { nodes = two; canceled = false; world = [] }

abbrev note : ℕ → Cmd (Source (List ℕ)) (Unit {0})
note n s = done (tt, record s { world = n ∷ s.world })

cancel-visit_all_example :
    (s' : Source (List ℕ)) × (cancel 1 note 3 source ≡ done (tt, s'))
    × (s'.world ≡ 7 ∷ 5 ∷ [])
    × IsList 1 s'.nodes []
    × ((more : ℕ) → cancel 1 note more s' ≡ done (tt, s'))
cancel-visit_all_example =
    cancel-visit_all 1 note ◌∷◌ (λ n s. refl) source nodes 3 two-IsList refl (omega arith)

cancel-register_at_example :
    (s' : Source (List ℕ)) × ((register_at 2 1 9 >> token_cancel 2 (cancel 1 note 4)) source
      ≡ done (tt, s'))
    × (s'.world ≡ 7 ∷ 5 ∷ 9 ∷ [])
cancel-register_at_example =
    cancel-register_at 1 note ◌∷◌ (λ n s. refl) 2 9 source nodes 4 (omega arith) (omega arith)
      nine-Misses two-IsList refl (omega arith)
