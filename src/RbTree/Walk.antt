-- ===== src/RbTree/Walk.antt =====
-- Walks through a tree that the memory holds.
use mcoro.Prelude.{
  ℕ, zero, suc, ◌<◌, ◌≡◌, refl, Bool, true, false, List, [], ◌∷◌, ◌++◌, ◌==◌, arith, ap, sym, ◌∙◌,
  if◌then◌else◌, ◌>>◌, ==_ne, done, update, append_assoc, visit_all, visit_all-++, Bool-cases, inl,
  inr,
}
use mcoro.RbTree.{Nodes, Side, left, right, null, get_child, get_root, set_in_tree, set_root}
use mcoro.RbTree.Tree.{Tree, leaf, node, inorder, pointer, Holds, size}
use mcoro.RbTree.Visit.{furthest, get_front, get_back, do_traverse_inorder, clear_below, clear}

-- A traversal of a tree that the memory holds, with more fuel than the tree has nodes, is defined,
-- leaves the memory, and has the effect of the visits of the nodes in order.
pub do_traverse_inorder-visit_all :
    {A : Type 0} (visitor : ℕ → A → A) (t : Tree) (s : Nodes) (p fuel : ℕ) (a : A)
    → Holds s p t
    → size t < fuel
    → do_traverse_inorder visitor fuel (pointer t) a s ≡ done (visit_all visitor (inorder t) a, s)
unfolding do_traverse_inorder size get_child
do_traverse_inorder-visit_all visitor t s p zero a h l = absurd (omega (arith, l))
do_traverse_inorder-visit_all visitor leaf s p (suc fuel) a h l = refl
do_traverse_inorder-visit_all visitor (node k n t u) s p (suc fuel) a
      ((nn, np, nk), (el, er), (ht, hu)) l =
    rw
      (
        ==_ne n null nn,
        ==_ne n null nn,
        el,
        do_traverse_inorder-visit_all visitor t s n fuel a ht (omega (arith, l)),
        er,
        do_traverse_inorder-visit_all visitor u s n fuel
            (visitor n (visit_all visitor (inorder t) a)) hu (omega (arith, l)),
        visit_all-++ visitor (inorder t) (n ∷ inorder u) a,
      )
      refl

-- The last node on a side of a tree below `n`.
abbrev pub last_on : Side → ℕ → Tree → ℕ
last_on d n leaf = n
last_on left n (node k m t u) = last_on left m t
last_on right n (node k m t u) = last_on right m u

pub furthest-left :
    (s : Nodes) (p fuel : ℕ) (k : Bool) (n : ℕ) (t u : Tree)
    → Holds s p (node k n t u)
    → size t < fuel
    → furthest left fuel n s ≡ done (last_on left n t, s)
unfolding furthest size get_child
furthest-left s p zero k n t u h l = absurd (omega (arith, l))
furthest-left s p (suc fuel) k n leaf u ((nn, np, nk), (el, er), (ht, hu)) l =
    rw (==_ne n null nn, el) refl
furthest-left s p (suc fuel) k n (node k' m t t') u
      ((nn, np, nk), (el, er), (((mn, mp, mk), mc, ms), hu)) l =
    rw (==_ne n null nn, el, ==_ne m null mn)
      (furthest-left s n fuel k' m t t' ((mn, mp, mk), mc, ms) (omega (arith, l)))

furthest-right :
    (s : Nodes) (p fuel : ℕ) (k : Bool) (n : ℕ) (t u : Tree)
    → Holds s p (node k n t u)
    → size u < fuel
    → furthest right fuel n s ≡ done (last_on right n u, s)
unfolding furthest size get_child
furthest-right s p zero k n t u h l = absurd (omega (arith, l))
furthest-right s p (suc fuel) k n t leaf ((nn, np, nk), (el, er), (ht, hu)) l =
    rw (==_ne n null nn, er) refl
furthest-right s p (suc fuel) k n t (node k' m u u')
      ((nn, np, nk), (el, er), (ht, ((mn, mp, mk), mc, ms))) l =
    rw (==_ne n null nn, er, ==_ne m null mn)
      (furthest-right s n fuel k' m u u' ((mn, mp, mk), mc, ms) (omega (arith, l)))

-- The first and the last node in order.
pub inorder-first :
    (k : Bool) (n : ℕ) (t u : Tree)
    → (xs : List ℕ) × (inorder (node k n t u) ≡ last_on left n t ∷ xs)
inorder-first k n leaf u = (inorder u, refl)
inorder-first k n (node k' m t t') u =
    let (xs, e) = inorder-first k' m t t' in
    (xs ++ n ∷ inorder u, ap (λ (ys : List ℕ). ys ++ n ∷ inorder u) e)

inorder-last :
    (k : Bool) (n : ℕ) (t u : Tree)
    → (xs : List ℕ) × (inorder (node k n t u) ≡ xs ++ last_on right n u ∷ [])
inorder-last k n t leaf = (inorder t, refl)
inorder-last k n t (node k' m u u') =
    let (xs, e) = inorder-last k' m u u' in
    (
      inorder t ++ n ∷ xs,
      ap (λ (ys : List ℕ). inorder t ++ n ∷ ys) e
          ∙ sym (append_assoc (inorder t) (n ∷ xs) (last_on right m u' ∷ [])),
    )

-- With more fuel than the left subtree of the root has nodes, `getFront` gives the first node in order.
pub get_front-inorder :
    (s : Nodes) (k : Bool) (n : ℕ) (t u : Tree) (fuel : ℕ)
    → Holds s null (node k n t u)
    → s.root ≡ n
    → size t < fuel
    → (x : ℕ) × (get_front fuel s ≡ done (x, s))
      × ((xs : List ℕ) × (inorder (node k n t u) ≡ x ∷ xs))
unfolding get_front get_root
get_front-inorder s k n t u fuel h r l = (
  last_on left n t,
  ap (λ (q : ℕ). furthest left fuel q s) r ∙ furthest-left s null fuel k n t u h l,
  inorder-first k n t u,
)

-- With more fuel than the right subtree of the root has nodes, `getBack` gives the last node in order.
pub get_back-inorder :
    (s : Nodes) (k : Bool) (n : ℕ) (t u : Tree) (fuel : ℕ)
    → Holds s null (node k n t u)
    → s.root ≡ n
    → size u < fuel
    → (x : ℕ) × (get_back fuel s ≡ done (x, s))
      × ((xs : List ℕ) × (inorder (node k n t u) ≡ xs ++ x ∷ []))
unfolding get_back get_root
get_back-inorder s k n t u fuel h r l = (
  last_on right n u,
  ap (λ (q : ℕ). furthest right fuel q s) r ∙ furthest-right s null fuel k n t u h l,
  inorder-last k n t u,
)

-- Whether a node is in a list.
abbrev pub has : ℕ → List ℕ → Bool
has y [] = false
has y (x ∷ xs) = if x == y then true else has y xs

-- The members `rbTree` with those of a list of nodes set to null.
abbrev taken_out : List ℕ → (ℕ → Bool) → ℕ → Bool
taken_out = visit_all (λ x f. update f x false)

false_both : (b : Bool) → (if b then false else false) ≡ false
false_both true = refl
false_both false = refl

taken_out-has :
    (xs : List ℕ) (f : ℕ → Bool) (y : ℕ) → taken_out xs f y ≡ (if has y xs then false else f y)
taken_out-has [] f y = refl
taken_out-has (x ∷ xs) f y =
    let rest = taken_out-has xs (update f x false) y in
    elim (Bool-cases (x == y)) [
      | inl e ↦ rest ∙ rw e (false_both (has y xs))
      | inr e ↦ rest ∙ rw e refl
    ]

clear_below-taken_out :
    (s : Nodes) (t : Tree) (p fuel : ℕ) (g : ℕ → Bool)
    → Holds s p t
    → size t < fuel
    → clear_below fuel (pointer t) (record s { in_tree = g })
      ≡ done (tt, record s { in_tree = taken_out (inorder t) g })
unfolding clear_below size get_child set_in_tree
clear_below-taken_out s t p zero g h l = absurd (omega (arith, l))
clear_below-taken_out s leaf p (suc fuel) g h l = refl
clear_below-taken_out s (node k n t u) p (suc fuel) g ((nn, np, nk), (el, er), (ht, hu)) l =
    rw
      (
        ==_ne n null nn,
        ==_ne n null nn,
        el,
        clear_below-taken_out s t n fuel g ht (omega (arith, l)),
        er,
        clear_below-taken_out s u n fuel (update (taken_out (inorder t) g) n false) hu
            (omega (arith, l)),
        visit_all-++ (λ x f. update f x false) (inorder t) (n ∷ inorder u) g,
      )
      refl

-- With more fuel than the tree has nodes, `doClear` sets the root to null and `rbTree` of the nodes of
-- the tree to null, and leaves that of the other nodes.
pub clear-has :
    (s : Nodes) (t : Tree) (fuel : ℕ)
    → Holds s null t
    → s.root ≡ pointer t
    → size t < fuel
    → (s' : Nodes) × (clear fuel s ≡ done (tt, s'))
      × (s'.root ≡ null)
      × ((y : ℕ) → s'.in_tree y ≡ (if has y (inorder t) then false else s.in_tree y))
unfolding clear get_root set_root
clear-has s t fuel h r l = (
  record s { in_tree = taken_out (inorder t) s.in_tree; root = null },
  ap (λ (q : ℕ). (clear_below fuel q >> set_root null) s) r
      ∙ rw (clear_below-taken_out s t null fuel s.in_tree h l) refl,
  refl,
  taken_out-has (inorder t) s.in_tree,
)
