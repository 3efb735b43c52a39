-- ===== src/RbTree/Balance.antt =====
-- `doInsert` keeps a red-black tree.
use mathlib.Core.Bool.{true≢false}
use mathlib.Core.List.{nil≢cons}
use mcoro.Prelude.{
  ℕ, zero, suc, ◌+◌, ◌≤◌, ◌<◌, ◌≡◌, ◌≢◌, refl, sym, Bool, true, false, List, [], ◌∷◌, ◌++◌, arith,
  ap, ◌∙◌, All, ==_ne, Bool-cases, inl, inr, done, ◌⊎◌, update,
}
use mcoro.RbTree.{Nodes, left, right, null, get_root, set_red, fix_violation, fix_loop}
use mcoro.RbTree.Tree.{Tree, leaf, node, Place, top, under, inorder, count, At, size}
use mcoro.RbTree.Turn.{put, put-in_tree}
use mcoro.RbTree.Linked.{Keeps-done, Keeps-fix_violation}
use mcoro.RbTree.Insert.{insert}
use mcoro.RbTree.Locate.{locate, inorder-locate}
use mcoro.RbTree.Place.{placed-At, placed-run, linked}
use mcoro.RbTree.RedBlack.{
  tree_red, RedBlack, Fine, Height, counted, uncounted, bottom, Fine-bottom, RedBlack-bottom,
  Stands, Stands-bottom, Stands-paint,
}
use mcoro.RbTree.Paint.{painted, At-paint}
use mcoro.RbTree.Loop.{depth, fix_loop-Fixed}

not_red : (true ≡ false) ⊎ ⊥ → ⊥
not_red (inl e) = true≢false e
not_red (inr x) = x

module _ (compare : ℕ → ℕ → Bool) (n : ℕ) where
  -- The place is below a black node.
  abbrev Inner : Place → Type 0
  Inner top = ⊥
  Inner (under d true p u c) = ⊥
  Inner (under d false p u c) = Unit {0}

  Fine-locate :
      (h : Height) (t : Tree) (c : Place)
      → RedBlack h t
      → Fine h c
      → (tree_red t ≡ false) ⊎ Inner c
      → Fine (bottom h) (locate compare n t c)
  unfolding locate
  Fine-locate h leaf c e f b = Fine-bottom h c e f
  Fine-locate (counted zero) (node false m t u) c r f b = absurd r
  Fine-locate (counted (suc h)) (node false m t u) c (rt, ru) f b =
      elim (Bool-cases (compare n m)) [
        | inl e ↦ rw e (Fine-locate (counted h) t (under left false m u c) rt (ru, f) (inr tt))
        | inr e ↦ rw e (Fine-locate (counted h) u (under right false m t c) ru (rt, f) (inr tt))
      ]
  Fine-locate uncounted (node false m t u) c (rt, ru) f b = elim (Bool-cases (compare n m)) [
    | inl e ↦ rw e (Fine-locate uncounted t (under left false m u c) rt (ru, f) (inr tt))
    | inr e ↦ rw e (Fine-locate uncounted u (under right false m t c) ru (rt, f) (inr tt))
  ]
  Fine-locate h (node true m t u) top r f b = absurd (not_red b)
  Fine-locate h (node true m t u) (under d true p w c) r f b = absurd (not_red b)
  Fine-locate h (node true m t u) (under d false p w c) ((rt, bt), (ru, bu)) f b =
      elim (Bool-cases (compare n m)) [
        | inl e ↦
            rw e (
              Fine-locate h t (under left true m u (under d false p w c)) rt ((ru, bu), f) (inl bt))
        | inr e ↦
            rw e (
              Fine-locate h u (under right true m t (under d false p w c)) ru ((rt, bt), f)
                (inl bu))
      ]

  depth-locate : (t : Tree) (c : Place) → depth (locate compare n t c) ≤ size t + depth c
  unfolding locate depth size
  depth-locate leaf c = omega arith
  depth-locate (node k m t u) c = elim (Bool-cases (compare n m)) [
    | inl e ↦ rw e (omega (arith, depth-locate t (under left k m u c)))
    | inr e ↦ rw e (omega (arith, depth-locate u (under right k m t c)))
  ]

pub cons_in : (xs : List ℕ) (n : ℕ) (ys : List ℕ) → [] ≢ xs ++ n ∷ ys
cons_in [] n ys e = nil≢cons e
cons_in (x ∷ xs) n ys e = nil≢cons e

-- The end of `fixViolation`.
pub fix_violation-end :
    (h : Height) (fuel : ℕ) (n : ℕ) (s s' : Nodes) (t : Tree) (zs : List ℕ)
    → fix_loop fuel n s ≡ done (tt, s')
    → At s' top t
    → inorder t ≡ zs
    → t ≢ leaf
    → Stands h t
    → (s'' : Nodes) × (t' : Tree) × (fix_violation fuel n s ≡ done (tt, s''))
      × At s'' top t'
      × (Stands h t' × (tree_red t' ≡ false))
      × (inorder t' ≡ zs)
unfolding fix_violation get_root set_red
fix_violation-end h fuel n s s' leaf zs run at e z r = absurd (z refl)
fix_violation-end h fuel n s s' (node k m t u) zs run at e z r = (
  painted m false s',
  node false m t u,
  rw run (ap (λ (q : ℕ). set_red q false s') at.around ∙ rw (==_ne m null at.holds.0.0) refl),
  At-paint s' top left k m t u at false,
  (Stands-paint h k m t u r, refl),
  e,
)

-- The same with heights that may not be counted.
pub insert-Stands :
    (h : Height) (compare : ℕ → ℕ → Bool) (n : ℕ) (s : Nodes) (t : Tree) (xs ys : List ℕ) (fuel : ℕ)
    → At s top t
    → RedBlack h t
    → tree_red t ≡ false
    → n ≢ null
    → count n t ≡ 0
    → inorder t ≡ xs ++ ys
    → All (λ x. compare n x ≡ false) xs
    → All (λ y. compare n y ≡ true) ys
    → size t < fuel
    → (s' : Nodes) × (t' : Tree) × (insert compare fuel n s ≡ done (tt, s'))
      × At s' top t'
      × (Stands h t' × (tree_red t' ≡ false))
      × (inorder t' ≡ xs ++ n ∷ ys)
      × (s'.in_tree ≡ update s.in_tree n true)
unfolding insert depth
insert-Stands h compare n s t xs ys fuel at r b nn new e hx hy l =
    let c = locate compare n t top in
    let s1 = put c n (linked compare n nn s t at new) in
    let fixed =
      fix_loop-Fixed fuel s1 c left (bottom h) n leaf leaf (placed-At compare n nn s t at new)
        (RedBlack-bottom h, refl) (RedBlack-bottom h, refl)
        (Fine-locate compare n h t top r tt (inl b))
        (omega (arith, l, depth-locate compare n t top)) in
    let (s', t', run, at', fine, order) =
      fix_violation-end h fuel n s1 fixed.s' fixed.t (xs ++ n ∷ ys) fixed.runs fixed.at
        (fixed.order ∙ inorder-locate compare n t xs ys e hx hy)
        (λ z.
          cons_in xs n ys
            (ap inorder (sym z) ∙ fixed.order ∙ inorder-locate compare n t xs ys e hx hy))
        (Stands-bottom h fixed.t fixed.fine) in
    (
      s',
      t',
      rw (placed-run compare n nn s t at new fuel l) run,
      at',
      fine,
      order,
      Keeps-done (fix_violation fuel n) tt s1 s' (Keeps-fix_violation fuel n) run
          ∙ put-in_tree c n (linked compare n nn s t at new),
    )

-- `insert` of a node that is not null and not in the tree, into a memory that holds a red-black
-- tree with a black root, all of whose ways down have the same number of black nodes, with more
-- fuel than the tree has nodes, is defined and leaves such a tree. When the tree in order was `xs`
-- and then `ys`, where the node does not compare less than those of `xs` and does than those of
-- `ys`, the new tree in order is `xs`, the node, and `ys`. `rbTree` of the node is set, and that of
-- the others is as it was.
pub insert-RedBlack :
    (compare : ℕ → ℕ → Bool) (n : ℕ) (s : Nodes) (t : Tree) (h : ℕ) (xs ys : List ℕ) (fuel : ℕ)
    → At s top t
    → RedBlack (counted h) t
    → tree_red t ≡ false
    → n ≢ null
    → count n t ≡ 0
    → inorder t ≡ xs ++ ys
    → All (λ x. compare n x ≡ false) xs
    → All (λ y. compare n y ≡ true) ys
    → size t < fuel
    → (s' : Nodes) × (t' : Tree) × (insert compare fuel n s ≡ done (tt, s'))
      × At s' top t'
      × (((h' : ℕ) × RedBlack (counted h') t') × (tree_red t' ≡ false))
      × (inorder t' ≡ xs ++ n ∷ ys)
      × (s'.in_tree ≡ update s.in_tree n true)
insert-RedBlack compare n s t h xs ys fuel = insert-Stands (counted h) compare n s t xs ys fuel
