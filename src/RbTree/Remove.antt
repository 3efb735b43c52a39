-- ===== src/RbTree/Remove.antt =====
-- `doErase` of a node with at most one child, to the end. It keeps the order of the other nodes, and a
-- red node has no red child afterwards; the ways down may differ in their black nodes.
use mathlib.Core.Bool.{true≢false}
use mcoro.Prelude.{
  ℕ, zero, suc, ◌+◌, ◌≤◌, ◌<◌, ◌≡◌, ◌≢◌, refl, Bool, true, false, List, [], ◌∷◌, ◌++◌, arith, ap,
  sym, ◌∙◌, ==_ne, inl, inr, done, ◌⊎◌, append_assoc, ◌==◌, if◌then◌else◌, update,
}
use mcoro.RbTree.{Nodes, Side, left, right, null, violates, fix_loop}
use mcoro.RbTree.Tree.{
  Tree, leaf, node, mk, Place, top, under, plug, inorder, pointer, above, Around, At, size,
}
use mcoro.RbTree.Locate.{before, after, inorder-plug}
use mcoro.RbTree.Place.{At-up, At-plug}
use mcoro.RbTree.RedBlack.{
  tree_red, place_red, uncounted, RedBlack, Fine, tree_red-mk, RedBlack-plug,
}
use mcoro.RbTree.Paint.{At-full, At-red, violates-black, violates-under}
use mcoro.RbTree.Loop.{depth, fix_loop-Fixed}
use mcoro.RbTree.Balance.{cons_in, fix_violation-end}
use mcoro.RbTree.Detach.{At-unplug, ending, detached, loose, At-detached, erase-run}
use mcoro.RbTree.Erase.{erase}
use mcoro.RbTree.Turn.{put-in_tree}
use mcoro.RbTree.Linked.{Keeps-done, Keeps-ending}

-- Red-black with a black root, when heights are not counted.
abbrev pub Sound : Tree → Type 0
Sound t = RedBlack uncounted t × (tree_red t ≡ false)

black_parts :
    (d : Side) (n : ℕ) (t u : Tree)
    → RedBlack uncounted (mk d false n t u)
    → RedBlack uncounted t × RedBlack uncounted u
black_parts left n t u (rt, ru) = (rt, ru)
black_parts right n t u (ru, rt) = (rt, ru)

red_parts :
    (d : Side) (n : ℕ) (t u : Tree) → RedBlack uncounted (mk d true n t u) → Sound t × Sound u
red_parts left n t u (rt, ru) = (rt, ru)
red_parts right n t u (ru, rt) = (rt, ru)

not_both_red :
    (d : Side) (n : ℕ) (t u : Tree) → (tree_red (mk d true n t u) ≡ false) ⊎ (true ≡ false) → ⊥
not_both_red d n t u (inl e) = true≢false (sym (tree_red-mk d true n t u) ∙ e)
not_both_red d n t u (inr e) = true≢false e

-- What is around a place of a tree.
Fine-unplug :
    (c : Place) (t : Tree)
    → Sound (plug c t)
    → RedBlack uncounted t × ((tree_red t ≡ false) ⊎ (place_red c ≡ false)) × Fine uncounted c
Fine-unplug top t (r, b) = (r, inl b, tt)
Fine-unplug (under d false p u c) t h =
    let (r, b, f) = Fine-unplug c (mk d false p t u) h in
    let (rt, ru) = black_parts d p t u r in (rt, inr refl, (ru, f))
Fine-unplug (under d true p u top) t (r, b) =
    absurd (true≢false (sym (tree_red-mk d true p t u) ∙ b))
Fine-unplug (under d true p u (under e true g w c)) t h =
    let (r, b, f) = Fine-unplug (under e true g w c) (mk d true p t u) h in
    absurd (not_both_red d p t u b)
Fine-unplug (under d true p u (under e false g w c)) t h =
    let (r, b, f) = Fine-unplug (under e false g w c) (mk d true p t u) h in
    let ((rt, bt), (ru, bu)) = red_parts d p t u r in (rt, inl bt, ((ru, bu), f))

root_black :
    (c : Place) (t t' : Tree)
    → (tree_red t ≡ false → tree_red t' ≡ false)
    → tree_red (plug c t) ≡ false
    → tree_red (plug c t') ≡ false
root_black top t t' h b = h b
root_black (under d k p u c) t t' h b =
    root_black c (mk d k p t u) (mk d k p t' u)
      (λ e. tree_red-mk d k p t' u ∙ sym (tree_red-mk d k p t u) ∙ e) b

root_full : (s : Nodes) (c : Place) (y : ℕ) → y ≢ null → Around s c y → s.root ≢ null
root_full s top y h a = λ z. h (sym a ∙ z)
root_full s (under d k p u c) y h (pf, e, (hu, hc)) = root_full s c p pf.0 hc

pub depth-plug : (c : Place) (t : Tree) → depth c + size t ≤ size (plug c t)
unfolding depth size
depth-plug top t = omega arith
depth-plug (under left k p u c) t = omega (arith, depth-plug c (node k p t u))
depth-plug (under right k p u c) t = omega (arith, depth-plug c (node k p u t))

-- The memory after an erasure: a tree without the node.
pub record Erased (fuel : ℕ) (k : Bool) (a p : ℕ) (s : Nodes) (old : Tree) : Type 0 where
  pub s' : Nodes
  pub t : Tree
  pub runs : ending fuel k a p s ≡ done (tt, s')
  pub at : At s' top t
  pub sound : Sound t
  pub order : inorder t ≡ inorder old

-- `fixViolation`, when its loop does nothing.
stopped :
    (fuel n : ℕ) (s : Nodes)
    → violates n s ≡ done (false, s)
    → fix_loop (suc fuel) n s ≡ done (tt, s)
unfolding fix_loop
stopped fuel n s e = rw e refl

inorder_node : (d : Side) (k : Bool) (n : ℕ) (t u : Tree) → inorder (mk d k n t u) ≢ []
inorder_node left k n t u z = cons_in (inorder t) n (inorder u) (sym z)
inorder_node right k n t u z = cons_in (inorder u) n (inorder t) (sym z)

inorder_full : (c : Place) (t : Tree) → inorder t ≢ [] → inorder (plug c t) ≢ []
inorder_full top t h = h
inorder_full (under d k p u c) t h = inorder_full c (mk d k p t u) (inorder_node d k p t u)

-- The end, when `fixViolation` is called for `q`.
Erased-fix :
    (fuel a p q : ℕ) (s s' : Nodes) (t old : Tree)
    → s.root ≢ null
    → inorder old ≢ []
    → (if p == null then a else p) ≡ q
    → fix_loop fuel q s ≡ done (tt, s')
    → At s' top t
    → RedBlack uncounted t
    → inorder t ≡ inorder old
    → Erased fuel false a p s old
unfolding ending
Erased-fix fuel a p q s s' t old h h' e run at r o =
    let (s2, t2, run2, at2, sound2, order2) =
      fix_violation-end uncounted fuel q s s' t (inorder old) run at o
        (λ z. h' (sym o ∙ ap inorder z)) r in
    record {
      s' = s2;
      t = t2;
      runs = rw (==_ne s.root null h, e) run2;
      at = at2;
      sound = sound2;
      order = order2;
    }

-- A child takes the place of a black node.
Erased-child :
    (fuel a : ℕ) (s : Nodes) (c : Place) (k : Bool) (m : ℕ) (t u : Tree)
    → At s c (node k m t u)
    → RedBlack uncounted (node k m t u)
    → Fine uncounted c
    → depth c < fuel
    → Erased fuel false a m s (plug c (node k m t u))
Erased-child zero a s c k m t u at r f l = absurd (omega (arith, l))
Erased-child (suc fuel) a s c false m t u at r f l =
    let full = At-full s c left false m t u at in
    Erased-fix (suc fuel) a m m s s (plug c (node false m t u)) (plug c (node false m t u))
      (root_full s c m full at.around)
      (inorder_full c (node false m t u) (inorder_node left false m t u))
      (rw (==_ne m null full) refl)
      (stopped fuel m s (violates-black s m full (At-red s c left false m t u at)))
      (At-plug s c (node false m t u) at)
      (RedBlack-plug uncounted (node false m t u) c r f (inl refl)) refl
Erased-child (suc fuel) a s c true m t u at (rt, ru) f l =
    let full = At-full s c left true m t u at in
    let fixed = fix_loop-Fixed (suc fuel) s c left uncounted m t u at rt ru f l in
    Erased-fix (suc fuel) a m m s fixed.s' fixed.t (plug c (node true m t u))
      (root_full s c m full at.around)
      (inorder_full c (node true m t u) (inorder_node left true m t u))
      (rw (==_ne m null full) refl) fixed.runs fixed.at fixed.fine fixed.order

-- The parent of a black leaf.
violates-parent :
    (s : Nodes) (c : Place) (d : Side) (k : Bool) (p : ℕ) (t u : Tree)
    → At s c (mk d k p t u)
    → Fine uncounted (under d k p u c)
    → violates p s ≡ done (false, s)
violates-parent s c d false p t u at f =
    violates-black s p (At-full s c d false p t u at) (At-red s c d false p t u at)
violates-parent s top d true p t u at f = absurd f
violates-parent s (under e true g w c) d true p t u at f = absurd f
violates-parent s (under e false g w c) d true p t u at f =
    violates-under s e d false g w c p t u at

-- Nothing takes the place of a black node.
Erased-leaf :
    (fuel : ℕ) (s : Nodes) (c : Place)
    → At s c leaf
    → Fine uncounted c
    → depth c < fuel
    → Erased fuel false (above c) null s (plug c leaf)
unfolding ending
Erased-leaf zero s c at f l = absurd (omega (arith, l))
Erased-leaf (suc fuel) s top at f l = record {
  s' = s;
  t = leaf;
  runs = rw at.around refl;
  at = at;
  sound = (tt, refl);
  order = refl;
}
Erased-leaf (suc fuel) s (under d k p u c) at f l =
    let at_p = At-up s d k p u c leaf at in
    let full = At-full s c d k p leaf u at_p in
    Erased-fix (suc fuel) p null p s s (plug c (mk d k p leaf u)) (plug c (mk d k p leaf u))
      (root_full s c p full at.around.2.1)
      (inorder_full c (mk d k p leaf u) (inorder_node d k p leaf u)) refl
      (stopped fuel p s (violates-parent s c d k p leaf u at_p f))
      (At-plug s c (mk d k p leaf u) at_p)
      (RedBlack-plug uncounted leaf (under d k p u c) tt f (inl refl)) refl

-- The end of `doErase`, for what takes the place of a node of color `k`.
ending-Erased :
    (fuel : ℕ) (k : Bool) (s : Nodes) (c : Place) (d : Side) (n : ℕ) (x : Tree)
    → At s c x
    → Sound (plug c (mk d k n leaf x))
    → depth c < fuel
    → Erased fuel k (above c) (pointer x) s (plug c x)
unfolding ending
ending-Erased fuel true s c d n x at h l =
    let (r, b, f) = Fine-unplug c (mk d true n leaf x) h in
    let (rl, (rx, bx)) = red_parts d n leaf x r in
    record {
      s' = s;
      t = plug c x;
      runs = refl;
      at = At-plug s c x at;
      sound = (
        RedBlack-plug uncounted x c rx f (inl bx),
        root_black c (mk d true n leaf x) x (λ e. bx) h.1,
      );
      order = refl;
    }
ending-Erased fuel false s c d n leaf at h l =
    let (r, b, f) = Fine-unplug c (mk d false n leaf leaf) h in Erased-leaf fuel s c at f l
ending-Erased fuel false s c d n (node k m t u) at h l =
    let (r, b, f) = Fine-unplug c (mk d false n leaf (node k m t u)) h in
    let (rl, rx) = black_parts d n leaf (node k m t u) r in
    Erased-child fuel (above c) s c k m t u at rx f l

-- The nodes in order without one that has at most one child.
order_without :
    (c : Place) (d : Side) (k : Bool) (n : ℕ) (x : Tree)
    → (xs : List ℕ) × (ys : List ℕ) × (inorder (plug c (mk d k n leaf x)) ≡ xs ++ n ∷ ys)
      × (inorder (plug c x) ≡ xs ++ ys)
order_without c left k n x =
    (before c, inorder x ++ after c, inorder-plug c (node k n leaf x), inorder-plug c x)
order_without c right k n x = (
  before c ++ inorder x,
  after c,
  inorder-plug c (node k n x leaf)
      ∙ ap (λ (zs : List ℕ). before c ++ zs) (append_assoc (inorder x) (n ∷ []) (after c))
      ∙ sym (append_assoc (before c) (inorder x) (n ∷ after c)),
  inorder-plug c x ∙ sym (append_assoc (before c) (inorder x) (after c)),
)

pub erase-Erased :
    (s : Nodes) (c : Place) (d : Side) (k : Bool) (n : ℕ) (x : Tree) (fuel : ℕ)
    → At s top (plug c (mk d k n leaf x))
    → Sound (plug c (mk d k n leaf x))
    → depth c < fuel
    → (s' : Nodes) × (t' : Tree) × (erase fuel n s ≡ done (tt, s'))
      × At s' top t'
      × Sound t'
      × (inorder t' ≡ inorder (plug c x))
      × (s'.in_tree ≡ update s.in_tree n false)
erase-Erased s c d k n x fuel at h l =
    let at_c = At-unplug s c (mk d k n leaf x) at in
    let end =
      ending-Erased fuel k (detached s c d k n x at_c) c d n x (At-detached s c d k n x at_c) h l in
    (
      end.s',
      end.t,
      erase-run s c d k n x at_c fuel ∙ end.runs,
      end.at,
      end.sound,
      end.order,
      Keeps-done (ending fuel k (above c) (pointer x)) tt (detached s c d k n x at_c) end.s'
            (Keeps-ending fuel k (above c) (pointer x)) end.runs
          ∙ put-in_tree c (pointer x) (loose s c d k n x at_c),
    )

-- `erase` of a node with at most one child, anywhere in a tree that the memory holds, in which the
-- root is black and no red node has a red child, with more fuel than the tree has nodes: it is
-- defined, the memory holds a tree with a black root in which no red node has a red child, and this
-- has the other nodes in the order in which they were. `rbTree` of the node is null, and that of
-- the others is as it was.
pub erase-Sound :
    (s : Nodes) (c : Place) (d : Side) (k : Bool) (n : ℕ) (x : Tree) (fuel : ℕ)
    → At s top (plug c (mk d k n leaf x))
    → Sound (plug c (mk d k n leaf x))
    → size (plug c (mk d k n leaf x)) < fuel
    → (s' : Nodes) × (t' : Tree) × (xs : List ℕ) × (ys : List ℕ) × (erase fuel n s ≡ done (tt, s'))
      × At s' top t'
      × Sound t'
      × (inorder (plug c (mk d k n leaf x)) ≡ xs ++ n ∷ ys)
      × (inorder t' ≡ xs ++ ys)
      × (s'.in_tree ≡ update s.in_tree n false)
erase-Sound s c d k n x fuel at h l =
    let deep : depth c < fuel = omega (arith, l, depth-plug c (mk d k n leaf x)) in
    let (s', t', run, at', sound, order, linked) = erase-Erased s c d k n x fuel at h deep in
    let (xs, ys, e, f) = order_without c d k n x in
    (s', t', xs, ys, run, at', sound, e, order ∙ f, linked)
