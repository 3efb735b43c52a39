-- ===== src/RbTree/Place.antt =====
-- A new node at its place in the memory.
use mcoro.Prelude.{
  ℕ, zero, suc, ◌+◌, ◌≤◌, ◌<◌, ◌≡◌, ◌≢◌, refl, Bool, true, false, List, ◌∷◌, ◌++◌, ◌==◌, arith, ap,
  sym, ◌∙◌, All, ==_ne, Bool-cases, inl, inr, ◌⊎◌, done, update, update-same, update-other, subst,
}
use mcoro.RbTree.{
  Nodes, Side, left, right, null, update_child, get_child, get_root, set_child, set_parent,
  set_root, set_red, set_in_tree,
}
use mcoro.RbTree.Tree.{
  Tree, leaf, node, mk, Place, top, under, plug, inorder, pointer, above, one, one-eq, count,
  count_around, Holds, Around, At, Same, Holds-frame, Around-frame, Holds-mk, count-mk, pointer-mk,
  size, update_child-hit, update_child-other, update_child-miss,
}
use mcoro.RbTree.Turn.{put, put-parent, put-red}
use mcoro.RbTree.Insert.{side, descend, hang, fresh, place_node}
use mcoro.RbTree.Locate.{locate, inorder-locate}

-- The focus goes up by one node, and to the top.
pub At-up :
    (s : Nodes) (d : Side) (k : Bool) (n : ℕ) (u : Tree) (c : Place) (t : Tree)
    → At s (under d k n u c) t
    → At s c (mk d k n t u)
unfolding count_around
At-up s d k n u c t at =
    let (nf, (ec, eu), (hu, hc)) = at.around in
    record {
      holds = (Holds-mk s (above c) d k n t u).1 (nf, (ec, eu), (at.holds, hu));
      around = subst (Around s c) (sym (pointer-mk d k n t u)) hc;
      once = λ y. omega (arith, at.once y, count-mk y d k n t u);
    }

pub At-plug : (s : Nodes) (c : Place) (t : Tree) → At s c t → At s top (plug c t)
At-plug s top t at = at
At-plug s (under d k n u c) t at = At-plug s c (mk d k n t u) (At-up s d k n u c t at)

-- The focus goes down.
pub At-down :
    (s : Nodes) (d : Side) (k : Bool) (n : ℕ) (t u : Tree) (c : Place)
    → At s c (mk d k n t u)
    → At s (under d k n u c) t
unfolding count_around
At-down s d k n t u c at =
    let (nf, (ec, eu), (ht, hu)) = (Holds-mk s (above c) d k n t u).0 at.holds in
    record {
      holds = ht;
      around = (nf, (ec, eu), (hu, subst (Around s c) (pointer-mk d k n t u) at.around));
      once = λ y. omega (arith, at.once y, count-mk y d k n t u);
    }

module _ (compare : ℕ → ℕ → Bool) (n : ℕ) where
  At-locate : (s : Nodes) (t : Tree) (c : Place) → At s c t → At s (locate compare n t c) leaf
  unfolding locate
  At-locate s leaf c at = at
  At-locate s (node k m t u) c at = elim (Bool-cases (compare n m)) [
    | inl e ↦ rw e (At-locate s t (under left k m u c) (At-down s left k m t u c at))
    | inr e ↦ rw e (At-locate s u (under right k m t c) (At-down s right k m u t c at))
  ]

  -- The place is on the side of its parent where `n` belongs.
  abbrev Fits : Place → Type 0
  Fits top = Unit {0}
  Fits (under d k p u c) = (p ≢ null) × (side compare n p ≡ d)

  Fits-locate :
      (s : Nodes) (q : ℕ) (t : Tree) (c : Place)
      → Holds s q t
      → Fits c
      → Fits (locate compare n t c)
  unfolding locate
  Fits-locate s q leaf c h f = f
  Fits-locate s q (node k m t u) c ((mn, mp, mk'), e, (ht, hu)) f =
      elim (Bool-cases (compare n m)) [
        | inl e ↦ rw e (Fits-locate s m t (under left k m u c) ht (mn, rw e refl))
        | inr e ↦ rw e (Fits-locate s m u (under right k m t c) hu (mn, rw e refl))
      ]

  descend-locate :
      (s : Nodes) (t : Tree) (c : Place) (fuel : ℕ)
      → Holds s (above c) t
      → size t < fuel
      → descend compare fuel n (above c) (pointer t) s ≡ done (above (locate compare n t c), s)
  unfolding descend locate size get_child
  descend-locate s t c zero h l = absurd (omega (arith, l))
  descend-locate s leaf c (suc fuel) h l = refl
  descend-locate s (node k m t u) c (suc fuel) ((mn, mp, mk'), (el, er), (ht, hu)) l =
      elim (Bool-cases (compare n m)) [
        | inl e ↦
            rw (==_ne m null mn, e, ==_ne m null mn, el)
              (descend-locate s t (under left k m u c) fuel ht (omega (arith, l)))
        | inr e ↦
            rw (==_ne m null mn, e, ==_ne m null mn, er)
              (descend-locate s u (under right k m t c) fuel hu (omega (arith, l)))
      ]

  hang-put : (s : Nodes) (c : Place) → Fits c → hang compare n (above c) s ≡ done (tt, put c n s)
  unfolding hang set_root set_child
  hang-put s top f = refl
  hang-put s (under d k p u c) (pn, e) = rw (==_ne p null pn, e, ==_ne p null pn) refl

-- What is around a place below which the memory changes the pointer.
pub Around-put :
    (s : Nodes) (c : Place) (x n : ℕ)
    → ((y : ℕ) → count_around y c ≤ 1)
    → Around s c x
    → Around (put c n s) c n
unfolding count_around
Around-put s top x n l h = refl
Around-put s (under d k p u c) x n l ((pf, pp, pr), (ec, eu), (hu, hc)) =
    let kept : (y : ℕ) → 0 < count y u + count_around y c → Same s (put (under d k p u c) n s) y =
      λ y h. record {
        child = λ e.
            update_child-miss s.child p n d e y (λ g. omega (arith, l y, h, one-eq y p (sym g)));
        parent = refl;
        red = refl;
      } in
    (
      (pf, pp, pr),
      (update_child-hit s.child p n d, update_child-other s.child p n d p ∙ eu),
      (
        Holds-frame s (put (under d k p u c) n s) p u (λ y h. kept y (omega (arith, h))) hu,
        Around-frame s (put (under d k p u c) n s) c p (λ y h. kept y (omega (arith, h))) refl hc,
      ),
    )

pub put-miss :
    (c : Place) (m : ℕ) (s : Nodes) (e : Side) (y : ℕ)
    → count_around y c ≡ 0
    → (put c m s).child e y ≡ s.child e y
unfolding count_around
put-miss top m s e y h = refl
put-miss (under d k p u c) m s e y h =
    update_child-miss s.child p m d e y (λ g. omega (arith, h, one-eq y p (sym g)))

one-cases : (y n : ℕ) → (one y n ≡ 0) ⊎ (y ≡ n)
one-cases y n = elim (Bool-cases (y == n)) [
  | inl e ↦ inr (ground (arith, e))
  | inr e ↦ inl (rw e refl)
]

module _ (compare : ℕ → ℕ → Bool) (n : ℕ) where
  count-locate :
      (y : ℕ) (t : Tree) (c : Place)
      → count_around y (locate compare n t c) ≡ count y t + count_around y c
  unfolding locate count count_around
  count-locate y leaf c = omega arith
  count-locate y (node k m t u) c = elim (Bool-cases (compare n m)) [
    | inl e ↦ rw e (count-locate y t (under left k m u c) ∙ omega arith)
    | inr e ↦ rw e (count-locate y u (under right k m t c) ∙ omega arith)
  ]

module _ (compare : ℕ → ℕ → Bool) (n : ℕ) (nn : n ≢ null) (s : Nodes) (t : Tree) (at : At s top t)
    (new : count n t ≡ 0) where
  abbrev c : Place
  c = locate compare n t top

  abbrev pub started : Nodes
  started = record s {
    child = update_child (update_child s.child left n null) right n null;
    in_tree = update s.in_tree n true;
    red = update s.red n true;
  }

  abbrev pub linked : Nodes
  linked = record started { parent = update s.parent n (above c) }

  n_off : count_around n c ≡ 0
  unfolding count_around
  n_off = count-locate compare n n t top ∙ omega (arith, new)

  Same-started : (y : ℕ) → n ≢ y → Same s started y
  Same-started y h = record {
    child = λ e.
        update_child-miss (update_child s.child left n null) n null right e y h
        ∙ update_child-miss s.child n null left e y h;
    parent = refl;
    red = update-other s.red n y true h;
  }

  Same-linked : (y : ℕ) → n ≢ y → Same s linked y
  Same-linked y h =
      let same_started = Same-started y h in
      record {
        child = same_started.child;
        parent = update-other s.parent n y (above c) h;
        red = same_started.red;
      }

  At-c : At s c leaf
  At-c = At-locate compare n s t top at

  once_c : (y : ℕ) → count_around y c ≤ 1
  unfolding count
  once_c y = omega (arith, At-c.once y)

  pub placed-At : At (put c n linked) c (node true n leaf leaf)
  unfolding count
  placed-At = record {
    holds = (
      (
        nn,
        put-parent c n linked n ∙ update-same s.parent n (above c),
        put-red c n linked n ∙ update-same s.red n true,
      ),
      (
        put-miss c n linked left n n_off ∙ update_child-hit s.child n null left,
        put-miss c n linked right n n_off
            ∙ update_child-hit (update_child s.child left n null) n null right,
      ),
      (tt, tt),
    );
    around = Around-put linked c null n once_c (
        Around-frame s linked c null
          (λ y h. Same-linked y (λ g. omega (arith, h, n_off, ap (λ z. count_around z c) g))) refl
          At-c.around);
    once = λ y. elim (one-cases y n) [
      | inl e ↦ omega (arith, e, once_c y)
      | inr e ↦ omega (arith, n_off, ap (λ z. count_around z c) e, one-eq y n e)
    ];
  }

  pub placed-run :
      (fuel : ℕ) → size t < fuel → place_node compare fuel n s ≡ done (tt, put c n linked)
  unfolding place_node fresh set_child set_in_tree set_red get_root set_parent count_around
  placed-run fuel l =
      let held =
        Holds-frame s started null t
          (λ y h. Same-started y (λ g. omega (arith, h, new, ap (λ z. count z t) g))) at.holds in
      rw
        (
          ==_ne n null nn,
          ap (λ (q : ℕ). descend compare fuel n null q started) at.around
              ∙ descend-locate compare n started t top fuel held l,
          hang-put compare n linked c (Fits-locate compare n s null t top at.holds tt),
        )
        refl

-- `doInsert` up to `fixViolation`, of a node that is not null and not in the tree, with more fuel
-- than the tree has nodes: when the tree in order is `xs` and then `ys`, where the node does not
-- compare less than those of `xs` and does than those of `ys`, the memory holds a tree that has the
-- node between them.
pub place_node-At :
    (compare : ℕ → ℕ → Bool) (n : ℕ) (s : Nodes) (t : Tree) (xs ys : List ℕ) (fuel : ℕ)
    → At s top t
    → n ≢ null
    → count n t ≡ 0
    → inorder t ≡ xs ++ ys
    → All (λ x. compare n x ≡ false) xs
    → All (λ y. compare n y ≡ true) ys
    → size t < fuel
    → (s' : Nodes) × (t' : Tree) × (place_node compare fuel n s ≡ done (tt, s'))
      × At s' top t'
      × (inorder t' ≡ xs ++ n ∷ ys)
place_node-At compare n s t xs ys fuel at nn new e hx hy l =
    let c = locate compare n t top in
    let s' = put c n (linked compare n nn s t at new) in
    (
      s',
      plug c (node true n leaf leaf),
      placed-run compare n nn s t at new fuel l,
      At-plug s' c (node true n leaf leaf) (placed-At compare n nn s t at new),
      inorder-locate compare n t xs ys e hx hy,
    )
