-- ===== src/RbTree/Root.antt =====
-- What `doErase` does to the root of a tree.
use mcoro.Prelude.{
  ℕ, zero, suc, ◌≡◌, ◌≢◌, refl, Bool, true, false, ◌==◌, arith, ap, sym, ◌∙◌, if◌then◌else◌, not,
  ◌&&◌, ==_ne, ==_self, done, update, update-same, update-other, Cmd, ◌<◌, ◌≤◌, ◌+◌, ◌>>=◌, return,
}
use mcoro.RbTree.{
  Nodes, Side, left, right, null, get_child, get_parent, get_red, get_root, set_child, set_parent,
  set_in_tree, set_root, update_child, fix_violation, fix_loop, violates, set_red,
}
use mcoro.RbTree.Tree.{
  Tree, leaf, node, top, pointer, At, count, one, one_self, one-eq, Holds, Same, Holds-frame,
  inorder, pointer-count, update_child-miss,
}
use mcoro.RbTree.Turn.{adopted, adopt-run, adopted-miss, adopted-hit}
use mcoro.RbTree.Visit.{furthest}
use mcoro.RbTree.Erase.{relink, unhook, substitute, cut, erase, erase_inner}

-- A pass of the loop of `fixViolation` at the root.
fix_violation-root :
    (fuel : ℕ) (s : Nodes)
    → s.root ≢ null
    → fix_violation (suc fuel) s.root s ≡ done (tt, record s { red = update s.red s.root false })
unfolding fix_violation fix_loop violates get_root set_red
fix_violation-root fuel s h = rw (==_self s.root, ==_ne s.root null h) refl

pub relink-root :
    (n x : ℕ) (s : Nodes) → s.root ≡ n → relink n x s ≡ done (tt, record s { root = x })
unfolding relink get_root set_root
relink-root n x s r =
    ap (λ (b : Bool). (if b then set_root x else rest) s) (ap (λ q. n == q) r ∙ ==_self n)
  where
    rest : Cmd Nodes (Unit {0})
    rest = get_parent n >>= λ above.
        get_child left above >>= λ first. set_child (if first == n then left else right) above x

-- The memory that the end of `doErase` leaves when `node` is the root, up to colors.
abbrev RootCut : ℕ → ℕ → Nodes → Nodes → Type 0
RootCut n x s s' =
    (s'.root ≡ x)
    × (s'.child ≡ s.child)
    × (s'.parent ≡ adopted x (s.parent n) s.parent)
    × ((y : ℕ) → x ≢ y → s'.red y ≡ s.red y)

-- The end of `doErase` when `node` is the root.
cut-root :
    (fuel n x : ℕ) (c : Bool) (s : Nodes)
    → n ≢ null
    → s.root ≡ n
    → (s' : Nodes) × (cut (suc fuel) n c x s ≡ done (tt, s')) × RootCut n x s s'
unfolding cut get_parent get_root
cut-root fuel n x c s h r =
    let s1 : Nodes = record s { parent = adopted x (s.parent n) s.parent } in
    let s2 : Nodes = record s1 { root = x } in
    let (s', e, rooted, children, parents, reds) = ending x c s2 refl in
    (
      s',
      rw (==_ne n null h, adopt-run x (s.parent n) s, relink-root n x s1 r) e,
      (rooted, children, parents, reds),
    )
  where
    ending :
        (x : ℕ) (c : Bool) (t : Nodes)
        → t.root ≡ x
        → (s' : Nodes) × ((if not c && not (x == null)
                then fix_violation (suc fuel) (if x == null then t.parent n else x)
                else return tt)
              t
            ≡ done (tt, s'))
          × (s'.root ≡ x)
          × (s'.child ≡ t.child)
          × (s'.parent ≡ t.parent)
          × ((y : ℕ) → x ≢ y → s'.red y ≡ t.red y)
    ending zero true t e = (t, refl, e, refl, refl, λ y h. refl)
    ending zero false t e = (t, refl, e, refl, refl, λ y h. refl)
    ending (suc x) true t e = (t, refl, e, refl, refl, λ y h. refl)
    ending (suc x) false t e = (
      record t { red = update t.red t.root false },
      rw (==_ne (suc x) null (λ g. omega (arith, g))) (
          ap (λ (q : ℕ). fix_violation (suc fuel) q t) (sym e)
          ∙ fix_violation-root fuel t (λ g. omega (arith, g, e))),
      e,
      refl,
      refl,
      λ y h. update-other t.red t.root y false (λ g. h (sym e ∙ g)),
    )

-- The memory after the branch for two children.
abbrev substituted : Nodes → ℕ → ℕ → ℕ → Nodes
substituted s n m q = record s {
  child = update_child s.child left m q;
  parent = update (update s.parent m n) q m;
  root = m;
}

-- The branch for two children, when the right one has no left child.
substitute-root :
    (fuel n m q : ℕ) (s : Nodes)
    → n ≢ null
    → m ≢ null
    → q ≢ null
    → n ≢ m
    → s.root ≡ n
    → s.child left n ≡ q
    → s.child right n ≡ m
    → s.child left m ≡ null
    → s.parent m ≡ n
    → substitute (suc fuel) n s ≡ done (m, substituted s n m q)
unfolding substitute get_child unhook get_parent set_parent set_child furthest
substitute-root fuel n m q s nn mn qn nm r el er ml mp =
    let s1 : Nodes = record s { parent = update s.parent m n } in
    rw
      (
        ==_ne n null nn,
        er,
        ==_ne m null mn,
        ml,
        ==_ne m null mn,
        mp,
        ==_self n,
        ==_ne m null mn,
        relink-root n m s1 r,
        el,
        ==_ne m n (λ g. nm (sym g)),
        ==_ne q null qn,
      )
      refl

-- The tree with another color of its root.
abbrev repaint : (ℕ → Bool) → Tree → Tree
repaint red leaf = leaf
repaint red (node k n t u) = node (red n) n t u

repaint-pointer : (red : ℕ → Bool) (u : Tree) → pointer u ≡ pointer (repaint red u)
repaint-pointer red leaf = refl
repaint-pointer red (node k n t u) = refl

repaint-inorder : (red : ℕ → Bool) (u : Tree) → inorder (repaint red u) ≡ inorder u
repaint-inorder red leaf = refl
repaint-inorder red (node k n t u) = refl

repaint-count : (red : ℕ → Bool) (u : Tree) (y : ℕ) → count y (repaint red u) ≡ count y u
unfolding count
repaint-count red leaf y = refl
repaint-count red (node k n t u) y = refl

-- The memory holds a tree below a new parent, with another color of its root.
Holds-repaint :
    (s s' : Nodes) (m p : ℕ) (u : Tree)
    → ((y : ℕ)
        → 0 < count y u
        → ((e : Side) → s'.child e y ≡ s.child e y)
          × (s'.parent y ≡ adopted (pointer u) p s.parent y)
          × (pointer u ≢ y → s'.red y ≡ s.red y))
    → ((y : ℕ) → count y u ≤ 1)
    → Holds s m u
    → Holds s' p (repaint s'.red u)
unfolding count
Holds-repaint s s' m p leaf kept once h = tt
Holds-repaint s s' m p (node k n a b) kept once ((nn, np, nk), (el, er), (ha, hb)) =
    let (at_c, at_p, at_r) = kept n (omega (arith, one_self n)) in
    let below : (y : ℕ) → 0 < count y a + count y b → Same s s' y = λ y h.
      let (kc, kp, kr) = kept y (omega (arith, h)) in
      let apart : n ≢ y = λ g. omega (arith, h, once y, one-eq y n (sym g)) in
      record {
        child = kc;
        parent = kp ∙ adopted-miss n p s.parent y (λ z. apart);
        red = kr apart;
      } in
    (
      (nn, at_p ∙ adopted-hit n p s.parent n nn refl, refl),
      (at_c left ∙ el, at_c right ∙ er),
      (
        Holds-frame s s' n a (λ y h. below y (omega (arith, h))) ha,
        Holds-frame s s' n b (λ y h. below y (omega (arith, h))) hb,
      ),
    )

-- The substitute and its right subtree, when the substitute has taken the left child `q`.
substituted-Holds :
    (s : Nodes) (n m q : ℕ) (u : Tree)
    → q ≢ m
    → ((y : ℕ) → 0 < count y u → (m ≢ y) × (q ≢ y))
    → Holds s m u
    → (update (update s.parent m n) q m m ≡ n) × Holds (substituted s n m q) m u
substituted-Holds s n m q u q_ne_m off hu = (
  update-other (update s.parent m n) q m m q_ne_m ∙ update-same s.parent m n,
  Holds-frame s (substituted s n m q) m u
      (λ y i. record {
        child = λ d. update_child-miss s.child m q left d y (off y i).0;
        parent =
            update-other (update s.parent m n) q y m (off y i).1
            ∙ update-other s.parent m y n (off y i).0;
        red = refl;
      })
      hu,
)

-- `erase` of the root of a tree with a left subtree, whose right child has no left child, is
-- defined. Afterwards the tree at the root holds the nodes of the right subtree of the right child,
-- in their order and no others: neither the right child nor a node of the left subtree is in it.
-- The parent pointer of its root, when it has one, is the node that was erased.
pub erase-root :
    (s : Nodes) (k k' : Bool) (n m : ℕ) (t u : Tree) (fuel : ℕ)
    → At s top (node k n t (node k' m leaf u))
    → pointer t ≢ null
    → (s' : Nodes) × (u' : Tree) × (erase (suc fuel) n s ≡ done (tt, s'))
      × (s'.root ≡ pointer u')
      × Holds s' n u'
      × (inorder u' ≡ inorder u)
      × ((y : ℕ) → 0 < one y m + count y t → count y u' ≡ 0)
unfolding erase erase_inner set_in_tree get_child get_red count
erase-root s k k' n m t u fuel at ht =
    let ((nn, np, nk), (el, er), (h, ((mn, mp, mk), (ml, mr), (w, hu)))) = at.holds in
    let n_ne_m : n ≢ m = λ g. omega (arith, at.once n, one_self n, one-eq n m g) in
    let s0 : Nodes = record s { in_tree = update s.in_tree n false } in
    let s1 : Nodes = substituted s0 n m (pointer t) in
    let (s', e, (rooted, child_is, parent_is, red_is)) =
      cut-root fuel m (pointer u) k' s1 mn refl in
    let (m_above, held) =
      substituted-Holds s0 n m (pointer t) u
        (λ g. omega (arith, at.once (pointer t), pointer-count t ht, one-eq (pointer t) m g))
        (λ y i. (
          λ g. omega (arith, at.once y, i, one-eq y m (sym g)),
          λ g. omega (arith, at.once y, i, pointer-count t ht, ap (λ (q : ℕ). count q t) g),
        ))
        hu in
    let held' : Holds s' n (repaint s'.red u) =
      Holds-repaint s1 s' m n u
        (λ y i. (
          λ d. ap (λ (f : Side → ℕ → ℕ). f d y) child_is,
          ap (λ (f : ℕ → ℕ). f y) parent_is
              ∙ ap (λ (q : ℕ). adopted (pointer u) q s1.parent y) m_above,
          red_is y,
        ))
        (λ y. omega (arith, at.once y)) held in
    let run : erase (suc fuel) n s ≡ done (tt, s') =
      rw
        (
          ==_ne n null nn,
          el,
          er,
          ==_ne (pointer t) null ht,
          ==_ne m null mn,
          substitute-root fuel n m (pointer t) s0 nn mn ht n_ne_m at.around el er ml mp,
          mk,
          ==_ne m null mn,
          mr,
        )
        e in
    (
      s',
      repaint s'.red u,
      run,
      rooted ∙ repaint-pointer s'.red u,
      held',
      repaint-inorder s'.red u,
      λ y i. omega (arith, at.once y, i, repaint-count s'.red u y),
    )
