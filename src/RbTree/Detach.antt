-- ===== src/RbTree/Detach.antt =====
-- `doErase` of a node with at most one child, up to `fixViolation`.
use mcoro.Prelude.{
  ℕ, ◌+◌, ◌≤◌, ◌<◌, ◌≡◌, ◌≢◌, refl, Bool, false, arith, ap, sym, ◌∙◌, ==_ne, ==_self, Bool-cases,
  inl, inr, done, update, subst, ◌==◌, if◌then◌else◌, not, ◌&&◌, Cmd, return,
}
use mcoro.RbTree.{
  Nodes, Side, left, right, other, null, get_child, get_parent, get_red, get_root, set_child,
  set_in_tree, fix_violation,
}
use mcoro.RbTree.Tree.{
  Tree, leaf, node, mk, Place, top, under, plug, pointer, above, one, one_self, one-eq, count,
  count_around, Holds, Around, At, Same, Holds-frame, Around-frame, Holds-mk, count-mk, pointer-mk,
  pointer-count,
}
use mcoro.RbTree.Turn.{
  adopted, adopt-run, adopted-miss, adopted-hit, put, put-parent, put-red, Apart,
}
use mcoro.RbTree.Place.{At-down, Around-put, put-miss}
use mcoro.RbTree.Paint.{At-full, At-parent, At-red, At-child, At-other, root-Around}
use mcoro.RbTree.Root.{relink-root}
use mcoro.RbTree.Erase.{relink, only_child, cut, erase, erase_outer}

pub At-unplug : (s : Nodes) (c : Place) (t : Tree) → At s top (plug c t) → At s c t
At-unplug s top t at = at
At-unplug s (under d k n u c) t at = At-down s d k n t u c (At-unplug s c (mk d k n t u) at)

-- What `doErase` does with the color of the node, when all pointers are stored.
unfoldable pub ending : ℕ → Bool → ℕ → ℕ → Cmd Nodes (Unit {0})
ending fuel k above' child s =
    (if not k && not (s.root == null)
        then fix_violation fuel (if child == null then above' else child)
        else return tt)
      s

relink-run :
    (c : Place) (n m : ℕ) (s : Nodes)
    → n ≢ null
    → Around s c n
    → Apart n c
    → count_around n c ≡ 0
    → s.parent n ≡ above c
    → relink n m s ≡ done (tt, put c m s)
unfolding relink get_root get_parent get_child set_child
relink-run top n m s nn a ne off ep = relink-root n m s a
relink-run (under left k p u c) n m s nn a ne off ep =
    let n_ne_root : n ≢ s.root = λ z. omega (
      arith,
      off,
      ap (λ (q : ℕ). count_around q (under left k p u c)) z,
      root-Around s left k p u c n a,
    ) in
    let ((np, b, b'), (e, f), g) = a in
    rw (==_ne n s.root n_ne_root, ==_ne n null nn, ep, ==_ne p null np, e, ==_self n) refl
relink-run (under right k p u c) n m s nn a ne off ep =
    let n_ne_root : n ≢ s.root = λ z. omega (
      arith,
      off,
      ap (λ (q : ℕ). count_around q (under right k p u c)) z,
      root-Around s right k p u c n a,
    ) in
    let ((np, b, b'), (e, f), g) = a in
    rw
      (
        ==_ne n s.root n_ne_root,
        ==_ne n null nn,
        ep,
        ==_ne p null np,
        f,
        ==_ne (pointer u) n (λ z. ne (sym z)),
      )
      refl

Apart-off : (n : ℕ) (c : Place) → n ≢ null → count_around n c ≡ 0 → Apart n c
unfolding count_around
Apart-off n top nn off = tt
Apart-off n (under d k p u c) nn off =
    λ z. omega (arith, off, pointer-count u (λ y. nn (z ∙ y)), ap (λ (q : ℕ). count q u) z)

module _ (s : Nodes) (c : Place) (d : Side) (k : Bool) (n : ℕ) (x : Tree)
    (at : At s c (mk d k n leaf x)) where
  abbrev pub freed : Nodes
  freed = record s { in_tree = update s.in_tree n false }

  abbrev pub loose : Nodes
  loose = record freed { parent = adopted (pointer x) (above c) s.parent }

  abbrev pub detached : Nodes
  detached = put c (pointer x) loose

  once_all : (y : ℕ) → one y n + count y x + count_around y c ≤ 1
  unfolding count
  once_all y = omega (arith, at.once y, count-mk y d k n leaf x)

  -- A node around the place, or `n`, is not the root of `x`.
  x_apart : (y : ℕ) → 0 < one y n + count_around y c → pointer x ≢ null → pointer x ≢ y
  x_apart y h nx z = omega (arith, h, once_all y, pointer-count x nx, ap (λ (q : ℕ). count q x) z)

  Around-loose : Around loose c n
  Around-loose =
      Around-frame s loose c n
        (λ y h. record {
          child = λ e. refl;
          parent = adopted-miss (pointer x) (above c) s.parent y (x_apart y (omega (arith, h)));
          red = refl;
        })
        refl (subst (Around s c) (pointer-mk d k n leaf x) at.around)

  Around-detached : Around detached c (pointer x)
  Around-detached = Around-put loose c n (pointer x) (λ y. omega (arith, once_all y)) Around-loose

Holds-detached :
    (s : Nodes) (c : Place) (n : ℕ) (x : Tree) (f : ℕ → Bool)
    → ((y : ℕ) → count y x + count_around y c ≤ 1)
    → Holds s n x
    → Holds
        (put c
          (pointer x)
          (record s { in_tree = f; parent = adopted (pointer x) (above c) s.parent }))
        (above c)
        x
unfolding count
Holds-detached s c n leaf f l h = tt
Holds-detached s c n (node k m a b) f l ((mf, mp, mr), (ea, eb), (ha, hb)) =
    let t = record s { in_tree = f; parent = adopted m (above c) s.parent } in
    let off : (y : ℕ) → 0 < count y (node k m a b) → count_around y c ≡ 0 =
      λ y h. omega (arith, h, l y) in
    let kept : (y : ℕ) → 0 < count y a + count y b → Same s (put c m t) y = λ y h. record {
      child = λ e. put-miss c m t e y (off y (omega (arith, h)));
      parent =
          put-parent c m t y
          ∙ adopted-miss m (above c) s.parent y
              (λ mf' z. omega (arith, h, l y, one-eq y m (sym z)));
      red = put-red c m t y;
    } in
    let m_off = off m (omega (arith, one_self m)) in
    (
      (mf, put-parent c m t m ∙ adopted-hit m (above c) s.parent m mf refl, put-red c m t m ∙ mr),
      (put-miss c m t left m m_off ∙ ea, put-miss c m t right m m_off ∙ eb),
      (
        Holds-frame s (put c m t) m a (λ y h. kept y (omega (arith, h))) ha,
        Holds-frame s (put c m t) m b (λ y h. kept y (omega (arith, h))) hb,
      ),
    )

module _ (s : Nodes) (c : Place) (d : Side) (k : Bool) (n : ℕ) (x : Tree)
    (at : At s c (mk d k n leaf x)) where
  pub At-detached : At (detached s c d k n x at) c x
  At-detached = record {
    holds =
        Holds-detached s c n x (update s.in_tree n false)
          (λ y. omega (arith, once_all s c d k n x at y))
          ((Holds-mk s (above c) d k n leaf x).0 at.holds).2.1;
    around = Around-detached s c d k n x at;
    once = λ y. omega (arith, once_all s c d k n x at y);
  }

  cut-run :
      (fuel : ℕ)
      → cut fuel n k (pointer x) (freed s c d k n x at)
        ≡ ending fuel k (above c) (pointer x) (detached s c d k n x at)
  unfolding cut get_parent get_root ending
  cut-run fuel =
      let nn = At-full s c d k n leaf x at in
      let off : count_around n c ≡ 0 = omega (arith, once_all s c d k n x at n, one_self n) in
      let x_ne_n = x_apart s c d k n x at n (omega (arith, one_self n)) in
      let ep =
        adopted-miss (pointer x) (above c) s.parent n x_ne_n ∙ At-parent s c d k n leaf x at in
      rw
        (
          ==_ne n null nn,
          At-parent s c d k n leaf x at,
          adopt-run (pointer x) (above c) (freed s c d k n x at),
          relink-run c n (pointer x) (loose s c d k n x at) nn (Around-loose s c d k n x at)
              (Apart-off n c nn off) off ep,
          put-parent c (pointer x) (loose s c d k n x at) n ∙ ep,
        )
        refl

only_child-run :
    (d : Side) (n : ℕ) (x : Tree) (s : Nodes)
    → n ≢ null
    → s.child d n ≡ null
    → s.child (other d) n ≡ pointer x
    → only_child n s ≡ done (pointer x, s)
unfolding only_child get_child
only_child-run left n x s nn e f = rw (==_ne n null nn, e, ==_ne n null nn, f) refl
only_child-run right n x s nn e f = elim (Bool-cases (pointer x == null)) [
  | inl z ↦
      let empty : pointer x ≡ null = ground (arith, z) in
      rw (==_ne n null nn, f, z, ==_ne n null nn, e) (ap (λ q. done (q, s)) (sym empty))
  | inr z ↦ rw (==_ne n null nn, f, z) refl
]

one_child :
    (d : Side) (n : ℕ) (x : Tree) (s : Nodes)
    → s.child d n ≡ null
    → s.child (other d) n ≡ pointer x
    → (not (s.child left n == null) && not (s.child right n == null)) ≡ false
one_child left n x s e f = rw e refl
one_child right n x s e f = elim (Bool-cases (s.child left n == null)) [
  | inl z ↦ rw z refl
  | inr z ↦ rw (z, e) refl
]

pub erase-run :
    (s : Nodes) (c : Place) (d : Side) (k : Bool) (n : ℕ) (x : Tree) (at : At s c (mk d k n leaf x))
    (fuel : ℕ)
    → erase fuel n s ≡ ending fuel k (above c) (pointer x) (detached s c d k n x at)
unfolding erase erase_outer set_in_tree get_child get_red
erase-run s c d k n x at fuel =
    let nn = At-full s c d k n leaf x at in
    let e = At-child s c d k n leaf x at in
    let f = At-other s c d k n leaf x at in
    rw
      (
        ==_ne n null nn,
        one_child d n x s e f,
        ==_ne n null nn,
        At-red s c d k n leaf x at,
        only_child-run d n x (freed s c d k n x at) nn e f,
      )
      (cut-run s c d k n x at fuel)
