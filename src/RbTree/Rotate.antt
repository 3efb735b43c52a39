-- ===== src/RbTree/Rotate.antt =====
-- A rotation on the memory is a rotation of the tree at its place.
use mcoro.Prelude.{
  ℕ, ◌+◌, ◌≤◌, ◌<◌, ◌≡◌, ◌≢◌, refl, Bool, arith, ap, sym, ◌∙◌, subst, done, update-same,
  update-other,
}
use mcoro.RbTree.{Nodes, Side, left, right, other, null, rotate}
use mcoro.RbTree.Tree.{
  Tree, leaf, node, mk, Place, top, under, pointer, above, one, one_self, count, count_around,
  Holds, Around, At, Same, Holds-frame, Around-frame, Holds-mk, one-eq, count-mk, pointer-count,
  pointer-mk, update_child-hit, update_child-other, update_child-side, update_child-miss,
}
use mcoro.RbTree.Turn.{
  adopted, adopted-miss, adopted-hit, put, Apart, detached, rotated, rotate-run, Off, Same-rotated,
  put-child, put-parent, put-red, Around-rotated,
}

-- The tree in the memory around the edge that is turned, taken apart.
record Fork (s : Nodes) (c : Place) (d : Side) (k : Bool) (n : ℕ) (k' : Bool) (m : ℕ) (a b e : Tree)
    : Type 0 where
  pub n_full : n ≢ null
  pub n_parent : s.parent n ≡ above c
  pub n_red : s.red n ≡ k
  pub n_child : s.child d n ≡ pointer a
  pub n_up : s.child (other d) n ≡ m
  pub m_full : m ≢ null
  pub m_red : s.red m ≡ k'
  pub m_child : s.child d m ≡ pointer b
  pub m_other : s.child (other d) m ≡ pointer e
  pub a_held : Holds s n a
  pub b_held : Holds s m b
  pub e_held : Holds s m e
  pub around : Around s c n
  pub once :
      (y : ℕ) → one y n + count y a + (one y m + count y b + count y e) + count_around y c ≤ 1

At-Fork :
    (s : Nodes) (c : Place) (d : Side) (k : Bool) (n : ℕ) (k' : Bool) (m : ℕ) (a b e : Tree)
    → At s c (mk d k n a (mk d k' m b e))
    → Fork s c d k n k' m a b e
At-Fork s c d k n k' m a b e at =
    let ((nn, np, nk), (ea, eu), (ha, hu)) =
      (Holds-mk s (above c) d k n a (mk d k' m b e)).0 at.holds in
    let ((mn, mp, mk'), (eb, ee), (hb, he)) = (Holds-mk s n d k' m b e).0 hu in
    record {
      n_full = nn;
      n_parent = np;
      n_red = nk;
      n_child = ea;
      n_up = eu ∙ pointer-mk d k' m b e;
      m_full = mn;
      m_red = mk';
      m_child = eb;
      m_other = ee;
      a_held = ha;
      b_held = hb;
      e_held = he;
      around = subst (Around s c) (pointer-mk d k n a (mk d k' m b e)) at.around;
      once =
          λ y. omega (arith, at.once y, count-mk y d k n a (mk d k' m b e), count-mk y d k' m b e);
    }

module _ (s : Nodes) (c : Place) (d : Side) (k : Bool) (n : ℕ) (k' : Bool) (m : ℕ) (a b e : Tree)
    (fork : Fork s c d k n k' m a b e) where
  abbrev i : ℕ
  i = pointer b

  n_ne_m : n ≢ m
  n_ne_m h = omega (arith, fork.once n, one_self n, one-eq n m h)

  i_ne_n : i ≢ null → i ≢ n
  i_ne_n h g = omega (arith, fork.once i, pointer-count b h, one-eq i n g)

  i_ne_m : i ≢ null → i ≢ m
  i_ne_m h g = omega (arith, fork.once i, pointer-count b h, one-eq i m g)

  abbrev s' : Nodes
  s' = rotated d n m i c s

  -- A node that is there, but neither `n` nor `m` nor in `b`.
  abbrev Elsewhere : ℕ → Type 0
  Elsewhere y = 0 < count y a + count y e + count_around y c

  y_ne_n : (y : ℕ) → Elsewhere y → n ≢ y
  y_ne_n y h g = omega (arith, fork.once y, one-eq y n (sym g))

  y_ne_m : (y : ℕ) → Elsewhere y → m ≢ y
  y_ne_m y h g = omega (arith, fork.once y, one-eq y m (sym g))

  y_ne_i : (y : ℕ) → Elsewhere y → i ≢ null → i ≢ y
  y_ne_i y h f g = omega (arith, fork.once y, pointer-count b f, ap (λ (z : ℕ). count z b) g)

  -- A node of the tree at the place is not the one above.
  off :
      (y : ℕ) (c' : Place)
      → 0 < one y n + count y a + (one y m + count y b + count y e)
      → one y n + count y a + (one y m + count y b + count y e) + count_around y c' ≤ 1
      → Off d n m i c s y c'
  unfolding count_around
  off y top h l = tt
  off y (under f k p u c') h l = λ g. omega (arith, l, one-eq y p (sym g))

  Same-subtree : (y : ℕ) → 0 < count y a + count y e → Same s s' y
  Same-subtree y h =
      let here : Elsewhere y = omega (arith, h) in
      Same-rotated d n m i s y (y_ne_n y here) (y_ne_m y here) (y_ne_i y here) c
        (off y c (omega (arith, h)) (fork.once y))

  Same-detached : (y : ℕ) → 0 < count_around y c → Same s (detached d n m i c s) y
  Same-detached y h =
      let here : Elsewhere y = omega (arith, h) in
      record {
        child = λ g. update_child-miss s.child n i (other d) g y (y_ne_n y here);
        parent =
            update-other (adopted i n s.parent) m y (above c) (y_ne_m y here)
            ∙ adopted-miss i n s.parent y (y_ne_i y here);
        red = refl;
      }

  apart : Apart n c
  unfolding count_around
  apart = go c (fork.once n)
    where
      go :
          (c' : Place)
          → one n n + count n a + (one n m + count n b + count n e) + count_around n c' ≤ 1
          → Apart n c'
      go top l = tt
      go (under f k p u c') l = λ g. omega (
        arith,
        l,
        one_self n,
        pointer-count u (λ z. fork.n_full (g ∙ z)),
        ap (λ (z : ℕ). count z u) g,
      )

  runs : rotate d n s ≡ done (tt, s')
  runs =
      rotate-run d n m i c s fork.n_full fork.m_full n_ne_m i_ne_n fork.n_up fork.m_child
        fork.n_parent (Around-frame s (detached d n m i c s) c n Same-detached refl fork.around)
        apart

  Off-n : Off d n m i c s n c
  Off-n = off n c (omega (arith, one_self n)) (fork.once n)

  Off-m : Off d n m i c s m c
  Off-m = off m c (omega (arith, one_self m)) (fork.once m)

  abbrev t : Nodes
  t = detached d n m i c s

  abbrev t' : Nodes
  t' = put c m t

  m_child' : s'.child d m ≡ n
  m_child' = update_child-hit t'.child m n d

  m_other' : s'.child (other d) m ≡ pointer e
  m_other' =
      update_child-other t'.child m n d m
      ∙ put-child d n m i s c t (other d) m Off-m
      ∙ update_child-miss s.child n i (other d) (other d) m n_ne_m
      ∙ fork.m_other

  n_child' : s'.child d n ≡ pointer a
  n_child' =
      update_child-miss t'.child m n d d n (λ g. n_ne_m (sym g))
      ∙ put-child d n m i s c t d n Off-n
      ∙ update_child-side s.child n i d n
      ∙ fork.n_child

  n_other' : s'.child (other d) n ≡ i
  n_other' =
      update_child-other t'.child m n d n
      ∙ put-child d n m i s c t (other d) n Off-n
      ∙ update_child-hit s.child n i (other d)

  m_parent' : s'.parent m ≡ above c
  m_parent' =
      update-other t'.parent n m m n_ne_m
      ∙ put-parent c m t m
      ∙ update-same (adopted i n s.parent) m (above c)

  n_parent' : s'.parent n ≡ m
  n_parent' = update-same t'.parent n m

  -- The inner subtree has changed hands.
  b_held' : (b' : Tree) → b' ≡ b → Holds s m b' → Holds s' n b'
  unfolding count
  b_held' leaf z h = tt
  b_held' (node kb x v w) z ((xf, xp, xr), (xl, xr'), (hv, hw)) =
      let pi : x ≡ i = ap pointer z in
      let xi : i ≢ null = λ g. xf (pi ∙ g) in
      let nx : n ≢ x = λ g. i_ne_n xi (sym pi ∙ sym g) in
      let mx : m ≢ x = λ g. i_ne_m xi (sym pi ∙ sym g) in
      let once' : (y : ℕ)
          → one y n
              + count y a
              + (one y m + (one y x + count y v + count y w) + count y e)
              + count_around y c
            ≤ 1 =
        λ y. omega (arith, fork.once y, ap (λ (b'' : Tree). count y b'') z) in
      let kept : (y : ℕ) → 0 < count y v + count y w → Same s s' y = λ y h.
        Same-rotated d n m i s y (λ g. omega (arith, once' y, one-eq y n (sym g)))
          (λ g. omega (arith, once' y, one-eq y m (sym g)))
          (λ f g. omega (arith, once' y, one-eq y x (sym (pi ∙ g)))) c
          (off y c (omega (arith, h, ap (λ (b'' : Tree). count y b'') z)) (fork.once y)) in
      let off_x =
        off x c (omega (arith, one_self x, ap (λ (b'' : Tree). count x b'') z)) (fork.once x) in
      let child' : (g : Side) → s'.child g x ≡ s.child g x = λ g.
        update_child-miss t'.child m n d g x mx
        ∙ put-child d n m i s c t g x off_x
        ∙ update_child-miss s.child n i (other d) g x nx in
      (
        (
          xf,
          update-other t'.parent n x m nx
              ∙ put-parent c m t x
              ∙ update-other (adopted i n s.parent) m x (above c) mx
              ∙ adopted-hit i n s.parent x xi (sym pi),
          put-red c m t x ∙ xr,
        ),
        (child' left ∙ xl, child' right ∙ xr'),
        (
          Holds-frame s s' x v (λ y h. kept y (omega (arith, h))) hv,
          Holds-frame s s' x w (λ y h. kept y (omega (arith, h))) hw,
        ),
      )

  -- What is around the place has `m` there.
  around' : (c' : Place) → c' ≡ c → Around s c' n → Around s' c' m
  unfolding count_around
  around' top z h = ap (λ (c'' : Place). (rotated d n m i c'' s).root) (sym z)
  around' (under f kp p u c'') z ((pf, pp, pr), (pn, pu), (hu, hc)) =
      let once' : (y : ℕ)
          → one y n
              + count y a
              + (one y m + count y b + count y e)
              + (one y p + count y u + count_around y c'')
            ≤ 1 =
        λ y. omega (arith, fork.once y, ap (λ (q : Place). count_around y q) z) in
      let apart_from : (y : ℕ) → 0 < one y p + count y u + count_around y c'' → Elsewhere y =
        λ y h. omega (arith, h, ap (λ (q : Place). count_around y q) z) in
      let here : Elsewhere p = apart_from p (omega (arith, one_self p)) in
      subst (λ (q : Place). Around (rotated d n m i q s) (under f kp p u c'') m) z
        (Around-rotated d n m i s f kp p u c'' (y_ne_n p here) (y_ne_m p here) (y_ne_i p here)
          (λ y h.
            let there : Elsewhere y = apart_from y (omega (arith, h)) in
            Same-rotated d n m i s y (y_ne_n y there) (y_ne_m y there) (y_ne_i y there)
              (under f kp p u c'') (λ g. omega (arith, once' y, h, one-eq y p (sym g))))
          ((pf, pp, pr), (pn, pu), (hu, hc)))

-- A rotation of a node with a child on the other side, anywhere in a tree that the memory holds, is
-- defined, and the memory holds the tree with the two nodes rotated at that place and unchanged
-- elsewhere, all pointers to parents included. `d` is `left` for `rotateLeft` and `right` for
-- `rotateRight`.
pub rotate-At :
    (s : Nodes) (c : Place) (d : Side) (k : Bool) (n : ℕ) (k' : Bool) (m : ℕ) (a b e : Tree)
    → At s c (mk d k n a (mk d k' m b e))
    → (s' : Nodes) × (rotate d n s ≡ done (tt, s')) × At s' c (mk d k' m (mk d k n a b) e)
rotate-At s c d k n k' m a b e at =
    let fork = At-Fork s c d k n k' m a b e at in
    let i = pointer b in
    let s' = rotated d n m i c s in
    let f = fork in
    (
      s',
      runs s c d k n k' m a b e fork,
      record {
        holds = (Holds-mk s' (above c) d k' m (mk d k n a b) e).1 (
          (
            fork.m_full,
            m_parent' s c d k n k' m a b e fork,
            put-red c m (detached d n m i c s) m ∙ fork.m_red,
          ),
          (
            m_child' s c d k n k' m a b e fork ∙ sym (pointer-mk d k n a b),
            m_other' s c d k n k' m a b e fork,
          ),
          (
            (Holds-mk s' m d k n a b).1 (
              (
                fork.n_full,
                n_parent' s c d k n k' m a b e fork,
                put-red c m (detached d n m i c s) n ∙ fork.n_red,
              ),
              (n_child' s c d k n k' m a b e fork, n_other' s c d k n k' m a b e fork),
              (
                Holds-frame s s' n a
                    (λ y h. Same-subtree s c d k n k' m a b e fork y (omega (arith, h)))
                    fork.a_held,
                b_held' s c d k n k' m a b e fork b refl fork.b_held,
              ),
            ),
            Holds-frame s s' m e
                (λ y h. Same-subtree s c d k n k' m a b e fork y (omega (arith, h))) fork.e_held,
          ),
        );
        around =
            subst (Around s' c) (sym (pointer-mk d k' m (mk d k n a b) e))
              (around' s c d k n k' m a b e fork c refl fork.around);
        once = λ y.
            omega (arith, fork.once y, count-mk y d k' m (mk d k n a b) e, count-mk y d k n a b);
      },
    )
