-- ===== src/RbTree/Paint.antt =====
-- A new color for a node of the tree, and the condition of the loop of `fixViolation`.
use mcoro.Prelude.{
  ℕ, ◌+◌, ◌≤◌, ◌<◌, ◌≡◌, ◌≢◌, refl, Bool, true, false, ◌==◌, arith, sym, ◌∙◌, subst, ==_ne, ==_self,
  Bool-cases, inl, inr, done, update, update-same, update-other,
}
use mcoro.RbTree.{Nodes, Side, other, null, get_red, get_root, get_parent, violates}
use mcoro.RbTree.Tree.{
  Tree, mk, Place, top, under, pointer, above, one, one-eq, count, count_around, Around, At, Same,
  Holds-frame, Around-frame, Holds-mk, count-mk, pointer-mk,
}

abbrev pub painted : ℕ → Bool → Nodes → Nodes
painted n k s = record s { red = update s.red n k }

module _ (s : Nodes) (c : Place) (d : Side) (k : Bool) (n : ℕ) (t u : Tree)
    (at : At s c (mk d k n t u)) where
  pub At-full : n ≢ null
  At-full = ((Holds-mk s (above c) d k n t u).0 at.holds).0.0

  pub At-parent : s.parent n ≡ above c
  At-parent = ((Holds-mk s (above c) d k n t u).0 at.holds).0.1

  pub At-red : s.red n ≡ k
  At-red = ((Holds-mk s (above c) d k n t u).0 at.holds).0.2

  pub At-child : s.child d n ≡ pointer t
  At-child = ((Holds-mk s (above c) d k n t u).0 at.holds).1.0

  pub At-other : s.child (other d) n ≡ pointer u
  At-other = ((Holds-mk s (above c) d k n t u).0 at.holds).1.1

  once' : (y : ℕ) → one y n + count y t + count y u + count_around y c ≤ 1
  once' y = omega (arith, at.once y, count-mk y d k n t u)

  pub At-paint : (k' : Bool) → At (painted n k' s) c (mk d k' n t u)
  At-paint k' =
      let (nf, e, (ht, hu)) = (Holds-mk s (above c) d k n t u).0 at.holds in
      let kept : (y : ℕ)
          → 0 < count y t + count y u + count_around y c
          → Same s (painted n k' s) y =
        λ y h. record {
          child = λ e. refl;
          parent = refl;
          red = update-other s.red n y k' (λ g. omega (arith, once' y, h, one-eq y n (sym g)));
        } in
      record {
        holds = (Holds-mk (painted n k' s) (above c) d k' n t u).1 (
          (nf.0, nf.1, update-same s.red n k'),
          e,
          (
            Holds-frame s (painted n k' s) n t (λ y h. kept y (omega (arith, h))) ht,
            Holds-frame s (painted n k' s) n u (λ y h. kept y (omega (arith, h))) hu,
          ),
        );
        around =
            subst (Around (painted n k' s) c) (pointer-mk d k n t u ∙ sym (pointer-mk d k' n t u)) (
              Around-frame s (painted n k' s) c (pointer (mk d k n t u))
                (λ y h. kept y (omega (arith, h))) refl at.around);
        once = λ y. omega (arith, once' y, count-mk y d k' n t u);
      }

-- The root is around a place that is not the top.
pub root-Around :
    (s : Nodes) (d : Side) (k : Bool) (p : ℕ) (u : Tree) (c : Place) (x : ℕ)
    → Around s (under d k p u c) x
    → 1 ≤ count_around s.root (under d k p u c)
unfolding count_around
root-Around s d k p u top x (a, b, (hu, e)) = omega (arith, one-eq s.root p e)
root-Around s d k p u (under d' k' p' u' c) x (a, b, (hu, hc)) =
    omega (arith, root-Around s d' k' p' u' c p hc)

pub violates-root : (s : Nodes) (n : ℕ) → s.root ≡ n → violates n s ≡ done (false, s)
unfolding violates get_root
violates-root s n e = rw (e, ==_self n) refl

pub violates-black :
    (s : Nodes) (n : ℕ) → n ≢ null → s.red n ≡ false → violates n s ≡ done (false, s)
unfolding violates get_root get_red
violates-black s n nn e = elim (Bool-cases (n == s.root)) [
  | inl h ↦ rw h refl
  | inr h ↦ rw (h, ==_ne n null nn, e) refl
]

pub violates-under :
    (s : Nodes) (d' : Side) (d : Side) (k : Bool) (p : ℕ) (w : Tree) (c : Place) (n : ℕ)
    (t u : Tree)
    → At s (under d' k p w c) (mk d true n t u)
    → violates n s ≡ done (k, s)
unfolding violates get_root get_red get_parent count_around
violates-under s d' d k p w c n t u at =
    let (up, ends, around) = at.around in
    let n_ne_root : n ≢ s.root = λ g. omega (
      arith,
      at.once s.root,
      count-mk s.root d true n t u,
      one-eq s.root n (sym g),
      root-Around s d' k p w c (pointer (mk d true n t u)) at.around,
    ) in
    let n_full = At-full s (under d' k p w c) d true n t u at in
    rw
      (
        ==_ne n s.root n_ne_root,
        ==_ne n null n_full,
        At-red s (under d' k p w c) d true n t u at,
        At-parent s (under d' k p w c) d true n t u at,
        ==_ne n null n_full,
        ==_ne p null up.0,
        up.2,
      )
      refl
