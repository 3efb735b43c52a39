-- ===== src/RbTree/Loop.antt =====
-- The loop of `fixViolation`.
use mcoro.Prelude.{
  ℕ, zero, suc, ◌<◌, ◌≡◌, refl, true, false, arith, sym, ◌∙◌, subst, ==_ne, inl, inr, done,
}
use mcoro.RbTree.{
  Nodes, Side, left, right, other, null, get_parent, get_child, violates, recolor, fix_round,
  fix_loop,
}
use mcoro.RbTree.Tree.{Tree, leaf, node, mk, Place, top, under, plug, inorder, At, pointer-mk}
use mcoro.RbTree.Place.{At-up, At-down, At-plug}
use mcoro.RbTree.RedBlack.{
  place_red, Height, up, Stands, Stands-up, RedBlack, Fine, RedBlack-red, RedBlack-black,
  tree_red-mk, mk-other, RedBlack-plug, inorder-plug_eq,
}
use mcoro.RbTree.Paint.{
  At-full, At-parent, At-red, At-other, violates-root, violates-black, violates-under,
}
use mcoro.RbTree.Fix.{
  inorder-mk_color, inorder-mk_eq, is_red-run, side_of-run, straighten-Straight, turn-Turned,
  recolor-run, Calm,
}

unfoldable pub depth : Place → ℕ
depth top = 0
depth (under d k n u c) = suc (depth c)

-- The memory after the loop: a red-black tree, with the nodes in the same order.
pub record Fixed (fuel : ℕ) (h : Height) (s : Nodes) (n : ℕ) (old : Tree) : Type 0 where
  pub s' : Nodes
  pub t : Tree
  pub runs : fix_loop fuel n s ≡ done (tt, s')
  pub at : At s' top t
  pub order : inorder t ≡ inorder old
  pub fine : Stands h t

-- The part of a round up to the body.
round-run :
    (fuel : ℕ) (s s' : Nodes) (c : Place) (d e d0 : Side) (g n n' p : ℕ) (t u a w : Tree)
    → At s (under e true p a (under d false g w c)) (mk d0 true n t u)
    → fix_round d n p g s ≡ done (n', s')
    → fix_loop (suc fuel) n s ≡ fix_loop fuel n' s'
unfolding fix_loop get_parent
round-run fuel s s' c d e d0 g n n' p t u a w at run =
    let place = under d false g w c in
    let at_p = At-up s e true p a place (mk d0 true n t u) at in
    let at_g = At-up s d false g w c (mk e true p (mk d0 true n t u) a) at_p in
    rw
      (
        violates-under s e d0 true p a place n t u at,
        ==_ne n null (At-full s (under e true p a place) d0 true n t u at),
        At-parent s (under e true p a place) d0 true n t u at,
        ==_ne p null (At-full s place e true p (mk d0 true n t u) a at_p),
        At-parent s place e true p (mk d0 true n t u) a at_p,
        side_of-run s c d false g e true p (mk d0 true n t u) a w at_g,
        run,
      )
      refl

-- A round for a black uncle is the last but one.
Fixed-turn :
    (fuel : ℕ) (s : Nodes) (c : Place) (d e d0 : Side) (h : Height) (g n p : ℕ) (t u a w : Tree)
    → At s (under e true p a (under d false g w c)) (mk d0 true n t u)
    → Calm h t
    → Calm h u
    → Calm h a
    → Calm h w
    → Fine (up h) c
    → Fixed (suc (suc fuel)) h s n (plug c (mk d false g (mk e true p (mk d0 true n t u) a) w))
unfolding fix_round get_child fix_loop
Fixed-turn fuel s c d e d0 h g n p t u a w at rt ru ra rw' fc =
    let place = under d false g w c in
    let x = mk e true p (mk d0 true n t u) a in
    let at_g = At-up s d false g w c x (At-up s e true p a place (mk d0 true n t u) at) in
    let straight = straighten-Straight s c e d d0 h g n p t u w a at_g rt ru ra in
    let turned = turn-Turned s c d h g n p x w straight rw' in
    let new = mk turned.e false turned.p' turned.t turned.u in
    let fine =
      RedBlack-plug (up h) new c turned.fine fc
        (inl (tree_red-mk turned.e false turned.p' turned.t turned.u)) in
    record {
      s' = turned.s';
      t = plug c new;
      runs =
          round-run (suc fuel) s turned.s' c d e d0 g n turned.p' p t u a w at (
            rw
              (
                ==_ne g null (At-full s c d false g x w at_g),
                At-other s c d false g x w at_g,
                is_red-run s g w
                    (At-down s (other d) false g w x c
                      (subst (At s c) (sym (mk-other d false g w x)) at_g)).holds,
                rw'.1,
              )
              turned.runs)
          ∙ rw
              (violates-black turned.s' turned.p'
                (At-full turned.s' c turned.e false turned.p' turned.t turned.u turned.at)
                (At-red turned.s' c turned.e false turned.p' turned.t turned.u turned.at))
              refl;
      at = At-plug turned.s' c new turned.at;
      order = inorder-plug_eq c new (mk d false g x w) turned.order;
      fine = Stands-up h (plug c new) fine;
    }

Fixed-stop :
    (fuel : ℕ) (s : Nodes) (c : Place) (d0 : Side) (h : Height) (n : ℕ) (t u : Tree)
    → At s c (mk d0 true n t u)
    → violates n s ≡ done (false, s)
    → RedBlack h (mk d0 true n t u)
    → Fine h c
    → place_red c ≡ false
    → Fixed (suc fuel) h s n (plug c (mk d0 true n t u))
unfolding fix_loop
Fixed-stop fuel s c d0 h n t u at stop r f b =
    let fine = RedBlack-plug h (mk d0 true n t u) c r f (inr b) in
    record {
      s' = s;
      t = plug c (mk d0 true n t u);
      runs = rw stop refl;
      at = At-plug s c (mk d0 true n t u) at;
      order = refl;
      fine = fine;
    }

-- The body for a red uncle.
uncle-run :
    (s s' : Nodes) (c : Place) (d : Side) (g n p v : ℕ) (x y z : Tree)
    → At s c (mk d false g x (node true v y z))
    → recolor p g v s ≡ done (g, s')
    → fix_round d n p g s ≡ done (g, s')
unfolding fix_round get_child
uncle-run s s' c d g n p v x y z at run =
    let w = node true v y z in
    rw
      (
        ==_ne g null (At-full s c d false g x w at),
        At-other s c d false g x w at,
        is_red-run s g w
            (At-down s (other d) false g w x c
              (subst (At s c) (sym (mk-other d false g w x)) at)).holds,
      )
      run

inorder-uncle :
    (d : Side) (g : ℕ) (q : Tree) (v : ℕ) (x y : Tree)
    → inorder (mk d false g q (node false v x y)) ≡ inorder (mk d false g q (node true v x y))
inorder-uncle left g q v x y = refl
inorder-uncle right g q v x y = refl

-- The loop, from a red node with fine subtrees.
pub fix_loop-Fixed :
    (fuel : ℕ) (s : Nodes) (c : Place) (d0 : Side) (h : Height) (n : ℕ) (t u : Tree)
    → At s c (mk d0 true n t u)
    → Calm h t
    → Calm h u
    → Fine h c
    → depth c < fuel
    → Fixed fuel h s n (plug c (mk d0 true n t u))
unfolding depth
fix_loop-Fixed zero s c d0 h n t u at rt ru f l = absurd (omega (arith, l))
fix_loop-Fixed (suc fuel) s top d0 h n t u at rt ru f l =
    Fixed-stop fuel s top d0 h n t u at (violates-root s n (at.around ∙ pointer-mk d0 true n t u))
      (RedBlack-red d0 h n t u rt ru) f refl
fix_loop-Fixed (suc fuel) s (under e false p a c) d0 h n t u at rt ru f l =
    Fixed-stop fuel s (under e false p a c) d0 h n t u at
      (violates-under s e d0 false p a c n t u at) (RedBlack-red d0 h n t u rt ru) f refl
fix_loop-Fixed (suc fuel) s (under e true p a top) d0 h n t u at rt ru f l = absurd f
fix_loop-Fixed (suc fuel) s (under e true p a (under d true g w c)) d0 h n t u at rt ru f l =
    absurd f
fix_loop-Fixed (suc zero) s (under e true p a (under d false g w c)) d0 h n t u at rt ru f l =
    absurd (omega (arith, l))
fix_loop-Fixed (suc (suc fuel)) s (under e true p a (under d false g leaf c)) d0 h n t u at rt ru
      (ra, (hw, fc)) l =
    Fixed-turn fuel s c d e d0 h g n p t u a leaf at rt ru ra (hw, refl) fc
fix_loop-Fixed (suc (suc fuel)) s (under e true p a (under d false g (node false v x y) c)) d0 h n t
      u at rt ru (ra, (hw, fc)) l =
    Fixed-turn fuel s c d e d0 h g n p t u a (node false v x y) at rt ru ra (hw, refl) fc
fix_loop-Fixed (suc (suc fuel)) s (under e true p a (under d false g (node true v x y) c)) d0 h n t
      u at rt ru (ra, (hw, fc)) l =
    let place = under d false g (node true v x y) c in
    let focus = mk d0 true n t u in
    let at_g =
      At-up s d false g (node true v x y) c (mk e true p focus a)
        (At-up s e true p a place focus at) in
    let (s', run, at') = recolor-run s c d e g p v focus a x y at_g in
    let q = mk e false p focus a in
    let w' = node false v x y in
    let rest =
      fix_loop-Fixed (suc fuel) s' c d (up h) g q w' at'
        (
          RedBlack-black e h p focus a (RedBlack-red d0 h n t u rt ru) ra.0,
          tree_red-mk e false p focus a,
        )
        (RedBlack-black left h v x y hw.0.0 hw.1.0, refl) fc (omega (arith, l)) in
    record {
      s' = rest.s';
      t = rest.t;
      runs =
          round-run (suc fuel) s s' c d e d0 g n g p t u a (node true v x y) at
            (uncle-run s s' c d g n p v (mk e true p focus a) x y at_g run)
          ∙ rest.runs;
      at = rest.at;
      order =
          rest.order
          ∙ inorder-plug_eq c (mk d true g q w')
              (mk d false g (mk e true p focus a) (node true v x y))
              (inorder-mk_color d true false g q w'
                ∙ inorder-mk_eq d false false g q (mk e true p focus a) w'
                    (inorder-mk_color e false true p focus a)
                ∙ inorder-uncle d g (mk e true p focus a) v x y);
      fine = Stands-up h rest.t rest.fine;
    }
