-- ===== src/RbTree/Fix.antt =====
-- A round of the loop of `fixViolation` on the memory of a tree.
use mcoro.Prelude.{
  ℕ, ◌≡◌, ◌≢◌, refl, Bool, true, false, List, ◌∷◌, ◌++◌, arith, ap, sym, ◌∙◌, subst, ==_ne, ==_self,
  done,
}
use mcoro.RbTree.{
  Nodes, Side, left, right, other, null, set_red, get_red, get_parent, get_child, is_red, swap_red,
  recolor, straighten, turn, side_of,
}
use mcoro.RbTree.Tree.{
  Tree, leaf, node, mk, Place, under, inorder, pointer, one_self, count, Holds, At, count-mk,
  pointer-count, pointer-mk,
}
use mcoro.RbTree.Rotate.{rotate-At}
use mcoro.RbTree.Place.{At-up, At-down}
use mcoro.RbTree.RedBlack.{
  tree_red, Height, up, RedBlack, RedBlack-red, RedBlack-black, mk-other, inorder-rotate,
}
use mcoro.RbTree.Paint.{painted, At-full, At-parent, At-red, At-child, At-other, At-paint}

pub is_red-run :
    (s : Nodes) (p : ℕ) (u : Tree) → Holds s p u → is_red (pointer u) s ≡ done (tree_red u, s)
unfolding is_red get_red
is_red-run s p leaf h = refl
is_red-run s p (node k n t u) ((nn, np, nk), e, h) = rw (==_ne n null nn, ==_ne n null nn, nk) refl

-- The side of `parent` below `grand`.
pub side_of-run :
    (s : Nodes) (c : Place) (d : Side) (k : Bool) (g : ℕ) (e : Side) (k' : Bool) (p : ℕ)
    (t u w : Tree)
    → At s c (mk d k g (mk e k' p t u) w)
    → side_of p g s ≡ done (d, s)
unfolding side_of get_child count
side_of-run s c left k g e k' p t u w at =
    rw
      (
        ==_ne g null (At-full s c left k g (mk e k' p t u) w at),
        At-child s c left k g (mk e k' p t u) w at ∙ pointer-mk e k' p t u,
        ==_self p,
      )
      refl
side_of-run s c right k g e k' p t u w at =
    let p_full =
      At-full s (under right k g w c) e k' p t u (At-down s right k g (mk e k' p t u) w c at) in
    let p_ne_w : p ≢ pointer w = λ z. omega (
      arith,
      at.once p,
      count-mk p e k' p t u,
      one_self p,
      pointer-count w (λ y. p_full (z ∙ y)),
      ap (λ (y : ℕ). count y w) z,
    ) in
    rw
      (
        ==_ne g null (At-full s c right k g (mk e k' p t u) w at),
        At-other s c right k g (mk e k' p t u) w at,
        ==_ne p (pointer w) p_ne_w,
      )
      refl

-- The first part of the body: afterwards the red child is on the outer side.
pub record Straight (s : Nodes) (c : Place) (d : Side) (h : Height) (g n p : ℕ) (old w : Tree)
    : Type 0 where
  pub s' : Nodes
  pub p' : ℕ
  pub outer : Tree
  pub inner : Tree
  pub runs : straighten d n p s ≡ done (p', s')
  pub at : At s' c (mk d false g (mk d true p' outer inner) w)
  pub order : inorder (mk d true p' outer inner) ≡ inorder old
  pub outer_fine : RedBlack h outer
  pub inner_fine : RedBlack h inner × (tree_red inner ≡ false)

straighten-outer :
    (s : Nodes) (c : Place) (d e : Side) (h : Height) (g n p : ℕ) (t u w a : Tree)
    → At s c (mk d false g (mk d true p (mk e true n t u) a) w)
    → RedBlack h (mk e true n t u)
    → RedBlack h a × (tree_red a ≡ false)
    → Straight s c d h g n p (mk d true p (mk e true n t u) a) w
unfolding straighten get_child count
straighten-outer s c d e h g n p t u w a at rt ra =
    let at_p = At-down s d false g (mk d true p (mk e true n t u) a) w c at in
    let n_full =
      At-full s (under d true p a (under d false g w c)) e true n t u
        (At-down s d true p (mk e true n t u) a (under d false g w c) at_p) in
    let n_ne_a : n ≢ pointer a = λ z. omega (
      arith,
      at_p.once n,
      count-mk n d true p (mk e true n t u) a,
      count-mk n e true n t u,
      one_self n,
      pointer-count a (λ y. n_full (z ∙ y)),
      ap (λ (y : ℕ). count y a) z,
    ) in
    record {
      s' = s;
      p' = p;
      outer = mk e true n t u;
      inner = a;
      runs =
          rw
            (
              ==_ne p null (At-full s (under d false g w c) d true p (mk e true n t u) a at_p),
              At-other s (under d false g w c) d true p (mk e true n t u) a at_p,
              ==_ne n (pointer a) n_ne_a,
            )
            refl;
      at = at;
      order = refl;
      outer_fine = rt;
      inner_fine = ra;
    }

straighten-inner :
    (s : Nodes) (c : Place) (d : Side) (h : Height) (g n p : ℕ) (t u w a : Tree)
    → At s c (mk d false g (mk d true p a (mk d true n t u)) w)
    → RedBlack h t × (tree_red t ≡ false)
    → RedBlack h u × (tree_red u ≡ false)
    → RedBlack h a × (tree_red a ≡ false)
    → Straight s c d h g n p (mk d true p a (mk d true n t u)) w
unfolding straighten get_child get_parent
straighten-inner s c d h g n p t u w a at rt ru ra =
    let place = under d false g w c in
    let at_p = At-down s d false g (mk d true p a (mk d true n t u)) w c at in
    let (s', run, at') = rotate-At s place d true p true n a t u at_p in
    let at_p' = At-down s' d true n (mk d true p a t) u place at' in
    record {
      s' = s';
      p' = n;
      outer = mk d true p a t;
      inner = u;
      runs =
          rw
            (
              ==_ne p null (At-full s place d true p a (mk d true n t u) at_p),
              At-other s place d true p a (mk d true n t u) at_p ∙ pointer-mk d true n t u,
              ==_self n,
              run,
              At-parent s' (under d true n u place) d true p a t at_p',
              ==_ne p null (At-full s' (under d true n u place) d true p a t at_p'),
            )
            refl;
      at = At-up s' d false g w c (mk d true n (mk d true p a t) u) at';
      order = inorder-rotate d true p true n a t u;
      outer_fine = RedBlack-red d h p a t ra rt;
      inner_fine = ru;
    }

mk-flip :
    (d : Side) (k : Bool) (g : ℕ) (k' : Bool) (p : ℕ) (a b w : Tree)
    → mk d k g (mk d k' p a b) w ≡ mk (other d) k g w (mk (other d) k' p b a)
mk-flip left k g k' p a b w = refl
mk-flip right k g k' p a b w = refl

pub inorder-mk_color :
    (d : Side) (k k' : Bool) (n : ℕ) (t u : Tree) → inorder (mk d k n t u) ≡ inorder (mk d k' n t u)
inorder-mk_color left k k' n t u = refl
inorder-mk_color right k k' n t u = refl

pub inorder-mk_eq :
    (d : Side) (k k' : Bool) (n : ℕ) (t t' u : Tree)
    → inorder t ≡ inorder t'
    → inorder (mk d k n t u) ≡ inorder (mk d k' n t' u)
inorder-mk_eq left k k' n t t' u e = ap (λ (xs : List ℕ). xs ++ n ∷ inorder u) e
inorder-mk_eq right k k' n t t' u e = ap (λ (xs : List ℕ). inorder u ++ n ∷ xs) e

-- The memory after the body for a red-black tree at the place, with the nodes in the same order.
pub record Turned (s : Nodes) (c : Place) (d : Side) (h : Height) (g n p : ℕ) (old : Tree)
    : Type 0 where
  pub s' : Nodes
  pub p' : ℕ
  pub e : Side
  pub t : Tree
  pub u : Tree
  pub runs : turn d n p g s ≡ done (p', s')
  pub at : At s' c (mk e false p' t u)
  pub order : inorder (mk e false p' t u) ≡ inorder old
  pub fine : RedBlack (up h) (mk e false p' t u)

pub turn-Turned :
    (s : Nodes) (c : Place) (d : Side) (h : Height) (g n p : ℕ) (old w : Tree)
    → Straight s c d h g n p old w
    → RedBlack h w × (tree_red w ≡ false)
    → Turned s c d h g n p (mk d false g old w)
unfolding turn swap_red get_red set_red
turn-Turned s c d h g n p old w straight rw' =
    let o = other d in
    let x = straight.outer in
    let y = straight.inner in
    let p' = straight.p' in
    let at1 = subst (At straight.s' c) (mk-flip d false g true p' x y w) straight.at in
    let (s2, run, at2) = rotate-At straight.s' c o false g true p' w y x at1 in
    let at2g = At-down s2 o true p' (mk o false g w y) x c at2 in
    let s3 = painted p' false s2 in
    let at3 = At-paint s2 c o true p' (mk o false g w y) x at2 false in
    let at3g = At-down s3 o false p' (mk o false g w y) x c at3 in
    let at4g = At-paint s3 (under o false p' x c) o false g w y at3g true in
    let p'_full = At-full s2 c o true p' (mk o false g w y) x at2 in
    let g_full = At-full s2 (under o true p' x c) o false g w y at2g in
    record {
      s' = painted g true s3;
      p' = p';
      e = o;
      t = mk o true g w y;
      u = x;
      runs =
          rw
            (
              straight.runs,
              run,
              ==_ne p' null p'_full,
              At-red s2 c o true p' (mk o false g w y) x at2,
              ==_ne g null g_full,
              At-red s2 (under o true p' x c) o false g w y at2g,
            )
            refl;
      at = At-up (painted g true s3) o false p' x c (mk o true g w y) at4g;
      order =
          inorder-rotate o true g false p' w y x
          ∙ ap inorder (sym (mk-flip d true g false p' x y w))
          ∙ inorder-mk_eq d true false g (mk d false p' x y) old w
              (inorder-mk_color d false true p' x y ∙ straight.order);
      fine =
          RedBlack-black o h p' (mk o true g w y) x (RedBlack-red o h g w y rw' straight.inner_fine)
            straight.outer_fine;
    }

pub recolor-run :
    (s : Nodes) (c : Place) (d e : Side) (g p v : ℕ) (t a x y : Tree)
    → At s c (mk d false g (mk e true p t a) (node true v x y))
    → (s' : Nodes) × (recolor p g v s ≡ done (g, s'))
      × At s' c (mk d true g (mk e false p t a) (node false v x y))
unfolding recolor set_red
recolor-run s c d e g p v t a x y at =
    let w = node true v x y in
    let q = mk e false p t a in
    let s1 = painted g true s in
    let at1 = At-paint s c d false g (mk e true p t a) w at true in
    let at1p = At-down s1 d true g (mk e true p t a) w c at1 in
    let s2 = painted p false s1 in
    let at2p = At-paint s1 (under d true g w c) e true p t a at1p false in
    let at2 = At-up s2 d true g w c q at2p in
    let at2v =
      At-down s2 (other d) true g w q c (subst (At s2 c) (sym (mk-other d true g w q)) at2) in
    let s3 = painted v false s2 in
    let at3v = At-paint s2 (under (other d) true g q c) left true v x y at2v false in
    let at3 = At-up s3 (other d) true g q c (node false v x y) at3v in
    (
      s3,
      rw
          (
            ==_ne g null (At-full s c d false g (mk e true p t a) w at),
            ==_ne p null (At-full s1 (under d true g w c) e true p t a at1p),
            ==_ne v null at2v.holds.0.0,
          )
          refl,
      subst (At s3 c) (mk-other d true g (node false v x y) q) at3,
    )

-- The subtrees of a node, with the first on another side.
reside :
    (e d : Side) (k : Bool) (n : ℕ) (t u : Tree) (P : Tree → Type 0)
    → P t
    → P u
    → (t' : Tree) × (u' : Tree) × (mk e k n t u ≡ mk d k n t' u') × P t' × P u'
reside left left k n t u P ht hu = (t, u, refl, ht, hu)
reside left right k n t u P ht hu = (u, t, refl, hu, ht)
reside right left k n t u P ht hu = (u, t, refl, hu, ht)
reside right right k n t u P ht hu = (t, u, refl, ht, hu)

-- Red-black with a black root.
abbrev pub Calm : Height → Tree → Type 0
Calm h t = RedBlack h t × (tree_red t ≡ false)

pub straighten-Straight :
    (s : Nodes) (c : Place) (e d d0 : Side) (h : Height) (g n p : ℕ) (t u w a : Tree)
    → At s c (mk d false g (mk e true p (mk d0 true n t u) a) w)
    → Calm h t
    → Calm h u
    → Calm h a
    → Straight s c d h g n p (mk e true p (mk d0 true n t u) a) w
straighten-Straight s c left left d0 h g n p t u w a at rt ru ra =
    straighten-outer s c left d0 h g n p t u w a at (RedBlack-red d0 h n t u rt ru) ra
straighten-Straight s c right right d0 h g n p t u w a at rt ru ra =
    straighten-outer s c right d0 h g n p t u w a at (RedBlack-red d0 h n t u rt ru) ra
straighten-Straight s c left right d0 h g n p t u w a at rt ru ra =
    let (t', u', z, rt', ru') = reside d0 right true n t u (Calm h) rt ru in
    subst (λ (q : Tree). Straight s c right h g n p (mk left true p q a) w) (sym z)
      (straighten-inner s c right h g n p t' u' w a
        (subst (λ (q : Tree). At s c (mk right false g (mk left true p q a) w)) z at) rt' ru' ra)
straighten-Straight s c right left d0 h g n p t u w a at rt ru ra =
    let (t', u', z, rt', ru') = reside d0 left true n t u (Calm h) rt ru in
    subst (λ (q : Tree). Straight s c left h g n p (mk right true p q a) w) (sym z)
      (straighten-inner s c left h g n p t' u' w a
        (subst (λ (q : Tree). At s c (mk left false g (mk right true p q a) w)) z at) rt' ru' ra)
