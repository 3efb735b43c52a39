-- ===== src/RbTree/Linked.antt =====
-- The routines of `RbTree` that leave `rbTree` of each node as it is.
use mcoro.Prelude.{
  ℕ, zero, suc, ◌≡◌, refl, Bool, true, false, subst, ◌==◌, if◌then◌else◌, not, ◌&&◌, Access, done,
  undefined, and_then, Cmd, ◌>>=◌, return,
}
use mcoro.RbTree.{
  Nodes, Side, left, right, other, null, get_child, get_parent, get_red, get_root, set_child,
  set_parent, set_red, set_root, adopt, replace_child, rotate, swap_red, is_red, violates, recolor,
  straighten, turn, fix_round, side_of, fix_loop, fix_violation,
}
use mcoro.RbTree.Detach.{ending}

abbrev Kept : {A : Type 0} → (ℕ → Bool) → Access (A × Nodes) → Type 0
Kept f undefined = Unit {0}
Kept f (done (a, s)) = s.in_tree ≡ f

abbrev pub Keeps : {A : Type 0} → Cmd Nodes A → Type 0
Keeps c = (s : Nodes) → Kept s.in_tree (c s)

Kept-and_then :
    {A B : Type 0} (f : ℕ → Bool) (r : Access (A × Nodes)) (k : A → Cmd Nodes B)
    → Kept f r
    → ((a : A) → Keeps (k a))
    → Kept f (and_then r λ p. k p.0 p.1)
Kept-and_then f undefined k h hk = tt
Kept-and_then f (done (a, s)) k h hk = subst (λ g. Kept g (k a s)) h (hk a s)

Keeps->>= :
    {A B : Type 0} (c : Cmd Nodes A) (k : A → Cmd Nodes B)
    → Keeps c
    → ((a : A) → Keeps (k a))
    → Keeps (c >>= k)
Keeps->>= c k h hk s = Kept-and_then s.in_tree (c s) k (h s) hk

Keeps-if :
    {A : Type 0} (b : Bool) (c d : Cmd Nodes A) → Keeps c → Keeps d → Keeps (if b then c else d)
Keeps-if true c d hc hd = hc
Keeps-if false c d hc hd = hd

Keeps-return : {A : Type 0} (a : A) → Keeps (return a)
Keeps-return a s = refl

Kept-if :
    {A : Type 0} (f : ℕ → Bool) (b : Bool) (r : Access (A × Nodes))
    → Kept f r
    → Kept f (if b then undefined else r)
Kept-if f true r h = tt
Kept-if f false r h = h

Keeps-get_child : (d : Side) (p : ℕ) → Keeps (get_child d p)
unfolding get_child
Keeps-get_child d p s = Kept-if s.in_tree (p == null) (done (s.child d p, s)) refl

Keeps-get_parent : (p : ℕ) → Keeps (get_parent p)
unfolding get_parent
Keeps-get_parent p s = Kept-if s.in_tree (p == null) (done (s.parent p, s)) refl

Keeps-get_red : (p : ℕ) → Keeps (get_red p)
unfolding get_red
Keeps-get_red p s = Kept-if s.in_tree (p == null) (done (s.red p, s)) refl

Keeps-get_root : Keeps get_root
unfolding get_root
Keeps-get_root s = refl

Keeps-set_child : (d : Side) (p q : ℕ) → Keeps (set_child d p q)
unfolding set_child
Keeps-set_child d p q s = Kept-if s.in_tree (p == null) _ refl

Keeps-set_parent : (p q : ℕ) → Keeps (set_parent p q)
unfolding set_parent
Keeps-set_parent p q s = Kept-if s.in_tree (p == null) _ refl

Keeps-set_red : (p : ℕ) (k : Bool) → Keeps (set_red p k)
unfolding set_red
Keeps-set_red p k s = Kept-if s.in_tree (p == null) _ refl

Keeps-set_root : (q : ℕ) → Keeps (set_root q)
unfolding set_root
Keeps-set_root q s = refl

Keeps-adopt : (p q : ℕ) → Keeps (adopt p q)
unfolding adopt
Keeps-adopt p q = Keeps-if (p == null) _ _ (Keeps-return tt) (Keeps-set_parent p q)

Keeps-replace_child : (d : Side) (a n p : ℕ) → Keeps (replace_child d a n p)
unfolding replace_child
Keeps-replace_child d a n p = Keeps-if (a == null) _ _ (Keeps-set_root p) (
    Keeps->>= _ _ (Keeps-get_child d a)
      λ q. Keeps-if (n == q) _ _ (Keeps-set_child d a p) (Keeps-set_child (other d) a p))

Keeps-rotate : (d : Side) (n : ℕ) → Keeps (rotate d n)
unfolding rotate
Keeps-rotate d n = Keeps->>= _ _ (Keeps-get_child (other d) n) λ up.
    Keeps->>= _ _ (Keeps-get_child d up) λ inner.
      Keeps->>= _ _ (Keeps-set_child (other d) n inner) λ _.
        Keeps->>= _ _ (Keeps-adopt inner n) λ _. Keeps->>= _ _ (Keeps-get_parent n) λ a.
          Keeps->>= _ _ (Keeps-set_parent up a) λ _.
            Keeps->>= _ _ (Keeps-replace_child d a n up)
              λ _. Keeps->>= _ _ (Keeps-set_child d up n) λ _. Keeps-set_parent n up

Keeps-violates : (n : ℕ) → Keeps (violates n)
unfolding violates
Keeps-violates n = Keeps->>= get_root _ Keeps-get_root λ top.
    Keeps-if (n == top) (return false) _ (Keeps-return false) (
      Keeps->>= _ _ (Keeps-get_red n) λ k.
        Keeps-if (not k) (return false) _ (Keeps-return false)
          (Keeps->>= _ _ (Keeps-get_parent n) Keeps-get_red))

Keeps-recolor : (p g u : ℕ) → Keeps (recolor p g u)
unfolding recolor
Keeps-recolor p g u = Keeps->>= _ _ (Keeps-set_red g true) λ _.
    Keeps->>= _ _ (Keeps-set_red p false)
      λ _. Keeps->>= _ _ (Keeps-set_red u false) λ _. Keeps-return g

Keeps-straighten : (d : Side) (n p : ℕ) → Keeps (straighten d n p)
unfolding straighten
Keeps-straighten d n p = Keeps->>= _ _ (Keeps-get_child (other d) p) λ inside.
    Keeps-if (n == inside) _ _ (Keeps->>= _ _ (Keeps-rotate d p) λ _. Keeps-get_parent p)
      (Keeps-return p)

Keeps-turn : (d : Side) (n p g : ℕ) → Keeps (turn d n p g)
unfolding turn swap_red
Keeps-turn d n p g = Keeps->>= _ _ (Keeps-straighten d n p) λ p'.
    Keeps->>= _ _ (Keeps-rotate (other d) g) λ _.
      Keeps->>= _ _
        (Keeps->>= _ _ (Keeps-get_red p') λ a.
          Keeps->>= _ _ (Keeps-get_red g)
            λ b. Keeps->>= _ _ (Keeps-set_red p' b) λ _. Keeps-set_red g a)
        λ _. Keeps-return p'

Keeps-fix_round : (d : Side) (n p g : ℕ) → Keeps (fix_round d n p g)
unfolding fix_round is_red
Keeps-fix_round d n p g = Keeps->>= _ _ (Keeps-get_child (other d) g) λ u.
    Keeps->>= _ _ (Keeps-if (u == null) (return false) _ (Keeps-return false) (Keeps-get_red u))
      λ k. Keeps-if k _ _ (Keeps-recolor p g u) (Keeps-turn d n p g)

Keeps-fix_loop : (fuel n : ℕ) → Keeps (fix_loop fuel n)
unfolding fix_loop side_of
Keeps-fix_loop zero n = λ s. tt
Keeps-fix_loop (suc fuel) n = Keeps->>= _ _ (Keeps-violates n) λ more.
    Keeps-if more _ _
      (Keeps->>= _ _ (Keeps-get_parent n) λ p. Keeps->>= _ _ (Keeps-get_parent p) λ g.
        Keeps->>= _ _
          (Keeps->>= _ _ (Keeps-get_child left g)
            λ first. Keeps-return (if p == first then left else right))
          λ d. Keeps->>= _ _ (Keeps-fix_round d n p g) λ n'. Keeps-fix_loop fuel n')
      (Keeps-return tt)

pub Keeps-fix_violation : (fuel n : ℕ) → Keeps (fix_violation fuel n)
unfolding fix_violation
Keeps-fix_violation fuel n =
    Keeps->>= _ _ (Keeps-fix_loop fuel n)
      λ _. Keeps->>= get_root _ Keeps-get_root λ top. Keeps-set_red top false

pub Keeps-ending : (fuel : ℕ) (k : Bool) (a p : ℕ) → Keeps (ending fuel k a p)
unfolding ending
Keeps-ending fuel k a p s =
    Keeps-if (not k && not (s.root == null)) _ _
      (Keeps-fix_violation fuel (if p == null then a else p)) (Keeps-return tt) s

-- The members `rbTree` after a command that is defined.
pub Keeps-done :
    {A : Type 0} (c : Cmd Nodes A) (a : A) (s s' : Nodes)
    → Keeps c
    → c s ≡ done (a, s')
    → s'.in_tree ≡ s.in_tree
Keeps-done c a s s' h e = subst (Kept s.in_tree) e (h s)
