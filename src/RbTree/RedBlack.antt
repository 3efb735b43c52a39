-- ===== src/RbTree/RedBlack.antt =====
-- Red-black trees, and places in them.
use mathlib.Core.Bool.{true≢false}
use mcoro.Prelude.{
  ℕ, zero, suc, ◌≡◌, refl, Bool, true, false, List, ◌∷◌, ◌++◌, ap, sym, ◌∙◌, subst, append_assoc,
  ◌⊎◌, inl, inr,
}
use mcoro.RbTree.{Side, left, right, other}
use mcoro.RbTree.Tree.{Tree, leaf, node, mk, Place, top, under, plug, inorder}
use mcoro.RbTree.Locate.{inorder-plug, before, after}

abbrev pub tree_red : Tree → Bool
tree_red leaf = false
tree_red (node k n t u) = k

abbrev pub place_red : Place → Bool
place_red top = false
place_red (under d k n u c) = k

-- How many black nodes are on each way down, or that this is not looked at.
pub data Height : Type 0 where
  counted : ℕ → Height
  uncounted : Height

abbrev pub up : Height → Height
up (counted h) = counted (suc h)
up uncounted = uncounted

-- The height of a leaf.
abbrev pub bottom : Height → Height
bottom (counted h) = counted 0
bottom uncounted = uncounted

abbrev IsBottom : Height → Type 0
IsBottom (counted h) = h ≡ 0
IsBottom uncounted = Unit {0}

-- Each way down has as many black nodes as `h` says, and a red node has no red child.
abbrev pub RedBlack : Height → Tree → Type 0
RedBlack h leaf = IsBottom h
RedBlack h (node true n t u) =
    (RedBlack h t × (tree_red t ≡ false)) × (RedBlack h u × (tree_red u ≡ false))
RedBlack (counted zero) (node false n t u) = ⊥
RedBlack (counted (suc h)) (node false n t u) = RedBlack (counted h) t × RedBlack (counted h) u
RedBlack uncounted (node false n t u) = RedBlack uncounted t × RedBlack uncounted u

-- A red-black tree of any height, when heights are counted.
abbrev pub Stands : Height → Tree → Type 0
Stands (counted h) t = (h' : ℕ) × RedBlack (counted h') t
Stands uncounted t = RedBlack uncounted t

pub Stands-RedBlack : (h : Height) (t : Tree) → RedBlack h t → Stands h t
Stands-RedBlack (counted h) t r = (h, r)
Stands-RedBlack uncounted t r = r

pub Stands-up : (h : Height) (t : Tree) → Stands (up h) t → Stands h t
Stands-up (counted h) t r = r
Stands-up uncounted t r = r

-- The nodes around the place make a red-black tree with a black root, for a tree at the place of `h`
-- black nodes on each way down, which may be red.
abbrev pub Fine : Height → Place → Type 0
Fine h top = Unit {0}
Fine h (under d false p u c) = RedBlack h u × Fine (up h) c
Fine h (under d true p u top) = ⊥
Fine h (under d true p u (under e true g w c)) = ⊥
Fine h (under d true p u (under e false g w c)) =
    (RedBlack h u × (tree_red u ≡ false)) × (RedBlack h w × Fine (up h) c)

pub Fine-bottom : (h : Height) (c : Place) → RedBlack h leaf → Fine h c → Fine (bottom h) c
Fine-bottom (counted h) c e f = subst (λ (k : ℕ). Fine (counted k) c) e f
Fine-bottom uncounted c e f = f

pub RedBlack-bottom : (h : Height) → RedBlack (bottom h) leaf
RedBlack-bottom (counted h) = refl
RedBlack-bottom uncounted = tt

pub Stands-bottom : (h : Height) (t : Tree) → Stands (bottom h) t → Stands h t
Stands-bottom (counted h) t r = r
Stands-bottom uncounted t r = r

-- A black root.
pub Stands-paint :
    (h : Height) (k : Bool) (m : ℕ) (t u : Tree)
    → Stands h (node k m t u)
    → Stands h (node false m t u)
Stands-paint (counted h) false m t u r = r
Stands-paint (counted h) true m t u (h', (rt, ru)) = (suc h', (rt.0, ru.0))
Stands-paint uncounted false m t u r = r
Stands-paint uncounted true m t u (rt, ru) = (rt.0, ru.0)

pub RedBlack-red :
    (d : Side) (h : Height) (n : ℕ) (t u : Tree)
    → RedBlack h t × (tree_red t ≡ false)
    → RedBlack h u × (tree_red u ≡ false)
    → RedBlack h (mk d true n t u)
RedBlack-red left h n t u ht hu = (ht, hu)
RedBlack-red right h n t u ht hu = (hu, ht)

pub RedBlack-black :
    (d : Side) (h : Height) (n : ℕ) (t u : Tree)
    → RedBlack h t
    → RedBlack h u
    → RedBlack (up h) (mk d false n t u)
RedBlack-black left (counted h) n t u ht hu = (ht, hu)
RedBlack-black right (counted h) n t u ht hu = (hu, ht)
RedBlack-black left uncounted n t u ht hu = (ht, hu)
RedBlack-black right uncounted n t u ht hu = (hu, ht)

pub tree_red-mk : (d : Side) (k : Bool) (n : ℕ) (t u : Tree) → tree_red (mk d k n t u) ≡ k
tree_red-mk left k n t u = refl
tree_red-mk right k n t u = refl

pub mk-other : (d : Side) (k : Bool) (n : ℕ) (t u : Tree) → mk (other d) k n t u ≡ mk d k n u t
mk-other left k n t u = refl
mk-other right k n t u = refl

pub RedBlack-plug :
    (h : Height) (t : Tree) (c : Place)
    → RedBlack h t
    → Fine h c
    → (tree_red t ≡ false) ⊎ (place_red c ≡ false)
    → Stands h (plug c t)
RedBlack-plug h t top r f b = Stands-RedBlack h t r
RedBlack-plug h t (under d false p u c) r (hu, hc) b = Stands-up h (plug c (mk d false p t u)) (
    RedBlack-plug (up h) (mk d false p t u) c (RedBlack-black d h p t u r hu) hc
      (inl (tree_red-mk d false p t u)))
RedBlack-plug h t (under d true p u top) r f b = absurd f
RedBlack-plug h t (under d true p u (under e true g w c)) r f b = absurd f
RedBlack-plug h t (under d true p u (under e false g w c)) r (hu, (hw, hc)) (inl b) =
    Stands-up h (plug c (mk e false g (mk d true p t u) w)) (
      RedBlack-plug (up h) (mk e false g (mk d true p t u) w) c
        (RedBlack-black e h g (mk d true p t u) w (RedBlack-red d h p t u (r, b) hu) hw) hc
        (inl (tree_red-mk e false g (mk d true p t u) w)))
RedBlack-plug h t (under d true p u (under e false g w c)) r f (inr b) = absurd (true≢false b)

-- A rotation keeps the order of the nodes.
pub inorder-rotate :
    (d : Side) (k : Bool) (n : ℕ) (k' : Bool) (m : ℕ) (a b e : Tree)
    → inorder (mk d k' m (mk d k n a b) e) ≡ inorder (mk d k n a (mk d k' m b e))
inorder-rotate left k n k' m a b e = append_assoc (inorder a) (n ∷ inorder b) (m ∷ inorder e)
inorder-rotate right k n k' m a b e = sym (append_assoc (inorder e) (m ∷ inorder b) (n ∷ inorder a))

pub inorder-plug_eq :
    (c : Place) (t u : Tree) → inorder t ≡ inorder u → inorder (plug c t) ≡ inorder (plug c u)
inorder-plug_eq c t u e =
    inorder-plug c t ∙ ap (λ (xs : List ℕ). before c ++ (xs ++ after c)) e ∙ sym (inorder-plug c u)
