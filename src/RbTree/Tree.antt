-- ===== src/RbTree/Tree.antt =====
-- Trees of nodes, places in them, and the memories that hold them.
use mcoro.Prelude.{
  ℕ, suc, ◌+◌, ◌≤◌, ◌<◌, ◌≡◌, ◌≢◌, refl, Bool, List, [], ◌∷◌, ◌++◌, ◌==◌, arith, ◌∙◌, if◌then◌else◌,
  ◌↔◌,
}
use mcoro.RbTree.{Nodes, Side, left, right, other, null, update_child}

-- A node is red or black.
pub data Tree : Type 0 where
  leaf : Tree
  node : Bool → ℕ → Tree → Tree → Tree

-- The node with the first subtree on the given side.
abbrev pub mk : Side → Bool → ℕ → Tree → Tree → Tree
mk left k n t u = node k n t u
mk right k n t u = node k n u t

-- A place in a tree: the top, or a side under a node with its other subtree.
pub data Place : Type 0 where
  top : Place
  under : Side → Bool → ℕ → Tree → Place → Place

abbrev pub plug : Place → Tree → Tree
plug top t = t
plug (under d k n u c) t = plug c (mk d k n t u)

-- The nodes in order.
abbrev pub inorder : Tree → List ℕ
inorder leaf = []
inorder (node k n t u) = inorder t ++ n ∷ inorder u

abbrev pub pointer : Tree → ℕ
pointer leaf = null
pointer (node k n t u) = n

abbrev pub above : Place → ℕ
above top = null
above (under d k n u c) = n

abbrev pub one : ℕ → ℕ → ℕ
one y n = if y == n then 1 else 0

-- How often a node is there.
unfoldable pub count : ℕ → Tree → ℕ
count y leaf = 0
count y (node k n t u) = one y n + count y t + count y u

unfoldable pub count_around : ℕ → Place → ℕ
count_around y top = 0
count_around y (under d k n u c) = one y n + count y u + count_around y c

-- The memory holds the tree below `p`.
abbrev pub Holds : Nodes → ℕ → Tree → Type 0
Holds s p leaf = Unit {0}
Holds s p (node k n t u) =
    ((n ≢ null) × (s.parent n ≡ p) × (s.red n ≡ k))
    × ((s.child left n ≡ pointer t) × (s.child right n ≡ pointer u))
    × (Holds s n t × Holds s n u)

-- The memory holds what is around the place, where the pointer is `x`.
abbrev pub Around : Nodes → Place → ℕ → Type 0
Around s top x = s.root ≡ x
Around s (under d k n u c) x =
    ((n ≢ null) × (s.parent n ≡ above c) × (s.red n ≡ k))
    × ((s.child d n ≡ x) × (s.child (other d) n ≡ pointer u))
    × (Holds s n u × Around s c n)

-- The memory holds the tree at its place, and no node is there twice.
pub record At (s : Nodes) (c : Place) (t : Tree) : Type 0 where
  pub holds : Holds s (above c) t
  pub around : Around s c (pointer t)
  pub once : (y : ℕ) → count y t + count_around y c ≤ 1

-- The members that make the tree are the same.
pub record Same (s s' : Nodes) (y : ℕ) : Type 0 where
  pub child : (e : Side) → s'.child e y ≡ s.child e y
  pub parent : s'.parent y ≡ s.parent y
  pub red : s'.red y ≡ s.red y

pub one_self : (n : ℕ) → one n n ≡ 1
one_self n = ground arith

pub one-eq : (y n : ℕ) → y ≡ n → one y n ≡ 1
one-eq y n e = ground arith

module _ (s s' : Nodes) where
  pub Holds-frame :
      (p : ℕ) (t : Tree) → ((y : ℕ) → 0 < count y t → Same s s' y) → Holds s p t → Holds s' p t
  unfolding count
  Holds-frame p leaf kept h = tt
  Holds-frame p (node k n t u) kept ((a, b, c), (d, e), (f, g)) =
      let at_n = kept n (omega (arith, one_self n)) in
      (
        (a, at_n.parent ∙ b, at_n.red ∙ c),
        (at_n.child left ∙ d, at_n.child right ∙ e),
        (
          Holds-frame n t (λ y i. kept y (omega (arith, i))) f,
          Holds-frame n u (λ y i. kept y (omega (arith, i))) g,
        ),
      )

  pub Around-frame :
      (c : Place) (x : ℕ)
      → ((y : ℕ) → 0 < count_around y c → Same s s' y)
      → s'.root ≡ s.root
      → Around s c x
      → Around s' c x
  unfolding count_around
  Around-frame top x kept r h = r ∙ h
  Around-frame (under left k n u c) x kept r ((a, b, e), (f, g), (h, i)) =
      let at_n = kept n (omega (arith, one_self n)) in
      (
        (a, at_n.parent ∙ b, at_n.red ∙ e),
        (at_n.child left ∙ f, at_n.child right ∙ g),
        (
          Holds-frame n u (λ y j. kept y (omega (arith, j))) h,
          Around-frame c n (λ y j. kept y (omega (arith, j))) r i,
        ),
      )
  Around-frame (under right k n u c) x kept r ((a, b, e), (f, g), (h, i)) =
      let at_n = kept n (omega (arith, one_self n)) in
      (
        (a, at_n.parent ∙ b, at_n.red ∙ e),
        (at_n.child right ∙ f, at_n.child left ∙ g),
        (
          Holds-frame n u (λ y j. kept y (omega (arith, j))) h,
          Around-frame c n (λ y j. kept y (omega (arith, j))) r i,
        ),
      )

-- The same for a node with its subtrees named by a side.
abbrev pub HoldsMk : Nodes → ℕ → Side → Bool → ℕ → Tree → Tree → Type 0
HoldsMk s p d k n t u =
    ((n ≢ null) × (s.parent n ≡ p) × (s.red n ≡ k))
    × ((s.child d n ≡ pointer t) × (s.child (other d) n ≡ pointer u))
    × (Holds s n t × Holds s n u)

pub Holds-mk :
    (s : Nodes) (p : ℕ) (d : Side) (k : Bool) (n : ℕ) (t u : Tree)
    → Holds s p (mk d k n t u) ↔ HoldsMk s p d k n t u
Holds-mk s p left k n t u = (λ h. h, λ h. h)
Holds-mk s p right k n t u =
    (λ (a, (b, c), (e, f)). (a, (c, b), (f, e)), λ (a, (b, c), (e, f)). (a, (c, b), (f, e)))

pub count-mk :
    (y : ℕ) (d : Side) (k : Bool) (n : ℕ) (t u : Tree)
    → count y (mk d k n t u) ≡ one y n + count y t + count y u
unfolding count
count-mk y left k n t u = refl
count-mk y right k n t u = omega arith

pub pointer-mk : (d : Side) (k : Bool) (n : ℕ) (t u : Tree) → pointer (mk d k n t u) ≡ n
pointer-mk left k n t u = refl
pointer-mk right k n t u = refl

pub other-other : (d : Side) → other (other d) ≡ d
other-other left = refl
other-other right = refl

module _ (f : Side → ℕ → ℕ) (p q : ℕ) where
  pub update_child-hit : (d : Side) → update_child f d p q d p ≡ q
  update_child-hit left = ground arith
  update_child-hit right = ground arith

  pub update_child-other : (d : Side) (x : ℕ) → update_child f d p q (other d) x ≡ f (other d) x
  update_child-other left x = refl
  update_child-other right x = refl

  pub update_child-side : (d : Side) (x : ℕ) → update_child f (other d) p q d x ≡ f d x
  update_child-side left x = refl
  update_child-side right x = refl

  pub update_child-miss : (d e : Side) (x : ℕ) → p ≢ x → update_child f d p q e x ≡ f e x
  update_child-miss left left x h = ground arith
  update_child-miss left right x h = refl
  update_child-miss right left x h = refl
  update_child-miss right right x h = ground arith

-- The number of nodes.
unfoldable pub size : Tree → ℕ
size leaf = 0
size (node k n t u) = suc (size t + size u)

pub pointer-count : (t : Tree) → pointer t ≢ null → 1 ≤ count (pointer t) t
unfolding count
pointer-count leaf h = absurd (h refl)
pointer-count (node k n t u) h = omega (arith, one_self n)
