-- ===== src/RbTree.antt =====
-- co_async/utils/rbtree.hpp: `RbTree`, on a memory of nodes. A pointer is a number and `nullptr` is 0; a
-- member of `*nullptr` is `undefined`. A loop takes fuel, and is `undefined` when that runs out. A
-- routine and its mirror image are one definition, with the side as an argument.
pub mod Tree
pub mod Turn
pub mod Rotate
pub mod Insert
pub mod Erase
pub mod Visit
pub mod Walk
pub mod Detach
pub mod Remove
pub mod Linked
pub mod Root
pub mod Locate
pub mod Place
pub mod RedBlack
pub mod Paint
pub mod Fix
pub mod Loop
pub mod Balance
use mcoro.Prelude.{
  ℕ, zero, suc, Bool, true, false, List, [], ◌∷◌, ◌++◌, ◌==◌, ◌&&◌, ◌||◌, if◌then◌else◌, not,
  Access, done, undefined, Cmd, ◌>>=◌, ◌>>◌, return, update,
}

abbrev pub null : ℕ
null = 0

pub data Side : Type 0 where
  left : Side
  right : Side

abbrev pub other : Side → Side
other left = right
other right = left

abbrev pub same : Side → Side → Bool
same left left = true
same right right = true
same _ _ = false

-- The members of the node at each address, and the member `root` of the tree. `child` is `rbLeft` and
-- `rbRight`, `red` whether `rbColor` is `RED`, `in_tree` whether `rbTree` is not null.
pub record Nodes : Type 0 where
  pub child : Side → ℕ → ℕ
  pub parent : ℕ → ℕ
  pub red : ℕ → Bool
  pub in_tree : ℕ → Bool
  pub root : ℕ

-- `p` is not null.
abbrev pub checked : {A : Type 0} → ℕ → Access A → Access A
checked p r = if p == null then undefined else r

unfoldable pub get_child : Side → ℕ → Cmd Nodes ℕ
get_child d p s = checked p (done (s.child d p, s))

unfoldable pub get_parent : ℕ → Cmd Nodes ℕ
get_parent p s = checked p (done (s.parent p, s))

unfoldable pub get_red : ℕ → Cmd Nodes Bool
get_red p s = checked p (done (s.red p, s))

unfoldable pub get_in_tree : ℕ → Cmd Nodes Bool
get_in_tree p s = checked p (done (s.in_tree p, s))

unfoldable pub get_root : Cmd Nodes ℕ
get_root s = done (s.root, s)

-- The pointers after a store to one of them.
abbrev pub update_child : (Side → ℕ → ℕ) → Side → ℕ → ℕ → Side → ℕ → ℕ
update_child f d p q e x = if same d e && (p == x) then q else f e x

unfoldable pub set_child : Side → ℕ → ℕ → Cmd Nodes (Unit {0})
set_child d p q s = checked p (done (tt, record s { child = update_child s.child d p q }))

unfoldable pub set_parent : ℕ → ℕ → Cmd Nodes (Unit {0})
set_parent p q s = checked p (done (tt, record s { parent = update s.parent p q }))

unfoldable pub set_red : ℕ → Bool → Cmd Nodes (Unit {0})
set_red p c s = checked p (done (tt, record s { red = update s.red p c }))

unfoldable pub set_in_tree : ℕ → Bool → Cmd Nodes (Unit {0})
set_in_tree p c s = checked p (done (tt, record s { in_tree = update s.in_tree p c }))

unfoldable pub set_root : ℕ → Cmd Nodes (Unit {0})
set_root q s = done (tt, record s { root = q })

-- `if (p != nullptr) p->rbParent = q`
unfoldable pub adopt : ℕ → ℕ → Cmd Nodes (Unit {0})
unfolding set_parent
adopt p q = if p == null then return tt else set_parent p q

-- The stores that put `p` in the place of `node`, a child of `above`, which is looked for on side `d`.
unfoldable pub replace_child : Side → ℕ → ℕ → ℕ → Cmd Nodes (Unit {0})
unfolding get_child set_child set_root
replace_child d above node p =
    if above == null
    then set_root p
    else get_child d above >>= λ q.
        if node == q then set_child d above p else set_child (other d) above p

-- `rotateLeft` and `rotateRight`.
unfoldable pub rotate : Side → ℕ → Cmd Nodes (Unit {0})
unfolding get_child get_parent set_child set_parent
rotate d node = do
  up ← get_child (other d) node
  inner ← get_child d up
  set_child (other d) node inner
  adopt inner node
  above ← get_parent node
  set_parent up above
  replace_child d above node up
  set_child d up node
  set_parent node up

-- `std::swap(p->rbColor, q->rbColor)`
unfoldable pub swap_red : ℕ → ℕ → Cmd Nodes (Unit {0})
unfolding get_red set_red
swap_red p q = do a ← get_red p; b ← get_red q; set_red p b; set_red q a

-- `p != nullptr && p->rbColor == RED`
unfoldable pub is_red : ℕ → Cmd Nodes Bool
unfolding get_red
is_red p = if p == null then return false else get_red p

-- The condition of the loop of `fixViolation`.
unfoldable pub violates : ℕ → Cmd Nodes Bool
unfolding get_root get_red get_parent
violates node = do
  top ← get_root
  if node == top then return false else do
    node_red ← get_red node
    if not node_red then return false else do parent ← get_parent node; get_red parent

-- The body of the loop for a red uncle.
unfoldable pub recolor : ℕ → ℕ → ℕ → Cmd Nodes ℕ
unfolding set_red
recolor parent grand uncle = do
  set_red grand true
  set_red parent false
  set_red uncle false
  return grand

-- The first rotation of the body: the new `parent`.
unfoldable pub straighten : Side → ℕ → ℕ → Cmd Nodes ℕ
straighten d node parent = do
  inside ← get_child (other d) parent
  if node == inside then rotate d parent >> get_parent parent else return parent

-- The body for another uncle.
unfoldable pub turn : Side → ℕ → ℕ → ℕ → Cmd Nodes ℕ
turn d node parent grand = do
  parent' ← straighten d node parent
  rotate (other d) grand
  swap_red parent' grand
  return parent'

-- The body of the loop, for a parent that is the child of `grand` on side `d`: the new `node`.
unfoldable pub fix_round : Side → ℕ → ℕ → ℕ → Cmd Nodes ℕ
fix_round d node parent grand = do
  uncle ← get_child (other d) grand
  uncle_red ← is_red uncle
  if uncle_red then recolor parent grand uncle else turn d node parent grand

unfoldable pub side_of : ℕ → ℕ → Cmd Nodes Side
side_of p grand = do first ← get_child left grand; return (if p == first then left else right)

unfoldable pub fix_loop : ℕ → ℕ → Cmd Nodes (Unit {0})
fix_loop zero node = λ s. undefined
fix_loop (suc fuel) node =
    let round = do
      parent ← get_parent node
      grand ← get_parent parent
      d ← side_of parent grand
      node' ← fix_round d node parent grand
      fix_loop fuel node'
    in violates node >>= λ more. if more then round else return tt

unfoldable pub fix_violation : ℕ → ℕ → Cmd Nodes (Unit {0})
fix_violation fuel node = do fix_loop fuel node; top ← get_root; set_red top false
