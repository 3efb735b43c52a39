-- ===== src/RbTree/Erase.antt =====
-- co_async/utils/rbtree.hpp: `RbTree::doErase`.
use mcoro.Prelude.{ℕ, Bool, false, ◌==◌, ◌&&◌, if◌then◌else◌, not, Cmd, ◌>>=◌, ◌>>◌, return}
use mcoro.RbTree.{
  Nodes, left, right, null, get_child, get_parent, get_red, get_root, set_child, set_parent,
  set_in_tree, set_root, adopt, fix_violation, get_in_tree,
}
use mcoro.RbTree.Visit.{furthest}

-- The stores that put `p` where `node` is.
unfoldable pub relink : ℕ → ℕ → Cmd Nodes (Unit {0})
relink node p = do
  top ← get_root
  if node == top then set_root p else do
    above ← get_parent node
    first ← get_child left above
    set_child (if first == node then left else right) above p

-- The stores of `doErase` for a `replace` that is not a child of `current`, and for one that is.
unfoldable pub unhook : ℕ → ℕ → Cmd Nodes (Unit {0})
unhook current replace = do
  above ← get_parent replace
  if current == above then set_parent replace current else do
    behind ← get_child right replace
    up ← get_parent current
    set_child left up behind
    next ← get_child right current
    set_child right replace next
    next' ← get_child right current
    set_parent next' replace

-- The branch for a node with two children: `replace`.
unfoldable pub substitute : ℕ → ℕ → Cmd Nodes ℕ
substitute fuel current = do
  start ← get_child right current
  replace ← furthest left fuel start
  unhook current replace
  relink current replace
  first ← get_child left current
  set_child left replace first
  first' ← get_child left current
  set_parent first' replace
  return replace

-- `child` of a node that has at most one.
unfoldable pub only_child : ℕ → Cmd Nodes ℕ
only_child node = do
  first ← get_child left node
  if first == null then get_child right node else return first

-- The end: `child` takes the place of `node`, which had the color `node_red`.
unfoldable pub cut : ℕ → ℕ → Bool → ℕ → Cmd Nodes (Unit {0})
cut fuel node node_red child = do
  above ← get_parent node
  adopt child above
  relink node child
  top ← get_root
  above' ← get_parent node
  if not node_red && not (top == null)
      then fix_violation fuel (if child == null then above' else child)
      else return tt

-- The two branches, to the end.
unfoldable pub erase_inner : ℕ → ℕ → Cmd Nodes (Unit {0})
erase_inner fuel current = do
  node ← substitute fuel current
  node_red ← get_red node
  child ← get_child right node
  cut fuel node node_red child

unfoldable pub erase_outer : ℕ → ℕ → Cmd Nodes (Unit {0})
erase_outer fuel current = do
  node_red ← get_red current
  child ← only_child current
  cut fuel current node_red child

unfoldable pub erase : ℕ → ℕ → Cmd Nodes (Unit {0})
erase fuel current = do
  set_in_tree current false
  first ← get_child left current
  last ← get_child right current
  if not (first == null) && not (last == null)
      then erase_inner fuel current
      else erase_outer fuel current

-- `erase_from_parent`, which the destructor of a node calls.
unfoldable pub erase_from_parent : ℕ → ℕ → Cmd Nodes (Unit {0})
erase_from_parent fuel node = do
  linked ← get_in_tree node
  if linked then erase fuel node >> set_in_tree node false else return tt
