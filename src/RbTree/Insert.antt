-- ===== src/RbTree/Insert.antt =====
-- co_async/utils/rbtree.hpp: `RbTree::doInsert`. `compare` is the order of the values at two nodes, the
-- template argument `Compare`.
use mcoro.Prelude.{
  ℕ, zero, suc, Bool, true, ◌==◌, if◌then◌else◌, undefined, Cmd, ◌>>=◌, ◌>>◌, return,
}
use mcoro.RbTree.{
  Nodes, Side, left, right, null, get_child, get_root, set_child, set_parent, set_red, set_in_tree,
  set_root, fix_violation,
}

module _ (compare : ℕ → ℕ → Bool) where
  -- The side on which a node belongs.
  abbrev pub side : ℕ → ℕ → Side
  side node current = if compare node current then left else right

  -- The loop that looks for the parent of a new node.
  unfoldable pub descend : ℕ → ℕ → ℕ → ℕ → Cmd Nodes ℕ
  descend zero node parent current = λ s. undefined
  descend (suc fuel) node parent current =
      let round = get_child (side node current) current >>= descend fuel node current in
      if current == null then return parent else round

  -- The stores of a new node below its parent.
  unfoldable pub hang : ℕ → ℕ → Cmd Nodes (Unit {0})
  unfolding set_root set_child
  hang node parent =
      if parent == null then set_root node else set_child (side node parent) parent node

  -- The members that a new node starts with.
  unfoldable pub fresh : ℕ → Cmd Nodes (Unit {0})
  unfolding set_child set_in_tree set_red
  fresh node = do
    set_child left node null
    set_child right node null
    set_in_tree node true
    set_red node true

  -- `doInsert` up to `fixViolation`.
  unfoldable pub place_node : ℕ → ℕ → Cmd Nodes (Unit {0})
  unfolding get_root set_parent
  place_node fuel node = do
    fresh node
    top ← get_root
    parent ← descend fuel node null top
    set_parent node parent
    hang node parent

  unfoldable pub insert : ℕ → ℕ → Cmd Nodes (Unit {0})
  insert fuel node = place_node fuel node >> fix_violation fuel node
