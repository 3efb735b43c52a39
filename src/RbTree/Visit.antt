-- ===== src/RbTree/Visit.antt =====
-- co_async/utils/rbtree.hpp: the routines of `RbTree` that go through the tree.
use mcoro.Prelude.{
  ℕ, zero, suc, Bool, false, ◌==◌, if◌then◌else◌, undefined, Cmd, ◌>>=◌, ◌>>◌, return,
}
use mcoro.RbTree.{Nodes, Side, left, right, null, get_child, get_root, set_in_tree, set_root}

-- The loop that goes to the last node on a side.
unfoldable pub furthest : Side → ℕ → ℕ → Cmd Nodes ℕ
furthest d zero p = λ s. undefined
furthest d (suc fuel) p = get_child d p >>= λ next.
    let rest = furthest d fuel next in if next == null then return p else rest

unfoldable pub get_front : ℕ → Cmd Nodes ℕ
get_front fuel = get_root >>= furthest left fuel

unfoldable pub get_back : ℕ → Cmd Nodes ℕ
get_back fuel = get_root >>= furthest right fuel

unfoldable pub empty : Cmd Nodes Bool
empty = do top ← get_root; return (top == null)

-- The visitor is a function of a node and of what it has gathered.
unfoldable pub do_traverse_inorder : {A : Type 0} → (ℕ → A → A) → ℕ → ℕ → A → Cmd Nodes A
do_traverse_inorder visitor zero node a = λ s. undefined
do_traverse_inorder visitor (suc fuel) node a =
    let visits = do
      first ← get_child left node
      b ← do_traverse_inorder visitor fuel first a
      last ← get_child right node
      do_traverse_inorder visitor fuel last (visitor node b)
    in if node == null then return a else visits

unfoldable pub clear_below : ℕ → ℕ → Cmd Nodes (Unit {0})
clear_below zero node = λ s. undefined
clear_below (suc fuel) node =
    let stores = do
      first ← get_child left node
      clear_below fuel first
      set_in_tree node false
      last ← get_child right node
      clear_below fuel last
    in if node == null then return tt else stores

unfoldable pub clear : ℕ → Cmd Nodes (Unit {0})
clear fuel = do top ← get_root; clear_below fuel top; set_root null
