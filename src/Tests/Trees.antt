-- ===== src/Tests/Trees.antt =====
-- Red-black trees.
use mcoro.Prelude.{
  ℕ, ◌+◌, ◌≤◌, ◌<◌, ◌≡◌, refl, true, false, [], ◌∷◌, ◌++◌, List, arith, done, update, ltb,
}
use mcoro.RbTree.{Nodes, Side, left, right, null, rotate}
use mcoro.RbTree.Tree.{
  pointer, Holds, one, Tree, leaf, node, top, under, inorder, count, At, size, count_around,
}
use mcoro.RbTree.Insert.{insert}
use mcoro.RbTree.Visit.{do_traverse_inorder}
use mcoro.RbTree.Erase.{erase}
use mcoro.RbTree.RedBlack.{RedBlack, counted, tree_red}
use mcoro.RbTree.Rotate.{rotate-At}
use mcoro.RbTree.Walk.{do_traverse_inorder-visit_all}
use mcoro.RbTree.Root.{erase-root}
use mcoro.RbTree.Remove.{Sound, erase-Sound}
use mcoro.RbTree.Balance.{insert-RedBlack}

-- The black node 2 with the red children 1 and 3.
abbrev three : Tree
three = node false 2 (node true 1 leaf leaf) (node true 3 leaf leaf)

abbrev child_of : Side → ℕ → ℕ
child_of left = update (λ x. null) 2 1
child_of right = update (λ x. null) 2 3

abbrev three_nodes : Nodes
three_nodes = record {
  child = child_of;
  parent = update (update (λ x. null) 1 2) 3 2;
  red = update (update (λ x. false) 1 true) 3 true;
  in_tree = λ x. true;
  root = 2;
}

three-once : (y : ℕ) → count y three + count_around y top ≤ 1
unfolding count count_around
three-once y = ground arith

three-At : At three_nodes top three
three-At = record {
  holds = (
    (omega arith, refl, refl),
    (refl, refl),
    (
      ((omega arith, refl, refl), (refl, refl), (tt, tt)),
      ((omega arith, refl, refl), (refl, refl), (tt, tt)),
    ),
  );
  around = refl;
  once = three-once;
}

insert-RedBlack_example :
    (s' : Nodes) × (t' : Tree) × (insert ltb 4 4 three_nodes ≡ done (tt, s'))
    × At s' top t'
    × (((h' : ℕ) × RedBlack (counted h') t') × (tree_red t' ≡ false))
    × (inorder t' ≡ 1 ∷ 2 ∷ 3 ∷ 4 ∷ [])
    × (s'.in_tree ≡ update (λ x. true) 4 true)
unfolding count size
insert-RedBlack_example =
    insert-RedBlack ltb 4 three_nodes three 1 (1 ∷ 2 ∷ 3 ∷ []) [] 4 three-At
      (((refl, refl), (refl, refl)), ((refl, refl), (refl, refl))) refl (omega arith) refl refl
      (refl, (refl, (refl, tt))) tt (omega arith)

rotate-At_example :
    (s' : Nodes) × (rotate left 2 three_nodes ≡ done (tt, s'))
    × At s' top (node true 3 (node false 2 (node true 1 leaf leaf) leaf) leaf)
rotate-At_example =
    rotate-At three_nodes top left false 2 true 3 (node true 1 leaf leaf) leaf leaf three-At

do_traverse_inorder-visit_all_example :
    do_traverse_inorder ◌∷◌ 4 2 [] three_nodes ≡ done (3 ∷ 2 ∷ 1 ∷ [], three_nodes)
unfolding size
do_traverse_inorder-visit_all_example =
    do_traverse_inorder-visit_all ◌∷◌ three three_nodes null 4 [] three-At.holds (omega arith)

-- The node 3 has the right child 4, which is red.
abbrev four : Tree
four = node false 2 (node false 1 leaf leaf) (node false 3 leaf (node true 4 leaf leaf))

abbrev four_child : Side → ℕ → ℕ
four_child left = update (λ x. null) 2 1
four_child right = update (update (λ x. null) 2 3) 3 4

abbrev four_nodes : Nodes
four_nodes = record {
  child = four_child;
  parent = update (update (update (λ x. null) 1 2) 3 2) 4 3;
  red = update (λ x. false) 4 true;
  in_tree = λ x. true;
  root = 2;
}

four-once : (y : ℕ) → count y four + count_around y top ≤ 1
unfolding count count_around
four-once y = ground arith

four-At : At four_nodes top four
four-At = record {
  holds = (
    (omega arith, refl, refl),
    (refl, refl),
    (
      ((omega arith, refl, refl), (refl, refl), (tt, tt)),
      (
        (omega arith, refl, refl),
        (refl, refl),
        (tt, ((omega arith, refl, refl), (refl, refl), (tt, tt))),
      ),
    ),
  );
  around = refl;
  once = four-once;
}

erase-root_example :
    (s' : Nodes) × (u' : Tree) × (erase 2 2 four_nodes ≡ done (tt, s'))
    × (s'.root ≡ pointer u')
    × Holds s' 2 u'
    × (inorder u' ≡ 4 ∷ [])
    × ((y : ℕ) → 0 < one y 3 + count y (node false 1 leaf leaf) → count y u' ≡ 0)
erase-root_example =
    erase-root four_nodes false false 2 3 (node false 1 leaf leaf) (node true 4 leaf leaf) 1 four-At
      (omega arith)

erase-Sound_example :
    (s' : Nodes) × (t' : Tree) × (xs : List ℕ) × (ys : List ℕ) × (erase 4 1 three_nodes
      ≡ done (tt, s'))
    × At s' top t'
    × Sound t'
    × (inorder three ≡ xs ++ 1 ∷ ys)
    × (inorder t' ≡ xs ++ ys)
    × (s'.in_tree ≡ update (λ x. true) 1 false)
unfolding size
erase-Sound_example =
    erase-Sound three_nodes (under left false 2 (node true 3 leaf leaf) top) left true 1 leaf 4
      three-At ((((tt, refl), (tt, refl)), ((tt, refl), (tt, refl))), refl) (omega arith)
