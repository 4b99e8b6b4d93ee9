-- ===== src/Tree.antt =====
-- hw01/src/tree.c: an unbalanced binary search tree that `main` fills with every number below
-- NODE_COUNT in a random order and prints in order. A pointer to a node is a tree, NULL is `leaf`.
pub mod Inorder
pub mod Marks
pub mod Populate
mod Tests
use cs.Prelude.{
  ℕ, zero, suc, ◌-◌, ◌/◌, ◌%◌, List, [], ◌∷◌, ◌++◌, Option, none, some, ltb, ◌==◌, if◌then◌else◌,
}

-- `struct TreeNode`. `main` stores only results of `rand() % NODE_COUNT`, which are not negative.
pub data Tree : Type 0 where
  leaf : Tree
  node : Tree → ℕ → Tree → Tree

pub create_bst_node : ℕ → Tree
create_bst_node val = node leaf val leaf

-- The child that the loop reaches: a new node where the pointer is NULL, else the rest of the walk.
pub descend : Tree → Tree → ℕ → Tree
unfolding create_bst_node
descend leaf rest val = create_bst_node val
descend (node l x r) rest val = rest

-- At a NULL root the new node goes to the parameter `root` only, and the caller sees no change.
pub insert_bst_node : Tree → ℕ → Tree
unfolding descend
insert_bst_node leaf val = leaf
insert_bst_node (node l x r) val =
    let right = node l x (descend r (insert_bst_node r val) val) in
    let left = node (descend l (insert_bst_node l val) val) x r in if ltb x val then right else left

-- What is printed, in order.
pub traverse_inorder : Tree → List ℕ
traverse_inorder leaf = []
traverse_inorder (node l x r) = traverse_inorder l ++ (x ∷ traverse_inorder r)

-- `table[i] = v`: an array of NODE_COUNT ints as a function of the index.
abbrev pub update : (ℕ → ℕ) → ℕ → ℕ → ℕ → ℕ
update table i v j = if i == j then v else table j

-- The locals of `main`, the results that `rand` has yet to return, and what has been printed.
pub record State : Type 0 where
  pub table : ℕ → ℕ
  pub root : Tree
  pub draws : List ℕ
  pub printed : List ℕ

-- In `main` the constant `NODE_COUNT`.
module _ (node_count : ℕ) where
  -- The `do` loop: draw until the number is unused. `none` if the draws end before that.
  pub draw_unused : (ℕ → ℕ) → List ℕ → Option (ℕ × List ℕ)
  draw_unused table [] = none
  draw_unused table (d ∷ draws) =
      if table (d % node_count) == 0 then some (d % node_count, draws) else draw_unused table draws

  -- The rest of one round of the `for` loop.
  pub add_random : State → ℕ × List ℕ → State
  add_random s (number, draws) = record {
    table = update s.table number 1;
    root = insert_bst_node s.root number;
    draws = draws;
    printed = s.printed ++ (number ∷ []);
  }

  -- The `for` loop, by the rounds left.
  pub populate : ℕ → State → Option State
  unfolding add_random
  populate zero s = some s
  populate (suc n) s = elim (draw_unused s.table s.draws) [
    | none ↦ none
    | some r ↦ populate n (add_random s r)
  ]

  -- The root at the midpoint, marked as used.
  pub start : List ℕ → State
  unfolding create_bst_node
  start draws = record {
    table = update (λ _. 0) (node_count / 2) 1;
    root = create_bst_node (node_count / 2);
    draws = draws;
    printed = [];
  }

  -- `main` up to the traversal: NODE_COUNT - 1 rounds after the root.
  pub fill_tree : List ℕ → Option State
  unfolding populate start draw_unused insert_bst_node
  fill_tree draws = populate (node_count - 1) (start draws)
