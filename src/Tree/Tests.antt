-- ===== src/Tree/Tests.antt =====
-- Runs of hw01/src/tree.c at small inputs.
use cs.Prelude.{ℕ, zero, suc, ◌<◌, ◌≡◌, refl, List, [], ◌∷◌, some, inl, inr, arith}
use cs.Tree.{Tree, leaf, node, State, insert_bst_node, traverse_inorder, fill_tree}
use cs.Tree.Inorder.{IsBst, ordered_insert, traverse-insert}
use cs.Tree.Populate.{Drawn, fill_tree-count_up}
use cs.Tree.Marks.{count_up}

abbrev sample : Tree
sample = node (node leaf 1 leaf) 3 (node leaf 7 leaf)

sample-IsBst : IsBst sample
sample-IsBst = omega arith

traverse-insert_example :
    traverse_inorder (insert_bst_node sample 5) ≡ ordered_insert 5 (traverse_inorder sample)
traverse-insert_example = traverse-insert (node leaf 1 leaf) 3 (node leaf 7 leaf) 5 sample-IsBst

-- A value equal to the node's goes to its left.
insert_equal : insert_bst_node sample 3 ≡ node (node leaf 1 (node leaf 3 leaf)) 3 (node leaf 7 leaf)
unfolding insert_bst_node
insert_equal = refl

-- The node made for a NULL root is lost.
insert_null : insert_bst_node leaf 4 ≡ leaf
unfolding insert_bst_node
insert_null = refl

-- Five numbers, drawn with repetitions.
abbrev draws : List ℕ
draws = 2 ∷ 9 ∷ 4 ∷ 1 ∷ 3 ∷ 5 ∷ []

all-Drawn : (v : ℕ) → v < 5 → Drawn 5 v draws
all-Drawn zero h = inr (inr (inr (inr (inr (inl refl)))))
all-Drawn (suc zero) h = inr (inr (inr (inl refl)))
all-Drawn (suc (suc zero)) h = inl refl
all-Drawn (suc (suc (suc zero))) h = inr (inr (inr (inr (inl refl))))
all-Drawn (suc (suc (suc (suc zero)))) h = inr (inl refl)
all-Drawn (suc (suc (suc (suc (suc v))))) h = absurd (omega arith)

fill_tree-count_up_example :
    (s : State) × (fill_tree 5 draws ≡ some s) × (traverse_inorder s.root ≡ count_up 0 5)
fill_tree-count_up_example = fill_tree-count_up 5 draws (omega arith) all-Drawn
