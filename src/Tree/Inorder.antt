-- ===== src/Tree/Inorder.antt =====
-- `insert_bst_node` of hw01/src/tree.c seen through `traverse_inorder`.
use cs.Prelude.{
  ℕ, ◌≤◌, ◌<◌, ◌≡◌, refl, ap, List, [], ◌∷◌, ◌++◌, arith, inl, inr, ltb, ltb→lt, lt→ltb, Bool-cases,
  if◌then◌else◌,
}
use cs.Tree.{Tree, leaf, node, insert_bst_node, traverse_inorder, descend}

-- Every value of the tree.
abbrev pub All : (ℕ → Type 0) → Tree → Type 0
All P leaf = Unit {0}
All P (node l x r) = P x × All P l × All P r

-- The search order: values equal to the node's lie on its left.
abbrev pub IsBst : Tree → Type 0
IsBst leaf = Unit {0}
IsBst (node l x r) = All (λ y. y ≤ x) l × All (λ y. x < y) r × IsBst l × IsBst r

-- The place of a value in a list in ascending order, before its equals.
unfoldable pub ordered_insert : ℕ → List ℕ → List ℕ
ordered_insert v [] = v ∷ []
ordered_insert v (x ∷ xs) = if ltb x v then x ∷ ordered_insert v xs else v ∷ x ∷ xs

-- What stands in place of a child after the walk has gone into it.
abbrev pub attach : Tree → ℕ → Tree
attach t v = descend t (insert_bst_node t v) v

All-attach : (P : ℕ → Type 0) (t : Tree) (v : ℕ) → P v → All P t → All P (attach t v)
unfolding insert_bst_node
All-attach P leaf v p h = (p, tt, tt)
All-attach P (node l x r) v p h = ground (arith, All-attach P l v p h.1, All-attach P r v p h.2)

IsBst-attach : (t : Tree) (v : ℕ) → IsBst t → IsBst (attach t v)
unfolding insert_bst_node
IsBst-attach leaf v b = (tt, tt, tt, tt)
IsBst-attach (node l x r) v b = elim (Bool-cases (ltb x v)) [
  | inl lt ↦ rw lt (b.0, All-attach (λ y. x < y) r v (ltb→lt x v lt) b.1, b.2, IsBst-attach r v b.3)
  | inr ge ↦ rw ge (All-attach (λ y. y ≤ x) l v (ground arith) b.0, b.1, IsBst-attach l v b.2, b.3)
]

-- Insertion into a tree in search order, where values to the left are at most those above and
-- values to the right greater, leaves a tree in search order.
pub insert_bst_node-IsBst : (t : Tree) (v : ℕ) → IsBst t → IsBst (insert_bst_node t v)
insert_bst_node-IsBst leaf v b = unfold insert_bst_node in tt
insert_bst_node-IsBst (node l x r) v b = unfold insert_bst_node in IsBst-attach (node l x r) v b

-- `x ∷ xs` and every element of `xs` at least `x`.
abbrev pub AllElem : (ℕ → Type 0) → List ℕ → Type 0
AllElem P [] = Unit {0}
AllElem P (x ∷ xs) = P x × AllElem P xs

pub AllElem-append :
    (P : ℕ → Type 0) (xs ys : List ℕ) → AllElem P xs → AllElem P ys → AllElem P (xs ++ ys)
AllElem-append P [] ys hx hy = hy
AllElem-append P (x ∷ xs) ys hx hy = (hx.0, AllElem-append P xs ys hx.1 hy)

pub AllElem-traverse : (P : ℕ → Type 0) (t : Tree) → All P t → AllElem P (traverse_inorder t)
unfolding traverse_inorder
AllElem-traverse P leaf h = tt
AllElem-traverse P (node l x r) h =
    AllElem-append P (traverse_inorder l) (x ∷ traverse_inorder r) (AllElem-traverse P l h.1)
      (h.0, AllElem-traverse P r h.2)

-- Past a prefix of smaller values the place is found in the rest.
ordered_insert-append_lt :
    (v y : ℕ) (xs ys : List ℕ)
    → y < v
    → AllElem (λ z. z ≤ y) xs
    → ordered_insert v (xs ++ (y ∷ ys)) ≡ xs ++ (y ∷ ordered_insert v ys)
unfolding ordered_insert
ordered_insert-append_lt v y [] ys lt h = rw (lt→ltb y v lt)
ordered_insert-append_lt v y (x ∷ xs) ys lt h =
    rw (lt→ltb x v (omega arith)) (ap (◌∷◌ x) (ordered_insert-append_lt v y xs ys lt h.1))

ordered_insert-append_le :
    (v y : ℕ) (xs ys : List ℕ)
    → v ≤ y
    → ordered_insert v (xs ++ (y ∷ ys)) ≡ ordered_insert v xs ++ (y ∷ ys)
unfolding ordered_insert
ordered_insert-append_le v y [] ys le = ground arith
ordered_insert-append_le v y (x ∷ xs) ys le = ground (arith, ordered_insert-append_le v y xs ys le)

traverse-attach :
    (t : Tree) (v : ℕ)
    → IsBst t
    → traverse_inorder (attach t v) ≡ ordered_insert v (traverse_inorder t)
unfolding insert_bst_node traverse_inorder ordered_insert
traverse-attach leaf v b = refl
traverse-attach (node l x r) v b = elim (Bool-cases (ltb x v)) [
  | inl lt ↦ rw (
    lt,
    ordered_insert-append_lt v x (traverse_inorder l) (traverse_inorder r) (ltb→lt x v lt)
        (AllElem-traverse (λ z. z ≤ x) l b.0),
    traverse-attach r v b.3,
  )
  | inr ge ↦ rw (
    ge,
    ordered_insert-append_le v x (traverse_inorder l) (traverse_inorder r) (ground arith),
    traverse-attach l v b.2,
  )
]

-- On a non-empty tree in search order, insertion puts the value at its place in the printed list.
pub traverse-insert :
    (l : Tree) (x : ℕ) (r : Tree) (v : ℕ)
    → IsBst (node l x r)
    → traverse_inorder (insert_bst_node (node l x r) v)
      ≡ ordered_insert v (traverse_inorder (node l x r))
traverse-insert l x r v b = unfold insert_bst_node in traverse-attach (node l x r) v b
