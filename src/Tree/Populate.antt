-- ===== src/Tree/Populate.antt =====
-- The loop of `main` of hw01/src/tree.c that fills the tree.
use cs.Prelude.{
  ℕ, zero, suc, ◌+◌, ◌-◌, ◌/◌, ◌%◌, ◌<◌, ◌≡◌, ◌∙◌, refl, sym, ap, List, [], ◌∷◌, some, arith, inl,
  inr, ◌⊎◌, ◌≢◌, ◌==◌, length, Bool-cases,
}
use cs.Tree.{
  Tree, leaf, node, State, update, draw_unused, add_random, populate, start, fill_tree,
  insert_bst_node, traverse_inorder,
}
use cs.Tree.Inorder.{IsBst, AllElem, ordered_insert, traverse-insert, insert_bst_node-IsBst}
use cs.Tree.Marks.{
  AllElem-insert, Ascending, Ascending-full, Ascending-insert, Fresh, count_up, length-insert,
  unused, unused-fresh, unused-update, unused_some,
}

module _ (node_count : ℕ) where
  -- Some draw yields the number.
  abbrev pub Drawn : ℕ → List ℕ → Type 0
  Drawn v [] = ⊥
  Drawn v (d ∷ draws) = (d % node_count ≡ v) ⊎ Drawn v draws

  -- The next unmarked number, and the draws for the others that are still to come.
  record Draw (table : ℕ → ℕ) (draws : List ℕ) : Type 0 where
    number : ℕ
    rest : List ℕ
    drawn : draw_unused node_count table draws ≡ some (number, rest)
    unmarked : table number ≡ 0
    below : number < node_count
    left : (w : ℕ) → table w ≡ 0 → w ≢ number → Drawn w draws → Drawn w rest

  Draw-total :
      (table : ℕ → ℕ) (draws : List ℕ) (v : ℕ)
      → 0 < node_count
      → table v ≡ 0
      → Drawn v draws
      → Draw table draws
  unfolding draw_unused
  Draw-total table [] v pos e m = absurd m
  Draw-total table (d ∷ draws) v pos e m = elim (Bool-cases (table (d % node_count) == 0)) [
    | inl free ↦ record {
      number = d % node_count;
      rest = draws;
      drawn = rw free;
      unmarked = ground arith;
      below = grind arith;
      left = λ w f ne k. elim k [ inl at ↦ absurd (ne (sym at)) | inr later ↦ later ];
    }
    | inr taken ↦
        let skip : (w : ℕ) → table w ≡ 0 → Drawn w (d ∷ draws) → Drawn w draws =
          λ w f k. elim k [ inl at ↦ absurd (ground (arith, ap table at)) | inr later ↦ later ] in
        let next = Draw-total table draws v pos e (skip v e m) in
        record {
          number = next.number;
          rest = next.rest;
          drawn = rw taken next.drawn;
          unmarked = next.unmarked;
          below = next.below;
          left = λ w f ne k. next.left w f ne (skip w f k);
        }
  ]

  -- What holds between the rounds, with `left` rounds to go.
  record Inv (left : ℕ) (s : State) : Type 0 where
    bst : IsBst s.root
    filled : s.root ≢ leaf
    ascending : Ascending 0 (traverse_inorder s.root)
    below : AllElem (λ x. x < node_count) (traverse_inorder s.root)
    marked : AllElem (λ x. s.table x ≢ 0) (traverse_inorder s.root)
    size : length (traverse_inorder s.root) + left ≡ node_count
    unmarked : unused s.table node_count ≡ left
    coming : (v : ℕ) → v < node_count → s.table v ≡ 0 → Drawn v s.draws

traverse-insert' :
    (t : Tree) (v : ℕ)
    → t ≢ leaf
    → IsBst t
    → traverse_inorder (insert_bst_node t v) ≡ ordered_insert v (traverse_inorder t)
traverse-insert' leaf v ne b = absurd (ne refl)
traverse-insert' (node l x r) v ne b = traverse-insert l x r v b

insert-ne-leaf : (t : Tree) (v : ℕ) → t ≢ leaf → insert_bst_node t v ≢ leaf
unfolding insert_bst_node
insert-ne-leaf leaf v ne = ne
insert-ne-leaf (node l x r) v ne = ground arith

-- A number that the table does not mark is not in the tree.
Fresh-unmarked :
    (table : ℕ → ℕ) (v : ℕ) (xs : List ℕ) → table v ≡ 0 → AllElem (λ x. table x ≢ 0) xs → Fresh v xs
Fresh-unmarked table v [] e h = tt
Fresh-unmarked table v (x ∷ xs) e h = (λ at. h.0 (ap table at ∙ e), Fresh-unmarked table v xs e h.1)

marked-update :
    (table : ℕ → ℕ) (v : ℕ) (xs : List ℕ)
    → AllElem (λ x. table x ≢ 0) xs
    → AllElem (λ x. update table v 1 x ≢ 0) xs
marked-update table v [] h = tt
marked-update table v (x ∷ xs) h = (ground arith, marked-update table v xs h.1)

add_random-Inv :
    (n left : ℕ) (s : State) (d : Draw n s.table s.draws)
    → Inv n (suc left) s
    → Inv n left (add_random n s (d.number, d.rest))
unfolding add_random
add_random-Inv n left s d v = record {
  bst = insert_bst_node-IsBst s.root d.number v.bst;
  filled = insert-ne-leaf s.root d.number v.filled;
  ascending = rw placed (
      Ascending-insert 0 d.number _ (omega arith)
        (Fresh-unmarked s.table d.number _ d.unmarked v.marked) v.ascending);
  below = rw placed (AllElem-insert (λ x. x < n) d.number _ d.below v.below);
  marked = rw placed (
      AllElem-insert (λ x. update s.table d.number 1 x ≢ 0) d.number _ (ground arith)
        (marked-update s.table d.number _ v.marked));
  size = rw placed (omega (arith, length-insert d.number (traverse_inorder s.root), v.size));
  unmarked = omega (arith, unused-update s.table d.number n d.below d.unmarked, v.unmarked);
  coming = λ w lt e. d.left w (ground arith) (ground arith) (v.coming w lt (ground arith));
}
  where
    placed :
        traverse_inorder (insert_bst_node s.root d.number)
        ≡ ordered_insert d.number (traverse_inorder s.root)
    placed = traverse-insert' s.root d.number v.filled v.bst

-- The `for` loop ends with the tree full.
populate_total :
    (n left : ℕ) (s : State) → Inv n left s → (t : State) × (populate n left s ≡ some t) × Inv n 0 t
unfolding populate
populate_total n zero s v = (s, refl, v)
populate_total n (suc left) s v =
    let (w, lt, e) = unused_some s.table n (omega (arith, v.unmarked)) in
    let d = Draw-total n s.table s.draws w (omega arith) e (v.coming w lt e) in
    let (t, run, u) =
      populate_total n left (add_random n s (d.number, d.rest)) (add_random-Inv n left s d v) in
    (t, rw (d.drawn, populate) run, u)

start-Inv :
    (n : ℕ) (draws : List ℕ)
    → 0 < n
    → ((v : ℕ) → v < n → Drawn n v draws)
    → Inv n (n - 1) (start n draws)
unfolding start traverse_inorder
start-Inv n draws pos all = record {
  bst = (tt, tt, tt, tt);
  filled = ground arith;
  ascending = (omega arith, tt);
  below = (omega arith, tt);
  marked = (ground arith, tt);
  size = omega arith;
  unmarked = omega (arith, unused-update (λ _. 0) (n / 2) n (omega arith) refl, unused-fresh n);
  coming = λ v lt e. all v lt;
}

-- If the draws yield every number below NODE_COUNT at least once, the loops of `main` end and the
-- traversal prints the numbers below NODE_COUNT, each once and in ascending order.
pub fill_tree-count_up :
    (node_count : ℕ) (draws : List ℕ)
    → 0 < node_count
    → ((v : ℕ) → v < node_count → Drawn node_count v draws)
    → (s : State) × (fill_tree node_count draws ≡ some s)
      × (traverse_inorder s.root ≡ count_up 0 node_count)
unfolding fill_tree
fill_tree-count_up n draws pos all =
    let (s, run, v) = populate_total n (n - 1) (start n draws) (start-Inv n draws pos all) in
    (
      s,
      run,
      Ascending-full 0 n n (traverse_inorder s.root) v.ascending v.below (omega (arith, v.size))
          (omega arith),
    )
