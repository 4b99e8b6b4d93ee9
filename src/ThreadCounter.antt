-- ===== src/ThreadCounter.antt =====
-- proj01/src/tword.c: one thread for each input file fills a slot of `sub_arrays`; `main` joins them
-- all, adds the arrays up in order and writes the result.
pub mod Correct
pub mod Bounds
pub mod Tests
use cs.Prelude.{
  ℕ, zero, suc, ◌+◌, Bool, List, [], ◌∷◌, Option, none, some, length, get_elem?, ◌==◌,
  if◌then◌else◌, Outcome, ok, undefined, ◌>>=◌, from_option,
}
use cs.WordCount.Text.{Word}
use cs.WordCount.{
  Pair, WordCountArray, FileSystem, init_word_count_array, add_array_to_array, parse_in_file,
  write_output_file,
}

-- `sub_arrays`; `none` is a slot that no thread has written.
abbrev pub Slots : Type 0
Slots = ℕ → Option WordCountArray

abbrev pub update : Slots → ℕ → WordCountArray → Slots
update slots i a j = if i == j then some a else slots j

module _ (files : FileSystem) (in_file_names : List Word) where
  pub run_child_actions : Slots → ℕ → Outcome Slots
  run_child_actions slots i = do
    name ← from_option (get_elem? in_file_names i) undefined
    a ← parse_in_file files name
    ok (update slots i a)

  -- The threads in the order in which they end. Each writes its own slot only.
  pub await_worker_threads : List ℕ → Slots → Outcome Slots
  unfolding run_child_actions
  await_worker_threads [] slots = ok slots
  await_worker_threads (i ∷ order) slots =
      run_child_actions slots i >>= λ slots'. await_worker_threads order slots'

-- The loop of `main` from index `i` on, by the rounds left.
pub add_sub_arrays : Slots → ℕ → ℕ → WordCountArray → Outcome WordCountArray
add_sub_arrays slots zero i total = ok total
add_sub_arrays slots (suc n) i total = elim (slots i) [
  | none ↦ undefined
  | some a ↦ add_sub_arrays slots n (i + 1) (add_array_to_array total a)
]

-- `main` after `parse_arguments`; `opened` says whether the output file can be opened.
pub main : FileSystem → List Word → List ℕ → Bool → Outcome (List Pair)
unfolding await_worker_threads add_sub_arrays
main files in_file_names order opened = do
  slots ← await_worker_threads files in_file_names order (λ _. none)
  total ← add_sub_arrays slots (length in_file_names) 0 init_word_count_array
  write_output_file opened total
