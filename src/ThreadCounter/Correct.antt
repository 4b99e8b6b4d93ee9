-- ===== src/ThreadCounter/Correct.antt =====
-- What proj01/src/tword.c writes for the words of all its files.
use cs.Prelude.{
  ℕ, zero, suc, ◌+◌, ◌<◌, ◌≡◌, ◌∙◌, refl, ap, subst, true, List, [], ◌∷◌, ◌++◌, none, some, map,
  inl, inr, ◌⊎◌, length, get_elem?, ◌==◌, Bool-cases, arith, ok,
}
use cs.WordCount.Text.{Word, str_toupper}
use cs.WordCount.Counts.{count_of, count_of-add_array_to_array}
use cs.WordCount.Validity.{
  IsValid, Positive, init-IsValid, init-Positive, add_array_to_array-IsValid,
  add_array_to_array-Positive,
}
use cs.WordCount.Sorted.{Ascending, write_output_file_lem}
use cs.WordCount.Parse.{
  Counts, text_words, occurrences, occurrences-nil, occurrences-append, parse_in_file-Counts,
  init-count,
}
use cs.WordCount.{Pair, WordCountArray, FileSystem, init_word_count_array, add_array_to_array}
use cs.ThreadCounter.{Slots, update, run_child_actions, await_worker_threads, add_sub_arrays, main}

-- Every named file can be opened.
abbrev pub AllOpen : FileSystem → List Word → Type 0
AllOpen files [] = Unit {0}
AllOpen files (name ∷ names) = ((file : List ℕ) × (files name ≡ some file)) × AllOpen files names

-- The words of one file, in upper case, each up to its first NUL.
abbrev pub file_words : FileSystem → Word → List Word
file_words files name = elim (files name) [
  | none ↦ []
  | some file ↦ map str_toupper (text_words file)
]

pub file_words_open :
    (files : FileSystem) (name : Word) (file : List ℕ)
    → files name ≡ some file
    → map str_toupper (text_words file) ≡ file_words files name
file_words_open files name file e = rw (e, file_words)

-- Those of all files.
unfoldable pub input_words : FileSystem → List Word → List Word
input_words files [] = []
input_words files (name ∷ names) = file_words files name ++ input_words files names

abbrev pub Ended : ℕ → List ℕ → Type 0
Ended i [] = ⊥
Ended i (j ∷ order) = (j ≡ i) ⊎ Ended i order

-- The threads that `main` starts are those that end: one for each index of a file.
pub record IsSchedule (n : ℕ) (order : List ℕ) : Type 0 where
  pub started : (i : ℕ) → Ended i order → i < n
  pub joined : (i : ℕ) → i < n → Ended i order

module _ (files : FileSystem) (names : List Word) where
  -- The slot holds the counts of its file.
  record Filled (slots : Slots) (i : ℕ) : Type 0 where
    name : Word
    array : WordCountArray
    named : get_elem? names i ≡ some name
    held : slots i ≡ some array
    counts : Counts (file_words files name) array

open_named :
    (files : FileSystem) (names : List Word) (i : ℕ)
    → AllOpen files names
    → i < length names
    → (name : Word) × (file : List ℕ) × (get_elem? names i ≡ some name) × (files name ≡ some file)
open_named files [] i h lt = absurd (omega arith)
open_named files (name ∷ names) zero h lt = (name, h.0.0, refl, h.0.1)
open_named files (name ∷ names) (suc i) h lt = open_named files names i h.1 (omega arith)

run_child-Filled :
    (files : FileSystem) (names : List Word) (slots : Slots) (i : ℕ)
    → AllOpen files names
    → i < length names
    → (slots' : Slots) × (run_child_actions files names slots i ≡ ok slots')
      × Filled files names slots' i
      × ((j : ℕ) → Filled files names slots j → Filled files names slots' j)
unfolding run_child_actions
run_child-Filled files names slots i h lt =
    let (name, file, at, opens) = open_named files names i h lt in
    let (a, run, c) = parse_in_file-Counts files name file opens in
    let here : Filled files names (update slots i a) i = record {
      name = name;
      array = a;
      named = at;
      held = ground arith;
      counts = rw (opens, file_words) c;
    } in
    (
      update slots i a,
      rw (at, run_child_actions, run),
      here,
      λ j f. elim (Bool-cases (i == j)) [
        | inl same ↦ subst (Filled files names (update slots i a)) (ground arith) here
        | inr other ↦ record {
          name = f.name;
          array = f.array;
          named = f.named;
          held = rw other f.held;
          counts = f.counts;
        }
      ],
    )

await_worker_threads-Filled :
    (files : FileSystem) (names : List Word) (order : List ℕ) (slots : Slots)
    → AllOpen files names
    → ((i : ℕ) → Ended i order → i < length names)
    → (slots' : Slots) × (await_worker_threads files names order slots ≡ ok slots')
      × ((i : ℕ) → Ended i order → Filled files names slots' i)
      × ((i : ℕ) → Filled files names slots i → Filled files names slots' i)
unfolding await_worker_threads
await_worker_threads-Filled files names [] slots h below = (slots, refl, λ i e. absurd e, λ i f. f)
await_worker_threads-Filled files names (i ∷ order) slots h below =
    let (mid, first, here, kept) = run_child-Filled files names slots i h (below i (inl refl)) in
    let (end, rest, filled, held) =
      await_worker_threads-Filled files names order mid h (λ j e. below j (inr e)) in
    (
      end,
      rw (first, await_worker_threads) rest,
      λ j e. elim e [
        | inl at ↦ subst (Filled files names end) at (held i here)
        | inr later ↦ filled j later
      ],
      λ j f. held j (kept j f),
    )

no_words :
    (v : Word) (total : WordCountArray)
    → count_of v total.pairs ≡ count_of v total.pairs + occurrences v []
no_words v total = omega (arith, occurrences-nil v)

-- What holds of the total when the files `names` are still to be added.
record Added (names_words : List Word) (total r : WordCountArray) : Type 0 where
  valid : IsValid r
  positive : Positive r.pairs
  counts : (v : Word) → count_of v r.pairs ≡ count_of v total.pairs + occurrences v names_words

add_sub_arrays-Added :
    (files : FileSystem) (names rest : List Word) (slots : Slots) (i : ℕ) (total : WordCountArray)
    → ((j : ℕ) → get_elem? names (i + j) ≡ get_elem? rest j)
    → ((j : ℕ) → j < length rest → Filled files names slots (i + j))
    → IsValid total
    → Positive total.pairs
    → (r : WordCountArray) × (add_sub_arrays slots (length rest) i total ≡ ok r)
      × Added (input_words files rest) total r
unfolding add_sub_arrays input_words
add_sub_arrays-Added files names [] slots i total same filled v h =
    (total, refl, record { valid = v; positive = h; counts = λ u. no_words u total })
add_sub_arrays-Added files names (name ∷ rest) slots i total same filled v h =
    let at : i + 0 ≡ i = omega arith in
    let f = subst (Filled files names slots) at (filled 0 (omega arith)) in
    let named : f.name ≡ name = ground (arith, f.named, rw at at (same 0)) in
    let next = add_array_to_array total f.array in
    let (r, run, added) =
      add_sub_arrays-Added files names rest slots (i + 1) next
        (λ j. ap (get_elem? names) (omega arith) ∙ same (suc j))
        (λ j lt. subst (Filled files names slots) (omega arith) (filled (suc j) (omega arith)))
        (add_array_to_array-IsValid total f.array v)
        (add_array_to_array-Positive total f.array f.counts.positive h) in
    (
      r,
      rw (f.held, add_sub_arrays) run,
      record {
        valid = added.valid;
        positive = added.positive;
        counts = λ u. omega (
          arith,
          added.counts u,
          count_of-add_array_to_array u total f.array,
          f.counts.counts u,
          ap (λ n. occurrences u (file_words files n)) named,
          occurrences-append u (file_words files name) (input_words files rest),
        );
      },
    )

-- When every input file and the output file can be opened and the threads of all files have ended,
-- in any order, `main` writes each word of the files, as `str_toupper` leaves it, with the number of its
-- occurrences in all files together, in strictly ascending order of the words and with positive
-- counts.
pub main-occurrences :
    (files : FileSystem) (names : List Word) (order : List ℕ)
    → AllOpen files names
    → IsSchedule (length names) order
    → (lines : List Pair) × (main files names order true ≡ ok lines)
      × Ascending lines
      × Positive lines
      × ((v : Word) → count_of v lines ≡ occurrences v (input_words files names))
unfolding main
main-occurrences files names order h schedule =
    let (slots, first, filled, _) =
      await_worker_threads-Filled files names order (λ _. none) h schedule.started in
    let (total, second, added) =
      add_sub_arrays-Added files names names slots 0 init_word_count_array
        (λ j. ap (get_elem? names) (omega arith))
        (λ j lt. subst (Filled files names slots) (omega arith) (filled j (schedule.joined j lt)))
        init-IsValid init-Positive in
    let (lines, third, ascending, positive, counts) =
      write_output_file_lem total added.valid.distinct added.positive in
    (
      lines,
      rw (first, main, second) third,
      ascending,
      positive,
      λ v. counts v ∙ added.counts v ∙ init-count v (occurrences v (input_words files names)),
    )
