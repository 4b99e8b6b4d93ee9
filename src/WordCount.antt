-- ===== src/WordCount.antt =====
-- proj01/src/common.c: the word counters' shared part. A file is scanned into an array of words with
-- their counts, arrays are added up, and the result is written in the order of `strcmp`.
pub mod Text
pub mod Counts
pub mod Validity
pub mod Sorted
pub mod Parse
pub mod Stored
pub mod Tests
use mathlib.Core.Option
use cs.Prelude.{
  ℕ, zero, suc, ◌+◌, ◌-◌, ◌*◌, Bool, true, false, List, [], ◌∷◌, ◌++◌, Option, none, some, map,
  length, ltb, ◌==◌, if◌then◌else◌, Ordering, Outcome, ok, exit, out_of_fuel, ◌>>=◌, ◌>>◌, require,
  from_option,
}
use cs.WordCount.Text.{Word, str_toupper, scan_word, strcmp, same}

-- `struct word_count_pair`; that a count is an `int` is left to the theorems.
pub record Pair : Type 0 where
  pub word : Word
  pub count : ℕ

-- `struct word_count_array`: the list holds the `used_size` entries in use.
pub record WordCountArray : Type 0 where
  pub pairs : List Pair
  pub allocated_size : ℕ

abbrev pub used_size : WordCountArray → ℕ
used_size a = length a.pairs

abbrev pub FileSystem : Type 0
FileSystem = Word → Option (List ℕ)

unfoldable pub init_word_count_array : WordCountArray
init_word_count_array = record { pairs = []; allocated_size = 20 }

pub shrink_array_to_fit : WordCountArray → WordCountArray
shrink_array_to_fit a = record a { allocated_size = used_size a }

pub realloc_array_if_full : WordCountArray → WordCountArray
realloc_array_if_full a =
    if a.allocated_size == used_size a
    then record a { allocated_size = a.allocated_size * 2 }
    else a

-- `none` where the loop finds no entry of the word (the C function returns 0).
pub try_increment_existing_word : List Pair → Word → ℕ → Option (List Pair)
try_increment_existing_word [] word count = none
try_increment_existing_word (p ∷ ps) word count =
    if same p.word word
    then some (record p { count = p.count + count } ∷ ps)
    else Option.map (λ qs. p ∷ qs) (try_increment_existing_word ps word count)

-- The entry at index `used_size`.
pub insert_word_pair : WordCountArray → Word → ℕ → WordCountArray
unfolding realloc_array_if_full
insert_word_pair a word count =
    let b = realloc_array_if_full a in
    record b { pairs = b.pairs ++ (record { word = word; count = count } ∷ []) }

pub increment_word : WordCountArray → Word → ℕ → WordCountArray
unfolding try_increment_existing_word insert_word_pair
increment_word a word count = elim (try_increment_existing_word a.pairs word count) [
  | none ↦ insert_word_pair a word count
  | some ps ↦ record a { pairs = ps }
]

-- The loop over the entries of the other array.
unfoldable pub add_pairs : WordCountArray → List Pair → WordCountArray
unfolding increment_word
add_pairs total [] = total
add_pairs total (p ∷ ps) = add_pairs (increment_word total p.word p.count) ps

pub add_array_to_array : WordCountArray → WordCountArray → WordCountArray
unfolding add_pairs
add_array_to_array total other = add_pairs total other.pairs

-- The loop of `parse_in_file`, on fuel.
pub parse_words : ℕ → List ℕ → WordCountArray → Outcome WordCountArray
unfolding increment_word
parse_words zero file a = out_of_fuel
parse_words (suc fuel) file a = elim (scan_word file) [
  | none ↦ ok a
  | some (word, rest) ↦ parse_words fuel rest (increment_word a (str_toupper word) 1)
]

pub parse_in_file : FileSystem → Word → Outcome WordCountArray
unfolding parse_words shrink_array_to_fit init_word_count_array
parse_in_file files name = do
  file ← from_option (files name) (exit 2)
  a ← parse_words (length file + 1) file init_word_count_array
  ok (shrink_array_to_fit a)

-- `qsort` by `word_count_pair_comparer`, as an insertion sort.
pub insert_sorted : Pair → List Pair → List Pair
insert_sorted p [] = p ∷ []
insert_sorted p (q ∷ qs) = elim (strcmp q.word p.word) [
  | Ordering.lt ↦ q ∷ insert_sorted p qs
  | _ ↦ p ∷ q ∷ qs
]

pub sort_pairs : List Pair → List Pair
unfolding insert_sorted
sort_pairs [] = []
sort_pairs (p ∷ ps) = insert_sorted p (sort_pairs ps)

pub sort_word_count_array : WordCountArray → WordCountArray
unfolding sort_pairs
sort_word_count_array a = record a { pairs = sort_pairs a.pairs }

-- The lines of the output file, each a word and its count; exit 3 where the file cannot be opened.
pub write_output_file : Bool → WordCountArray → Outcome (List Pair)
unfolding sort_word_count_array
write_output_file opened a = do require opened 3; ok (sort_word_count_array a).pairs
