-- ===== src/ThreadCounter/Bounds.antt =====
-- The counts of proj01/src/tword.c stay within an `int`.
use cs.Prelude.{
  ℕ, ◌+◌, ◌≤◌, ◌≡◌, List, [], ◌∷◌, length, length-map, length-append, Option, none, some, true,
  arith, ok, ap,
}
use cs.WordCount.Text.{Word, str_toupper}
use cs.WordCount.Validity.{Positive}
use cs.WordCount.Counts.{count_of}
use cs.WordCount.Sorted.{Ascending}
use cs.WordCount.Parse.{occurrences, text_words}
use cs.WordCount.Stored.{AtMost, AtMost-of_counts, text_words-le, occurrences-le}
use cs.WordCount.{Pair, FileSystem}
use cs.ThreadCounter.{main}
use cs.ThreadCounter.Correct.{
  AllOpen, IsSchedule, file_words, input_words, file_words_open, main-occurrences,
}

abbrev pub file_size : Option (List ℕ) → ℕ
file_size none = 0
file_size (some file) = length file

-- The bytes of all files.
unfoldable pub input_size : FileSystem → List Word → ℕ
input_size files [] = 0
input_size files (name ∷ names) = file_size (files name) + input_size files names

length-file_words :
    (files : FileSystem) (name : Word) (file : List ℕ)
    → files name ≡ some file
    → length (file_words files name) ≤ length file
length-file_words files name file e = omega (
  arith,
  ap length (file_words_open files name file e),
  length-map (text_words file) str_toupper,
  text_words-le (length file + 1) file (omega arith),
)

length-input_words :
    (files : FileSystem) (names : List Word)
    → AllOpen files names
    → length (input_words files names) ≤ input_size files names
unfolding input_words input_size
length-input_words files [] opened = omega arith
length-input_words files (name ∷ names) ((file, e), opened) =
    let head : length (file_words files name) ≤ file_size (files name) =
      rw e (length-file_words files name file e) in
    omega (
      arith,
      head,
      length-append (file_words files name) (input_words files names),
      length-input_words files names opened,
    )

-- When the input files together have fewer than 2 ^ 31 bytes, they and the output file can be opened and the
-- threads of all files have ended, in any order, `main` writes each word of the files, cut and in upper case
-- as `parse_in_file` stores it, with the number of its occurrences in all files together, in strictly
-- ascending order of the words; all these numbers are positive and an `int`.
pub main_counts :
    (files : FileSystem) (names : List Word) (order : List ℕ)
    → AllOpen files names
    → IsSchedule (length names) order
    → input_size files names ≤ 2147483647
    → (lines : List Pair) × (main files names order true ≡ ok lines)
      × Ascending lines
      × Positive lines
      × AtMost 2147483647 lines
      × ((v : Word) → count_of v lines ≡ occurrences v (input_words files names))
main_counts files names order opened schedule small =
    let (lines, run, ascending, positive, counts) =
      main-occurrences files names order opened schedule in
    (
      lines,
      run,
      ascending,
      positive,
      AtMost-of_counts 2147483647 lines (λ v. omega (
        arith,
        counts v,
        occurrences-le v (input_words files names),
        length-input_words files names opened,
      )),
      counts,
    )
