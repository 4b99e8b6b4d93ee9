-- ===== src/WordCount/Tests.antt =====
-- Runs of proj01/src/common.c on two small files.
use cs.Prelude.{
  ℕ, ◌≡◌, ◌≢◌, refl, List, [], ◌∷◌, none, some, true, ◌==◌, if◌then◌else◌, arith, map, ok,
}
use cs.WordCount.Text.{is_space, Word, same, toupper, str_toupper, scan_word}
use cs.WordCount.Counts.{count_of}
use cs.WordCount.Validity.{words, All, IsValid, Distinct, increment_word-IsValid}
use cs.WordCount.Sorted.{write_output_file_unique}
use cs.WordCount.Parse.{NoNul, IsStored, Counts, text_words}
use cs.WordCount.Stored.{AtMost, parse_in_file_lem, parse_in_file-IsStored}
use cs.WordCount.{
  Pair, WordCountArray, FileSystem, increment_word, parse_in_file, write_output_file,
}

-- "a b A" and "b".
abbrev pub first_file : List ℕ
first_file = 97 ∷ 32 ∷ 98 ∷ 32 ∷ 65 ∷ 10 ∷ []

abbrev pub second_file : List ℕ
second_file = 98 ∷ []

abbrev pub sample_files : FileSystem
sample_files [] = none
sample_files (b ∷ bs) =
    if b == 1 then some first_file else if b == 2 then some second_file else none

abbrev pub first_array : WordCountArray
first_array = record {
  pairs = record { word = 65 ∷ []; count = 2 } ∷ record { word = 66 ∷ []; count = 1 } ∷ [];
  allocated_size = 2;
}

abbrev pub second_array : WordCountArray
second_array = record { pairs = record { word = 66 ∷ []; count = 1 } ∷ []; allocated_size = 1 }

abbrev unsorted : List Pair
unsorted = record { word = 66 ∷ []; count = 1 } ∷ record { word = 65 ∷ []; count = 2 } ∷ []

pub parse_first : parse_in_file sample_files (1 ∷ []) ≡ ok first_array
unfolding parse_in_file scan_word is_space str_toupper same
parse_first = refl

pub parse_second : parse_in_file sample_files (2 ∷ []) ≡ ok second_array
unfolding parse_in_file scan_word is_space str_toupper same
parse_second = refl

pub first_text : NoNul first_file
first_text = omega arith

letters_differ : (x y : ℕ) → x ≢ y → (x ∷ []) ≢ (y ∷ [])
letters_differ x y n e = n cc

first-Distinct : Distinct (words first_array.pairs)
first-Distinct = ((letters_differ 66 65 (omega arith), tt), (tt, tt))

turned-Distinct : Distinct (words unsorted)
turned-Distinct = ((letters_differ 65 66 (omega arith), tt), (tt, tt))

first_array-IsValid : IsValid first_array
first_array-IsValid = record {
  distinct = first-Distinct;
  room = omega arith;
  allocated = omega arith;
}

increment_word-IsValid_example : IsValid (increment_word first_array (67 ∷ []) 4)
increment_word-IsValid_example = increment_word-IsValid first_array (67 ∷ []) 4 first_array-IsValid

-- The same entries in the other order.
abbrev turned_array : WordCountArray
turned_array = record { pairs = unsorted; allocated_size = 20 }

same_counts : (v : Word) → count_of v first_array.pairs ≡ count_of v turned_array.pairs
unfolding count_of
same_counts v = omega arith

write_output_file_unique_example :
    write_output_file true first_array ≡ write_output_file true turned_array
write_output_file_unique_example =
    write_output_file_unique true first_array turned_array first-Distinct turned-Distinct
      (omega arith) (omega arith) same_counts

parse_in_file_lem_example :
    (a : WordCountArray) × (parse_in_file sample_files (1 ∷ []) ≡ ok a)
    × Counts (map str_toupper (text_words first_file)) a
    × AtMost 2147483647 a.pairs
parse_in_file_lem_example = parse_in_file_lem sample_files (1 ∷ []) first_file refl (omega arith)

-- "a" and "b" with a NUL between them are one word for `fscanf`, and the string "A" from then on.
nul_ends_word : str_toupper (97 ∷ 0 ∷ 98 ∷ []) ≡ 65 ∷ []
unfolding str_toupper toupper
nul_ends_word = refl

parse_in_file-IsStored_example : All IsStored (words first_array.pairs)
parse_in_file-IsStored_example =
    parse_in_file-IsStored sample_files (1 ∷ []) first_file first_array refl first_text parse_first
