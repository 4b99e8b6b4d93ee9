-- ===== src/Arguments/Tests.antt =====
-- Runs of `parse_arguments` of proj01/src/common.c.
use cs.Prelude.{◌≡◌, refl, List, [], ◌∷◌, true, ok, exit}
use cs.Prelude.Int.{pos}
use cs.WordCount.Text.{Word, skip_space, is_space}
use cs.Arguments.{CommandLineArgs, atoi, parse_arguments}
use cs.Arguments.Parsed.{IsCounted, parse_arguments-IsCounted}

-- "128", "o", "2" and the names "a" and "b".
abbrev sample_names : List Word
sample_names = (97 ∷ []) ∷ (98 ∷ []) ∷ []

abbrev sample_arguments : List Word
sample_arguments = (112 ∷ []) ∷ (49 ∷ 50 ∷ 56 ∷ []) ∷ (111 ∷ []) ∷ (50 ∷ []) ∷ sample_names

abbrev sample_parsed : CommandLineArgs
sample_parsed = record {
  msg_size = pos 128;
  out_file_name = 111 ∷ [];
  in_file_count = pos 2;
  in_file_names = sample_names;
}

size_read : atoi (49 ∷ 50 ∷ 56 ∷ []) ≡ ok (pos 128)
unfolding atoi skip_space is_space
size_read = refl

count_read : atoi (50 ∷ []) ≡ ok (pos 2)
unfolding atoi skip_space is_space
count_read = refl

accepted : parse_arguments sample_arguments true ≡ ok sample_parsed
unfolding parse_arguments skip_space is_space
accepted = refl

parse_arguments-IsCounted_example : IsCounted sample_parsed
parse_arguments-IsCounted_example =
    parse_arguments-IsCounted sample_arguments true sample_parsed accepted

-- A size that is not one of those allowed.
size_refused :
    parse_arguments ((112 ∷ []) ∷ (55 ∷ []) ∷ (111 ∷ []) ∷ (50 ∷ []) ∷ sample_names) true ≡ exit 1
unfolding parse_arguments skip_space is_space
size_refused = refl
