-- ===== src/Paging/Parsing/Tests.antt =====
-- Files and arguments of proj03/src, read.
use cs.Prelude.{
  ℕ, ◌≡◌, refl, arith, List, [], ◌∷◌, Option, none, some, ok, Ends, subst, ◌==◌, if◌then◌else◌,
}
use cs.Prelude.Int.{pos, negsuc}
use cs.WordCount.Text.{Word, skip_space, is_space, take_word}
use cs.Arguments.{atoi, read_signed, read_digits}
use cs.Paging.{Region}
use cs.Paging.Input.{InputMethod}
use cs.Paging.Parsing.{
  read_address, read_regions, read_base, read_magnitude, read_long, strtol, to_int, digit_value,
  parse_arguments, parse_file_arguments, ParamStore, parse_input_virtual_regions,
  parse_input_virtual_addresses, read_addresses, scan_string,
}
use cs.Paging.Parsing.Files.{IsParsed, parse_arguments_defined}
use cs.Paging.Parsing.Output.Written.{region_lines, read_regions-written}

-- One of the lower half of the addresses, and one of the upper.
abbrev two_regions : List Region
two_regions =
    record { base = pos 4096; past_end = pos 8192 }
    ∷ record { base = negsuc 4095; past_end = negsuc 0 }
    ∷ []

read_regions-written_example : read_regions 3 (region_lines two_regions) ≡ ok two_regions
read_regions-written_example = read_regions-written two_regions 3 (omega arith) (omega arith)

-- "0xfffff000" is an address below 0, and "010" is in base 8.
upper_address :
    read_address (48 ∷ 120 ∷ 102 ∷ 102 ∷ 102 ∷ 102 ∷ 102 ∷ 48 ∷ 48 ∷ 48 ∷ []) ≡ negsuc 4095
unfolding read_address strtol read_long read_magnitude read_base digit_value to_int skip_space
    is_space
upper_address = refl

octal_address : read_address (48 ∷ 49 ∷ 48 ∷ []) ≡ pos 8
unfolding read_address strtol read_long read_magnitude read_base digit_value to_int skip_space
    is_space
octal_address = refl

-- The file "r" has the words "0x0" and "0x10", the file "a" the word "4".
abbrev two_files : Word → Option (List ℕ)
two_files [] = none
two_files (b ∷ bs) =
    if b == 114
    then some (48 ∷ 120 ∷ 48 ∷ 32 ∷ 48 ∷ 120 ∷ 49 ∷ 48 ∷ 10 ∷ [])
    else if b == 97
    then some (52 ∷ 10 ∷ [])
    else none

-- "paging r a 4 out -a 1"
abbrev seven_arguments : List Word
seven_arguments = [] ∷ (114 ∷ []) ∷ (97 ∷ []) ∷ (52 ∷ []) ∷ (111 ∷ []) ∷ [] ∷ (49 ∷ []) ∷ []

abbrev seven_store : ParamStore
seven_store = record {
  input_method = InputMethod.input_method_file;
  replacement_algorithm = pos 1;
  num_of_frames = pos 4;
  total_virtual_address_input_length = pos 1;
  out_file_name = 111 ∷ [];
  virtual_regions = record { base = pos 0; past_end = pos 16 } ∷ [];
  file_params = some (pos 4 ∷ []);
}

seven_read : parse_arguments two_files seven_arguments ≡ ok seven_store
unfolding parse_arguments parse_file_arguments parse_input_virtual_regions
    parse_input_virtual_addresses read_regions read_addresses scan_string read_address strtol
    read_long read_magnitude read_base digit_value to_int skip_space is_space take_word atoi
    read_signed read_digits
seven_read = refl

parse_arguments_defined_example : IsParsed two_files seven_arguments seven_store
parse_arguments_defined_example =
    subst (Ends (IsParsed two_files seven_arguments)) seven_read
      (parse_arguments_defined two_files seven_arguments)
