-- ===== src/Paging/Parsing/Output.antt =====
-- The output of proj03/src/main.c.
pub mod Hex
pub mod Written
use cs.Prelude.{
  ℕ, zero, suc, ◌+◌, ◌/◌, ◌%◌, Bool, true, false, List, [], ◌∷◌, ◌++◌, Option, none, some, ltb,
  if◌then◌else◌, Outcome, ok, undefined, ◌>>=◌, ◌>>◌, require, from_option,
}
use cs.Prelude.Int.{ℤ, pos, negsuc, pos_part}
use cs.WordCount.Text.{Word}
use cs.Paging.{max_frame_count, Params, PagingResult}
use cs.Paging.Address.{to_u32}
use cs.Paging.Input.{InputMethod, input_method_random, input_method_file, Source, simulate}
use cs.Paging.Parsing.{ParamStore, parse_arguments}

pub hex_digit : ℕ → ℕ
hex_digit n = if ltb n 10 then 48 + n else 87 + n

-- The lowest digits, the highest of them first.
pub hex_digits : ℕ → ℕ → Word
unfolding hex_digit
hex_digits zero n = []
hex_digits (suc k) n = hex_digits k (n / 16) ++ (hex_digit (n % 16) ∷ [])

-- "0x%08x"
pub print_hex : ℕ → Word
unfolding hex_digits
print_hex n = 48 ∷ 120 ∷ hex_digits 8 n

-- The address of a result; one that was not set is undefined.
abbrev pub print_access : PagingResult → Outcome Word
print_access result =
    let physical =
      from_option result.physical_address undefined >>= λ address. ok (print_hex address) in
    if result.unused_memory_access_exception
    then ok (print_hex (to_u32 result.virtual_address) ++ (32 ∷ 101 ∷ []))
    else physical

abbrev pub print_prefix : InputMethod → PagingResult → Word
print_prefix input_method_random result = print_hex (to_u32 result.virtual_address) ++ (32 ∷ [])
print_prefix input_method_file result = []

abbrev pub print_fault : PagingResult → Word
print_fault result = if result.caused_page_fault then 32 ∷ 120 ∷ 10 ∷ [] else 10 ∷ []

-- The loop of `print_paging_results`; there are `total_virtual_address_input_length` results.
pub print_results : InputMethod → List PagingResult → Outcome Word
unfolding print_hex
print_results method [] = ok []
print_results method (result ∷ results) = do
  access ← print_access result
  rest ← print_results method results
  ok (print_prefix method result ++ (access ++ (print_fault result ++ rest)))

-- A number of frames below 0 is none, and an algorithm below 0 is neither of the two.
-- `num_of_frames` as the end of the loop `i != num_of_frames`: one below 0 is never met, so that the loop
-- leaves the frame table where no frame is free.
abbrev pub frame_end : ℤ → ℕ
frame_end (pos n) = n
frame_end (negsuc n) = suc max_frame_count

abbrev pub params_of : ParamStore → Params
params_of store = record {
  replacement_algorithm = pos_part store.replacement_algorithm;
  num_of_frames = frame_end store.num_of_frames;
  virtual_regions = store.virtual_regions;
}

abbrev pub addresses_of : Option (List ℤ) → List ℤ
addresses_of none = []
addresses_of (some addresses) = addresses

abbrev pub source_of : ParamStore → Source
source_of store = record {
  input_method = store.input_method;
  total_virtual_address_input_length = store.total_virtual_address_input_length;
  virtual_regions = store.virtual_regions;
  virtual_addresses = addresses_of store.file_params;
}

module _ (rand : ℕ → ℕ) (open_file : Word → Option (List ℕ)) (can_write : Word → Bool) where
  pub print_paging_results : ParamStore → List PagingResult → Outcome Word
  unfolding print_results
  print_paging_results store results = do
    require (can_write store.out_file_name) 1
    print_results store.input_method results

  -- What is written to the output file.
  pub main : List Word → Outcome Word
  unfolding print_paging_results
  main args = do
    param_store ← parse_arguments open_file args
    let fuel = suc (pos_part param_store.total_virtual_address_input_length)
    results ← simulate rand fuel (params_of param_store) (source_of param_store)
    print_paging_results param_store results
