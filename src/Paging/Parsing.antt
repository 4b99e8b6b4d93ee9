-- ===== src/Paging/Parsing.antt =====
-- The parameters of proj03/src/params.c, read from the command line and from files, and the output of
-- proj03/src/main.c.
pub mod Output
pub mod Scans
pub mod Files
mod Tests
use cs.Prelude.{
  ℕ, zero, suc, ◌+◌, ◌-◌, ◌*◌, ◌/◌, ◌%◌, ◌^◌, Bool, true, false, ◌&&◌, ◌||◌, List, [], ◌∷◌, ◌++◌,
  length, Option, none, some, ltb, leb, ◌==◌, if◌then◌else◌, min, Outcome, ok, exit, undefined,
  out_of_fuel, ◌>>=◌, from_option, get_elem?,
}
use cs.Prelude.Int.{ℤ, pos, negsuc, sub_ℕ, pos_part}
use cs.WordCount.Text.{Word, skip_space, take_word}
use cs.Arguments.{atoi}
use cs.Paging.{Region, Params, PagingResult}
use cs.Paging.Input.{InputMethod, Source, simulate}

-- `struct param_store`
pub record ParamStore : Type 0 where
  pub input_method : InputMethod
  pub replacement_algorithm : ℤ
  pub num_of_frames : ℤ
  pub total_virtual_address_input_length : ℤ
  pub out_file_name : Word
  pub virtual_regions : List Region
  pub file_params : Option (List ℤ)

-- The value of a digit or a letter; 36 for any other byte.
pub digit_value : ℕ → ℕ
digit_value c =
    if leb 48 c && leb c 57
    then c - 48
    else if leb 97 c && leb c 122
    then c - 87
    else if leb 65 c && leb c 90
    then c - 55
    else 36

-- The digits up to the first byte that is none in the base.
pub read_base : ℕ → ℕ → Word → ℕ
unfolding digit_value
read_base base n [] = n
read_base base n (c ∷ cs) =
    let rest = read_base base (base * n + digit_value c) cs in
    if ltb (digit_value c) base then rest else n

-- `strtol` with base 0, behind the blanks and the sign: "0x" is for base 16, "0" for base 8.
pub read_magnitude : Word → ℕ
unfolding read_base
read_magnitude [] = 0
read_magnitude (c ∷ []) = read_base 10 0 (c ∷ [])
read_magnitude (c ∷ x ∷ cs) =
    if c == 48
    then if x == 120 || x == 88 then read_base 16 0 cs else read_base 8 0 (x ∷ cs)
    else read_base 10 0 (c ∷ x ∷ cs)

-- A `long` of 64 bits: what is too large becomes the largest, or the least.
pub read_long : Word → ℤ
unfolding read_magnitude
read_long [] = pos 0
read_long (c ∷ cs) =
    if c == 45
    then sub_ℕ 0 (min (read_magnitude cs) (2 ^ 63))
    else if c == 43
    then pos (min (read_magnitude cs) (2 ^ 63 - 1))
    else pos (min (read_magnitude (c ∷ cs)) (2 ^ 63 - 1))

pub strtol : Word → ℤ
unfolding read_long
strtol s = read_long (skip_space s)

-- The four bytes as an `int`.
abbrev pub from_u32 : ℕ → ℤ
from_u32 n = if ltb n (2 ^ 31) then pos n else negsuc (2 ^ 32 - 1 - n)

-- `(int)` of a `long`, which wraps.
pub to_int : ℤ → ℤ
to_int (pos n) = from_u32 (n % 2 ^ 32)
to_int (negsuc k) = from_u32 (2 ^ 32 - 1 - k % 2 ^ 32)

-- `(int)strtol(s, NULL, 0)`
pub read_address : Word → ℤ
unfolding strtol to_int
read_address s = to_int (strtol s)

-- `fscanf(fp, " %s", word)` into an array of 11 bytes, the NUL included, behind the blanks.
abbrev pub string_at : List ℕ → Outcome (Option (Word × List ℕ))
string_at [] = ok none
string_at (b ∷ bs) =
    let scanned = take_word (length (b ∷ bs)) (b ∷ bs) in
    if leb (length scanned.0) 10 then ok (some scanned) else undefined

pub scan_string : List ℕ → Outcome (Option (Word × List ℕ))
scan_string file = string_at (skip_space file)

-- The loop over the regions, on fuel.
pub read_regions : ℕ → List ℕ → Outcome (List Region)
unfolding scan_string read_address
read_regions zero file = out_of_fuel
read_regions (suc fuel) file = scan_string file >>= λ first. elim first [
  | none ↦ ok []
  | some (address_base, rest) ↦ scan_string rest >>= λ second. elim second [
    | none ↦ ok []
    | some (address_past_end, rest') ↦ read_regions fuel rest' >>= λ regions. ok (
        record { base = read_address address_base; past_end = read_address address_past_end }
        ∷ regions)
  ]
]

-- The loop over the addresses, on fuel.
pub read_addresses : ℕ → List ℕ → Outcome (List ℤ)
unfolding scan_string read_address
read_addresses zero file = out_of_fuel
read_addresses (suc fuel) file = scan_string file >>= λ first. elim first [
  | none ↦ ok []
  | some (address, rest) ↦
      read_addresses fuel rest >>= λ addresses. ok (read_address address ∷ addresses)
]

-- The link of the dummy node, which is set only if something was read.
abbrev pub first_link : {A : Type 0} → List A → Outcome (List A)
first_link [] = undefined
first_link (node ∷ nodes) = ok (node ∷ nodes)

abbrev pub argument : List Word → ℕ → Outcome Word
argument args i = from_option (get_elem? args i) undefined

-- `open_file` is the contents of the file of that name, if `fopen` can open it.
module _ (open_file : Word → Option (List ℕ)) where
  pub parse_input_virtual_regions : Word → Outcome (List Region)
  unfolding read_regions
  parse_input_virtual_regions fname = do
    file ← from_option (open_file fname) (exit 1)
    regions ← read_regions (suc (length file)) file
    first_link regions

  pub parse_input_virtual_addresses : Word → Outcome (List ℤ)
  unfolding read_addresses
  parse_input_virtual_addresses fname = do
    file ← from_option (open_file fname) (exit 1)
    addresses ← read_addresses (suc (length file)) file
    first_link addresses

  pub parse_random_arguments : List Word → Outcome ParamStore
  unfolding read_address
  parse_random_arguments args = do
    frames ← argument args 1
    num_of_frames ← atoi frames
    out_file_name ← argument args 2
    algorithm ← argument args 4
    replacement_algorithm ← atoi algorithm
    past_end ← argument args 6
    total ← argument args 8
    total_virtual_address_input_length ← atoi total
    ok (record {
      input_method = InputMethod.input_method_random;
      replacement_algorithm = replacement_algorithm;
      num_of_frames = num_of_frames;
      total_virtual_address_input_length = total_virtual_address_input_length;
      out_file_name = out_file_name;
      virtual_regions = record { base = pos 0; past_end = read_address past_end } ∷ [];
      file_params = none;
    })

  pub parse_file_arguments : List Word → Outcome ParamStore
  unfolding parse_input_virtual_regions parse_input_virtual_addresses
  parse_file_arguments args = do
    regions_name ← argument args 1
    virtual_regions ← parse_input_virtual_regions regions_name
    addresses_name ← argument args 2
    virtual_addresses ← parse_input_virtual_addresses addresses_name
    frames ← argument args 3
    num_of_frames ← atoi frames
    out_file_name ← argument args 4
    algorithm ← argument args 6
    replacement_algorithm ← atoi algorithm
    ok (record {
      input_method = InputMethod.input_method_file;
      replacement_algorithm = replacement_algorithm;
      num_of_frames = num_of_frames;
      total_virtual_address_input_length = pos (length virtual_addresses);
      out_file_name = out_file_name;
      virtual_regions = virtual_regions;
      file_params = some virtual_addresses;
    })

  -- `args` begins with the name of the program, and its length is `argc`.
  pub parse_arguments : List Word → Outcome ParamStore
  unfolding parse_random_arguments parse_file_arguments
  parse_arguments args =
      if length args == 9 then parse_random_arguments args else parse_file_arguments args
