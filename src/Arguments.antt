-- ===== src/Arguments.antt =====
-- `parse_arguments` of proj01/src/common.c, for the process counter, which has a message size, and the
-- thread counter, which has none.
pub mod Parsed
mod Tests
use cs.Prelude.{
  ℕ, zero, suc, ◌+◌, ◌-◌, ◌*◌, Bool, true, false, ◌&&◌, ◌||◌, List, [], ◌∷◌, length, ltb, leb, ◌==◌,
  if◌then◌else◌, Outcome, ok, exit, undefined, ◌>>=◌, ◌>>◌, require,
}
use cs.Prelude.Int.{ℤ, pos, negsuc, sub_ℕ}
use cs.WordCount.Text.{Word, skip_space}

-- `atoi`: blanks, a sign, and digits up to the first byte that is none. A number that is no `int` is
-- undefined.
unfoldable pub read_digits : ℕ → Word → ℕ
read_digits n [] = n
read_digits n (c ∷ cs) =
    let rest = read_digits (10 * n + (c - 48)) cs in if leb 48 c && leb c 57 then rest else n

abbrev pub in_int : ℕ → ℕ → ℤ → Outcome ℤ
in_int n limit value = if leb n limit then ok value else undefined

unfoldable pub read_signed : Word → Outcome ℤ
unfolding read_digits
read_signed [] = ok (pos 0)
read_signed (c ∷ cs) =
    let minus = in_int (read_digits 0 cs) 2147483648 (sub_ℕ 0 (read_digits 0 cs)) in
    let plus = in_int (read_digits 0 cs) 2147483647 (pos (read_digits 0 cs)) in
    let bare = in_int (read_digits 0 (c ∷ cs)) 2147483647 (pos (read_digits 0 (c ∷ cs))) in
    if c == 45 then minus else if c == 43 then plus else bare

unfoldable pub atoi : Word → Outcome ℤ
unfolding read_signed
atoi s = read_signed (skip_space s)

-- `struct command_line_args`; the list holds the file names that are set.
pub record CommandLineArgs : Type 0 where
  pub msg_size : ℤ
  pub out_file_name : Word
  pub in_file_count : ℤ
  pub in_file_names : List Word

abbrev pub max_in_file_count : ℕ
max_in_file_count = 8

abbrev pub is_msg_size : ℕ → Bool
is_msg_size n = n == 128 || n == 256 || n == 512 || n == 1024 || n == 2048 || n == 4096

abbrev pub is_valid_msg_size : ℤ → Bool
is_valid_msg_size (pos n) = is_msg_size n
is_valid_msg_size (negsuc n) = false

abbrev pub is_count : ℤ → ℕ → Bool
is_count (pos n) j = j == n
is_count (negsuc n) j = false

-- The loop over the file names from index `j` on. The NULL behind the arguments ends it with status 1;
-- the array of the names has MAX_IN_FILE_COUNT elements.
pub read_names : ℤ → ℕ → List Word → Outcome (List Word)
read_names count j [] = if is_count count j then ok [] else exit 1
read_names count j (name ∷ args) =
    let more = read_names count (j + 1) args >>= λ names. ok (name ∷ names) in
    if is_count count j then ok [] else if ltb j max_in_file_count then more else undefined

-- From the name of the output file on. Fewer than two arguments are ruled out by the test of `argc`.
pub parse_files : ℤ → List Word → Outcome CommandLineArgs
unfolding read_names atoi
parse_files msg_size (out ∷ count ∷ args) = do
  in_file_count ← atoi count
  names ← read_names in_file_count 0 args
  ok (record {
    msg_size = msg_size;
    out_file_name = out;
    in_file_count = in_file_count;
    in_file_names = names;
  })
parse_files msg_size _ = undefined

-- `args` begins with the name of the program, and its length is `argc`.
pub parse_arguments : List Word → Bool → Outcome CommandLineArgs
unfolding parse_files atoi
parse_arguments (program ∷ first ∷ args) parse_msg_size = do
  require (leb 2 (length args)) 1
  let with_size = do
    msg_size ← atoi first
    require (is_valid_msg_size msg_size) 1
    parse_files msg_size args
  (if parse_msg_size then with_size else parse_files (negsuc 0) (first ∷ args))
parse_arguments _ parse_msg_size = exit 1
