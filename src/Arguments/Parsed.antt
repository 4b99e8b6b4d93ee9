-- ===== src/Arguments/Parsed.antt =====
-- What `parse_arguments` of proj01/src/common.c returns.
use cs.Prelude.{
  subst, >>=_returns, ℕ, suc, ◌+◌, ◌≤◌, ◌≡◌, ◌∙◌, refl, ap, Bool, true, false, List, [], ◌∷◌,
  length, ltb, leb, ◌==◌, arith, Outcome, ok, ◌>>=◌, if_true, if_false, if_both, Ends, undefined,
  Bool-cases, inl, inr,
}
use cs.Prelude.Int.{ℤ, pos, negsuc}
use cs.WordCount.Text.{Word, skip_space}
use cs.Arguments.{
  require, CommandLineArgs, max_in_file_count, is_valid_msg_size, is_count, atoi, read_signed,
  in_int, read_names, parse_files, parse_arguments,
}

in_int-Ends : (n limit : ℕ) (number : ℤ) → Ends (λ v. Unit {0}) (in_int n limit number)
in_int-Ends n limit number =
    if_both (Ends (λ v. Unit {0})) (leb n limit) (ok number) undefined tt tt

-- `atoi` returns, or is undefined.
pub atoi-Ends : (s : Word) → Ends (λ v. Unit {0}) (atoi s)
unfolding atoi read_signed
atoi-Ends s = signed (skip_space s)
  where
    signed : (s : Word) → Ends (λ v. Unit {0}) (read_signed s)
    signed [] = tt
    signed (c ∷ cs) =
        if_both (Ends (λ v. Unit {0})) (c == 45) _ _ (in_int-Ends _ _ _)
          (if_both (Ends (λ v. Unit {0})) (c == 43) _ _ (in_int-Ends _ _ _) (in_int-Ends _ _ _))

read_names_all :
    (names : List Word) (j : ℕ)
    → j + length names ≤ max_in_file_count
    → read_names (pos (j + length names)) j names ≡ ok names
unfolding read_names
read_names_all [] j room =
    let test : (j == j + 0) ≡ true = ground arith in if_true _ _ _ _ test refl
read_names_all (name ∷ names) j room =
    let test : (j == j + suc (length names)) ≡ false = ground arith in
    let test' : ltb j max_in_file_count ≡ true = ground arith in
    let same : j + suc (length names) ≡ j + 1 + length names = omega arith in
    let read : read_names (pos (j + suc (length names))) (j + 1) names ≡ ok names =
      ap (λ n. read_names (pos n) (j + 1) names) same
      ∙ read_names_all names (j + 1) (omega arith) in
    if_false _ _ _ _ test (if_true _ _ _ _ test' (ap (λ r. r >>= λ rest. ok (name ∷ rest)) read))

-- Behind a message size that is one of those allowed, an output file and the number of the names that
-- follow, which are at most eight, the process counter gets just these.
pub parse_arguments_sized :
    (program size out count : Word) (names : List Word) (msg_size : ℤ)
    → atoi size ≡ ok msg_size
    → is_valid_msg_size msg_size ≡ true
    → atoi count ≡ ok (pos (length names))
    → length names ≤ max_in_file_count
    → parse_arguments (program ∷ size ∷ out ∷ count ∷ names) true
      ≡ ok (record {
        msg_size = msg_size;
        out_file_name = out;
        in_file_count = pos (length names);
        in_file_names = names;
      })
unfolding parse_arguments parse_files
parse_arguments_sized program size out count names msg_size at valid counted room =
    let enough : leb 2 (suc (suc (length names))) ≡ true = ground arith in
    let all : read_names (pos (length names)) 0 names ≡ ok names =
      ap (λ n. read_names (pos n) 0 names) (omega arith) ∙ read_names_all names 0 (omega arith) in
    rw (enough, at, valid, counted, all) refl

is_count_lem : (count : ℤ) (j : ℕ) → is_count count j ≡ true → count ≡ pos j
is_count_lem (pos n) j h = ap pos (ground arith)
is_count_lem (negsuc n) j h = cc

none_read :
    (count : ℤ) (j : ℕ) (names : List Word)
    → is_count count j ≡ true
    → j ≤ max_in_file_count
    → ok [] ≡ ok names
    → (count ≡ pos (j + length names)) × (j + length names ≤ max_in_file_count)
none_read count j [] at small run =
    let same : j ≡ j + 0 = omega arith in (is_count_lem count j at ∙ ap pos same, omega arith)
none_read count j (name ∷ names) at small run = absurd cc

read_names_bounds :
    (args : List Word) (count : ℤ) (j : ℕ) (names : List Word)
    → j ≤ max_in_file_count
    → read_names count j args ≡ ok names
    → (count ≡ pos (j + length names)) × (j + length names ≤ max_in_file_count)
unfolding read_names
read_names_bounds [] count j names small run = elim (Bool-cases (is_count count j)) [
  | inl here ↦ none_read count j names here small (rw here at run)
  | inr other ↦ absurd (let e = rw other at run in cc)
]
read_names_bounds (arg ∷ args) count j names small run = elim (Bool-cases (is_count count j)) [
  | inl here ↦ none_read count j names here small (rw here at run)
  | inr other ↦ elim (Bool-cases (ltb j max_in_file_count)) [
    | inr full ↦ absurd (let e = rw (other, full) at run in cc)
    | inl room ↦
        let more : (read_names count (j + 1) args >>= λ rest. ok (arg ∷ rest)) ≡ ok names =
          rw (other, room) at run in
        let (rest, read, last) =
          >>=_returns (λ rest. ok (arg ∷ rest)) (read_names count (j + 1) args) names more in
        let (counted, few) = read_names_bounds args count (j + 1) rest (ground arith) read in
        let same : arg ∷ rest ≡ names = cc in
        let next : j + 1 + length rest ≡ j + length names = omega (arith, ap length same) in
        (counted ∙ ap pos next, omega arith)
  ]
]

-- The names that are set are as many as `in_file_count` says, and at most eight.
abbrev pub IsCounted : CommandLineArgs → Type 0
IsCounted a =
    (a.in_file_count ≡ pos (length a.in_file_names)) × (length a.in_file_names ≤ max_in_file_count)

parse_files-IsCounted :
    (msg_size : ℤ) (args : List Word) (a : CommandLineArgs)
    → parse_files msg_size args ≡ ok a
    → IsCounted a
unfolding parse_files
parse_files-IsCounted msg_size [] a run = absurd cc
parse_files-IsCounted msg_size (out ∷ []) a run = absurd cc
parse_files-IsCounted msg_size (out ∷ count ∷ args) a run =
    let (n, at, after) = >>=_returns _ (atoi count) a run in
    let (names, read, last) = >>=_returns _ (read_names n 0 args) a after in
    let (counted, few) = read_names_bounds args n 0 names (omega arith) read in
    let e : 0 + length names ≡ length names = omega arith in
    let c : IsCounted (record {
      msg_size = msg_size;
      out_file_name = out;
      in_file_count = n;
      in_file_names = names;
    }) =
      (counted ∙ ap pos e, omega arith) in
    let same : record {
      msg_size = msg_size;
      out_file_name = out;
      in_file_count = n;
      in_file_names = names;
    }
        ≡ a =
      cc in
    subst IsCounted same c

enough_arguments :
    {A : Type 0} (b : Bool) (rest : Outcome A) (a : A)
    → (require b 1 >>= λ _. rest) ≡ ok a
    → rest ≡ ok a
enough_arguments true rest a run = run
enough_arguments false rest a run = absurd cc

-- Whatever the arguments, where they are accepted the file names that are set are as many as
-- `in_file_count` says, and at most eight.
pub parse_arguments-IsCounted :
    (args : List Word) (parse_msg_size : Bool) (a : CommandLineArgs)
    → parse_arguments args parse_msg_size ≡ ok a
    → IsCounted a
unfolding parse_arguments
parse_arguments-IsCounted [] flag a run = absurd cc
parse_arguments-IsCounted (program ∷ []) flag a run = absurd cc
parse_arguments-IsCounted (program ∷ first ∷ args) false a run =
    parse_files-IsCounted (negsuc 0) (first ∷ args) a
      (enough_arguments (leb 2 (length args)) (parse_files (negsuc 0) (first ∷ args)) a run)
parse_arguments-IsCounted (program ∷ first ∷ args) true a run =
    let (n, at, after) =
      >>=_returns _ (atoi first) a (enough_arguments (leb 2 (length args)) _ a run) in
    parse_files-IsCounted n args a
      (enough_arguments (is_valid_msg_size n) (parse_files n args) a after)
