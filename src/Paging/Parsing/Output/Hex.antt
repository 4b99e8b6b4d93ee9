-- ===== src/Paging/Parsing/Output/Hex.antt =====
-- Addresses of proj03/src as main.c prints them, and params.c reads them.
use cs.Prelude.{
  ℕ, zero, suc, ◌+◌, ◌-◌, ◌*◌, ◌/◌, ◌%◌, ◌^◌, ◌<◌, ◌≡◌, refl, sym, ap, ◌∙◌, true, false, [], ◌∷◌,
  ◌++◌, length, length-append, lt→ltb, ltb, if_true, arith, min,
}
use cs.Prelude.Int.{ℤ, pos, negsuc}
use cs.WordCount.Text.{Word, is_space, skip_space}
use cs.Paging.Address.{to_u32}
use cs.Paging.Parsing.{
  digit_value, read_base, read_magnitude, read_long, strtol, from_u32, to_int, read_address,
}
use cs.Paging.Parsing.Output.{hex_digit, hex_digits, print_hex}

-- An `int` of four bytes.
abbrev pub IsInt : ℤ → Type 0
IsInt (pos n) = n < 2147483648
IsInt (negsuc n) = n < 2147483648

hex_digit-value : (n : ℕ) → n < 16 → digit_value (hex_digit n) ≡ n
unfolding digit_value hex_digit
hex_digit-value n lt = ground arith

-- All bytes are digits in base 16, and so no spaces.
abbrev pub AllHex : Word → Type 0
AllHex [] = Unit
AllHex (c ∷ cs) = ((digit_value c < 16) × (is_space c ≡ false)) × AllHex cs

AllHex-append : (w v : Word) → AllHex w → AllHex v → AllHex (w ++ v)
AllHex-append [] v all all' = all'
AllHex-append (c ∷ cs) v (hex, all) all' = (hex, AllHex-append cs v all all')

read_base-append :
    (w v : Word) (n : ℕ) → AllHex w → read_base 16 n (w ++ v) ≡ read_base 16 (read_base 16 n w) v
unfolding read_base
read_base-append [] v n all = refl
read_base-append (c ∷ cs) v n (hex, all) =
    let test : ltb (digit_value c) 16 ≡ true = lt→ltb (digit_value c) 16 hex.0 in
    if_true _ _ _ _ test (
      read_base-append cs v (16 * n + digit_value c) all
      ∙ ap (λ m. read_base 16 m v) (sym (if_true _ _ _ _ test refl)))

read_base-digit : (m n : ℕ) → n < 16 → read_base 16 m (hex_digit n ∷ []) ≡ 16 * m + n
unfolding read_base
read_base-digit m n lt =
    let value = hex_digit-value n lt in
    let test : ltb (digit_value (hex_digit n)) 16 ≡ true =
      lt→ltb (digit_value (hex_digit n)) 16 (omega arith) in
    if_true _ _ _ _ test (ap (λ k. 16 * m + k) value)

hex_digit_no_space : (n : ℕ) → n < 16 → is_space (hex_digit n) ≡ false
unfolding is_space hex_digit
hex_digit_no_space n lt = ground arith

-- So many numbers have `k` digits.
bound : ℕ → ℕ
bound zero = 1
bound (suc k) = 16 * bound k

hex_digits_lem :
    (k n : ℕ)
    → n < bound k
    → AllHex (hex_digits k n)
      × (read_base 16 0 (hex_digits k n) ≡ n)
      × (length (hex_digits k n) ≡ k)
unfolding hex_digits read_base bound
hex_digits_lem zero n lt = (tt, omega arith, refl)
hex_digits_lem (suc k) n lt =
    let (all, run, long) = hex_digits_lem k (n / 16) (omega arith) in
    let small : n % 16 < 16 = omega arith in
    (
      AllHex-append (hex_digits k (n / 16)) (hex_digit (n % 16) ∷ []) all
          ((omega (arith, hex_digit-value (n % 16) small), hex_digit_no_space (n % 16) small), tt),
      read_base-append (hex_digits k (n / 16)) (hex_digit (n % 16) ∷ []) 0 all
          ∙ read_base-digit (read_base 16 0 (hex_digits k (n / 16))) (n % 16) small
          ∙ omega (arith, run),
      length-append (hex_digits k (n / 16)) (hex_digit (n % 16) ∷ []) ∙ omega (arith, long),
    )

pub hex_digits_word :
    (n : ℕ) → n < 4294967296 → AllHex (hex_digits 8 n) × (length (hex_digits 8 n) ≡ 8)
unfolding bound
hex_digits_word n lt = let (all, _, long) = hex_digits_lem 8 n lt in (all, long)

read_address-print_hex : (n : ℕ) → n < 4294967296 → read_address (print_hex n) ≡ from_u32 n
unfolding read_address strtol skip_space is_space read_long read_magnitude print_hex to_int bound
read_address-print_hex n lt =
    let (_, run, _) = hex_digits_lem 8 n lt in
    let small : min n (2 ^ 63 - 1) ≡ n = omega arith in
    let wraps : n % 2 ^ 32 ≡ n = omega arith in
    ap (λ m. to_int (pos (min m (2 ^ 63 - 1)))) run
    ∙ ap (λ m. to_int (pos m)) small
    ∙ ap from_u32 wraps

from_u32-to_u32 : (a : ℤ) → IsInt a → from_u32 (to_u32 a) ≡ a
unfolding to_u32
from_u32-to_u32 (pos n) small =
    let e : n % 4294967296 ≡ n = omega arith in
    let test : ltb n (2 ^ 31) ≡ true = lt→ltb n (2 ^ 31) small in
    ap from_u32 e ∙ if_true _ _ _ _ test refl
from_u32-to_u32 (negsuc n) small = ground arith

pub to_u32_small : (a : ℤ) → to_u32 a < 4294967296
unfolding to_u32
to_u32_small (pos n) = omega arith
to_u32_small (negsuc n) = omega arith

-- An address that is printed with "0x%08x" is read back by `strtol` and its conversion.
pub read_address-print :
    (address : ℤ) → IsInt address → read_address (print_hex (to_u32 address)) ≡ address
read_address-print address small =
    read_address-print_hex (to_u32 address) (to_u32_small address) ∙ from_u32-to_u32 address small
