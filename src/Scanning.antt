-- ===== src/Scanning.antt =====
-- What the programs use of `fscanf` for numbers: literal text, and "%d". The text of a file is the list of
-- its bytes; what a conversion that fails has read is gone, but for the byte that it fails at.
use cs.Prelude.{
  ℕ, Bool, true, false, ◌&&◌, List, [], ◌∷◌, Option, none, some, leb, ◌==◌, if◌then◌else◌, Outcome,
  ok, ◌>>=◌,
}
use cs.Prelude.Int.{ℤ, pos, sub_ℕ}
use cs.WordCount.Text.{Word, skip_space}
use cs.Arguments.{read_digits, in_int}

-- Whether the literal is there, and what is left.
unfoldable pub scan_literal : Word → List ℕ → Bool × List ℕ
scan_literal [] file = (true, file)
scan_literal (c ∷ cs) [] = (false, [])
scan_literal (c ∷ cs) (b ∷ bs) =
    let rest = scan_literal cs bs in if b == c then rest else (false, b ∷ bs)

abbrev pub is_digit : ℕ → Bool
is_digit c = leb 48 c && leb c 57

unfoldable pub leading_digits : List ℕ → Word × List ℕ
leading_digits [] = ([], [])
leading_digits (b ∷ bs) =
    let (digits, rest) = leading_digits bs in
    if is_digit b then (b ∷ digits, rest) else ([], b ∷ bs)

abbrev pub negative : ℕ → Outcome ℤ
negative n = in_int n 2147483648 (sub_ℕ 0 n)

abbrev pub positive : ℕ → Outcome ℤ
positive n = in_int n 2147483647 (pos n)

-- Without a digit there is no number.
abbrev pub scan_value : (ℕ → Outcome ℤ) → Word × List ℕ → Outcome (Option ℤ × List ℕ)
scan_value sign ([], rest) = ok (none, rest)
scan_value sign (digit ∷ digits, rest) =
    sign (read_digits 0 (digit ∷ digits)) >>= λ n. ok (some n, rest)

unfoldable pub scan_signed : List ℕ → Outcome (Option ℤ × List ℕ)
unfolding leading_digits
scan_signed [] = ok (none, [])
scan_signed (b ∷ bs) =
    let minus = scan_value negative (leading_digits bs) in
    let plus = scan_value positive (leading_digits bs) in
    let bare = scan_value positive (leading_digits (b ∷ bs)) in
    if b == 45 then minus else if b == 43 then plus else bare

-- "%d"
unfoldable pub scan_decimal : List ℕ → Outcome (Option ℤ × List ℕ)
unfolding scan_signed
scan_decimal file = scan_signed (skip_space file)
