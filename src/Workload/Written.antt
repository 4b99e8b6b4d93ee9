-- ===== src/Workload/Written.antt =====
-- Input files of proj02/src in the written form "PL <length> <priority>", "IAT <time>", and what is read
-- from them.
use cs.Prelude.{
  ℕ, zero, suc, ◌≤◌, ◌<◌, ◌≡◌, refl, ap, ◌∙◌, Bool, true, false, List, [], ◌∷◌, ◌++◌, length, some,
  leb, ◌==◌, if◌then◌else◌, if_true, if_false, arith, ok, ◌>>=◌, map,
}
use cs.Prelude.Int.{ℤ, pos, sub_ℕ}
use cs.WordCount.Text.{Word, is_space, skip_space}
use cs.Arguments.{read_digits}
use cs.Scanning.{
  scan_literal, is_digit, leading_digits, negative, positive, scan_value, scan_signed, scan_decimal,
}
use cs.Workload.{ProcessParams, scan_process, scan_interarrival_time, read_processes}

-- A number as it is written: a sign, and at least one digit.
pub record Numeral : Type 0 where
  pub minus : Bool
  pub first : ℕ
  pub digits : Word

abbrev pub digits_of : Numeral → Word
digits_of n = n.first ∷ n.digits

abbrev pub text : Numeral → Word
text n = if n.minus then 45 ∷ digits_of n else digits_of n

abbrev pub value : Numeral → ℤ
value n =
    if n.minus then sub_ℕ 0 (read_digits 0 (digits_of n)) else pos (read_digits 0 (digits_of n))

abbrev pub AllDigits : Word → Type 0
AllDigits [] = Unit
AllDigits (c ∷ cs) = (is_digit c ≡ true) × AllDigits cs

-- It has digits only, and fits in an `int`.
pub record IsNumeral (n : Numeral) : Type 0 where
  pub all : AllDigits (digits_of n)
  pub fits : read_digits 0 (digits_of n) ≤ 2147483647

-- The digits end before it.
abbrev IsEnd : List ℕ → Type 0
IsEnd rest = leading_digits rest ≡ ([], rest)

leading_digits-append :
    (ds : Word) (rest : List ℕ)
    → AllDigits ds
    → IsEnd rest
    → leading_digits (ds ++ rest) ≡ (ds, rest)
unfolding leading_digits
leading_digits-append [] rest all end = end
leading_digits-append (d ∷ ds) rest (digit, all) end =
    if_true _ _ _ _ digit
      (ap {A = Word × List ℕ} (λ p. (d ∷ p.0, p.1)) (leading_digits-append ds rest all end))

digit_no_sign :
    (c : ℕ) → is_digit c ≡ true → (is_space c ≡ false) × ((c == 45) ≡ false) × ((c == 43) ≡ false)
unfolding is_space
digit_no_sign c h = (ground arith, ground arith, ground arith)

fits_positive : (k : ℕ) → k ≤ 2147483647 → positive k ≡ ok (pos k)
fits_positive k le = let test : leb k 2147483647 ≡ true = ground arith in if_true _ _ _ _ test refl

fits_negative : (k : ℕ) → k ≤ 2147483647 → negative k ≡ ok (sub_ℕ 0 k)
fits_negative k le = let test : leb k 2147483648 ≡ true = ground arith in if_true _ _ _ _ test refl

scan_decimal_minus :
    (first : ℕ) (digits : Word) (rest : List ℕ)
    → AllDigits (first ∷ digits)
    → read_digits 0 (first ∷ digits) ≤ 2147483647
    → IsEnd rest
    → scan_decimal (45 ∷ ((first ∷ digits) ++ rest))
      ≡ ok (some (sub_ℕ 0 (read_digits 0 (first ∷ digits))), rest)
unfolding scan_decimal scan_signed skip_space is_space
scan_decimal_minus first digits rest all fits end =
    ap (scan_value negative) (leading_digits-append (first ∷ digits) rest all end)
    ∙ ap (λ o. o >>= λ n. ok (some n, rest)) (fits_negative _ fits)

scan_signed_plain :
    (first : ℕ) (digits : Word) (rest : List ℕ)
    → AllDigits (first ∷ digits)
    → read_digits 0 (first ∷ digits) ≤ 2147483647
    → IsEnd rest
    → scan_signed ((first ∷ digits) ++ rest)
      ≡ ok (some (pos (read_digits 0 (first ∷ digits))), rest)
unfolding scan_signed
scan_signed_plain first digits rest all fits end =
    let (_, no_minus, no_plus) = digit_no_sign first all.0 in
    if_false _ _ _ _ no_minus (
      if_false _ _ _ _ no_plus (
        ap (scan_value positive) (leading_digits-append (first ∷ digits) rest all end)
        ∙ ap (λ o. o >>= λ n. ok (some n, rest)) (fits_positive _ fits)))

scan_decimal_plain :
    (first : ℕ) (digits : Word) (rest : List ℕ)
    → AllDigits (first ∷ digits)
    → read_digits 0 (first ∷ digits) ≤ 2147483647
    → IsEnd rest
    → scan_decimal ((first ∷ digits) ++ rest)
      ≡ ok (some (pos (read_digits 0 (first ∷ digits))), rest)
unfolding scan_decimal skip_space
scan_decimal_plain first digits rest all fits end =
    let (no_space, _, _) = digit_no_sign first all.0 in
    ap scan_signed (if_false _ _ _ _ no_space refl)
    ∙ scan_signed_plain first digits rest all fits end

-- A written number is read, up to the first byte that is no digit.
scan_decimal-text :
    (n : Numeral) (rest : List ℕ)
    → IsNumeral n
    → IsEnd rest
    → scan_decimal (text n ++ rest) ≡ ok (some (value n), rest)
scan_decimal-text n rest numeral end =
    elim n.minus
      as (λ b.
        scan_decimal ((if b then 45 ∷ digits_of n else digits_of n) ++ rest)
        ≡ ok (
          some (
              if b
              then sub_ℕ 0 (read_digits 0 (digits_of n))
              else pos (read_digits 0 (digits_of n))),
          rest,
        )) [
          | true ↦ scan_decimal_minus n.first n.digits rest numeral.all numeral.fits end
          | false ↦ scan_decimal_plain n.first n.digits rest numeral.all numeral.fits end
        ]

-- The lines of a process.
pub record WrittenProcess : Type 0 where
  pub length : Numeral
  pub priority : Numeral
  pub interarrival_time : Numeral

abbrev pub process_of : WrittenProcess → ProcessParams
process_of w = record {
  length = value w.length;
  priority = value w.priority;
  interarrival_time = value w.interarrival_time;
}

-- "PL ", the length, " ", the priority, a line end, "IAT ", the time, and a line end.
abbrev pub written : List WrittenProcess → List ℕ
written [] = []
written (w ∷ ws) =
    80
    ∷ 76
    ∷ 32
    ∷ (text w.length
        ++ (32
            ∷ (text w.priority
                ++ (10 ∷ 73 ∷ 65 ∷ 84 ∷ 32 ∷ (text w.interarrival_time ++ (10 ∷ written ws))))))

abbrev pub AllNumerals : List WrittenProcess → Type 0
AllNumerals [] = Unit
AllNumerals (w ∷ ws) =
    (IsNumeral w.length × IsNumeral w.priority × IsNumeral w.interarrival_time) × AllNumerals ws

IsEnd-of_line : (rest : List ℕ) → IsEnd (10 ∷ rest)
unfolding leading_digits
IsEnd-of_line rest = refl

IsEnd-of_word : (rest : List ℕ) → IsEnd (32 ∷ rest)
unfolding leading_digits
IsEnd-of_word rest = refl

scan_decimal_blank : (rest : List ℕ) → scan_decimal (32 ∷ rest) ≡ scan_decimal rest
unfolding scan_decimal skip_space is_space
scan_decimal_blank rest = refl

-- The line of the length and the priority.
scan_process-text :
    (l p : Numeral) (rest : List ℕ)
    → IsNumeral l
    → IsNumeral p
    → scan_process (80 ∷ 76 ∷ 32 ∷ (text l ++ (32 ∷ (text p ++ (10 ∷ rest)))))
      ≡ ok (some (value l, value p), 10 ∷ rest)
unfolding scan_process scan_literal skip_space is_space
scan_process-text l p rest numeral numeral' =
    rw
      (
        scan_decimal_blank (text l ++ (32 ∷ (text p ++ (10 ∷ rest)))),
        scan_decimal-text l (32 ∷ (text p ++ (10 ∷ rest))) numeral (IsEnd-of_word _),
        scan_decimal_blank (text p ++ (10 ∷ rest)),
        scan_decimal-text p (10 ∷ rest) numeral' (IsEnd-of_line rest),
      )
      refl

scan_interarrival_time-text :
    (t : Numeral) (rest : List ℕ)
    → IsNumeral t
    → scan_interarrival_time (10 ∷ 73 ∷ 65 ∷ 84 ∷ 32 ∷ (text t ++ (10 ∷ rest)))
      ≡ ok (value t, 10 ∷ rest)
unfolding scan_interarrival_time scan_literal skip_space is_space
scan_interarrival_time-text t rest numeral =
    rw
      (
        scan_decimal_blank (text t ++ (10 ∷ rest)),
        scan_decimal-text t (10 ∷ rest) numeral (IsEnd-of_line rest),
      )
      refl

-- A line end before a process is skipped.
read_processes_line :
    (fuel : ℕ) (file : List ℕ) → read_processes fuel (10 ∷ file) ≡ read_processes fuel file
unfolding read_processes scan_process skip_space is_space
read_processes_line zero file = refl
read_processes_line (suc fuel) file = refl

read_processes_end : (fuel : ℕ) → read_processes (suc fuel) [] ≡ ok []
unfolding read_processes scan_process skip_space scan_literal
read_processes_end fuel = refl

-- What is written in the format of the input file, with numbers that fit in an `int`, is read back.
pub read_processes-written :
    (ws : List WrittenProcess) (fuel : ℕ)
    → AllNumerals ws
    → length ws < fuel
    → read_processes fuel (written ws) ≡ ok (map process_of ws)
unfolding read_processes
read_processes-written ws zero all lt = absurd (omega arith)
read_processes-written [] (suc fuel) all lt = read_processes_end fuel
read_processes-written (w ∷ ws) (suc fuel) ((nl, np, nt), all) lt =
    rw
      (
        scan_process-text w.length w.priority
            (73 ∷ 65 ∷ 84 ∷ 32 ∷ (text w.interarrival_time ++ (10 ∷ written ws))) nl np,
        scan_interarrival_time-text w.interarrival_time (written ws) nt,
        read_processes_line fuel (written ws),
        read_processes-written ws fuel all (omega arith),
      )
      refl
