-- ===== src/Workload/FileFormat.antt =====
-- The input file of proj02/src/workload_params.c: what is written in its format is read, and any file is
-- read to an end.
use cs.Prelude.{
  ℕ, zero, suc, ◌+◌, ◌≤◌, ◌<◌, ◌≢◌, subst, Bool, true, false, List, [], ◌∷◌, length, Option, none,
  some, leb, ◌==◌, if◌then◌else◌, if_both, arith, Outcome, ok, exit, undefined, out_of_fuel, ◌>>=◌,
  Ends, Ends->>=,
}
use cs.Prelude.Int.{ℤ, pos}
use cs.WordCount.Text.{Word, is_space, skip_space}
use cs.Arguments.{read_digits, in_int}
use cs.Scanning.{
  scan_literal, is_digit, leading_digits, negative, positive, scan_value, scan_signed, scan_decimal,
}
use cs.Workload.{scan_process, scan_priority, scan_interarrival_time, read_processes, or_zero}

-- The file that is left has so many bytes at most.
abbrev Leaves {ℓ} : {A : Type ℓ} → ℕ → A × List ℕ → Type 0
Leaves n (a, rest) = length rest ≤ n

Ends-more :
    {A : Type 0} (o : Outcome (A × List ℕ)) (n m : ℕ)
    → n ≤ m
    → Ends (Leaves n) o
    → Ends (Leaves m) o
Ends-more (ok (a, rest)) n m le h = omega arith
Ends-more (exit status) n m le h = tt
Ends-more undefined n m le h = tt
Ends-more out_of_fuel n m le h = h

length-skip_space : (file : List ℕ) → length (skip_space file) ≤ length file
unfolding skip_space
length-skip_space [] = omega arith
length-skip_space (b ∷ bs) =
    if_both (λ rest. length rest ≤ suc (length bs)) (is_space b) (skip_space bs) (b ∷ bs)
      (omega (arith, length-skip_space bs)) (omega arith)

-- A literal that is found is gone.
abbrev LeavesIf : ℕ → ℕ → Bool × List ℕ → Type 0
LeavesIf n m (true, rest) = length rest + m ≤ n
LeavesIf n m (false, rest) = length rest ≤ n

LeavesIf-longer :
    (result : Bool × List ℕ) (n m : ℕ) → LeavesIf n m result → LeavesIf (suc n) (suc m) result
LeavesIf-longer (true, rest) n m h = omega arith
LeavesIf-longer (false, rest) n m h = omega arith

LeavesIf-literal :
    (literal : Word) (file : List ℕ)
    → LeavesIf (length file) (length literal) (scan_literal literal file)
unfolding scan_literal
LeavesIf-literal [] file = omega arith
LeavesIf-literal (c ∷ cs) [] = omega arith
LeavesIf-literal (c ∷ cs) (b ∷ bs) =
    if_both (LeavesIf (suc (length bs)) (suc (length cs))) (b == c) (scan_literal cs bs)
      (false, b ∷ bs)
      (LeavesIf-longer (scan_literal cs bs) (length bs) (length cs) (LeavesIf-literal cs bs))
      (omega arith)

Leaves-digits : (file : List ℕ) → Leaves (length file) (leading_digits file)
unfolding leading_digits
Leaves-digits [] = omega arith
Leaves-digits (b ∷ bs) =
    if_both (Leaves (suc (length bs))) (is_digit b) _ ([], b ∷ bs) (omega (arith, Leaves-digits bs))
      (omega arith)

-- A number that is too large is undefined, and leaves no run unfinished.
Ends-in_int : (n limit : ℕ) (value : ℤ) → Ends (λ v. Unit {0}) (in_int n limit value)
Ends-in_int n limit value = if_both (Ends (λ v. Unit {0})) (leb n limit) (ok value) undefined tt tt

Ends-scan_value :
    (sign : ℕ → Outcome ℤ) (n : ℕ) (scanned : Word × List ℕ)
    → ((k : ℕ) → Ends (λ v. Unit {0}) (sign k))
    → Leaves n scanned
    → Ends (Leaves n) (scan_value sign scanned)
Ends-scan_value sign n ([], rest) signed h = h
Ends-scan_value sign n (digit ∷ digits, rest) signed h =
    Ends->>= (λ v. Unit {0}) (Leaves n) (sign (read_digits 0 (digit ∷ digits))) _ (signed _)
      (λ v u. h)

Leaves-more :
    {A : Type 0} (scanned : A × List ℕ) (n m : ℕ) → n ≤ m → Leaves n scanned → Leaves m scanned
Leaves-more (a, rest) n m le h = omega arith

Ends-scan_signed : (file : List ℕ) → Ends (Leaves (length file)) (scan_signed file)
unfolding scan_signed
Ends-scan_signed [] = omega arith
Ends-scan_signed (b ∷ bs) =
    let n = suc (length bs) in
    let short = Leaves-more (leading_digits bs) (length bs) n (omega arith) (Leaves-digits bs) in
    if_both (Ends (Leaves n)) (b == 45) _ _
      (Ends-scan_value negative n (leading_digits bs) (λ k. Ends-in_int k _ _) short)
      (if_both (Ends (Leaves n)) (b == 43) _ _
        (Ends-scan_value positive n (leading_digits bs) (λ k. Ends-in_int k _ _) short)
        (Ends-scan_value positive n (leading_digits (b ∷ bs)) (λ k. Ends-in_int k _ _)
          (Leaves-digits (b ∷ bs))))

Ends-scan_decimal : (file : List ℕ) → Ends (Leaves (length file)) (scan_decimal file)
unfolding scan_decimal
Ends-scan_decimal file =
    Ends-more (scan_signed (skip_space file)) (length (skip_space file)) (length file)
      (length-skip_space file) (Ends-scan_signed (skip_space file))

-- A process that is found has taken the two letters at least.
abbrev LeavesLess : ℕ → Option (ℤ × ℤ) × List ℕ → Type 0
LeavesLess n (none, rest) = Unit
LeavesLess n (some header, rest) = length rest < n

Ends-less :
    (o : Outcome (Option (ℤ × ℤ) × List ℕ)) (n m : ℕ)
    → n ≤ m
    → Ends (LeavesLess n) o
    → Ends (LeavesLess m) o
Ends-less (ok (none, rest)) n m le h = tt
Ends-less (ok (some header, rest)) n m le h = omega arith
Ends-less (exit status) n m le h = tt
Ends-less undefined n m le h = tt
Ends-less out_of_fuel n m le h = h

Ends-scan_priority :
    (n : ℕ) (first : Option ℤ × List ℕ)
    → Leaves n first
    → Ends (LeavesLess (suc n)) (scan_priority first)
Ends-scan_priority n (none, rest) h = tt
Ends-scan_priority n (some process_length, rest) h =
    Ends->>= (Leaves n) (LeavesLess (suc n)) (scan_decimal rest) _
      (Ends-more (scan_decimal rest) (length rest) n h (Ends-scan_decimal rest)) ends
  where
    ends :
        (second : Option ℤ × List ℕ)
        → Leaves n second
        → LeavesLess
            (suc n)
            (elim second.0 [ none ↦ none | some p ↦ some (process_length, p) ], second.1)
    ends (none, rest') k = tt
    ends (some p, rest') k = omega arith

Ends-scan_process : (file : List ℕ) → Ends (LeavesLess (length file)) (scan_process file)
unfolding scan_process
Ends-scan_process file =
    by_letters (scan_literal (80 ∷ 76 ∷ []) (skip_space file))
      (LeavesIf-literal (80 ∷ 76 ∷ []) (skip_space file))
  where
    by_letters :
        (result : Bool × List ℕ)
        → LeavesIf (length (skip_space file)) 2 result
        → Ends (LeavesLess (length file)) (
            if result.0
            then (scan_decimal result.1 >>= λ first. scan_priority first)
            else ok (none, result.1))
    by_letters (false, rest) h = tt
    by_letters (true, rest) h =
        Ends->>= (Leaves (length rest)) (LeavesLess (length file)) (scan_decimal rest)
          (λ first. scan_priority first) (Ends-scan_decimal rest)
          (λ first k.
            Ends-less (scan_priority first) (suc (length rest)) (length file)
              (omega (arith, length-skip_space file)) (Ends-scan_priority (length rest) first k))

Ends-scan_interarrival_time :
    (file : List ℕ) → Ends (Leaves (length file)) (scan_interarrival_time file)
unfolding scan_interarrival_time
Ends-scan_interarrival_time file =
    by_letters (scan_literal (73 ∷ 65 ∷ 84 ∷ []) (skip_space file))
      (LeavesIf-literal (73 ∷ 65 ∷ 84 ∷ []) (skip_space file))
  where
    by_letters :
        (result : Bool × List ℕ)
        → LeavesIf (length (skip_space file)) 3 result
        → Ends (Leaves (length file)) (
            if result.0
            then (scan_decimal result.1 >>= λ (n, rest'). ok (or_zero n, rest'))
            else ok (pos 0, result.1))
    by_letters (false, rest) h = omega (arith, length-skip_space file)
    by_letters (true, rest) h =
        Ends->>= (Leaves (length rest)) (Leaves (length file)) (scan_decimal rest) _
          (Ends-scan_decimal rest) (λ (n, rest') k. omega (arith, length-skip_space file))

pub read_processes-Ends :
    (fuel : ℕ) (file : List ℕ)
    → length file < fuel
    → Ends (λ r. Unit {0}) (read_processes fuel file)
unfolding read_processes
read_processes-Ends zero file lt = absurd (omega arith)
read_processes-Ends (suc fuel) file lt =
    Ends->>= (LeavesLess (length file)) (λ r. Unit {0}) (scan_process file) _
      (Ends-scan_process file) (more (λ rest k. read_processes-Ends fuel rest k))
  where
    more :
        ((rest : List ℕ) → length rest < fuel → Ends (λ r. Unit {0}) (read_processes fuel rest))
        → (scanned : Option (ℤ × ℤ) × List ℕ) → LeavesLess (length file) scanned
        → Ends
            (λ r. Unit {0})
            (elim scanned.0 [
              | none ↦ ok []
              | some (process_length, priority) ↦
                  scan_interarrival_time scanned.1 >>= λ (interarrival_time, rest').
                  read_processes fuel rest' >>= λ processes. ok (
                    record {
                      length = process_length;
                      priority = priority;
                      interarrival_time = interarrival_time;
                    }
                    ∷ processes)
            ])
    more shorter (none, rest) h = tt
    more shorter (some (process_length, priority), rest) h =
        Ends->>= (Leaves (length rest)) (λ r. Unit {0}) (scan_interarrival_time rest) _
          (Ends-scan_interarrival_time rest)
          (λ (interarrival_time, rest') k.
            Ends->>= (λ r. Unit {0}) (λ r. Unit {0}) (read_processes fuel rest') _
              (shorter rest' (omega arith)) (λ processes u. tt))

-- Any file is read to an end: the number of its bytes and one more is enough turns of the loop.
pub read_processes_total : (file : List ℕ) → read_processes (suc (length file)) file ≢ out_of_fuel
read_processes_total file e =
    subst (Ends (λ r. Unit {0})) e (read_processes-Ends (suc (length file)) file (omega arith))
