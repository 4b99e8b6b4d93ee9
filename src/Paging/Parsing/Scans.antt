-- ===== src/Paging/Parsing/Scans.antt =====
-- The scans of the words of a file in proj03/src/params.c, which come to its end.
use cs.Prelude.{
  ℕ, zero, suc, ◌≤◌, ◌<◌, ◌≡◌, inl, inr, refl, sym, subst, false, List, [], ◌∷◌, length, Option,
  none, some, leb, if_both, if_true, if_false, Bool-cases, arith, ok, undefined, ◌>>=◌, Ends,
  Ends->>=,
}
use cs.Prelude.Int.{ℤ}
use cs.WordCount.Text.{Word, is_space, skip_space, take_word}
use cs.Paging.{Region}
use cs.Paging.Parsing.{string_at, scan_string, read_address, read_regions, read_addresses}

length-take_word : (n : ℕ) (bs : List ℕ) → length (take_word n bs).1 ≤ length bs
unfolding take_word
length-take_word zero bs = omega arith
length-take_word (suc n) [] = omega arith
length-take_word (suc n) (b ∷ bs) =
    if_both {A = Word × List ℕ} (λ p. length p.1 ≤ suc (length bs)) (is_space b) _ _ (omega arith)
      (omega (arith, length-take_word n bs))

-- Behind the blanks is a byte that is none, or the end.
abbrev BehindBlanks : List ℕ → List ℕ → Type 0
BehindBlanks file [] = Unit
BehindBlanks file (b ∷ bs) = (is_space b ≡ false) × (suc (length bs) ≤ length file)

BehindBlanks-longer :
    (c : ℕ) (file rest : List ℕ) → BehindBlanks file rest → BehindBlanks (c ∷ file) rest
BehindBlanks-longer c file [] h = tt
BehindBlanks-longer c file (b ∷ bs) (plain, le) = (plain, omega arith)

skip_space-BehindBlanks : (file : List ℕ) → BehindBlanks file (skip_space file)
unfolding skip_space
skip_space-BehindBlanks [] = tt
skip_space-BehindBlanks (b ∷ bs) = elim (Bool-cases (is_space b)) [
  | inl space ↦
      subst (BehindBlanks (b ∷ bs)) (sym (if_true _ _ _ _ space refl))
        (BehindBlanks-longer b bs (skip_space bs) (skip_space-BehindBlanks bs))
  | inr plain ↦
      subst (BehindBlanks (b ∷ bs)) (sym (if_false _ _ _ _ plain refl)) (plain, omega arith)
]

-- A word that is read makes the file shorter.
abbrev LessIf : ℕ → Option (Word × List ℕ) → Type 0
LessIf n none = Unit
LessIf n (some (word, rest)) = length rest < n

take_word_shorter :
    (b : ℕ) (bs : List ℕ) (n : ℕ)
    → is_space b ≡ false
    → suc (length bs) ≤ n
    → length (take_word (length (b ∷ bs)) (b ∷ bs)).1 < n
unfolding take_word
take_word_shorter b bs n plain le =
    subst {A = Word × List ℕ} (λ p. length p.1 < n) (sym (if_false _ _ _ _ plain refl))
      (omega (arith, length-take_word (length bs) bs))

string_at-Ends :
    (file rest : List ℕ) → BehindBlanks file rest → Ends (LessIf (length file)) (string_at rest)
string_at-Ends file [] h = tt
string_at-Ends file (b ∷ bs) (plain, le) =
    let scanned = take_word (length (b ∷ bs)) (b ∷ bs) in
    if_both (Ends (LessIf (length file))) (leb (length scanned.0) 10) (ok (some scanned)) undefined
      (take_word_shorter b bs (length file) plain le) tt

scan_string-Ends : (file : List ℕ) → Ends (LessIf (length file)) (scan_string file)
unfolding scan_string
scan_string-Ends file = string_at-Ends file (skip_space file) (skip_space-BehindBlanks file)

pub read_addresses-Ends :
    (fuel : ℕ) (file : List ℕ)
    → length file < fuel
    → Ends (λ r. Unit {0}) (read_addresses fuel file)
unfolding read_addresses
read_addresses-Ends zero file lt = absurd (omega arith)
read_addresses-Ends (suc fuel) file lt =
    Ends->>= (LessIf (length file)) (λ r. Unit {0}) (scan_string file) _ (scan_string-Ends file)
      (λ first.
        elim first
          as (λ f.
            LessIf (length file) f
            → Ends {A = List ℤ} (λ r. Unit {0})
                (elim f [
                  | none ↦ ok []
                  | some (address, rest) ↦ read_addresses fuel rest >>= λ addresses.
                      ok (read_address address ∷ addresses)
                ])) [
                  | none ↦ λ h. tt
                  | some (address, rest) ↦ λ h.
                      Ends->>= (λ r. Unit {0}) (λ r. Unit {0}) (read_addresses fuel rest) _
                        (read_addresses-Ends fuel rest (omega arith)) (λ r u. tt)
                ])

pub read_regions-Ends :
    (fuel : ℕ) (file : List ℕ) → length file < fuel → Ends (λ r. Unit {0}) (read_regions fuel file)
unfolding read_regions
read_regions-Ends zero file lt = absurd (omega arith)
read_regions-Ends (suc fuel) file lt =
    Ends->>= (LessIf (length file)) (λ r. Unit {0}) (scan_string file) _ (scan_string-Ends file)
      (λ first.
        elim first
          as (λ f.
            LessIf (length file) f
            → Ends {A = List Region} (λ r. Unit {0})
                (elim f [
                  | none ↦ ok []
                  | some (address_base, rest) ↦ scan_string rest >>= λ second. elim second [
                    | none ↦ ok []
                    | some (address_past_end, rest') ↦ read_regions fuel rest' >>= λ regions. ok (
                        record {
                          base = read_address address_base;
                          past_end = read_address address_past_end;
                        }
                        ∷ regions)
                  ]
                ])) [
                  | none ↦ λ h. tt
                  | some (address_base, rest) ↦ λ h.
                      Ends->>= (LessIf (length rest)) (λ r. Unit {0}) (scan_string rest) _
                        (scan_string-Ends rest)
                        (λ second.
                          elim second
                            as (λ f.
                              LessIf (length rest) f
                              → Ends {A = List Region} (λ r. Unit {0})
                                  (elim f [
                                    | none ↦ ok []
                                    | some (address_past_end, rest') ↦
                                        read_regions fuel rest' >>= λ regions. ok (
                                          record {
                                            base = read_address address_base;
                                            past_end = read_address address_past_end;
                                          }
                                          ∷ regions)
                                  ])) [
                                    | none ↦ λ k. tt
                                    | some (address_past_end, rest') ↦ λ k.
                                        Ends->>= (λ r. Unit {0}) (λ r. Unit {0})
                                          (read_regions fuel rest') _
                                          (read_regions-Ends fuel rest' (omega arith)) (λ r u. tt)
                                  ])
                ])
