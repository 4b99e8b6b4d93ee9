-- ===== src/Paging/Parsing/Output/Written.antt =====
-- Input files of proj03/src in the written form of the output, one address or two to a line.
use cs.Prelude.{
  ℕ, zero, suc, ◌≤◌, ◌<◌, ◌≡◌, refl, ap, ◌∙◌, true, false, List, [], ◌∷◌, ◌++◌, length,
  length-append, none, some, leb, if_true, if_false, arith, ok, undefined, if◌then◌else◌,
}
use cs.Prelude.Int.{ℤ}
use cs.WordCount.Text.{Word, is_space, skip_space, take_word}
use cs.Paging.{Region}
use cs.Paging.Address.{to_u32}
use cs.Paging.Parsing.{string_at, scan_string, read_regions, read_addresses}
use cs.Paging.Parsing.Output.{hex_digits, print_hex}
use cs.Paging.Parsing.Output.Hex.{IsInt, AllHex, hex_digits_word, to_u32_small, read_address-print}

abbrev NoSpaces : Word → Type 0
NoSpaces [] = Unit
NoSpaces (c ∷ cs) = (is_space c ≡ false) × NoSpaces cs

NoSpaces-hex : (w : Word) → AllHex w → NoSpaces w
NoSpaces-hex [] all = tt
NoSpaces-hex (c ∷ cs) ((_, plain), all) = (plain, NoSpaces-hex cs all)

-- A word ends at the first space.
take_word_all :
    (w : Word) (c : ℕ) (rest : List ℕ) (n : ℕ)
    → NoSpaces w
    → is_space c ≡ true
    → length w < n
    → take_word n (w ++ (c ∷ rest)) ≡ (w, c ∷ rest)
unfolding take_word
take_word_all w c rest zero all space lt = absurd (omega arith)
take_word_all [] c rest (suc n) all space lt = if_true _ _ _ _ space refl
take_word_all (b ∷ bs) c rest (suc n) (plain, all) space lt = if_false _ _ _ _ plain (
    ap {A = Word × List ℕ} (λ p. (b ∷ p.0, p.1))
      (take_word_all bs c rest n all space (omega arith)))

scan_string-word :
    (b : ℕ) (bs : Word) (c : ℕ) (rest : List ℕ)
    → NoSpaces (b ∷ bs)
    → is_space c ≡ true
    → length (b ∷ bs) ≤ 10
    → scan_string ((b ∷ bs) ++ (c ∷ rest)) ≡ ok (some (b ∷ bs, c ∷ rest))
unfolding scan_string skip_space
scan_string-word b bs c rest (plain, all) space short =
    let word =
      take_word_all (b ∷ bs) c rest (length ((b ∷ bs) ++ (c ∷ rest))) (plain, all) space
        (omega (arith, length-append (b ∷ bs) (c ∷ rest))) in
    let fits : leb (length (b ∷ bs)) 10 ≡ true = ground arith in
    ap string_at (if_false _ _ _ _ plain refl)
    ∙ ap {A = Word × List ℕ} (λ p. if leb (length p.0) 10 then ok (some p) else undefined) word
    ∙ if_true _ _ _ _ fits refl

scan_string-print_hex :
    (n c : ℕ) (rest : List ℕ)
    → n < 4294967296
    → is_space c ≡ true
    → scan_string (print_hex n ++ (c ∷ rest)) ≡ ok (some (print_hex n, c ∷ rest))
unfolding print_hex is_space
scan_string-print_hex n c rest lt space =
    let (all, long) = hex_digits_word n lt in
    scan_string-word 48 (120 ∷ hex_digits 8 n) c rest
      (refl, (refl, NoSpaces-hex (hex_digits 8 n) all)) space (omega (arith, long))

-- A line end or a blank before a word is skipped.
scan_string_blank :
    (c : ℕ) (file : List ℕ) → is_space c ≡ true → scan_string (c ∷ file) ≡ scan_string file
unfolding scan_string skip_space
scan_string_blank c file space = ap string_at (if_true _ _ _ _ space refl)

-- One address to a line.
abbrev pub address_lines : List ℤ → List ℕ
address_lines [] = []
address_lines (address ∷ addresses) = print_hex (to_u32 address) ++ (10 ∷ address_lines addresses)

-- The ends of a region on a line.
abbrev pub region_lines : List Region → List ℕ
region_lines [] = []
region_lines (region ∷ regions) =
    print_hex (to_u32 region.base)
    ++ (32 ∷ (print_hex (to_u32 region.past_end) ++ (10 ∷ region_lines regions)))

abbrev pub AllInt : List ℤ → Type 0
AllInt [] = Unit
AllInt (address ∷ addresses) = IsInt address × AllInt addresses

abbrev pub AllIntRegion : List Region → Type 0
AllIntRegion [] = Unit
AllIntRegion (region ∷ regions) = (IsInt region.base × IsInt region.past_end) × AllIntRegion regions

end_of_file : scan_string [] ≡ ok none
unfolding scan_string skip_space
end_of_file = refl

line_end : is_space 10 ≡ true
unfolding is_space
line_end = refl

blank : is_space 32 ≡ true
unfolding is_space
blank = refl

read_addresses_line :
    (fuel : ℕ) (file : List ℕ) → read_addresses fuel (10 ∷ file) ≡ read_addresses fuel file
unfolding read_addresses
read_addresses_line zero file = refl
read_addresses_line (suc fuel) file = rw (scan_string_blank 10 file line_end) refl

read_regions_line :
    (fuel : ℕ) (file : List ℕ) → read_regions fuel (10 ∷ file) ≡ read_regions fuel file
unfolding read_regions
read_regions_line zero file = refl
read_regions_line (suc fuel) file = rw (scan_string_blank 10 file line_end) refl

-- A file of addresses in the format of the output is read back.
pub read_addresses-written :
    (addresses : List ℤ) (fuel : ℕ)
    → AllInt addresses
    → length addresses < fuel
    → read_addresses fuel (address_lines addresses) ≡ ok addresses
unfolding read_addresses
read_addresses-written addresses zero all lt = absurd (omega arith)
read_addresses-written [] (suc fuel) all lt = rw end_of_file refl
read_addresses-written (address ∷ addresses) (suc fuel) (small, all) lt =
    rw
      (
        scan_string-print_hex (to_u32 address) 10 (address_lines addresses) (to_u32_small address)
            line_end,
        read_addresses_line fuel (address_lines addresses),
        read_addresses-written addresses fuel all (omega arith),
        read_address-print address small,
      )
      refl

-- A file of regions, with both ends on a line and in the format of the output, is read back.
pub read_regions-written :
    (regions : List Region) (fuel : ℕ)
    → AllIntRegion regions
    → length regions < fuel
    → read_regions fuel (region_lines regions) ≡ ok regions
unfolding read_regions
read_regions-written regions zero all lt = absurd (omega arith)
read_regions-written [] (suc fuel) all lt = rw end_of_file refl
read_regions-written (region ∷ regions) (suc fuel) ((small, small'), all) lt =
    rw
      (
        scan_string-print_hex (to_u32 region.base) 32
            (print_hex (to_u32 region.past_end) ++ (10 ∷ region_lines regions))
            (to_u32_small region.base) blank,
        scan_string_blank 32 (print_hex (to_u32 region.past_end) ++ (10 ∷ region_lines regions))
            blank,
        scan_string-print_hex (to_u32 region.past_end) 10 (region_lines regions)
            (to_u32_small region.past_end) line_end,
        read_regions_line fuel (region_lines regions),
        read_regions-written regions fuel all (omega arith),
        read_address-print region.base small,
        read_address-print region.past_end small',
      )
      refl
