-- ===== src/Paging/Input/Addresses.antt =====
-- The addresses that the iterator of proj03/src/params.c yields, for either input method.
use native.Mathlib.Nat.{div-lt_iff_lt-mul, lt-mul-div-succ}
use cs.Prelude.{
  ℕ, zero, suc, ◌+◌, ◌-◌, ◌/◌, ◌≤◌, ◌<◌, ◌≡◌, refl, ap, true, false, List, [], ◌∷◌, leb, ◌==◌, ok,
  arith, length, inl, inr, Bool-cases,
}
use cs.Prelude.Int.{ℤ, pos, ltb_ℤ, ◌+ℤ◌, ◌-ℤ◌}
use cs.Paging.Regions.{InSome, InSome-is_virtual_address_in_range}
use cs.Paging.{Region, is_virtual_address_in_range}
use cs.Paging.Input.{
  equal_ℤ, Source, Iterator, InputMethod, rand_max, random_offset, get_random_in_range,
  init_params_iterator, has_next_virtual_address, get_next_virtual_address, addresses,
}

-- The drawn number is scaled below the width.
scaled_below :
    (drawn width : ℕ) → drawn ≤ rand_max → 0 < width → drawn / (rand_max / width + 1) < width
scaled_below drawn width small positive =
    (div-lt_iff_lt-mul {k = rand_max / width + 1} {x = drawn} {y = width} (omega arith)).1
      (omega (arith, lt-mul-div-succ rand_max {b = width} positive))

pub random_offset_lem :
    (drawn width : ℕ)
    → drawn ≤ rand_max
    → 0 < width
    → width ≤ rand_max
    → (offset : ℕ) × (random_offset drawn (pos width) ≡ ok (pos offset)) × (offset < width)
unfolding random_offset
random_offset_lem drawn width small positive fits =
    let test : (width == 0) ≡ false = ground arith in
    let test' : leb width rand_max ≡ true = ground arith in
    (drawn / (rand_max / width + 1), rw (test, test') refl, scaled_below drawn width small positive)

width_lem :
    (start width : ℕ) → 0 < width → pos (start + width - 1) -ℤ pos start +ℤ pos 1 ≡ pos width
unfolding ◌-ℤ◌ ◌+ℤ◌
width_lem start width positive = ground arith

pos_sum : (a b : ℕ) → pos a +ℤ pos b ≡ pos (a + b)
unfolding ◌+ℤ◌
pos_sum a b = ground arith

-- From a number that `rand` can return, a range of `width` numbers that an `int` can count yields one of
-- its numbers.
pub get_random_in_range_lem :
    (drawn start width : ℕ)
    → drawn ≤ rand_max
    → 0 < width
    → width ≤ rand_max
    → (offset : ℕ) × (get_random_in_range drawn (pos start) (pos (start + width - 1))
        ≡ ok (pos (start + offset)))
      × (offset < width)
unfolding get_random_in_range
get_random_in_range_lem drawn start width small positive fits = elim (Bool-cases (width == 1)) [
  | inl one ↦ (0, ground arith, positive)
  | inr more ↦
      let (offset, run, below) = random_offset_lem drawn width small positive fits in
      let test : equal_ℤ (pos start) (pos (start + width - 1)) ≡ false = ground arith in
      (
        offset,
        rw (test, width_lem start width positive, run) (ap (λ x. ok x) (pos_sum start offset)),
        below,
      )
]

-- The sources that `parse_arguments` sets up for the two input methods.
abbrev pub random_source : ℕ → ℕ → Source
random_source past_end total = record {
  input_method = InputMethod.input_method_random;
  total_virtual_address_input_length = pos total;
  virtual_regions = record { base = pos 0; past_end = pos past_end } ∷ [];
  virtual_addresses = [];
}

abbrev pub file_source : List Region → List ℤ → Source
file_source regions file = record {
  input_method = InputMethod.input_method_file;
  total_virtual_address_input_length = pos (length file);
  virtual_regions = regions;
  virtual_addresses = file;
}

abbrev at_count : Source → List ℤ → ℕ → Iterator
at_count source next count = record {
  source = source;
  next_virtual_address = next;
  iteration_count = count;
}

-- Every address lies in some region.
abbrev pub AllInRange : List Region → List ℤ → Type 0
AllInRange regions [] = Unit
AllInRange regions (address ∷ rest) =
    (is_virtual_address_in_range regions address ≡ true) × AllInRange regions rest

module _ (rand : ℕ → ℕ) (small : (k : ℕ) → rand k ≤ rand_max) (past_end : ℕ)
    (positive : 0 < past_end) (fits : past_end ≤ rand_max) (total : ℕ) where
  drop_one : pos past_end -ℤ pos 1 ≡ pos (0 + past_end - 1)
  unfolding ◌-ℤ◌
  drop_one = ground arith

  -- A random address lies in the region that the command line sets up.
  random_address :
      (k : ℕ)
      → (address : ℕ) × (get_next_virtual_address rand
            (at_count (random_source past_end total) [] k)
          ≡ ok (pos address, at_count (random_source past_end total) [] (k + 1)))
        × (address < past_end)
  unfolding get_next_virtual_address
  random_address k =
      let (offset, run, below) =
        get_random_in_range_lem (rand k) 0 past_end (small k) positive fits in
      (0 + offset, rw (drop_one, run) refl, omega arith)

  in_region :
      (address : ℕ)
      → address < past_end
      → is_virtual_address_in_range (random_source past_end total).virtual_regions (pos address)
        ≡ true
  in_region address below =
      InSome-is_virtual_address_in_range _ (pos address) (InSome.here (omega arith, ground arith))

  pub random_addresses :
      (n k fuel : ℕ)
      → k + n ≡ total
      → n < fuel
      → (result : List ℤ) × (addresses rand fuel (at_count (random_source past_end total) [] k)
          ≡ ok result)
        × (length result ≡ n)
        × AllInRange (random_source past_end total).virtual_regions result
  unfolding addresses has_next_virtual_address
  random_addresses n k zero e enough = absurd (omega arith)
  random_addresses zero k (suc fuel) e enough =
      let stop : ltb_ℤ (pos k) (pos total) ≡ false = ground arith in ([], rw stop refl, refl, tt)
  random_addresses (suc n) k (suc fuel) e enough =
      let more : ltb_ℤ (pos k) (pos total) ≡ true = ground arith in
      let (address, run, below) = random_address k in
      let (rest, runs, count, inside) =
        random_addresses n (k + 1) fuel (omega arith) (omega arith) in
      (
        pos address ∷ rest,
        rw (more, run, runs) refl,
        ap suc count,
        (in_region address below, inside),
      )

file_addresses :
    (rand : ℕ → ℕ) (source : Source) (xs : List ℤ) (k fuel : ℕ)
    → source.input_method ≡ InputMethod.input_method_file
    → length xs < fuel
    → addresses rand fuel (at_count source xs k) ≡ ok xs
unfolding addresses has_next_virtual_address get_next_virtual_address
file_addresses rand source xs k zero file enough = absurd (omega arith)
file_addresses rand source [] k (suc fuel) file enough = rw file refl
file_addresses rand source (x ∷ xs) k (suc fuel) file enough =
    rw (file, file_addresses rand source xs (k + 1) fuel file (omega arith)) refl

-- With the input of files, and fuel for one more round than there are addresses, the iterator
-- yields the addresses of the file in order.
pub addresses_file :
    (rand : ℕ → ℕ) (regions : List Region) (file : List ℤ) (fuel : ℕ)
    → length file < fuel
    → addresses rand fuel (init_params_iterator (file_source regions file)) ≡ ok file
unfolding init_params_iterator
addresses_file rand regions file fuel enough =
    file_addresses rand (file_source regions file) file 0 fuel refl enough

-- With random input, fuel for one more round than there are addresses, numbers from rand of at most
-- RAND_MAX and a region from 0 to a positive int, the iterator yields as many addresses as asked
-- for, each of them in range.
pub addresses_random :
    (rand : ℕ → ℕ) (past_end total fuel : ℕ)
    → ((k : ℕ) → rand k ≤ rand_max)
    → 0 < past_end
    → past_end ≤ rand_max
    → total < fuel
    → (result : List ℤ) × (addresses rand fuel (init_params_iterator (random_source past_end total))
        ≡ ok result)
      × (length result ≡ total)
      × AllInRange (random_source past_end total).virtual_regions result
unfolding init_params_iterator
addresses_random rand past_end total fuel small positive fits enough =
    random_addresses rand small past_end positive fits total total 0 fuel (omega arith) enough
