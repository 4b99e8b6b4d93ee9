-- ===== src/Paging/Input.antt =====
-- The addresses of a simulation: the iterator of proj03/src/params.c, and the random numbers of
-- proj03/src/utility.c.
pub mod Addresses
pub mod Simulation
use cs.Prelude.{
  ℕ, zero, suc, ◌+◌, ◌-◌, ◌/◌, Bool, true, false, List, [], ◌∷◌, ltb, leb, ◌==◌, if◌then◌else◌, not,
  ◌&&◌, Outcome, ok, undefined, out_of_fuel, ◌>>=◌,
}
use cs.Prelude.Int.{ℤ, pos, negsuc, ltb_ℤ, ◌+ℤ◌, ◌-ℤ◌, sub_ℕ}
use cs.Paging.{Region, Params, PagingResult, run_paging_simulation}

-- `enum input_method`
pub data InputMethod : Type 0 where
  input_method_file : InputMethod
  input_method_random : InputMethod

-- What the iterator reads of `struct param_store`.
pub record Source : Type 0 where
  pub input_method : InputMethod
  pub total_virtual_address_input_length : ℤ
  pub virtual_regions : List Region
  pub virtual_addresses : List ℤ

-- `RAND_MAX`, which is also the largest `int`.
abbrev pub rand_max : ℕ
rand_max = 2147483647

-- `drawn / (RAND_MAX / width + 1)` for an int `width`: undefined for a divisor 0, and where `width` does
-- not fit.
pub random_offset : ℕ → ℤ → Outcome ℤ
random_offset drawn (pos width) =
    if width == 0
    then undefined
    else if leb width rand_max
    then ok (pos (drawn / (rand_max / width + 1)))
    else undefined
random_offset drawn (negsuc n) =
    let quotient = rand_max / suc n in
    if leb (suc n) rand_max
    then if quotient == 1 then undefined else ok (sub_ℕ 0 (drawn / (quotient - 1)))
    else undefined

abbrev pub equal_ℤ : ℤ → ℤ → Bool
equal_ℤ a b = not (ltb_ℤ a b) && not (ltb_ℤ b a)

-- `drawn` is what `rand` returns.
unfoldable pub get_random_in_range : ℕ → ℤ → ℤ → Outcome ℤ
unfolding random_offset ◌-ℤ◌ ◌+ℤ◌
get_random_in_range drawn range_start range_end =
    if equal_ℤ range_start range_end
    then ok range_start
    else random_offset drawn (range_end -ℤ range_start +ℤ pos 1) >>= λ offset.
        ok (range_start +ℤ offset)

-- `struct param_virtual_address_iterator`
pub record Iterator : Type 0 where
  pub source : Source
  pub next_virtual_address : List ℤ
  pub iteration_count : ℕ

pub init_params_iterator : Source → Iterator
init_params_iterator source = record {
  source = source;
  next_virtual_address = source.virtual_addresses;
  iteration_count = 0;
}

abbrev pub is_nonempty : List ℤ → Bool
is_nonempty [] = false
is_nonempty (address ∷ addresses) = true

pub has_next_virtual_address : Iterator → Bool
has_next_virtual_address it = elim it.source.input_method [
  | input_method_random ↦
      ltb_ℤ (pos it.iteration_count) it.source.total_virtual_address_input_length
  | input_method_file ↦ is_nonempty it.next_virtual_address
]

-- The `past_end` of the first region; NULL is not checked.
abbrev pub first_past_end : List Region → Outcome ℤ
first_past_end [] = undefined
first_past_end (region ∷ regions) = ok region.past_end

-- The next address of the file; NULL is not checked.
abbrev pub first_address : List ℤ → Outcome (ℤ × List ℤ)
first_address [] = undefined
first_address (address ∷ addresses) = ok (address, addresses)

-- `rand k` is what `rand` returns when the iterator has yielded `k` addresses.
module _ (rand : ℕ → ℕ) where
  pub get_next_virtual_address : Iterator → Outcome (ℤ × Iterator)
  unfolding get_random_in_range ◌-ℤ◌
  get_next_virtual_address it = elim it.source.input_method [
    | input_method_random ↦ do
      past_end ← first_past_end it.source.virtual_regions
      address ← get_random_in_range (rand it.iteration_count) (pos 0) (past_end -ℤ pos 1)
      ok (address, record it { iteration_count = it.iteration_count + 1 })
    | input_method_file ↦ do
      (address, rest) ← first_address it.next_virtual_address
      ok (
        address,
        record it { next_virtual_address = rest; iteration_count = it.iteration_count + 1 },
      )
  ]

  -- What the loop of `run_paging_simulation` takes from the iterator, on fuel.
  pub addresses : ℕ → Iterator → Outcome (List ℤ)
  unfolding has_next_virtual_address get_next_virtual_address
  addresses zero it = out_of_fuel
  addresses (suc fuel) it =
      let more = get_next_virtual_address it >>= λ (address, it').
      addresses fuel it' >>= λ rest. ok (address ∷ rest) in
      if has_next_virtual_address it then more else ok []

  -- The simulation of the addresses that the iterator yields; `params` and `source` are read from the same
  -- `struct param_store`.
  pub simulate : ℕ → Params → Source → Outcome (List PagingResult)
  unfolding addresses init_params_iterator
  simulate fuel params source =
      addresses fuel (init_params_iterator source) >>= λ list. run_paging_simulation params list
