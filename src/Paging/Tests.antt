-- ===== src/Paging/Tests.antt =====
-- Runs of proj03/src with one frame, and from tables in which a page is in place.
use cs.Prelude.{
  ℕ, ◌+◌, ◌*◌, ◌%◌, ◌≡◌, ◌<◌, refl, true, false, none, List, [], ◌∷◌, inl, inr, arith, length, ok,
  ◌==◌, ◌&&◌, Bool-cases, if◌then◌else◌,
}
use cs.Prelude.Int.{ℤ, pos, negsuc}
use cs.Paging.{
  Region, Params, Page, Table, State, PagingResult, page_table_length, get_fifo_page,
  get_victim_page, is_virtual_address_in_range, allocate_frame, reference, run_paging_simulation,
  init_state,
}
use cs.Paging.Address.{get_logical_address, to_u32}
use cs.Paging.Address.Masks.{get_logical_address_lem}
use cs.Paging.Scan.{IsVictim, get_fifo_page_late}
use cs.Paging.Invariant.{
  IsValid, IsSound, Allocated, victim_key, get_victim_page-IsVictim, allocate_frame-Allocated,
}
use cs.Paging.Step.{IsStep}
use cs.Paging.Reference.{reference-IsStep}
use cs.Paging.Run.{Steps, run_paging_simulation-Steps}
use cs.Paging.Input.Simulation.{NoException, simulate-NoException}
use cs.Paging.Input.{simulate}
use cs.Paging.Input.Addresses.{random_source}

abbrev region : Region
region = record { base = pos 0; past_end = pos 1000000 }

-- One frame, least recently used first.
abbrev one_frame : Params
one_frame = record { replacement_algorithm = 1; num_of_frames = 1; virtual_regions = region ∷ [] }

one_frame-IsSound : IsSound one_frame
one_frame-IsSound = record {
  some_frames = omega arith;
  enough_room = omega arith;
  known = inr refl;
}

-- The page at (0, 2) holds frame 0 since time 1.
abbrev held_page : Page
held_page = record { frame = pos 0; valid = true; page_in_time = pos 1; last_used_time = pos 1 }

abbrev no_page : Page
no_page = record {
  frame = negsuc 0;
  valid = false;
  page_in_time = negsuc 0;
  last_used_time = negsuc 0;
}

abbrev held_table : Table
held_table i j = if i == 0 && j == 2 then held_page else no_page

abbrev held_state : State
held_state = record { frames = λ f. f == 0; table = held_table; t = 1 }

only_page : (i j : ℕ) → (held_table i j).valid ≡ true → (i ≡ 0) × (j ≡ 2)
only_page i j h = elim (Bool-cases (i == 0 && j == 2)) [
  | inl here ↦ ground arith
  | inr other ↦ absurd (let e = rw other at h in cc)
]

held_state-IsValid : IsValid one_frame held_state
held_state-IsValid = record {
  row = λ i j h. let (e, _) = only_page i j h in omega arith;
  column = λ i j h. let (_, e) = only_page i j h in omega arith;
  framed = λ i j h. let (e, f) = only_page i j h in (0, rw (e, f) refl, omega arith, refl);
  distinct = λ i j i' j' f h k.
      let (a, b) = only_page i j h.0 in
      let (c, d) = only_page i' j' k.0 in (omega arith, omega arith);
  held = λ f h. let e : f ≡ 0 = ground arith in (0, 2, (refl, rw e refl));
  timed = λ i j h.
      let (e, f) = only_page i j h in
      rw (e, f)
        (record {
          came = 1;
          used = 1;
          page_in = refl;
          last_used = refl;
          order = omega arith;
          past = omega arith;
        });
}

get_logical_address_lem_example :
    let logical = get_logical_address (pos 12293) in
    (logical.outer_index < 1024)
    × (logical.inner_index < 1024)
    × (logical.page_offset < 4096)
    × (logical.outer_index * 4194304 + logical.inner_index * 4096 + logical.page_offset
        ≡ to_u32 (pos 12293))
get_logical_address_lem_example = get_logical_address_lem (pos 12293)

-- The same page, brought in at time 1000000.
abbrev late_table : Table
late_table i j = record (held_table i j) { page_in_time = pos 1000000 }

get_fifo_page_late_example : get_fifo_page late_table ≡ none
get_fifo_page_late_example = get_fifo_page_late late_table (λ i j hi hj h. omega arith)

get_victim_page-IsVictim_example :
    (victim : ℕ × ℕ) × (get_victim_page one_frame held_state.table ≡ ok victim)
    × IsVictim (victim_key one_frame) held_state.table page_table_length victim
get_victim_page-IsVictim_example =
    get_victim_page-IsVictim one_frame held_state 0 2 one_frame-IsSound held_state-IsValid refl
      (omega arith)

allocate_frame-Allocated_example :
    (index : ℕ) × (table : Table) × (allocate_frame one_frame held_state ≡ ok (index, table))
    × Allocated one_frame held_state index table
allocate_frame-Allocated_example =
    allocate_frame-Allocated one_frame held_state one_frame-IsSound held_state-IsValid (omega arith)

reference-IsStep_example :
    (result : PagingResult) × (s' : State) × (reference one_frame held_state (pos 12293)
      ≡ ok (result, s'))
    × IsStep one_frame held_state (pos 12293) result s'
reference-IsStep_example =
    reference-IsStep one_frame held_state (pos 12293) one_frame-IsSound held_state-IsValid
      (omega arith)

abbrev sample_addresses : List ℤ
sample_addresses = pos 12293 ∷ pos 12294 ∷ pos 8192 ∷ pos 1000000 ∷ []

run_paging_simulation-Steps_example :
    (results : List PagingResult) × (end : State) × (run_paging_simulation one_frame
        sample_addresses
      ≡ ok results)
    × Steps one_frame init_state sample_addresses results end
run_paging_simulation-Steps_example =
    run_paging_simulation-Steps one_frame sample_addresses one_frame-IsSound (omega arith)

abbrev first_step :
    (result : PagingResult) × (s' : State) × (reference one_frame held_state (pos 12293)
      ≡ ok (result, s'))
    × IsStep one_frame held_state (pos 12293) result s'
first_step =
    reference-IsStep one_frame held_state (pos 12293) one_frame-IsSound held_state-IsValid
      (omega arith)

early : first_step.1.t < 999999
early = omega (arith, first_step.3.time)

abbrev second_step :
    (result : PagingResult) × (s' : State) × (reference one_frame first_step.1 (pos 12293)
      ≡ ok (result, s'))
    × IsStep one_frame first_step.1 (pos 12293) result s'
second_step =
    reference-IsStep one_frame first_step.1 (pos 12293) one_frame-IsSound first_step.3.valid early

in_region : is_virtual_address_in_range (region ∷ []) (pos 12293) ≡ true
unfolding is_virtual_address_in_range
in_region = refl

simulate-NoException_example :
    (results : List PagingResult) × (simulate (λ k. k % 100) 11 one_frame (random_source 1000000 10)
      ≡ ok results)
    × (length results ≡ 10)
    × NoException results
simulate-NoException_example =
    simulate-NoException (λ k. k % 100) one_frame 1000000 10 11 (λ k. omega arith) one_frame-IsSound
      refl (omega arith) (omega arith) (omega arith) (omega arith)
