-- ===== src/Paging/Step.antt =====
-- What one iteration of `run_paging_simulation` of proj03/src/paging.c has to do.
use cs.Prelude.{ℕ, ◌+◌, ◌*◌, ◌%◌, ◌<◌, ◌≡◌, true, false, not, none, some, ◌⊎◌, if◌then◌else◌}
use cs.Prelude.Int.{ℤ, pos, negsuc}
use cs.Paging.Address.{to_u32, get_logical_address}
use cs.Paging.Hit.{At}
use cs.Paging.Invariant.{Holds, IsValid}
use cs.Paging.{Params, State, PagingResult, is_virtual_address_in_range}

-- The reference of an address outside the regions only counts as a step.
pub record IsUnused (s : State) (result : PagingResult) (s' : State) : Type 0 where
  pub exception : result.unused_memory_access_exception ≡ true
  pub no_fault : result.caused_page_fault ≡ false
  pub no_address : result.physical_address ≡ none
  pub same_frames : s'.frames ≡ s.frames
  pub same_table : s'.table ≡ s.table

-- The reference of an address within them: its page holds `frame` afterwards, at which the physical
-- address lies, it came in now if there was a fault, and is used now; every other valid page has its
-- entry as before, and none has lost a frame but to it.
pub record IsTranslated (params : Params) (s : State) (address : ℤ) (frame : ℕ)
    (result : PagingResult) (s' : State) : Type 0 where
  pub no_exception : result.unused_memory_access_exception ≡ false
  pub fault :
      result.caused_page_fault
      ≡ not
          (s.table
            (get_logical_address address).outer_index
            (get_logical_address address).inner_index).valid
  pub below : frame < params.num_of_frames
  pub holds :
      Holds s'.table
        (get_logical_address address).outer_index
        (get_logical_address address).inner_index
        frame
  pub physical : result.physical_address ≡ some (frame * 4096 + to_u32 address % 4096)
  pub replaced :
      result.replaced_frame_index ≡ (if result.caused_page_fault then pos frame else negsuc 0)
  pub came :
      (s'.table
        (get_logical_address address).outer_index
        (get_logical_address address).inner_index).page_in_time
      ≡ (if result.caused_page_fault
          then pos s'.t
          else (s.table
              (get_logical_address address).outer_index
              (get_logical_address address).inner_index).page_in_time)
  pub used :
      (s'.table
        (get_logical_address address).outer_index
        (get_logical_address address).inner_index).last_used_time
      ≡ pos s'.t
  pub unchanged :
      (i j : ℕ)
      → ¬ At (get_logical_address address).outer_index (get_logical_address address).inner_index i j
      → (s'.table i j).valid ≡ true
      → s'.table i j ≡ s.table i j
  pub others : (i j f : ℕ) → Holds s.table i j f → Holds s'.table i j f ⊎ (f ≡ frame)

-- A step of the simulation, on either branch.
pub record IsStep (params : Params) (s : State) (address : ℤ) (result : PagingResult) (s' : State)
    : Type 0 where
  pub time : s'.t ≡ s.t + 1
  pub valid : IsValid params s'
  pub virtual : result.virtual_address ≡ address
  pub outcome :
      ((is_virtual_address_in_range params.virtual_regions address ≡ false) × IsUnused s result s')
      ⊎ ((is_virtual_address_in_range params.virtual_regions address ≡ true)
          × ((frame : ℕ) × IsTranslated params s address frame result s'))
