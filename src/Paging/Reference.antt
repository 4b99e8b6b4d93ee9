-- ===== src/Paging/Reference.antt =====
-- One iteration of `run_paging_simulation` of proj03/src/paging.c, on every branch.
use cs.Prelude.{◌+◌, ◌<◌, ◌≡◌, ◌∙◌, refl, sym, ap, true, false, some, inl, inr, Bool-cases, ok}
use cs.Prelude.Int.{ℤ, pos}
use cs.Paging.Address.{get_logical_address, get_physical_address}
use cs.Paging.Address.Masks.{get_logical_address_lem, get_physical_address-page_offset}
use cs.Paging.Hit.{set_page_self, set_page_twice}
use cs.Paging.Fault.{placed, fault-IsValid, fault-Holds, fault-others, fault-page, fault-unchanged}
use cs.Paging.Invariant.{IsValid, IsSound, allocate_frame-Allocated}
use cs.Paging.{
  Params, State, PagingResult, set_page, take_frame, page_in, touch, page_fault, reference,
  is_virtual_address_in_range,
}
use cs.Paging.Present.{Step, Step-unused, Step-hit, finish_lem}
use cs.Paging.Step.{IsStep}

Step-miss :
    (params : Params) (s : State) (address : ℤ)
    → IsSound params
    → IsValid params s
    → s.t < 999999
    → is_virtual_address_in_range params.virtual_regions address ≡ true
    → (s.table
        (get_logical_address address).outer_index
        (get_logical_address address).inner_index).valid
      ≡ false
    → Step params s address
unfolding reference page_fault
Step-miss params s address sound v early inside absent =
    let logical = get_logical_address address in
    let outer = logical.outer_index in
    let inner = logical.inner_index in
    let (row, column, _, _) = get_logical_address_lem address in
    let (index, table, run, a) = allocate_frame-Allocated params s sound v early in
    let page = page_in (table outer inner) index (s.t + 1) in
    let here : State = record {
      frames = take_frame s.frames index;
      table = set_page table outer inner page;
      t = s.t + 1;
    } in
    let same : set_page here.table outer inner (touch (here.table outer inner) (s.t + 1))
        ≡ placed params s v index table a outer inner row column absent =
      set_page_twice table outer inner page (touch (here.table outer inner) (s.t + 1))
      ∙ ap (λ p. set_page table outer inner (touch p (s.t + 1)))
          (set_page_self table outer inner page) in
    (
      record {
        virtual_address = address;
        physical_address = some (get_physical_address index logical.page_offset);
        replaced_frame_index = pos index;
        caused_page_fault = true;
        unused_memory_access_exception = false;
      },
      record here { table = placed params s v index table a outer inner row column absent },
      rw (inside, absent, run)
          (rw (sym same) (
            finish_lem here address logical (pos index) true index
              (ap (λ p. p.frame) (set_page_self table outer inner page)))),
      record {
        time = refl;
        valid = fault-IsValid params s v index table a outer inner row column absent;
        virtual = refl;
        outcome = inr (
          inside,
          (
            index,
            record {
              no_exception = refl;
              fault = rw absent refl;
              below = a.inside;
              holds = fault-Holds params s v index table a outer inner row column absent;
              physical = ap some (get_physical_address-page_offset address index);
              replaced = refl;
              came =
                  ap (λ p. p.page_in_time)
                    (fault-page params s v index table a outer inner row column absent);
              used =
                  ap (λ p. p.last_used_time)
                    (fault-page params s v index table a outer inner row column absent);
              unchanged = fault-unchanged params s v index table a outer inner row column absent;
              others = fault-others params s v index table a outer inner row column absent;
            },
          ),
        );
      },
    )

-- Under sound parameters (some frames, no more than MAX_FRAME_COUNT, and a known algorithm), in valid
-- tables and before time 999999, a reference returns, a step later and in valid tables. Of an address
-- outside the regions it reports an exception and changes no table. Of one within them it reports a
-- fault exactly if the page was not valid; the page then holds the frame at which the physical address
-- lies, at the offset of the virtual one, and is used now; every other valid page has its entry as
-- before, and has lost no frame but the one that is taken.
pub reference-IsStep :
    (params : Params) (s : State) (address : ℤ)
    → IsSound params
    → IsValid params s
    → s.t < 999999
    → (result : PagingResult) × (s' : State) × (reference params s address ≡ ok (result, s'))
      × IsStep params s address result s'
reference-IsStep params s address sound v early =
    elim (Bool-cases (is_virtual_address_in_range params.virtual_regions address)) [
      | inr out ↦ Step-unused params s address v out
      | inl inside ↦
          elim (Bool-cases
            (s.table (get_logical_address address).outer_index
              (get_logical_address address).inner_index).valid) [
                | inl present ↦ Step-hit params s address v inside present
                | inr absent ↦ Step-miss params s address sound v early inside absent
              ]
    ]
