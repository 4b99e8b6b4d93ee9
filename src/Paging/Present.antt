-- ===== src/Paging/Present.antt =====
-- The iterations of `run_paging_simulation` of proj03/src/paging.c without a fault.
use cs.Prelude.{
  ℕ, ◌+◌, ◌≡◌, refl, sym, ap, Bool, true, false, none, some, inl, inr, arith, if_true, ok,
}
use cs.Prelude.Int.{ℤ, pos, negsuc}
use cs.Paging.Address.{LogicalAddress, get_logical_address, get_physical_address}
use cs.Paging.Address.Masks.{get_physical_address-page_offset}
use cs.Paging.Hit.{set_page_cases, set_page_self, set_page_other, touched, hit-IsValid}
use cs.Paging.Invariant.{Holds, IsValid}
use cs.Paging.{
  Params, Table, State, PagingResult, set_page, touch, finish, reference,
  is_virtual_address_in_range,
}
use cs.Paging.Step.{IsStep}

abbrev pub Step : Params → State → ℤ → Type 0
Step params s address =
    (result : PagingResult) × (s' : State) × (reference params s address ≡ ok (result, s'))
    × IsStep params s address result s'

later-IsValid :
    (params : Params) (s : State) → IsValid params s → IsValid params (record s { t = s.t + 1 })
later-IsValid params s v = record {
  row = v.row;
  column = v.column;
  framed = v.framed;
  distinct = v.distinct;
  held = v.held;
  timed = λ i j h.
      let w = v.timed i j h in
      record {
        came = w.came;
        used = w.used;
        page_in = w.page_in;
        last_used = w.last_used;
        order = w.order;
        past = omega (arith, w.past);
      };
}

pub Step-unused :
    (params : Params) (s : State) (address : ℤ)
    → IsValid params s
    → is_virtual_address_in_range params.virtual_regions address ≡ false
    → Step params s address
unfolding reference
Step-unused params s address v out = (
  record {
    virtual_address = address;
    physical_address = none;
    replaced_frame_index = negsuc 0;
    caused_page_fault = false;
    unused_memory_access_exception = true;
  },
  record s { t = s.t + 1 },
  rw out refl,
  record {
    time = refl;
    valid = later-IsValid params s v;
    virtual = refl;
    outcome = inl (
      out,
      record {
        exception = refl;
        no_fault = refl;
        no_address = refl;
        same_frames = refl;
        same_table = refl;
      },
    );
  },
)

-- The end of an iteration for the page of an address that holds a frame.
pub finish_lem :
    (s : State) (address : ℤ) (logical : LogicalAddress) (replaced : ℤ) (fault : Bool) (frame : ℕ)
    → (s.table logical.outer_index logical.inner_index).frame ≡ pos frame
    → finish s address logical replaced fault
      ≡ ok (
        record {
          virtual_address = address;
          physical_address = some (get_physical_address frame logical.page_offset);
          replaced_frame_index = replaced;
          caused_page_fault = fault;
          unused_memory_access_exception = false;
        },
        record s {
          table =
              set_page s.table logical.outer_index logical.inner_index
                (touch (s.table logical.outer_index logical.inner_index) s.t);
        },
      )
unfolding finish
finish_lem s address logical replaced fault frame e = rw e refl

touch-Holds :
    (table : Table) (outer inner t i j f : ℕ)
    → Holds table i j f
    → Holds (set_page table outer inner (touch (table outer inner) t)) i j f
touch-Holds table outer inner t i j f (h, k) =
    elim (set_page_cases table outer inner (touch (table outer inner) t) i j) [
      | inl (at, e) ↦
          let here : Holds table outer inner f = rw (sym at.0, sym at.1) (h, k) in rw e here
      | inr (_, e) ↦ rw e (h, k)
    ]

pub Step-hit :
    (params : Params) (s : State) (address : ℤ)
    → IsValid params s
    → is_virtual_address_in_range params.virtual_regions address ≡ true
    → (s.table
        (get_logical_address address).outer_index
        (get_logical_address address).inner_index).valid
      ≡ true
    → Step params s address
unfolding reference
Step-hit params s address v inside present =
    let logical = get_logical_address address in
    let outer = logical.outer_index in
    let inner = logical.inner_index in
    let (frame, at, below, _) = v.framed outer inner present in
    (
      record {
        virtual_address = address;
        physical_address = some (get_physical_address frame logical.page_offset);
        replaced_frame_index = negsuc 0;
        caused_page_fault = false;
        unused_memory_access_exception = false;
      },
      record s { table = touched params s v outer inner present; t = s.t + 1 },
      rw inside (
          if_true _ _ _ _ present
            (finish_lem (record s { t = s.t + 1 }) address logical (negsuc 0) false frame at)),
      record {
        time = refl;
        valid = hit-IsValid params s v outer inner present;
        virtual = refl;
        outcome = inr (
          inside,
          (
            frame,
            record {
              no_exception = refl;
              fault = rw present refl;
              below = below;
              holds = touch-Holds s.table outer inner (s.t + 1) outer inner frame (present, at);
              physical = ap some (get_physical_address-page_offset address frame);
              replaced = refl;
              came =
                  ap (λ p. p.page_in_time)
                    (set_page_self s.table outer inner (touch (s.table outer inner) (s.t + 1)));
              used =
                  ap (λ p. p.last_used_time)
                    (set_page_self s.table outer inner (touch (s.table outer inner) (s.t + 1)));
              unchanged = λ i j n h.
                  set_page_other s.table outer inner (touch (s.table outer inner) (s.t + 1)) i j n;
              others = λ i j f h. inl (touch-Holds s.table outer inner (s.t + 1) i j f h);
            },
          ),
        );
      },
    )
