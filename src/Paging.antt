-- ===== src/Paging.antt =====
-- proj03/src/paging.c: demand paging with two-level page tables of 1024 entries each, and FIFO or LRU
-- replacement. An `int` is an integer; the `int` that holds an address is read as its 32-bit pattern
-- where the code masks and shifts it.
pub mod Address
pub mod Candidates
pub mod Scan
pub mod Search
pub mod Invariant
pub mod Hit
pub mod Fault
pub mod Step
pub mod Present
pub mod Reference
pub mod Run
pub mod Regions
pub mod Input
pub mod Parsing
mod Tests
use cs.Prelude.{
  ℕ, zero, suc, ◌+◌, ◌-◌, ◌*◌, ◌/◌, ◌%◌, ◌^◌, Bool, true, false, not, ◌&&◌, List, [], ◌∷◌, Option,
  none, some, ltb, leb, ◌==◌, if◌then◌else◌, Outcome, ok, exit, undefined, ◌>>=◌, from_option,
}
use cs.Prelude.Int.{ℤ, pos, negsuc, ltb_ℤ}
use cs.Paging.Address.{LogicalAddress, get_logical_address, get_physical_address}

-- `struct virtual_regions`, as the list of its nodes.
pub record Region : Type 0 where
  pub base : ℤ
  pub past_end : ℤ

-- `struct page`
pub record Page : Type 0 where
  pub frame : ℤ
  pub valid : Bool
  pub page_in_time : ℤ
  pub last_used_time : ℤ

-- The inner pages of the outer pages, by outer and inner index.
abbrev pub Table : Type 0
Table = ℕ → ℕ → Page

abbrev pub set_page : Table → ℕ → ℕ → Page → Table
set_page table outer inner page i j = if outer == i && inner == j then page else table i j

abbrev pub page_table_length : ℕ
page_table_length = 1024

abbrev pub max_frame_count : ℕ
max_frame_count = 1000

-- `replacement_algorithm`, REPLACEMENT_LRU or REPLACEMENT_FIFO; the value is not checked when it is
-- parsed.
abbrev pub replacement_lru : ℕ
replacement_lru = 1

abbrev pub replacement_fifo : ℕ
replacement_fifo = 2

-- What `run_paging_simulation` reads of `struct param_store`.
pub record Params : Type 0 where
  pub replacement_algorithm : ℕ
  pub num_of_frames : ℕ
  pub virtual_regions : List Region

pub is_virtual_address_in_range : List Region → ℤ → Bool
is_virtual_address_in_range [] address = false
is_virtual_address_in_range (node ∷ regions) address =
    if not (ltb_ℤ address node.base) && ltb_ℤ address node.past_end
    then true
    else is_virtual_address_in_range regions address

-- `frames[i].taken`
abbrev pub Frames : Type 0
Frames = ℕ → Bool

abbrev pub take_frame : Frames → ℕ → Frames
take_frame frames index i = if index == i then true else frames i

-- The loop from frame `i` on, by the rounds left; `none` is the result -1. The array has
-- MAX_FRAME_COUNT elements.
pub find_free_from : Frames → ℕ → ℕ → Outcome (Option ℕ)
find_free_from frames zero i = ok none
find_free_from frames (suc n) i =
    let rest = find_free_from frames n (i + 1) in
    let inside = if frames i then rest else ok (some i) in
    if ltb i max_frame_count then inside else undefined

pub find_first_free_frame : Params → Frames → Outcome (Option ℕ)
unfolding find_free_from
find_first_free_frame params frames = find_free_from frames params.num_of_frames 0

-- The locals of a scan: the least time so far, and the page that has it. `none` is the pointer that
-- is never set.
pub record Min : Type 0 where
  pub time : ℤ
  pub page : Option (ℕ × ℕ)

abbrev pub start_min : Min
start_min = record { time = pos 999999; page = none }

-- The scans differ in the field that they read.
module _ (key : Page → ℤ) (table : Table) where
  pub scan_page : Min → ℕ → ℕ → Min
  scan_page m i j =
      if ltb_ℤ (key (table i j)) m.time && (table i j).valid
      then record { time = key (table i j); page = some (i, j) }
      else m

  -- The inner loop from `j` on, and the outer loop from `i` on, by the rounds left.
  pub scan_inner : ℕ → ℕ → ℕ → Min → Min
  unfolding scan_page
  scan_inner i zero j m = m
  scan_inner i (suc n) j m = scan_inner i n (j + 1) (scan_page m i j)

  pub scan_outer : ℕ → ℕ → ℕ → Min → Min
  unfolding scan_inner
  scan_outer length zero i m = m
  scan_outer length (suc n) i m = scan_outer length n (i + 1) (scan_inner i length 0 m)

pub get_fifo_page : Table → Option (ℕ × ℕ)
get_fifo_page table =
    (scan_outer (λ page. page.page_in_time) table page_table_length page_table_length 0
      start_min).page

pub get_lru_page : Table → Option (ℕ × ℕ)
get_lru_page table =
    (scan_outer (λ page. page.last_used_time) table page_table_length page_table_length 0
      start_min).page

-- Both scans run, and each returns its pointer, before one of them is chosen.
pub get_victim_page : Params → Table → Outcome (ℕ × ℕ)
get_victim_page params table = do
  fifo ← from_option (get_fifo_page table) undefined
  lru ← from_option (get_lru_page table) undefined
  (if params.replacement_algorithm == replacement_fifo
      then ok fifo
      else if params.replacement_algorithm == replacement_lru
      then ok lru
      else exit 1)

-- `struct paging_result`; an address that is not written is `none`.
pub record PagingResult : Type 0 where
  pub virtual_address : ℤ
  pub physical_address : Option ℕ
  pub replaced_frame_index : ℤ
  pub caused_page_fault : Bool
  pub unused_memory_access_exception : Bool

-- The locals of `run_paging_simulation`.
pub record State : Type 0 where
  pub frames : Frames
  pub table : Table
  pub t : ℕ

-- `frame` used as an index.
abbrev pub frame_index : ℤ → Outcome ℕ
frame_index (pos n) = ok n
frame_index (negsuc n) = undefined

-- A frame for a page that is not valid: a free one, or that of the victim, which loses it.
pub allocate_frame : Params → State → Outcome (ℕ × Table)
allocate_frame params s = find_first_free_frame params s.frames >>= λ free. elim free [
  | some index ↦ ok (index, s.table)
  | none ↦ do
    victim ← get_victim_page params s.table
    let page = s.table victim.0 victim.1
    index ← frame_index page.frame
    ok (index, set_page s.table victim.0 victim.1 (record page { valid = false }))
]

-- The page at its new frame.
abbrev pub page_in : Page → ℕ → ℕ → Page
page_in page index t = record page { frame = pos index; valid = true; page_in_time = pos t }

abbrev pub touch : Page → ℕ → Page
touch page t = record page { last_used_time = pos t }

-- The fault branch: the frame that is taken, and the state with the page in it.
pub page_fault : Params → State → ℕ → ℕ → ℕ → Outcome (ℕ × State)
unfolding allocate_frame
page_fault params s t outer inner = do
  allocated ← allocate_frame params s
  let page = page_in (allocated.1 outer inner) allocated.0 t
  ok (
    allocated.0,
    record {
      frames = take_frame s.frames allocated.0;
      table = set_page allocated.1 outer inner page;
      t = t;
    },
  )

-- The end of an iteration: the time of use, and the physical address.
pub finish : State → ℤ → LogicalAddress → ℤ → Bool → Outcome (PagingResult × State)
finish s address logical replaced fault =
    let page = s.table logical.outer_index logical.inner_index in
    do
      index ← frame_index page.frame
      ok (
        record {
          virtual_address = address;
          physical_address = some (get_physical_address index logical.page_offset);
          replaced_frame_index = replaced;
          caused_page_fault = fault;
          unused_memory_access_exception = false;
        },
        record s {
          table = set_page s.table logical.outer_index logical.inner_index (touch page s.t);
        },
      )

-- One iteration, for the address that the iterator yields.
pub reference : Params → State → ℤ → Outcome (PagingResult × State)
unfolding page_fault finish
reference params s address =
    let t = s.t + 1 in
    let logical = get_logical_address address in
    let here = record s { t = t } in
    let miss = page_fault params s t logical.outer_index logical.inner_index >>= λ (index, s').
    finish s' address logical (pos index) true in
    let hit = finish here address logical (negsuc 0) false in
    if is_virtual_address_in_range params.virtual_regions address
    then if (s.table logical.outer_index logical.inner_index).valid then hit else miss
    else ok (
      record {
        virtual_address = address;
        physical_address = none;
        replaced_frame_index = negsuc 0;
        caused_page_fault = false;
        unused_memory_access_exception = true;
      },
      here,
    )

pub run_paging : Params → State → List ℤ → Outcome (List PagingResult × State)
run_paging params s [] = ok ([], s)
run_paging params s (address ∷ addresses) = reference params s address >>= λ (result, s').
    run_paging params s' addresses >>= λ (results, end). ok (result ∷ results, end)

-- The tables as they are set up.
pub init_state : State
init_state = record {
  frames = λ i. false;
  table = λ i j. record {
    frame = negsuc 0;
    valid = false;
    page_in_time = negsuc 0;
    last_used_time = negsuc 0;
  };
  t = 0;
}

pub run_paging_simulation : Params → List ℤ → Outcome (List PagingResult)
unfolding init_state run_paging
run_paging_simulation params addresses =
    run_paging params init_state addresses >>= λ (results, end). ok results
