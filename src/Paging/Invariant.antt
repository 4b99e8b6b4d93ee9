-- ===== src/Paging/Invariant.antt =====
-- The invariant of the tables of proj03/src/paging.c, and the frame that a fault takes.
use cs.Prelude.{
  ℕ, ◌≤◌, ◌<◌, ◌≡◌, ◌∙◌, refl, sym, ap, subst, fun_ext, true, false, ◌&&◌, ◌==◌, inl, inr, ◌⊎◌,
  arith, Bool-cases, if◌then◌else◌, ok,
}
use cs.Prelude.Int.{ℤ, pos, ltb_ℤ}
use cs.Paging.Search.{find_first_free_frame-Search}
use cs.Paging.Scan.{IsVictim, get_fifo_page-IsVictim, get_lru_page-IsVictim}
use cs.Paging.{
  Params, Page, Table, State, set_page, page_table_length, max_frame_count, replacement_lru,
  replacement_fifo, get_victim_page, allocate_frame,
}

-- `page` holds the frame `f`.
abbrev pub Holds : Table → ℕ → ℕ → ℕ → Type 0
Holds table i j f = ((table i j).valid ≡ true) × ((table i j).frame ≡ pos f)

-- When a valid page came in and was last used.
pub record IsTimed (page : Page) (t : ℕ) : Type 0 where
  pub came : ℕ
  pub used : ℕ
  pub page_in : page.page_in_time ≡ pos came
  pub last_used : page.last_used_time ≡ pos used
  pub order : came ≤ used
  pub past : used ≤ t

-- Valid pages lie in the table and hold frames of their own; a frame is taken exactly if a valid page
-- holds it.
pub record IsValid (params : Params) (s : State) : Type 0 where
  pub row : (i j : ℕ) → (s.table i j).valid ≡ true → i < page_table_length
  pub column : (i j : ℕ) → (s.table i j).valid ≡ true → j < page_table_length
  pub framed :
      (i j : ℕ)
      → (s.table i j).valid ≡ true
      → (f : ℕ) × ((s.table i j).frame ≡ pos f) × (f < params.num_of_frames) × (s.frames f ≡ true)
  pub distinct :
      (i j i' j' f : ℕ) → Holds s.table i j f → Holds s.table i' j' f → (i ≡ i') × (j ≡ j')
  pub held : (f : ℕ) → s.frames f ≡ true → (i : ℕ) × (j : ℕ) × Holds s.table i j f
  pub timed : (i j : ℕ) → (s.table i j).valid ≡ true → IsTimed (s.table i j) s.t

-- Parameters under which the simulation is defined: some frames, no more than the array has, and a
-- known algorithm.
pub record IsSound (params : Params) : Type 0 where
  pub some_frames : 0 < params.num_of_frames
  pub enough_room : params.num_of_frames ≤ max_frame_count
  pub known :
      (params.replacement_algorithm ≡ replacement_fifo)
      ⊎ (params.replacement_algorithm ≡ replacement_lru)

-- The time that the algorithm of the parameters goes by.
abbrev pub victim_key : Params → Page → ℤ
victim_key params page =
    if params.replacement_algorithm == replacement_fifo
    then page.page_in_time
    else page.last_used_time

early_timed :
    (page : Page) (t : ℕ)
    → IsTimed page t
    → t < 999999
    → (ltb_ℤ page.page_in_time (pos 999999) ≡ true)
      × (ltb_ℤ page.last_used_time (pos 999999) ≡ true)
early_timed page t v lt = (rw v.page_in (ground arith), rw v.last_used (ground arith))

-- Under sound parameters, in valid tables with some valid page and before time 999999, the victim
-- is a valid page whose time, of coming in for FIFO and of last use for LRU, is least among the
-- valid pages.
pub get_victim_page-IsVictim :
    (params : Params) (s : State) (i j : ℕ)
    → IsSound params
    → IsValid params s
    → (s.table i j).valid ≡ true
    → s.t < 999999
    → (victim : ℕ × ℕ) × (get_victim_page params s.table ≡ ok victim)
      × IsVictim (victim_key params) s.table page_table_length victim
unfolding get_victim_page
get_victim_page-IsVictim params s i j sound v ok_page lt =
    let (early_in, early_used) = early_timed (s.table i j) s.t (v.timed i j ok_page) lt in
    let (fifo, run_fifo, is_fifo) =
      get_fifo_page-IsVictim s.table i j (v.row i j ok_page) (v.column i j ok_page) ok_page
        early_in in
    let (lru, run_lru, is_lru) =
      get_lru_page-IsVictim s.table i j (v.row i j ok_page) (v.column i j ok_page) ok_page
        early_used in
    elim sound.known [
      | inl e ↦
          let test : (params.replacement_algorithm == replacement_fifo) ≡ true = ground arith in
          let key : (λ (page : Page). page.page_in_time) ≡ victim_key params =
            fun_ext (λ page. rw test) in
          (
            fifo,
            rw (run_fifo, get_victim_page, run_lru, test),
            subst (λ k. IsVictim k s.table page_table_length fifo) key is_fifo,
          )
      | inr e ↦
          let test : (params.replacement_algorithm == replacement_fifo) ≡ false = ground arith in
          let test' : (params.replacement_algorithm == replacement_lru) ≡ true = ground arith in
          let key : (λ (page : Page). page.last_used_time) ≡ victim_key params =
            fun_ext (λ page. rw test) in
          (
            lru,
            rw (run_fifo, get_victim_page, run_lru, test, test'),
            subst (λ k. IsVictim k s.table page_table_length lru) key is_lru,
          )
    ]

abbrev evict : Table → ℕ × ℕ → Table
evict table victim =
    set_page table victim.0 victim.1 (record (table victim.0 victim.1) { valid = false })

-- Only the victim is no longer valid, and all else is as it was.
evict_valid :
    (table : Table) (victim : ℕ × ℕ) (i j : ℕ)
    → (evict table victim i j).valid ≡ true
    → evict table victim i j ≡ table i j
evict_valid table (a, b) i j h = elim (Bool-cases (a == i && b == j)) [
  | inl here ↦ absurd (ground arith)
  | inr other ↦ rw other
]

evict_other :
    (table : Table) (victim : ℕ × ℕ) (i j : ℕ)
    → ¬ ((i ≡ victim.0) × (j ≡ victim.1))
    → evict table victim i j ≡ table i j
evict_other table (a, b) i j h = elim (Bool-cases (a == i && b == j)) [
  | inl here ↦ absurd (h (ground arith))
  | inr other ↦ rw other
]

evict_self : (table : Table) (victim : ℕ × ℕ) → (evict table victim victim.0 victim.1).valid ≡ false
evict_self table (a, b) = let here : (a == a && b == b) ≡ true = ground arith in rw here

evict_gone :
    (table : Table) (victim : ℕ × ℕ) (i j : ℕ)
    → i ≡ victim.0
    → j ≡ victim.1
    → (evict table victim i j).valid ≡ true
    → ⊥
evict_gone table victim i j e e' h =
    let gone : (evict table victim i j).valid ≡ false = rw (e, e') (evict_self table victim) in cc

is_held :
    (table : Table) (victim : ℕ × ℕ) (i j f : ℕ)
    → i ≡ victim.0
    → j ≡ victim.1
    → Holds table victim.0 victim.1 f
    → Holds table i j f
is_held table victim i j f e e' h = rw (e, e') h

pub pos_inj : (m n : ℕ) → pos m ≡ pos n → m ≡ n
pos_inj m n e = cc

-- What is known of the frame that a fault takes, and of the table without its former page.
pub record Allocated (params : Params) (s : State) (index : ℕ) (table : Table) : Type 0 where
  pub inside : index < params.num_of_frames
  pub free : (i j : ℕ) → ¬ Holds table i j index
  pub unchanged : (i j : ℕ) → (table i j).valid ≡ true → table i j ≡ s.table i j
  pub kept :
      (i j : ℕ) → (s.table i j).valid ≡ true → ¬ Holds s.table i j index → table i j ≡ s.table i j
  -- Either the frame was free and no page is lost, or every frame is taken and the page that is lost
  -- is the victim.
  pub origin :
      ((s.frames index ≡ false) × (table ≡ s.table))
      ⊎ (((f : ℕ) → f < params.num_of_frames → s.frames f ≡ true)
          × ((victim : ℕ × ℕ) × IsVictim (victim_key params) s.table page_table_length victim
              × Holds s.table victim.0 victim.1 index))

-- Under sound parameters, in valid tables and before time 999999, a fault gets a frame that no page
-- holds any more: a free one, with the tables as they are, or if every frame is taken that of the
-- victim, which is no longer valid; every other valid page is as before.
pub allocate_frame-Allocated :
    (params : Params) (s : State)
    → IsSound params
    → IsValid params s
    → s.t < 999999
    → (index : ℕ) × (table : Table) × (allocate_frame params s ≡ ok (index, table))
      × Allocated params s index table
unfolding allocate_frame
allocate_frame-Allocated params s sound v lt =
    elim (find_first_free_frame-Search params s.frames sound.enough_room) [
      | inl (run, all) ↦
          let (i, j, holds) = v.held 0 (all 0 (omega arith) sound.some_frames) in
          let (victim, run', is_victim) =
            get_victim_page-IsVictim params s i j sound v holds.0 lt in
          let valid = is_victim.candidate.valid in
          let (f, at, below, taken) = v.framed victim.0 victim.1 valid in
          (
            f,
            evict s.table victim,
            rw (run, allocate_frame, run', at),
            record {
              inside = below;
              free = λ a b h.
                  let before : Holds s.table a b f =
                    subst (λ page. (page.valid ≡ true) × (page.frame ≡ pos f))
                      (evict_valid s.table victim a b h.0) h in
                  let (e, e') = v.distinct a b victim.0 victim.1 f before (valid, at) in
                  evict_gone s.table victim a b e e' h.0;
              unchanged = λ a b h. evict_valid s.table victim a b h;
              kept = λ a b h n.
                  evict_other s.table victim a b
                    (λ same. n (is_held s.table victim a b f same.0 same.1 (valid, at)));
              origin = inr (λ g lt'. all g (omega arith) lt', (victim, is_victim, (valid, at)));
            },
          )
      | inr (f, run, below, free) ↦ (
        f,
        s.table,
        rw (run, allocate_frame),
        record {
          inside = below;
          free = λ i j h.
              let (g, at, _, taken) = v.framed i j h.0 in
              let same : f ≡ g = pos_inj f g (sym h.1 ∙ at) in cc (ap s.frames same);
          unchanged = λ i j h. refl;
          kept = λ i j h n. refl;
          origin = inl (free, refl);
        },
      )
    ]
