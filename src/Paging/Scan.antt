-- ===== src/Paging/Scan.antt =====
-- The scans of proj03/src/paging.c for a victim.
use cs.Prelude.{ℕ, ◌<◌, ◌≡◌, refl, ap, subst, true, Option, none, some, arith}
use cs.Prelude.Int.{ℤ, pos, ltb_ℤ, ◌≤ℤ◌, pos_part, neg_part}
use cs.Paging.{Page, Table, Min, get_fifo_page, get_lru_page, page_table_length}
use cs.Paging.Candidates.{Found, IsCandidate, Scanned, ltb_ℤ→lt, scan-Scanned}

module _ (key : Page → ℤ) (table : Table) where
  -- The page that a scan has to find.
  pub record IsVictim (length : ℕ) (victim : ℕ × ℕ) : Type 0 where
    pub candidate : IsCandidate key table length victim.0 victim.1 (key (table victim.0 victim.1))
    pub least :
        (i j : ℕ)
        → i < length
        → j < length
        → (table i j).valid ≡ true
        → key (table victim.0 victim.1) ≤ℤ key (table i j)

  IsVictim-of :
      (length : ℕ) (m : Min) (page : Option (ℕ × ℕ))
      → Scanned key table length m
      → m.page ≡ page
      → (i j : ℕ) → i < length
      → j < length
      → (table i j).valid ≡ true
      → ltb_ℤ (key (table i j)) (pos 999999) ≡ true
      → (victim : ℕ × ℕ) × (page ≡ some victim) × IsVictim length victim
  IsVictim-of length m none s e i j hi hj ok early =
      let none_found : m.time ≡ pos 999999 = subst (Found key table length m.time) e s.found in
      absurd (
        omega (
          arith,
          ltb_ℤ→lt (key (table i j)) (pos 999999) early,
          subst (λ t. t ≤ℤ key (table i j)) none_found (s.least i j hi hj ok),
        ))
  IsVictim-of length m (some (a, b)) s e i j hi hj ok early =
      let c : IsCandidate key table length a b m.time =
        subst (Found key table length m.time) e s.found in
      (
        (a, b),
        refl,
        record {
          candidate = record {
            row = c.row;
            column = c.column;
            valid = c.valid;
            time_of = refl;
            early = rw c.time_of c.early;
          };
          least = λ i' j' hi' hj' ok'. rw c.time_of (s.least i' j' hi' hj' ok');
        },
      )

  none_of :
      (length : ℕ) (m : Min) (page : Option (ℕ × ℕ))
      → Scanned key table length m
      → m.page ≡ page
      → ((i j : ℕ)
          → i < length
          → j < length
          → (table i j).valid ≡ true
          → pos 999999 ≤ℤ key (table i j))
      → page ≡ none
  none_of length m none s e late = refl
  none_of length m (some (a, b)) s e late =
      let c : IsCandidate key table length a b m.time =
        subst (Found key table length m.time) e s.found in
      absurd (
        omega (
          arith,
          late a b c.row c.column c.valid,
          c.early,
          ap pos_part c.time_of,
          ap neg_part c.time_of,
        ))

-- While some valid page came in before time 999999, `get_fifo_page` returns a valid page that came in
-- first.
pub get_fifo_page-IsVictim :
    (table : Table) (i j : ℕ)
    → i < page_table_length
    → j < page_table_length
    → (table i j).valid ≡ true
    → ltb_ℤ (table i j).page_in_time (pos 999999) ≡ true
    → (victim : ℕ × ℕ) × (get_fifo_page table ≡ some victim)
      × IsVictim (λ page. page.page_in_time) table page_table_length victim
unfolding get_fifo_page
get_fifo_page-IsVictim table =
    IsVictim-of (λ page. page.page_in_time) table page_table_length _ _
      (scan-Scanned (λ page. page.page_in_time) table page_table_length) refl

-- While some valid page was used before time 999999, `get_lru_page` returns a valid page that was
-- used least recently.
pub get_lru_page-IsVictim :
    (table : Table) (i j : ℕ)
    → i < page_table_length
    → j < page_table_length
    → (table i j).valid ≡ true
    → ltb_ℤ (table i j).last_used_time (pos 999999) ≡ true
    → (victim : ℕ × ℕ) × (get_lru_page table ≡ some victim)
      × IsVictim (λ page. page.last_used_time) table page_table_length victim
unfolding get_lru_page
get_lru_page-IsVictim table =
    IsVictim-of (λ page. page.last_used_time) table page_table_length _ _
      (scan-Scanned (λ page. page.last_used_time) table page_table_length) refl

-- Where every valid page came in at time 999999 or later, the pointer that `get_fifo_page` returns is
-- never set.
pub get_fifo_page_late :
    (table : Table)
    → ((i j : ℕ)
        → i < page_table_length
        → j < page_table_length
        → (table i j).valid ≡ true
        → pos 999999 ≤ℤ (table i j).page_in_time)
    → get_fifo_page table ≡ none
unfolding get_fifo_page
get_fifo_page_late table late =
    none_of (λ page. page.page_in_time) table page_table_length _ _
      (scan-Scanned (λ page. page.page_in_time) table page_table_length) refl late
