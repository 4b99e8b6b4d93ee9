-- ===== src/Paging/Candidates.antt =====
-- What the scans of proj03/src/paging.c for a victim have found.
use cs.Prelude.{
  ℕ, zero, suc, ◌+◌, ◌<◌, ◌≡◌, refl, subst, true, false, ◌&&◌, Option, none, some, inl, inr, ◌⊎◌,
  arith, Bool-cases, dec_lt,
}
use cs.Prelude.Int.{ℤ, pos, ltb_ℤ, ◌≤ℤ◌, pos_part, neg_part}
use cs.Paging.{Page, Table, Min, start_min, scan_page, scan_inner, scan_outer}

-- Tests on integers.
pub ltb_ℤ→lt : (a b : ℤ) → ltb_ℤ a b ≡ true → pos_part a + neg_part b < pos_part b + neg_part a
ltb_ℤ→lt a b h = ground arith

pub not-ltb_ℤ→le : (a b : ℤ) → ltb_ℤ a b ≡ false → b ≤ℤ a
not-ltb_ℤ→le a b h = ground arith

pub lt→ltb_ℤ : (a b : ℤ) → pos_part a + neg_part b < pos_part b + neg_part a → ltb_ℤ a b ≡ true
lt→ltb_ℤ a b h = ground arith

module _ (key : Page → ℤ) (table : Table) where
  -- The valid page that a scan has found.
  pub record IsCandidate (length i j : ℕ) (time : ℤ) : Type 0 where
    pub row : i < length
    pub column : j < length
    pub valid : (table i j).valid ≡ true
    pub time_of : key (table i j) ≡ time
    pub early : pos_part time < 999999 + neg_part time

  abbrev pub Found : ℕ → ℤ → Option (ℕ × ℕ) → Type 0
  Found length time none = time ≡ pos 999999
  Found length time (some (i, j)) = IsCandidate length i j time

  -- What has been scanned before the entry at `i`, `j`.
  abbrev Before : ℕ → ℕ → ℕ → ℕ → ℕ → Type 0
  Before length i j i' j' = ((i' < i) × (j' < length)) ⊎ ((i' ≡ i) × (j' < j))

  record Inv (length i j : ℕ) (m : Min) : Type 0 where
    found : Found length m.time m.page
    bound : m.time ≤ℤ pos 999999
    least :
        (i' j' : ℕ)
        → Before length i j i' j'
        → (table i' j').valid ≡ true
        → m.time ≤ℤ key (table i' j')

  Before-next :
      (length i j i' j' : ℕ)
      → Before length i (j + 1) i' j'
      → Before length i j i' j' ⊎ ((i' ≡ i) × (j' ≡ j))
  Before-next length i j i' j' (inl above) = inl (inl above)
  Before-next length i j i' j' (inr (e, lt)) = elim (dec_lt j' j) [
    | yes less ↦ inl (inr (e, less))
    | no last ↦ inr (e, omega arith)
  ]

  Before-row : (length i i' j' : ℕ) → Before length (i + 1) 0 i' j' → Before length i length i' j'
  Before-row length i i' j' (inl (lt, column)) = elim (dec_lt i' i) [
    | yes less ↦ inl (less, column)
    | no last ↦ inr (omega arith, column)
  ]
  Before-row length i i' j' (inr (e, lt)) = absurd (omega arith)

  scan_page_better :
      (m : Min) (i j : ℕ)
      → ltb_ℤ (key (table i j)) m.time && (table i j).valid ≡ true
      → scan_page key table m i j ≡ record { time = key (table i j); page = some (i, j) }
  unfolding scan_page
  scan_page_better m i j h = rw h

  scan_page_worse :
      (m : Min) (i j : ℕ)
      → ltb_ℤ (key (table i j)) m.time && (table i j).valid ≡ false
      → scan_page key table m i j ≡ m
  unfolding scan_page
  scan_page_worse m i j h = rw h

  scan_page-Inv :
      (length i j : ℕ) (m : Min)
      → i < length
      → j < length
      → Inv length i j m
      → Inv length i (j + 1) (scan_page key table m i j)
  scan_page-Inv length i j m hi hj v =
      let time = key (table i j) in
      elim (Bool-cases (ltb_ℤ time m.time && (table i j).valid)) [
        | inl better ↦
            let valid : (table i j).valid ≡ true = ground arith in
            let less : ltb_ℤ time m.time ≡ true = ground arith in
            rw (scan_page_better m i j better) (record {
              found = record {
                row = hi;
                column = hj;
                valid = valid;
                time_of = refl;
                early = omega (arith, v.bound, ltb_ℤ→lt time m.time less);
              };
              bound = omega (arith, v.bound, ltb_ℤ→lt time m.time less);
              least = λ i' j' b ok. elim (Before-next length i j i' j' b) [
                | inl old ↦ omega (arith, v.least i' j' old ok, ltb_ℤ→lt time m.time less)
                | inr (e, f) ↦ rw (e, f) (omega arith)
              ];
            })
        | inr worse ↦ rw (scan_page_worse m i j worse) (record {
          found = v.found;
          bound = v.bound;
          least = λ i' j' b ok. elim (Before-next length i j i' j' b) [
            | inl old ↦ v.least i' j' old ok
            | inr (e, f) ↦
                let here : (table i j).valid ≡ true = rw (e, f) at ok in
                rw (e, f) (not-ltb_ℤ→le time m.time (ground arith))
          ];
        })
      ]

  scan_inner-Inv :
      (length i n j : ℕ) (m : Min)
      → i < length
      → j + n ≡ length
      → Inv length i j m
      → Inv length i length (scan_inner key table i n j m)
  unfolding scan_inner
  scan_inner-Inv length i zero j m hi e v =
      let end : j ≡ length = omega arith in subst (λ k. Inv length i k m) end v
  scan_inner-Inv length i (suc n) j m hi e v =
      scan_inner-Inv length i n (j + 1) (scan_page key table m i j) hi (omega arith)
        (scan_page-Inv length i j m hi (omega arith) v)

  scan_outer-Inv :
      (length n i : ℕ) (m : Min)
      → i + n ≡ length
      → Inv length i 0 m
      → Inv length length 0 (scan_outer key table length n i m)
  unfolding scan_outer
  scan_outer-Inv length zero i m e v =
      let end : i ≡ length = omega arith in subst (λ k. Inv length k 0 m) end v
  scan_outer-Inv length (suc n) i m e v =
      let row = scan_inner-Inv length i length 0 m (omega arith) (omega arith) v in
      scan_outer-Inv length n (i + 1) (scan_inner key table i length 0 m) (omega arith) (record {
        found = row.found;
        bound = row.bound;
        least = λ i' j' b. row.least i' j' (Before-row length i i' j' b);
      })

  start-Inv : (length : ℕ) → Inv length 0 0 start_min
  start-Inv length = record {
    found = refl;
    bound = omega arith;
    least = λ i' j' b ok. elim b [
      | inl (lt, _) ↦ absurd (omega arith)
      | inr (_, lt) ↦ absurd (omega arith)
    ];
  }

  -- What a whole scan of a table of `length` rows and columns leaves.
  pub record Scanned (length : ℕ) (m : Min) : Type 0 where
    pub found : Found length m.time m.page
    pub least :
        (i j : ℕ) → i < length → j < length → (table i j).valid ≡ true → m.time ≤ℤ key (table i j)

  pub scan-Scanned : (length : ℕ) → Scanned length (scan_outer key table length length 0 start_min)
  scan-Scanned length =
      let v = scan_outer-Inv length length 0 start_min (omega arith) (start-Inv length) in
      record { found = v.found; least = λ i j hi hj. v.least i j (inl (hi, hj)) }
