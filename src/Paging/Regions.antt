-- ===== src/Paging/Regions.antt =====
-- The regions of proj03/src/paging.c.
use cs.Prelude.{
  ◌↔◌, ℕ, ◌≡◌, refl, true, false, not, ◌&&◌, List, [], ◌∷◌, inl, inr, arith, Bool-cases,
}
use cs.Prelude.Int.{ℤ, pos, negsuc, ltb_ℤ, ◌≤ℤ◌}
use cs.Paging.{Region, is_virtual_address_in_range}

-- The address lies in the region, as signed numbers.
abbrev pub InRegion : ℤ → Region → Type 0
InRegion address region = (region.base ≤ℤ address) × (ltb_ℤ address region.past_end ≡ true)

-- It lies in some region of the list.
pub data InSome (address : ℤ) : List Region → Type 0 where
  here :
      {region : Region} {regions : List Region}
      → InRegion address region
      → InSome address (region ∷ regions)
  there :
      {region : Region} {regions : List Region}
      → InSome address regions
      → InSome address (region ∷ regions)

is_virtual_address_in_range-InSome :
    (regions : List Region) (address : ℤ)
    → is_virtual_address_in_range regions address ≡ true
    → InSome address regions
unfolding is_virtual_address_in_range
is_virtual_address_in_range-InSome [] address h = absurd cc
is_virtual_address_in_range-InSome (region ∷ regions) address h =
    elim (Bool-cases (not (ltb_ℤ address region.base) && ltb_ℤ address region.past_end)) [
      | inl yes_here ↦ InSome.here (ground arith, ground arith)
      | inr no_here ↦
          InSome.there (is_virtual_address_in_range-InSome regions address (rw no_here at h))
    ]

pub InSome-is_virtual_address_in_range :
    (regions : List Region) (address : ℤ)
    → InSome address regions
    → is_virtual_address_in_range regions address ≡ true
unfolding is_virtual_address_in_range
InSome-is_virtual_address_in_range [] address h = elim h [ ]
InSome-is_virtual_address_in_range (region ∷ regions) address (InSome.here (above, below)) =
    let test : (not (ltb_ℤ address region.base) && ltb_ℤ address region.past_end) ≡ true =
      ground arith in
    rw test refl
InSome-is_virtual_address_in_range (region ∷ regions) address (InSome.there h) =
    ground (arith, InSome-is_virtual_address_in_range regions address h)

-- An address is found in range exactly if it lies in some region, both compared as signed numbers.
pub is_virtual_address_in_range_iff :
    (regions : List Region) (address : ℤ)
    → (is_virtual_address_in_range regions address ≡ true) ↔ InSome address regions
is_virtual_address_in_range_iff regions address = (
  is_virtual_address_in_range-InSome regions address,
  InSome-is_virtual_address_in_range regions address,
)

-- A region that crosses from the positive to the negative `int` addresses contains none.
pub crossing_region :
    (base past_end : ℕ) (address : ℤ)
    → is_virtual_address_in_range
        (record { base = pos base; past_end = negsuc past_end } ∷ [])
        address
      ≡ false
unfolding is_virtual_address_in_range
crossing_region base past_end address = ground arith
