-- ===== src/Workload/Iterator/Draws.antt =====
-- The random numbers of proj02/src/utility.c, and those that a distribution yields.
use cs.Prelude.{
  ℕ, zero, suc, ◌+◌, ◌-◌, ◌≤◌, ◌<◌, ◌≡◌, refl, true, false, Bool, List, [], ◌∷◌, ◌++◌, ok, arith,
  if_true, if_false, Bool-cases, inl, inr, ◌||◌,
}
use cs.Prelude.Int.{ℤ, pos, pos_part, neg_part, ◌≤ℤ◌, ◌+ℤ◌, ◌-ℤ◌, +ℤ_parts}
use cs.Paging.Input.{equal_ℤ, rand_max, get_random_in_range}
use cs.Paging.Input.Addresses.{random_offset_lem}
use cs.Workload.{DistributionMethod, fixed_dist, uniform_dist, exponential_dist}
use cs.Workload.Iterator.{
  Reals, exponential_value, get_exponential_random, draw_in_range, get_distributed,
}

-- How many numbers an interval has.
abbrev pub interval : ℤ → ℤ → ℕ
interval a b = pos_part b + neg_part a - (neg_part b + pos_part a) + 1

-- An interval that `get_random_in_range` can count.
abbrev pub IsInterval : ℤ → ℤ → Type 0
IsInterval a b = (a ≤ℤ b) × (interval a b ≤ rand_max)

-- There are so many numbers yet, all of which `rand` can return.
abbrev pub Enough : ℕ → List ℕ → Type 0
Enough zero draws = Unit
Enough (suc n) [] = ⊥
Enough (suc n) (draw ∷ draws) = (draw ≤ rand_max) × Enough n draws

Enough-fewer : (n : ℕ) (draws : List ℕ) → Enough (suc n) draws → Enough n draws
Enough-fewer zero draws h = tt
Enough-fewer (suc n) [] h = absurd h
Enough-fewer (suc n) (draw ∷ draws) (small, h) = (small, Enough-fewer n draws h)

width_of_interval : (a b : ℤ) → a ≤ℤ b → b -ℤ a +ℤ pos 1 ≡ pos (interval a b)
unfolding ◌-ℤ◌ ◌+ℤ◌
width_of_interval a b le = ground arith

equal_lem : (a b : ℤ) → equal_ℤ a b ≡ true → b ≤ℤ a
equal_lem a b h = ground arith

interval_pos : (a b : ℤ) → 0 < interval a b
interval_pos a b = omega arith

within :
    (a b : ℤ) (offset : ℕ)
    → a ≤ℤ b
    → offset < interval a b
    → (a ≤ℤ (a +ℤ pos offset)) × ((a +ℤ pos offset) ≤ℤ b)
within a b offset le lt =
    (omega (arith, +ℤ_parts a (pos offset)), omega (arith, +ℤ_parts a (pos offset)))

drawn_within :
    (a b : ℤ) (draw : ℕ)
    → IsInterval a b
    → draw ≤ rand_max
    → equal_ℤ a b ≡ false
    → (n : ℤ) × (get_random_in_range draw a b ≡ ok n) × (a ≤ℤ n) × (n ≤ℤ b)
unfolding get_random_in_range
drawn_within a b draw (le, fits) small apart =
    let (offset, run, lt) = random_offset_lem draw (interval a b) small (interval_pos a b) fits in
    let (low, high) = within a b offset le lt in
    (a +ℤ pos offset, rw (apart, width_of_interval a b le, run) refl, low, high)

-- A draw from an interval lies in it, and takes one number at most.
pub draw_in_range_lem :
    (a b : ℤ) (n : ℕ) (draws : List ℕ)
    → IsInterval a b
    → Enough (suc n) draws
    → (v : ℤ) × (rest : List ℕ) × (draw_in_range a b draws ≡ ok (v, rest))
      × (a ≤ℤ v)
      × (v ≤ℤ b)
      × Enough n rest
unfolding draw_in_range
draw_in_range_lem a b n [] fits h = absurd h
draw_in_range_lem a b n (draw ∷ draws) fits (small, enough) = elim (Bool-cases (equal_ℤ a b)) [
  | inl same ↦ (
    a,
    draw ∷ draws,
    if_true _ _ _ _ same refl,
    omega arith,
    fits.0,
    Enough-fewer n (draw ∷ draws) (small, enough),
  )
  | inr apart ↦
      let (v, run, low, high) = drawn_within a b draw fits small apart in
      (v, draws, if_false _ _ _ _ apart (rw run refl), low, high, enough)
]

-- A method whose numbers are at least `low`, and that needs one number of `rand` at most.
abbrev pub IsDirect : DistributionMethod → ℤ → ℤ → ℤ → ℤ → Type 0
IsDirect fixed_dist average least most low = low ≤ℤ average
IsDirect uniform_dist average least most low = (low ≤ℤ least) × IsInterval least most
IsDirect exponential_dist average least most low = ⊥

module _ (r : Reals) where
  pub get_distributed_lem :
      (method : DistributionMethod) (average least most low : ℤ) (n : ℕ) (draws : List ℕ)
      → IsDirect method average least most low
      → Enough (suc n) draws
      → (v : ℤ) × (rest : List ℕ) × (get_distributed r method average least most draws
          ≡ ok (v, rest))
        × (low ≤ℤ v)
        × Enough n rest
  unfolding get_distributed
  get_distributed_lem fixed_dist average least most low n draws direct enough =
      (average, draws, refl, direct, Enough-fewer n draws enough)
  get_distributed_lem uniform_dist average least most low n draws (above, fits) enough =
      let (v, rest, run, ge, _, left) = draw_in_range_lem least most n draws fits enough in
      (v, rest, run, omega arith, left)
  get_distributed_lem exponential_dist average least most low n draws direct enough = absurd direct

-- `round` stays between two whole numbers that its argument is between.
pub record IsRounding (r : Reals) : Type 0 where
  pub between :
      (a b : ℤ) (x : r.Real)
      → r.gtb (r.of_int a) x ≡ false
      → r.gtb x (r.of_int b) ≡ false
      → (a ≤ℤ r.round x) × (r.round x ≤ℤ b)

neither : (a b : Bool) → (a || b) ≡ false → (a ≡ false) × (b ≡ false)
neither false b h = (refl, h)
neither true b h = absurd cc

module _ (r : Reals) (average least most : ℤ) where
  abbrev pub IsWithin : ℕ → Type 0
  IsWithin drawn =
      let x = exponential_value r average drawn in
      (r.gtb (r.of_int least) x || r.gtb x (r.of_int most)) ≡ false

  abbrev pub IsOutside : ℕ → Type 0
  IsOutside drawn =
      let x = exponential_value r average drawn in
      (r.gtb (r.of_int least) x || r.gtb x (r.of_int most)) ≡ true

  abbrev pub AllOutside : List ℕ → Type 0
  AllOutside [] = Unit
  AllOutside (drawn ∷ draws) = IsOutside drawn × AllOutside draws

  -- Where `round` keeps a value that lies between two whole numbers between them, the first numbers that are
  -- drawn have values outside of the limits, and the next number has one within them: the loop ends at that
  -- number, returns its value, rounded, which is within the limits too, and leaves the numbers behind it.
  pub get_exponential_random_lem :
      (before : List ℕ) (drawn : ℕ) (rest : List ℕ)
      → IsRounding r
      → AllOutside before
      → IsWithin drawn
      → (get_exponential_random r average least most (before ++ (drawn ∷ rest))
          ≡ ok (r.round (exponential_value r average drawn), rest))
        × (least ≤ℤ r.round (exponential_value r average drawn))
        × (r.round (exponential_value r average drawn) ≤ℤ most)
  unfolding get_exponential_random
  get_exponential_random_lem [] drawn rest rounds out in_range =
      let x = exponential_value r average drawn in
      let (above, below) = neither _ _ in_range in
      let (low, high) = rounds.between least most x above below in
      (if_false _ _ _ _ in_range refl, low, high)
  get_exponential_random_lem (first ∷ before) drawn rest rounds (out, later) in_range =
      let (run, low, high) = get_exponential_random_lem before drawn rest rounds later in_range in
      (if_true _ _ _ _ out run, low, high)
