-- ===== src/Dispatch/Counting.antt =====
-- The processes of proj02/src counted: sums over the pids, and families with one element changed.
use cs.Prelude.{
  ℕ, zero, suc, ◌+◌, ◌≤◌, ◌<◌, ◌≡◌, ◌≢◌, inl, inr, refl, sym, subst, true, false, ◌==◌, ltb,
  if_true, if_false, arith, Bool-cases,
}
use cs.Dispatch.{update}

-- f 1 + ... + f n
unfoldable pub sum_to : ℕ → (ℕ → ℕ) → ℕ
sum_to zero f = 0
sum_to (suc n) f = sum_to n f + f (suc n)

pub sum_to-zero : (n : ℕ) → sum_to n (λ i. 0) ≡ 0
unfolding sum_to
sum_to-zero zero = refl
sum_to-zero (suc n) = omega (arith, sum_to-zero n)

pub sum_to-same :
    (n : ℕ) (f g : ℕ → ℕ) → ((i : ℕ) → 1 ≤ i → i ≤ n → g i ≡ f i) → sum_to n g ≡ sum_to n f
unfolding sum_to
sum_to-same zero f g h = refl
sum_to-same (suc n) f g h = omega (
  arith,
  sum_to-same n f g (λ i le le'. h i le (omega arith)),
  h (suc n) (omega arith) (omega arith),
)

pub sum_to-le : (n : ℕ) (f g : ℕ → ℕ) → ((i : ℕ) → f i ≤ g i) → sum_to n f ≤ sum_to n g
unfolding sum_to
sum_to-le zero f g h = omega arith
sum_to-le (suc n) f g h = omega (arith, sum_to-le n f g h, h (suc n))

-- One summand changes.
pub sum_to-change :
    (n : ℕ) (f g : ℕ → ℕ) (i : ℕ)
    → 1 ≤ i
    → i ≤ n
    → ((j : ℕ) → j ≢ i → g j ≡ f j)
    → sum_to n g + f i ≡ sum_to n f + g i
unfolding sum_to
sum_to-change zero f g i ge le h = absurd (omega arith)
sum_to-change (suc n) f g i ge le h = elim (Bool-cases (i == suc n)) [
  | inl here ↦
      let e : i ≡ suc n = ground arith in
      let same = sum_to-same n f g (λ j ge' le'. h j (omega arith)) in
      subst (λ k. sum_to n g + g (suc n) + f k ≡ sum_to n f + f (suc n) + g k) (sym e)
        (omega (arith, same))
  | inr other ↦
      let ne : i ≢ suc n = ground arith in
      omega (arith, sum_to-change n f g i ge (omega arith) h, h (suc n) (λ e. ne (sym e)))
]

pub sum_to-ge : (n : ℕ) (f : ℕ → ℕ) (i : ℕ) → 1 ≤ i → i ≤ n → f i ≤ sum_to n f
unfolding sum_to
sum_to-ge zero f i ge le = absurd (omega arith)
sum_to-ge (suc n) f i ge le = elim (Bool-cases (i == suc n)) [
  | inl here ↦
      let e : i ≡ suc n = ground arith in
      subst (λ k. f k ≤ sum_to n f + f (suc n)) (sym e) (omega arith)
  | inr other ↦ let ne : i ≢ suc n = ground arith in omega (arith, sum_to-ge n f i ge (omega arith))
]

pub sum_to-two : (n : ℕ) (f : ℕ → ℕ) (i j : ℕ) → 1 ≤ i → i < j → j ≤ n → f i + f j ≤ sum_to n f
unfolding sum_to
sum_to-two zero f i j ge lt le = absurd (omega arith)
sum_to-two (suc n) f i j ge lt le = elim (Bool-cases (j == suc n)) [
  | inl here ↦
      let e : j ≡ suc n = ground arith in
      subst (λ k. f i + f k ≤ sum_to n f + f (suc n)) (sym e)
        (omega (arith, sum_to-ge n f i ge (omega arith)))
  | inr other ↦
      let ne : j ≢ suc n = ground arith in omega (arith, sum_to-two n f i j ge lt (omega arith))
]

-- A sum that is not 0 has a summand that is not.
pub sum_to-pos : (n : ℕ) (f : ℕ → ℕ) → 1 ≤ sum_to n f → (i : ℕ) × (1 ≤ i) × (i ≤ n) × (1 ≤ f i)
unfolding sum_to
sum_to-pos zero f h = absurd (omega arith)
sum_to-pos (suc n) f h = elim (Bool-cases (ltb 0 (f (suc n)))) [
  | inl here ↦ (suc n, omega arith, omega arith, ground arith)
  | inr other ↦ let (i, ge, le, some) = sum_to-pos n f (ground arith) in (i, ge, omega arith, some)
]

module _ {ℓ} {A : Type ℓ} (f : ℕ → A) (i : ℕ) (a : A) where
  pub update_self : update f i a i ≡ a
  unfolding update
  update_self = let e : (i == i) ≡ true = ground arith in if_true _ _ _ _ e refl

  pub update_other : (j : ℕ) → j ≢ i → update f i a j ≡ f j
  unfolding update
  update_other j ne = let e : (j == i) ≡ false = ground arith in if_false _ _ _ _ e refl
