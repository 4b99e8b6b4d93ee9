-- ===== src/Scheduling/Weights.antt =====
-- The weights of proj02/src/cfs.c.
use cs.Prelude.{
  ◌∙◌, sym, subst, ℕ, zero, suc, ◌+◌, ◌-◌, ◌≤◌, ◌<◌, ◌≡◌, refl, Bool, true, List, [], ◌∷◌, ◌&&◌,
  some, ltb, leb, arith, get_elem?, length, ok,
}
use cs.Prelude.Int.{pos_part, neg_part, ℤ, pos, negsuc, ltb_ℤ}
use cs.Scheduling.{prio_to_weight, weight_index, get_weight}

-- The nice values, -20 to 19.
abbrev pub IsPriority : ℤ → Type 0
IsPriority (pos n) = n < 20
IsPriority (negsuc n) = n < 20

-- Each number of the list is less than the one before it, and at least 15.
descending : List ℕ → Bool
descending [] = true
descending (x ∷ []) = leb 15 x
descending (x ∷ y ∷ xs) = ltb y x && descending (y ∷ xs)

prio_to_weight-descending : descending prio_to_weight ≡ true
unfolding descending
prio_to_weight-descending = refl

descending_elem :
    (xs : List ℕ) (i : ℕ)
    → descending xs ≡ true
    → i < length xs
    → (w : ℕ) × (get_elem? xs i ≡ some w) × (15 ≤ w)
unfolding descending
descending_elem [] i d lt = absurd (omega arith)
descending_elem (x ∷ []) zero d lt = (x, refl, ground arith)
descending_elem (x ∷ []) (suc i) d lt = absurd (omega arith)
descending_elem (x ∷ y ∷ xs) zero d lt =
    let (w, e, le) = descending_elem (y ∷ xs) zero (ground arith) (omega arith) in
    (x, refl, ground arith)
descending_elem (x ∷ y ∷ xs) (suc i) d lt = descending_elem (y ∷ xs) i (ground arith) (omega arith)

descending_lt :
    (xs : List ℕ) (i k v w : ℕ)
    → descending xs ≡ true
    → get_elem? xs i ≡ some v
    → get_elem? xs (suc i + k) ≡ some w
    → w < v
unfolding descending
descending_lt [] i k v w d e f = absurd cc
descending_lt (x ∷ []) zero k v w d e f = absurd (none_at k w f)
  where
    none_at : (k w : ℕ) → get_elem? (x ∷ []) (1 + k) ≡ some w → ⊥
    none_at k w f =
        let e : 1 + k ≡ suc k = omega arith in
        let g = subst (λ i. get_elem? (x ∷ []) i ≡ some w) e f in cc
descending_lt (x ∷ []) (suc i) k v w d e f = absurd cc
descending_lt (x ∷ y ∷ xs) zero zero v w d e f = ground arith
descending_lt (x ∷ y ∷ xs) zero (suc k) v w d e f =
    let here : 1 + suc k ≡ suc (suc 0 + k) = omega arith in
    let g : get_elem? (y ∷ xs) (suc 0 + k) ≡ some w =
      subst (λ i. get_elem? (x ∷ y ∷ xs) i ≡ some w) here f in
    let less : w < y = descending_lt (y ∷ xs) 0 k y w (ground arith) refl g in ground (arith, less)
descending_lt (x ∷ y ∷ xs) (suc i) k v w d e f =
    let here : suc (suc i) + k ≡ suc (suc i + k) = omega arith in
    descending_lt (y ∷ xs) i k v w (ground arith) e
      (subst (λ j. get_elem? (x ∷ y ∷ xs) j ≡ some w) here f)

weight_index-lt :
    (priority : ℤ)
    → IsPriority priority
    → (index : ℕ) × (weight_index priority ≡ ok index)
      × (index < 40)
      × (index + neg_part priority ≡ 20 + pos_part priority)
weight_index-lt (pos n) h = (n + 20, refl, omega arith, omega arith)
weight_index-lt (negsuc n) h =
    let inside : ltb n 20 ≡ true = ground arith in
    (19 - n, rw inside refl, omega arith, omega arith)

weight_at :
    (priority : ℤ)
    → IsPriority priority
    → (index : ℕ) × (w : ℕ) × (get_weight priority ≡ ok w)
      × (get_elem? prio_to_weight index ≡ some w)
      × (15 ≤ w)
      × (index + neg_part priority ≡ 20 + pos_part priority)
unfolding get_weight
weight_at priority h =
    let (index, at, lt, where_at) = weight_index-lt priority h in
    let (w, e, le) = descending_elem prio_to_weight index prio_to_weight-descending (omega arith) in
    (index, w, rw (at, e) refl, e, le, where_at)

-- Every nice value from -20 to 19 has a weight of at least 15.
pub get_weight_ok :
    (priority : ℤ) → IsPriority priority → (w : ℕ) × (get_weight priority ≡ ok w) × (15 ≤ w)
get_weight_ok priority h = let (index, w, run, _, le, _) = weight_at priority h in (w, run, le)

-- Of two nice values in the table the greater one has the less weight.
pub get_weight_decreasing :
    (p q : ℤ) (v w : ℕ)
    → IsPriority p
    → IsPriority q
    → ltb_ℤ p q ≡ true
    → get_weight p ≡ ok v
    → get_weight q ≡ ok w
    → w < v
get_weight_decreasing p q v w hp hq lt ep eq =
    let (i, v', run, at, _, pi) = weight_at p hp in
    let (j, w', run', at', _, pj) = weight_at q hq in
    let gap : suc i + (j - suc i) ≡ j = ground arith in
    let less : w' < v' =
      descending_lt prio_to_weight i (j - suc i) v' w' prio_to_weight-descending at
        (subst (λ n. get_elem? prio_to_weight n ≡ some w') (sym gap) at') in
    subst (λ x. w < x) (ok_injective v' v (sym run ∙ ep))
      (subst (λ x. x < v') (ok_injective w' w (sym run' ∙ eq)) less)
  where
    ok_injective : (a b : ℕ) → ok a ≡ ok b → a ≡ b
    ok_injective a b e = cc
