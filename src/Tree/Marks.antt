-- ===== src/Tree/Marks.antt =====
-- Ascending lists below a bound, and the numbers that the table of hw01/src/tree.c does not mark.
use cs.Prelude.{
  ℕ, zero, suc, ◌+◌, ◌≤◌, ◌<◌, ◌≡◌, refl, ap, List, [], ◌∷◌, arith, inl, inr, ltb, ◌==◌, length,
  if◌then◌else◌, Bool-cases,
}
use cs.Tree.{update}
use cs.Tree.Inorder.{AllElem, ordered_insert}

-- Strictly ascending from `lo` on.
abbrev pub Ascending : ℕ → List ℕ → Type 0
Ascending lo [] = Unit {0}
Ascending lo (x ∷ xs) = (lo ≤ x) × Ascending (suc x) xs

-- `lo`, `lo + 1`, … : as many numbers as the list has elements.
pub count_up : ℕ → ℕ → List ℕ
count_up lo zero = []
count_up lo (suc n) = lo ∷ count_up (suc lo) n

-- A value that no element equals.
abbrev pub Fresh : ℕ → List ℕ → Type 0
Fresh v xs = AllElem (λ x. ¬ (x ≡ v)) xs

pub Ascending-insert :
    (lo v : ℕ) (xs : List ℕ)
    → lo ≤ v
    → Fresh v xs
    → Ascending lo xs
    → Ascending lo (ordered_insert v xs)
unfolding ordered_insert
Ascending-insert lo v [] h f a = (h, tt)
Ascending-insert lo v (x ∷ xs) h f a = elim (Bool-cases (ltb x v)) [
  | inl lt ↦ rw lt (a.0, Ascending-insert (suc x) v xs (ground arith) f.1 a.1)
  | inr ge ↦ rw ge (h, (ground arith, a.1))
]

pub AllElem-insert :
    (P : ℕ → Type 0) (v : ℕ) (xs : List ℕ) → P v → AllElem P xs → AllElem P (ordered_insert v xs)
unfolding ordered_insert
AllElem-insert P v [] p h = (p, tt)
AllElem-insert P v (x ∷ xs) p h = ground (arith, AllElem-insert P v xs p h.1)

pub length-insert : (v : ℕ) (xs : List ℕ) → length (ordered_insert v xs) ≡ suc (length xs)
unfolding ordered_insert
length-insert v [] = refl
length-insert v (x ∷ xs) = ground (arith, length-insert v xs)

-- Strictly ascending numbers below a bound leave room for themselves.
Ascending-room :
    (lo hi : ℕ) (xs : List ℕ)
    → lo ≤ hi
    → Ascending lo xs
    → AllElem (λ x. x < hi) xs
    → lo + length xs ≤ hi
Ascending-room lo hi [] h a b = omega arith
Ascending-room lo hi (x ∷ xs) h a b = omega (arith, Ascending-room (suc x) hi xs b.0 a.1 b.1)

-- As many as fit are all of them.
pub Ascending-full :
    (lo hi n : ℕ) (xs : List ℕ)
    → Ascending lo xs
    → AllElem (λ x. x < hi) xs
    → length xs ≡ n
    → lo + n ≡ hi
    → xs ≡ count_up lo n
unfolding count_up
Ascending-full lo hi zero [] a b e f = refl
Ascending-full lo hi (suc n) [] a b e f = absurd (omega arith)
Ascending-full lo hi zero (x ∷ xs) a b e f = absurd (omega arith)
Ascending-full lo hi (suc n) (x ∷ xs) a b e f =
    let same : x ≡ lo = omega (arith, Ascending-room (suc x) hi xs b.0 a.1 b.1) in
    let rest = Ascending-full (suc x) hi n xs a.1 b.1 (omega arith) (omega arith) in rw (rest, same)

-- How many numbers below `m` the table does not mark.
pub unused : (ℕ → ℕ) → ℕ → ℕ
unused table zero = 0
unused table (suc m) = if table m == 0 then suc (unused table m) else unused table m

pub unused-fresh : (m : ℕ) → unused (λ _. 0) m ≡ m
unfolding unused
unused-fresh zero = refl
unused-fresh (suc m) = ap suc (unused-fresh m)

unused-update_above :
    (table : ℕ → ℕ) (v m : ℕ) → m ≤ v → unused (update table v 1) m ≡ unused table m
unfolding unused
unused-update_above table v zero h = refl
unused-update_above table v (suc m) h = ground (arith, unused-update_above table v m (omega arith))

pub unused-update :
    (table : ℕ → ℕ) (v m : ℕ)
    → v < m
    → table v ≡ 0
    → suc (unused (update table v 1) m) ≡ unused table m
unfolding unused
unused-update table v zero h e = absurd (omega arith)
unused-update table v (suc m) h e = elim (Bool-cases (v == m)) [
  | inl here ↦
      let at : v ≡ m = ground arith in
      ground (arith, unused-update_above table v m (omega arith), ap table at)
  | inr past ↦ ground (arith, unused-update table v m (ground arith) e)
]

-- While some number is unmarked there is one to find.
pub unused_some : (table : ℕ → ℕ) (m : ℕ) → 0 < unused table m → (v : ℕ) × (v < m) × (table v ≡ 0)
unfolding unused
unused_some table zero h = absurd (omega arith)
unused_some table (suc m) h = elim (Bool-cases (table m == 0)) [
  | inl free ↦ (m, omega arith, ground arith)
  | inr taken ↦ let (v, lt, e) = unused_some table m (ground arith) in (v, omega arith, e)
]
