-- ===== src/WordCount/Counts.antt =====
-- What the arrays of proj01/src/common.c count.
use cs.Prelude.{
  ℕ, ◌+◌, ◌≤◌, ◌≡◌, refl, List, [], ◌∷◌, ◌++◌, some, inl, inr, arith, if◌then◌else◌, Bool-cases,
  Option-cases,
}
use cs.WordCount.Text.{Word, same, same_iff}
use cs.WordCount.{
  Pair, WordCountArray, increment_word, try_increment_existing_word, insert_word_pair,
  realloc_array_if_full, add_pairs, add_array_to_array, insert_sorted, sort_pairs,
}

-- `n` where the words are the same.
abbrev pub when : Word → Word → ℕ → ℕ
when v w n = if same w v then n else 0

-- The count of a word over all its entries.
unfoldable pub count_of : Word → List Pair → ℕ
count_of v [] = 0
count_of v (p ∷ ps) = when v p.word p.count + count_of v ps

pub count_of-append :
    (v : Word) (ps qs : List Pair) → count_of v (ps ++ qs) ≡ count_of v ps + count_of v qs
unfolding count_of
count_of-append v [] qs = omega arith
count_of-append v (p ∷ ps) qs = omega (arith, count_of-append v ps qs)

try_increment_count :
    (v : Word) (ps : List Pair) (w : Word) (n : ℕ) {qs : List Pair}
    → try_increment_existing_word ps w n ≡ some qs
    → count_of v qs ≡ count_of v ps + when v w n
unfolding try_increment_existing_word count_of
try_increment_count v [] w n h = cc
try_increment_count v (p ∷ ps) w n {qs} h = elim (Bool-cases (same p.word w)) [
  | inl hit ↦ ground (arith, (same_iff p.word w).0 hit)
  | inr miss ↦ elim (Option-cases (try_increment_existing_word ps w n)) [
    | inl e ↦ ground arith
    | inr (rs, e) ↦ ground (arith, try_increment_count v ps w n e)
  ]
]

pub pairs-insert :
    (a : WordCountArray) (w : Word) (n : ℕ)
    → (insert_word_pair a w n).pairs ≡ a.pairs ++ (record { word = w; count = n } ∷ [])
unfolding insert_word_pair realloc_array_if_full
pairs-insert a w n = ground arith

same_comm : (v w : Word) → same v w ≡ same w v
same_comm v w = ground (arith, same_iff v w, same_iff w v)

count_of_one : (v w : Word) (n : ℕ) → count_of v (record { word = w; count = n } ∷ []) ≡ when v w n
unfolding count_of
count_of_one v w n = omega arith

-- Adding to a word raises its count by that much, and leaves the count of every other word.
pub count_of-increment :
    (v : Word) (a : WordCountArray) (w : Word) (n : ℕ)
    → count_of v (increment_word a w n).pairs ≡ count_of v a.pairs + when v w n
unfolding increment_word insert_word_pair realloc_array_if_full
count_of-increment v a w n = elim (Option-cases (try_increment_existing_word a.pairs w n)) [
  | inl e ↦
      rw (e, increment_word, pairs-insert a w n)
        (omega (
          arith,
          count_of-append v a.pairs (record { word = w; count = n } ∷ []),
          count_of_one v w n,
        ))
  | inr (qs, e) ↦ rw (e, increment_word) (try_increment_count v a.pairs w n e)
]

pub count_of-add_pairs :
    (v : Word) (a : WordCountArray) (ps : List Pair)
    → count_of v (add_pairs a ps).pairs ≡ count_of v a.pairs + count_of v ps
unfolding add_pairs count_of
count_of-add_pairs v a [] = omega arith
count_of-add_pairs v a (p ∷ ps) = omega (
  arith,
  count_of-add_pairs v (increment_word a p.word p.count) ps,
  count_of-increment v a p.word p.count,
)

-- Adding one array to another adds up the counts of every word.
pub count_of-add_array_to_array :
    (v : Word) (total other : WordCountArray)
    → count_of v (add_array_to_array total other).pairs
      ≡ count_of v total.pairs + count_of v other.pairs
unfolding add_array_to_array
count_of-add_array_to_array v total other = count_of-add_pairs v total other.pairs

count_of-insert_sorted :
    (v : Word) (p : Pair) (ps : List Pair)
    → count_of v (insert_sorted p ps) ≡ when v p.word p.count + count_of v ps
unfolding insert_sorted count_of
count_of-insert_sorted v p [] = refl
count_of-insert_sorted v p (q ∷ qs) = ground (arith, count_of-insert_sorted v p qs)

-- Sorting changes no count.
pub count_of-sort_pairs : (v : Word) (ps : List Pair) → count_of v (sort_pairs ps) ≡ count_of v ps
unfolding sort_pairs count_of
count_of-sort_pairs v [] = refl
count_of-sort_pairs v (p ∷ ps) =
    omega (arith, count_of-insert_sorted v p (sort_pairs ps), count_of-sort_pairs v ps)

pub count_of_head :
    (p : Pair) (ps : List Pair) → count_of p.word (p ∷ ps) ≡ p.count + count_of p.word ps
unfolding count_of
count_of_head p ps = ground (arith, (same_iff p.word p.word).1 refl)

pub count_of-nil : (v : Word) → count_of v [] ≡ 0
unfolding count_of
count_of-nil v = refl

pub count_of-cons-le : (v : Word) (p : Pair) (ps : List Pair) → count_of v ps ≤ count_of v (p ∷ ps)
unfolding count_of
count_of-cons-le v p ps = omega arith
