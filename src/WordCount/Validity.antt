-- ===== src/WordCount/Validity.antt =====
-- The invariant of `struct word_count_array` in proj01/src/common.c.
use cs.Prelude.{
  ℕ, ◌≤◌, ◌<◌, ◌≡◌, ◌≢◌, ◌∙◌, sym, ap, List, [], ◌∷◌, ◌++◌, none, some, inl, inr, ◌⊎◌, arith, map,
  map-append, subst, length, length-map, length-append, Bool-cases, Option-cases,
}
use cs.WordCount.Text.{Word, same, same_iff}
use cs.WordCount.Counts.{pairs-insert}
use cs.WordCount.{
  Pair, WordCountArray, used_size, increment_word, try_increment_existing_word, insert_word_pair,
  realloc_array_if_full, add_pairs, add_array_to_array, init_word_count_array,
}

abbrev pub words : List Pair → List Word
words = map (λ p. p.word)

abbrev pub All : (Word → Type 0) → List Word → Type 0
All P [] = Unit {0}
All P (w ∷ ws) = P w × All P ws

abbrev pub Distinct : List Word → Type 0
Distinct [] = Unit {0}
Distinct (w ∷ ws) = All (λ x. x ≢ w) ws × Distinct ws

abbrev pub Positive : List Pair → Type 0
Positive [] = Unit {0}
Positive (p ∷ ps) = (0 < p.count) × Positive ps

pub record IsValid (a : WordCountArray) : Type 0 where
  pub distinct : Distinct (words a.pairs)
  pub room : used_size a ≤ a.allocated_size
  pub allocated : 0 < a.allocated_size

-- From a valid array, the entry that `insert_word_pair` writes lies in the allocation.
pub realloc_array_if_full_room :
    (a : WordCountArray) → IsValid a → used_size a < (realloc_array_if_full a).allocated_size
unfolding realloc_array_if_full
realloc_array_if_full_room a v = ground arith

pub init-IsValid : IsValid init_word_count_array
unfolding init_word_count_array
init-IsValid = record { distinct = tt; room = omega arith; allocated = omega arith }

pub All-append : (P : Word → Type 0) (ws vs : List Word) → All P ws → All P vs → All P (ws ++ vs)
All-append P [] vs h k = k
All-append P (w ∷ ws) vs h k = (h.0, All-append P ws vs h.1 k)

Distinct-append_one :
    (ws : List Word) (w : Word) → Distinct ws → All (λ x. x ≢ w) ws → Distinct (ws ++ (w ∷ []))
Distinct-append_one [] w d h = (tt, tt)
Distinct-append_one (x ∷ ws) w d h = (
  All-append (λ y. y ≢ x) ws (w ∷ []) d.0 ((λ e. h.0 (sym e)), tt),
  Distinct-append_one ws w d.1 h.1,
)

-- The loop returns 0 only where no entry has the word.
try_increment_none :
    (ps : List Pair) (w : Word) (n : ℕ)
    → try_increment_existing_word ps w n ≡ none
    → All (λ x. x ≢ w) (words ps)
unfolding try_increment_existing_word
try_increment_none [] w n h = tt
try_increment_none (p ∷ ps) w n h = elim (Bool-cases (same p.word w)) [
  | inl hit ↦ absurd (ground arith)
  | inr miss ↦ elim (Option-cases (try_increment_existing_word ps w n)) [
    | inl e ↦ ((λ at. cc ((same_iff p.word w).1 at)), try_increment_none ps w n e)
    | inr (rs, e) ↦ absurd (ground arith)
  ]
]

-- Where the loop finds the word, the words stay as they are.
try_increment_words :
    (ps : List Pair) (w : Word) (n : ℕ) {qs : List Pair}
    → try_increment_existing_word ps w n ≡ some qs
    → words qs ≡ words ps
unfolding try_increment_existing_word
try_increment_words [] w n h = cc
try_increment_words (p ∷ ps) w n h = elim (Bool-cases (same p.word w)) [
  | inl hit ↦ ground arith
  | inr miss ↦ elim (Option-cases (try_increment_existing_word ps w n)) [
    | inl e ↦ ground arith
    | inr (rs, e) ↦ ground (arith, try_increment_words ps w n e)
  ]
]

-- `increment_word` either keeps the words, or adds one that was not there.
pub words-increment :
    (a : WordCountArray) (w : Word) (n : ℕ)
    → (words (increment_word a w n).pairs ≡ words a.pairs)
      ⊎ ((words (increment_word a w n).pairs ≡ words a.pairs ++ (w ∷ []))
          × All (λ x. x ≢ w) (words a.pairs))
unfolding increment_word
words-increment a w n = elim (Option-cases (try_increment_existing_word a.pairs w n)) [
  | inl e ↦
      inr (rw (e, increment_word, pairs-insert a w n, map-append), try_increment_none a.pairs w n e)
  | inr (qs, e) ↦ inl (rw (e, increment_word) (try_increment_words a.pairs w n e))
]

room-increment :
    (a : WordCountArray) (w : Word) (n : ℕ)
    → IsValid a
    → (used_size (increment_word a w n) ≤ (increment_word a w n).allocated_size)
      × (0 < (increment_word a w n).allocated_size)
unfolding increment_word insert_word_pair realloc_array_if_full
room-increment a w n v = elim (Option-cases (try_increment_existing_word a.pairs w n)) [
  | inl e ↦ ground (arith, length-append a.pairs (record { word = w; count = n } ∷ []))
  | inr (qs, e) ↦
      let same_size : length qs ≡ length a.pairs =
        sym (length-map qs (λ p. p.word))
        ∙ ap length (try_increment_words a.pairs w n e)
        ∙ length-map a.pairs (λ p. p.word) in
      ground arith
]

-- `increment_word` keeps the array valid: no word has two entries, the entries in use lie in the
-- allocation, and this is not empty.
pub increment_word-IsValid :
    (a : WordCountArray) (w : Word) (n : ℕ) → IsValid a → IsValid (increment_word a w n)
increment_word-IsValid a w n v = record {
  distinct = elim (words-increment a w n) [
    | inl e ↦ subst Distinct (sym e) v.distinct
    | inr (e, f) ↦ subst Distinct (sym e) (Distinct-append_one (words a.pairs) w v.distinct f)
  ];
  room = (room-increment a w n v).0;
  allocated = (room-increment a w n v).1;
}

pub add_pairs-IsValid : (a : WordCountArray) (ps : List Pair) → IsValid a → IsValid (add_pairs a ps)
unfolding add_pairs
add_pairs-IsValid a [] v = v
add_pairs-IsValid a (p ∷ ps) v =
    add_pairs-IsValid (increment_word a p.word p.count) ps
      (increment_word-IsValid a p.word p.count v)

Positive-append : (ps qs : List Pair) → Positive ps → Positive qs → Positive (ps ++ qs)
Positive-append [] qs h k = k
Positive-append (p ∷ ps) qs h k = (h.0, Positive-append ps qs h.1 k)

try_increment_Positive :
    (ps : List Pair) (w : Word) (n : ℕ) {qs : List Pair}
    → try_increment_existing_word ps w n ≡ some qs
    → Positive ps
    → Positive qs
unfolding try_increment_existing_word
try_increment_Positive [] w n h k = cc
try_increment_Positive (p ∷ ps) w n h k = elim (Bool-cases (same p.word w)) [
  | inl hit ↦ ground arith
  | inr miss ↦ elim (Option-cases (try_increment_existing_word ps w n)) [
    | inl e ↦ ground arith
    | inr (rs, e) ↦ ground (arith, try_increment_Positive ps w n e k.1)
  ]
]

pub increment_word-Positive :
    (a : WordCountArray) (w : Word) (n : ℕ)
    → 0 < n
    → Positive a.pairs
    → Positive (increment_word a w n).pairs
unfolding increment_word
increment_word-Positive a w n pos h =
    elim (Option-cases (try_increment_existing_word a.pairs w n)) [
      | inl e ↦ rw (e, increment_word, pairs-insert a w n) (Positive-append a.pairs _ h (pos, tt))
      | inr (qs, e) ↦ rw (e, increment_word) (try_increment_Positive a.pairs w n e h)
    ]

pub add_pairs-Positive :
    (a : WordCountArray) (ps : List Pair)
    → Positive ps
    → Positive a.pairs
    → Positive (add_pairs a ps).pairs
unfolding add_pairs
add_pairs-Positive a [] k h = h
add_pairs-Positive a (p ∷ ps) k h =
    add_pairs-Positive (increment_word a p.word p.count) ps k.1
      (increment_word-Positive a p.word p.count k.0 h)

-- Adding an array keeps the invariant of the total.
pub add_array_to_array-IsValid :
    (total other : WordCountArray) → IsValid total → IsValid (add_array_to_array total other)
unfolding add_array_to_array
add_array_to_array-IsValid total other v = add_pairs-IsValid total other.pairs v

pub add_array_to_array-Positive :
    (total other : WordCountArray)
    → Positive other.pairs
    → Positive total.pairs
    → Positive (add_array_to_array total other).pairs
unfolding add_array_to_array
add_array_to_array-Positive total other k h = add_pairs-Positive total other.pairs k h

pub init-Positive : Positive init_word_count_array.pairs
unfolding init_word_count_array
init-Positive = tt
