-- ===== src/WordCount/Sorted.antt =====
-- The order of the lines that `write_output_file` of proj01/src/common.c writes.
use cs.Prelude.{
  ◌≡◌, ◌≢◌, ◌∙◌, refl, sym, ap₂, Bool, true, List, [], ◌∷◌, inl, inr, ◌⊎◌, arith, Ordering, ok,
}
use cs.WordCount.Text.{
  Word, same_iff, strcmp, eq_of_strcmp, same_of_IsBefore, strcmp_flip, IsBefore, IsBefore-trans,
}
use cs.WordCount.Validity.{words, All, Distinct, Positive}
use cs.WordCount.Counts.{count_of_head, count_of, count_of-sort_pairs}
use cs.WordCount.{
  Pair, WordCountArray, insert_sorted, sort_pairs, sort_word_count_array, write_output_file,
}

-- Each word before all that follow it.
abbrev pub Ascending : List Pair → Type 0
Ascending [] = Unit {0}
Ascending (p ∷ ps) = All (IsBefore p.word) (words ps) × Ascending ps

All-map : (P Q : Word → Type 0) (ws : List Word) → ((w : Word) → P w → Q w) → All P ws → All Q ws
All-map P Q [] f h = tt
All-map P Q (w ∷ ws) f h = (f w h.0, All-map P Q ws f h.1)

All-insert_sorted :
    (P : Word → Type 0) (p : Pair) (ps : List Pair)
    → P p.word
    → All P (words ps)
    → All P (words (insert_sorted p ps))
unfolding insert_sorted
All-insert_sorted P p [] h k = (h, tt)
All-insert_sorted P p (q ∷ qs) h k = ground (arith, All-insert_sorted P p qs h k.1)

All-sort_pairs :
    (P : Word → Type 0) (ps : List Pair) → All P (words ps) → All P (words (sort_pairs ps))
unfolding sort_pairs
All-sort_pairs P [] h = tt
All-sort_pairs P (p ∷ ps) h = All-insert_sorted P p (sort_pairs ps) h.0 (All-sort_pairs P ps h.1)

Ordering-cases : (o : Ordering) → (o ≡ Ordering.lt) ⊎ (o ≡ Ordering.eq) ⊎ (o ≡ Ordering.gt)
Ordering-cases Ordering.lt = inl refl
Ordering-cases Ordering.eq = inr (inl refl)
Ordering-cases Ordering.gt = inr (inr refl)

insert_sorted_lt :
    (p q : Pair) (qs : List Pair)
    → IsBefore q.word p.word
    → insert_sorted p (q ∷ qs) ≡ q ∷ insert_sorted p qs
unfolding insert_sorted
insert_sorted_lt p q qs h = rw (h, insert_sorted)

insert_sorted_gt :
    (p q : Pair) (qs : List Pair)
    → strcmp q.word p.word ≡ Ordering.gt
    → insert_sorted p (q ∷ qs) ≡ p ∷ q ∷ qs
unfolding insert_sorted
insert_sorted_gt p q qs h = rw (h, insert_sorted)

insert_sorted-Ascending :
    (p : Pair) (ps : List Pair)
    → All (λ w. w ≢ p.word) (words ps)
    → Ascending ps
    → Ascending (insert_sorted p ps)
unfolding insert_sorted
insert_sorted-Ascending p [] f a = (tt, tt)
insert_sorted-Ascending p (q ∷ qs) f a = elim (Ordering-cases (strcmp q.word p.word)) [
  | inl lt ↦
      rw (insert_sorted_lt p q qs lt)
        (All-insert_sorted (IsBefore q.word) p qs lt a.0, insert_sorted-Ascending p qs f.1 a.1)
  | inr (inl eq) ↦ absurd (f.0 (eq_of_strcmp q.word p.word eq))
  | inr (inr gt) ↦
      let below = strcmp_flip q.word p.word gt in
      rw (insert_sorted_gt p q qs gt) (
        (
          below,
          All-map (IsBefore q.word) (IsBefore p.word) (words qs)
              (λ w. IsBefore-trans p.word q.word w below) a.0,
        ),
        a,
      )
]

-- Pairs without double words are sorted into strictly ascending order of strcmp.
pub sort_pairs-Ascending : (ps : List Pair) → Distinct (words ps) → Ascending (sort_pairs ps)
unfolding sort_pairs
sort_pairs-Ascending [] d = tt
sort_pairs-Ascending (p ∷ ps) d =
    insert_sorted-Ascending p (sort_pairs ps) (All-sort_pairs (λ w. w ≢ p.word) ps d.0)
      (sort_pairs-Ascending ps d.1)

sort_pairs-Positive : (ps : List Pair) → Positive ps → Positive (sort_pairs ps)
unfolding sort_pairs insert_sorted
sort_pairs-Positive [] h = tt
sort_pairs-Positive (p ∷ ps) h = go (sort_pairs ps) (sort_pairs-Positive ps h.1)
  where
    go : (qs : List Pair) → Positive qs → Positive (insert_sorted p qs)
    go [] k = (h.0, tt)
    go (q ∷ qs) k = let rest = go qs k.1 in ground arith

-- A word before all others is not counted among them.
count_of-below : (v : Word) (ps : List Pair) → All (IsBefore v) (words ps) → count_of v ps ≡ 0
unfolding count_of
count_of-below v [] h = refl
count_of-below v (p ∷ ps) h = ground (arith, count_of-below v ps h.1, same_of_IsBefore v p.word h.0)

below_tail :
    (p q : Pair) (qs : List Pair)
    → IsBefore p.word q.word
    → All (IsBefore q.word) (words qs)
    → All (IsBefore p.word) (words qs)
below_tail p q qs lt =
    All-map (IsBefore q.word) (IsBefore p.word) (words qs) (λ w. IsBefore-trans p.word q.word w lt)

same_pair : (p q : Pair) → p.word ≡ q.word → p.count ≡ q.count → p ≡ q
same_pair p q e f = λ i. record { word = e i; count = f i }

-- With the same least word, the counts of that word and of all others in the rests agree.
same_rest :
    (p q : Pair) (ps qs : List Pair)
    → p.word ≡ q.word
    → All (IsBefore p.word) (words ps)
    → All (IsBefore q.word) (words qs)
    → ((v : Word) → count_of v (p ∷ ps) ≡ count_of v (q ∷ qs))
    → (p.count ≡ q.count) × ((v : Word) → count_of v ps ≡ count_of v qs)
unfolding count_of
same_rest p q ps qs word a b e =
    let none_left = count_of-below p.word ps a in
    let none_right : count_of p.word qs ≡ 0 = rw word (count_of-below q.word qs b) in
    let counts : p.count ≡ q.count =
      ground
        (arith, e p.word, (same_iff p.word p.word).1 refl, (same_iff q.word p.word).1 (sym word)) in
    (counts, λ v. ground (arith, e v, same_iff p.word v, same_iff q.word v))

-- Ascending lists with positive counts are the same if every word is counted alike.
pub Ascending-ext :
    (ps qs : List Pair)
    → Ascending ps
    → Ascending qs
    → Positive ps
    → Positive qs
    → ((v : Word) → count_of v ps ≡ count_of v qs)
    → ps ≡ qs
Ascending-ext [] [] a b h k e = refl
Ascending-ext [] (q ∷ qs) a b h k e =
    absurd (unfold count_of in omega (arith, e q.word, count_of_head q qs))
Ascending-ext (p ∷ ps) [] a b h k e =
    absurd (unfold count_of in omega (arith, e p.word, count_of_head p ps))
Ascending-ext (p ∷ ps) (q ∷ qs) a b h k e = elim (Ordering-cases (strcmp p.word q.word)) [
  | inl lt ↦
      let none_there = count_of-below p.word (q ∷ qs) (lt, below_tail p q qs lt b.0) in
      absurd (omega (arith, e p.word, count_of_head p ps, h.0, none_there))
  | inr (inl eq) ↦
      let word : p.word ≡ q.word = eq_of_strcmp p.word q.word eq in
      let rest = same_rest p q ps qs word a.0 b.0 e in
      ap₂ ◌∷◌ (same_pair p q word rest.0) (Ascending-ext ps qs a.1 b.1 h.1 k.1 rest.1)
  | inr (inr gt) ↦
      let lt = strcmp_flip p.word q.word gt in
      let none_there = count_of-below q.word (p ∷ ps) (lt, below_tail q p ps lt a.0) in
      absurd (omega (arith, e q.word, count_of_head q qs, k.0, none_there))
]

-- Two arrays without double entries and with positive counts that count every word alike are
-- written as the same lines.
pub write_output_file_unique :
    (opened : Bool) (a b : WordCountArray)
    → Distinct (words a.pairs)
    → Distinct (words b.pairs)
    → Positive a.pairs
    → Positive b.pairs
    → ((v : Word) → count_of v a.pairs ≡ count_of v b.pairs)
    → write_output_file opened a ≡ write_output_file opened b
unfolding write_output_file sort_word_count_array
write_output_file_unique opened a b u v h k e =
    let same_lines : sort_pairs a.pairs ≡ sort_pairs b.pairs =
      Ascending-ext (sort_pairs a.pairs) (sort_pairs b.pairs) (sort_pairs-Ascending a.pairs u)
        (sort_pairs-Ascending b.pairs v) (sort_pairs-Positive a.pairs h)
        (sort_pairs-Positive b.pairs k)
        (λ w. count_of-sort_pairs w a.pairs ∙ e w ∙ sym (count_of-sort_pairs w b.pairs)) in
    rw same_lines

-- The lines are in strictly ascending order and carry the counts of the array.
pub write_output_file_lem :
    (a : WordCountArray)
    → Distinct (words a.pairs)
    → Positive a.pairs
    → (lines : List Pair) × (write_output_file true a ≡ ok lines)
      × Ascending lines
      × Positive lines
      × ((v : Word) → count_of v lines ≡ count_of v a.pairs)
unfolding write_output_file sort_word_count_array
write_output_file_lem a d h = (
  sort_pairs a.pairs,
  refl,
  sort_pairs-Ascending a.pairs d,
  sort_pairs-Positive a.pairs h,
  λ v. count_of-sort_pairs v a.pairs,
)
