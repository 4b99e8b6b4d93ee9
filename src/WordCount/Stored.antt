-- ===== src/WordCount/Stored.antt =====
-- What `parse_in_file` of proj01/src/common.c stores of a text file.
use mathlib.Core.Option.{some-injective}
use cs.Prelude.{
  >>=_returns, ℕ, zero, suc, ◌+◌, ◌≤◌, ◌<◌, ◌≡◌, refl, sym, ap, subst, List, [], ◌∷◌, map, some,
  inl, inr, arith, length, length-map, Option-cases, ok,
}
use cs.WordCount.Text.{Word, str_toupper, toupper, skip_space, take_word, scan_word}
use cs.WordCount.Validity.{words, All, All-append, words-increment}
use cs.WordCount.Counts.{count_of, count_of_head, count_of-cons-le}
use cs.WordCount.Parse.{
  Counts, NoNul, IsStored, occurrences, text_words, scan_word-NextWord, parse_in_file-Counts,
}
use cs.WordCount.{
  Pair, WordCountArray, FileSystem, increment_word, parse_words, parse_in_file, shrink_array_to_fit,
  init_word_count_array,
}

NoNul-skip_space : (file : List ℕ) → NoNul file → NoNul (skip_space file)
unfolding skip_space
NoNul-skip_space [] h = tt
NoNul-skip_space (b ∷ file) h = ground (arith, NoNul-skip_space file h.1)

stored_word :
    (n : ℕ) (bs : List ℕ)
    → NoNul bs
    → (length (take_word n bs).0 ≤ n) × NoNul (take_word n bs).0 × NoNul (take_word n bs).1
unfolding take_word
stored_word zero bs h = (omega arith, tt, h)
stored_word (suc n) [] h = (omega arith, tt, tt)
stored_word (suc n) (b ∷ bs) h = ground (arith, stored_word n bs h.1)

scan_word-IsStored :
    (file : List ℕ) (word : Word) (rest : List ℕ)
    → NoNul file
    → scan_word file ≡ some (word, rest)
    → IsStored word × NoNul rest
unfolding scan_word
scan_word-IsStored file word rest h e = go (skip_space file) (NoNul-skip_space file h) refl
  where
    go : (bs : List ℕ) → NoNul bs → skip_space file ≡ bs → IsStored word × NoNul rest
    go [] k f = cc (rw (f, scan_word) at e)
    go (b ∷ bs) k f =
        let (short, text, after) = stored_word 63 (b ∷ bs) k in
        subst (λ t. IsStored t.0 × NoNul t.1) (some-injective _ _ (rw (f, scan_word) at e))
          ((short, text), after)

NoNul-toupper : (w : Word) → NoNul w → NoNul (str_toupper w)
unfolding str_toupper toupper
NoNul-toupper [] h = tt
NoNul-toupper (b ∷ w) h = ground (arith, NoNul-toupper w h.1)

length-str_toupper : (w : Word) → length (str_toupper w) ≤ length w
unfolding str_toupper
length-str_toupper [] = omega arith
length-str_toupper (b ∷ w) = ground (arith, length-str_toupper w)

IsStored-toupper : (w : Word) → IsStored w → IsStored (str_toupper w)
IsStored-toupper w h = (omega (arith, length-str_toupper w), NoNul-toupper w h.1)

increment_word-IsStored :
    (a : WordCountArray) (w : Word) (n : ℕ)
    → IsStored w
    → All IsStored (words a.pairs)
    → All IsStored (words (increment_word a w n).pairs)
increment_word-IsStored a w n h k = elim (words-increment a w n) [
  | inl e ↦ subst (All IsStored) (sym e) k
  | inr (e, f) ↦
      subst (All IsStored) (sym e) (All-append IsStored (words a.pairs) (w ∷ []) k (h, tt))
]

parse_words-IsStored :
    (fuel : ℕ) (file : List ℕ) (a r : WordCountArray)
    → NoNul file
    → All IsStored (words a.pairs)
    → parse_words fuel file a ≡ ok r
    → All IsStored (words r.pairs)
unfolding parse_words
parse_words-IsStored zero file a r h k e = cc
parse_words-IsStored (suc fuel) file a r h k e = elim (Option-cases (scan_word file)) [
  | inl ended ↦
      let same : a ≡ r = cc (rw (ended, parse_words) at e) in
      subst (λ x. All IsStored (words x.pairs)) same k
  | inr ((word, rest), found) ↦
      let (stored, after) = scan_word-IsStored file word rest h found in
      parse_words-IsStored fuel rest (increment_word a (str_toupper word) 1) r after
        (increment_word-IsStored a (str_toupper word) 1 (IsStored-toupper word stored) k)
        (rw (found, parse_words) at e)
]

init-IsStored : All IsStored (words init_word_count_array.pairs)
unfolding init_word_count_array
init-IsStored = tt

-- Every word of the array that is read from a file without NUL bytes is a string of at most 63
-- bytes.
pub parse_in_file-IsStored :
    (files : FileSystem) (name : Word) (file : List ℕ) (a : WordCountArray)
    → files name ≡ some file
    → NoNul file
    → parse_in_file files name ≡ ok a
    → All IsStored (words a.pairs)
unfolding parse_in_file shrink_array_to_fit
parse_in_file-IsStored files name file a e h run =
    let (r, words_run, shrunk) =
      >>=_returns (λ b. ok (shrink_array_to_fit b))
        (parse_words (length file + 1) file init_word_count_array) a
        (rw (e, parse_in_file) at run) in
    let same : r.pairs ≡ a.pairs = ground arith in
    subst (λ ps. All IsStored (words ps)) same
      (parse_words-IsStored (length file + 1) file init_word_count_array r h init-IsStored
        words_run)

pub text_words-le :
    (n : ℕ) (file : List ℕ) → length file < n → length (text_words file) ≤ length file
text_words-le zero file lt = absurd (omega arith)
text_words-le (suc n) file lt = elim (scan_word-NextWord file) [
  | inl (ended, nothing) ↦ omega (arith, ap length nothing)
  | inr (word, rest, s) ↦
      omega (arith, ap length s.first, s.shorter, text_words-le n rest (omega (arith, s.shorter)))
]

pub occurrences-le : (v : Word) (ws : List Word) → occurrences v ws ≤ length ws
unfolding occurrences
occurrences-le v [] = omega arith
occurrences-le v (w ∷ ws) = ground (arith, occurrences-le v ws)

abbrev pub AtMost : ℕ → List Pair → Type 0
AtMost n [] = Unit {0}
AtMost n (p ∷ ps) = (p.count ≤ n) × AtMost n ps

pub AtMost-of_counts : (n : ℕ) (ps : List Pair) → ((v : Word) → count_of v ps ≤ n) → AtMost n ps
AtMost-of_counts n [] h = tt
AtMost-of_counts n (p ∷ ps) h = (
  omega (arith, h p.word, count_of_head p ps),
  AtMost-of_counts n ps (λ v. omega (arith, h v, count_of-cons-le v p ps)),
)

AtMost-more : (m n : ℕ) (ps : List Pair) → m ≤ n → AtMost m ps → AtMost n ps
AtMost-more m n [] le h = tt
AtMost-more m n (p ∷ ps) le (first, h) = (omega arith, AtMost-more m n ps le h)

-- No count exceeds the number of bytes of the file.
pub parse_in_file-AtMost :
    (files : FileSystem) (name : Word) (file : List ℕ) (a : WordCountArray)
    → files name ≡ some file
    → parse_in_file files name ≡ ok a
    → AtMost (length file) a.pairs
parse_in_file-AtMost files name file a e run =
    let (b, run', c) = parse_in_file-Counts files name file e in
    let same : b ≡ a = cc in
    subst (λ x. AtMost (length file) x.pairs) same
      (AtMost-of_counts (length file) b.pairs (λ v. omega (
        arith,
        c.counts v,
        occurrences-le v (map str_toupper (text_words file)),
        length-map (text_words file) str_toupper,
        text_words-le (length file + 1) file (omega arith),
      )))

-- A file of fewer than 2 ^ 31 bytes that can be opened is read to its end. Its array has one entry for each
-- word of its text, a word being a run of bytes that are no space, cut after every 63, in upper case and up
-- to its first NUL; each entry has the number of occurrences of its word, which is positive and an `int`.
pub parse_in_file_lem :
    (files : FileSystem) (name : Word) (file : List ℕ)
    → files name ≡ some file
    → length file ≤ 2147483647
    → (a : WordCountArray) × (parse_in_file files name ≡ ok a)
      × Counts (map str_toupper (text_words file)) a
      × AtMost 2147483647 a.pairs
parse_in_file_lem files name file e small =
    let (a, run, c) = parse_in_file-Counts files name file e in
    (
      a,
      run,
      c,
      AtMost-more (length file) 2147483647 a.pairs small
          (parse_in_file-AtMost files name file a e run),
    )
