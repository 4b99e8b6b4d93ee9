-- ===== src/WordCount/Parse.antt =====
-- `parse_in_file` of proj01/src/common.c against a description of the words of a text that does not
-- go through `fscanf`.
use cs.Prelude.{
  ℕ, zero, suc, ◌+◌, ◌≤◌, ◌<◌, ◌≡◌, ◌≢◌, ◌∙◌, refl, sym, ap, false, List, [], ◌∷◌, ◌++◌, append-nil,
  append_assoc, length-append, none, some, inl, inr, ◌⊎◌, arith, map, length, ◌==◌, if◌then◌else◌,
  Bool-cases, ok, exit,
}
use cs.WordCount.Text.{Word, str_toupper, is_space, skip_space, take_word, scan_word}
use cs.WordCount.Validity.{
  words, Distinct, Positive, IsValid, init-IsValid, init-Positive, increment_word-IsValid,
  increment_word-Positive,
}
use cs.WordCount.Counts.{count_of, when, count_of-increment}
use cs.WordCount.{
  WordCountArray, FileSystem, used_size, parse_words, parse_in_file, shrink_array_to_fit,
  init_word_count_array, increment_word,
}

-- A word that has begun, before those that follow.
emit : Word → List Word → List Word
emit [] ws = ws
emit (b ∷ w) ws = (b ∷ w) ∷ ws

-- The runs of bytes that are no space, cut after every 63; `word` is the run so far.
cut : Word → List ℕ → List Word
unfolding emit
cut word [] = emit word []
cut word (b ∷ bs) =
    let ended = emit word (cut [] bs) in
    let full = word ∷ cut (b ∷ []) bs in
    let longer = cut (word ++ (b ∷ [])) bs in
    if is_space b then ended else if length word == 63 then full else longer

pub text_words : List ℕ → List Word
unfolding cut
text_words file = cut [] file

unfoldable pub occurrences : Word → List Word → ℕ
occurrences v [] = 0
occurrences v (w ∷ ws) = when v w 1 + occurrences v ws

cut-skip_space : (bs : List ℕ) → cut [] (skip_space bs) ≡ cut [] bs
unfolding cut skip_space
cut-skip_space [] = refl
cut-skip_space (b ∷ bs) = ground (arith, cut-skip_space bs)

emit-append :
    (w : Word) (b : ℕ) (v : Word) (ws : List Word) → emit (w ++ (b ∷ v)) ws ≡ (w ++ (b ∷ v)) ∷ ws
unfolding emit
emit-append [] b v ws = refl
emit-append (x ∷ w) b v ws = refl

-- From a full word the rest is cut anew.
cut_full : (word : Word) (bs : List ℕ) → length word ≡ 63 → cut word bs ≡ emit word (cut [] bs)
unfolding cut emit
cut_full [] bs h = absurd (omega arith)
cut_full (x ∷ word) [] h = refl
cut_full (x ∷ word) (b ∷ bs) h = ground arith

cut-take_word :
    (n : ℕ) (word : Word) (bs : List ℕ)
    → length word + n ≡ 63
    → cut word bs ≡ emit (word ++ (take_word n bs).0) (cut [] (take_word n bs).1)
unfolding cut take_word
cut-take_word zero word bs h = rw append-nil (cut_full word bs (omega arith))
cut-take_word (suc n) word [] h = rw append-nil
cut-take_word (suc n) word (b ∷ bs) h = elim (Bool-cases (is_space b)) [
  | inl space ↦ rw (space, append-nil, space)
  | inr more ↦
      let short : (length word == 63) ≡ false = ground arith in
      rw (more, short)
        (cut-take_word n (word ++ (b ∷ [])) bs (omega (arith, length-append word (b ∷ [])))
          ∙ rw append_assoc)
]

skip_space_head :
    (file : List ℕ) (b : ℕ) (bs : List ℕ) → skip_space file ≡ b ∷ bs → is_space b ≡ false
unfolding skip_space
skip_space_head [] b bs h = cc
skip_space_head (c ∷ file) b bs h = ground (arith, skip_space_head file b bs)

skip_space-le : (file : List ℕ) → length (skip_space file) ≤ length file
unfolding skip_space
skip_space-le [] = omega arith
skip_space-le (c ∷ file) = ground (arith, skip_space-le file)

take_word-le : (n : ℕ) (bs : List ℕ) → length (take_word n bs).1 ≤ length bs
unfolding take_word
take_word-le zero bs = omega arith
take_word-le (suc n) [] = omega arith
take_word-le (suc n) (b ∷ bs) = ground (arith, take_word-le n bs)

take_word-suc :
    (n b : ℕ) (bs : List ℕ)
    → is_space b ≡ false
    → take_word (suc n) (b ∷ bs) ≡ (b ∷ (take_word n bs).0, (take_word n bs).1)
unfolding take_word
take_word-suc n b bs h = rw h

emit_cons : (b : ℕ) (w : Word) (ws : List Word) → emit (b ∷ w) ws ≡ (b ∷ w) ∷ ws
unfolding emit
emit_cons b w ws = refl

-- One `fscanf`: the end of the text's words, or the first of them with the shorter rest.
pub record Scanned (file : List ℕ) (word : Word) (rest : List ℕ) : Type 0 where
  pub found : scan_word file ≡ some (word, rest)
  pub shorter : length rest < length file
  pub first : text_words file ≡ word ∷ text_words rest

abbrev pub NextWord : List ℕ → Type 0
NextWord file =
    ((scan_word file ≡ none) × (text_words file ≡ []))
    ⊎ ((word : Word) × (rest : List ℕ) × Scanned file word rest)

scan_from : (file skipped : List ℕ) → skip_space file ≡ skipped → NextWord file
unfolding scan_word text_words
scan_from file [] e = inl (rw (e, scan_word), sym (cut-skip_space file) ∙ ap (cut []) e)
scan_from file (b ∷ bs) e =
    let black = skip_space_head file b bs e in
    inr (
      b ∷ (take_word 62 bs).0,
      (take_word 62 bs).1,
      record {
        found = rw (e, scan_word) (ap some (take_word-suc 62 b bs black));
        shorter = omega (arith, take_word-le 62 bs, ap length e, skip_space-le file);
        first =
            sym (cut-skip_space file)
            ∙ ap (cut []) e
            ∙ cut-take_word 63 [] (b ∷ bs) (omega arith)
            ∙ ap (λ t. emit t.0 (cut [] t.1)) (take_word-suc 62 b bs black)
            ∙ emit_cons b _ _;
      },
    )

pub scan_word-NextWord : (file : List ℕ) → NextWord file
scan_word-NextWord file = scan_from file (skip_space file) refl

-- An array that counts just these words.
pub record Counts (ws : List Word) (a : WordCountArray) : Type 0 where
  pub distinct : Distinct (words a.pairs)
  pub positive : Positive a.pairs
  pub room : used_size a ≤ a.allocated_size
  pub counts : (v : Word) → count_of v a.pairs ≡ occurrences v ws

pub init-count : (v : Word) (n : ℕ) → count_of v init_word_count_array.pairs + n ≡ n
unfolding init_word_count_array count_of
init-count v n = omega arith

-- No byte of the text is a NUL.
abbrev pub NoNul : List ℕ → Type 0
NoNul [] = Unit {0}
NoNul (b ∷ bs) = (b ≢ 0) × NoNul bs

-- What `fscanf` stores: a string of at most 63 bytes.
abbrev pub IsStored : Word → Type 0
IsStored w = (length w ≤ 63) × NoNul w

record Parsed (file : List ℕ) (a r : WordCountArray) : Type 0 where
  valid : IsValid r
  positive : Positive r.pairs
  counts :
      (v : Word)
      → count_of v r.pairs ≡ count_of v a.pairs + occurrences v (map str_toupper (text_words file))

parse_words_total :
    (fuel : ℕ) (file : List ℕ) (a : WordCountArray)
    → length file < fuel
    → IsValid a
    → Positive a.pairs
    → (r : WordCountArray) × (parse_words fuel file a ≡ ok r) × Parsed file a r
unfolding parse_words occurrences
parse_words_total zero file a lt v h = elim lt [ ]
parse_words_total (suc fuel) file a lt v h = elim (scan_word-NextWord file) [
  | inl (ended, empty) ↦ (
    a,
    rw (ended, parse_words),
    record { valid = v; positive = h; counts = λ u. rw empty (omega arith) },
  )
  | inr (word, rest, scanned) ↦
      let b = increment_word a (str_toupper word) 1 in
      let (r, run, parsed) =
        parse_words_total fuel rest b (omega (arith, scanned.shorter))
          (increment_word-IsValid a (str_toupper word) 1 v)
          (increment_word-Positive a (str_toupper word) 1 (omega arith) h) in
      (
        r,
        rw (scanned.found, parse_words) run,
        record {
          valid = parsed.valid;
          positive = parsed.positive;
          counts = λ u.
              rw scanned.first
                (omega (arith, parsed.counts u, count_of-increment u a (str_toupper word) 1));
        },
      )
]

-- A file that can be opened is read to its end, and its array counts the words of its text, each
-- in upper case and up to its first NUL.
pub parse_in_file-Counts :
    (files : FileSystem) (name : Word) (file : List ℕ)
    → files name ≡ some file
    → (a : WordCountArray) × (parse_in_file files name ≡ ok a)
      × Counts (map str_toupper (text_words file)) a
unfolding parse_in_file shrink_array_to_fit
parse_in_file-Counts files name file e =
    let (r, run, parsed) =
      parse_words_total (length file + 1) file init_word_count_array (omega arith) init-IsValid
        init-Positive in
    (
      shrink_array_to_fit r,
      rw (e, parse_in_file, run),
      record {
        distinct = parsed.valid.distinct;
        positive = parsed.positive;
        room = omega arith;
        counts = λ v. parsed.counts v ∙ init-count v _;
      },
    )

-- A file that cannot be opened ends the program with status 2.
pub parse_in_file_missing :
    (files : FileSystem) (name : Word) → files name ≡ none → parse_in_file files name ≡ exit 2
unfolding parse_in_file
parse_in_file_missing files name e = rw (e, parse_in_file)

pub occurrences-append :
    (v : Word) (ws us : List Word) → occurrences v (ws ++ us) ≡ occurrences v ws + occurrences v us
unfolding occurrences
occurrences-append v [] us = omega arith
occurrences-append v (w ∷ ws) us = omega (arith, occurrences-append v ws us)

pub occurrences-nil : (v : Word) → occurrences v [] ≡ 0
unfolding occurrences
occurrences-nil v = refl
