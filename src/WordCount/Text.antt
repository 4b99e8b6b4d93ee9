-- ===== src/WordCount/Text.antt =====
-- What proj01/src/common.c uses of the C library on text: `strcmp`, `toupper`, and `fscanf` with
-- " %63s". A string is the list of its bytes before the NUL.
use cs.Prelude.{
  ℕ, zero, suc, ◌-◌, ◌≡◌, ◌↔◌, refl, Bool, true, false, ◌&&◌, ◌||◌, List, [], ◌∷◌, Option, none,
  some, arith, leb, ◌==◌, if◌then◌else◌, compare, Ordering,
}

abbrev pub Word : Type 0
Word = List ℕ

-- The sign of `strcmp`: the first difference decides, and a proper prefix is the smaller.
unfoldable pub strcmp : Word → Word → Ordering
strcmp [] [] = Ordering.eq
strcmp [] (y ∷ ys) = Ordering.lt
strcmp (x ∷ xs) [] = Ordering.gt
strcmp (x ∷ xs) (y ∷ ys) = elim (compare x y) [
  | Ordering.lt ↦ Ordering.lt
  | Ordering.eq ↦ strcmp xs ys
  | Ordering.gt ↦ Ordering.gt
]

-- `strcmp(a, b) == 0`
unfoldable pub same : Word → Word → Bool
unfolding strcmp
same a b = elim (strcmp a b) [ Ordering.eq ↦ true | _ ↦ false ]

strcmp_refl : (a : Word) → strcmp a a ≡ Ordering.eq
unfolding strcmp
strcmp_refl [] = refl
strcmp_refl (x ∷ xs) = ground (arith, strcmp_refl xs)

pub eq_of_strcmp : (a b : Word) → strcmp a b ≡ Ordering.eq → a ≡ b
unfolding strcmp
eq_of_strcmp [] [] h = refl
eq_of_strcmp [] (y ∷ ys) h = cc
eq_of_strcmp (x ∷ xs) [] h = cc
eq_of_strcmp (x ∷ xs) (y ∷ ys) h = ground (arith, eq_of_strcmp xs ys)

-- `strcmp` finds two strings the same exactly when they are.
pub same_iff : (a b : Word) → (same a b ≡ true) ↔ (a ≡ b)
unfolding same
same_iff a b = (λ h. eq_of_strcmp a b (ground arith), λ e. rw (e, same, strcmp_refl b))

-- The order behind `strcmp(a, b) < 0`.
abbrev pub IsBefore : Word → Word → Type 0
IsBefore a b = strcmp a b ≡ Ordering.lt

pub same_of_IsBefore : (a b : Word) → IsBefore a b → (same a b ≡ false) × (same b a ≡ false)
same_of_IsBefore a b h = ground (arith, same_iff a b, same_iff b a, strcmp_refl b)

pub IsBefore-trans : (a b c : Word) → IsBefore a b → IsBefore b c → IsBefore a c
unfolding strcmp
IsBefore-trans [] [] c h k = k
IsBefore-trans [] (y ∷ ys) [] h k = cc
IsBefore-trans [] (y ∷ ys) (z ∷ zs) h k = refl
IsBefore-trans (x ∷ xs) [] c h k = cc
IsBefore-trans (x ∷ xs) (y ∷ ys) [] h k = cc
IsBefore-trans (x ∷ xs) (y ∷ ys) (z ∷ zs) h k = ground (arith, IsBefore-trans xs ys zs)

pub strcmp_flip : (a b : Word) → strcmp a b ≡ Ordering.gt → IsBefore b a
unfolding strcmp
strcmp_flip [] [] h = cc
strcmp_flip [] (y ∷ ys) h = cc
strcmp_flip (x ∷ xs) [] h = refl
strcmp_flip (x ∷ xs) (y ∷ ys) h = ground (arith, strcmp_flip xs ys)

-- `toupper` in the C locale.
unfoldable pub toupper : ℕ → ℕ
toupper c = if leb b'a' c && leb c b'z' then c - 32 else c

-- The string in a buffer whose bytes are these and then a NUL: the loop stops at the first NUL, and so do
-- `strcmp`, `strlen` and `strcpy` after it.
unfoldable pub str_toupper : List ℕ → Word
unfolding toupper
str_toupper [] = []
str_toupper (c ∷ cs) = let rest = str_toupper cs in if c == 0 then [] else toupper c ∷ rest

-- `isspace` in the C locale: tab to carriage return, and the blank.
unfoldable pub is_space : ℕ → Bool
is_space c = (leb 9 c && leb c 13) || c == 32

-- The blank of the format.
unfoldable pub skip_space : List ℕ → List ℕ
skip_space [] = []
skip_space (b ∷ bs) = if is_space b then skip_space bs else b ∷ bs

-- At most so many bytes that are no space, a NUL among them, and what follows them.
unfoldable pub take_word : ℕ → List ℕ → Word × List ℕ
take_word zero bs = ([], bs)
take_word (suc n) [] = ([], [])
take_word (suc n) (b ∷ bs) =
    let (word, rest) = take_word n bs in if is_space b then ([], b ∷ bs) else (b ∷ word, rest)

-- `fscanf(fp, " %63s", word) == 1`, with the bytes that it stores
-- before its NUL and the rest of the file; `none` at the end.
unfoldable pub scan_word : List ℕ → Option (Word × List ℕ)
unfolding skip_space take_word
scan_word file = elim (skip_space file) [ [] ↦ none | b ∷ bs ↦ some (take_word 63 (b ∷ bs)) ]
