-- ===== src/ProcessCounter/Codec.antt =====
-- The messages of proj01/src/pword.c: what the child writes into a buffer, and what the parent
-- reads from it.
use cs.Prelude.{
  true, false, ℕ, suc, ◌+◌, ◌-◌, ◌<◌, ◌≡◌, ◌∙◌, refl, ap, List, [], ◌∷◌, ◌++◌, append_assoc, some,
  length, take, length-append, replicate, length-replicate, inl, inr, arith, ◌⊎◌, ◌≤◌, ltb,
  Bool-cases, ok,
}
use native.Mathlib.Numerals.{add-one}
use cs.WordCount.Parse.{NoNul}
use cs.WordCount.Text.{Word}
use cs.WordCount.{Pair, WordCountArray, increment_word, add_pairs}
use cs.ProcessCounter.{
  message, Bytes, int_bytes, read_int, int_size, fill_message, read_string, receive_pairs,
}

int_lem : (n : ℕ) (rest : Bytes) → n < 4294967296 → read_int (int_bytes n ++ rest) ≡ some (n, rest)
unfolding read_int int_bytes
int_lem n rest lt = ap (λ k. some (k, rest)) (omega arith)

string_lem : (w : Word) (rest : Bytes) → NoNul w → read_string (w ++ (0 ∷ rest)) ≡ some (w, rest)
unfolding read_string
string_lem [] rest h = refl
string_lem (b ∷ w) rest h = ground (arith, string_lem w rest h.1)

-- Pairs that a message can carry: strings, and counts that are not negative as an `int`.
abbrev pub Sendable : List Pair → Type 0
Sendable [] = Unit {0}
Sendable (p ∷ ps) = (NoNul p.word × (p.count < 2147483648)) × Sendable ps

pair_lem :
    (p : Pair) (rest : Bytes) (n : ℕ) (a : WordCountArray)
    → NoNul p.word
    → p.count < 2147483648
    → receive_pairs (suc n) (p.word ++ (0 ∷ int_bytes p.count ++ rest)) a
      ≡ receive_pairs n rest (increment_word a p.word p.count)
unfolding receive_pairs
pair_lem p rest n a h lt = rw (
  string_lem p.word (int_bytes p.count ++ rest) h,
  receive_pairs,
  int_lem p.count rest (omega arith),
)

-- For words without NUL and counts below 2^31, the loop of the parent adds just the pairs that the
-- loop of the child has put into a message, whatever follows them in the buffer.
pub receive-fill :
    (msg_size buf_i : ℕ) (pairs : List Pair) (padding : Bytes) (a : WordCountArray)
    → Sendable pairs
    → let sent = fill_message msg_size buf_i pairs in
      receive_pairs sent.pairs_in_message (sent.body ++ padding) a
      ≡ ok (add_pairs a (take sent.pairs_in_message pairs))
unfolding fill_message receive_pairs add_pairs
receive-fill msg_size buf_i [] padding a h = refl
receive-fill msg_size buf_i (p ∷ ps) padding a h =
    elim (Bool-cases (ltb (msg_size - buf_i) (length p.word + 1 + int_size))) [
      | inl full ↦ rw (full, fill_message)
      | inr room ↦
          let more = fill_message msg_size (buf_i + (length p.word + 1) + int_size) ps in
          rw (room, fill_message, add-one, append_assoc)
            (pair_lem p (more.body ++ padding) more.pairs_in_message a h.0.0 h.0.1
              ∙ receive-fill msg_size (buf_i + (length p.word + 1) + int_size) ps padding
                  (increment_word a p.word p.count) h.1)
    ]

-- The bytes that a pair takes in a message, and those of all pairs.
unfoldable pub encoded_size : List Pair → ℕ
encoded_size [] = 0
encoded_size (p ∷ ps) = length p.word + 1 + int_size + encoded_size ps

length-int_bytes : (n : ℕ) → length (int_bytes n) ≡ 4
unfolding int_bytes
length-int_bytes n = refl

-- The loop never writes behind the end of the buffer.
fill_message_room :
    (msg_size buf_i : ℕ) (pairs : List Pair)
    → buf_i ≤ msg_size
    → buf_i + length (fill_message msg_size buf_i pairs).body ≤ msg_size
unfolding fill_message
fill_message_room msg_size buf_i [] h = omega arith
fill_message_room msg_size buf_i (p ∷ ps) h =
    let more = fill_message msg_size (buf_i + (length p.word + 1) + int_size) ps in
    ground (
      arith,
      fill_message_room msg_size (buf_i + (length p.word + 1) + int_size) ps,
      length-append p.word (0 ∷ int_bytes p.count ++ more.body),
      length-append (int_bytes p.count) more.body,
      length-int_bytes p.count,
    )

-- Of a size of at least four bytes, every message of pairs has just that size.
pub length-message :
    (msg_size : ℕ) (pairs : List Pair)
    → int_size ≤ msg_size
    → let sent = fill_message msg_size int_size pairs in
      length (message msg_size sent.pairs_in_message sent.body) ≡ msg_size
unfolding message
length-message msg_size pairs h =
    let sent = fill_message msg_size int_size pairs in
    omega (
      arith,
      fill_message_room msg_size int_size pairs h,
      length-append (int_bytes sent.pairs_in_message)
          (sent.body ++ replicate (msg_size - int_size - length sent.body) 0),
      length-int_bytes sent.pairs_in_message,
      length-append sent.body (replicate (msg_size - int_size - length sent.body) 0),
      length-replicate (msg_size - int_size - length sent.body) (◌+◌ 0 0),
    )

-- The loop stops at the end of the pairs, or before the first that has no room.
pub fill_message_stop :
    (msg_size buf_i : ℕ) (pairs : List Pair)
    → let sent = fill_message msg_size buf_i pairs in
      ((sent.full ≡ false) × (sent.pairs_in_message ≡ length pairs))
      ⊎ ((sent.full ≡ true) × (sent.pairs_in_message < length pairs))
unfolding fill_message
fill_message_stop msg_size buf_i [] = inl (refl, refl)
fill_message_stop msg_size buf_i (p ∷ ps) =
    ground (arith, fill_message_stop msg_size (buf_i + (length p.word + 1) + int_size) ps)

-- What fits into the rest of the buffer is sent whole.
pub fill_message_fits :
    (msg_size buf_i : ℕ) (pairs : List Pair)
    → buf_i + encoded_size pairs ≤ msg_size
    → (fill_message msg_size buf_i pairs).full ≡ false
unfolding fill_message encoded_size
fill_message_fits msg_size buf_i [] h = refl
fill_message_fits msg_size buf_i (p ∷ ps) h =
    ground (arith, fill_message_fits msg_size (buf_i + (length p.word + 1) + int_size) ps)

-- The parent reads back the count of a message.
pub read_int-message :
    (msg_size count : ℕ) (body : Bytes)
    → count < 4294967296
    → read_int (message msg_size count body)
      ≡ some (count, body ++ replicate (msg_size - int_size - length body) 0)
unfolding message
read_int-message msg_size count body lt = int_lem count _ lt

-- What does not fit leaves the message full.
pub fill_message_overflows :
    (msg_size buf_i : ℕ) (pairs : List Pair)
    → buf_i ≤ msg_size
    → msg_size < buf_i + encoded_size pairs
    → (fill_message msg_size buf_i pairs).full ≡ true
unfolding fill_message encoded_size
fill_message_overflows msg_size buf_i [] h over = absurd (omega arith)
fill_message_overflows msg_size buf_i (p ∷ ps) h over =
    ground (arith, fill_message_overflows msg_size (buf_i + (length p.word + 1) + int_size) ps)
