-- ===== src/ProcessCounter.antt =====
-- proj01/src/pword.c: one child process for each input file sends its array through a message queue,
-- in messages of `msg_size` bytes; the parent adds up what it receives.
pub mod Codec
pub mod Sending
pub mod Delivery
pub mod Overcount
pub mod Interleaving
pub mod Queue
pub mod Agreement
mod Tests
use cs.Prelude.{
  ℕ, zero, suc, ◌+◌, ◌-◌, ◌*◌, ◌/◌, ◌%◌, ◌^◌, Bool, true, false, List, [], ◌∷◌, ◌++◌, Option, none,
  some, length, get_elem?, drop, replicate, ltb, ◌==◌, if◌then◌else◌, Outcome, ok, undefined,
  out_of_fuel, ◌>>=◌, from_option,
}
use cs.WordCount.Text.{Word}
use cs.WordCount.{
  Pair, WordCountArray, FileSystem, used_size, init_word_count_array, increment_word, parse_in_file,
  write_output_file,
}

abbrev pub Bytes : Type 0
Bytes = List ℕ

-- An `int` in memory: four bytes, the lowest first. A negative one is its pattern.
pub int_bytes : ℕ → Bytes
int_bytes n = n % 256 ∷ (n / 256 % 256) ∷ (n / 65536 % 256) ∷ (n / 16777216 % 256) ∷ []

-- `*(int*)&buf[i]` by its pattern, and the bytes behind it; `none` past the end of the buffer. A pattern of
-- 2 ^ 31 or more is a negative `int`: as a number of pairs only -1 is sent, MQ_EOF_VAL, and that counts are
-- below 2 ^ 31 is a condition of the theorems.
pub read_int : Bytes → Option (ℕ × Bytes)
read_int (a ∷ b ∷ c ∷ d ∷ rest) = some (a + 256 * b + 65536 * c + 16777216 * d, rest)
read_int bytes = none

-- MQ_EOF_VAL, -1
abbrev pub mq_eof_val : ℕ
mq_eof_val = 4294967295

-- sizeof(int)
abbrev pub int_size : ℕ
int_size = 4

-- What the inner loop of `run_child_actions` leaves: how many pairs it has put into the message, the
-- bytes that it has written behind the count, and whether it broke off at a pair with no room.
pub record Filled : Type 0 where
  pub pairs_in_message : ℕ
  pub body : Bytes
  pub full : Bool

pub fill_message : ℕ → ℕ → List Pair → Filled
unfolding int_bytes
fill_message msg_size buf_i [] = record { pairs_in_message = 0; body = []; full = false }
fill_message msg_size buf_i (pair ∷ pairs) =
    let word_len = length pair.word + 1 in
    let more = fill_message msg_size (buf_i + word_len + int_size) pairs in
    if ltb (msg_size - buf_i) (word_len + int_size)
    then record { pairs_in_message = 0; body = []; full = true }
    else record more {
      pairs_in_message = more.pairs_in_message + 1;
      body = pair.word ++ (0 ∷ int_bytes pair.count ++ more.body);
    }

-- The buffer as it is sent: the count, what was written behind it, and zeros from `memset`.
pub message : ℕ → ℕ → Bytes → Bytes
unfolding int_bytes
message msg_size count body =
    int_bytes count ++ (body ++ replicate (msg_size - int_size - length body) 0)

pub eof_message : ℕ → Bytes
unfolding message
eof_message msg_size = message msg_size mq_eof_val []

-- The outer loop from index `i` on, on fuel. `i--` before the `break` makes the next message begin
-- with the last pair of this one; at index 0 it wraps, and the next access is undefined.
pub send_messages : ℕ → ℕ → List Pair → ℕ → Outcome (List Bytes)
unfolding fill_message message eof_message
send_messages zero msg_size pairs i = out_of_fuel
send_messages (suc fuel) msg_size pairs i =
    let sent = fill_message msg_size int_size (drop i pairs) in
    let stop = i + sent.pairs_in_message in
    let rest = λ (next : ℕ). send_messages fuel msg_size pairs next >>= λ messages.
    ok (message msg_size sent.pairs_in_message sent.body ∷ messages) in
    let again = if stop == 0 then undefined else rest (stop - 1) in
    let last = rest (length pairs) in
    let round = if sent.full then again else last in
    if i == length pairs then ok (eof_message msg_size ∷ []) else round

-- What a child sends, with one unit of fuel for each pair and one to spare.
pub run_child_actions : FileSystem → ℕ → Word → Outcome (List Bytes)
unfolding send_messages
run_child_actions files msg_size name = do
  a ← parse_in_file files name
  send_messages (used_size a + 1) msg_size a.pairs 0

-- `strlen`, `strcpy` and the step behind the NUL; `none` where the buffer has no NUL.
pub read_string : Bytes → Option (Word × Bytes)
read_string [] = none
read_string (b ∷ bytes) =
    if b == 0
    then some ([], bytes)
    else elim (read_string bytes) [ none ↦ none | some (word, rest) ↦ some (b ∷ word, rest) ]

-- The loop of `await_child_processes` over the pairs of a message.
pub receive_pairs : ℕ → Bytes → WordCountArray → Outcome WordCountArray
unfolding read_int read_string
receive_pairs zero bytes a = ok a
receive_pairs (suc n) bytes a = elim (read_string bytes) [
  | none ↦ undefined
  | some (word, after) ↦ elim (read_int after) [
    | none ↦ undefined
    | some (freq, rest) ↦ receive_pairs n rest (increment_word a word freq)
  ]
]

-- The loop over the messages in the order in which they arrive, with the children that have yet to
-- end. With none left to arrive `mq_receive` blocks.
pub await_child_processes : List Bytes → ℕ → WordCountArray → Outcome WordCountArray
unfolding receive_pairs
await_child_processes messages zero a = ok a
await_child_processes [] (suc left) a = out_of_fuel
await_child_processes (bytes ∷ messages) (suc left) a = elim (read_int bytes) [
  | none ↦ undefined
  | some (count, body) ↦
      let ended = await_child_processes messages left a in
      let more = receive_pairs count body a >>= λ b. await_child_processes messages (suc left) b in
      if count == mq_eof_val then ended else more
]

-- The parent, given the arriving messages; `opened` says whether the output file can be opened.
pub main : List Bytes → ℕ → Bool → Outcome (List Pair)
unfolding await_child_processes
main messages in_file_count opened = do
  total ← await_child_processes messages in_file_count init_word_count_array
  write_output_file opened total
