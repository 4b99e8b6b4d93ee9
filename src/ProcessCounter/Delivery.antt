-- ===== src/ProcessCounter/Delivery.antt =====
-- What the messages of a child of proj01/src/pword.c carry to the parent.
use cs.Prelude.{ℕ, ◌≤◌, ◌<◌, ◌≡◌, ◌≢◌, List, [], ◌∷◌, ◌++◌, length, take, arith, some, ok}
use cs.WordCount.{Pair, WordCountArray, add_pairs}
use cs.ProcessCounter.{
  Bytes, int_size, mq_eof_val, fill_message, message, eof_message, read_int, receive_pairs,
}
use cs.ProcessCounter.Codec.{fill_message_stop, receive-fill, Sendable, read_int-message}

-- A message from which the parent reads a number of pairs, and adds these.
pub record Carries (bytes : Bytes) (pairs : List Pair) : Type 0 where
  pub count : ℕ
  pub body : Bytes
  pub read : read_int bytes ≡ some (count, body)
  pub not_eof : count ≢ mq_eof_val
  pub adds : (a : WordCountArray) → receive_pairs count body a ≡ ok (add_pairs a pairs)

-- The message that ends a child.
pub record IsEof (bytes : Bytes) : Type 0 where
  pub body : Bytes
  pub read : read_int bytes ≡ some (mq_eof_val, body)

-- A child's messages: some that carry pairs, then the end.
pub data Sends : List Bytes → List Pair → Type 0 where
  ends : {bytes : Bytes} → IsEof bytes → Sends (bytes ∷ []) []
  sends :
      {bytes : Bytes} {messages : List Bytes} {now later all : List Pair}
      → Carries bytes now
      → Sends messages later
      → all ≡ now ++ later
      → Sends (bytes ∷ messages) all

pub eof_message-IsEof : (msg_size : ℕ) → IsEof (eof_message msg_size)
unfolding eof_message
eof_message-IsEof msg_size = record {
  body = _;
  read = read_int-message msg_size mq_eof_val [] (omega arith);
}

pub message-Carries :
    (msg_size : ℕ) (pairs : List Pair)
    → Sendable pairs
    → length pairs < mq_eof_val
    → let sent = fill_message msg_size int_size pairs in
      Carries (message msg_size sent.pairs_in_message sent.body) (take sent.pairs_in_message pairs)
message-Carries msg_size pairs h few =
    let sent = fill_message msg_size int_size pairs in
    let at_most : sent.pairs_in_message ≤ length pairs =
      ground (arith, fill_message_stop msg_size int_size pairs) in
    record {
      count = sent.pairs_in_message;
      body = _;
      read = read_int-message msg_size sent.pairs_in_message sent.body (omega arith);
      not_eof = omega arith;
      adds = λ a. receive-fill msg_size int_size pairs _ a h;
    }
