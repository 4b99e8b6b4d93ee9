-- ===== src/ProcessCounter/Sending.antt =====
-- The rounds of the loop of proj01/src/pword.c that sends the pairs of one child.
use cs.Prelude.{
  ℕ, zero, suc, ◌+◌, ◌-◌, ◌≤◌, ◌<◌, ◌≡◌, ◌≢◌, ◌∙◌, refl, ap, true, false, List, [], ◌∷◌, length,
  drop, length-drop, arith, ◌==◌, Outcome, ok, out_of_fuel, ◌>>=◌,
}
use cs.WordCount.{Pair}
use cs.ProcessCounter.{Bytes, int_size, fill_message, message, eof_message, send_messages}
use cs.ProcessCounter.Codec.{encoded_size}

-- One message from index `i` on, then what `rest` sends.
abbrev pub then_send : ℕ → List Pair → ℕ → Outcome (List Bytes) → Outcome (List Bytes)
then_send msg_size pairs i rest =
    let sent = fill_message msg_size int_size (drop i pairs) in
    rest >>= λ messages. ok (message msg_size sent.pairs_in_message sent.body ∷ messages)

pub send_end :
    (fuel msg_size : ℕ) (pairs : List Pair) (i : ℕ)
    → i ≡ length pairs
    → send_messages (suc fuel) msg_size pairs i ≡ ok (eof_message msg_size ∷ [])
unfolding send_messages
send_end fuel msg_size pairs i e = let test : (i == length pairs) ≡ true = ground arith in rw test

-- A message that takes all the pairs that are left is followed by the end.
pub send_last :
    (fuel msg_size : ℕ) (pairs : List Pair) (i : ℕ)
    → i ≢ length pairs
    → (fill_message msg_size int_size (drop i pairs)).full ≡ false
    → send_messages (suc fuel) msg_size pairs i
      ≡ then_send msg_size pairs i (send_messages fuel msg_size pairs (length pairs))
unfolding send_messages
send_last fuel msg_size pairs i ne e =
    let test : (i == length pairs) ≡ false = ground arith in rw (test, e)

-- A full message with a pair in it is followed by one that begins with its last pair.
pub send_again :
    (fuel msg_size : ℕ) (pairs : List Pair) (i n : ℕ)
    → i ≢ length pairs
    → (fill_message msg_size int_size (drop i pairs)).full ≡ true
    → (fill_message msg_size int_size (drop i pairs)).pairs_in_message ≡ suc n
    → send_messages (suc fuel) msg_size pairs i
      ≡ then_send msg_size pairs i (send_messages fuel msg_size pairs (i + n))
unfolding send_messages
send_again fuel msg_size pairs i n ne e f =
    let test : (i == length pairs) ≡ false = ground arith in
    let sent = fill_message msg_size int_size (drop i pairs) in
    let nonzero : (i + sent.pairs_in_message == 0) ≡ false = ground (arith, f) in
    let next : i + sent.pairs_in_message - 1 ≡ i + n = omega (arith, f) in
    rw (test, e, nonzero, next)

stuck_fill :
    (msg_size : ℕ) (pairs : List Pair) (i : ℕ) (p q : Pair) (rest : List Pair)
    → drop i pairs ≡ p ∷ q ∷ rest
    → int_size + encoded_size (p ∷ []) ≤ msg_size
    → msg_size < int_size + encoded_size (p ∷ q ∷ [])
    → let sent = fill_message msg_size int_size (drop i pairs) in
      (sent.full ≡ true) × (sent.pairs_in_message ≡ 1)
unfolding fill_message encoded_size
stuck_fill msg_size pairs i p q rest e fits over = rw e (ground arith)

-- If the pair at which a message begins fits and the next does not fit beside it, the child never
-- comes to its end: no fuel is enough.
pub send_messages_stuck :
    (fuel msg_size : ℕ) (pairs : List Pair) (i : ℕ) (p q : Pair) (rest : List Pair)
    → drop i pairs ≡ p ∷ q ∷ rest
    → int_size + encoded_size (p ∷ []) ≤ msg_size
    → msg_size < int_size + encoded_size (p ∷ q ∷ [])
    → send_messages fuel msg_size pairs i ≡ out_of_fuel
send_messages_stuck zero msg_size pairs i p q rest e fits over = unfold send_messages in refl
send_messages_stuck (suc fuel) msg_size pairs i p q rest e fits over =
    let (full, one) = stuck_fill msg_size pairs i p q rest e fits over in
    let inside : i ≢ length pairs =
      λ at. absurd (omega (arith, length-drop i pairs, ap length e)) in
    let next : i + 0 ≡ i = omega arith in
    send_again fuel msg_size pairs i 0 inside full one
    ∙ rw (next, send_messages_stuck fuel msg_size pairs i p q rest e fits over)
