-- ===== src/ProcessCounter/Overcount.antt =====
-- A child of proj01/src/pword.c whose array may need more than one message.
use cs.Prelude.{
  ℕ, zero, suc, ◌+◌, ◌-◌, ◌≤◌, ◌<◌, ◌≡◌, ◌∙◌, refl, sym, ap, subst, true, false, List, [], ◌∷◌,
  ◌++◌, length, take, drop, length-drop, drop-length, drop-drop, drop_cons, take-length,
  take-append-drop, append-nil, dec_lt, inl, inr, arith, ok,
}
use cs.WordCount.Text.{Word}
use cs.WordCount.Counts.{count_of, count_of-append, count_of_head, count_of-cons-le}
use cs.WordCount.Validity.{Positive}
use cs.WordCount.{Pair}
use cs.ProcessCounter.{Bytes, int_size, mq_eof_val, fill_message, message, send_messages}
use cs.ProcessCounter.Codec.{fill_message_overflows, encoded_size, fill_message_stop, Sendable}
use cs.ProcessCounter.Sending.{send_end, send_last, send_again, then_send}
use cs.ProcessCounter.Delivery.{Carries, Sends, message-Carries, eof_message-IsEof}

-- The words are no longer than `fscanf` with %63s reads.
abbrev pub Short : List Pair → Type 0
Short [] = Unit {0}
Short (p ∷ ps) = (length p.word ≤ 63) × Short ps

Short-drop : (i : ℕ) (ps : List Pair) → Short ps → Short (drop i ps)
Short-drop zero ps h = h
Short-drop (suc i) [] h = tt
Short-drop (suc i) (p ∷ ps) h = Short-drop i ps h.1

Sendable-drop : (i : ℕ) (ps : List Pair) → Sendable ps → Sendable (drop i ps)
Sendable-drop zero ps h = h
Sendable-drop (suc i) [] h = tt
Sendable-drop (suc i) (p ∷ ps) h = Sendable-drop i ps h.1

Positive-drop : (i : ℕ) (ps : List Pair) → Positive ps → Positive (drop i ps)
Positive-drop zero ps h = h
Positive-drop (suc i) [] h = tt
Positive-drop (suc i) (p ∷ ps) h = Positive-drop i ps h.1

-- Two short pairs always fit beside one another, so a message that is full has two at least.
full_two :
    (msg_size : ℕ) (ps : List Pair)
    → 140 ≤ msg_size
    → Short ps
    → (fill_message msg_size int_size ps).full ≡ true
    → 2 ≤ (fill_message msg_size int_size ps).pairs_in_message
unfolding fill_message
full_two msg_size [] wide h full = cc
full_two msg_size (p ∷ []) wide h full = ground arith
full_two msg_size (p ∷ q ∷ ps) wide h full = ground arith

-- What the child sends from index `i` on: every pair once at least, and after a full message some
-- word too often.
record Sent (fuel msg_size : ℕ) (pairs : List Pair) (i : ℕ) : Type 0 where
  messages : List Bytes
  carried : List Pair
  run : send_messages fuel msg_size pairs i ≡ ok messages
  sends : Sends messages carried
  enough : (v : Word) → count_of v (drop i pairs) ≤ count_of v carried
  too_much :
      (fill_message msg_size int_size (drop i pairs)).full ≡ true
      → Positive pairs
      → (v : Word) × (count_of v (drop i pairs) < count_of v carried)

count_split :
    (v : Word) (n : ℕ) (ps : List Pair)
    → count_of v ps ≡ count_of v (take n ps) + count_of v (drop n ps)
count_split v n ps =
    ap (count_of v) (sym (take-append-drop n ps)) ∙ count_of-append v (take n ps) (drop n ps)

end_full :
    (msg_size : ℕ) (ps : List Pair) → ps ≡ [] → (fill_message msg_size int_size ps).full ≡ true → ⊥
unfolding fill_message
end_full msg_size ps e full = cc (rw e at full)

module _ (msg_size : ℕ) (pairs : List Pair) (wide : 140 ≤ msg_size) (short : Short pairs)
    (sendable : Sendable pairs) (few : length pairs < mq_eof_val) where
  Sent-end : (fuel i : ℕ) → i ≡ length pairs → Sent (suc fuel) msg_size pairs i
  Sent-end fuel i e =
      let nothing : drop i pairs ≡ [] = ap (λ k. drop k pairs) e ∙ drop-length pairs in
      record {
        messages = _;
        carried = [];
        run = send_end fuel msg_size pairs i e;
        sends = Sends.ends (eof_message-IsEof msg_size);
        enough = λ v. omega (arith, ap (count_of v) nothing);
        too_much = λ full pos. absurd (end_full msg_size (drop i pairs) nothing full);
      }

  Sent-last :
      (fuel i : ℕ)
      → i < length pairs
      → (fill_message msg_size int_size (drop i pairs)).full ≡ false
      → (fill_message msg_size int_size (drop i pairs)).pairs_in_message ≡ length (drop i pairs)
      → Sent (suc (suc fuel)) msg_size pairs i
  Sent-last fuel i lt partial all =
      let whole : take (fill_message msg_size int_size (drop i pairs)).pairs_in_message
            (drop i pairs)
          ≡ drop i pairs =
        ap (λ k. take k (drop i pairs)) all ∙ take-length (drop i pairs) in
      record {
        messages = _;
        carried = drop i pairs;
        run =
            send_last (suc fuel) msg_size pairs i (omega arith) partial
            ∙ ap (then_send msg_size pairs i) (send_end fuel msg_size pairs (length pairs) refl);
        sends =
            Sends.sends
              (subst (Carries _) whole (
                message-Carries msg_size (drop i pairs) (Sendable-drop i pairs sendable)
                  (omega (arith, length-drop i pairs))))
              (Sends.ends (eof_message-IsEof msg_size)) (sym (append-nil (drop i pairs)));
        enough = λ v. omega arith;
        too_much = λ full pos. absurd (ground arith);
      }

  Sent-again :
      (fuel i m : ℕ)
      → i < length pairs
      → (fill_message msg_size int_size (drop i pairs)).full ≡ true
      → (fill_message msg_size int_size (drop i pairs)).pairs_in_message ≡ suc m
      → suc m < length (drop i pairs)
      → Sent fuel msg_size pairs (i + m)
      → Sent (suc fuel) msg_size pairs i
  Sent-again fuel i m lt full one inside next =
      let here = drop i pairs in
      let sent = fill_message msg_size int_size here in
      let (b, at) = drop_cons m here (omega arith) in
      let later : (v : Word) → count_of v (b ∷ drop (suc m) here) ≤ count_of v next.carried =
        λ v. omega (arith, next.enough v, ap (count_of v) (drop-drop i m pairs ∙ at)) in
      record {
        messages = _;
        carried = take (suc m) here ++ next.carried;
        run =
            send_again fuel msg_size pairs i m (omega arith) full one
            ∙ ap (then_send msg_size pairs i) next.run;
        sends =
            Sends.sends
              (subst (λ k. Carries (message msg_size sent.pairs_in_message sent.body) (take k here))
                one
                (message-Carries msg_size here (Sendable-drop i pairs sendable)
                  (omega (arith, length-drop i pairs))))
              next.sends refl;
        enough = λ v. omega (
          arith,
          later v,
          count_split v (suc m) here,
          count_of-append v (take (suc m) here) next.carried,
          count_of-cons-le v b (drop (suc m) here),
        );
        too_much = λ _ positive. (
          b.word,
          omega (
            arith,
            later b.word,
            count_split b.word (suc m) here,
            count_of-append b.word (take (suc m) here) next.carried,
            count_of_head b (drop (suc m) here),
            (subst Positive at (Positive-drop m here (Positive-drop i pairs positive))).0,
          ),
        );
      }

  one_more :
      (fuel i : ℕ)
      → i < length pairs
      → (fill_message msg_size int_size (drop i pairs)).full ≡ false
      → (fill_message msg_size int_size (drop i pairs)).pairs_in_message ≡ length (drop i pairs)
      → 0 < fuel
      → Sent (suc fuel) msg_size pairs i
  one_more zero i lt partial all pos = absurd (omega arith)
  one_more (suc fuel) i lt partial all pos = Sent-last fuel i lt partial all

-- With messages of at least 140 bytes (of the sizes that `parse_arguments` allows, all but 128) and
-- words as `fscanf` yields them, the child comes to its end within its fuel.
Sent-from :
    (msg_size : ℕ) (pairs : List Pair) (fuel i : ℕ)
    → 140 ≤ msg_size
    → Short pairs
    → Sendable pairs
    → length pairs < mq_eof_val
    → i ≤ length pairs
    → length pairs < fuel + i
    → Sent fuel msg_size pairs i
Sent-from msg_size pairs zero i wide short sendable few le lt = absurd (omega arith)
Sent-from msg_size pairs (suc fuel) i wide short sendable few le lt =
    elim (dec_lt i (length pairs)) [
      | no at ↦ Sent-end msg_size pairs wide short sendable few fuel i (omega arith)
      | yes inside ↦ elim (fill_message_stop msg_size int_size (drop i pairs)) [
        | inl (partial, all) ↦
            one_more msg_size pairs wide short sendable few fuel i inside partial all (omega arith)
        | inr (full, before) ↦
            let sent = fill_message msg_size int_size (drop i pairs) in
            let two = full_two msg_size (drop i pairs) wide (Short-drop i pairs short) full in
            let m = sent.pairs_in_message - 1 in
            let one : sent.pairs_in_message ≡ suc m = omega arith in
            Sent-again msg_size pairs wide short sendable few fuel i m inside full one (omega arith)
              (Sent-from msg_size pairs fuel (i + m) wide short sendable few
                (omega (arith, length-drop i pairs)) (omega (arith, length-drop i pairs)))
      ]
    ]

-- With messages of at least 140 bytes, and fewer than 2^32 - 1 pairs of words of at most 63 bytes
-- without NUL and counts below 2^31, the loop of a child ends within its fuel, and its messages
-- carry every word at least as often as the array counts it.
pub send_messages_ends :
    (msg_size : ℕ) (pairs : List Pair)
    → 140 ≤ msg_size
    → Short pairs
    → Sendable pairs
    → length pairs < mq_eof_val
    → (messages : List Bytes) × (carried : List Pair) × (send_messages
          (length pairs + 1)
          msg_size
          pairs
          0
        ≡ ok messages)
      × Sends messages carried
      × ((v : Word) → count_of v pairs ≤ count_of v carried)
send_messages_ends msg_size pairs wide short sendable few =
    let s =
      Sent-from msg_size pairs (length pairs + 1) 0 wide short sendable few (omega arith)
        (omega arith) in
    (s.messages, s.carried, s.run, s.sends, s.enough)

-- With messages of at least 140 bytes, and fewer than 2^32 - 1 pairs of words of at most 63 bytes
-- without NUL and positive counts below 2^31 that do not all fit into one message, the messages of
-- a child carry some word more often than the array counts it.
pub send_messages_overcount :
    (msg_size : ℕ) (pairs : List Pair)
    → 140 ≤ msg_size
    → Short pairs
    → Sendable pairs
    → Positive pairs
    → length pairs < mq_eof_val
    → msg_size < int_size + encoded_size pairs
    → (messages : List Bytes) × (carried : List Pair) × (v : Word) × (send_messages
          (length pairs + 1)
          msg_size
          pairs
          0
        ≡ ok messages)
      × Sends messages carried
      × (count_of v pairs < count_of v carried)
send_messages_overcount msg_size pairs wide short sendable positive few over =
    let s =
      Sent-from msg_size pairs (length pairs + 1) 0 wide short sendable few (omega arith)
        (omega arith) in
    let (v, more) =
      s.too_much (fill_message_overflows msg_size int_size pairs (omega arith) over) positive in
    (s.messages, s.carried, v, s.run, s.sends, more)
