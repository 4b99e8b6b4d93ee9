-- ===== src/ProcessCounter/Agreement.antt =====
-- proj01/src/pword.c beside proj01/src/tword.c.
use cs.Prelude.{
  ℕ, suc, ◌+◌, ◌≤◌, ◌<◌, ◌≡◌, ◌∙◌, refl, sym, ap, ap₂, subst, true, List, [], ◌∷◌, map, length,
  take, take-length, append-nil, arith, some, ok,
}
use cs.WordCount.Text.{Word}
use cs.WordCount.Counts.{count_of}
use cs.WordCount.Validity.{words, All, Positive}
use cs.WordCount.Sorted.{Ascending-ext}
use cs.WordCount.Parse.{
  NoNul, IsStored, occurrences, occurrences-nil, occurrences-append, parse_in_file-Counts,
}
use cs.WordCount.Stored.{AtMost, parse_in_file-IsStored, parse_in_file-AtMost}
use cs.WordCount.{Pair, WordCountArray, FileSystem, parse_in_file}
use cs.ThreadCounter
use cs.ThreadCounter.Correct.{
  file_words_open, AllOpen, IsSchedule, input_words, file_words, main-occurrences,
}
use cs.ProcessCounter.{
  Bytes, int_size, mq_eof_val, fill_message, message, eof_message, send_messages, run_child_actions,
  main,
}
use cs.ProcessCounter.Codec.{Sendable, encoded_size, fill_message_fits, fill_message_stop}
use cs.ProcessCounter.Sending.{send_end, send_last, then_send}
use cs.ProcessCounter.Delivery.{Sends, Carries, message-Carries, eof_message-IsEof}
use cs.ProcessCounter.Queue.{Child, carried_by, main-carried_by}
use cs.ProcessCounter.Interleaving.{Shuffle}

-- An array that fits into a message is sent in one, and then the end.
pub send_messages_fits :
    (msg_size : ℕ) (pairs : List Pair)
    → int_size + encoded_size pairs ≤ msg_size
    → Sendable pairs
    → length pairs < mq_eof_val
    → (messages : List Bytes) × (send_messages (length pairs + 1) msg_size pairs 0 ≡ ok messages)
      × Sends messages pairs
send_messages_fits msg_size [] fits h few = (
  eof_message msg_size ∷ [],
  send_end 0 msg_size [] 0 refl,
  Sends.ends (eof_message-IsEof msg_size),
)
send_messages_fits msg_size (p ∷ ps) fits h few =
    let pairs = p ∷ ps in
    let sent = fill_message msg_size int_size pairs in
    let partial = fill_message_fits msg_size int_size pairs fits in
    let all : sent.pairs_in_message ≡ length pairs =
      ground (arith, partial, fill_message_stop msg_size int_size pairs) in
    let whole : take sent.pairs_in_message pairs ≡ pairs =
      ap (λ k. take k pairs) all ∙ take-length pairs in
    let fuel : length pairs + 1 ≡ suc (suc (length ps)) = omega arith in
    (
      message msg_size sent.pairs_in_message sent.body ∷ eof_message msg_size ∷ [],
      ap (λ k. send_messages k msg_size pairs 0) fuel
          ∙ send_last (suc (length ps)) msg_size pairs 0 (omega arith) partial
          ∙ ap (then_send msg_size pairs 0)
              (send_end (length ps) msg_size pairs (length pairs) refl),
      Sends.sends
          (subst (Carries (message msg_size sent.pairs_in_message sent.body)) whole
            (message-Carries msg_size pairs h few))
          (Sends.ends (eof_message-IsEof msg_size)) (sym (append-nil pairs)),
    )

Sendable-of_stored :
    (n : ℕ) (ps : List Pair) → n < 2147483648 → All IsStored (words ps) → AtMost n ps → Sendable ps
Sendable-of_stored n [] lt h k = tt
Sendable-of_stored n (p ∷ ps) lt h k = ((h.0.1, omega arith), Sendable-of_stored n ps lt h.1 k.1)

length-le-encoded_size : (ps : List Pair) → length ps ≤ encoded_size ps
unfolding encoded_size
length-le-encoded_size [] = omega arith
length-le-encoded_size (p ∷ ps) = omega (arith, length-le-encoded_size ps)

-- The array of a text file whose pairs fit into one message.
pub record FitsOneMessage (files : FileSystem) (msg_size : ℕ) (name : Word) : Type 0 where
  pub file : List ℕ
  pub opens : files name ≡ some file
  pub text : NoNul file
  pub small : length file < 2147483648
  pub fits :
      (a : WordCountArray)
      → parse_in_file files name ≡ ok a
      → int_size + encoded_size a.pairs ≤ msg_size

-- What a child sends for such a file, and that it carries just the words of the file.
record Sender (files : FileSystem) (msg_size : ℕ) (name : Word) (queue : List Bytes) : Type 0 where
  pairs : List Pair
  sends : Sends queue pairs
  positive : Positive pairs
  counts : (v : Word) → count_of v pairs ≡ occurrences v (file_words files name)

run_child_fits :
    (files : FileSystem) (msg_size : ℕ) (name : Word)
    → msg_size ≤ 4096
    → FitsOneMessage files msg_size name
    → (queue : List Bytes) × (run_child_actions files msg_size name ≡ ok queue)
      × Sender files msg_size name queue
unfolding run_child_actions
run_child_fits files msg_size name valid f =
    let (a, run, c) = parse_in_file-Counts files name f.file f.opens in
    let few : length a.pairs < mq_eof_val =
      omega (arith, length-le-encoded_size a.pairs, f.fits a run, valid) in
    let sendable =
      Sendable-of_stored (length f.file) a.pairs f.small
        (parse_in_file-IsStored files name f.file a f.opens f.text run)
        (parse_in_file-AtMost files name f.file a f.opens run) in
    let (queue, sent, carries) = send_messages_fits msg_size a.pairs (f.fits a run) sendable few in
    (
      queue,
      rw (run, run_child_actions) sent,
      record {
        pairs = a.pairs;
        sends = carries;
        positive = c.positive;
        counts = λ v. c.counts v ∙ ap (occurrences v) (file_words_open files name f.file f.opens);
      },
    )

abbrev pub AllFit : FileSystem → ℕ → List Word → Type 0
AllFit files msg_size [] = Unit {0}
AllFit files msg_size (name ∷ names) =
    FitsOneMessage files msg_size name × AllFit files msg_size names

-- The queues are what the children of the files send, in the order of the files.
abbrev pub AllSend : FileSystem → ℕ → List Word → List (List Bytes) → Type 0
AllSend files msg_size [] queues = queues ≡ []
AllSend files msg_size (name ∷ names) [] = ⊥
AllSend files msg_size (name ∷ names) (queue ∷ queues) =
    (run_child_actions files msg_size name ≡ ok queue) × AllSend files msg_size names queues

record Children (files : FileSystem) (names : List Word) (queues : List (List Bytes)) : Type 0 where
  children : List Child
  messages : map (λ c. c.messages) children ≡ queues
  number : length children ≡ length names
  counts : (v : Word) → carried_by children v ≡ occurrences v (input_words files names)

Children-of :
    (files : FileSystem) (msg_size : ℕ) (names : List Word) (queues : List (List Bytes))
    → msg_size ≤ 4096
    → AllFit files msg_size names
    → AllSend files msg_size names queues
    → Children files names queues
unfolding carried_by input_words
Children-of files msg_size [] queues valid fit send = record {
  children = [];
  messages = sym send;
  number = refl;
  counts = λ v. sym (occurrences-nil v);
}
Children-of files msg_size (name ∷ names) [] valid fit send = absurd send
Children-of files msg_size (name ∷ names) (queue ∷ queues) valid fit send =
    let (sent, run, s) = run_child_fits files msg_size name valid fit.0 in
    let same : sent ≡ queue = cc (send.0) in
    let c = Children-of files msg_size names queues valid fit.1 send.1 in
    record {
      children =
          record { messages = sent; carried = s.pairs; sends = s.sends; positive = s.positive }
          ∷ c.children;
      messages = ap₂ ◌∷◌ same c.messages;
      number = ap suc c.number;
      counts = λ v. omega (
        arith,
        s.counts v,
        c.counts v,
        occurrences-append v (file_words files name) (input_words files names),
      );
    }

AllOpen-of_fit :
    (files : FileSystem) (msg_size : ℕ) (names : List Word)
    → AllFit files msg_size names
    → AllOpen files names
AllOpen-of_fit files msg_size [] fit = tt
AllOpen-of_fit files msg_size (name ∷ names) fit =
    ((fit.0.file, fit.0.opens), AllOpen-of_fit files msg_size names fit.1)

-- With messages of at most 4096 bytes, where every input file is text without NUL of less than 2^31
-- bytes whose array fits into one message, the process counter and the thread counter write the
-- same lines, in whatever order the messages arrive and the threads end.
pub main_agrees :
    (files : FileSystem) (msg_size : ℕ) (names : List Word) (queues : List (List Bytes))
    (arriving : List Bytes) (order : List ℕ)
    → msg_size ≤ 4096
    → AllFit files msg_size names
    → AllSend files msg_size names queues
    → Shuffle queues arriving
    → IsSchedule (length names) order
    → main arriving (length names) true ≡ ThreadCounter.main files names order true
main_agrees files msg_size names queues arriving order valid fit send s schedule =
    let c = Children-of files msg_size names queues valid fit send in
    let (lines, run, ascending, positive, counts) =
      main-carried_by c.children arriving (subst (λ q. Shuffle q arriving) (sym c.messages) s) in
    let (lines', run', ascending', positive', counts') =
      main-occurrences files names order (AllOpen-of_fit files msg_size names fit) schedule in
    let same =
      Ascending-ext lines lines' ascending ascending' positive positive'
        (λ v. counts v ∙ c.counts v ∙ sym (counts' v)) in
    ap (λ n. main arriving n true) (sym c.number) ∙ run ∙ ap ok same ∙ sym run'
