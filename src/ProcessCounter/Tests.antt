-- ===== src/ProcessCounter/Tests.antt =====
-- Runs of proj01/src/pword.c on two small files, and on words too long to share a message.
use cs.Prelude.{
  ◌≡◌, ◌<◌, ◌≤◌, ◌+◌, refl, List, [], ◌∷◌, ◌++◌, true, arith, replicate, take, ok, out_of_fuel, sym,
  ◌∙◌,
}
use cs.WordCount.Text.{Word}
use cs.WordCount.Counts.{count_of}
use cs.WordCount.Validity.{Positive}
use cs.WordCount.Sorted.{Ascending}
use cs.WordCount.Tests.{
  sample_files, first_file, second_file, first_array, second_array, parse_first, parse_second,
  first_text,
}
use cs.WordCount.{Pair, WordCountArray, add_pairs, init_word_count_array}
use cs.ThreadCounter
use cs.ThreadCounter.Tests.{sample_names, sample_order, sample-IsSchedule}
use cs.ProcessCounter.{
  Bytes, int_size, fill_message, message, eof_message, send_messages, receive_pairs,
  run_child_actions, main,
}
use cs.ProcessCounter.Codec.{Sendable, encoded_size, receive-fill}
use cs.ProcessCounter.Sending.{send_messages_stuck}
use cs.ProcessCounter.Delivery.{Sends, message-Carries, eof_message-IsEof}
use cs.ProcessCounter.Overcount.{Short, send_messages_ends, send_messages_overcount}
use cs.ProcessCounter.Queue.{Child, carried_by, main_received}
use cs.WordCount.Stored.{AtMost}
use cs.ProcessCounter.Interleaving.{Shuffle}
use cs.ProcessCounter.Agreement.{FitsOneMessage, main_agrees}

-- "A" twice and "B" once.
abbrev first_message : Bytes
first_message = message 128 2 (65 ∷ 0 ∷ 2 ∷ 0 ∷ 0 ∷ 0 ∷ 66 ∷ 0 ∷ 1 ∷ 0 ∷ 0 ∷ 0 ∷ [])

abbrev second_message : Bytes
second_message = message 128 1 (66 ∷ 0 ∷ 1 ∷ 0 ∷ 0 ∷ 0 ∷ [])

abbrev sample_queues : List (List Bytes)
sample_queues =
    (first_message ∷ eof_message 128 ∷ []) ∷ (second_message ∷ eof_message 128 ∷ []) ∷ []

abbrev sample_arriving : List Bytes
sample_arriving = second_message ∷ first_message ∷ eof_message 128 ∷ eof_message 128 ∷ []

sample-Shuffle : Shuffle sample_queues sample_arriving
sample-Shuffle = Shuffle.pick 1 refl (
    Shuffle.pick 0 refl
      (Shuffle.pick 0 refl (Shuffle.pick 1 refl (Shuffle.stop (refl, (refl, tt))))))

first_sent : run_child_actions sample_files 128 (1 ∷ []) ≡ ok (first_message ∷ eof_message 128 ∷ [])
unfolding run_child_actions
first_sent = rw (parse_first, run_child_actions) refl

second_sent :
    run_child_actions sample_files 128 (2 ∷ []) ≡ ok (second_message ∷ eof_message 128 ∷ [])
unfolding run_child_actions
second_sent = rw (parse_second, run_child_actions) refl

ok_injective : (a b : WordCountArray) → ok a ≡ ok b → a ≡ b
ok_injective a b e = cc

first_size : int_size + encoded_size first_array.pairs ≤ 128
unfolding encoded_size
first_size = omega arith

second_size : int_size + encoded_size second_array.pairs ≤ 128
unfolding encoded_size
second_size = omega arith

first_fits : FitsOneMessage sample_files 128 (1 ∷ [])
first_fits = record {
  file = first_file;
  opens = refl;
  text = first_text;
  small = omega arith;
  fits = λ a run. rw (ok_injective a first_array (sym run ∙ parse_first)) first_size;
}

second_fits : FitsOneMessage sample_files 128 (2 ∷ [])
second_fits = record {
  file = second_file;
  opens = refl;
  text = omega arith;
  small = omega arith;
  fits = λ a run. rw (ok_injective a second_array (sym run ∙ parse_second)) second_size;
}

main_agrees_example :
    main sample_arriving 2 true ≡ ThreadCounter.main sample_files sample_names sample_order true
main_agrees_example =
    main_agrees sample_files 128 sample_names sample_queues sample_arriving sample_order
      (omega arith) (first_fits, (second_fits, tt)) (first_sent, (second_sent, refl)) sample-Shuffle
      sample-IsSchedule

-- The two children, by what they carry.
first-Sends : Sends (first_message ∷ eof_message 128 ∷ []) (first_array.pairs ++ [])
unfolding fill_message
first-Sends =
    Sends.sends (message-Carries 128 first_array.pairs (omega arith) (omega arith))
      (Sends.ends (eof_message-IsEof 128)) refl

abbrev first_child : Child
first_child = record {
  messages = first_message ∷ eof_message 128 ∷ [];
  carried = first_array.pairs ++ [];
  sends = first-Sends;
  positive = omega arith;
}

first_carried : (v : Word) → carried_by (first_child ∷ []) v ≤ 2147483647
unfolding carried_by count_of
first_carried v = ground arith

main_received_example :
    (lines : List Pair) × (main (first_message ∷ eof_message 128 ∷ []) 1 true ≡ ok lines)
    × Ascending lines
    × Positive lines
    × AtMost 2147483647 lines
    × ((v : Word) → count_of v lines ≡ carried_by (first_child ∷ []) v)
main_received_example =
    main_received (first_child ∷ []) (first_message ∷ eof_message 128 ∷ [])
      (Shuffle.pick 0 refl (Shuffle.pick 0 refl (Shuffle.stop (refl, tt)))) first_carried

-- Words of 60 and 61 bytes.
abbrev long_pairs : List Pair
long_pairs =
    record { word = replicate 60 65; count = 3 }
    ∷ record { word = replicate 61 66; count = 5 }
    ∷ record { word = replicate 60 67; count = 7 }
    ∷ []

long_Short : Short long_pairs
long_Short = omega arith

long_Sendable : Sendable long_pairs
long_Sendable = omega arith

send_messages_ends_example :
    (messages : List Bytes) × (carried : List Pair) × (send_messages 4 140 long_pairs 0
      ≡ ok messages)
    × Sends messages carried
    × ((v : Word) → count_of v long_pairs ≤ count_of v carried)
send_messages_ends_example =
    send_messages_ends 140 long_pairs (omega arith) long_Short long_Sendable (omega arith)

long_over : 140 < int_size + encoded_size long_pairs
unfolding encoded_size
long_over = omega arith

send_messages_overcount_example :
    (messages : List Bytes) × (carried : List Pair) × (v : Word) × (send_messages 4 140 long_pairs 0
      ≡ ok messages)
    × Sends messages carried
    × (count_of v long_pairs < count_of v carried)
send_messages_overcount_example =
    send_messages_overcount 140 long_pairs (omega arith) long_Short long_Sendable (omega arith)
      (omega arith) long_over

one_fits : int_size + encoded_size (record { word = replicate 60 65; count = 3 } ∷ []) ≤ 128
unfolding encoded_size
one_fits = omega arith

two_over :
    128
    < int_size
      + encoded_size (
          record { word = replicate 60 65; count = 3 }
          ∷ record { word = replicate 61 66; count = 5 }
          ∷ [])
unfolding encoded_size
two_over = omega arith

send_messages_stuck_example : send_messages 100 128 long_pairs 0 ≡ out_of_fuel
send_messages_stuck_example =
    send_messages_stuck 100 128 long_pairs 0 (record { word = replicate 60 65; count = 3 })
      (record { word = replicate 61 66; count = 5 })
      (record { word = replicate 60 67; count = 7 } ∷ []) refl one_fits two_over

receive-fill_example :
    let sent = fill_message 128 4 first_array.pairs in
    receive_pairs sent.pairs_in_message (sent.body ++ (0 ∷ 0 ∷ [])) init_word_count_array
    ≡ ok (add_pairs init_word_count_array (take sent.pairs_in_message first_array.pairs))
receive-fill_example =
    receive-fill 128 4 first_array.pairs (0 ∷ 0 ∷ []) init_word_count_array (omega arith)
