-- ===== src/ProcessCounter/Queue.antt =====
-- The message queue of proj01/src/pword.c, with the messages of the children interleaved, each
-- child's in its own order.
use cs.Prelude.{
  length, ℕ, suc, ◌+◌, ◌≤◌, ◌≡◌, ◌∙◌, refl, true, false, List, [], ◌∷◌, map, arith, ok, ◌==◌,
}
use cs.WordCount.Text.{Word}
use cs.WordCount.Counts.{count_of, count_of-add_pairs}
use cs.WordCount.Validity.{
  IsValid, Positive, init-IsValid, init-Positive, add_pairs-IsValid, add_pairs-Positive,
}
use cs.WordCount.Sorted.{Ascending, write_output_file_lem}
use cs.WordCount.Parse.{init-count}
use cs.WordCount.Stored.{AtMost, AtMost-of_counts}
use cs.WordCount.{Pair, WordCountArray, init_word_count_array, add_pairs}
use cs.ProcessCounter.{Bytes, mq_eof_val, await_child_processes, main}
use cs.ProcessCounter.Delivery.{Sends, Carries, IsEof}
use cs.ProcessCounter.Interleaving.{Due, Due-later, Due-none, Due-pick, Picked, Shuffle}

record Awaited (a r : WordCountArray) (total : Word → ℕ) : Type 0 where
  valid : IsValid r
  positive : Positive r.pairs
  counts : (v : Word) → count_of v r.pairs ≡ count_of v a.pairs + total v

await_eof :
    (bytes : Bytes) (messages : List Bytes) (k : ℕ) (a : WordCountArray)
    → IsEof bytes
    → await_child_processes (bytes ∷ messages) (suc k) a ≡ await_child_processes messages k a
unfolding await_child_processes
await_eof bytes messages k a end = rw (end.read, await_child_processes)

await_pairs :
    (bytes : Bytes) (messages : List Bytes) (k : ℕ) (a : WordCountArray) (ps : List Pair)
    → Carries bytes ps
    → await_child_processes (bytes ∷ messages) (suc k) a
      ≡ await_child_processes messages (suc k) (add_pairs a ps)
unfolding await_child_processes
await_pairs bytes messages k a ps c =
    let test : (c.count == mq_eof_val) ≡ false = ground (arith, c.not_eof) in
    rw (c.read, await_child_processes, test, c.adds a)

await-Shuffle :
    {queues : List (List Bytes)} {messages : List Bytes} (n : ℕ) (total : Word → ℕ)
    (a : WordCountArray)
    → Shuffle queues messages
    → Due queues n total
    → IsValid a
    → Positive a.pairs
    → (r : WordCountArray) × (await_child_processes messages n a ≡ ok r) × Awaited a r total
await-Shuffle {queues} n total a (Shuffle.stop sent) d v h =
    let (none_left, zero_total) = Due-none queues n total sent d in
    (
      a,
      rw none_left (unfold await_child_processes in refl),
      record { valid = v; positive = h; counts = λ w. omega (arith, zero_total w) },
    )
await-Shuffle {queues} n total a (Shuffle.pick {bytes} {later} {messages} i e s) d v h =
    elim (Due-pick queues i n total bytes later e d) [
      | Picked.ended k end at rest ↦
          let (r, run, w) = await-Shuffle k total a s rest v h in
          (r, rw at (await_eof bytes messages k a end ∙ run), w)
      | Picked.carried k ps left c p at f rest ↦
          let (r, run, w) =
            await-Shuffle n left (add_pairs a ps) s rest (add_pairs-IsValid a ps v)
              (add_pairs-Positive a ps p h) in
          (
            r,
            rw at (await_pairs bytes messages k a ps c ∙ rw at at run),
            record {
              valid = w.valid;
              positive = w.positive;
              counts = λ u. omega (arith, w.counts u, count_of-add_pairs u a ps, f u);
            },
          )
    ]

-- A child: what it sends, and what that carries.
pub record Child : Type 0 where
  pub messages : List Bytes
  pub carried : List Pair
  pub sends : Sends messages carried
  pub positive : Positive carried

unfoldable pub carried_by : List Child → Word → ℕ
carried_by [] v = 0
carried_by (c ∷ children) v = count_of v c.carried + carried_by children v

Due-children :
    (children : List Child)
    → Due (map (λ c. c.messages) children) (length children) (carried_by children)
unfolding carried_by
Due-children [] = (refl, λ v. refl)
Due-children (c ∷ children) =
    Due-later c.messages c.carried (map (λ d. d.messages) children) (suc (length children))
      (length children) (carried_by (c ∷ children)) (carried_by children) c.sends c.positive refl
      (λ v. refl) (Due-children children)

-- Where each child sends messages that carry pairs with positive counts and then its end, the
-- parent receives them all, in whatever order they arrive, and writes each word with the number of
-- times that all children together carry it, in strictly ascending order of the words.
pub main-carried_by :
    (children : List Child) (arriving : List Bytes)
    → Shuffle (map (λ c. c.messages) children) arriving
    → (lines : List Pair) × (main arriving (length children) true ≡ ok lines)
      × Ascending lines
      × Positive lines
      × ((v : Word) → count_of v lines ≡ carried_by children v)
unfolding main
main-carried_by children arriving s =
    let (total, run, w) =
      await-Shuffle (length children) (carried_by children) init_word_count_array s
        (Due-children children) init-IsValid init-Positive in
    let (lines, written, ascending, positive, counts) =
      write_output_file_lem total w.valid.distinct w.positive in
    (
      lines,
      rw (run, main) written,
      ascending,
      positive,
      λ v. counts v ∙ w.counts v ∙ init-count v (carried_by children v),
    )

-- Where each child sends messages that carry pairs with positive counts and then its end, and no word is
-- carried more than 2 ^ 31 - 1 times in all, so that every count that is received or added up is an
-- `int`, the parent receives them all, in whatever order they arrive, and writes each word with the
-- number of times that all children together carry it, in strictly ascending order of the words; all
-- these numbers are positive and an `int`.
pub main_received :
    (children : List Child) (arriving : List Bytes)
    → Shuffle (map (λ c. c.messages) children) arriving
    → ((v : Word) → carried_by children v ≤ 2147483647)
    → (lines : List Pair) × (main arriving (length children) true ≡ ok lines)
      × Ascending lines
      × Positive lines
      × AtMost 2147483647 lines
      × ((v : Word) → count_of v lines ≡ carried_by children v)
main_received children arriving s small =
    let (lines, run, ascending, positive, counts) = main-carried_by children arriving s in
    (
      lines,
      run,
      ascending,
      positive,
      AtMost-of_counts 2147483647 lines (λ v. omega (arith, counts v, small v)),
      counts,
    )
