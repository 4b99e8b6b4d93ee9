-- ===== src/ThreadCounter/Tests.antt =====
-- A run of proj01/src/tword.c on two small files whose threads end in the opposite order.
use cs.Prelude.{ℕ, zero, suc, ◌≡◌, ◌<◌, ◌≤◌, refl, List, [], ◌∷◌, true, inl, inr, arith, ok}
use cs.WordCount.Text.{Word}
use cs.WordCount.Counts.{count_of}
use cs.WordCount.Validity.{Positive}
use cs.WordCount.Sorted.{Ascending}
use cs.WordCount.Parse.{occurrences}
use cs.WordCount.Tests.{sample_files, first_file, second_file}
use cs.WordCount.{Pair}
use cs.ThreadCounter.Correct.{IsSchedule, Ended, input_words}
use cs.ThreadCounter.Bounds.{input_size, main_counts}
use cs.WordCount.Stored.{AtMost}
use cs.ThreadCounter.{main}

abbrev pub sample_names : List Word
sample_names = (1 ∷ []) ∷ (2 ∷ []) ∷ []

abbrev pub sample_order : List ℕ
sample_order = 1 ∷ 0 ∷ []

sample_joined : (i : ℕ) → i < 2 → Ended i sample_order
sample_joined zero h = inr (inl refl)
sample_joined (suc zero) h = inl refl
sample_joined (suc (suc i)) h = absurd (omega arith)

pub sample-IsSchedule : IsSchedule 2 sample_order
sample-IsSchedule = record { started = λ i h. ground arith; joined = sample_joined }

few_bytes : input_size sample_files sample_names ≤ 2147483647
unfolding input_size
few_bytes = omega arith

main_counts_example :
    (lines : List Pair) × (main sample_files sample_names sample_order true ≡ ok lines)
    × Ascending lines
    × Positive lines
    × AtMost 2147483647 lines
    × ((v : Word) → count_of v lines ≡ occurrences v (input_words sample_files sample_names))
main_counts_example =
    main_counts sample_files sample_names sample_order
      ((first_file, refl), ((second_file, refl), tt)) sample-IsSchedule few_bytes
