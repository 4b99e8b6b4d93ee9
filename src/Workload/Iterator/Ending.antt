-- ===== src/Workload/Iterator/Ending.antt =====
-- The program of proj02/src from its parameters to its end: the processes of the generator, run by the
-- threads.
use cs.Prelude.{ℕ, zero, suc, ◌*◌, ◌≤◌, ◌≡◌, ◌≢◌, refl, List, [], ◌∷◌, length, ok, arith, ltb}
use cs.Prelude.Int.{◌≤ℤ◌, ℤ, pos, pos_part}
use cs.Scheduling.{Doubles}
use cs.Scheduling.Runqueue.{Op}
use cs.Scheduling.Weights.{IsPriority}
use cs.Dispatch.{System, exited}
use cs.Dispatch.Steps.{initial}
use cs.Dispatch.Counting.{sum_to, sum_to-same}
use cs.Dispatch.Invariant.{ind}
use cs.Dispatch.Safety.{IsWorkload}
use cs.Dispatch.Progress.{CanMove}
use cs.Dispatch.Ending.{Moves, run_bound, run_ends}
use cs.Workload.{ProcessParams, WorkloadCommandlineParams, WorkloadCommonParams}
use cs.Workload.Iterator.{
  Reals, init_params_iterator, generated, process_block, nth_process, generator_block,
}
use cs.Workload.Iterator.Draws.{Enough}
use cs.Workload.Iterator.Generator.{
  IsValid, IsRunnable, AllRunnable, commandline_store_of, generated_commandline, found_queues,
}

nth-IsRunnable :
    (processes : List ProcessParams) (i : ℕ)
    → AllRunnable processes
    → 1 ≤ i
    → i ≤ length processes
    → IsRunnable (nth_process processes i)
unfolding nth_process
nth-IsRunnable [] i all low high = absurd (omega arith)
nth-IsRunnable (process ∷ processes) zero all low high = absurd (omega arith)
nth-IsRunnable (process ∷ processes) (suc zero) (first, all) low high = first
nth-IsRunnable (process ∷ processes) (suc (suc i)) (first, all) low high =
    nth-IsRunnable processes (suc i) all (omega arith) (omega arith)

nth_priority :
    (processes : List ProcessParams) (i : ℕ)
    → AllRunnable processes
    → IsPriority (nth_process processes i).priority
unfolding nth_process
nth_priority [] i all = omega arith
nth_priority (process ∷ processes) zero all = omega arith
nth_priority (process ∷ processes) (suc zero) (first, all) = first.0
nth_priority (process ∷ processes) (suc (suc i)) (first, all) = nth_priority processes (suc i) all

sum_to-one : (n : ℕ) → sum_to n (λ i. 1) ≡ n
unfolding sum_to
sum_to-one zero = refl
sum_to-one (suc n) = omega (arith, sum_to-one n)

runnable_reports : (length : ℤ) → pos 1 ≤ℤ length → ind (ltb 0 (pos_part length)) ≡ 1
runnable_reports length long = ground arith

module _ (d : Doubles) where
  generator_block-IsWorkload :
      (processes : List ProcessParams) (total : ℕ)
      → length processes ≡ total
      → AllRunnable processes
      → IsWorkload d total (generator_block d processes) total 0
  unfolding generator_block process_block
  generator_block-IsWorkload processes total count all = record {
    numbered = λ pid. refl;
    fresh = λ pid. refl;
    counted =
        let same =
          sum_to-same total (λ i. 1)
            (λ pid. ind (ltb 0 (pos_part (nth_process processes pid).length)))
            (λ pid low high.
              let (_, long) = nth-IsRunnable processes pid all low (omega (arith, count)) in
              runnable_reports (nth_process processes pid).length long) in
        omega (arith, same, sum_to-one total);
  }

  generator_block-priority :
      (processes : List ProcessParams) (pid : ℕ)
      → AllRunnable processes
      → IsPriority (generator_block d processes pid).priority
  unfolding generator_block process_block
  generator_block-priority processes pid all = nth_priority processes pid all

  -- With fixed or uniform lengths of at least 1 and times, nice values in the table, intervals that are
  -- not empty and have at most RAND_MAX numbers, a greatest length of the runqueue other than 0, and a
  -- count of processes that is not negative: whatever numbers `rand` returns, three for each process,
  -- and whatever runqueue the generator finds after each process when it asks for the count, it
  -- creates all processes, and with them every run of the threads is bounded, by 30 steps for each
  -- millisecond of the lengths, 28 for each process and 3 more; and when no thread can go on, the
  -- scheduler thread has ended, and each process has run for exactly its length.
  pub commandline_run_ends :
      (r : Reals) (params : WorkloadCommandlineParams) (common : WorkloadCommonParams) (total : ℕ)
      (draws : List ℕ) (observed : List (List Op))
      → IsValid params
      → common.total_process_count ≡ pos total
      → common.max_runqueue_length ≢ pos 0
      → Enough (total * 3) draws
      → total ≤ length observed
      → (processes : List ProcessParams) × (generated r
            (suc total)
            (init_params_iterator (commandline_store_of r params common))
            draws
            (found_queues observed)
          ≡ ok processes)
        × (length processes ≡ total)
        × ((k : ℕ) (t : System d)
            → Moves d total (initial d total (generator_block d processes) total) k t
            → (k ≤ run_bound d total (generator_block d processes))
              × (¬ CanMove d total t
                  → (t.scheduler ≡ exited)
                    × ((pid : ℕ)
                        → 1 ≤ pid
                        → pid ≤ total
                        → (t.process pid).pcb.cpu_time
                          ≡ (generator_block d processes pid).process_length)))
  commandline_run_ends r params common total draws observed valid count room enough seen =
      let (processes, run, many, all) =
        generated_commandline r params common total draws observed valid count room enough seen in
      (
        processes,
        run,
        many,
        run_ends d total (generator_block d processes) total
            (generator_block-IsWorkload processes total many all)
            (λ pid. generator_block-priority processes pid all),
      )
