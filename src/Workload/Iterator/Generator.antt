-- ===== src/Workload/Iterator/Generator.antt =====
-- What the generator of proj02/src creates from parameters of the command line, and from a file.
use cs.Prelude.{
  ℕ, zero, suc, ◌+◌, ◌*◌, ◌≤◌, ◌≡◌, ◌≢◌, refl, sym, ap, subst, ◌∙◌, true, false, List, [], ◌∷◌,
  length, some, none, ok, out_of_fuel, map, arith, if_true, if_false,
}
use cs.Prelude.Int.{ℤ, pos, negsuc, ltb_ℤ, ◌≤ℤ◌}
use cs.Paging.Input.{equal_ℤ}
use cs.Scheduling.{Queue, runqueue_init, get_runqueue_item_count}
use cs.Scheduling.Runqueue.{Op, run_ops, get_runqueue_item_count_zero}
use cs.Scheduling.Weights.{IsPriority}
use cs.Workload.{
  wl_param_commandline, wl_param_file, WorkloadCommandlineParams, WorkloadCommonParams,
  ProcessParams, WorkloadParamStore,
}
use cs.Workload.Iterator.{
  Reals, ProcessIterator, init_params_iterator, has_next_process, get_distributed_process_length,
  get_distributed_interarrival_time, random_process, get_next_process, generated, await_room,
}
use cs.Workload.Iterator.Draws.{
  IsInterval, Enough, draw_in_range_lem, IsDirect, get_distributed_lem,
}

-- Parameters with nice values in the table and lengths of at least 1.
pub record IsValid (params : WorkloadCommandlineParams) : Type 0 where
  pub lowest : IsPriority params.min_priority
  pub highest : IsPriority params.max_priority
  pub priorities : IsInterval params.min_priority params.max_priority
  pub lengths :
      IsDirect params.process_length_distribution params.average_process_length
        params.min_process_length params.max_process_length
        (pos 1)
  pub times :
      IsDirect params.interarrival_time_distribution params.average_interarrival_time
        params.min_interarrival_time params.max_interarrival_time
        (pos 0)

-- A process that the scheduler can bring to its end.
abbrev pub IsRunnable : ProcessParams → Type 0
IsRunnable process = IsPriority process.priority × (pos 1 ≤ℤ process.length)

abbrev pub AllRunnable : List ProcessParams → Type 0
AllRunnable [] = Unit
AllRunnable (process ∷ processes) = IsRunnable process × AllRunnable processes

IsPriority-between : (a v b : ℤ) → IsPriority a → IsPriority b → a ≤ℤ v → v ≤ℤ b → IsPriority v
IsPriority-between a v b low high le le' = ground arith

zero_differs : (n : ℤ) → n ≢ pos 0 → equal_ℤ (pos 0) n ≡ false
zero_differs (pos zero) ne = absurd (ne refl)
zero_differs (pos (suc n)) ne = ground arith
zero_differs (negsuc n) ne = ground arith

-- The runqueues that the generator finds, each after some additions and removals.
abbrev pub found_queues : List (List Op) → List Queue
found_queues observed = map (λ ops. run_ops runqueue_init ops) observed

-- The count is always 0, so that the generator goes on at once, unless it waits for another count than 0.
await_room-next :
    (max_runqueue_length : ℤ) (ops : List Op) (observed : List (List Op))
    → max_runqueue_length ≢ pos 0
    → await_room max_runqueue_length (found_queues (ops ∷ observed)) ≡ ok (found_queues observed)
unfolding await_room
await_room-next max_runqueue_length ops observed ne =
    let test : equal_ℤ (pos (get_runqueue_item_count (run_ops runqueue_init ops)))
          max_runqueue_length
        ≡ false =
      rw (get_runqueue_item_count_zero ops) (zero_differs max_runqueue_length ne) in
    if_false _ _ _ _ test refl

-- With a greatest length of 0 the wait never ends.
pub await_room_stuck :
    (observed : List (List Op)) → await_room (pos 0) (found_queues observed) ≡ out_of_fuel
unfolding await_room
await_room_stuck [] = refl
await_room_stuck (ops ∷ observed) =
    let test : equal_ℤ (pos (get_runqueue_item_count (run_ops runqueue_init ops))) (pos 0) ≡ true =
      rw (get_runqueue_item_count_zero ops) refl in
    if_true _ _ _ _ test (await_room_stuck observed)

module _ (r : Reals) where
  random_process_lem :
      (params : WorkloadCommandlineParams) (n : ℕ) (draws : List ℕ)
      → IsValid params
      → Enough (suc (suc (suc n))) draws
      → (process : ProcessParams) × (rest : List ℕ) × (random_process r params draws
          ≡ ok (process, rest))
        × IsRunnable process
        × Enough n rest
  unfolding random_process get_distributed_process_length get_distributed_interarrival_time
  random_process_lem params n draws valid enough =
      let (priority, draws1, run1, low, high, left1) =
        draw_in_range_lem params.min_priority params.max_priority (suc (suc n)) draws
          valid.priorities enough in
      let (process_length, draws2, run2, long, left2) =
        get_distributed_lem r params.process_length_distribution params.average_process_length
          params.min_process_length params.max_process_length (pos 1) (suc n) draws1 valid.lengths
          left1 in
      let (interarrival_time, draws3, run3, _, left3) =
        get_distributed_lem r params.interarrival_time_distribution params.average_interarrival_time
          params.min_interarrival_time params.max_interarrival_time (pos 0) n draws2 valid.times
          left2 in
      (
        record {
          length = process_length;
          priority = priority;
          interarrival_time = interarrival_time;
        },
        draws3,
        rw (run1, run2, run3) refl,
        (IsPriority-between _ _ _ valid.lowest valid.highest low high, long),
        left3,
      )

  abbrev pub commandline_store_of :
      WorkloadCommandlineParams → WorkloadCommonParams → WorkloadParamStore
  commandline_store_of params common = record {
    param_mode = wl_param_commandline;
    common_params = common;
    commandline_params = some params;
    file_params = none;
  }

  abbrev at_iteration : WorkloadCommandlineParams → WorkloadCommonParams → ℕ → ProcessIterator
  at_iteration params common count = record {
    param_store = commandline_store_of params common;
    next_process_params = [];
    iteration_count = count;
  }

  generated_from :
      (params : WorkloadCommandlineParams) (common : WorkloadCommonParams) (k count : ℕ)
      (draws : List ℕ) (observed : List (List Op))
      → IsValid params
      → common.total_process_count ≡ pos (count + k)
      → common.max_runqueue_length ≢ pos 0
      → Enough (k * 3) draws
      → k ≤ length observed
      → (processes : List ProcessParams) × (generated r
            (suc k)
            (at_iteration params common count)
            draws
            (found_queues observed)
          ≡ ok processes)
        × (length processes ≡ k)
        × AllRunnable processes
  unfolding generated has_next_process get_next_process
  generated_from params common zero count draws observed valid total room enough seen =
      let stop : ltb_ℤ (pos count) common.total_process_count ≡ false =
        subst (λ t. ltb_ℤ (pos count) t ≡ false) (sym total) (ground arith) in
      ([], if_false _ _ _ _ stop refl, refl, tt)
  generated_from params common (suc k) count draws [] valid total room enough seen =
      absurd (omega arith)
  generated_from params common (suc k) count draws (ops ∷ observed) valid total room enough seen =
      let more : ltb_ℤ (pos count) common.total_process_count ≡ true =
        subst (λ t. ltb_ℤ (pos count) t ≡ true) (sym total) (ground arith) in
      let three : suc k * 3 ≡ suc (suc (suc (k * 3))) = omega arith in
      let (process, rest, run, runnable, left) =
        random_process_lem params (k * 3) draws valid (subst (λ m. Enough m draws) three enough) in
      let (processes, runs, count_is, all) =
        generated_from params common k (count + 1) rest observed valid
          (total ∙ ap pos (omega arith)) room left (omega arith) in
      let waited = await_room-next common.max_runqueue_length ops observed room in
      (
        process ∷ processes,
        if_true _ _ _ _ more (rw (run, waited, runs) refl),
        ap suc count_is,
        (runnable, all),
      )

  -- With fixed or uniform lengths of at least 1 and times, priorities in the table, and a greatest length of
  -- the runqueue other than 0, the generator creates just `total_process_count` processes, whatever
  -- `rand` returns and whatever runqueues it finds, and all of them have a nice value of the table and a
  -- length of at least 1.
  pub generated_commandline :
      (params : WorkloadCommandlineParams) (common : WorkloadCommonParams) (total : ℕ)
      (draws : List ℕ) (observed : List (List Op))
      → IsValid params
      → common.total_process_count ≡ pos total
      → common.max_runqueue_length ≢ pos 0
      → Enough (total * 3) draws
      → total ≤ length observed
      → (processes : List ProcessParams) × (generated r
            (suc total)
            (init_params_iterator (commandline_store_of params common))
            draws
            (found_queues observed)
          ≡ ok processes)
        × (length processes ≡ total)
        × AllRunnable processes
  unfolding init_params_iterator
  generated_commandline params common total draws observed valid count room enough seen =
      generated_from params common total 0 draws observed valid (count ∙ ap pos (omega arith)) room
        enough seen

  abbrev pub file_store_of : List ProcessParams → WorkloadCommonParams → WorkloadParamStore
  file_store_of processes common = record {
    param_mode = wl_param_file;
    common_params = common;
    commandline_params = none;
    file_params = some processes;
  }

  generated_rest :
      (all processes : List ProcessParams) (common : WorkloadCommonParams) (count : ℕ)
      (draws : List ℕ) (observed : List (List Op))
      → common.max_runqueue_length ≢ pos 0
      → length processes ≤ length observed
      → generated r
          (suc (length processes))
          (record {
            param_store = file_store_of all common;
            next_process_params = processes;
            iteration_count = count;
          })
          draws
          (found_queues observed)
        ≡ ok processes
  unfolding generated has_next_process get_next_process
  generated_rest all [] common count draws observed room seen = refl
  generated_rest all (process ∷ processes) common count draws [] room seen = absurd (omega arith)
  generated_rest all (process ∷ processes) common count draws (ops ∷ observed) room seen =
      rw
        (
          await_room-next common.max_runqueue_length ops observed room,
          generated_rest all processes common (count + 1) draws observed room (omega arith),
        )
        refl

  -- From a file the generator creates just the processes that are read from it, in their order, if the
  -- greatest length of the runqueue is not 0.
  pub generated_file :
      (processes : List ProcessParams) (common : WorkloadCommonParams) (draws : List ℕ)
      (observed : List (List Op))
      → common.max_runqueue_length ≢ pos 0
      → length processes ≤ length observed
      → generated r
          (suc (length processes))
          (init_params_iterator (file_store_of processes common))
          draws
          (found_queues observed)
        ≡ ok processes
  unfolding init_params_iterator
  generated_file processes common draws observed room seen =
      generated_rest processes processes common 0 draws observed room seen

  -- With a greatest length of 0 the generator never comes to the end of a file that has a process.
  pub generated_stuck :
      (process : ProcessParams) (processes : List ProcessParams) (common : WorkloadCommonParams)
      (fuel : ℕ) (draws : List ℕ) (observed : List (List Op))
      → common.max_runqueue_length ≡ pos 0
      → generated r fuel
          (init_params_iterator (file_store_of (process ∷ processes) common))
          draws
          (found_queues observed)
        ≡ out_of_fuel
  unfolding generated has_next_process get_next_process init_params_iterator
  generated_stuck process processes common zero draws observed full = refl
  generated_stuck process processes common (suc fuel) draws observed full =
      rw (full, await_room_stuck observed) refl
