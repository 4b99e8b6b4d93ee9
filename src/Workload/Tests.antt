-- ===== src/Workload/Tests.antt =====
-- Runs of proj02/src/workload_params.c on arguments, files and drawn numbers.
use cs.Prelude.{
  some, ℕ, ◌+◌, ◌*◌, ◌/◌, ◌≡◌, ◌≤◌, refl, true, false, arith, ltb, List, [], ◌∷◌, length, Option,
  none, ok, exit, Ends, map, subst, ◌++◌,
}
use cs.Prelude.Int.{ℤ, pos, negsuc, ltb_ℤ, ◌≤ℤ◌}
use cs.WordCount.Text.{Word, same, strcmp, skip_space, is_space}
use cs.Arguments.{read_digits, atoi, read_signed}
use cs.Scheduling.{Doubles}
use cs.Scheduling.Runqueue.{Op}
use cs.Dispatch.{System, exited}
use cs.Dispatch.Steps.{initial}
use cs.Dispatch.Progress.{CanMove}
use cs.Dispatch.Ending.{Moves, run_bound}
use cs.Workload.{
  next_distribution, next_int, parse_common_arguments, wl_param_commandline,
  parse_commandline_arguments, WorkloadParamStore, fixed_dist, uniform_dist, WorkloadCommonParams,
  WorkloadCommandlineParams, ProcessParams, parse_distribution_method, read_processes,
  parse_arguments,
}
use cs.Workload.Parsed.{IsParsed, parse_arguments_lem}
use cs.Workload.Written.{WrittenProcess, AllNumerals, process_of, written, read_processes-written}
use cs.Workload.Iterator.{
  Reals, get_random_double, get_exponential_random, exponential_value, init_params_iterator,
  generated, generator_block,
}
use cs.Workload.Iterator.Draws.{Enough, IsRounding, get_exponential_random_lem}
use cs.Workload.Iterator.Generator.{found_queues, IsValid, commandline_store_of}
use cs.Workload.Iterator.Ending.{commandline_run_ends}

-- Whole numbers in place of `double`.
abbrev whole_reals : Reals
whole_reals = record {
  Real = ℤ;
  of_int = λ n. n;
  divide = λ a b. a;
  minus = λ a b. b;
  negate = λ a. a;
  log = λ a. a;
  gtb = λ a b. ltb_ℤ b a;
  round = λ a. a;
}

abbrev whole_doubles : Doubles
whole_doubles = record {
  Real = ℕ;
  of_int = λ n. 1000 * n;
  divide = λ a b. 1000 * a / b;
  times = λ a b. a * b / 1000;
  plus = λ a b. a + b;
  gtb = λ a b. ltb b a;
  round = λ a. pos ((a + 500) / 1000);
}

whole_reals-IsRounding : IsRounding whole_reals
whole_reals-IsRounding = record { between = λ a b x h k. (ground arith, ground arith) }

-- "uniform", and "fix", which is no method
no_method : parse_distribution_method (102 ∷ 105 ∷ 120 ∷ []) ≡ exit 1
unfolding parse_distribution_method same strcmp
no_method = refl

-- No file can be opened.
abbrev pub no_files : Word → Option (List ℕ)
no_files name = none

-- "PL 30 -5", "IAT 7"
abbrev thirty : WrittenProcess
thirty = record {
  length = record { minus = false; first = 51; digits = 48 ∷ [] };
  priority = record { minus = true; first = 53; digits = [] };
  interarrival_time = record { minus = false; first = 55; digits = [] };
}

thirty-AllNumerals : AllNumerals (thirty ∷ [])
unfolding read_digits
thirty-AllNumerals = (
  (
    record { all = (refl, (refl, tt)); fits = omega arith },
    record { all = (refl, tt); fits = omega arith },
    record { all = (refl, tt); fits = omega arith },
  ),
  tt,
)

read_processes-written_example :
    read_processes 2 (written (thirty ∷ [])) ≡ ok (map process_of (thirty ∷ []))
read_processes-written_example =
    read_processes-written (thirty ∷ []) 2 thirty-AllNumerals (omega arith)

-- The first number is above the limits.
get_exponential_random_lem_example :
    (get_exponential_random whole_reals (pos 5) (pos 1) (pos 10) ((20 ∷ []) ++ (7 ∷ 3 ∷ []))
      ≡ ok (whole_reals.round (exponential_value whole_reals (pos 5) 7), 3 ∷ []))
    × (pos 1 ≤ℤ whole_reals.round (exponential_value whole_reals (pos 5) 7))
    × (whole_reals.round (exponential_value whole_reals (pos 5) 7) ≤ℤ pos 10)
unfolding exponential_value get_random_double
get_exponential_random_lem_example =
    get_exponential_random_lem whole_reals (pos 5) (pos 1) (pos 10) (20 ∷ []) 7 (3 ∷ [])
      whole_reals-IsRounding (refl, tt) refl

abbrev common_two : WorkloadCommonParams
common_two = record {
  max_runqueue_length = pos 5;
  total_process_count = pos 2;
  debug_output_mode = pos 1;
  output_file_name = none;
}

-- Uniform lengths of 20 to 40, a fixed time, and priorities of -5 to 5.
abbrev params_two : WorkloadCommandlineParams
params_two = record {
  min_priority = negsuc 4;
  max_priority = pos 5;
  process_length_distribution = uniform_dist;
  average_process_length = pos 30;
  min_process_length = pos 20;
  max_process_length = pos 40;
  interarrival_time_distribution = fixed_dist;
  average_interarrival_time = pos 10;
  min_interarrival_time = pos 0;
  max_interarrival_time = pos 0;
}

params_two-IsValid : IsValid params_two
params_two-IsValid = record {
  lowest = omega arith;
  highest = omega arith;
  priorities = (omega arith, omega arith);
  lengths = (omega arith, (omega arith, omega arith));
  times = omega arith;
}

abbrev six_draws : List ℕ
six_draws = 100 ∷ 2000000 ∷ 300 ∷ 4 ∷ 5 ∷ 6000 ∷ []

six_draws-Enough : Enough 6 six_draws
six_draws-Enough = omega arith

-- The runqueue when the generator asks for its count: with one process in it, and empty again.
abbrev two_found : List (List Op)
two_found =
    (Op.add_pcb_to_runqueue 1 ∷ [])
    ∷ (Op.add_pcb_to_runqueue 1 ∷ Op.remove_pcb_from_runqueue 1 ∷ [])
    ∷ []

commandline_run_ends_example :
    (processes : List ProcessParams) × (generated whole_reals 3
        (init_params_iterator (commandline_store_of whole_reals params_two common_two))
        six_draws
        (found_queues two_found)
      ≡ ok processes)
    × (length processes ≡ 2)
    × ((k : ℕ) (t : System whole_doubles)
        → Moves whole_doubles 2
            (initial whole_doubles 2 (generator_block whole_doubles processes) 2)
            k
            t
        → (k ≤ run_bound whole_doubles 2 (generator_block whole_doubles processes))
          × (¬ CanMove whole_doubles 2 t
              → (t.scheduler ≡ exited)
                × ((pid : ℕ)
                    → 1 ≤ pid
                    → pid ≤ 2
                    → (t.process pid).pcb.cpu_time
                      ≡ (generator_block whole_doubles processes pid).process_length)))
commandline_run_ends_example =
    commandline_run_ends whole_doubles whole_reals params_two common_two 2 six_draws two_found
      params_two-IsValid refl (λ e. cc) six_draws-Enough (omega arith)

-- "cfs C 0 9 fixed 5 1 9 fixed 5 1 9 5 2 1"
abbrev pub two_processes : List Word
two_processes =
    (99 ∷ [])
    ∷ (67 ∷ [])
    ∷ (48 ∷ [])
    ∷ (57 ∷ [])
    ∷ (102 ∷ 105 ∷ 120 ∷ 101 ∷ 100 ∷ [])
    ∷ (53 ∷ [])
    ∷ (49 ∷ [])
    ∷ (57 ∷ [])
    ∷ (102 ∷ 105 ∷ 120 ∷ 101 ∷ 100 ∷ [])
    ∷ (53 ∷ [])
    ∷ (49 ∷ [])
    ∷ (57 ∷ [])
    ∷ (53 ∷ [])
    ∷ (50 ∷ [])
    ∷ (49 ∷ [])
    ∷ []

abbrev pub two_store : WorkloadParamStore
two_store = record {
  param_mode = wl_param_commandline;
  common_params = common_two;
  commandline_params = some (record {
    min_priority = pos 0;
    max_priority = pos 9;
    process_length_distribution = fixed_dist;
    average_process_length = pos 5;
    min_process_length = pos 1;
    max_process_length = pos 9;
    interarrival_time_distribution = fixed_dist;
    average_interarrival_time = pos 5;
    min_interarrival_time = pos 1;
    max_interarrival_time = pos 9;
  });
  file_params = none;
}

pub two_processes_read : parse_arguments no_files two_processes ≡ ok two_store
unfolding parse_arguments parse_commandline_arguments parse_common_arguments next_int
    next_distribution parse_distribution_method same strcmp atoi read_signed read_digits skip_space
    is_space
two_processes_read = refl

parse_arguments_lem_example : IsParsed (length two_processes) two_store
parse_arguments_lem_example =
    subst (Ends (IsParsed (length two_processes))) two_processes_read
      (parse_arguments_lem no_files two_processes)
