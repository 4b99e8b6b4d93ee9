-- ===== src/Workload.antt =====
-- proj02/src/workload_params.c: the arguments of the program, and the processes of an input file. The
-- arguments are consumed from the front; one that is not there is NULL.
pub mod Iterator
pub mod Options
pub mod Parsed
pub mod FileFormat
pub mod Written
pub mod Tests
use cs.Prelude.{
  ℕ, zero, suc, Bool, true, false, List, [], ◌∷◌, length, Option, none, some, ◌==◌, if◌then◌else◌,
  Outcome, ok, exit, undefined, out_of_fuel, ◌>>=◌, ◌>>◌, from_option,
}
use cs.Prelude.Int.{ℤ, pos}
use cs.WordCount.Text.{Word, same, skip_space}
use cs.Arguments.{atoi}
use cs.Scanning.{scan_literal, scan_decimal}

-- `enum workload_param_mode`
pub data WorkloadParamMode : Type 0 where
  wl_param_commandline : WorkloadParamMode
  wl_param_file : WorkloadParamMode

-- `enum distribution_method`
pub data DistributionMethod : Type 0 where
  fixed_dist : DistributionMethod
  uniform_dist : DistributionMethod
  exponential_dist : DistributionMethod

-- `struct workload_common_params`
pub record WorkloadCommonParams : Type 0 where
  pub max_runqueue_length : ℤ
  pub total_process_count : ℤ
  pub debug_output_mode : ℤ
  pub output_file_name : Option Word

-- `struct workload_commandline_params`
pub record WorkloadCommandlineParams : Type 0 where
  pub min_priority : ℤ
  pub max_priority : ℤ
  pub process_length_distribution : DistributionMethod
  pub average_process_length : ℤ
  pub min_process_length : ℤ
  pub max_process_length : ℤ
  pub interarrival_time_distribution : DistributionMethod
  pub average_interarrival_time : ℤ
  pub min_interarrival_time : ℤ
  pub max_interarrival_time : ℤ

-- `struct process_params`, less the link of the list.
pub record ProcessParams : Type 0 where
  pub length : ℤ
  pub priority : ℤ
  pub interarrival_time : ℤ

-- `struct workload_param_store`; NULL is `none`.
pub record WorkloadParamStore : Type 0 where
  pub param_mode : WorkloadParamMode
  pub common_params : WorkloadCommonParams
  pub commandline_params : Option WorkloadCommandlineParams
  pub file_params : Option (List ProcessParams)

-- "fixed", "uniform" and "exponential"
abbrev pub distribution_name : DistributionMethod → Word
distribution_name fixed_dist = 102 ∷ 105 ∷ 120 ∷ 101 ∷ 100 ∷ []
distribution_name uniform_dist = 117 ∷ 110 ∷ 105 ∷ 102 ∷ 111 ∷ 114 ∷ 109 ∷ []
distribution_name exponential_dist =
    101 ∷ 120 ∷ 112 ∷ 111 ∷ 110 ∷ 101 ∷ 110 ∷ 116 ∷ 105 ∷ 97 ∷ 108 ∷ []

unfoldable pub parse_distribution_method : Word → Outcome DistributionMethod
parse_distribution_method str =
    if same str (distribution_name fixed_dist)
    then ok fixed_dist
    else if same str (distribution_name uniform_dist)
    then ok uniform_dist
    else if same str (distribution_name exponential_dist)
    then ok exponential_dist
    else exit 1

-- `args[(*i)++]`
abbrev pub next_argument : List Word → Outcome (Word × List Word)
next_argument [] = undefined
next_argument (arg ∷ args) = ok (arg, args)

-- `atoi(args[(*i)++])`
pub next_int : List Word → Outcome (ℤ × List Word)
next_int args = do (arg, rest) ← next_argument args; n ← atoi arg; ok (n, rest)

pub next_distribution : List Word → Outcome (DistributionMethod × List Word)
unfolding parse_distribution_method
next_distribution args = do
  (arg, rest) ← next_argument args
  method ← parse_distribution_method arg
  ok (method, rest)

pub parse_common_arguments : List Word → Outcome (WorkloadCommonParams × List Word)
unfolding next_int
parse_common_arguments args = do
  (max_runqueue_length, args1) ← next_int args
  (total_process_count, args2) ← next_int args1
  (debug_output_mode, rest) ← next_int args2
  ok (
    record {
      max_runqueue_length = max_runqueue_length;
      total_process_count = total_process_count;
      debug_output_mode = debug_output_mode;
      output_file_name = none;
    },
    rest,
  )

pub parse_commandline_arguments :
    List Word → Outcome (WorkloadCommandlineParams × WorkloadCommonParams × List Word)
unfolding next_int next_distribution parse_common_arguments
parse_commandline_arguments args = do
  (min_priority, args1) ← next_int args
  (max_priority, args2) ← next_int args1
  (process_length_distribution, args3) ← next_distribution args2
  (average_process_length, args4) ← next_int args3
  (min_process_length, args5) ← next_int args4
  (max_process_length, args6) ← next_int args5
  (interarrival_time_distribution, args7) ← next_distribution args6
  (average_interarrival_time, args8) ← next_int args7
  (min_interarrival_time, args9) ← next_int args8
  (max_interarrival_time, args10) ← next_int args9
  (common_params, rest) ← parse_common_arguments args10
  ok (
    record {
      min_priority = min_priority;
      max_priority = max_priority;
      process_length_distribution = process_length_distribution;
      average_process_length = average_process_length;
      min_process_length = min_process_length;
      max_process_length = max_process_length;
      interarrival_time_distribution = interarrival_time_distribution;
      average_interarrival_time = average_interarrival_time;
      min_interarrival_time = min_interarrival_time;
      max_interarrival_time = max_interarrival_time;
    },
    common_params,
    rest,
  )

-- The second number of a process, behind the first.
abbrev pub scan_priority : Option ℤ × List ℕ → Outcome (Option (ℤ × ℤ) × List ℕ)
scan_priority (none, rest) = ok (none, rest)
scan_priority (some process_length, rest) = scan_decimal rest >>= λ (priority, rest').
    ok (elim priority [ none ↦ none | some p ↦ some (process_length, p) ], rest')

-- `fscanf(fp, " PL %d %d", ...)`, with the numbers if there are two.
pub scan_process : List ℕ → Outcome (Option (ℤ × ℤ) × List ℕ)
scan_process file =
    let (found, rest) = scan_literal (80 ∷ 76 ∷ []) (skip_space file) in
    let numbers = scan_decimal rest >>= λ first. scan_priority first in
    if found then numbers else ok (none, rest)

abbrev pub or_zero : Option ℤ → ℤ
or_zero none = pos 0
or_zero (some n) = n

-- `fscanf(fp, " IAT %d", ...)`, with 0 for no number.
pub scan_interarrival_time : List ℕ → Outcome (ℤ × List ℕ)
scan_interarrival_time file =
    let (found, rest) = scan_literal (73 ∷ 65 ∷ 84 ∷ []) (skip_space file) in
    let number = scan_decimal rest >>= λ (n, rest'). ok (or_zero n, rest') in
    if found then number else ok (pos 0, rest)

-- The loop over the file, on fuel.
pub read_processes : ℕ → List ℕ → Outcome (List ProcessParams)
unfolding scan_process scan_interarrival_time
read_processes zero file = out_of_fuel
read_processes (suc fuel) file = scan_process file >>= λ (header, rest). elim header [
  | none ↦ ok []
  | some (process_length, priority) ↦ scan_interarrival_time rest >>= λ (interarrival_time, rest').
      read_processes fuel rest' >>= λ processes. ok (
        record {
          length = process_length;
          priority = priority;
          interarrival_time = interarrival_time;
        }
        ∷ processes)
]

-- The link of the dummy node, which is set only if there is a process.
abbrev pub first_process : List ProcessParams → Outcome (List ProcessParams)
first_process [] = undefined
first_process (process ∷ processes) = ok (process ∷ processes)

-- `args[1][0]`
abbrev pub mode_letter : Word → ℕ
mode_letter [] = 0
mode_letter (letter ∷ letters) = letter

-- `if (i != argc)`
abbrev pub output_argument : List Word → Option Word
output_argument [] = none
output_argument (name ∷ args) = some name

-- `open_file` is the contents of the file of that name, if `fopen` can open it.
module _ (open_file : Word → Option (List ℕ)) where
  pub parse_file_arguments :
      List Word → Outcome (List ProcessParams × WorkloadCommonParams × List Word)
  unfolding read_processes parse_common_arguments
  parse_file_arguments args = do
    (common_params, args1) ← parse_common_arguments args
    (input_file_name, rest) ← next_argument args1
    file ← from_option (open_file input_file_name) (exit 1)
    read ← read_processes (suc (length file)) file
    processes ← first_process read
    ok (processes, common_params, rest)

  abbrev pub commandline_store : List Word → Outcome WorkloadParamStore
  commandline_store args = do
    (commandline_params, common_params, rest) ← parse_commandline_arguments args
    ok (record {
      param_mode = wl_param_commandline;
      common_params = record common_params { output_file_name = output_argument rest };
      commandline_params = some commandline_params;
      file_params = none;
    })

  abbrev pub file_store : List Word → Outcome WorkloadParamStore
  file_store args = do
    (processes, common_params, rest) ← parse_file_arguments args
    ok (record {
      param_mode = wl_param_file;
      common_params = record common_params { output_file_name = output_argument rest };
      commandline_params = none;
      file_params = some processes;
    })

  -- `args` begins with the name of the program.
  pub parse_arguments : List Word → Outcome WorkloadParamStore
  parse_arguments (program ∷ mode ∷ args) =
      if mode_letter mode == 67
      then commandline_store args
      else if mode_letter mode == 70
      then file_store args
      else exit 1
  parse_arguments _ = undefined
