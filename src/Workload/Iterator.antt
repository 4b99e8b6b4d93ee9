-- ===== src/Workload/Iterator.antt =====
-- proj02/src: the iterator over the processes of workload_params.c, with the random numbers of utility.c,
-- and the loop of generator.c. The numbers that `rand` returns from now on are a list, taken in the order
-- of the calls in the text; a list that is too short leaves the run unfinished.
pub mod Draws
pub mod Generator
pub mod Ending
use cs.Prelude.{
  ℕ, zero, suc, ◌+◌, Bool, true, false, ◌||◌, List, [], ◌∷◌, Option, none, some, if◌then◌else◌,
  Outcome, ok, undefined, out_of_fuel, ◌>>=◌, from_option,
}
use cs.Prelude.Int.{ℤ, pos, ltb_ℤ, pos_part}
use cs.Paging.Input.{equal_ℤ, rand_max, get_random_in_range}
use cs.Scheduling.{Doubles, Pcb, Queue, get_runqueue_item_count}
use cs.Workload.{
  WorkloadParamMode, wl_param_commandline, wl_param_file, DistributionMethod, fixed_dist,
  uniform_dist, exponential_dist, WorkloadCommandlineParams, ProcessParams, WorkloadParamStore,
}

-- The operations of `double` and of the mathematical library that the random numbers use.
pub record Reals : Type 1 where
  pub Real : Type 0
  pub of_int : ℤ → Real
  pub divide : Real → Real → Real
  pub minus : Real → Real → Real
  pub negate : Real → Real
  pub log : Real → Real
  -- `a > b`
  pub gtb : Real → Real → Bool
  -- `round`, converted to `int`
  pub round : Real → ℤ

-- `get_random_in_range` of utility.c, whose text is that of proj03; equal ends take no number.
pub draw_in_range : ℤ → ℤ → List ℕ → Outcome (ℤ × List ℕ)
draw_in_range range_start range_end draws =
    let drawn : Outcome (ℤ × List ℕ) = elim draws [
      | [] ↦ out_of_fuel
      | draw ∷ rest ↦ get_random_in_range draw range_start range_end >>= λ n. ok (n, rest)
    ] in
    if equal_ℤ range_start range_end then ok (range_start, draws) else drawn

-- `struct workload_param_process_iterator`
pub record ProcessIterator : Type 0 where
  pub param_store : WorkloadParamStore
  pub next_process_params : List ProcessParams
  pub iteration_count : ℕ

abbrev pub file_processes : Option (List ProcessParams) → List ProcessParams
file_processes none = []
file_processes (some processes) = processes

pub init_params_iterator : WorkloadParamStore → ProcessIterator
init_params_iterator store = record {
  param_store = store;
  next_process_params = file_processes store.file_params;
  iteration_count = 0;
}

abbrev pub is_process : List ProcessParams → Bool
is_process [] = false
is_process (process ∷ processes) = true

pub has_next_process : ProcessIterator → Bool
has_next_process it = elim it.param_store.param_mode [
  | wl_param_commandline ↦
      ltb_ℤ (pos it.iteration_count) it.param_store.common_params.total_process_count
  | wl_param_file ↦ is_process it.next_process_params
]

abbrev pub next_of_file : List ProcessParams → Outcome (ProcessParams × List ProcessParams)
next_of_file [] = undefined
next_of_file (process ∷ processes) = ok (process, processes)

-- The `do` loop of the generator, with the runqueues that it finds when it calls `get_runqueue_item_count`;
-- those that it has not come to are left. A list that is too short leaves the run unfinished.
pub await_room : ℤ → List Queue → Outcome (List Queue)
await_room max_runqueue_length [] = out_of_fuel
await_room max_runqueue_length (rq ∷ lookups) =
    let again = await_room max_runqueue_length lookups in
    if equal_ℤ (pos (get_runqueue_item_count rq)) max_runqueue_length then again else ok lookups

module _ (r : Reals) where
  unfoldable pub get_random_double : ℕ → r.Real
  get_random_double drawn = r.divide (r.of_int (pos drawn)) (r.of_int (pos rand_max))

  -- A turn of the loop of `get_exponential_random`.
  unfoldable pub exponential_value : ℤ → ℕ → r.Real
  unfolding get_random_double
  exponential_value range_average drawn =
      let lambda = r.divide (r.of_int (pos 1)) (r.of_int range_average) in
      r.divide (r.negate (r.log (r.minus (r.of_int (pos 1)) (get_random_double drawn)))) lambda

  pub get_exponential_random : ℤ → ℤ → ℤ → List ℕ → Outcome (ℤ × List ℕ)
  unfolding exponential_value
  get_exponential_random range_average range_start range_end [] = out_of_fuel
  get_exponential_random range_average range_start range_end (drawn ∷ draws) =
      let x = exponential_value range_average drawn in
      let again = get_exponential_random range_average range_start range_end draws in
      if r.gtb (r.of_int range_start) x || r.gtb x (r.of_int range_end)
      then again
      else ok (r.round x, draws)

  -- `get_distributed_process_length` and `get_distributed_interarrival_time`, whose bodies are the same
  -- on the two groups of fields.
  pub get_distributed : DistributionMethod → ℤ → ℤ → ℤ → List ℕ → Outcome (ℤ × List ℕ)
  unfolding draw_in_range get_exponential_random
  get_distributed method average least most draws = elim method [
    | fixed_dist ↦ ok (average, draws)
    | uniform_dist ↦ draw_in_range least most draws
    | exponential_dist ↦ get_exponential_random average least most draws
  ]

  pub get_distributed_process_length : WorkloadCommandlineParams → List ℕ → Outcome (ℤ × List ℕ)
  unfolding get_distributed
  get_distributed_process_length params draws =
      get_distributed params.process_length_distribution params.average_process_length
        params.min_process_length params.max_process_length draws

  pub get_distributed_interarrival_time : WorkloadCommandlineParams → List ℕ → Outcome (ℤ × List ℕ)
  unfolding get_distributed
  get_distributed_interarrival_time params draws =
      get_distributed params.interarrival_time_distribution params.average_interarrival_time
        params.min_interarrival_time params.max_interarrival_time draws

  pub random_process : WorkloadCommandlineParams → List ℕ → Outcome (ProcessParams × List ℕ)
  unfolding draw_in_range get_distributed_process_length get_distributed_interarrival_time
  random_process params draws = do
    (priority, draws1) ← draw_in_range params.min_priority params.max_priority draws
    (process_length, draws2) ← get_distributed_process_length params draws1
    (interarrival_time, rest) ← get_distributed_interarrival_time params draws2
    ok (
      record {
        length = process_length;
        priority = priority;
        interarrival_time = interarrival_time;
      },
      rest,
    )

  pub get_next_process :
      ProcessIterator → List ℕ → Outcome (ProcessParams × ProcessIterator × List ℕ)
  unfolding random_process
  get_next_process it draws = elim it.param_store.param_mode [
    | wl_param_commandline ↦ do
      params ← from_option it.param_store.commandline_params undefined
      (process, rest) ← random_process params draws
      ok (process, record it { iteration_count = it.iteration_count + 1 }, rest)
    | wl_param_file ↦ do
      (process, processes) ← next_of_file it.next_process_params
      ok (
        process,
        record it { next_process_params = processes; iteration_count = it.iteration_count + 1 },
        draws,
      )
  ]

  -- The processes that the loop of `start_generator_thread` creates, on fuel; each is created before the
  -- wait for room, and a wait that does not end leaves the run unfinished.
  pub generated : ℕ → ProcessIterator → List ℕ → List Queue → Outcome (List ProcessParams)
  unfolding has_next_process get_next_process await_room
  generated zero it draws lookups = out_of_fuel
  generated (suc fuel) it draws lookups =
      let max_runqueue_length = it.param_store.common_params.max_runqueue_length in
      let more = get_next_process it draws >>= λ (process, it', rest).
      await_room max_runqueue_length lookups >>= λ lookups'.
      generated fuel it' rest lookups' >>= λ processes. ok (process ∷ processes) in
      if has_next_process it then more else ok []

abbrev pub no_process : ProcessParams
no_process = record { length = pos 0; priority = pos 0; interarrival_time = pos 0 }

-- The blocks by pid: the generator numbers the processes from 1 on.
pub nth_process : List ProcessParams → ℕ → ProcessParams
nth_process [] i = no_process
nth_process (process ∷ processes) zero = no_process
nth_process (process ∷ processes) (suc zero) = process
nth_process (process ∷ processes) (suc (suc i)) = nth_process processes (suc i)

module _ (d : Doubles) where
  -- The process control block that the generator fills in; a length below 0 is 0, for which the process
  -- does just as little.
  pub process_block : ℕ → ProcessParams → Pcb d
  process_block pid process = record {
    pid = pid;
    priority = process.priority;
    process_length = pos_part process.length;
    cpu_time = 0;
    vruntime = d.of_int 0;
  }

  pub generator_block : List ProcessParams → ℕ → Pcb d
  unfolding process_block nth_process
  generator_block processes pid = process_block pid (nth_process processes pid)
