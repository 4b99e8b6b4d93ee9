-- ===== src/Statistics.antt =====
-- The statistics of the processes of proj02/src: a thread of process.c sends them at its end, utility.c
-- keeps them by pid, and main.c prints them as a table. The times of the clock are given.
pub mod Table
pub mod Tests
use cs.Prelude.{
  ℕ, zero, suc, ◌+◌, ◌-◌, Bool, List, [], ◌∷◌, Option, none, some, ltb, leb, ◌&&◌, ◌==◌,
  if◌then◌else◌, Outcome, ok, undefined, ◌>>=◌, from_option,
}
use cs.Prelude.Int.{ℤ, pos, negsuc, ◌-ℤ◌}
use cs.WordCount.Text.{Word}
use cs.Scheduling.{Doubles, Pcb}
use cs.Workload.{WorkloadParamStore, parse_arguments}

-- `struct process_statistics`
pub record ProcessStatistics : Type 0 where
  pub pid : ℕ
  pub arrival_time : ℤ
  pub departure_time : ℤ
  pub priority : ℤ
  pub cpu_time : ℕ
  pub waiting_time : ℤ
  pub turnaround_time : ℤ
  pub context_switch_count : ℕ

-- What a thread sends at its end.
pub process_statistics : (d : Doubles) → Pcb d → ℤ → ℤ → ℕ → ProcessStatistics
process_statistics d pcb arrival_time departure_time context_switch_count =
    let turnaround_time = departure_time -ℤ arrival_time in
    record {
      pid = pcb.pid;
      arrival_time = arrival_time;
      departure_time = departure_time;
      priority = pcb.priority;
      cpu_time = pcb.cpu_time;
      waiting_time = turnaround_time -ℤ pos pcb.cpu_time;
      turnaround_time = turnaround_time;
      context_switch_count = context_switch_count;
    }

-- `stats_array`; `none` is an element that has not been written.
pub record StatsArray : Type 0 where
  pub size : ℕ
  pub stats : ℕ → Option ProcessStatistics

-- A negative size is given to no `malloc` that succeeds; nothing is stored then.
pub init_process_stats_array : ℤ → StatsArray
init_process_stats_array (pos max_pid) = record { size = max_pid; stats = λ i. none }
init_process_stats_array (negsuc n) = record { size = 0; stats = λ i. none }

-- The store into the element `pid - 1`.
pub send_process_stats : StatsArray → ProcessStatistics → Outcome StatsArray
send_process_stats array stats =
    if ltb 0 stats.pid && leb stats.pid array.size
    then ok (record array { stats = λ i. if stats.pid - 1 == i then some stats else array.stats i })
    else undefined

-- The statistics of the threads, in the order in which they end.
pub send_all : StatsArray → List ProcessStatistics → Outcome StatsArray
unfolding send_process_stats
send_all array [] = ok array
send_all array (sent ∷ later) = send_process_stats array sent >>= λ array'. send_all array' later

-- The operations of `double` that the average takes.
pub record Averages : Type 1 where
  pub Real : Type 0
  pub of_int : ℤ → Real
  pub plus : Real → Real → Real
  pub divide : Real → Real → Real

module _ (a : Averages) where
  -- The rows of the table and the average, which is printed under them.
  pub record StatisticsTable : Type 0 where
    pub output_file_name : Option Word
    pub rows : List ProcessStatistics
    pub avg_waiting_time : a.Real

  -- The loop from the index `i` on, by the rounds left, with the sum so far.
  pub print_rows : StatsArray → ℕ → ℕ → a.Real → Outcome (List ProcessStatistics × a.Real)
  print_rows array zero i avg_waiting_time = ok ([], avg_waiting_time)
  print_rows array (suc left) i avg_waiting_time = do
    current ← if ltb i array.size then from_option (array.stats i) undefined else undefined
    (rows, total) ←
        print_rows array left (i + 1) (a.plus avg_waiting_time (a.of_int current.waiting_time))
    ok (current ∷ rows, total)

  -- A negative count is never reached by the index.
  pub print_table : Option Word → StatsArray → ℤ → Outcome StatisticsTable
  unfolding print_rows
  print_table output_file_name array (pos total_process_count) = do
    (rows, total) ← print_rows array total_process_count 0 (a.of_int (pos 0))
    ok (record {
      output_file_name = output_file_name;
      rows = rows;
      avg_waiting_time = a.divide total (a.of_int (pos total_process_count));
    })
  print_table output_file_name array (negsuc n) = undefined

  -- `main`, with the statistics that the threads have sent by the time at which the table is printed.
  pub main : (Word → Option (List ℕ)) → List Word → List ProcessStatistics → Outcome StatisticsTable
  unfolding print_table send_all init_process_stats_array
  main open_file args sent = parse_arguments open_file args >>= λ params.
      let common_params = params.common_params in
      send_all (init_process_stats_array common_params.total_process_count) sent >>= λ array.
      print_table common_params.output_file_name array common_params.total_process_count
