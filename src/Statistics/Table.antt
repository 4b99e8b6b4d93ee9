-- ===== src/Statistics/Table.antt =====
-- The table of proj02/src/main.c, whatever the order in which the threads end.
use cs.Prelude.{
  ℕ, zero, suc, ◌+◌, ◌-◌, ◌≤◌, ◌<◌, ◌≡◌, ◌⊎◌, inl, inr, refl, ap, List, [], ◌∷◌, map, Option, some,
  arith, ltb, ◌==◌, if◌then◌else◌, Bool-cases, true, if_true, if_false, ok,
}
use cs.Prelude.Int.{pos}
use cs.WordCount.Text.{Word}
use cs.Workload.{WorkloadParamStore, parse_arguments}
use cs.Statistics.{
  ProcessStatistics, StatsArray, init_process_stats_array, send_process_stats, send_all, Averages,
  print_rows, print_table, main,
}

abbrev pub IsAmong : ℕ → List ℕ → Type 0
IsAmong pid [] = ⊥
IsAmong pid (p ∷ pids) = (p ≡ pid) ⊎ IsAmong pid pids

-- Every pid is one of `1`, …, `n`.
abbrev pub AllPids : ℕ → List ℕ → Type 0
AllPids n [] = Unit
AllPids n (p ∷ pids) = (1 ≤ p) × (p ≤ n) × AllPids n pids

-- `lo`, `lo + 1`, … : so many pids.
pub pids_from : ℕ → ℕ → List ℕ
pids_from lo zero = []
pids_from lo (suc left) = lo ∷ pids_from (lo + 1) left

module _ (of_pid : ℕ → ProcessStatistics) (numbered : (pid : ℕ) → (of_pid pid).pid ≡ pid) where
  send_lem :
      (array : StatsArray) (p : ℕ)
      → 1 ≤ p
      → p ≤ array.size
      → send_process_stats array (of_pid p)
        ≡ ok (record array { stats = λ i. if p - 1 == i then some (of_pid p) else array.stats i })
  unfolding send_process_stats
  send_lem array p low high = rw (numbered p) (ground arith)

  -- Once a process has sent its statistics, they stay.
  record Kept (array : StatsArray) (order : List ℕ) : Type 0 where
    filled : StatsArray
    run : send_all array (map of_pid order) ≡ ok filled
    same_size : filled.size ≡ array.size
    there :
        (i : ℕ)
        → IsAmong (i + 1) order ⊎ (array.stats i ≡ some (of_pid (i + 1)))
        → filled.stats i ≡ some (of_pid (i + 1))

  stored :
      (array : StatsArray) (p i : ℕ) (order : List ℕ)
      → 1 ≤ p
      → IsAmong (i + 1) (p ∷ order) ⊎ (array.stats i ≡ some (of_pid (i + 1)))
      → IsAmong (i + 1) order
        ⊎ ((if p - 1 == i then some (of_pid p) else array.stats i) ≡ some (of_pid (i + 1)))
  stored array p i order low h = elim (Bool-cases (p - 1 == i)) [
    | inl here ↦
        let e : p ≡ i + 1 = ground arith in inr (if_true _ _ _ _ here (ap (λ k. some (of_pid k)) e))
    | inr other ↦ elim h [
      | inl (inl e) ↦ absurd (ground arith)
      | inl (inr among) ↦ inl among
      | inr e ↦ inr (if_false _ _ _ _ other e)
    ]
  ]

  send_all-Kept :
      (array : StatsArray) (order : List ℕ) → AllPids array.size order → Kept array order
  unfolding send_all
  send_all-Kept array [] all = record {
    filled = array;
    run = refl;
    same_size = refl;
    there = λ i h. elim h [ inl among ↦ absurd among | inr e ↦ e ];
  }
  send_all-Kept array (p ∷ order) (low, high, all) =
      let array' : StatsArray = record array {
        stats = λ i. if p - 1 == i then some (of_pid p) else array.stats i;
      } in
      let later = send_all-Kept array' order all in
      record {
        filled = later.filled;
        run = rw (send_lem array p low high) later.run;
        same_size = later.same_size;
        there = λ i h. later.there i (stored array p i order low h);
      }

module _ (a : Averages) (of_pid : ℕ → ProcessStatistics) where
  -- The sum of the waiting times, added up one after the other.
  pub total_waiting : a.Real → List ℕ → a.Real
  total_waiting sum [] = sum
  total_waiting sum (pid ∷ pids) =
      total_waiting (a.plus sum (a.of_int (of_pid pid).waiting_time)) pids

  print_rows_lem :
      (array : StatsArray) (left i : ℕ) (sum : a.Real)
      → i + left ≤ array.size
      → ((j : ℕ) → j < array.size → array.stats j ≡ some (of_pid (j + 1)))
      → print_rows a array left i sum
        ≡ ok (map of_pid (pids_from (i + 1) left), total_waiting sum (pids_from (i + 1) left))
  unfolding print_rows pids_from total_waiting
  print_rows_lem array zero i sum room filled = refl
  print_rows_lem array (suc left) i sum room filled =
      let test : ltb i array.size ≡ true = ground arith in
      rw
        (
          test,
          filled i (omega arith),
          print_rows_lem array left (i + 1) (a.plus sum (a.of_int (of_pid (i + 1)).waiting_time))
              (omega arith) filled,
        )
        refl

module _ (a : Averages) (open_file : Word → Option (List ℕ)) where
  -- If the arguments are read and ask for n processes, and the threads of the processes 1 to n send their
  -- statistics, each at least once and in any order, the program prints one row for each process, in
  -- the order of the pids, and under them the sum of the waiting times in this order, divided by n.
  pub main_table :
      (args : List Word) (params : WorkloadParamStore) (n : ℕ) (of_pid : ℕ → ProcessStatistics)
      (order : List ℕ)
      → parse_arguments open_file args ≡ ok params
      → params.common_params.total_process_count ≡ pos n
      → ((pid : ℕ) → (of_pid pid).pid ≡ pid)
      → AllPids n order
      → ((i : ℕ) → i < n → IsAmong (i + 1) order)
      → main a open_file args (map of_pid order)
        ≡ ok (record {
          output_file_name = params.common_params.output_file_name;
          rows = map of_pid (pids_from 1 n);
          avg_waiting_time =
              a.divide
                (total_waiting a of_pid (a.of_int (pos 0)) (pids_from 1 n))
                (a.of_int (pos n));
        })
  unfolding main print_table init_process_stats_array
  main_table args params n of_pid order parsed count numbered all each =
      let kept = send_all-Kept of_pid numbered (init_process_stats_array (pos n)) order all in
      let rows =
        print_rows_lem a of_pid kept.filled n 0 (a.of_int (pos 0)) (omega (arith, kept.same_size))
          (λ j lt. kept.there j (inl (each j (omega (arith, kept.same_size, lt))))) in
      rw (parsed, count, kept.run, rows) refl
