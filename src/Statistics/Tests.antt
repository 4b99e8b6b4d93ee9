-- ===== src/Statistics/Tests.antt =====
-- A run of proj02/src with two processes, of which the second ends first.
use cs.Prelude.{◌+◌, ◌/◌, ◌≡◌, refl, inl, inr, ℕ, zero, suc, ◌<◌, [], ◌∷◌, arith, ok, none, map}
use cs.Prelude.Int.{ℤ, pos, pos_part, ◌+ℤ◌}
use cs.Workload.Tests.{no_files, two_processes, two_store, two_processes_read}
use cs.Statistics.{ProcessStatistics, Averages, main}
use cs.Statistics.Table.{IsAmong, pids_from, total_waiting, main_table}

-- Whole numbers in place of `double`.
abbrev whole_averages : Averages
whole_averages = record {
  Real = ℤ;
  of_int = λ n. n;
  plus = λ a b. a +ℤ b;
  divide = λ a b. pos (pos_part a / pos_part b);
}

-- Each process arrives at time 0, and waits as long as its pid.
abbrev stats_of : ℕ → ProcessStatistics
stats_of pid = record {
  pid = pid;
  arrival_time = pos 0;
  departure_time = pos (5 + pid);
  priority = pos 0;
  cpu_time = 5;
  waiting_time = pos pid;
  turnaround_time = pos (5 + pid);
  context_switch_count = 1;
}

both_end : (i : ℕ) → i < 2 → IsAmong (i + 1) (2 ∷ 1 ∷ [])
both_end zero lt = inr (inl refl)
both_end (suc zero) lt = inl refl
both_end (suc (suc i)) lt = absurd (omega arith)

main_table_example :
    main whole_averages no_files two_processes (map stats_of (2 ∷ 1 ∷ []))
    ≡ ok (record {
      output_file_name = none;
      rows = map stats_of (pids_from 1 2);
      avg_waiting_time =
          whole_averages.divide
            (total_waiting whole_averages stats_of (whole_averages.of_int (pos 0)) (pids_from 1 2))
            (whole_averages.of_int (pos 2));
    })
main_table_example =
    main_table whole_averages no_files two_processes two_store 2 stats_of (2 ∷ 1 ∷ [])
      two_processes_read refl (λ pid. refl)
      (omega arith, omega arith, (omega arith, omega arith, tt)) both_end
