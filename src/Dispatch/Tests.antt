-- ===== src/Dispatch/Tests.antt =====
-- A run of proj02/src with one process of 15 ms, with whole numbers for `double`.
use cs.Prelude.{ℕ, ◌+◌, ◌*◌, ◌/◌, ◌≡◌, ◌≢◌, ◌≤◌, refl, false, arith, ltb, []}
use cs.Prelude.Int.{pos, ◌-ℤ◌}
use cs.Scheduling.{
  Doubles, Pcb, runqueue_init, runqueue_add_pcb, runqueue_smallest_pcb, smallest_from, run_slice,
  remove_node, runqueue_remove_pcb, runqueue_timeslice, total_weight, get_weight,
  update_pcb_timings, runqueue_vruntime,
}
use cs.Scheduling.Occurrences.{occurrences}
use cs.Dispatch.{
  runqueue_init, holds_need_scheduling, has_exited, wake_scheduler, at_loop, looping, adding,
  testing, taking, releasing, at_lock, at_test, at_pick, at_signal, exited, System, at, update,
  move_to, add_pcb_to_runqueue, signal_scheduler_new_process, start_slice, end_slice,
  signal_process, wake_scheduler, wake_process, has_exited, holds_need_scheduling, holds_mutex,
  count_termination,
}
use cs.Dispatch.Steps.{
  create, enter, add, announce, lock, resume, take, end, exit, again, acquire, proceed, pick,
  signal, initial, Reach, start, later, move,
}
use cs.Dispatch.Counting.{sum_to}
use cs.Dispatch.Invariant.{queued}
use cs.Dispatch.Picked.{uses_cpu}
use cs.Dispatch.Safety.{
  IsWorkload, mutual_exclusion, runqueue_holds_waiting, signal_process_unblocked, exit_complete,
  exit_impossible,
}
use cs.Dispatch.Progress.{CanMove, no_deadlock}
use cs.Dispatch.Ending.{Moves, Moves-Reach, still, extend, run_bound, run_ends}

-- Thousandths.
abbrev thousandths : Doubles
thousandths = record {
  Real = ℕ;
  of_int = λ n. 1000 * n;
  divide = λ a b. 1000 * a / b;
  times = λ a b. a * b / 1000;
  plus = λ a b. a + b;
  gtb = λ a b. ltb b a;
  round = λ a. pos ((a + 500) / 1000);
}

abbrev short_job : ℕ → Pcb thousandths
short_job pid = record {
  pid = pid;
  priority = pos 0;
  process_length = 15;
  cpu_time = 0;
  vruntime = 0;
}

short_job-IsWorkload : IsWorkload thousandths 1 short_job 1 0
unfolding sum_to
short_job-IsWorkload = record { numbered = λ pid. refl; fresh = λ pid. refl; counted = refl }

abbrev s0 : System thousandths
s0 = initial thousandths 1 short_job 1

abbrev s1 : System thousandths
s1 = record (move_to thousandths s0 1 looping) { created = 1 }

abbrev s2 : System thousandths
s2 = move_to thousandths s1 1 adding

abbrev s3 : System thousandths
s3 = add_pcb_to_runqueue thousandths s2 1

abbrev s4 : System thousandths
s4 = signal_scheduler_new_process thousandths s3 1

abbrev s5 : System thousandths
s5 = record s4 { scheduler = at_lock }

abbrev s6 : System thousandths
s6 = record s5 { scheduler = at_test }

abbrev s7 : System thousandths
s7 = record s6 { scheduler = at_pick }

abbrev s8 : System thousandths
s8 = record s7 { scheduler = at_signal 1 }

abbrev s9 : System thousandths
s9 = signal_process thousandths s8 1

abbrev s10 : System thousandths
s10 = move_to thousandths s9 1 testing

abbrev s11 : System thousandths
s11 = move_to thousandths s10 1 taking

abbrev ran : Pcb thousandths
ran = record (short_job 1) { cpu_time = 15; vruntime = 15000 }

abbrev s12 : System thousandths
s12 = start_slice thousandths s11 1 (record { head = []; count = 0 }) ran

abbrev s13 : System thousandths
s13 = end_slice thousandths s12 1

abbrev s14 : System thousandths
s14 = record s13 { scheduler = exited }

-- The process announces itself, and sleeps no time.
to_s8 : Moves thousandths 1 s0 8 s8
unfolding initial move_to update add_pcb_to_runqueue signal_scheduler_new_process wake_scheduler
    has_exited holds_need_scheduling runqueue_init runqueue_add_pcb runqueue_smallest_pcb
    smallest_from
to_s8 =
    let m1 : Moves thousandths 1 s0 1 s1 = extend still (create (omega arith)) in
    let m2 : Moves thousandths 1 s0 2 s2 = extend m1 (enter 1 refl (omega arith)) in
    let m3 : Moves thousandths 1 s0 3 s3 = extend m2 (add 1 refl refl) in
    let m4 : Moves thousandths 1 s0 4 s4 = extend m3 (announce 1 refl refl refl) in
    let m5 : Moves thousandths 1 s0 5 s5 = extend m4 (again refl (λ e. cc)) in
    let m6 : Moves thousandths 1 s0 6 s6 = extend m5 (acquire refl) in
    let m7 : Moves thousandths 1 s0 7 s7 = extend m6 (proceed refl refl) in
    extend m7 (pick 1 refl refl)

-- It runs, and reports its end; the scheduler, which has not waited yet, ends before the last signal.
to_s14 : Moves thousandths 1 s0 14 s14
unfolding initial move_to update add_pcb_to_runqueue signal_scheduler_new_process wake_scheduler
    signal_process wake_process holds_mutex has_exited start_slice end_slice count_termination
    run_slice remove_node runqueue_remove_pcb runqueue_timeslice total_weight get_weight
    update_pcb_timings runqueue_vruntime runqueue_init runqueue_add_pcb ◌-ℤ◌
to_s14 =
    let m9 : Moves thousandths 1 s0 9 s9 = extend to_s8 (signal 1 refl refl) in
    let m10 : Moves thousandths 1 s0 10 s10 = extend m9 (lock 1 refl) in
    let m11 : Moves thousandths 1 s0 11 s11 = extend m10 (resume 1 refl refl) in
    let m12 : Moves thousandths 1 s0 12 s12 = extend m11 (take 1 refl refl refl) in
    let m13 : Moves thousandths 1 s0 13 s13 = extend m12 (end 1 refl refl) in
    extend m13 (exit refl refl)

reach_s8 : Reach thousandths 1 short_job 1 s8
reach_s8 = Moves-Reach thousandths 1 short_job-IsWorkload start to_s8

reach_s14 : Reach thousandths 1 short_job 1 s14
reach_s14 = Moves-Reach thousandths 1 short_job-IsWorkload start to_s14

-- The process is before its call of `signal_scheduler_terminated_process`, which locks a mutex that the
-- scheduler has destroyed.
lock_after_exit : (s14.scheduler ≡ exited) × (at thousandths s14 1 ≡ releasing)
unfolding start_slice end_slice update
lock_after_exit = (refl, refl)

-- Where `total_process_count` is 0 the scheduler ends at once, though there is a process.
early_exit :
    Reach thousandths 1 short_job 0
      (record (initial thousandths 1 short_job 0) { scheduler = exited })
unfolding initial
early_exit = later start (move (exit refl refl))

mutual_exclusion_example : ◌≡◌ {A = ℕ} 1 1
unfolding start_slice end_slice update
mutual_exclusion_example =
    mutual_exclusion thousandths 1 short_job-IsWorkload reach_s14 1 1 refl refl

runqueue_holds_waiting_example : occurrences 1 s8.rq.head ≡ queued (at thousandths s8 1)
runqueue_holds_waiting_example =
    runqueue_holds_waiting thousandths 1 short_job-IsWorkload reach_s8 1

signal_process_unblocked_example :
    (queued (at thousandths s8 1) ≡ 1)
    × (uses_cpu (at thousandths s8 1) ≡ false)
    × (s8.have_running_process ≡ false)
signal_process_unblocked_example =
    signal_process_unblocked thousandths 1 short_job-IsWorkload reach_s8 1 refl

exit_complete_example :
    ((pid : ℕ)
      → 1 ≤ pid
      → pid ≤ 1
      → (s14.process pid).pcb.cpu_time ≡ (short_job pid).process_length)
    × ((pid : ℕ) → occurrences pid s14.rq.head ≡ 0)
exit_complete_example = exit_complete thousandths 1 short_job-IsWorkload reach_s14 refl

no_deadlock_example : CanMove thousandths 1 s8
no_deadlock_example =
    no_deadlock thousandths 1 short_job 1 s8 short_job-IsWorkload (λ pid. omega arith) reach_s8
      (λ e. cc)

run_ends_example :
    (14 ≤ run_bound thousandths 1 short_job)
    × (¬ CanMove thousandths 1 s14
        → (s14.scheduler ≡ exited)
          × ((pid : ℕ)
              → 1 ≤ pid
              → pid ≤ 1
              → (s14.process pid).pcb.cpu_time ≡ (short_job pid).process_length))
run_ends_example =
    run_ends thousandths 1 short_job 1 short_job-IsWorkload (λ pid. omega arith) 14 s14 to_s14

-- A process of length 0 never reports.
abbrev no_job : ℕ → Pcb thousandths
no_job pid = record { pid = pid; priority = pos 0; process_length = 0; cpu_time = 0; vruntime = 0 }

no_job-IsWorkload : IsWorkload thousandths 1 no_job 1 1
unfolding sum_to
no_job-IsWorkload = record { numbered = λ pid. refl; fresh = λ pid. refl; counted = refl }

exit_impossible_example : at_loop ≢ exited
unfolding initial
exit_impossible_example = exit_impossible thousandths 1 no_job-IsWorkload start (omega arith)
