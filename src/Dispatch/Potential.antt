-- ===== src/Dispatch/Potential.antt =====
-- A number for each system of the threads of proj02/src that every step makes smaller: for a process,
-- the time that it still has to run and its place; for the scheduler, its place and whether it waits.
use cs.Prelude.{ℕ, ◌+◌, ◌-◌, ◌*◌, ◌≤◌, ◌<◌, ◌≡◌, ap, arith, Bool, if◌then◌else◌}
use cs.Scheduling.{Doubles}
use cs.Dispatch.{
  ProcessState, process_ready, process_running, ProcessPc, unborn, looping, adding, announcing,
  locking, testing, asleep, taking, using_cpu, releasing, finished, SchedulerPc, at_loop, at_lock,
  at_test, at_wait, at_pick, at_nobody, at_signal, exited, Process, System, update, wake_scheduler,
}
use cs.Dispatch.Counting.{sum_to, sum_to-change, update_self, update_other}
use cs.Dispatch.Invariant.{Inv}

-- The steps to the next slice, with a reserve for the steps of the scheduler that a signal sets off.
abbrev pub place_potential : ProcessPc → ProcessState → ℕ
place_potential unborn state = 28
place_potential looping state = 27
place_potential adding state = 26
place_potential announcing process_ready = 25
place_potential announcing process_running = 17
place_potential locking process_ready = 16
place_potential locking process_running = 8
place_potential testing process_ready = 15
place_potential testing process_running = 7
place_potential asleep state = 14
place_potential taking state = 6
place_potential using_cpu state = 32
place_potential releasing state = 31
place_potential finished state = 0

abbrev pub scheduler_potential : SchedulerPc → Bool → ℕ
scheduler_potential at_loop waiting = if waiting then 3 else 9
scheduler_potential at_lock waiting = if waiting then 2 else 8
scheduler_potential at_test waiting = if waiting then 1 else 7
scheduler_potential at_wait waiting = if waiting then 0 else 6
scheduler_potential at_pick waiting = 5
scheduler_potential at_nobody waiting = 4
scheduler_potential (at_signal pid) waiting = 4
scheduler_potential exited waiting = 0

-- A signal sets off 8 steps of the scheduler at most.
pub wake_le :
    (scheduler : SchedulerPc) (waiting waiting' : Bool)
    → scheduler_potential (wake_scheduler scheduler) waiting'
      ≤ scheduler_potential scheduler waiting + 8
unfolding wake_scheduler
wake_le at_loop waiting waiting' = ground arith
wake_le at_lock waiting waiting' = ground arith
wake_le at_test waiting waiting' = ground arith
wake_le at_wait waiting waiting' = ground arith
wake_le at_pick waiting waiting' = omega arith
wake_le at_nobody waiting waiting' = omega arith
wake_le (at_signal pid) waiting waiting' = omega arith
wake_le exited waiting waiting' = omega arith

-- The end of a slice 2, since it leaves the flag alone.
pub wake_same_le :
    (scheduler : SchedulerPc) (waiting : Bool)
    → scheduler_potential (wake_scheduler scheduler) waiting
      ≤ scheduler_potential scheduler waiting + 2
unfolding wake_scheduler
wake_same_le at_wait waiting = ground arith
wake_same_le scheduler waiting = omega arith

module _ (d : Doubles) where
  abbrev pub potential : Process d → ℕ
  potential p = 30 * (p.pcb.process_length - p.pcb.cpu_time) + place_potential p.pc p.state

  abbrev pub system_potential : ℕ → System d → ℕ
  system_potential n s =
      sum_to n (λ pid. potential (s.process pid))
      + scheduler_potential s.scheduler s.waiting_for_new_process

  module _ {n lost : ℕ} {s : System d} (inv : Inv d n lost s) where
    total_potential :
        (pid : ℕ) (p : Process d)
        → 1 ≤ pid
        → pid ≤ n
        → sum_to n (λ k. potential (update s.process pid p k)) + potential (s.process pid)
          ≡ sum_to n (λ k. potential (s.process k)) + potential p
    total_potential pid p low high =
        let change =
          sum_to-change n (λ k. potential (s.process k)) (λ k. potential (update s.process pid p k))
            pid low high (λ j ne. ap potential (update_other s.process pid p j ne)) in
        omega (arith, change, ap potential (update_self s.process pid p))

    -- One process goes on, and the scheduler by what it is signalled.
    pub goes_down :
        (pid : ℕ) (q p : Process d) (before after : ℕ)
        → s.process pid ≡ q
        → 1 ≤ pid
        → pid ≤ n
        → potential p + after < potential q + before
        → sum_to n (λ k. potential (update s.process pid p k)) + after
          < sum_to n (λ k. potential (s.process k)) + before
    goes_down pid q p before after e low high lt =
        omega (arith, total_potential pid p low high, ap potential e)
