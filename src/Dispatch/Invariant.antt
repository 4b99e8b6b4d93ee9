-- ===== src/Dispatch/Invariant.antt =====
-- What holds between the steps of the threads of proj02/src: of each process, of the scheduler, and of
-- the counts.
use cs.Prelude.{ℕ, ◌+◌, ◌≤◌, ◌<◌, ◌≡◌, Bool, true, false, ◌||◌, ltb, if◌then◌else◌}
use cs.Prelude.Int.{pos}
use cs.Scheduling.{Doubles, Queue}
use cs.Scheduling.Occurrences.{occurrences}
use cs.Dispatch.{
  process_ready, process_running, ProcessState, process_ready, process_running, ProcessPc, unborn,
  looping, announcing, locking, testing, asleep, taking, using_cpu, releasing, finished,
  SchedulerPc, at_loop, at_lock, at_test, at_wait, at_pick, at_nobody, at_signal, exited, Process,
  System,
}
use cs.Dispatch.Counting.{sum_to}

abbrev pub ind : Bool → ℕ
ind b = if b then 1 else 0

-- 1 where the process has a node in the queue.
abbrev pub queued : ProcessPc → ℕ
queued announcing = 1
queued locking = 1
queued testing = 1
queued asleep = 1
queued taking = 1
queued _ = 0

-- 1 where it has, and has told the scheduler.
abbrev pub announced : ProcessPc → ℕ
announced announcing = 0
announced pc = queued pc

-- 1 where the processor belongs to the process: it has been picked, and not given it back.
abbrev pub claims_in : ProcessPc → ProcessState → ℕ
claims_in releasing state = 1
claims_in pc process_running = 1
claims_in pc process_ready = 0

-- Where a process can be ready, and where running.
abbrev pub Allowed : ProcessPc → ProcessState → Type 0
Allowed announcing state = Unit
Allowed locking state = Unit
Allowed testing state = Unit
Allowed taking state = state ≡ process_running
Allowed using_cpu state = state ≡ process_running
Allowed pc state = state ≡ process_ready

-- The process is created if its number is reached.
abbrev pub Born : ℕ → ℕ → ProcessPc → Type 0
Born created pid unborn = 1 ≤ pid → created < pid
Born created pid pc = (1 ≤ pid) × (pid ≤ created)

-- What it has run for against its length.
abbrev pub Spent : ProcessPc → ℕ → ℕ → Type 0
Spent unborn cpu_time process_length = cpu_time ≡ 0
Spent finished cpu_time process_length = cpu_time ≡ process_length
Spent using_cpu cpu_time process_length = cpu_time ≤ process_length
Spent releasing cpu_time process_length = cpu_time ≤ process_length
Spent looping cpu_time process_length = cpu_time ≤ process_length
Spent pc cpu_time process_length = cpu_time < process_length

-- 1 where the process will still report its end.
abbrev pub live_in : ProcessPc → ℕ → ℕ → ℕ
live_in unborn cpu_time process_length = ind (ltb cpu_time process_length)
live_in looping cpu_time process_length = ind (ltb cpu_time process_length)
live_in releasing cpu_time process_length = ind (ltb cpu_time process_length)
live_in finished cpu_time process_length = 0
live_in pc cpu_time process_length = 1

-- The scheduler sleeps until a process announces itself.
abbrev pub quiet : SchedulerPc → Bool → Bool
quiet at_nobody waiting = true
quiet scheduler waiting = waiting

module _ (d : Doubles) where
  abbrev pub claims : Process d → ℕ
  claims p = claims_in p.pc p.state

  abbrev pub live : Process d → ℕ
  live p = live_in p.pc p.pcb.cpu_time p.pcb.process_length

  pub record ProcessFine (created : ℕ) (waits : Bool) (pid nodes : ℕ) (p : Process d) : Type 0 where
    pub allowed : Allowed p.pc p.state
    pub born : Born created pid p.pc
    pub spent : Spent p.pc p.pcb.cpu_time p.pcb.process_length
    pub numbered : p.pcb.pid ≡ pid
    pub in_queue : nodes ≡ queued p.pc
    pub heard : ind waits + announced p.pc ≤ 1

  abbrev pub total_claims : ℕ → (ℕ → Process d) → ℕ
  total_claims n process = sum_to n (λ pid. claims (process pid))

  abbrev pub total_live : ℕ → (ℕ → Process d) → ℕ
  total_live n process = sum_to n (λ pid. live (process pid))

  -- `left` is how many processes are still to report, or never will.
  abbrev pub SchedulerFine : SchedulerPc → Bool → Bool → ℕ → Queue → Type 0
  SchedulerFine at_loop running waiting left rq = Unit
  SchedulerFine at_lock running waiting left rq = ind waiting ≤ left
  SchedulerFine at_test running waiting left rq = ind waiting ≤ left
  SchedulerFine at_wait running waiting left rq =
      (ind waiting ≤ left) × ((running || waiting) ≡ true)
  SchedulerFine at_pick running waiting left rq = (running || waiting) ≡ false
  SchedulerFine at_nobody running waiting left rq = (running || waiting) ≡ false
  SchedulerFine (at_signal pid) running waiting left rq =
      ((running || waiting) ≡ false) × (1 ≤ occurrences pid rq.head)
  SchedulerFine exited running waiting left rq = left ≡ 0

  -- `lost` is how many of the processes that the scheduler counts on never report.
  pub record Inv (n lost : ℕ) (s : System d) : Type 0 where
    pub each :
        (pid : ℕ)
        → ProcessFine s.created
            (quiet s.scheduler s.waiting_for_new_process)
            pid
            (occurrences pid s.rq.head)
            (s.process pid)
    pub born : s.created ≤ n
    pub claimed : total_claims n s.process ≡ ind s.have_running_process
    pub counted : s.remaining_process_count ≡ pos (total_live n s.process + lost)
    pub apart : ind s.have_running_process + ind s.waiting_for_new_process ≤ 1
    pub scheduling :
        SchedulerFine s.scheduler s.have_running_process s.waiting_for_new_process
          (total_live n s.process + lost)
          s.rq
