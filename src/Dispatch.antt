-- ===== src/Dispatch.antt =====
-- proj02/src: the threads of scheduler.c, process.c and generator.c, interleaved in any order. A step
-- runs from one lock to the next: a block under `mutex_runqueue` is one step, since it takes no other
-- lock; `mutex_need_scheduling` is held from step to step by the scheduler only, and the mutex of a
-- process by its own thread only. Output and the duration of `usleep` are left out.
pub mod Steps
pub mod Counting
pub mod Invariant
pub mod Change
pub mod Moves
pub mod Creation
pub mod Slices
pub mod Signals
pub mod Waking
pub mod Schedule
pub mod Picked
pub mod Safety
pub mod Fixed
pub mod Progress
pub mod Potential
pub mod Ending
mod Tests
use cs.Prelude.{
  ℕ, suc, ◌+◌, ◌≤◌, ◌<◌, ◌≡◌, ◌≢◌, Bool, true, false, ◌||◌, ◌&&◌, none, some, ok, leb,
  if◌then◌else◌, ◌==◌,
}
use cs.Prelude.Int.{ℤ, pos, ◌-ℤ◌}
use cs.Scheduling.{
  Doubles, Queue, Pcb, runqueue_init, runqueue_add_pcb, runqueue_smallest_pcb, run_slice,
}

-- `enum process_state`
pub data ProcessState : Type 0 where
  process_ready : ProcessState
  process_running : ProcessState

-- Where a process thread stands in `start_process_thread`.
pub data ProcessPc : Type 0 where
  -- not created yet
  unborn : ProcessPc
  -- before the test of the outer loop
  looping : ProcessPc
  -- before `add_pcb_to_runqueue`
  adding : ProcessPc
  -- before `signal_scheduler_new_process`
  announcing : ProcessPc
  -- before its mutex is taken, the first time or after the condition variable was signalled
  locking : ProcessPc
  -- before the test of the inner loop; the mutex is held from here to `releasing`
  testing : ProcessPc
  -- in `pthread_cond_wait`, without the mutex
  asleep : ProcessPc
  -- before `remove_pcb_from_runqueue`
  taking : ProcessPc
  -- in the slice
  using_cpu : ProcessPc
  -- before `signal_scheduler_terminated_process`
  releasing : ProcessPc
  -- behind the outer loop
  finished : ProcessPc

-- Where the scheduler thread stands in `start_scheduler_thread`.
pub data SchedulerPc : Type 0 where
  -- before the test of the outer loop
  at_loop : SchedulerPc
  -- before `mutex_need_scheduling` is taken, the first time or after a signal
  at_lock : SchedulerPc
  -- before the test of the inner loop; the mutex is held from here to `at_nobody` and `at_signal`
  at_test : SchedulerPc
  -- in `pthread_cond_wait`, without the mutex
  at_wait : SchedulerPc
  -- before the queue is read
  at_pick : SchedulerPc
  -- the queue was empty
  at_nobody : SchedulerPc
  -- before `signal_process`
  at_signal : ℕ → SchedulerPc
  -- the mutexes are destroyed
  exited : SchedulerPc

pub holds_need_scheduling : SchedulerPc → Bool
holds_need_scheduling at_test = true
holds_need_scheduling at_pick = true
holds_need_scheduling at_nobody = true
holds_need_scheduling (at_signal pid) = true
holds_need_scheduling _ = false

pub has_exited : SchedulerPc → Bool
has_exited exited = true
has_exited _ = false

pub holds_mutex : ProcessPc → Bool
holds_mutex testing = true
holds_mutex taking = true
holds_mutex using_cpu = true
holds_mutex releasing = true
holds_mutex _ = false

-- `pthread_cond_signal` on the variable that the scheduler waits for, and on that of a process.
pub wake_scheduler : SchedulerPc → SchedulerPc
wake_scheduler at_wait = at_lock
wake_scheduler other = other

pub wake_process : ProcessPc → ProcessPc
wake_process asleep = locking
wake_process other = other

-- The family with another element at an index.
pub update {ℓ} : {A : Type ℓ} → (ℕ → A) → ℕ → A → ℕ → A
update f i a j = if j == i then a else f j

module _ (d : Doubles) where
  -- A process control block with the state and the thread of the process.
  pub record Process : Type 0 where
    pub pcb : Pcb d
    pub state : ProcessState
    pub pc : ProcessPc

  -- The globals of scheduler.c, the processes by their pid, and how many the generator has created.
  pub record System : Type 0 where
    pub process : ℕ → Process
    pub created : ℕ
    pub rq : Queue
    pub have_running_process : Bool
    pub waiting_for_new_process : Bool
    pub remaining_process_count : ℤ
    pub scheduler : SchedulerPc

  abbrev pub at : System → ℕ → ProcessPc
  at s pid = (s.process pid).pc

  -- The system with a process at another place of its code.
  pub move_to : System → ℕ → ProcessPc → System
  unfolding update
  move_to s pid pc = record s {
    process = update s.process pid (record (s.process pid) { pc = pc });
  }

  -- `notify_process_termination`, if the process is through.
  pub count_termination : Pcb d → ℤ → ℤ
  unfolding ◌-ℤ◌
  count_termination pcb count =
      if leb pcb.process_length pcb.cpu_time then count -ℤ pos 1 else count

  pub add_pcb_to_runqueue : System → ℕ → System
  unfolding move_to
  add_pcb_to_runqueue s pid = record (move_to s pid announcing) { rq = runqueue_add_pcb s.rq pid }

  pub signal_scheduler_new_process : System → ℕ → System
  unfolding move_to wake_scheduler
  signal_scheduler_new_process s pid = record (move_to s pid locking) {
    waiting_for_new_process = s.have_running_process && s.waiting_for_new_process;
    scheduler = wake_scheduler s.scheduler;
  }

  pub signal_scheduler_terminated_process : System → ℕ → System
  unfolding move_to wake_scheduler
  signal_scheduler_terminated_process s pid = record (move_to s pid looping) {
    have_running_process = false;
    scheduler = wake_scheduler s.scheduler;
  }

  -- What a process does when it is woken, with what `run_slice` returned.
  pub start_slice : System → ℕ → Queue → Pcb d → System
  unfolding update
  start_slice s pid rq pcb = record s {
    process = update s.process pid (record (s.process pid) { pcb = pcb; pc = using_cpu });
    rq = rq;
  }

  -- The end of a slice.
  pub end_slice : System → ℕ → System
  unfolding update count_termination
  end_slice s pid = record s {
    process =
        update s.process pid (record (s.process pid) { state = process_ready; pc = releasing });
    remaining_process_count = count_termination (s.process pid).pcb s.remaining_process_count;
  }

  -- `signal_process`, and the scheduler's assignment behind it.
  pub signal_process : System → ℕ → System
  unfolding update wake_process
  signal_process s pid = record s {
    process =
        update s.process pid (record (s.process pid) {
          state = process_running;
          pc = wake_process (s.process pid).pc;
        });
    have_running_process = true;
    scheduler = at_loop;
  }
