-- ===== src/Dispatch/Steps.antt =====
-- The steps of the threads of proj02/src/scheduler.c, process.c and generator.c, and the systems that
-- they reach.
use cs.Prelude.{ℕ, suc, ◌≤◌, ◌<◌, ◌≡◌, ◌≢◌, true, false, ◌||◌, none, some, ok}
use cs.Prelude.Int.{pos}
use cs.Scheduling.{Doubles, Queue, Pcb, runqueue_init, runqueue_smallest_pcb, run_slice}
use cs.Dispatch.{
  process_ready, process_running, unborn, looping, adding, announcing, locking, testing, asleep,
  taking, using_cpu, releasing, finished, at_loop, at_lock, at_test, at_wait, at_pick, at_nobody,
  at_signal, exited, holds_need_scheduling, has_exited, holds_mutex, System, at, move_to,
  add_pcb_to_runqueue, signal_scheduler_new_process, signal_scheduler_terminated_process,
  start_slice, end_slice, signal_process,
}

-- `processes` is how many processes the generator creates, numbered from 1 on.
module _ (d : Doubles) (processes : ℕ) where
  -- The steps of the threads from a system to the next. A mutex that the scheduler has destroyed has no
  -- step: its use is undefined.
  pub data Move (s : System d) : System d → Type 0 where
    -- start_generator_thread
    create :
        s.created < processes
        → Move s (record (move_to d s (suc s.created) looping) { created = suc s.created })
    -- start_process_thread
    enter :
        (pid : ℕ)
        → at d s pid ≡ looping
        → (s.process pid).pcb.cpu_time < (s.process pid).pcb.process_length
        → Move s (move_to d s pid adding)
    leave :
        (pid : ℕ)
        → at d s pid ≡ looping
        → (s.process pid).pcb.process_length ≤ (s.process pid).pcb.cpu_time
        → Move s (move_to d s pid finished)
    add :
        (pid : ℕ)
        → at d s pid ≡ adding
        → has_exited s.scheduler ≡ false
        → Move s (add_pcb_to_runqueue d s pid)
    announce :
        (pid : ℕ)
        → at d s pid ≡ announcing
        → has_exited s.scheduler ≡ false
        → holds_need_scheduling s.scheduler ≡ false
        → Move s (signal_scheduler_new_process d s pid)
    lock : (pid : ℕ) → at d s pid ≡ locking → Move s (move_to d s pid testing)
    sleep :
        (pid : ℕ)
        → at d s pid ≡ testing
        → (s.process pid).state ≢ process_running
        → Move s (move_to d s pid asleep)
    resume :
        (pid : ℕ)
        → at d s pid ≡ testing
        → (s.process pid).state ≡ process_running
        → Move s (move_to d s pid taking)
    take :
        (pid : ℕ) {rq : Queue} {pcb : Pcb d}
        → at d s pid ≡ taking
        → has_exited s.scheduler ≡ false
        → run_slice d (λ i. (s.process i).pcb) s.rq (s.process pid).pcb ≡ ok (rq, pcb)
        → Move s (start_slice d s pid rq pcb)
    end :
        (pid : ℕ)
        → at d s pid ≡ using_cpu
        → has_exited s.scheduler ≡ false
        → Move s (end_slice d s pid)
    release :
        (pid : ℕ)
        → at d s pid ≡ releasing
        → has_exited s.scheduler ≡ false
        → holds_need_scheduling s.scheduler ≡ false
        → Move s (signal_scheduler_terminated_process d s pid)
    -- start_scheduler_thread
    exit :
        s.scheduler ≡ at_loop
        → s.remaining_process_count ≡ pos 0
        → Move s (record s { scheduler = exited })
    again :
        s.scheduler ≡ at_loop
        → s.remaining_process_count ≢ pos 0
        → Move s (record s { scheduler = at_lock })
    acquire : s.scheduler ≡ at_lock → Move s (record s { scheduler = at_test })
    wait :
        s.scheduler ≡ at_test
        → (s.have_running_process || s.waiting_for_new_process) ≡ true
        → Move s (record s { scheduler = at_wait })
    proceed :
        s.scheduler ≡ at_test
        → (s.have_running_process || s.waiting_for_new_process) ≡ false
        → Move s (record s { scheduler = at_pick })
    pick :
        (pid : ℕ)
        → s.scheduler ≡ at_pick
        → runqueue_smallest_pcb d (λ i. (s.process i).pcb) s.rq ≡ some pid
        → Move s (record s { scheduler = at_signal pid })
    pick_none :
        s.scheduler ≡ at_pick
        → runqueue_smallest_pcb d (λ i. (s.process i).pcb) s.rq ≡ none
        → Move s (record s { scheduler = at_nobody })
    give_up :
        s.scheduler ≡ at_nobody
        → Move s (record s { waiting_for_new_process = true; scheduler = at_loop })
    signal :
        (pid : ℕ)
        → s.scheduler ≡ at_signal pid
        → holds_mutex (at d s pid) ≡ false
        → Move s (signal_process d s pid)

  -- A wait may also end with no signal.
  pub data Step (s : System d) : System d → Type 0 where
    move : {t : System d} → Move s t → Step s t
    spurious : (pid : ℕ) → at d s pid ≡ asleep → Step s (move_to d s pid locking)
    spurious_scheduler : s.scheduler ≡ at_wait → Step s (record s { scheduler = at_lock })

  -- The threads as they are created: `block` is what the generator fills in for a process, and `total`
  -- is `total_process_count`.
  unfoldable pub initial : (ℕ → Pcb d) → ℕ → System d
  initial block total = record {
    process = λ pid. record { pcb = block pid; state = process_ready; pc = unborn };
    created = 0;
    rq = runqueue_init;
    have_running_process = false;
    waiting_for_new_process = true;
    remaining_process_count = pos total;
    scheduler = at_loop;
  }

  pub data Reach (block : ℕ → Pcb d) (total : ℕ) : System d → Type 0 where
    start : Reach block total (initial block total)
    later : {s t : System d} → Reach block total s → Step s t → Reach block total t
