-- ===== src/Dispatch/Signals.antt =====
-- The signals between the threads of proj02/src, which change the flags of the scheduler.
use cs.Prelude.{ℕ, ◌+◌, ◌≤◌, ◌≡◌, refl, ◌∙◌, ap, subst, true, false, ◌&&◌, arith, Bool}
use cs.Prelude.Int.{pos}
use cs.Scheduling.{Doubles, Queue}
use cs.Dispatch.{
  ProcessState, process_ready, process_running, ProcessPc, looping, announcing, locking, releasing,
  SchedulerPc, at_loop, at_lock, at_wait, at_nobody, Process, System, at, move_to, wake_scheduler,
  has_exited, holds_need_scheduling, signal_scheduler_new_process,
  signal_scheduler_terminated_process,
}
use cs.Dispatch.Invariant.{
  ind, quiet, announced, claims_in, ProcessFine, total_live, SchedulerFine, Inv,
}
use cs.Dispatch.Change.{placed, same, fine_at, running_of_claim, Change-Inv}

quiet-wake :
    (scheduler : SchedulerPc) (waiting : Bool)
    → holds_need_scheduling scheduler ≡ false
    → quiet (wake_scheduler scheduler) waiting ≡ quiet scheduler waiting
unfolding holds_need_scheduling wake_scheduler
quiet-wake scheduler waiting =
    elim scheduler
      as (λ k.
        holds_need_scheduling k ≡ false → quiet (wake_scheduler k) waiting ≡ quiet k waiting) [
          | at_nobody ↦ λ h. absurd cc
          | _ ↦ λ h. refl
        ]

quiet_free :
    (scheduler : SchedulerPc) (waiting : Bool)
    → holds_need_scheduling scheduler ≡ false
    → quiet scheduler waiting ≡ waiting
unfolding holds_need_scheduling
quiet_free scheduler waiting =
    elim scheduler as (λ k. holds_need_scheduling k ≡ false → quiet k waiting ≡ waiting) [
      | at_nobody ↦ λ h. absurd cc
      | _ ↦ λ h. refl
    ]

not_both : (running waiting : Bool) → ind running + ind waiting ≤ 1 → (running && waiting) ≡ false
not_both false waiting h = refl
not_both true false h = refl
not_both true true h = absurd (omega arith)

waiting_off :
    (running waiting : Bool) → running ≡ true → ind running + ind waiting ≤ 1 → waiting ≡ false
waiting_off true false e h = refl
waiting_off true true e h = absurd (omega arith)
waiting_off false waiting e h = absurd cc

announced_le : (pc : ProcessPc) → announced pc ≤ 1
announced_le pc = elim pc as (λ k. announced k ≤ 1) [ announcing ↦ omega arith | _ ↦ omega arith ]

pub heard_off : (waits : Bool) (pc : ProcessPc) → waits ≡ false → ind waits + announced pc ≤ 1
heard_off waits pc e = omega (arith, ap ind e, announced_le pc)

claims_ready : (state : ProcessState) → state ≡ process_ready → claims_in looping state ≡ 0
claims_ready process_ready e = refl
claims_ready process_running e = absurd cc

module _ (d : Doubles) where
  -- Where nothing has to be heard, it does not matter what was.
  ProcessFine-heard :
      (created : ℕ) (waits waits' : Bool) (pid nodes : ℕ) (p : Process d)
      → waits' ≡ false
      → ProcessFine d created waits pid nodes p
      → ProcessFine d created waits' pid nodes p
  ProcessFine-heard created waits waits' pid nodes p off f = record {
    allowed = f.allowed;
    born = f.born;
    spent = f.spent;
    numbered = f.numbered;
    in_queue = f.in_queue;
    heard = heard_off waits' p.pc off;
  }

  -- A scheduler that does not wait for a process has no need of one.
  SchedulerFine-wake :
      (scheduler : SchedulerPc) (running running' waiting waiting' : Bool) (left : ℕ) (rq : Queue)
      → has_exited scheduler ≡ false
      → holds_need_scheduling scheduler ≡ false
      → waiting' ≡ false
      → SchedulerFine d (wake_scheduler scheduler) running' waiting' left rq
  unfolding wake_scheduler has_exited holds_need_scheduling
  SchedulerFine-wake scheduler running running' waiting waiting' left rq h k e =
      elim scheduler
          as (λ p.
            has_exited p ≡ false
            → holds_need_scheduling p ≡ false
            → SchedulerFine d (wake_scheduler p) running' waiting' left rq) [
              | at_loop ↦ λ h k. tt
              | at_lock ↦ λ h k. omega (arith, ap ind e)
              | at_wait ↦ λ h k. omega (arith, ap ind e)
              | _ ↦ λ h k. absurd cc
            ]
        h k

module _ (d : Doubles) {n lost : ℕ} {s : System d} (inv : Inv d n lost s) where
  pub Inv-announce :
      (pid : ℕ)
      → at d s pid ≡ announcing
      → has_exited s.scheduler ≡ false
      → holds_need_scheduling s.scheduler ≡ false
      → Inv d n lost (signal_scheduler_new_process d s pid)
  unfolding signal_scheduler_new_process move_to
  Inv-announce pid e there free =
      let f = fine_at d inv pid announcing e in
      let off = not_both s.have_running_process s.waiting_for_new_process inv.apart in
      let heard =
        quiet-wake s.scheduler (s.have_running_process && s.waiting_for_new_process) free
        ∙ quiet_free s.scheduler (s.have_running_process && s.waiting_for_new_process) free
        ∙ off in
      Change-Inv d inv {t = signal_scheduler_new_process d s pid} {pid = pid}
        {q = placed d (s.process pid) announcing} {p = placed d (s.process pid) locking}
        (record {
          was = same d (s.process pid) announcing e;
          becomes = refl;
          low = f.born.0;
          high = omega (arith, f.born.1, inv.born);
          born = inv.born;
          fine = record {
            allowed = tt;
            born = f.born;
            spent = f.spent;
            numbered = f.numbered;
            in_queue = f.in_queue;
            heard = heard_off _ locking heard;
          };
          others = λ j ne. ProcessFine-heard d s.created _ _ j _ (s.process j) heard (inv.each j);
          claimed = omega arith;
          apart = omega (arith, ap ind off, inv.apart);
          counted = λ left h.
              let k : total_live d n s.process + lost ≡ left = omega arith in
              (
                subst (λ m. s.remaining_process_count ≡ pos m) k inv.counted,
                SchedulerFine-wake d s.scheduler s.have_running_process s.have_running_process
                    s.waiting_for_new_process (s.have_running_process && s.waiting_for_new_process)
                    left s.rq there free off,
              );
        })

  pub Inv-release :
      (pid : ℕ)
      → at d s pid ≡ releasing
      → has_exited s.scheduler ≡ false
      → holds_need_scheduling s.scheduler ≡ false
      → Inv d n lost (signal_scheduler_terminated_process d s pid)
  unfolding signal_scheduler_terminated_process move_to
  Inv-release pid e there free =
      let f = fine_at d inv pid releasing e in
      let running = running_of_claim d inv pid releasing e f.born.0 f.born.1 refl in
      let one = ap ind running in
      let off : s.waiting_for_new_process ≡ false =
        waiting_off s.have_running_process s.waiting_for_new_process running inv.apart in
      let heard =
        quiet-wake s.scheduler s.waiting_for_new_process free
        ∙ quiet_free s.scheduler s.waiting_for_new_process free
        ∙ off in
      Change-Inv d inv {t = signal_scheduler_terminated_process d s pid} {pid = pid}
        {q = placed d (s.process pid) releasing} {p = placed d (s.process pid) looping}
        (record {
          was = same d (s.process pid) releasing e;
          becomes = refl;
          low = f.born.0;
          high = omega (arith, f.born.1, inv.born);
          born = inv.born;
          fine = record {
            allowed = f.allowed;
            born = f.born;
            spent = f.spent;
            numbered = f.numbered;
            in_queue = f.in_queue;
            heard = heard_off _ looping heard;
          };
          others = λ j ne. ProcessFine-heard d s.created _ _ j _ (s.process j) heard (inv.each j);
          claimed = omega (arith, one, claims_ready _ f.allowed);
          apart = omega (arith, ap ind off);
          counted = λ left h.
              let k : total_live d n s.process + lost ≡ left = omega arith in
              (
                subst (λ m. s.remaining_process_count ≡ pos m) k inv.counted,
                SchedulerFine-wake d s.scheduler s.have_running_process false
                    s.waiting_for_new_process s.waiting_for_new_process left s.rq there free off,
              );
        })
