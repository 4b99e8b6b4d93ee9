-- ===== src/Dispatch/Slices.antt =====
-- The slices of a process of proj02/src.
use cs.Prelude.{ℕ, ◌+◌, ◌≤◌, ◌≡◌, refl, ◌∙◌, sym, subst, true, ltb, arith, Bool, ok}
use cs.Prelude.Int.{ℤ, pos, ◌-ℤ◌}
use cs.Scheduling.{Doubles, Pcb, Queue, run_slice, runqueue_remove_pcb}
use cs.Scheduling.Occurrences.{occurrences-remove, occurrences-remove_other}
use cs.Scheduling.Slices.{run_slice_parts}
use cs.Dispatch.{
  ProcessState, process_ready, process_running, taking, using_cpu, releasing, SchedulerPc, at_loop,
  at_lock, at_test, at_wait, at_signal, exited, Process, System, at, start_slice, end_slice,
  count_termination,
}
use cs.Dispatch.Invariant.{ind, quiet, claims_in, ProcessFine, total_live, SchedulerFine, Inv}
use cs.Dispatch.Change.{placed, same, fine_at, running_of_claim, Change-Inv}

module _ (d : Doubles) where
  -- While a process runs, the scheduler looks at no queue.
  SchedulerFine-running :
      (scheduler : SchedulerPc) (running waiting : Bool) (left : ℕ) (rq rq' : Queue)
      → running ≡ true
      → SchedulerFine d scheduler running waiting left rq
      → SchedulerFine d scheduler running waiting left rq'
  SchedulerFine-running scheduler running waiting left rq rq' e =
      elim scheduler
        as (λ k.
          SchedulerFine d k running waiting left rq → SchedulerFine d k running waiting left rq') [
            | at_signal pid ↦ λ f. absurd (ground (arith, f.0))
            | _ ↦ λ f. f
          ]

claim_of : (state : ProcessState) → state ≡ process_running → claims_in taking state ≡ 1
claim_of process_running e = refl
claim_of process_ready e = absurd cc

live_le :
    (cpu_time process_length m left : ℕ)
    → m + ind (ltb cpu_time process_length) ≡ left + 1
    → left ≤ m
live_le cpu_time process_length m left h = ground arith

module _ (d : Doubles) where
  -- A report counts down.
  count_termination_lem :
      (pcb : Pcb d) (count : ℤ) (m left : ℕ)
      → count ≡ pos m
      → m + ind (ltb pcb.cpu_time pcb.process_length) ≡ left + 1
      → count_termination d pcb count ≡ pos left
  unfolding count_termination ◌-ℤ◌
  count_termination_lem pcb count m left e h =
      subst (λ c. count_termination d pcb c ≡ pos left) (sym e) (ground arith)

  -- While a process runs, the scheduler does not rely on the reports.
  SchedulerFine-fewer :
      (scheduler : SchedulerPc) (running waiting : Bool) (m left : ℕ) (rq : Queue)
      → running ≡ true
      → ind running + ind waiting ≤ 1
      → left ≤ m
      → SchedulerFine d scheduler running waiting m rq
      → SchedulerFine d scheduler running waiting left rq
  SchedulerFine-fewer scheduler running waiting m left rq e apart le =
      elim scheduler
        as (λ k.
          SchedulerFine d k running waiting m rq → SchedulerFine d k running waiting left rq) [
            | at_loop ↦ λ f. f
            | at_lock ↦ λ f. ground arith
            | at_test ↦ λ f. ground arith
            | at_wait ↦ λ f. (ground arith, f.1)
            | exited ↦ λ f. omega arith
            | _ ↦ λ f. f
          ]

module _ (d : Doubles) {n lost : ℕ} {s : System d} (inv : Inv d n lost s) where
  take_removed :
      (pid : ℕ) (pcb : Pcb d)
      → at d s pid ≡ taking
      → pcb.pid ≡ pid
      → pcb.cpu_time ≤ pcb.process_length
      → Inv d n lost (start_slice d s pid (runqueue_remove_pcb s.rq pid) pcb)
  unfolding start_slice
  take_removed pid pcb e numbered within =
      let f = fine_at d inv pid taking e in
      let rq = runqueue_remove_pcb s.rq pid in
      let p : Process d = record (s.process pid) { pcb = pcb; pc = using_cpu } in
      let running = running_of_claim d inv pid taking e f.born.0 f.born.1 (claim_of _ f.allowed) in
      Change-Inv d inv {t = start_slice d s pid rq pcb} {pid = pid}
        {q = placed d (s.process pid) taking} {p = p}
        (record {
          was = same d (s.process pid) taking e;
          becomes = refl;
          low = f.born.0;
          high = omega (arith, f.born.1, inv.born);
          born = inv.born;
          fine = record {
            allowed = f.allowed;
            born = f.born;
            spent = within;
            numbered = numbered;
            in_queue = occurrences-remove s.rq pid 0 f.in_queue;
            heard = omega (arith, f.heard);
          };
          others = λ j ne.
              subst
                (λ k.
                  ProcessFine d s.created (quiet s.scheduler s.waiting_for_new_process) j k
                    (s.process j))
                (sym (occurrences-remove_other s.rq pid j ne)) (inv.each j);
          claimed = omega arith;
          apart = inv.apart;
          counted = λ left h.
              let k : total_live d n s.process + lost ≡ left = omega arith in
              (
                subst (λ m. s.remaining_process_count ≡ pos m) k inv.counted,
                SchedulerFine-running d s.scheduler s.have_running_process s.waiting_for_new_process
                    left s.rq rq running
                    (subst
                      (λ m.
                        SchedulerFine d s.scheduler s.have_running_process s.waiting_for_new_process
                          m s.rq)
                      k inv.scheduling),
              );
        })

  -- The slice of a running process.
  pub Inv-take :
      (pid : ℕ) (rq : Queue) (pcb : Pcb d)
      → at d s pid ≡ taking
      → run_slice d (λ i. (s.process i).pcb) s.rq (s.process pid).pcb ≡ ok (rq, pcb)
      → Inv d n lost (start_slice d s pid rq pcb)
  Inv-take pid rq pcb e run =
      let f = fine_at d inv pid taking e in
      let (rest, numbered, same_length, within, _, _) =
        run_slice_parts d (λ i. (s.process i).pcb) s.rq rq (s.process pid).pcb pcb run in
      let rq_is : rq ≡ runqueue_remove_pcb s.rq pid =
        subst (λ k. rq ≡ runqueue_remove_pcb s.rq k) f.numbered rest in
      subst (λ k. Inv d n lost (start_slice d s pid k pcb)) (sym rq_is)
        (take_removed pid pcb e (numbered ∙ f.numbered)
          (omega (arith, same_length, within (omega (arith, f.spent)))))

  -- The end of the slice, with the report if the process is through.
  pub Inv-end : (pid : ℕ) → at d s pid ≡ using_cpu → Inv d n lost (end_slice d s pid)
  unfolding end_slice
  Inv-end pid e =
      let f = fine_at d inv pid using_cpu e in
      let p : Process d = record (s.process pid) { state = process_ready; pc = releasing } in
      let running =
        running_of_claim d inv pid using_cpu e f.born.0 f.born.1 (claim_of _ f.allowed) in
      Change-Inv d inv {t = end_slice d s pid} {pid = pid} {q = placed d (s.process pid) using_cpu}
        {p = p}
        (record {
          was = same d (s.process pid) using_cpu e;
          becomes = refl;
          low = f.born.0;
          high = omega (arith, f.born.1, inv.born);
          born = inv.born;
          fine = record {
            allowed = refl;
            born = f.born;
            spent = f.spent;
            numbered = f.numbered;
            in_queue = f.in_queue;
            heard = f.heard;
          };
          others = λ j ne. inv.each j;
          claimed = omega (arith, claim_of _ f.allowed);
          apart = inv.apart;
          counted = λ left h. (
            count_termination_lem d (s.process pid).pcb s.remaining_process_count
                (total_live d n s.process + lost) left inv.counted h,
            SchedulerFine-fewer d s.scheduler s.have_running_process s.waiting_for_new_process
                (total_live d n s.process + lost) left s.rq running inv.apart (live_le _ _ _ _ h)
                inv.scheduling,
          );
        })
