-- ===== src/Dispatch/Creation.antt =====
-- The creation of a process of proj02/src, and its place in the queue.
use cs.Prelude.{ℕ, suc, ◌+◌, ◌≤◌, ◌<◌, ◌≡◌, ◌≢◌, refl, sym, subst, arith, Bool}
use cs.Prelude.Int.{pos}
use cs.Scheduling.{Doubles, Queue, runqueue_add_pcb}
use cs.Scheduling.Occurrences.{
  occurrences-add_le, occurrences, occurrences-add, occurrences-add_other,
}
use cs.Dispatch.{
  ProcessPc, unborn, looping, adding, announcing, SchedulerPc, at_signal, System, at, move_to,
  add_pcb_to_runqueue,
}
use cs.Dispatch.Invariant.{Born, quiet, ProcessFine, total_live, SchedulerFine, Inv}
use cs.Dispatch.Change.{placed, same, fine_at, Change-Inv}

pub unborn_of : (created : ℕ) (pc : ProcessPc) → Born created (suc created) pc → pc ≡ unborn
unborn_of created pc = elim pc as (λ k. Born created (suc created) k → k ≡ unborn) [
  | unborn ↦ λ h. refl
  | _ ↦ λ h. absurd (omega arith)
]

Born-next :
    (created pid : ℕ) (pc : ProcessPc)
    → pid ≢ suc created
    → Born created pid pc
    → Born (suc created) pid pc
Born-next created pid pc ne = elim pc as (λ k. Born created pid k → Born (suc created) pid k) [
  | unborn ↦ λ h ge. let lt = h ge in omega arith
  | _ ↦ λ h. (h.0, omega (arith, h.1))
]

module _ (d : Doubles) where
  -- A longer queue is as good for the scheduler.
  SchedulerFine-longer :
      (scheduler : SchedulerPc) (running waiting : Bool) (left : ℕ) (rq rq' : Queue)
      → ((pid : ℕ) → occurrences pid rq.head ≤ occurrences pid rq'.head)
      → SchedulerFine d scheduler running waiting left rq
      → SchedulerFine d scheduler running waiting left rq'
  SchedulerFine-longer scheduler running waiting left rq rq' h =
      elim scheduler
        as (λ k.
          SchedulerFine d k running waiting left rq → SchedulerFine d k running waiting left rq') [
            | at_signal pid ↦ λ f. (f.0, omega (arith, h pid, f.1))
            | _ ↦ λ f. f
          ]

module _ (d : Doubles) {n lost : ℕ} {s : System d} (inv : Inv d n lost s) where
  pub Inv-create :
      s.created < n
      → Inv d n lost (record (move_to d s (suc s.created) looping) { created = suc s.created })
  unfolding move_to
  Inv-create room =
      let pid = suc s.created in
      let e = unborn_of s.created (s.process pid).pc (inv.each pid).born in
      let f = fine_at d inv pid unborn e in
      let spent = f.spent in
      Change-Inv d inv {t = record (move_to d s pid looping) { created = pid }} {pid = pid}
        {q = placed d (s.process pid) unborn} {p = placed d (s.process pid) looping}
        (record {
          was = same d (s.process pid) unborn e;
          becomes = refl;
          low = omega arith;
          high = omega arith;
          born = omega arith;
          fine = record {
            allowed = f.allowed;
            born = (omega arith, omega arith);
            spent = omega arith;
            numbered = f.numbered;
            in_queue = f.in_queue;
            heard = f.heard;
          };
          others = λ j ne.
              let g = inv.each j in
              record {
                allowed = g.allowed;
                born = Born-next s.created j (s.process j).pc ne g.born;
                spent = g.spent;
                numbered = g.numbered;
                in_queue = g.in_queue;
                heard = g.heard;
              };
          claimed = omega arith;
          apart = inv.apart;
          counted = λ left h.
              let k : total_live d n s.process + lost ≡ left = omega arith in
              (
                subst (λ m. s.remaining_process_count ≡ pos m) k inv.counted,
                subst
                    (λ m.
                      SchedulerFine d s.scheduler s.have_running_process s.waiting_for_new_process m
                        s.rq)
                    k inv.scheduling,
              );
        })

  pub Inv-add : (pid : ℕ) → at d s pid ≡ adding → Inv d n lost (add_pcb_to_runqueue d s pid)
  unfolding add_pcb_to_runqueue move_to
  Inv-add pid e =
      let f = fine_at d inv pid adding e in
      let in_queue = f.in_queue in
      Change-Inv d inv {t = add_pcb_to_runqueue d s pid} {pid = pid}
        {q = placed d (s.process pid) adding} {p = placed d (s.process pid) announcing}
        (record {
          was = same d (s.process pid) adding e;
          becomes = refl;
          low = f.born.0;
          high = omega (arith, f.born.1, inv.born);
          born = inv.born;
          fine = record {
            allowed = tt;
            born = f.born;
            spent = f.spent;
            numbered = f.numbered;
            in_queue = omega (arith, occurrences-add s.rq pid);
            heard = f.heard;
          };
          others = λ j ne.
              subst
                (λ k.
                  ProcessFine d s.created (quiet s.scheduler s.waiting_for_new_process) j k
                    (s.process j))
                (sym (occurrences-add_other s.rq pid j ne)) (inv.each j);
          claimed = omega arith;
          apart = inv.apart;
          counted = λ left h.
              let k : total_live d n s.process + lost ≡ left = omega arith in
              (
                subst (λ m. s.remaining_process_count ≡ pos m) k inv.counted,
                SchedulerFine-longer d s.scheduler s.have_running_process s.waiting_for_new_process
                    left s.rq (runqueue_add_pcb s.rq pid) (λ j. occurrences-add_le s.rq pid j)
                    (subst
                      (λ m.
                        SchedulerFine d s.scheduler s.have_running_process s.waiting_for_new_process
                          m s.rq)
                      k inv.scheduling),
              );
        })
