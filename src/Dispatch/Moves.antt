-- ===== src/Dispatch/Moves.antt =====
-- The steps of the process threads of proj02/src.
use cs.Prelude.{ℕ, ◌+◌, ◌≤◌, ◌<◌, ◌≡◌, ◌≢◌, refl, subst, arith}
use cs.Prelude.Int.{pos}
use cs.Scheduling.{Doubles}
use cs.Scheduling.Occurrences.{occurrences}
use cs.Dispatch.{
  ProcessState, process_ready, process_running, ProcessPc, looping, adding, locking, testing,
  asleep, taking, finished, System, at, move_to,
}
use cs.Dispatch.Invariant.{quiet, claims, live, ProcessFine, total_live, SchedulerFine, Inv}
use cs.Dispatch.Change.{placed, same, fine_at, Change-Inv}

module _ (d : Doubles) {n lost : ℕ} {s : System d} (inv : Inv d n lost s) where
  -- A process that goes on, and changes nothing else.
  Inv-move_to :
      (pid : ℕ) (pc pc' : ProcessPc)
      → at d s pid ≡ pc
      → 1 ≤ pid
      → pid ≤ s.created
      → ProcessFine d s.created
          (quiet s.scheduler s.waiting_for_new_process)
          pid
          (occurrences pid s.rq.head)
          (placed d (s.process pid) pc')
      → claims d (placed d (s.process pid) pc') ≡ claims d (placed d (s.process pid) pc)
      → live d (placed d (s.process pid) pc') ≡ live d (placed d (s.process pid) pc)
      → Inv d n lost (move_to d s pid pc')
  unfolding move_to
  Inv-move_to pid pc pc' e low high fine claimed lives =
      Change-Inv d inv {t = move_to d s pid pc'} {pid = pid} {q = placed d (s.process pid) pc}
        {p = placed d (s.process pid) pc'}
        (record {
          was = same d (s.process pid) pc e;
          becomes = refl;
          low = low;
          high = omega (arith, inv.born);
          born = inv.born;
          fine = fine;
          others = λ j ne. inv.each j;
          claimed = omega (arith, claimed);
          apart = inv.apart;
          counted = λ left h.
              let k : total_live d n s.process + lost ≡ left = omega (arith, lives) in
              (
                subst (λ m. s.remaining_process_count ≡ pos m) k inv.counted,
                subst
                    (λ m.
                      SchedulerFine d s.scheduler s.have_running_process s.waiting_for_new_process m
                        s.rq)
                    k inv.scheduling,
              );
        })

  pub Inv-enter :
      (pid : ℕ)
      → at d s pid ≡ looping
      → (s.process pid).pcb.cpu_time < (s.process pid).pcb.process_length
      → Inv d n lost (move_to d s pid adding)
  Inv-enter pid e more =
      let f = fine_at d inv pid looping e in
      Inv-move_to pid looping adding e f.born.0 f.born.1
        (record {
          allowed = f.allowed;
          born = f.born;
          spent = more;
          numbered = f.numbered;
          in_queue = f.in_queue;
          heard = f.heard;
        })
        refl (ground arith)

  pub Inv-leave :
      (pid : ℕ)
      → at d s pid ≡ looping
      → (s.process pid).pcb.process_length ≤ (s.process pid).pcb.cpu_time
      → Inv d n lost (move_to d s pid finished)
  Inv-leave pid e through =
      let f = fine_at d inv pid looping e in
      let spent = f.spent in
      Inv-move_to pid looping finished e f.born.0 f.born.1
        (record {
          allowed = f.allowed;
          born = f.born;
          spent = omega arith;
          numbered = f.numbered;
          in_queue = f.in_queue;
          heard = f.heard;
        })
        refl (ground arith)

  pub Inv-lock : (pid : ℕ) → at d s pid ≡ locking → Inv d n lost (move_to d s pid testing)
  Inv-lock pid e =
      let f = fine_at d inv pid locking e in
      Inv-move_to pid locking testing e f.born.0 f.born.1
        (record {
          allowed = tt;
          born = f.born;
          spent = f.spent;
          numbered = f.numbered;
          in_queue = f.in_queue;
          heard = f.heard;
        })
        refl refl

  ready_of : (state : ProcessState) → state ≢ process_running → state ≡ process_ready
  ready_of process_ready ne = refl
  ready_of process_running ne = absurd (ne refl)

  pub Inv-sleep :
      (pid : ℕ)
      → at d s pid ≡ testing
      → (s.process pid).state ≢ process_running
      → Inv d n lost (move_to d s pid asleep)
  Inv-sleep pid e ne =
      let f = fine_at d inv pid testing e in
      Inv-move_to pid testing asleep e f.born.0 f.born.1
        (record {
          allowed = ready_of (s.process pid).state ne;
          born = f.born;
          spent = f.spent;
          numbered = f.numbered;
          in_queue = f.in_queue;
          heard = f.heard;
        })
        refl refl

  pub Inv-resume :
      (pid : ℕ)
      → at d s pid ≡ testing
      → (s.process pid).state ≡ process_running
      → Inv d n lost (move_to d s pid taking)
  Inv-resume pid e running =
      let f = fine_at d inv pid testing e in
      Inv-move_to pid testing taking e f.born.0 f.born.1
        (record {
          allowed = running;
          born = f.born;
          spent = f.spent;
          numbered = f.numbered;
          in_queue = f.in_queue;
          heard = f.heard;
        })
        refl refl

  pub Inv-spurious : (pid : ℕ) → at d s pid ≡ asleep → Inv d n lost (move_to d s pid locking)
  Inv-spurious pid e =
      let f = fine_at d inv pid asleep e in
      Inv-move_to pid asleep locking e f.born.0 f.born.1
        (record {
          allowed = tt;
          born = f.born;
          spent = f.spent;
          numbered = f.numbered;
          in_queue = f.in_queue;
          heard = f.heard;
        })
        refl refl
