-- ===== src/Dispatch/Schedule.antt =====
-- The steps of the scheduler thread of proj02/src.
use cs.Prelude.{
  ℕ, zero, suc, ◌+◌, ◌≤◌, ◌≡◌, ◌≢◌, refl, ◌∙◌, sym, ap, subst, true, false, ◌||◌, arith, Bool, none,
  some,
}
use cs.Prelude.Int.{pos}
use cs.Scheduling.{Doubles, runqueue_smallest_pcb}
use cs.Scheduling.Occurrences.{occurrences, runqueue_smallest_pcb-In, runqueue_smallest_pcb-none}
use cs.Dispatch.{
  ProcessPc, announcing, SchedulerPc, at_loop, at_lock, at_test, at_wait, at_pick, at_nobody,
  at_signal, exited, System,
}
use cs.Dispatch.Invariant.{
  ind, quiet, announced, queued, ProcessFine, total_live, SchedulerFine, Inv,
}
use cs.Dispatch.Change.{scheduling_at}

announced-queued : (pc : ProcessPc) → announced pc ≤ queued pc
announced-queued pc = elim pc as (λ k. announced k ≤ queued k) [
  | announcing ↦ omega arith
  | _ ↦ omega arith
]

left_pos : (waiting : Bool) (left : ℕ) → pos left ≢ pos 0 → ind waiting ≤ left
left_pos waiting zero ne = absurd (ne refl)
left_pos true (suc left) ne = omega arith
left_pos false (suc left) ne = omega arith

left_zero : (left : ℕ) → pos left ≡ pos 0 → left ≡ 0
left_zero left e = cc

room : (running waiting : Bool) → (running || waiting) ≡ false → ind running + 1 ≤ 1
room false waiting h = omega arith
room true waiting h = absurd cc

module _ (d : Doubles) {n lost : ℕ} {s : System d} (inv : Inv d n lost s) where
  -- A scheduler that goes on where it needs no more of a process than before.
  goes_on :
      (from to : SchedulerPc)
      → s.scheduler ≡ from
      → quiet from s.waiting_for_new_process ≡ quiet to s.waiting_for_new_process
      → SchedulerFine d to s.have_running_process s.waiting_for_new_process
          (total_live d n s.process + lost)
          s.rq
      → Inv d n lost (record s { scheduler = to })
  goes_on from to e same fine = record {
    each = λ j.
        subst (λ w. ProcessFine d s.created w j (occurrences j s.rq.head) (s.process j))
          (ap (λ k. quiet k s.waiting_for_new_process) e ∙ same) (inv.each j);
    born = inv.born;
    claimed = inv.claimed;
    counted = inv.counted;
    apart = inv.apart;
    scheduling = fine;
  }

  pub Inv-exit :
      s.scheduler ≡ at_loop
      → s.remaining_process_count ≡ pos 0
      → Inv d n lost (record s { scheduler = exited })
  Inv-exit e none_left = goes_on at_loop exited e refl (left_zero _ (sym inv.counted ∙ none_left))

  pub Inv-again :
      s.scheduler ≡ at_loop
      → s.remaining_process_count ≢ pos 0
      → Inv d n lost (record s { scheduler = at_lock })
  Inv-again e more =
      goes_on at_loop at_lock e refl
        (left_pos s.waiting_for_new_process _ (λ z. more (inv.counted ∙ z)))

  pub Inv-acquire : s.scheduler ≡ at_lock → Inv d n lost (record s { scheduler = at_test })
  Inv-acquire e = goes_on at_lock at_test e refl (scheduling_at d inv at_lock e)

  pub Inv-wait :
      s.scheduler ≡ at_test
      → (s.have_running_process || s.waiting_for_new_process) ≡ true
      → Inv d n lost (record s { scheduler = at_wait })
  Inv-wait e busy = goes_on at_test at_wait e refl (scheduling_at d inv at_test e, busy)

  pub Inv-proceed :
      s.scheduler ≡ at_test
      → (s.have_running_process || s.waiting_for_new_process) ≡ false
      → Inv d n lost (record s { scheduler = at_pick })
  Inv-proceed e idle = goes_on at_test at_pick e refl idle

  pub Inv-pick :
      (pid : ℕ)
      → s.scheduler ≡ at_pick
      → runqueue_smallest_pcb d (λ i. (s.process i).pcb) s.rq ≡ some pid
      → Inv d n lost (record s { scheduler = at_signal pid })
  Inv-pick pid e run = goes_on at_pick (at_signal pid) e refl (
    scheduling_at d inv at_pick e,
    runqueue_smallest_pcb-In d (λ i. (s.process i).pcb) s.rq pid run,
  )

  pub Inv-spurious_scheduler :
      s.scheduler ≡ at_wait → Inv d n lost (record s { scheduler = at_lock })
  Inv-spurious_scheduler e =
      let (enough, _) = scheduling_at d inv at_wait e in goes_on at_wait at_lock e refl enough

  -- An empty queue leaves no process that has announced itself.
  pub Inv-pick_none :
      s.scheduler ≡ at_pick
      → runqueue_smallest_pcb d (λ i. (s.process i).pcb) s.rq ≡ none
      → Inv d n lost (record s { scheduler = at_nobody })
  Inv-pick_none e run = record {
    each = λ j.
        let f = inv.each j in
        let empty = runqueue_smallest_pcb-none d (λ i. (s.process i).pcb) s.rq j run in
        record {
          allowed = f.allowed;
          born = f.born;
          spent = f.spent;
          numbered = f.numbered;
          in_queue = f.in_queue;
          heard = omega (arith, empty, f.in_queue, announced-queued (s.process j).pc);
        };
    born = inv.born;
    claimed = inv.claimed;
    counted = inv.counted;
    apart = inv.apart;
    scheduling = scheduling_at d inv at_pick e;
  }

  pub Inv-give_up :
      s.scheduler ≡ at_nobody
      → Inv d n lost (record s { waiting_for_new_process = true; scheduler = at_loop })
  Inv-give_up e = record {
    each = λ j.
        subst (λ w. ProcessFine d s.created w j (occurrences j s.rq.head) (s.process j))
          (ap (λ k. quiet k s.waiting_for_new_process) e) (inv.each j);
    born = inv.born;
    claimed = inv.claimed;
    counted = inv.counted;
    apart = room s.have_running_process s.waiting_for_new_process (scheduling_at d inv at_nobody e);
    scheduling = tt;
  }
