-- ===== src/Dispatch/Change.antt =====
-- What a step of one process of proj02/src has to show for the invariant: about the process itself, and
-- about what it changes for the others and for the scheduler.
use cs.Prelude.{
  ℕ, ◌+◌, ◌≤◌, ◌≡◌, ◌≢◌, inl, inr, refl, sym, ap, subst, ◌==◌, Bool, true, false, arith, Bool-cases,
}
use cs.Prelude.Int.{pos}
use cs.Scheduling.{Doubles}
use cs.Scheduling.Occurrences.{occurrences}
use cs.Dispatch.{ProcessPc, SchedulerPc, Process, System, at, update}
use cs.Dispatch.Counting.{sum_to, sum_to-change, sum_to-ge, update_self, update_other}
use cs.Dispatch.Invariant.{ind, quiet, claims, live, ProcessFine, total_live, SchedulerFine, Inv}

module _ (d : Doubles) where
  abbrev pub placed : Process d → ProcessPc → Process d
  placed p pc = record p { pc = pc }

  pub same : (p : Process d) (pc : ProcessPc) → p.pc ≡ pc → p ≡ placed p pc
  same p pc e = ap (placed p) e

  ind_pos : (b : Bool) → 1 ≤ ind b → b ≡ true
  ind_pos true h = refl
  ind_pos false h = absurd (omega arith)

  module _ {n lost : ℕ} {s : System d} (inv : Inv d n lost s) where
    -- What is known of a process at a known place.
    pub fine_at :
        (pid : ℕ) (pc : ProcessPc)
        → at d s pid ≡ pc
        → ProcessFine d s.created
            (quiet s.scheduler s.waiting_for_new_process)
            pid
            (occurrences pid s.rq.head)
            (placed (s.process pid) pc)
    fine_at pid pc e =
        subst
          (ProcessFine d s.created (quiet s.scheduler s.waiting_for_new_process) pid
            (occurrences pid s.rq.head))
          (same (s.process pid) pc e) (inv.each pid)

    -- What is known of the scheduler at a known place.
    pub scheduling_at :
        (scheduler : SchedulerPc)
        → s.scheduler ≡ scheduler
        → SchedulerFine d scheduler s.have_running_process s.waiting_for_new_process
            (total_live d n s.process + lost)
            s.rq
    scheduling_at scheduler e =
        subst
          (λ k.
            SchedulerFine d k s.have_running_process s.waiting_for_new_process
              (total_live d n s.process + lost) s.rq)
          e inv.scheduling

    -- The processor is taken while a process claims it.
    pub running_of_claim :
        (pid : ℕ) (pc : ProcessPc)
        → at d s pid ≡ pc
        → 1 ≤ pid
        → pid ≤ s.created
        → claims d (placed (s.process pid) pc) ≡ 1
        → s.have_running_process ≡ true
    running_of_claim pid pc e low high claim =
        let one : claims d (s.process pid) ≡ 1 =
          subst (λ p. claims d p ≡ 1) (sym (same (s.process pid) pc e)) claim in
        let le =
          sum_to-ge n (λ j. claims d (s.process j)) pid low (omega (arith, high, inv.born)) in
        ind_pos s.have_running_process (omega (arith, le, one, inv.claimed))

    -- With the processor free no process claims it.
    pub claims_of_idle :
        (pid : ℕ)
        → 1 ≤ pid
        → pid ≤ n
        → s.have_running_process ≡ false
        → claims d (s.process pid) ≡ 0
    claims_of_idle pid low high idle =
        let le = sum_to-ge n (λ j. claims d (s.process j)) pid low high in
        omega (arith, le, inv.claimed, ap ind idle)

    -- A step to `t` that turns the process `q` into `p`.
    pub record Change (t : System d) (pid : ℕ) (q p : Process d) : Type 0 where
      pub was : s.process pid ≡ q
      pub becomes : t.process ≡ update s.process pid p
      pub low : 1 ≤ pid
      pub high : pid ≤ n
      pub born : t.created ≤ n
      pub fine :
          ProcessFine d t.created
            (quiet t.scheduler t.waiting_for_new_process)
            pid
            (occurrences pid t.rq.head)
            p
      pub others :
          (j : ℕ)
          → j ≢ pid
          → ProcessFine d t.created
              (quiet t.scheduler t.waiting_for_new_process)
              j
              (occurrences j t.rq.head)
              (s.process j)
      pub claimed :
          ind s.have_running_process + claims d p ≡ ind t.have_running_process + claims d q
      pub apart : ind t.have_running_process + ind t.waiting_for_new_process ≤ 1
      pub counted :
          (left : ℕ)
          → total_live d n s.process + lost + live d p ≡ left + live d q
          → (t.remaining_process_count ≡ pos left)
            × SchedulerFine d t.scheduler t.have_running_process t.waiting_for_new_process left t.rq

    module _ {t : System d} {pid : ℕ} {q p : Process d} (c : Change t pid q p) where
      now : t.process pid ≡ p
      now = subst (λ f. f pid ≡ p) (sym c.becomes) (update_self s.process pid p)

      unmoved : (j : ℕ) → j ≢ pid → t.process j ≡ s.process j
      unmoved j ne =
          subst (λ f. f j ≡ s.process j) (sym c.becomes) (update_other s.process pid p j ne)

      total_change :
          (w : Process d → ℕ)
          → sum_to n (λ j. w (t.process j)) + w q ≡ sum_to n (λ j. w (s.process j)) + w p
      total_change w =
          let change =
            sum_to-change n (λ j. w (s.process j)) (λ j. w (t.process j)) pid c.low c.high
              (λ j ne. ap w (unmoved j ne)) in
          omega (arith, change, ap w now, ap w c.was)

      each :
          (j : ℕ)
          → ProcessFine d t.created
              (quiet t.scheduler t.waiting_for_new_process)
              j
              (occurrences j t.rq.head)
              (t.process j)
      each j = elim (Bool-cases (j == pid)) [
        | inl here ↦
            let e : j ≡ pid = ground arith in
            subst
              (λ i.
                ProcessFine d t.created (quiet t.scheduler t.waiting_for_new_process) i
                  (occurrences i t.rq.head) (t.process i))
              (sym e)
              (subst
                (ProcessFine d t.created (quiet t.scheduler t.waiting_for_new_process) pid
                  (occurrences pid t.rq.head))
                (sym now) c.fine)
        | inr other ↦
            let ne : j ≢ pid = ground arith in
            subst
              (ProcessFine d t.created (quiet t.scheduler t.waiting_for_new_process) j
                (occurrences j t.rq.head))
              (sym (unmoved j ne)) (c.others j ne)
      ]

      pub Change-Inv : Inv d n lost t
      Change-Inv =
          let (count, scheduling) =
            c.counted (total_live d n t.process + lost) (omega (arith, total_change (live d))) in
          record {
            each = each;
            born = c.born;
            claimed = omega (arith, total_change (claims d), c.claimed, inv.claimed);
            counted = count;
            apart = c.apart;
            scheduling = scheduling;
          }
