-- ===== src/Dispatch/Fixed.antt =====
-- What no step of proj02/src changes: the priority and the length of a process.
use cs.Prelude.{ℕ, ◌≡◌, refl, ◌∙◌, sym, subst, ◌==◌, arith, Bool-cases, inl, inr, ◌≢◌}
use cs.Scheduling.{Doubles, Pcb}
use cs.Scheduling.Slices.{run_slice_parts}
use cs.Dispatch.{
  Process, System, move_to, add_pcb_to_runqueue, signal_scheduler_new_process, start_slice,
  end_slice, signal_scheduler_terminated_process, signal_process, update,
}
use cs.Dispatch.Steps.{
  initial, Move, create, enter, leave, add, announce, lock, sleep, resume, take, end, release,
  signal, Step, move, spurious, spurious_scheduler, Reach, start, later,
}
use cs.Dispatch.Counting.{update_self, update_other}

module _ (d : Doubles) where
  abbrev pub SameJob : Pcb d → Pcb d → Type 0
  SameJob pcb pcb' = (pcb'.priority ≡ pcb.priority) × (pcb'.process_length ≡ pcb.process_length)

  update_job :
      (f : ℕ → Process d) (i : ℕ) (p : Process d)
      → SameJob (f i).pcb p.pcb
      → (j : ℕ) → SameJob (f j).pcb (update f i p j).pcb
  update_job f i p h j = elim (Bool-cases (j == i)) [
    | inl here ↦
        let e : j ≡ i = ground arith in
        subst (λ k. SameJob (f k).pcb (update f i p k).pcb) (sym e)
          (subst (λ q. SameJob (f i).pcb q.pcb) (sym (update_self f i p)) h)
    | inr other ↦
        let ne : j ≢ i = ground arith in
        subst (λ q. SameJob (f j).pcb q.pcb) (sym (update_other f i p j ne)) (refl, refl)
  ]

  module _ (n : ℕ) where
    Move-job :
        {s t : System d} → Move d n s t → (j : ℕ) → SameJob (s.process j).pcb (t.process j).pcb
    unfolding move_to add_pcb_to_runqueue signal_scheduler_new_process start_slice end_slice
        signal_scheduler_terminated_process signal_process
    Move-job {s} (create room) j = update_job s.process _ _ (refl, refl) j
    Move-job {s} (enter pid e more) j = update_job s.process pid _ (refl, refl) j
    Move-job {s} (leave pid e through) j = update_job s.process pid _ (refl, refl) j
    Move-job {s} (add pid e there) j = update_job s.process pid _ (refl, refl) j
    Move-job {s} (announce pid e there free) j = update_job s.process pid _ (refl, refl) j
    Move-job {s} (lock pid e) j = update_job s.process pid _ (refl, refl) j
    Move-job {s} (sleep pid e ne) j = update_job s.process pid _ (refl, refl) j
    Move-job {s} (resume pid e running) j = update_job s.process pid _ (refl, refl) j
    Move-job {s} (take pid {rq} {pcb} e there run) j =
        let (_, _, length, _, priority, _) =
          run_slice_parts d (λ i. (s.process i).pcb) s.rq rq (s.process pid).pcb pcb run in
        update_job s.process pid _ (priority, length) j
    Move-job {s} (end pid e there) j = update_job s.process pid _ (refl, refl) j
    Move-job {s} (release pid e there free) j = update_job s.process pid _ (refl, refl) j
    Move-job {s} (signal pid e free) j = update_job s.process pid _ (refl, refl) j
    Move-job _ j = (refl, refl)

    Step-job :
        {s t : System d} → Step d n s t → (j : ℕ) → SameJob (s.process j).pcb (t.process j).pcb
    unfolding move_to
    Step-job (move m) j = Move-job m j
    Step-job {s} (spurious pid e) j = update_job s.process pid _ (refl, refl) j
    Step-job (spurious_scheduler e) j = (refl, refl)

    pub Reach-job :
        {block : ℕ → Pcb d} {total : ℕ} {s : System d}
        → Reach d n block total s
        → (j : ℕ) → SameJob (block j) (s.process j).pcb
    unfolding initial
    Reach-job start j = (refl, refl)
    Reach-job (later reach step) j =
        let (priority, length) = Reach-job reach j in
        let (priority', length') = Step-job step j in (priority' ∙ priority, length' ∙ length)
