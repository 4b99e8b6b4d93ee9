-- ===== src/Dispatch/Progress.antt =====
-- The threads of proj02/src do not wait for each other in vain.
use cs.Prelude.{
  ℕ, zero, suc, ◌+◌, ◌≤◌, ◌≡◌, ◌≢◌, refl, ◌∙◌, sym, ap, subst, true, false, arith, Bool, Bool-cases,
  Option-cases, inl, inr, ◌||◌, ◌⊎◌,
}
use cs.Prelude.Int.{pos}
use cs.Scheduling.{Doubles, Pcb, runqueue_smallest_pcb}
use cs.Scheduling.Weights.{IsPriority}
use cs.Scheduling.Slices.{run_slice_ok}
use cs.Dispatch.{
  ProcessState, process_ready, process_running, ProcessPc, unborn, looping, adding, announcing,
  locking, testing, asleep, taking, using_cpu, releasing, finished, SchedulerPc, at_loop, at_lock,
  at_test, at_wait, at_pick, at_nobody, at_signal, exited, System, at, has_exited,
  holds_need_scheduling, holds_mutex,
}
use cs.Dispatch.Steps.{
  Move, create, enter, add, announce, lock, sleep, resume, take, end, release, exit, again, acquire,
  wait, proceed, pick, pick_none, give_up, signal, Reach,
}
use cs.Dispatch.Counting.{sum_to-pos}
use cs.Dispatch.Invariant.{ind, quiet, claims, claims_in, live, total_live, Inv}
use cs.Dispatch.Change.{placed, fine_at, scheduling_at, claims_of_idle}
use cs.Dispatch.Fixed.{Reach-job}
use cs.Dispatch.Safety.{IsWorkload, Reach-Inv}
use cs.Dispatch.Picked.{uses_cpu, picked_process}

ready_claims :
    (pc : ProcessPc) (state : ProcessState)
    → state ≡ process_ready
    → uses_cpu pc ≡ false
    → claims_in pc state ≡ 0
ready_claims pc process_running e h = absurd cc
ready_claims releasing process_ready e h = absurd cc
ready_claims pc process_ready e h = refl

running_of : (state : ProcessState) → 1 ≤ claims_in testing state → state ≡ process_running
running_of process_running h = refl
running_of process_ready h = absurd (omega arith)

not_running : (state : ProcessState) → claims_in testing state ≡ 0 → state ≢ process_running
not_running process_ready h e = cc
not_running process_running h e = absurd (omega arith)

waiting_of :
    (running waiting : Bool) → (running || waiting) ≡ true → running ≡ false → waiting ≡ true
waiting_of false waiting h e = h
waiting_of true waiting h e = absurd cc

zero_or_more : (k : ℕ) → (k ≡ 0) ⊎ (1 ≤ k)
zero_or_more k = omega arith

pos-ne : (k : ℕ) → 1 ≤ k → pos k ≢ pos 0
pos-ne zero h e = absurd (omega arith)
pos-ne (suc k) h e = cc

module _ (d : Doubles) (n : ℕ) where
  -- Some thread can go on.
  abbrev pub CanMove : System d → Type 0
  CanMove s = (t : System d) × Move d n s t

  module _ {s : System d} (inv : Inv d n 0 s)
      (nice : (pid : ℕ) → IsPriority (s.process pid).pcb.priority) where
    -- The place of a scheduler that waits.
    there : s.scheduler ≡ at_wait → has_exited s.scheduler ≡ false
    unfolding has_exited
    there e = ap has_exited e

    free : s.scheduler ≡ at_wait → holds_need_scheduling s.scheduler ≡ false
    unfolding holds_need_scheduling
    free e = ap holds_need_scheduling e

    claimant_moves :
        s.scheduler ≡ at_wait
        → (pid : ℕ) (pc : ProcessPc) → at d s pid ≡ pc
        → 1 ≤ claims d (placed d (s.process pid) pc)
        → CanMove s
    claimant_moves w pid announcing e claim = (_, announce pid e (there w) (free w))
    claimant_moves w pid locking e claim = (_, lock pid e)
    claimant_moves w pid testing e claim = (_, resume pid e (running_of _ claim))
    claimant_moves w pid taking e claim =
        let (_, _, run) = run_slice_ok d (λ i. (s.process i).pcb) s.rq pid nice in
        (_, take pid e (there w) run)
    claimant_moves w pid using_cpu e claim = (_, end pid e (there w))
    claimant_moves w pid releasing e claim = (_, release pid e (there w) (free w))
    claimant_moves w pid asleep e claim =
        let f = fine_at d inv pid asleep e in
        absurd (omega (arith, ready_claims asleep (s.process pid).state f.allowed refl))
    claimant_moves w pid unborn e claim =
        let f = fine_at d inv pid unborn e in
        absurd (omega (arith, ready_claims unborn (s.process pid).state f.allowed refl))
    claimant_moves w pid looping e claim =
        let f = fine_at d inv pid looping e in
        absurd (omega (arith, ready_claims looping (s.process pid).state f.allowed refl))
    claimant_moves w pid adding e claim =
        let f = fine_at d inv pid adding e in
        absurd (omega (arith, ready_claims adding (s.process pid).state f.allowed refl))
    claimant_moves w pid finished e claim =
        let f = fine_at d inv pid finished e in
        absurd (omega (arith, ready_claims finished (s.process pid).state f.allowed refl))

    -- With the processor free, a process that will still report has not announced itself.
    silent_moves :
        s.scheduler ≡ at_wait
        → quiet s.scheduler s.waiting_for_new_process ≡ true
        → (pid : ℕ) (pc : ProcessPc) → at d s pid ≡ pc
        → 1 ≤ pid
        → pid ≤ n
        → 1 ≤ live d (placed d (s.process pid) pc)
        → claims d (placed d (s.process pid) pc) ≡ 0
        → CanMove s
    silent_moves w q pid unborn e low high lives unclaimed =
        let f = fine_at d inv pid unborn e in (_, create (let lt = f.born low in omega arith))
    silent_moves w q pid looping e low high lives unclaimed = (_, enter pid e (ground arith))
    silent_moves w q pid adding e low high lives unclaimed = (_, add pid e (there w))
    silent_moves w q pid announcing e low high lives unclaimed =
        (_, announce pid e (there w) (free w))
    silent_moves w q pid locking e low high lives unclaimed =
        let f = fine_at d inv pid locking e in absurd (omega (arith, f.heard, ap ind q))
    silent_moves w q pid testing e low high lives unclaimed =
        let f = fine_at d inv pid testing e in absurd (omega (arith, f.heard, ap ind q))
    silent_moves w q pid asleep e low high lives unclaimed =
        let f = fine_at d inv pid asleep e in absurd (omega (arith, f.heard, ap ind q))
    silent_moves w q pid taking e low high lives unclaimed =
        let f = fine_at d inv pid taking e in absurd (omega (arith, f.heard, ap ind q))
    silent_moves w q pid using_cpu e low high lives unclaimed = (_, end pid e (there w))
    silent_moves w q pid releasing e low high lives unclaimed = absurd (omega arith)
    silent_moves w q pid finished e low high lives unclaimed = absurd (omega arith)

    waiter_moves : s.scheduler ≡ at_wait → CanMove s
    waiter_moves w = elim (Bool-cases s.have_running_process) [
      | inl running ↦
          let (pid, low, high, claim) =
            sum_to-pos n (λ k. claims d (s.process k))
              (omega (arith, inv.claimed, ap ind running)) in
          claimant_moves w pid (at d s pid) refl claim
      | inr idle ↦
          let (enough, busy) = scheduling_at d inv at_wait w in
          let waiting = waiting_of s.have_running_process s.waiting_for_new_process busy idle in
          let (pid, low, high, lives) =
            sum_to-pos n (λ k. live d (s.process k)) (omega (arith, enough, ap ind waiting)) in
          silent_moves w (ap (λ k. quiet k s.waiting_for_new_process) w ∙ waiting) pid (at d s pid)
            refl low high lives (claims_of_idle d inv pid low high idle)
    ]

    -- The mutex of the process that is signalled is free, or the process is about to wait.
    picked_moves :
        (pid : ℕ)
        → s.scheduler ≡ at_signal pid
        → (pc : ProcessPc) → at d s pid ≡ pc
        → uses_cpu pc ≡ false
        → claims d (placed d (s.process pid) pc) ≡ 0
        → CanMove s
    unfolding holds_mutex
    picked_moves pid w testing e unused unclaimed = (_, sleep pid e (not_running _ unclaimed))
    picked_moves pid w taking e unused unclaimed = absurd cc
    picked_moves pid w using_cpu e unused unclaimed = absurd cc
    picked_moves pid w releasing e unused unclaimed = absurd cc
    picked_moves pid w pc e unused unclaimed = (_, signal pid w (ap holds_mutex e))

    loop_moves : s.scheduler ≡ at_loop → CanMove s
    loop_moves w = elim (zero_or_more (total_live d n s.process + 0)) [
      | inl none_left ↦ (_, exit w (inv.counted ∙ ap pos none_left))
      | inr more ↦ (_, again w (λ z. pos-ne _ more (sym inv.counted ∙ z)))
    ]

    test_moves : s.scheduler ≡ at_test → CanMove s
    test_moves w = elim (Bool-cases (s.have_running_process || s.waiting_for_new_process)) [
      | inl busy ↦ (_, wait w busy)
      | inr idle ↦ (_, proceed w idle)
    ]

    pick_moves : s.scheduler ≡ at_pick → CanMove s
    pick_moves w = elim (Option-cases (runqueue_smallest_pcb d (λ i. (s.process i).pcb) s.rq)) [
      | inl run ↦ (_, pick_none w run)
      | inr (pid, run) ↦ (_, pick pid w run)
    ]

  -- Where `total_process_count` is the number of the processes, all of them of positive length, and all
  -- nice values are in the table, some thread can go on at any time before the end of the scheduler thread,
  -- without a wait that ends with no signal: no wakeup is lost, and no lock is waited for in a circle.
  pub no_deadlock :
      (block : ℕ → Pcb d) (total : ℕ) (s : System d)
      → IsWorkload d n block total 0
      → ((pid : ℕ) → IsPriority (block pid).priority)
      → Reach d n block total s
      → s.scheduler ≢ exited
      → CanMove s
  no_deadlock block total s workload nice reach running = by_place s.scheduler refl
    where
      inv : Inv d n 0 s
      inv = Reach-Inv d n workload reach

      nice' : (pid : ℕ) → IsPriority (s.process pid).pcb.priority
      nice' pid = let (e, _) = Reach-job d n reach pid in subst IsPriority (sym e) (nice pid)

      by_place : (place : SchedulerPc) → s.scheduler ≡ place → CanMove s
      by_place at_loop e = loop_moves inv nice' e
      by_place at_lock e = (_, acquire e)
      by_place at_test e = test_moves inv nice' e
      by_place at_wait e = waiter_moves inv nice' e
      by_place at_pick e = pick_moves inv nice' e
      by_place at_nobody e = (_, give_up e)
      by_place (at_signal pid) e =
          let (_, _, _, unclaimed, unused, _, _) = picked_process d inv pid e in
          picked_moves inv nice' pid e (at d s pid) refl unused unclaimed
      by_place exited e = absurd (running e)
