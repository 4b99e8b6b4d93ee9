-- ===== src/Dispatch/Ending.antt =====
-- The threads of proj02/src come to an end.
use cs.Prelude.{
  ℕ, suc, ◌+◌, ◌-◌, ◌*◌, ◌≤◌, ◌<◌, ◌≡◌, ◌≢◌, refl, ap, false, arith, ◌&&◌, ◌⊎◌, inl, inr,
}
use cs.Scheduling.{Doubles, Pcb}
use cs.Scheduling.Slices.{run_slice_parts}
use cs.Scheduling.Weights.{IsPriority}
use cs.Dispatch.{
  ProcessState, process_ready, process_running, ProcessPc, unborn, looping, adding, announcing,
  locking, testing, asleep, taking, using_cpu, releasing, SchedulerPc, at_loop, exited, Process,
  System, at, update, move_to, add_pcb_to_runqueue, signal_scheduler_new_process, start_slice,
  end_slice, signal_scheduler_terminated_process, signal_process, wake_process, holds_mutex,
}
use cs.Dispatch.Steps.{
  Move, create, enter, leave, add, announce, lock, sleep, resume, take, end, release, exit, again,
  acquire, wait, proceed, pick, pick_none, give_up, signal, initial, Reach, start, later, move,
}
use cs.Dispatch.Invariant.{Inv, queued, claims_in}
use cs.Dispatch.Change.{placed, same, fine_at}
use cs.Dispatch.Creation.{unborn_of}
use cs.Dispatch.Waking.{neither_right}
use cs.Dispatch.Safety.{IsWorkload, Reach-Inv, exit_complete}
use cs.Dispatch.Picked.{uses_cpu, picked_process}
use cs.Dispatch.Counting.{sum_to, sum_to-le}
use cs.Dispatch.Progress.{CanMove, no_deadlock}
use cs.Dispatch.Potential.{
  place_potential, scheduler_potential, wake_le, wake_same_le, potential, system_potential,
  goes_down,
}

lock_lt : (state : ProcessState) → place_potential testing state < place_potential locking state
lock_lt process_ready = omega arith
lock_lt process_running = omega arith

announce_lt :
    (state : ProcessState) → place_potential locking state + 9 ≤ place_potential announcing state
announce_lt process_ready = omega arith
announce_lt process_running = omega arith

add_lt : (state : ProcessState) → place_potential announcing state < 26
add_lt process_ready = omega arith
add_lt process_running = omega arith

sleep_lt : (state : ProcessState) → state ≢ process_running → 14 < place_potential testing state
sleep_lt process_ready ne = omega arith
sleep_lt process_running ne = absurd (ne refl)

resume_lt : (state : ProcessState) → state ≡ process_running → 6 < place_potential testing state
resume_lt process_running e = omega arith
resume_lt process_ready e = absurd cc

claims_running : (pc : ProcessPc) → claims_in pc process_running ≡ 1
claims_running pc = elim pc as (λ k. claims_in k process_running ≡ 1) [
  | releasing ↦ refl
  | _ ↦ refl
]

-- A process that is picked, with the scheduler from `at_signal` on.
signal_lt :
    (pc : ProcessPc) (state : ProcessState)
    → queued pc ≡ 1
    → uses_cpu pc ≡ false
    → holds_mutex pc ≡ false
    → claims_in pc state ≡ 0
    → place_potential (wake_process pc) process_running + 5 < place_potential pc state
unfolding wake_process holds_mutex
signal_lt announcing process_ready one unused free e = omega arith
signal_lt locking process_ready one unused free e = omega arith
signal_lt asleep process_ready one unused free e = omega arith
signal_lt testing process_ready one unused free e = absurd cc
signal_lt taking process_ready one unused free e = absurd cc
signal_lt pc process_ready one unused free e = absurd (omega arith)
signal_lt pc process_running one unused free e = absurd (omega (arith, claims_running pc))

take_potential : (left left' : ℕ) → left' < left → 30 * left' + 32 < 30 * left + 6
take_potential left left' lt = omega arith

module _ (d : Doubles) (n : ℕ) where
  module _ {lost : ℕ} {s : System d} (inv : Inv d n lost s) where
    process_goes :
        (pid : ℕ) (pc : ProcessPc) (p : Process d)
        → at d s pid ≡ pc
        → 1 ≤ pid
        → pid ≤ s.created
        → potential d p < potential d (placed d (s.process pid) pc)
        → sum_to n (λ k. potential d (update s.process pid p k))
            + scheduler_potential s.scheduler s.waiting_for_new_process
          < system_potential d n s
    process_goes pid pc p e low high lt =
        goes_down d inv pid (placed d (s.process pid) pc) p
          (scheduler_potential s.scheduler s.waiting_for_new_process)
          (scheduler_potential s.scheduler s.waiting_for_new_process) (same d (s.process pid) pc e)
          low (omega (arith, high, inv.born)) (omega arith)

    -- Every step makes the potential smaller.
    Move-smaller : {t : System d} → Move d n s t → system_potential d n t < system_potential d n s
    unfolding move_to add_pcb_to_runqueue signal_scheduler_new_process start_slice end_slice
        signal_scheduler_terminated_process signal_process
    Move-smaller (enter pid e more) =
        let f = fine_at d inv pid looping e in
        process_goes pid looping _ e f.born.0 f.born.1 (omega arith)
    Move-smaller (leave pid e through) =
        let f = fine_at d inv pid looping e in
        process_goes pid looping _ e f.born.0 f.born.1 (omega arith)
    Move-smaller (add pid e there) =
        let f = fine_at d inv pid adding e in
        process_goes pid adding _ e f.born.0 f.born.1 (omega (arith, add_lt (s.process pid).state))
    Move-smaller (lock pid e) =
        let f = fine_at d inv pid locking e in
        process_goes pid locking _ e f.born.0 f.born.1
          (omega (arith, lock_lt (s.process pid).state))
    Move-smaller (sleep pid e ne) =
        let f = fine_at d inv pid testing e in
        process_goes pid testing _ e f.born.0 f.born.1
          (omega (arith, sleep_lt (s.process pid).state ne))
    Move-smaller (resume pid e running) =
        let f = fine_at d inv pid testing e in
        process_goes pid testing _ e f.born.0 f.born.1
          (omega (arith, resume_lt (s.process pid).state running))
    Move-smaller (end pid e there) =
        let f = fine_at d inv pid using_cpu e in
        process_goes pid using_cpu _ e f.born.0 f.born.1 (omega arith)
    Move-smaller (take pid {rq} {pcb} e there run) =
        let f = fine_at d inv pid taking e in
        let (_, _, same_length, within, _, forth) =
          run_slice_parts d (λ i. (s.process i).pcb) s.rq rq (s.process pid).pcb pcb run in
        let later = forth f.spent in
        process_goes pid taking _ e f.born.0 f.born.1 (
          take_potential ((s.process pid).pcb.process_length - (s.process pid).pcb.cpu_time)
            (pcb.process_length - pcb.cpu_time) (omega (arith, f.spent)))
    Move-smaller (announce pid e there free) =
        let f = fine_at d inv pid announcing e in
        goes_down d inv pid (placed d (s.process pid) announcing) _ _ _
          (same d (s.process pid) announcing e) f.born.0 (omega (arith, f.born.1, inv.born))
          (omega (
            arith,
            announce_lt (s.process pid).state,
            wake_le s.scheduler s.waiting_for_new_process
                (s.have_running_process && s.waiting_for_new_process),
          ))
    Move-smaller (release pid e there free) =
        let f = fine_at d inv pid releasing e in
        goes_down d inv pid (placed d (s.process pid) releasing) _ _ _
          (same d (s.process pid) releasing e) f.born.0 (omega (arith, f.born.1, inv.born))
          (omega (arith, wake_same_le s.scheduler s.waiting_for_new_process))
    Move-smaller (exit e none_left) =
        let k = ap (λ p. scheduler_potential p s.waiting_for_new_process) e in ground arith
    Move-smaller (again e more) =
        let k = ap (λ p. scheduler_potential p s.waiting_for_new_process) e in ground arith
    Move-smaller (acquire e) =
        let k = ap (λ p. scheduler_potential p s.waiting_for_new_process) e in ground arith
    Move-smaller (wait e busy) =
        let k = ap (λ p. scheduler_potential p s.waiting_for_new_process) e in ground arith
    Move-smaller (proceed e idle) =
        let k = ap (λ p. scheduler_potential p s.waiting_for_new_process) e in
        let w = neither_right s.have_running_process s.waiting_for_new_process idle in ground arith
    Move-smaller (pick pid e run) =
        let k = ap (λ p. scheduler_potential p s.waiting_for_new_process) e in omega arith
    Move-smaller (pick_none e run) =
        let k = ap (λ p. scheduler_potential p s.waiting_for_new_process) e in omega arith
    Move-smaller (give_up e) =
        let k = ap (λ p. scheduler_potential p s.waiting_for_new_process) e in omega arith
    Move-smaller (signal pid e free) =
        let (one, low, high, unclaimed, unused, _, off) = picked_process d inv pid e in
        let k = ap (λ p. scheduler_potential p s.waiting_for_new_process) e in
        let after : scheduler_potential at_loop s.waiting_for_new_process ≡ 9 =
          ap (scheduler_potential at_loop) off in
        goes_down d inv pid (s.process pid) _ _ _ refl low (omega (arith, high, inv.born))
          (omega (arith, signal_lt (at d s pid) (s.process pid).state one unused free unclaimed))
    Move-smaller (create room) =
        let pid = suc s.created in
        let e = unborn_of s.created (s.process pid).pc (inv.each pid).born in
        goes_down d inv pid (placed d (s.process pid) unborn) _ _ _
          (same d (s.process pid) unborn e) (omega arith) (omega arith) (omega arith)

  -- Runs without a wait that ends with no signal.
  pub data Moves (s : System d) : ℕ → System d → Type 0 where
    still : Moves s 0 s
    extend : {k : ℕ} {t u : System d} → Moves s k t → Move d n t u → Moves s (suc k) u

  module _ {block : ℕ → Pcb d} {total lost : ℕ} {s : System d}
      (workload : IsWorkload d n block total lost) (reach : Reach d n block total s) where
    pub Moves-Reach : {k : ℕ} {t : System d} → Moves s k t → Reach d n block total t
    Moves-Reach still = reach
    Moves-Reach (extend run m) = later (Moves-Reach run) (move m)

    Moves-bounded :
        {k : ℕ} {t : System d} → Moves s k t → k + system_potential d n t ≤ system_potential d n s
    Moves-bounded still = omega arith
    Moves-bounded (extend run m) =
        omega (arith, Moves-bounded run, Move-smaller (Reach-Inv d n workload (Moves-Reach run)) m)

  -- Of the run of the program: 30 steps for each millisecond of each process, and 28 for each process.
  abbrev pub run_bound : (ℕ → Pcb d) → ℕ
  run_bound block = 3 + sum_to n (λ pid. 30 * (block pid).process_length + 28)

  initial_potential :
      (block : ℕ → Pcb d) (total : ℕ)
      → system_potential d n (initial d n block total) ≤ run_bound block
  unfolding initial
  initial_potential block total = omega (
    arith,
    sum_to-le n (λ pid. 30 * ((block pid).process_length - (block pid).cpu_time) + 28)
        (λ pid. 30 * (block pid).process_length + 28) (λ pid. omega arith),
  )

  not_exited : (place : SchedulerPc) → (place ≡ exited) ⊎ (place ≢ exited)
  not_exited place = elim place as (λ k. (k ≡ exited) ⊎ (k ≢ exited)) [
    | exited ↦ inl refl
    | _ ↦ inr (λ e. cc)
  ]

  -- Where `total_process_count` is the number of the processes, all of them of positive length, and all
  -- nice values are in the table: a run of the threads from the start on has at most 30 steps for each
  -- millisecond of the lengths, 28 for each process and 3 more, in whatever order the threads go; and when
  -- no thread can go on, the scheduler thread has ended, and each process has run for exactly its length.
  pub run_ends :
      (block : ℕ → Pcb d) (total : ℕ)
      → IsWorkload d n block total 0
      → ((pid : ℕ) → IsPriority (block pid).priority)
      → (k : ℕ) (t : System d) → Moves (initial d n block total) k t
      → (k ≤ run_bound block)
        × (¬ CanMove d n t
            → (t.scheduler ≡ exited)
              × ((pid : ℕ)
                  → 1 ≤ pid
                  → pid ≤ n
                  → (t.process pid).pcb.cpu_time ≡ (block pid).process_length))
  run_ends block total workload nice k t run =
      let reach = Moves-Reach workload start run in
      (
        omega (arith, Moves-bounded workload start run, initial_potential block total),
        λ stuck. elim (not_exited t.scheduler) [
          | inl ended ↦ let (all, _) = exit_complete d n workload reach ended in (ended, all)
          | inr runs ↦ absurd (stuck (no_deadlock d n block total t workload nice reach runs))
        ],
      )
