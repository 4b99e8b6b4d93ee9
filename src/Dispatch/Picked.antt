-- ===== src/Dispatch/Picked.antt =====
-- The process of proj02/src that the scheduler has picked and is about to signal.
use cs.Prelude.{ℕ, ◌≤◌, ◌≡◌, refl, true, false, Bool, arith}
use cs.Scheduling.{Doubles}
use cs.Dispatch.{
  ProcessState, process_ready, process_running, ProcessPc, unborn, looping, adding, taking,
  using_cpu, releasing, finished, at_signal, System, at,
}
use cs.Dispatch.Invariant.{Allowed, Born, queued, claims, claims_in, Inv}
use cs.Dispatch.Change.{scheduling_at, claims_of_idle}
use cs.Dispatch.Waking.{neither_left, neither_right}

-- The places where the processor is the process's own.
abbrev pub uses_cpu : ProcessPc → Bool
uses_cpu taking = true
uses_cpu using_cpu = true
uses_cpu releasing = true
uses_cpu _ = false

queued_one : (pc : ProcessPc) → 1 ≤ queued pc → queued pc ≡ 1
queued_one pc = elim pc as (λ k. 1 ≤ queued k → queued k ≡ 1) [
  | unborn ↦ λ h. absurd (omega arith)
  | looping ↦ λ h. absurd (omega arith)
  | adding ↦ λ h. absurd (omega arith)
  | using_cpu ↦ λ h. absurd (omega arith)
  | releasing ↦ λ h. absurd (omega arith)
  | finished ↦ λ h. absurd (omega arith)
  | _ ↦ λ h. refl
]

by_queue :
    (created pid : ℕ) (pc : ProcessPc)
    → Born created pid pc
    → 1 ≤ queued pc
    → (queued pc ≡ 1) × (1 ≤ pid) × (pid ≤ created)
by_queue created pid unborn born some = absurd (omega arith)
by_queue created pid pc born some = (queued_one pc some, born.0, born.1)

-- A process that claims nothing uses nothing.
by_claim :
    (pc : ProcessPc) (state : ProcessState)
    → Allowed pc state
    → claims_in pc state ≡ 0
    → uses_cpu pc ≡ false
by_claim taking process_running allowed none = absurd (omega arith)
by_claim taking process_ready allowed none = absurd cc
by_claim using_cpu process_running allowed none = absurd (omega arith)
by_claim using_cpu process_ready allowed none = absurd cc
by_claim releasing state allowed none = absurd (omega arith)
by_claim pc state allowed none = refl

module _ (d : Doubles) {n lost : ℕ} {s : System d} (inv : Inv d n lost s) where
  -- It is created, waits in the queue, and has no hold of the processor, which is free.
  pub picked_process :
      (pid : ℕ)
      → s.scheduler ≡ at_signal pid
      → (queued (at d s pid) ≡ 1)
        × (1 ≤ pid)
        × (pid ≤ s.created)
        × (claims d (s.process pid) ≡ 0)
        × (uses_cpu (at d s pid) ≡ false)
        × (s.have_running_process ≡ false)
        × (s.waiting_for_new_process ≡ false)
  picked_process pid e =
      let f = inv.each pid in
      let (idle, some) = scheduling_at d inv (at_signal pid) e in
      let free = neither_left s.have_running_process s.waiting_for_new_process idle in
      let (one, low, high) =
        by_queue s.created pid (s.process pid).pc f.born (omega (arith, some, f.in_queue)) in
      let unclaimed = claims_of_idle d inv pid low (omega (arith, high, inv.born)) free in
      (
        one,
        low,
        high,
        unclaimed,
        by_claim (s.process pid).pc (s.process pid).state f.allowed unclaimed,
        free,
        neither_right s.have_running_process s.waiting_for_new_process idle,
      )
