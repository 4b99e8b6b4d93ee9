-- ===== src/Dispatch/Waking.antt =====
-- The signal to the process that the scheduler of proj02/src has picked.
use cs.Prelude.{ℕ, ◌≤◌, ◌≡◌, refl, ◌∙◌, sym, ap, subst, true, false, ◌||◌, arith, Bool}
use cs.Prelude.Int.{pos}
use cs.Scheduling.{Doubles}
use cs.Scheduling.Occurrences.{occurrences}
use cs.Dispatch.{
  process_running, ProcessPc, unborn, looping, adding, announcing, locking, testing, asleep, taking,
  using_cpu, releasing, finished, at_signal, Process, System, at, wake_process, holds_mutex,
  signal_process,
}
use cs.Dispatch.Invariant.{ind, quiet, claims, live, ProcessFine, Inv}
use cs.Dispatch.Change.{placed, scheduling_at, claims_of_idle, Change-Inv}
use cs.Dispatch.Signals.{heard_off}

pub neither_left : (a b : Bool) → (a || b) ≡ false → a ≡ false
neither_left false b h = refl
neither_left true b h = absurd cc

pub neither_right : (a b : Bool) → (a || b) ≡ false → b ≡ false
neither_right false b h = h
neither_right true b h = absurd cc

module _ (d : Doubles) {n lost : ℕ} {s : System d} (inv : Inv d n lost s) where
  -- A process that is picked goes on to its mutex, or back to it.
  PickedFine : ProcessPc → Bool → ℕ → ℕ → Process d → Type 0
  PickedFine pc waits pid nodes p =
      ProcessFine d s.created waits pid nodes (record p { state = process_running; pc = pc })
      × (1 ≤ pid)
      × (pid ≤ s.created)
      × (claims d (record p { state = process_running; pc = pc }) ≡ 1)
      × (live d (record p { pc = pc }) ≡ 1)

  picked :
      (pc : ProcessPc) (waits : Bool) (pid nodes : ℕ) (p : Process d)
      → waits ≡ false
      → 1 ≤ nodes
      → holds_mutex pc ≡ false
      → ProcessFine d s.created waits pid nodes (placed d p pc)
      → PickedFine (wake_process pc) waits pid nodes p × (live d (placed d p pc) ≡ 1)
  unfolding PickedFine wake_process holds_mutex
  picked announcing waits pid nodes p off some free f = (
    (
      record {
        allowed = tt;
        born = f.born;
        spent = f.spent;
        numbered = f.numbered;
        in_queue = f.in_queue;
        heard = heard_off waits announcing off;
      },
      f.born.0,
      f.born.1,
      refl,
      refl,
    ),
    refl,
  )
  picked locking waits pid nodes p off some free f = (
    (
      record {
        allowed = tt;
        born = f.born;
        spent = f.spent;
        numbered = f.numbered;
        in_queue = f.in_queue;
        heard = heard_off waits locking off;
      },
      f.born.0,
      f.born.1,
      refl,
      refl,
    ),
    refl,
  )
  picked asleep waits pid nodes p off some free f = (
    (
      record {
        allowed = tt;
        born = f.born;
        spent = f.spent;
        numbered = f.numbered;
        in_queue = f.in_queue;
        heard = heard_off waits locking off;
      },
      f.born.0,
      f.born.1,
      refl,
      refl,
    ),
    refl,
  )
  picked testing waits pid nodes p off some free f = absurd cc
  picked taking waits pid nodes p off some free f = absurd cc
  picked using_cpu waits pid nodes p off some free f = absurd cc
  picked releasing waits pid nodes p off some free f = absurd cc
  picked unborn waits pid nodes p off some free f = absurd (omega (arith, f.in_queue))
  picked looping waits pid nodes p off some free f = absurd (omega (arith, f.in_queue))
  picked adding waits pid nodes p off some free f = absurd (omega (arith, f.in_queue))
  picked finished waits pid nodes p off some free f = absurd (omega (arith, f.in_queue))

  -- `signal_process` on the process that the scheduler has picked.
  pub Inv-signal :
      (pid : ℕ)
      → s.scheduler ≡ at_signal pid
      → holds_mutex (at d s pid) ≡ false
      → Inv d n lost (signal_process d s pid)
  unfolding signal_process PickedFine
  Inv-signal pid e free =
      let (off, some) = scheduling_at d inv (at_signal pid) e in
      let idle = neither_left s.have_running_process s.waiting_for_new_process off in
      let waits = neither_right s.have_running_process s.waiting_for_new_process off in
      let quiets : quiet s.scheduler s.waiting_for_new_process ≡ false =
        ap (λ k. quiet k s.waiting_for_new_process) e ∙ waits in
      let f = inv.each pid in
      let ((fine, low, high, claim, live'), live_before) =
        picked (at d s pid) (quiet s.scheduler s.waiting_for_new_process) pid
          (occurrences pid s.rq.head) (s.process pid) quiets some free f in
      let p : Process d = record (s.process pid) {
        state = process_running;
        pc = wake_process (at d s pid);
      } in
      Change-Inv d inv {t = signal_process d s pid} {pid = pid} {q = s.process pid} {p = p}
        (record {
          was = refl;
          becomes = refl;
          low = low;
          high = omega (arith, high, inv.born);
          born = inv.born;
          fine =
              subst (λ w. ProcessFine d s.created w pid (occurrences pid s.rq.head) p)
                (quiets ∙ sym waits) fine;
          others = λ j ne.
              subst (λ w. ProcessFine d s.created w j (occurrences j s.rq.head) (s.process j))
                (quiets ∙ sym waits) (inv.each j);
          claimed = omega (
            arith,
            claim,
            ap ind idle,
            claims_of_idle d inv pid low (omega (arith, high, inv.born)) idle,
          );
          apart = omega (arith, ap ind waits);
          counted = λ left h. (
            subst (λ m. s.remaining_process_count ≡ pos m) (omega (arith, live', live_before))
                inv.counted,
            tt,
          );
        })
