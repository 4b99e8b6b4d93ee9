-- ===== src/Dispatch/Safety.antt =====
-- What holds in every system that the threads of proj02/src reach.
use cs.Prelude.{
  ℕ, ◌+◌, ◌≤◌, ◌<◌, ◌≡◌, ◌≢◌, refl, ◌∙◌, sym, ap, true, false, ltb, arith, Bool, ◌⊎◌, inl, inr,
}
use cs.Prelude.Int.{pos}
use cs.Scheduling.{Doubles, Pcb}
use cs.Scheduling.Occurrences.{occurrences, occurrences-init}
use cs.Dispatch.{
  ProcessState, process_ready, process_running, ProcessPc, unborn, looping, taking, using_cpu,
  releasing, finished, at_signal, exited, System, at,
}
use cs.Dispatch.Steps.{
  Move, create, enter, leave, add, announce, lock, sleep, resume, take, end, release, exit, again,
  acquire, wait, proceed, pick, pick_none, give_up, signal, Step, move, spurious,
  spurious_scheduler, initial, Reach, start, later,
}
use cs.Dispatch.Counting.{sum_to, sum_to-zero, sum_to-ge, sum_to-two}
use cs.Dispatch.Invariant.{Allowed, Born, Spent, ind, queued, claims, claims_in, live, live_in, Inv}
use cs.Dispatch.Change.{scheduling_at}
use cs.Dispatch.Fixed.{Reach-job}
use cs.Dispatch.Moves.{Inv-enter, Inv-leave, Inv-lock, Inv-sleep, Inv-resume, Inv-spurious}
use cs.Dispatch.Picked.{uses_cpu, picked_process}
use cs.Dispatch.Creation.{Inv-create, Inv-add}
use cs.Dispatch.Slices.{Inv-take, Inv-end}
use cs.Dispatch.Signals.{Inv-announce, Inv-release}
use cs.Dispatch.Waking.{Inv-signal}
use cs.Dispatch.Schedule.{
  Inv-exit, Inv-again, Inv-acquire, Inv-wait, Inv-proceed, Inv-pick, Inv-pick_none, Inv-give_up,
  Inv-spurious_scheduler,
}

ind_le : (b : Bool) → ind b ≤ 1
ind_le true = omega arith
ind_le false = omega arith

compare_ℕ : (i j : ℕ) → (i < j) ⊎ ((i ≡ j) ⊎ (j < i))
compare_ℕ i j = omega arith

dead_queued :
    (pc : ProcessPc) (cpu_time process_length : ℕ)
    → live_in pc cpu_time process_length ≡ 0
    → queued pc ≡ 0
dead_queued pc cpu_time process_length =
    elim pc as (λ k. live_in k cpu_time process_length ≡ 0 → queued k ≡ 0) [
      | unborn ↦ λ h. refl
      | looping ↦ λ h. refl
      | releasing ↦ λ h. refl
      | finished ↦ λ h. refl
      | _ ↦ λ h. absurd (omega arith)
    ]

by_place :
    (created pid : ℕ) (pc : ProcessPc) (state : ProcessState)
    → uses_cpu pc ≡ true
    → Allowed pc state
    → Born created pid pc
    → (claims_in pc state ≡ 1) × (1 ≤ pid) × (pid ≤ created)
by_place created pid taking process_running uses allowed born = (refl, born.0, born.1)
by_place created pid taking process_ready uses allowed born = absurd cc
by_place created pid using_cpu process_running uses allowed born = (refl, born.0, born.1)
by_place created pid using_cpu process_ready uses allowed born = absurd cc
by_place created pid releasing state uses allowed born = (refl, born.0, born.1)
by_place created pid pc state uses allowed born = absurd cc

-- A process that will not report any more has run for its length.
by_live :
    (pc : ProcessPc) (cpu_time process_length : ℕ)
    → Spent pc cpu_time process_length
    → live_in pc cpu_time process_length ≡ 0
    → cpu_time ≡ process_length
by_live unborn cpu_time process_length spent dead = ground arith
by_live looping cpu_time process_length spent dead = ground arith
by_live releasing cpu_time process_length spent dead = ground arith
by_live finished cpu_time process_length spent dead = spent
by_live pc cpu_time process_length spent dead = absurd (omega arith)

by_dead :
    (created pid n : ℕ) (pc : ProcessPc) (cpu_time process_length : ℕ)
    → Born created pid pc
    → created ≤ n
    → (1 ≤ pid → pid ≤ n → live_in pc cpu_time process_length ≡ 0)
    → queued pc ≡ 0
by_dead created pid n unborn cpu_time process_length born le dead = refl
by_dead created pid n pc cpu_time process_length born le dead =
    dead_queued pc cpu_time process_length (dead born.0 (omega (arith, born.1)))

module _ (d : Doubles) (n : ℕ) where
  -- How many of the first `n` processes enter their loop, and so report their end.
  abbrev pub reporting : (ℕ → Pcb d) → ℕ
  reporting block = sum_to n (λ pid. ind (ltb (block pid).cpu_time (block pid).process_length))

  -- Blocks as the generator fills them in, numbered by pid and with no time spent, and with `lost` more processes in `total_process_count` than report
  -- their end.
  pub record IsWorkload (block : ℕ → Pcb d) (total lost : ℕ) : Type 0 where
    pub numbered : (pid : ℕ) → (block pid).pid ≡ pid
    pub fresh : (pid : ℕ) → (block pid).cpu_time ≡ 0
    pub counted : reporting block + lost ≡ total

  module _ {block : ℕ → Pcb d} {total lost : ℕ} (workload : IsWorkload block total lost) where
    Inv-initial : Inv d n lost (initial d n block total)
    unfolding initial
    Inv-initial = record {
      each = λ pid. record {
        allowed = refl;
        born = λ ge. omega arith;
        spent = workload.fresh pid;
        numbered = workload.numbered pid;
        in_queue = occurrences-init pid;
        heard = omega arith;
      };
      born = omega arith;
      claimed = sum_to-zero n;
      counted = ap pos (sym workload.counted);
      apart = omega arith;
      scheduling = tt;
    }

    Move-Inv : {s t : System d} → Move d n s t → Inv d n lost s → Inv d n lost t
    Move-Inv (create room) inv = Inv-create d inv room
    Move-Inv (enter pid e more) inv = Inv-enter d inv pid e more
    Move-Inv (leave pid e through) inv = Inv-leave d inv pid e through
    Move-Inv (add pid e there) inv = Inv-add d inv pid e
    Move-Inv (announce pid e there free) inv = Inv-announce d inv pid e there free
    Move-Inv (lock pid e) inv = Inv-lock d inv pid e
    Move-Inv (sleep pid e ne) inv = Inv-sleep d inv pid e ne
    Move-Inv (resume pid e running) inv = Inv-resume d inv pid e running
    Move-Inv (take pid e there run) inv = Inv-take d inv pid _ _ e run
    Move-Inv (end pid e there) inv = Inv-end d inv pid e
    Move-Inv (release pid e there free) inv = Inv-release d inv pid e there free
    Move-Inv (exit e none_left) inv = Inv-exit d inv e none_left
    Move-Inv (again e more) inv = Inv-again d inv e more
    Move-Inv (acquire e) inv = Inv-acquire d inv e
    Move-Inv (wait e busy) inv = Inv-wait d inv e busy
    Move-Inv (proceed e idle) inv = Inv-proceed d inv e idle
    Move-Inv (pick pid e run) inv = Inv-pick d inv pid e run
    Move-Inv (pick_none e run) inv = Inv-pick_none d inv e run
    Move-Inv (give_up e) inv = Inv-give_up d inv e
    Move-Inv (signal pid e free) inv = Inv-signal d inv pid e free

    Step-Inv : {s t : System d} → Step d n s t → Inv d n lost s → Inv d n lost t
    Step-Inv (move m) inv = Move-Inv m inv
    Step-Inv (spurious pid e) inv = Inv-spurious d inv pid e
    Step-Inv (spurious_scheduler e) inv = Inv-spurious_scheduler d inv e

    pub Reach-Inv : {s : System d} → Reach d n block total s → Inv d n lost s
    Reach-Inv start = Inv-initial
    Reach-Inv (later reach step) = Step-Inv step (Reach-Inv reach)

  module _ {block : ℕ → Pcb d} {total lost : ℕ} {s : System d}
      (workload : IsWorkload block total lost) (reach : Reach d n block total s) where
    -- A process that uses the processor claims it, and is created.
    claim_of_use :
        (pid : ℕ)
        → uses_cpu (at d s pid) ≡ true
        → (claims d (s.process pid) ≡ 1) × (1 ≤ pid) × (pid ≤ n)
    claim_of_use pid uses =
        let inv = Reach-Inv workload reach in
        let f = inv.each pid in
        let (claim, low, high) =
          by_place s.created pid (s.process pid).pc (s.process pid).state uses f.allowed f.born in
        (claim, low, omega (arith, high, inv.born))

    -- Where the blocks are as the generator fills them in, and `total_process_count` is at least the number of
    -- the processes of positive length, which the code does not check for an input file: at any time
    -- at most one process has the processor, from the time that it leaves the queue to the time that the
    -- scheduler is told of the end of its slice.
    pub mutual_exclusion :
        (i j : ℕ) → uses_cpu (at d s i) ≡ true → uses_cpu (at d s j) ≡ true → i ≡ j
    mutual_exclusion i j uses uses' =
        let (claim, low, high) = claim_of_use i uses in
        let (claim', low', high') = claim_of_use j uses' in
        let f : ℕ → ℕ = λ k. claims d (s.process k) in
        let inv = Reach-Inv workload reach in
        let one = ind_le s.have_running_process in
        elim (compare_ℕ i j) [
          | inl lt ↦ absurd (omega (arith, sum_to-two n f i j low lt high', inv.claimed))
          | inr (inl e) ↦ e
          | inr (inr gt) ↦ absurd (omega (arith, sum_to-two n f j i low' gt high, inv.claimed))
        ]

    -- Where the blocks are as the generator fills them in, and `total_process_count` is at least the number of
    -- the processes of positive length, which the code does not check for an input file: at any time
    -- the runqueue has exactly one node for each process that waits for the processor, or has been given
    -- it and has not left the queue yet, and none for any other.
    pub runqueue_holds_waiting : (pid : ℕ) → occurrences pid s.rq.head ≡ queued (at d s pid)
    runqueue_holds_waiting pid = let f = (Reach-Inv workload reach).each pid in f.in_queue

    -- Where the blocks are as the generator fills them in, and `total_process_count` is at least the number of
    -- the processes of positive length, which the code does not check for an input file: the process
    -- that the scheduler is about to signal, with its own mutex taken, has a node in the queue
    -- and no hold of the processor; so it is not the one that waits for that mutex to end its slice.
    pub signal_process_unblocked :
        (pid : ℕ)
        → s.scheduler ≡ at_signal pid
        → (queued (at d s pid) ≡ 1)
          × (uses_cpu (at d s pid) ≡ false)
          × (s.have_running_process ≡ false)
    signal_process_unblocked pid e =
        let (one, _, _, _, unused, free, _) = picked_process d (Reach-Inv workload reach) pid e in
        (one, unused, free)

    -- Where the blocks are as the generator fills them in, and `total_process_count` is at least the number of
    -- the processes of positive length, which the code does not check for an input file: when the
    -- scheduler thread ends, every process has run for exactly its length, and the queue is empty.
    pub exit_complete :
        s.scheduler ≡ exited
        → ((pid : ℕ)
            → 1 ≤ pid
            → pid ≤ n
            → (s.process pid).pcb.cpu_time ≡ (block pid).process_length)
          × ((pid : ℕ) → occurrences pid s.rq.head ≡ 0)
    exit_complete e =
        let inv = Reach-Inv workload reach in
        let none = scheduling_at d inv exited e in
        let dead : (pid : ℕ) → 1 ≤ pid → pid ≤ n → live d (s.process pid) ≡ 0 = λ pid low high.
          let le = sum_to-ge n (λ k. live d (s.process k)) pid low high in
          omega (arith, le, none) in
        (
          λ pid low high.
              let f = inv.each pid in
              let (_, same_length) = Reach-job d n reach pid in
              by_live (s.process pid).pc (s.process pid).pcb.cpu_time
                (s.process pid).pcb.process_length f.spent (dead pid low high)
              ∙ same_length,
          λ pid.
              let f = inv.each pid in
              f.in_queue
              ∙ by_dead s.created pid n (s.process pid).pc (s.process pid).pcb.cpu_time
                  (s.process pid).pcb.process_length f.born inv.born (dead pid),
        )

    -- Where the blocks are as the generator fills them in, and fewer processes report their end than
    -- `total_process_count` says, since the number is smaller or some have length 0, the scheduler thread
    -- never ends.
    pub exit_impossible : 1 ≤ lost → s.scheduler ≢ exited
    exit_impossible some e =
        let none = scheduling_at d (Reach-Inv workload reach) exited e in absurd (omega arith)
