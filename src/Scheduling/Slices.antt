-- ===== src/Scheduling/Slices.antt =====
-- The time slices of proj02/src/cfs.c, and the run of a process in slices in proj02/src/process.c.
use cs.Prelude.{
  ℕ, ◌+◌, ◌-◌, ◌*◌, ◌≤◌, ◌<◌, ◌≡◌, refl, false, List, [], ◌∷◌, ltb, ◌==◌, if◌then◌else◌, if_true,
  if_false, inl, inr, arith, Bool-cases, length, ok, >>=_returns, sym, subst,
}
use cs.Prelude.Int.{ℤ, pos, ltb_ℤ, pos_part}
use cs.Scheduling.Weights.{IsPriority, get_weight_ok}
use cs.Scheduling.{
  slice_of, Doubles, Queue, Pcb, Pcbs, total_weight, runqueue_timeslice, runqueue_vruntime,
  update_pcb_timings, get_weight, run_slice, run_process, remove_node, runqueue_remove_pcb,
  sched_latency, min_granularity,
}

module _ (d : Doubles) where
  -- Every process of the list has a nice value.
  abbrev pub AllPriority : Pcbs d → List ℕ → Type 0
  AllPriority pcbs [] = Unit
  AllPriority pcbs (node ∷ nodes) = IsPriority (pcbs node).priority × AllPriority pcbs nodes

  total_weight-ok :
      (pcbs : Pcbs d) (nodes : List ℕ)
      → AllPriority pcbs nodes
      → (total : ℕ) × (total_weight d pcbs nodes ≡ ok total)
  unfolding total_weight
  total_weight-ok pcbs [] h = (0, refl)
  total_weight-ok pcbs (node ∷ nodes) (h, k) =
      let (weight, run, _) = get_weight_ok (pcbs node).priority h in
      let (rest, runs) = total_weight-ok pcbs nodes k in (weight + rest, rw (run, runs) refl)

  slice_of_min : (weight total : ℕ) → min_granularity ≤ slice_of d weight total
  slice_of_min weight total = by_share (
      if total == 0
      then pos sched_latency
      else d.round (d.times (d.divide (d.of_int weight) (d.of_int total)) (d.of_int sched_latency)))
    where
      by_share :
          (t : ℤ)
          → min_granularity
            ≤ (if ltb_ℤ t (pos min_granularity) then min_granularity else pos_part t)
      by_share t = ground arith

  AllPriority-remove :
      (pcbs : Pcbs d) (nodes : List ℕ) (pid : ℕ)
      → AllPriority pcbs nodes
      → AllPriority pcbs (remove_node nodes pid)
  unfolding remove_node
  AllPriority-remove pcbs [] pid h = tt
  AllPriority-remove pcbs (node ∷ nodes) pid (h, k) = elim (Bool-cases (node == pid)) [
    | inl here ↦ rw here k
    | inr other ↦ rw other (h, AllPriority-remove pcbs nodes pid k)
  ]

  total_weight_none :
      (pcbs : Pcbs d) (nodes : List ℕ) → nodes ≡ [] → total_weight d pcbs nodes ≡ ok 0
  unfolding total_weight
  total_weight_none pcbs nodes e = rw (e, total_weight) refl

  -- A process with a nice value in the table gets a slice of at least MIN_GRANULARITY beside
  -- processes that have one too, whatever the quotient of the weights is.
  pub runqueue_timeslice_lem :
      (pcbs : Pcbs d) (rq : Queue) (priority : ℤ)
      → IsPriority priority
      → AllPriority pcbs rq.head
      → (slice : ℕ) × (runqueue_timeslice d pcbs rq priority ≡ ok slice) × (min_granularity ≤ slice)
  unfolding runqueue_timeslice
  runqueue_timeslice_lem pcbs rq priority h k =
      let (weight, run, _) = get_weight_ok priority h in
      let (total, runs) = total_weight-ok pcbs rq.head k in
      (slice_of d weight total, rw (run, runs) refl, slice_of_min weight total)

  -- With an empty queue it gets SCHED_LATENCY, whatever its nice value.
  pub runqueue_timeslice_empty :
      (pcbs : Pcbs d) (rq : Queue) (priority : ℤ)
      → IsPriority priority
      → rq.head ≡ []
      → runqueue_timeslice d pcbs rq priority ≡ ok sched_latency
  unfolding runqueue_timeslice
  runqueue_timeslice_empty pcbs rq priority h e =
      let (weight, run, _) = get_weight_ok priority h in
      rw (run, total_weight_none pcbs rq.head e) refl

  -- The time that a process runs for, out of its slice.
  abbrev taken : Pcb d → ℕ → ℕ
  taken pcb slice =
      if ltb slice (pcb.process_length - pcb.cpu_time)
      then slice
      else pcb.process_length - pcb.cpu_time

  update_pcb_timings-ok :
      (pcb : Pcb d) (n : ℕ)
      → IsPriority pcb.priority
      → (vruntime : d.Real) × (update_pcb_timings d pcb n
          ≡ ok (record pcb { cpu_time = pcb.cpu_time + n; vruntime = vruntime }))
  unfolding update_pcb_timings runqueue_vruntime
  update_pcb_timings-ok pcb n h =
      let (base, run, _) = get_weight_ok (pos 0) (omega arith) in
      let (weight, run', _) = get_weight_ok pcb.priority h in
      (
        d.plus pcb.vruntime (d.times (d.divide (d.of_int base) (d.of_int weight)) (d.of_int n)),
        rw (run, run') refl,
      )

  update_pcb_timings_parts :
      (pcb pcb' : Pcb d) (n : ℕ)
      → update_pcb_timings d pcb n ≡ ok pcb'
      → (pcb'.pid ≡ pcb.pid)
        × (pcb'.process_length ≡ pcb.process_length)
        × (pcb'.cpu_time ≡ pcb.cpu_time + n)
        × (pcb'.priority ≡ pcb.priority)
  unfolding update_pcb_timings
  update_pcb_timings_parts pcb pcb' n run =
      let (vruntime, _, done) = >>=_returns _ (runqueue_vruntime d pcb.priority n) pcb' run in
      let new : Pcb d = record pcb {
        cpu_time = pcb.cpu_time + n;
        vruntime = d.plus pcb.vruntime vruntime;
      } in
      let block : new ≡ pcb' = cc in
      (
        subst (λ b. b.pid ≡ pcb.pid) block refl,
        subst (λ b. b.process_length ≡ pcb.process_length) block refl,
        subst (λ b. b.cpu_time ≡ pcb.cpu_time + n) block refl,
        subst (λ b. b.priority ≡ pcb.priority) block refl,
      )

  taken_le :
      (pcb : Pcb d) (slice : ℕ)
      → pcb.cpu_time ≤ pcb.process_length
      → pcb.cpu_time + taken pcb slice ≤ pcb.process_length
  taken_le pcb slice le = ground arith

  taken_pos :
      (pcb : Pcb d) (slice : ℕ)
      → pcb.cpu_time < pcb.process_length
      → min_granularity ≤ slice
      → pcb.cpu_time < pcb.cpu_time + taken pcb slice
  taken_pos pcb slice lt le = ground arith

  timeslice_min :
      (pcbs : Pcbs d) (rq : Queue) (priority : ℤ) (slice : ℕ)
      → runqueue_timeslice d pcbs rq priority ≡ ok slice
      → min_granularity ≤ slice
  unfolding runqueue_timeslice
  timeslice_min pcbs rq priority slice run =
      let (weight, _, run') = >>=_returns _ (get_weight priority) slice run in
      let (total, _, done) = >>=_returns _ (total_weight d pcbs rq.head) slice run' in
      let e : slice_of d weight total ≡ slice = cc in
      subst (λ k. min_granularity ≤ k) e (slice_of_min weight total)

  -- The slice that is taken, and what is left of the process.
  run_slice_lem :
      (pcbs : Pcbs d) (rq : Queue) (pcb : Pcb d)
      → IsPriority pcb.priority
      → AllPriority pcbs rq.head
      → (slice : ℕ) × (vruntime : d.Real) × (run_slice d pcbs rq pcb
          ≡ ok (
            runqueue_remove_pcb rq pcb.pid,
            record pcb { cpu_time = pcb.cpu_time + taken pcb slice; vruntime = vruntime },
          ))
        × (min_granularity ≤ slice)
  unfolding run_slice runqueue_remove_pcb
  run_slice_lem pcbs rq pcb h k =
      let (slice, run, least) =
        runqueue_timeslice_lem pcbs (runqueue_remove_pcb rq pcb.pid) pcb.priority h
          (AllPriority-remove pcbs rq.head pcb.pid k) in
      let (vruntime, run') = update_pcb_timings-ok pcb (taken pcb slice) h in
      (slice, vruntime, rw (run, run') refl, least)

  -- What a slice changes: the process leaves the queue, and stays within its length.
  pub run_slice_parts :
      (pcbs : Pcbs d) (rq rq' : Queue) (pcb pcb' : Pcb d)
      → run_slice d pcbs rq pcb ≡ ok (rq', pcb')
      → (rq' ≡ runqueue_remove_pcb rq pcb.pid)
        × (pcb'.pid ≡ pcb.pid)
        × (pcb'.process_length ≡ pcb.process_length)
        × (pcb.cpu_time ≤ pcb.process_length → pcb'.cpu_time ≤ pcb.process_length)
        × (pcb'.priority ≡ pcb.priority)
        × (pcb.cpu_time < pcb.process_length → pcb.cpu_time < pcb'.cpu_time)
  unfolding run_slice
  run_slice_parts pcbs rq rq' pcb pcb' run =
      let rest = runqueue_remove_pcb rq pcb.pid in
      let (timeslice, sliced, run') =
        >>=_returns _ (runqueue_timeslice d pcbs rest pcb.priority) (rq', pcb') run in
      let n = taken pcb timeslice in
      let (updated, timed, done) =
        >>=_returns (λ updated. ok (rest, updated)) (update_pcb_timings d pcb n) (rq', pcb') run' in
      let (same_pid, same_length, spent, same_priority) =
        update_pcb_timings_parts pcb updated n timed in
      let rests : rest ≡ rq' = cc in
      let blocks : updated ≡ pcb' = cc in
      (
        sym rests,
        subst (λ b. b.pid ≡ pcb.pid) blocks same_pid,
        subst (λ b. b.process_length ≡ pcb.process_length) blocks same_length,
        λ le.
            subst (λ b. b.cpu_time ≤ pcb.process_length) blocks
              (subst (λ k. k ≤ pcb.process_length) (sym spent) (taken_le pcb timeslice le)),
        subst (λ b. b.priority ≡ pcb.priority) blocks same_priority,
        λ lt.
            subst (λ b. pcb.cpu_time < b.cpu_time) blocks
              (subst (λ k. pcb.cpu_time < k) (sym spent)
                (taken_pos pcb timeslice lt
                  (timeslice_min pcbs rest pcb.priority timeslice sliced))),
      )

  AllPriority-all :
      (pcbs : Pcbs d) (nodes : List ℕ)
      → ((pid : ℕ) → IsPriority (pcbs pid).priority)
      → AllPriority pcbs nodes
  AllPriority-all pcbs [] h = tt
  AllPriority-all pcbs (node ∷ nodes) h = (h node, AllPriority-all pcbs nodes h)

  -- With nice values in the table there is a slice.
  pub run_slice_ok :
      (pcbs : Pcbs d) (rq : Queue) (pid : ℕ)
      → ((pid : ℕ) → IsPriority (pcbs pid).priority)
      → (rq' : Queue) × (pcb : Pcb d) × (run_slice d pcbs rq (pcbs pid) ≡ ok (rq', pcb))
  run_slice_ok pcbs rq pid h =
      let (slice, vruntime, run, _) =
        run_slice_lem pcbs rq (pcbs pid) (h pid) (AllPriority-all pcbs rq.head h) in
      (_, _, run)

  abbrev pub AllWakes : List (Pcbs d × Queue) → Type 0
  AllWakes [] = Unit
  AllWakes ((pcbs, rq) ∷ wakes) = AllPriority pcbs rq.head × AllWakes wakes

  -- Where all nice values are in the table, a process that has not run for longer than its length
  -- and is woken at least once for every 10 ms left ends with exactly its length spent, whatever
  -- the queues are when it is woken, after fewer switches than one for every 10 ms left and one
  -- more.
  pub run_process_lem :
      (wakes : List (Pcbs d × Queue)) (pcb : Pcb d) (switches : ℕ)
      → IsPriority pcb.priority
      → AllWakes wakes
      → pcb.cpu_time ≤ pcb.process_length
      → pcb.process_length ≤ pcb.cpu_time + 10 * length wakes
      → (pcb' : Pcb d) × (switches' : ℕ) × (run_process d wakes pcb switches ≡ ok (pcb', switches'))
        × (pcb'.cpu_time ≡ pcb.process_length)
        × (10 * switches' < 10 * switches + (pcb.process_length - pcb.cpu_time) + 10)
  unfolding run_process
  run_process_lem [] pcb switches h k le enough =
      let stop : ltb pcb.cpu_time pcb.process_length ≡ false = ground arith in
      (pcb, switches, if_false _ _ _ _ stop refl, omega arith, omega arith)
  run_process_lem ((pcbs, rq) ∷ wakes) pcb switches h (k, ks) le enough =
      elim (Bool-cases (ltb pcb.cpu_time pcb.process_length)) [
        | inr stop ↦ (pcb, switches, if_false _ _ _ _ stop refl, ground arith, omega arith)
        | inl more ↦
            let (slice, vruntime, run, least) = run_slice_lem pcbs rq pcb h k in
            let next : Pcb d = record pcb {
              cpu_time = pcb.cpu_time + taken pcb slice;
              vruntime = vruntime;
            } in
            let (pcb', switches', runs, spent, bound) =
              run_process_lem wakes next (switches + 1) h ks (ground arith) (ground arith) in
            (pcb', switches', if_true _ _ _ _ more (rw (run, runs) refl), spent, ground arith)
      ]
