-- ===== src/Scheduling/Tests.antt =====
-- Runs of proj02/src on a queue of two processes, with whole numbers for `double`.
use cs.Prelude.{
  ℕ, ◌+◌, ◌-◌, ◌*◌, ◌/◌, ◌≡◌, ◌<◌, refl, none, some, List, [], ◌∷◌, ◌⊎◌, arith, ok, ltb,
}
use cs.Prelude.Int.{pos, negsuc}
use cs.Scheduling.{
  Doubles, Queue, Pcb, Pcbs, get_weight, runqueue_init, runqueue_smallest_pcb,
  get_runqueue_item_count, run_process,
}
use cs.Scheduling.Runqueue.{
  Op, run_ops, IsOrder, IsSmallest, get_runqueue_item_count_zero, runqueue_smallest_pcb-IsSmallest,
}
use cs.Scheduling.Slices.{AllPriority, AllWakes, run_process_lem}

-- Thousandths.
abbrev whole : Doubles
whole = record {
  Real = ℕ;
  of_int = λ n. 1000 * n;
  divide = λ a b. 1000 * a / b;
  times = λ a b. a * b / 1000;
  plus = λ a b. a + b;
  gtb = λ a b. ltb b a;
  round = λ a. pos ((a + 500) / 1000);
}

whole-IsOrder : IsOrder whole
whole-IsOrder = record {
  irreflexive = λ a. ground arith;
  asymmetric = λ a b h. ground arith;
  transitive = λ a b c h k. ground arith;
}

abbrev sample_pcbs : Pcbs whole
sample_pcbs pid = record {
  pid = pid;
  priority = pos pid;
  process_length = 95;
  cpu_time = 0;
  vruntime = 10 * pid;
}

abbrev sample_queue : Queue
sample_queue = record { head = 4 ∷ 3 ∷ []; count = 0 }

sample_AllPriority : AllPriority whole sample_pcbs sample_queue.head
sample_AllPriority = omega arith

weight_low : get_weight (negsuc 4) ≡ ok 3121
unfolding get_weight
weight_low = refl

weight_high : get_weight (pos 3) ≡ ok 526
unfolding get_weight
weight_high = refl

abbrev two_added : List Op
two_added = Op.add_pcb_to_runqueue 1 ∷ Op.add_pcb_to_runqueue 2 ∷ []

get_runqueue_item_count_zero_example : get_runqueue_item_count (run_ops runqueue_init two_added) ≡ 0
get_runqueue_item_count_zero_example = get_runqueue_item_count_zero two_added

runqueue_smallest_pcb-IsSmallest_example :
    ((sample_queue.head ≡ []) × (runqueue_smallest_pcb whole sample_pcbs sample_queue ≡ none))
    ⊎ ((pid : ℕ) × (runqueue_smallest_pcb whole sample_pcbs sample_queue ≡ some pid)
        × IsSmallest whole whole-IsOrder sample_pcbs sample_queue.head pid)
runqueue_smallest_pcb-IsSmallest_example =
    runqueue_smallest_pcb-IsSmallest whole whole-IsOrder sample_pcbs sample_queue

-- Ten wakes of the same process.
abbrev sample_wakes : List (Pcbs whole × Queue)
sample_wakes =
    let w : Pcbs whole × Queue = (sample_pcbs, sample_queue) in
    w ∷ w ∷ w ∷ w ∷ w ∷ w ∷ w ∷ w ∷ w ∷ w ∷ []

sample_AllWakes : AllWakes whole sample_wakes
sample_AllWakes = let a = sample_AllPriority in (a, (a, (a, (a, (a, (a, (a, (a, (a, (a, tt))))))))))

run_process_lem_example :
    (pcb' : Pcb whole) × (switches' : ℕ) × (run_process whole sample_wakes (sample_pcbs 4) 0
      ≡ ok (pcb', switches'))
    × (pcb'.cpu_time ≡ 95)
    × (10 * switches' < 10 * 0 + (95 - 0) + 10)
run_process_lem_example =
    run_process_lem whole sample_wakes (sample_pcbs 4) 0 (omega arith) sample_AllWakes (omega arith)
      (omega arith)
