-- ===== src/Scheduling.antt =====
-- proj02/src: the runqueue of cfs.c, and the loop of a process thread in process.c. Process control
-- blocks are found by their pid, which stands for the pointer: the generator numbers them apart. Times
-- are in milliseconds; lengths are not negative.
pub mod Weights
pub mod Runqueue
pub mod Occurrences
pub mod Slices
mod Tests
use cs.Prelude.{
  ℕ, zero, suc, ◌+◌, ◌-◌, ◌<◌, Bool, List, [], ◌∷◌, Option, none, some, ltb, leb, ◌==◌,
  if◌then◌else◌, get_elem?, Outcome, ok, undefined, out_of_fuel, ◌>>=◌, from_option,
}
use cs.Prelude.Int.{ℤ, pos, negsuc, ltb_ℤ, pos_part}

-- The operations of `double` that the code uses.
pub record Doubles : Type 1 where
  pub Real : Type 0
  pub of_int : ℕ → Real
  pub divide : Real → Real → Real
  pub times : Real → Real → Real
  pub plus : Real → Real → Real
  -- `a > b`
  pub gtb : Real → Real → Bool
  -- `round`, converted to `int`
  pub round : Real → ℤ

abbrev pub prio_to_weight : List ℕ
prio_to_weight =
    88761 ∷ 71755 ∷ 56483 ∷ 46273 ∷ 36291 ∷ 29154 ∷ 23254 ∷ 18705 ∷ 14949 ∷ 11916 ∷ 9548 ∷ 7620
    ∷ 6100 ∷ 4904 ∷ 3906 ∷ 3121 ∷ 2501 ∷ 1991 ∷ 1586 ∷ 1277 ∷ 1024 ∷ 820 ∷ 655 ∷ 526 ∷ 423 ∷ 335
    ∷ 272 ∷ 215 ∷ 172 ∷ 137 ∷ 110 ∷ 87 ∷ 70 ∷ 56 ∷ 45 ∷ 36 ∷ 29 ∷ 23 ∷ 18 ∷ 15 ∷ []

-- `priority + 20` as an index.
abbrev pub weight_index : ℤ → Outcome ℕ
weight_index (pos n) = ok (n + 20)
weight_index (negsuc n) = if ltb n 20 then ok (19 - n) else undefined

unfoldable pub get_weight : ℤ → Outcome ℕ
get_weight priority =
    weight_index priority >>= λ index. from_option (get_elem? prio_to_weight index) undefined

abbrev pub sched_latency : ℕ
sched_latency = 100

abbrev pub min_granularity : ℕ
min_granularity = 10

-- `struct runqueue`: the pids of the list, and the count.
pub record Queue : Type 0 where
  pub head : List ℕ
  pub count : ℕ

unfoldable pub runqueue_init : Queue
runqueue_init = record { head = []; count = 0 }

unfoldable pub runqueue_add_pcb : Queue → ℕ → Queue
runqueue_add_pcb rq pid = record rq { head = pid ∷ rq.head }

-- The list without the first node of the process.
unfoldable pub remove_node : List ℕ → ℕ → List ℕ
remove_node [] pid = []
remove_node (node ∷ nodes) pid =
    let rest = remove_node nodes pid in if node == pid then nodes else node ∷ rest

unfoldable pub runqueue_remove_pcb : Queue → ℕ → Queue
unfolding remove_node
runqueue_remove_pcb rq pid = record rq { head = remove_node rq.head pid }

-- `get_runqueue_item_count` of scheduler.c, while the queue is allocated.
pub get_runqueue_item_count : Queue → ℕ
get_runqueue_item_count rq = rq.count

module _ (d : Doubles) where
  -- `struct process_control_block`, less its state and thread.
  pub record Pcb : Type 0 where
    pub pid : ℕ
    pub priority : ℤ
    pub process_length : ℕ
    pub cpu_time : ℕ
    pub vruntime : d.Real

  abbrev pub Pcbs : Type 0
  Pcbs = ℕ → Pcb

  -- The sum of the weights of the nodes.
  unfoldable pub total_weight : Pcbs → List ℕ → Outcome ℕ
  unfolding get_weight
  total_weight pcbs [] = ok 0
  total_weight pcbs (node ∷ nodes) = do
    weight ← get_weight (pcbs node).priority
    rest ← total_weight pcbs nodes
    ok (weight + rest)

  -- The slice for the two weights. For a total of 0 the quotient is computed and converted to `int` all
  -- the same, which C leaves undefined for an infinite value; here the conversion yields some number, which is
  -- then replaced.
  abbrev pub slice_of : ℕ → ℕ → ℕ
  slice_of weight total =
      let share =
        d.round (d.times (d.divide (d.of_int weight) (d.of_int total)) (d.of_int sched_latency)) in
      let timeslice = if total == 0 then pos sched_latency else share in
      if ltb_ℤ timeslice (pos min_granularity) then min_granularity else pos_part timeslice

  unfoldable pub runqueue_timeslice : Pcbs → Queue → ℤ → Outcome ℕ
  unfolding total_weight
  runqueue_timeslice pcbs rq priority = do
    weight ← get_weight priority
    total ← total_weight pcbs rq.head
    ok (slice_of weight total)

  unfoldable pub runqueue_vruntime : ℤ → ℕ → Outcome d.Real
  runqueue_vruntime priority actual_runtime = do
    base ← get_weight (pos 0)
    weight ← get_weight priority
    ok (d.times (d.divide (d.of_int base) (d.of_int weight)) (d.of_int actual_runtime))

  -- The loop from a node on, with the least node so far.
  unfoldable pub smallest_from : Pcbs → ℕ → List ℕ → ℕ
  smallest_from pcbs min_node [] = min_node
  smallest_from pcbs min_node (node ∷ nodes) =
      smallest_from pcbs
        (if d.gtb (pcbs min_node).vruntime (pcbs node).vruntime then node else min_node) nodes

  unfoldable pub runqueue_smallest_pcb : Pcbs → Queue → Option ℕ
  unfolding smallest_from
  runqueue_smallest_pcb pcbs rq = elim rq.head [
    | [] ↦ none
    | node ∷ nodes ↦ some (smallest_from pcbs node (node ∷ nodes))
  ]

  -- `update_pcb_timings` of scheduler.c
  unfoldable pub update_pcb_timings : Pcb → ℕ → Outcome Pcb
  unfolding runqueue_vruntime
  update_pcb_timings pcb cpu_time = do
    vruntime ← runqueue_vruntime pcb.priority cpu_time
    ok (record pcb { cpu_time = pcb.cpu_time + cpu_time; vruntime = d.plus pcb.vruntime vruntime })

  -- What a process does under the lock when it is woken: it leaves the queue, and takes its slice.
  unfoldable pub run_slice : Pcbs → Queue → Pcb → Outcome (Queue × Pcb)
  unfolding runqueue_remove_pcb runqueue_timeslice update_pcb_timings
  run_slice pcbs rq pcb =
      let rest = runqueue_remove_pcb rq pcb.pid in
      do
        timeslice ← runqueue_timeslice pcbs rest pcb.priority
        let remaining_time = pcb.process_length - pcb.cpu_time
        let cpu_time = if ltb timeslice remaining_time then timeslice else remaining_time
        updated ← update_pcb_timings pcb cpu_time
        ok (rest, updated)

  -- The loop of `start_process_thread`: a pair for each time that the process is woken, of the other
  -- blocks and the queue as they are then. The result is the block and `context_switch_count`.
  pub run_process : List (Pcbs × Queue) → Pcb → ℕ → Outcome (Pcb × ℕ)
  run_process [] pcb switches =
      if ltb pcb.cpu_time pcb.process_length then out_of_fuel else ok (pcb, switches)
  run_process ((pcbs, rq) ∷ wakes) pcb switches =
      let more = run_slice pcbs rq pcb >>= λ (rest, pcb'). run_process wakes pcb' (switches + 1) in
      if ltb pcb.cpu_time pcb.process_length then more else ok (pcb, switches)
