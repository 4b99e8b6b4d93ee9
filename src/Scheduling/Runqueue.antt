-- ===== src/Scheduling/Runqueue.antt =====
-- The runqueue of proj02/src/cfs.c.
use cs.Prelude.{
  ℕ, ◌≡◌, refl, sym, ap, subst, true, false, List, [], ◌∷◌, ◌++◌, none, some, inl, inr, ◌⊎◌, ◌==◌,
  arith, Bool-cases, if◌then◌else◌,
}
use cs.Scheduling.{
  Doubles, Queue, Pcbs, remove_node, runqueue_add_pcb, runqueue_remove_pcb, runqueue_init,
  smallest_from, runqueue_smallest_pcb, get_runqueue_item_count,
}

-- The process has a node in the list.
unfoldable pub In : ℕ → List ℕ → Type 0
In pid [] = ⊥
In pid (node ∷ nodes) = (node ≡ pid) ⊎ In pid nodes

-- Removal takes the first node of the process out, and leaves every other node in its place; a queue
-- without the process is unchanged.
pub remove_node_lem :
    (nodes : List ℕ) (pid : ℕ)
    → ((before : List ℕ) × (after : List ℕ) × (nodes ≡ before ++ (pid ∷ after))
        × (¬ In pid before)
        × (remove_node nodes pid ≡ before ++ after))
      ⊎ ((¬ In pid nodes) × (remove_node nodes pid ≡ nodes))
unfolding remove_node In
remove_node_lem [] pid = inr (λ h. h, refl)
remove_node_lem (node ∷ nodes) pid = elim (Bool-cases (node == pid)) [
  | inl here ↦ let e : node ≡ pid = ground arith in inl ([], nodes, rw e refl, λ h. h, rw here refl)
  | inr other ↦
      let n : ¬ (node ≡ pid) = ground arith in
      elim (remove_node_lem nodes pid) [
        | inl (before, after, split, fresh, run) ↦ inl (
          node ∷ before,
          after,
          ap (λ xs. node ∷ xs) split,
          λ h. elim h [ inl e ↦ n e | inr h' ↦ fresh h' ],
          rw (other, run) refl,
        )
        | inr (absent, run) ↦
            inr (λ h. elim h [ inl e ↦ n e | inr h' ↦ absent h' ], rw (other, run) refl)
      ]
]

-- A process that is added and removed again leaves the queue as it was.
pub remove-add : (rq : Queue) (pid : ℕ) → runqueue_remove_pcb (runqueue_add_pcb rq pid) pid ≡ rq
unfolding runqueue_remove_pcb runqueue_add_pcb remove_node
remove-add rq pid = let here : (pid == pid) ≡ true = ground arith in rw here refl

-- The additions and removals of the process threads.
pub data Op : Type 0 where
  add_pcb_to_runqueue : ℕ → Op
  remove_pcb_from_runqueue : ℕ → Op

pub run_op : Queue → Op → Queue
unfolding runqueue_remove_pcb runqueue_add_pcb
run_op rq (add_pcb_to_runqueue pid) = runqueue_add_pcb rq pid
run_op rq (remove_pcb_from_runqueue pid) = runqueue_remove_pcb rq pid

pub run_ops : Queue → List Op → Queue
unfolding run_op
run_ops rq [] = rq
run_ops rq (op ∷ ops) = run_ops (run_op rq op) ops

run_ops-count : (ops : List Op) (rq : Queue) → (run_ops rq ops).count ≡ rq.count
unfolding run_ops run_op runqueue_remove_pcb runqueue_add_pcb
run_ops-count [] rq = refl
run_ops-count (add_pcb_to_runqueue pid ∷ ops) rq = run_ops-count ops (runqueue_add_pcb rq pid)
run_ops-count (remove_pcb_from_runqueue pid ∷ ops) rq =
    run_ops-count ops (runqueue_remove_pcb rq pid)

-- After any sequence of additions and removals from the initial queue on, the number of items that
-- the queue reports is 0.
pub get_runqueue_item_count_zero :
    (ops : List Op) → get_runqueue_item_count (run_ops runqueue_init ops) ≡ 0
unfolding get_runqueue_item_count runqueue_init
get_runqueue_item_count_zero ops = run_ops-count ops runqueue_init

-- `a > b` of numbers that are not NaN.
pub record IsOrder (d : Doubles) : Type 0 where
  pub irreflexive : (a : d.Real) → d.gtb a a ≡ false
  pub asymmetric : (a b : d.Real) → d.gtb a b ≡ true → d.gtb b a ≡ false
  pub transitive : (a b c : d.Real) → d.gtb a b ≡ false → d.gtb b c ≡ false → d.gtb a c ≡ false

module _ (d : Doubles) (order : IsOrder d) (pcbs : Pcbs d) where
  -- The process is in the list, and no other one there has a smaller virtual runtime.
  pub record IsSmallest (nodes : List ℕ) (pid : ℕ) : Type 0 where
    pub member : In pid nodes
    pub least :
        (other : ℕ) → In other nodes → d.gtb (pcbs pid).vruntime (pcbs other).vruntime ≡ false

  -- Of a start and a list, the one with the least runtime.
  abbrev LeastOf : ℕ → List ℕ → ℕ → Type 0
  LeastOf m nodes pid =
      ((pid ≡ m) ⊎ In pid nodes)
      × (d.gtb (pcbs pid).vruntime (pcbs m).vruntime ≡ false)
      × ((other : ℕ) → In other nodes → d.gtb (pcbs pid).vruntime (pcbs other).vruntime ≡ false)

  step_to :
      (m next node : ℕ) (nodes : List ℕ)
      → (if d.gtb (pcbs m).vruntime (pcbs node).vruntime then node else m) ≡ next
      → smallest_from d pcbs m (node ∷ nodes) ≡ smallest_from d pcbs next nodes
  unfolding smallest_from
  step_to m next node nodes e = ap (λ n. smallest_from d pcbs n nodes) e

  smallest_from-least : (nodes : List ℕ) (m : ℕ) → LeastOf m nodes (smallest_from d pcbs m nodes)
  unfolding smallest_from In
  smallest_from-least [] m = (inl refl, order.irreflexive (pcbs m).vruntime, λ other h. absurd h)
  smallest_from-least (node ∷ nodes) m =
      elim (Bool-cases (d.gtb (pcbs m).vruntime (pcbs node).vruntime)) [
        | inl more ↦
            let (where_is, le, least) = smallest_from-least nodes node in
            let below = order.transitive _ _ _ le (order.asymmetric _ _ more) in
            subst (LeastOf m (node ∷ nodes)) (sym (step_to m node node nodes (rw more refl))) (
              inr (elim where_is [ inl e ↦ inl (sym e) | inr h ↦ inr h ]),
              below,
              λ other h. elim h [ inl e ↦ rw (sym e) le | inr h' ↦ least other h' ],
            )
        | inr less ↦
            let (where_is, le, least) = smallest_from-least nodes m in
            let below = order.transitive _ _ _ le less in
            subst (LeastOf m (node ∷ nodes)) (sym (step_to m m node nodes (rw less refl))) (
              elim where_is [ inl e ↦ inl e | inr h ↦ inr (inr h) ],
              le,
              λ other h. elim h [ inl e ↦ rw (sym e) below | inr h' ↦ least other h' ],
            )
      ]

  IsSmallest-of_nodes :
      (node : ℕ) (nodes : List ℕ)
      → IsSmallest (node ∷ nodes) (smallest_from d pcbs node (node ∷ nodes))
  unfolding In
  IsSmallest-of_nodes node nodes =
      let (where_is, _, least) = smallest_from-least (node ∷ nodes) node in
      record { member = elim where_is [ inl e ↦ inl (sym e) | inr h ↦ h ]; least = least }

-- Where virtual runtimes are compared by an order, the scheduler picks no process exactly if the
-- queue is empty, and else a process of the queue such that no other there has a smaller virtual
-- runtime.
pub runqueue_smallest_pcb-IsSmallest :
    (d : Doubles) (order : IsOrder d) (pcbs : Pcbs d) (rq : Queue)
    → ((rq.head ≡ []) × (runqueue_smallest_pcb d pcbs rq ≡ none))
      ⊎ ((pid : ℕ) × (runqueue_smallest_pcb d pcbs rq ≡ some pid)
          × IsSmallest d order pcbs rq.head pid)
unfolding runqueue_smallest_pcb
runqueue_smallest_pcb-IsSmallest d order pcbs rq = by_head rq.head refl
  where
    by_head :
        (head : List ℕ)
        → rq.head ≡ head
        → ((rq.head ≡ []) × (runqueue_smallest_pcb d pcbs rq ≡ none))
          ⊎ ((pid : ℕ) × (runqueue_smallest_pcb d pcbs rq ≡ some pid)
              × IsSmallest d order pcbs rq.head pid)
    by_head [] e = inl (e, rw (e, runqueue_smallest_pcb) refl)
    by_head (node ∷ nodes) e = inr (
      smallest_from d pcbs node (node ∷ nodes),
      rw (e, runqueue_smallest_pcb) refl,
      subst (λ head. IsSmallest d order pcbs head (smallest_from d pcbs node (node ∷ nodes)))
          (sym e) (IsSmallest-of_nodes d order pcbs node nodes),
    )
