-- ===== src/Scheduling/Occurrences.antt =====
-- The nodes of a process in the runqueue of proj02/src/cfs.c.
use cs.Prelude.{
  if_false, ℕ, suc, ◌+◌, ◌≤◌, ◌≡◌, ◌≢◌, inl, inr, refl, subst, List, [], ◌∷◌, ◌==◌, if◌then◌else◌,
  arith, Bool-cases, sym, ap, ◌∙◌, none, some, ◌⊎◌, if_true,
}
use cs.Scheduling.{
  Doubles, Pcbs, smallest_from, runqueue_smallest_pcb, Queue, remove_node, runqueue_init,
  runqueue_add_pcb, runqueue_remove_pcb,
}
use cs.Scheduling.Runqueue.{In}

-- How many nodes the process has.
pub occurrences : ℕ → List ℕ → ℕ
occurrences pid [] = 0
occurrences pid (node ∷ nodes) = (if node == pid then 1 else 0) + occurrences pid nodes

pub occurrences-In : (pid : ℕ) (nodes : List ℕ) → In pid nodes → 1 ≤ occurrences pid nodes
unfolding occurrences In
occurrences-In pid [] h = absurd h
occurrences-In pid (node ∷ nodes) (inl e) = ground arith
occurrences-In pid (node ∷ nodes) (inr h) = ground (arith, occurrences-In pid nodes h)

pub In-occurrences : (pid : ℕ) (nodes : List ℕ) → 1 ≤ occurrences pid nodes → In pid nodes
unfolding occurrences In
In-occurrences pid [] h = absurd (omega arith)
In-occurrences pid (node ∷ nodes) h = elim (Bool-cases (node == pid)) [
  | inl here ↦ inl (ground arith)
  | inr other ↦
      inr
        (In-occurrences pid nodes (omega (arith, if_false {A = ℕ} (node == pid) 1 0 0 other refl)))
]

pub occurrences-add :
    (rq : Queue) (pid : ℕ)
    → occurrences pid (runqueue_add_pcb rq pid).head ≡ suc (occurrences pid rq.head)
unfolding runqueue_add_pcb occurrences
occurrences-add rq pid = ground arith

pub occurrences-add_other :
    (rq : Queue) (pid other : ℕ)
    → other ≢ pid
    → occurrences other (runqueue_add_pcb rq pid).head ≡ occurrences other rq.head
unfolding runqueue_add_pcb occurrences
occurrences-add_other rq pid other ne = ground arith

remove_node-occurrences :
    (nodes : List ℕ) (pid k : ℕ)
    → occurrences pid nodes ≡ suc k
    → occurrences pid (remove_node nodes pid) ≡ k
unfolding remove_node occurrences
remove_node-occurrences [] pid k h = absurd (omega arith)
remove_node-occurrences (node ∷ nodes) pid k h = elim (Bool-cases (node == pid)) [
  | inl here ↦ rw here (ground arith)
  | inr other ↦ rw other (ground (arith, remove_node-occurrences nodes pid k (ground arith)))
]

remove_node-occurrences_other :
    (nodes : List ℕ) (pid other : ℕ)
    → other ≢ pid
    → occurrences other (remove_node nodes pid) ≡ occurrences other nodes
unfolding remove_node occurrences
remove_node-occurrences_other [] pid other ne = refl
remove_node-occurrences_other (node ∷ nodes) pid other ne = elim (Bool-cases (node == pid)) [
  | inl here ↦ rw here (ground arith)
  | inr apart ↦ rw apart (ground (arith, remove_node-occurrences_other nodes pid other ne))
]

pub occurrences-remove :
    (rq : Queue) (pid k : ℕ)
    → occurrences pid rq.head ≡ suc k
    → occurrences pid (runqueue_remove_pcb rq pid).head ≡ k
unfolding runqueue_remove_pcb
occurrences-remove rq pid k h = remove_node-occurrences rq.head pid k h

pub occurrences-remove_other :
    (rq : Queue) (pid other : ℕ)
    → other ≢ pid
    → occurrences other (runqueue_remove_pcb rq pid).head ≡ occurrences other rq.head
unfolding runqueue_remove_pcb
occurrences-remove_other rq pid other ne = remove_node-occurrences_other rq.head pid other ne

pub occurrences-init : (pid : ℕ) → occurrences pid runqueue_init.head ≡ 0
unfolding runqueue_init occurrences
occurrences-init pid = refl

pub occurrences-add_le :
    (rq : Queue) (pid other : ℕ)
    → occurrences other rq.head ≤ occurrences other (runqueue_add_pcb rq pid).head
unfolding runqueue_add_pcb occurrences
occurrences-add_le rq pid other = omega arith

module _ (d : Doubles) (pcbs : Pcbs d) where
  smallest_from-In :
      (nodes : List ℕ) (m : ℕ)
      → (smallest_from d pcbs m nodes ≡ m) ⊎ In (smallest_from d pcbs m nodes) nodes
  unfolding smallest_from In
  smallest_from-In [] m = inl refl
  smallest_from-In (node ∷ nodes) m =
      let next = if d.gtb (pcbs m).vruntime (pcbs node).vruntime then node else m in
      elim (smallest_from-In nodes next) [
        | inr h ↦ inr (inr h)
        | inl e ↦ elim (Bool-cases (d.gtb (pcbs m).vruntime (pcbs node).vruntime)) [
          | inl more ↦ inr (inl (sym (e ∙ if_true _ node m node more refl)))
          | inr less ↦ inl (e ∙ if_false _ node m m less refl)
        ]
      ]

  none_head : (rq : Queue) (pid : ℕ) → rq.head ≡ [] → runqueue_smallest_pcb d pcbs rq ≡ some pid → ⊥
  unfolding runqueue_smallest_pcb
  none_head rq pid e run =
      let is : runqueue_smallest_pcb d pcbs rq ≡ none = rw (e, runqueue_smallest_pcb) refl in
      let no : none ≡ some pid = sym is ∙ run in cc

  runqueue_smallest_pcb_cons :
      (rq : Queue) (node : ℕ) (nodes : List ℕ)
      → rq.head ≡ node ∷ nodes
      → runqueue_smallest_pcb d pcbs rq ≡ some (smallest_from d pcbs node (node ∷ nodes))
  unfolding runqueue_smallest_pcb
  runqueue_smallest_pcb_cons rq node nodes e = rw (e, runqueue_smallest_pcb) refl

  In-head : (node pid : ℕ) (nodes : List ℕ) → node ≡ pid → In pid (node ∷ nodes)
  unfolding In
  In-head node pid nodes e = inl e

  -- A process that is picked has a node in the queue, also where the runtimes are not ordered.
  pub runqueue_smallest_pcb-In :
      (rq : Queue) (pid : ℕ)
      → runqueue_smallest_pcb d pcbs rq ≡ some pid
      → 1 ≤ occurrences pid rq.head
  runqueue_smallest_pcb-In rq pid run = occurrences-In pid rq.head (by_head rq.head refl)
    where
      by_head : (head : List ℕ) → rq.head ≡ head → In pid rq.head
      by_head [] e = absurd (none_head rq pid e run)
      by_head (node ∷ nodes) e =
          let is : some (smallest_from d pcbs node (node ∷ nodes)) ≡ some pid =
            sym (runqueue_smallest_pcb_cons rq node nodes e) ∙ run in
          let same : smallest_from d pcbs node (node ∷ nodes) ≡ pid = cc in
          subst (In pid) (sym e) (elim (smallest_from-In (node ∷ nodes) node) [
            | inl first ↦ In-head node pid nodes (sym first ∙ same)
            | inr h ↦ subst (λ k. In k (node ∷ nodes)) same h
          ])

  -- With none picked the queue is empty.
  pub runqueue_smallest_pcb-none :
      (rq : Queue) (pid : ℕ) → runqueue_smallest_pcb d pcbs rq ≡ none → occurrences pid rq.head ≡ 0
  unfolding runqueue_smallest_pcb occurrences
  runqueue_smallest_pcb-none rq pid run = by_head rq.head refl
    where
      by_head : (head : List ℕ) → rq.head ≡ head → occurrences pid rq.head ≡ 0
      by_head [] e = ap (occurrences pid) e
      by_head (node ∷ nodes) e =
          let is : some (smallest_from d pcbs node (node ∷ nodes)) ≡ none =
            sym (runqueue_smallest_pcb_cons rq node nodes e) ∙ run in
          absurd cc
