-- ===== src/ProcessCounter/Interleaving.antt =====
-- Messages of the children of proj01/src/pword.c, interleaved, and what they still carry.
use cs.Prelude.{
  fun_ext, ℕ, zero, suc, ◌+◌, ◌≡◌, refl, sym, ap, subst, List, [], ◌∷◌, ◌++◌, some, get_elem?, set,
  arith,
}
use cs.WordCount.Text.{Word}
use cs.WordCount.Counts.{count_of, count_of-nil, count_of-append}
use cs.WordCount.Validity.{Positive}
use cs.WordCount.{Pair}
use cs.ProcessCounter.{Bytes}
use cs.ProcessCounter.Delivery.{Sends, Carries, IsEof}

abbrev pub AllSent : List (List Bytes) → Type 0
AllSent [] = Unit {0}
AllSent (queue ∷ queues) = (queue ≡ []) × AllSent queues

-- What each child has yet to send; `pick` takes the next message of the child at index `i`.
pub data Shuffle : List (List Bytes) → List Bytes → Type 0 where
  stop : {queues : List (List Bytes)} → AllSent queues → Shuffle queues []
  pick :
      {queues : List (List Bytes)} {bytes : Bytes} {later : List Bytes} {messages : List Bytes}
      (i : ℕ)
      → get_elem? queues i ≡ some (bytes ∷ later)
      → Shuffle (set queues i later) messages
      → Shuffle queues (bytes ∷ messages)

-- So many children have yet to end, and so often each word is still to be counted.
abbrev pub Due : List (List Bytes) → ℕ → (Word → ℕ) → Type 0
Due [] n total = (n ≡ 0) × ((v : Word) → total v ≡ 0)
Due ([] ∷ queues) n total = Due queues n total
Due ((bytes ∷ queue) ∷ queues) n total =
    (own : List Pair) × (k : ℕ) × (others : Word → ℕ) × Sends (bytes ∷ queue) own
    × Positive own
    × (n ≡ suc k)
    × ((v : Word) → total v ≡ count_of v own + others v)
    × Due queues k others

-- What it means for the rest that a message has been taken.
pub data Picked (rest : List (List Bytes)) (bytes : Bytes) (n : ℕ) (total : Word → ℕ) : Type 0 where
  ended : (k : ℕ) → IsEof bytes → n ≡ suc k → Due rest k total → Picked rest bytes n total
  carried :
      (k : ℕ) (pairs : List Pair) (left : Word → ℕ)
      → Carries bytes pairs
      → Positive pairs
      → n ≡ suc k
      → ((v : Word) → total v ≡ count_of v pairs + left v)
      → Due rest n left
      → Picked rest bytes n total

data First (bytes : Bytes) (queue : List Bytes) (own : List Pair) : Type 0 where
  eof : IsEof bytes → queue ≡ [] → own ≡ [] → First bytes queue own
  data_pairs :
      (now later : List Pair)
      → Carries bytes now
      → Sends queue later
      → own ≡ now ++ later
      → First bytes queue own

first :
    {bytes : Bytes} {queue : List Bytes} {own : List Pair}
    → Sends (bytes ∷ queue) own
    → First bytes queue own
first (Sends.ends e) = First.eof e refl refl
first (Sends.sends c s e) = First.data_pairs _ _ c s e

Positive-split : (ps qs : List Pair) → Positive (ps ++ qs) → Positive ps × Positive qs
Positive-split [] qs h = (tt, h)
Positive-split (p ∷ ps) qs h = let (left, right) = Positive-split ps qs h.1 in ((h.0, left), right)

none_sent : {queue : List Bytes} {own : List Pair} → Sends queue own → queue ≡ [] → ⊥
none_sent (Sends.ends e) at = cc
none_sent (Sends.sends c s e) at = cc

-- The rest of a queue whose head has been taken.
pub Due-later :
    (queue : List Bytes) (later : List Pair) (queues : List (List Bytes)) (n k : ℕ)
    (left others : Word → ℕ)
    → Sends queue later
    → Positive later
    → n ≡ suc k
    → ((v : Word) → left v ≡ count_of v later + others v)
    → Due queues k others
    → Due (queue ∷ queues) n left
Due-later [] later queues n k left others s h e f d = absurd (none_sent s refl)
Due-later (bytes ∷ queue) later queues n k left others s h e f d = (later, k, others, s, h, e, f, d)

Due-total :
    (queues : List (List Bytes)) (n : ℕ) (total total' : Word → ℕ)
    → ((v : Word) → total v ≡ total' v)
    → Due queues n total
    → Due queues n total'
Due-total queues n total total' e d = subst (Due queues n) (fun_ext e) d

Due-head :
    (bytes : Bytes) (queue : List Bytes) (queues : List (List Bytes)) (n : ℕ) (total : Word → ℕ)
    → Due ((bytes ∷ queue) ∷ queues) n total
    → Picked (queue ∷ queues) bytes n total
Due-head bytes queue queues n total (own, k, others, s, h, e, f, d) = elim (first s) [
  | First.eof end empty nothing ↦ Picked.ended k end e (
      subst (λ q. Due (q ∷ queues) k total) (sym empty)
        (Due-total queues k others total
          (λ v. omega (arith, f v, ap (count_of v) nothing, count_of-nil v)) d))
  | First.data_pairs now later c s' at ↦
      let both = Positive-split now later (subst Positive at h) in
      Picked.carried k now (λ v. count_of v later + others v) c both.0 e
        (λ v. omega (arith, f v, ap (count_of v) at, count_of-append v now later))
        (Due-later queue later queues n k _ others s' both.1 e (λ v. refl) d)
]

pub Due-pick :
    (queues : List (List Bytes)) (i n : ℕ) (total : Word → ℕ) (bytes : Bytes) (later : List Bytes)
    → get_elem? queues i ≡ some (bytes ∷ later)
    → Due queues n total
    → Picked (set queues i later) bytes n total
Due-pick [] i n total bytes later e d = cc
Due-pick ([] ∷ queues) zero n total bytes later e d = cc
Due-pick ([] ∷ queues) (suc i) n total bytes later e d =
    elim (Due-pick queues i n total bytes later e d) [
      | Picked.ended k end at rest ↦ Picked.ended k end at rest
      | Picked.carried k ps left c p at f rest ↦ Picked.carried k ps left c p at f rest
    ]
Due-pick ((b ∷ queue) ∷ queues) zero n total bytes later e d =
    let heads : b ≡ bytes = cc in
    let tails : queue ≡ later = cc in
    subst (λ q. Picked (q ∷ queues) bytes n total) tails
      (subst (λ x. Picked (queue ∷ queues) x n total) heads (Due-head b queue queues n total d))
Due-pick ((b ∷ queue) ∷ queues) (suc i) n total bytes later e (own, k, others, s, h, at, f, d) =
    elim (Due-pick queues i k others bytes later e d) [
      | Picked.ended j end here rest ↦ Picked.ended k end at (own, j, others, s, h, here, f, rest)
      | Picked.carried j ps left c p here g rest ↦
          Picked.carried k ps (λ v. count_of v own + left v) c p at (λ v. omega (arith, f v, g v))
            (own, k, left, s, h, at, (λ v. refl), rest)
    ]

pub Due-none :
    (queues : List (List Bytes)) (n : ℕ) (total : Word → ℕ)
    → AllSent queues
    → Due queues n total
    → (n ≡ 0) × ((v : Word) → total v ≡ 0)
Due-none [] n total h d = d
Due-none ([] ∷ queues) n total h d = Due-none queues n total h.1 d
Due-none ((bytes ∷ queue) ∷ queues) n total h d = cc (h.0)
