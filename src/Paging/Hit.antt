-- ===== src/Paging/Hit.antt =====
-- Writes to the tables of proj03/src/paging.c, and the use of a page that is valid.
use cs.Prelude.{
  ℕ, ◌+◌, ◌≡◌, ◌∙◌, refl, sym, fun_ext, true, ◌&&◌, ◌==◌, inl, inr, ◌⊎◌, arith, Bool-cases,
}
use cs.Paging.Invariant.{Holds, IsTimed, IsValid}
use cs.Paging.{Params, Page, Table, State, set_page, touch}

-- A write to the table, seen from every entry.
abbrev pub At : ℕ → ℕ → ℕ → ℕ → Type 0
At outer inner i j = (i ≡ outer) × (j ≡ inner)

set_page_test : (outer inner i j : ℕ) → At outer inner i j → (outer == i && inner == j) ≡ true
set_page_test outer inner i j at = ground arith

pub set_page_cases :
    (table : Table) (outer inner : ℕ) (page : Page) (i j : ℕ)
    → (At outer inner i j × (set_page table outer inner page i j ≡ page))
      ⊎ ((¬ At outer inner i j) × (set_page table outer inner page i j ≡ table i j))
set_page_cases table outer inner page i j = elim (Bool-cases (outer == i && inner == j)) [
  | inl here ↦ inl (ground arith, rw here)
  | inr other ↦ inr (λ at. cc (set_page_test outer inner i j at), rw other)
]

pub set_page_self :
    (table : Table) (outer inner : ℕ) (page : Page)
    → set_page table outer inner page outer inner ≡ page
set_page_self table outer inner page =
    let here : (outer == outer && inner == inner) ≡ true = ground arith in rw here

pub set_page_other :
    (table : Table) (outer inner : ℕ) (page : Page) (i j : ℕ)
    → ¬ At outer inner i j
    → set_page table outer inner page i j ≡ table i j
set_page_other table outer inner page i j n = elim (set_page_cases table outer inner page i j) [
  | inl (at, _) ↦ absurd (n at)
  | inr (_, e) ↦ e
]

pub set_page_twice :
    (table : Table) (outer inner : ℕ) (p q : Page)
    → set_page (set_page table outer inner p) outer inner q ≡ set_page table outer inner q
set_page_twice table outer inner p q = fun_ext λ i. fun_ext λ j. ground arith

-- An entry with the frame and the validity of the one that it replaces, used now.
module _ (params : Params) (s : State) (v : IsValid params s) (outer inner : ℕ)
    (valid : (s.table outer inner).valid ≡ true) where
  abbrev pub touched : Table
  touched = set_page s.table outer inner (touch (s.table outer inner) (s.t + 1))

  touched_same :
      (i j : ℕ)
      → ((touched i j).valid ≡ (s.table i j).valid) × ((touched i j).frame ≡ (s.table i j).frame)
  touched_same i j =
      elim (set_page_cases s.table outer inner (touch (s.table outer inner) (s.t + 1)) i j) [
        | inl (at, e) ↦ rw e (rw (at.0, at.1) (refl, refl))
        | inr (_, e) ↦ rw e (refl, refl)
      ]

  touched-IsTimed : (i j : ℕ) → (touched i j).valid ≡ true → IsTimed (touched i j) (s.t + 1)
  touched-IsTimed i j h =
      elim (set_page_cases s.table outer inner (touch (s.table outer inner) (s.t + 1)) i j) [
        | inl (at, e) ↦
            let w = v.timed outer inner valid in
            rw e (record {
              came = w.came;
              used = s.t + 1;
              page_in = w.page_in;
              last_used = refl;
              order = omega (arith, w.order, w.past);
              past = omega arith;
            })
        | inr (_, e) ↦
            let w = v.timed i j (rw e at h) in
            rw e (record {
              came = w.came;
              used = w.used;
              page_in = w.page_in;
              last_used = w.last_used;
              order = w.order;
              past = omega (arith, w.past);
            })
      ]

  touched_valid : (i j : ℕ) → (touched i j).valid ≡ true → (s.table i j).valid ≡ true
  touched_valid i j h = sym (touched_same i j).0 ∙ h

  touched-Holds : (i j f : ℕ) → Holds touched i j f → Holds s.table i j f
  touched-Holds i j f (h, k) = (touched_valid i j h, sym (touched_same i j).1 ∙ k)

  pub hit-IsValid : IsValid params (record s { table = touched; t = s.t + 1 })
  hit-IsValid = record {
    row = λ i j h. v.row i j (touched_valid i j h);
    column = λ i j h. v.column i j (touched_valid i j h);
    framed = λ i j h.
        let (f, at, lt, taken) = v.framed i j (touched_valid i j h) in
        (f, (touched_same i j).1 ∙ at, lt, taken);
    distinct =
        λ i j i' j' f h k. v.distinct i j i' j' f (touched-Holds i j f h) (touched-Holds i' j' f k);
    held = λ f taken.
        let (i, j, (h, k)) = v.held f taken in
        (i, j, ((touched_same i j).0 ∙ h, (touched_same i j).1 ∙ k));
    timed = touched-IsTimed;
  }
