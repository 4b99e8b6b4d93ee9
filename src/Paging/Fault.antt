-- ===== src/Paging/Fault.antt =====
-- The page that a fault brings in, in proj03/src/paging.c.
use cs.Prelude.{
  ℕ_discrete, ℕ, ◌+◌, ◌<◌, ◌≡◌, ◌∙◌, refl, sym, ap, subst, true, false, ◌==◌, inl, inr, ◌⊎◌, arith,
  Bool-cases,
}
use cs.Prelude.Int.{pos}
use cs.Paging.Hit.{At, set_page_cases}
use cs.Paging.Invariant.{Holds, IsTimed, IsValid, Allocated, pos_inj}
use cs.Paging.{
  Params, Page, Table, State, Frames, set_page, take_frame, page_in, touch, page_table_length,
}

take_frame_self : (frames : Frames) (index : ℕ) → take_frame frames index index ≡ true
take_frame_self frames index = let here : (index == index) ≡ true = ground arith in rw here

take_frame-kept :
    (frames : Frames) (index f : ℕ) → frames f ≡ true → take_frame frames index f ≡ true
take_frame-kept frames index f h = elim (Bool-cases (index == f)) [
  | inl here ↦ rw here
  | inr other ↦ rw other h
]

take_frame-cases :
    (frames : Frames) (index f : ℕ)
    → take_frame frames index f ≡ true
    → (index ≡ f) ⊎ ((¬ (index ≡ f)) × (frames f ≡ true))
take_frame-cases frames index f h = elim (Bool-cases (index == f)) [
  | inl here ↦ inl (ground arith)
  | inr other ↦ inr (ground arith, rw other at h)
]

module _ (params : Params) (s : State) (v : IsValid params s) (index : ℕ) (table : Table)
    (a : Allocated params s index table) (outer inner : ℕ) (row : outer < page_table_length)
    (column : inner < page_table_length) (absent : (s.table outer inner).valid ≡ false) where
  -- The page, brought in and used.
  abbrev pub page : Page
  page = touch (page_in (table outer inner) index (s.t + 1)) (s.t + 1)

  abbrev pub placed : Table
  placed = set_page table outer inner page

  placed_cases :
      (i j : ℕ)
      → (At outer inner i j × (placed i j ≡ page))
        ⊎ ((¬ At outer inner i j) × (placed i j ≡ table i j))
  placed_cases i j = set_page_cases table outer inner page i j

  -- A valid page is the new one, or one that was there before.
  old_page :
      (i j : ℕ)
      → placed i j ≡ table i j
      → (placed i j).valid ≡ true
      → ((s.table i j).valid ≡ true) × (placed i j ≡ s.table i j)
  old_page i j e h =
      let same = e ∙ a.unchanged i j (subst (λ p. p.valid ≡ true) e h) in
      (subst (λ p. p.valid ≡ true) same h, same)

  new_frame : (i j f : ℕ) → placed i j ≡ page → Holds placed i j f → f ≡ index
  new_frame i j f e (_, h) = pos_inj f index (sym h ∙ ap (λ p. p.frame) e)

  old-Holds :
      (i j f : ℕ)
      → placed i j ≡ table i j
      → Holds placed i j f
      → Holds table i j f × Holds s.table i j f
  old-Holds i j f e h =
      let (ok, same) = old_page i j e h.0 in
      (
        subst (λ p. (p.valid ≡ true) × (p.frame ≡ pos f)) e h,
        subst (λ p. (p.valid ≡ true) × (p.frame ≡ pos f)) same h,
      )

  placed_framed :
      (i j : ℕ)
      → (placed i j).valid ≡ true
      → (f : ℕ) × ((placed i j).frame ≡ pos f)
        × (f < params.num_of_frames)
        × (take_frame s.frames index f ≡ true)
  placed_framed i j h = elim (placed_cases i j) [
    | inl (_, e) ↦ (index, ap (λ p. p.frame) e, a.inside, take_frame_self s.frames index)
    | inr (_, e) ↦
        let (ok, same) = old_page i j e h in
        let (f, at, lt, taken) = v.framed i j ok in
        (f, ap (λ p. p.frame) same ∙ at, lt, take_frame-kept s.frames index f taken)
  ]

  placed_distinct :
      (i j i' j' f : ℕ) → Holds placed i j f → Holds placed i' j' f → (i ≡ i') × (j ≡ j')
  placed_distinct i j i' j' f h k = elim (placed_cases i j) [
    | inl (at, e) ↦ elim (placed_cases i' j') [
      | inl (at', _) ↦ (at.0 ∙ sym at'.0, at.1 ∙ sym at'.1)
      | inr (_, e') ↦ absurd (
          a.free i' j' (subst (Holds table i' j') (new_frame i j f e h) (old-Holds i' j' f e' k).0))
    ]
    | inr (_, e) ↦ elim (placed_cases i' j') [
      | inl (_, e') ↦
          absurd
            (a.free i j (subst (Holds table i j) (new_frame i' j' f e' k) (old-Holds i j f e h).0))
      | inr (_, e') ↦ v.distinct i j i' j' f (old-Holds i j f e h).1 (old-Holds i' j' f e' k).1
    ]
  ]

  new-Holds : Holds placed outer inner index
  new-Holds = elim (placed_cases outer inner) [
    | inl (_, e) ↦ (ap (λ p. p.valid) e, ap (λ p. p.frame) e)
    | inr (n, _) ↦ absurd (n (refl, refl))
  ]

  placed_held :
      (f : ℕ) → take_frame s.frames index f ≡ true → (i : ℕ) × (j : ℕ) × Holds placed i j f
  placed_held f taken = elim (take_frame-cases s.frames index f taken) [
    | inl e ↦ (outer, inner, subst (Holds placed outer inner) e new-Holds)
    | inr (n, before) ↦
        let (i, j, (h, k)) = v.held f before in
        elim (placed_cases i j) [
          | inl (at, _) ↦
              let same : (s.table i j).valid ≡ false = rw (at.0, at.1) absent in absurd cc
          | inr (_, e) ↦
              let kept = a.kept i j h (λ b. n (pos_inj index f (sym b.1 ∙ k))) in
              (i, j, (ap (λ p. p.valid) (e ∙ kept) ∙ h, ap (λ p. p.frame) (e ∙ kept) ∙ k))
        ]
  ]

  placed-IsTimed : (i j : ℕ) → (placed i j).valid ≡ true → IsTimed (placed i j) (s.t + 1)
  placed-IsTimed i j h = elim (placed_cases i j) [
    | inl (_, e) ↦ rw e (record {
      came = s.t + 1;
      used = s.t + 1;
      page_in = refl;
      last_used = refl;
      order = omega arith;
      past = omega arith;
    })
    | inr (_, e) ↦
        let (ok, same) = old_page i j e h in
        let w = v.timed i j ok in
        rw same (record {
          came = w.came;
          used = w.used;
          page_in = w.page_in;
          last_used = w.last_used;
          order = w.order;
          past = omega (arith, w.past);
        })
  ]

  placed_row :
      (i j : ℕ) → (placed i j).valid ≡ true → (i < page_table_length) × (j < page_table_length)
  placed_row i j h = elim (placed_cases i j) [
    | inl (at, _) ↦ (rw at.0 row, rw at.1 column)
    | inr (_, e) ↦ let (ok, _) = old_page i j e h in (v.row i j ok, v.column i j ok)
  ]

  pub fault-Holds : Holds placed outer inner index
  fault-Holds = new-Holds

  pub fault-page : placed outer inner ≡ page
  fault-page = elim (placed_cases outer inner) [
    | inl (_, e) ↦ e
    | inr (n, _) ↦ absurd (n (refl, refl))
  ]

  pub fault-unchanged :
      (i j : ℕ) → ¬ At outer inner i j → (placed i j).valid ≡ true → placed i j ≡ s.table i j
  fault-unchanged i j n h = elim (placed_cases i j) [
    | inl (at, _) ↦ absurd (n at)
    | inr (_, e) ↦ (old_page i j e h).1
  ]

  -- A page that was valid keeps its frame, unless the new page takes it.
  pub fault-others : (i j f : ℕ) → Holds s.table i j f → Holds placed i j f ⊎ (f ≡ index)
  fault-others i j f (h, k) = elim (ℕ_discrete f index) [
    | yes e ↦ inr e
    | no n ↦ elim (placed_cases i j) [
      | inl (at, _) ↦ let same : (s.table i j).valid ≡ false = rw (at.0, at.1) absent in absurd cc
      | inr (_, e) ↦
          let kept = a.kept i j h (λ b. n (pos_inj f index (sym k ∙ b.1))) in
          inl (ap (λ p. p.valid) (e ∙ kept) ∙ h, ap (λ p. p.frame) (e ∙ kept) ∙ k)
    ]
  ]

  pub fault-IsValid :
      IsValid params (record { frames = take_frame s.frames index; table = placed; t = s.t + 1 })
  fault-IsValid = record {
    row = λ i j h. (placed_row i j h).0;
    column = λ i j h. (placed_row i j h).1;
    framed = placed_framed;
    distinct = placed_distinct;
    held = placed_held;
    timed = placed-IsTimed;
  }
