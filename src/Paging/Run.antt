-- ===== src/Paging/Run.antt =====
-- A whole run of `run_paging_simulation` of proj03/src/paging.c, from empty tables.
use cs.Prelude.{
  ℕ, ◌+◌, ◌≤◌, ◌≡◌, ◌∙◌, refl, sym, ap, true, false, not, List, [], ◌∷◌, inl, inr, arith, length,
  ok,
}
use cs.Prelude.Int.{ℤ, pos}
use cs.Paging.Invariant.{IsValid, IsSound}
use cs.Paging.Step.{IsStep, IsTranslated}
use cs.Paging.Reference.{reference-IsStep}
use cs.Paging.{
  Params, State, PagingResult, is_virtual_address_in_range, run_paging, init_state,
  run_paging_simulation,
}

-- The steps from one state to another, an address and a result for each.
pub data Steps (params : Params) : State → List ℤ → List PagingResult → State → Type 0 where
  done : {s : State} → Steps params s [] [] s
  next :
      {s s' end : State} {address : ℤ} {addresses : List ℤ} {result : PagingResult}
      {results : List PagingResult}
      → IsStep params s address result s'
      → Steps params s' addresses results end
      → Steps params s (address ∷ addresses) (result ∷ results) end

run_paging-Steps :
    (params : Params) (addresses : List ℤ) (s : State)
    → IsSound params
    → IsValid params s
    → s.t + length addresses ≤ 999999
    → (results : List PagingResult) × (end : State) × (run_paging params s addresses
        ≡ ok (results, end))
      × Steps params s addresses results end
unfolding run_paging
run_paging-Steps params [] s sound v short = ([], s, refl, Steps.done)
run_paging-Steps params (address ∷ addresses) s sound v short =
    let (result, s', run, step) = reference-IsStep params s address sound v (omega arith) in
    let (results, end, runs, steps) =
      run_paging-Steps params addresses s' sound step.valid (omega (arith, step.time)) in
    (result ∷ results, end, rw (run, runs) refl, Steps.next step steps)

init_state-IsValid : (params : Params) → IsValid params init_state
unfolding init_state
init_state-IsValid params = record {
  row = λ i j h. cc;
  column = λ i j h. cc;
  framed = λ i j h. absurd cc;
  distinct = λ i j i' j' f h. absurd (let e = h.0 in cc);
  held = λ f h. absurd cc;
  timed = λ i j h. absurd cc;
}

-- Under sound parameters (some frames, no more than MAX_FRAME_COUNT, and a known algorithm) the
-- simulation of at most 999999 references returns, with one result for each of them, and every
-- reference is a correct step, by IsStep, from the tables that the last one left, the first from
-- empty ones.
pub run_paging_simulation-Steps :
    (params : Params) (addresses : List ℤ)
    → IsSound params
    → length addresses ≤ 999999
    → (results : List PagingResult) × (end : State) × (run_paging_simulation params addresses
        ≡ ok results)
      × Steps params init_state addresses results end
unfolding run_paging_simulation init_state
run_paging_simulation-Steps params addresses sound short =
    let (results, end, run, steps) =
      run_paging-Steps params addresses init_state sound (init_state-IsValid params)
        (omega arith) in
    (results, end, rw run refl, steps)

same_frame : (frame frame' : ℕ) (page : ℤ) → page ≡ pos frame → page ≡ pos frame' → frame ≡ frame'
same_frame frame frame' page e e' = cc

IsTranslated-of :
    (params : Params) (s s' : State) (address : ℤ) (result : PagingResult)
    → IsStep params s address result s'
    → is_virtual_address_in_range params.virtual_regions address ≡ true
    → (frame : ℕ) × IsTranslated params s address frame result s'
IsTranslated-of params s s' address result step inside = elim step.outcome [
  | inl (outside, _) ↦ absurd cc
  | inr (_, translated) ↦ translated
]

-- An address within the regions that is referenced twice in a row causes no fault the second time,
-- and has the same physical address.
pub reference_again :
    (params : Params) (s s' s'' : State) (address : ℤ) (result result' : PagingResult)
    → is_virtual_address_in_range params.virtual_regions address ≡ true
    → IsStep params s address result s'
    → IsStep params s' address result' s''
    → (result'.caused_page_fault ≡ false) × (result'.physical_address ≡ result.physical_address)
reference_again params s s' s'' address result result' inside first second =
    let (frame, one) = IsTranslated-of params s s' address result first inside in
    let (frame', two) = IsTranslated-of params s' s'' address result' second inside in
    let same : frame ≡ frame' = elim (two.others _ _ frame one.holds) [
      | inl h ↦ same_frame frame frame' _ h.1 two.holds.1
      | inr e ↦ e
    ] in
    (two.fault ∙ ap not one.holds.0, two.physical ∙ rw (sym same) (sym one.physical))
