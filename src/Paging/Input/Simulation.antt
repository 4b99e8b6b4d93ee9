-- ===== src/Paging/Input/Simulation.antt =====
-- The simulation of proj03/src on random input.
use cs.Prelude.{
  subst, ℕ, suc, ◌≤◌, ◌<◌, ◌≡◌, ◌∙◌, refl, sym, ap, false, List, [], ◌∷◌, length, inl, inr, arith,
  ok,
}
use cs.Prelude.Int.{ℤ}
use cs.Paging.{Params, State, PagingResult}
use cs.Paging.Invariant.{IsSound}
use cs.Paging.Run.{Steps, run_paging_simulation-Steps}
use cs.Paging.Input.{rand_max, simulate}
use cs.Paging.Input.Addresses.{AllInRange, random_source, addresses_random}

-- No reference was to an address outside the regions.
abbrev pub NoException : List PagingResult → Type 0
NoException [] = Unit {0}
NoException (result ∷ results) =
    (result.unused_memory_access_exception ≡ false) × NoException results

Steps-NoException :
    {params : Params} {s end : State} {addresses : List ℤ} {results : List PagingResult}
    → Steps params s addresses results end
    → AllInRange params.virtual_regions addresses
    → NoException results × (length results ≡ length addresses)
Steps-NoException Steps.done inside = (tt, refl)
Steps-NoException (Steps.next step steps) inside =
    let (rest, count) = Steps-NoException steps inside.1 in
    elim step.outcome [
      | inl (outside, _) ↦ absurd (let e = inside.0 in cc)
      | inr (_, (frame, translated)) ↦ ((translated.no_exception, rest), ap suc count)
    ]

-- Under sound parameters whose only region begins at 0 and is not empty, with numbers from rand of at
-- most RAND_MAX, at most 999999 addresses, and fuel for one more round, the simulation of random input
-- returns as many results as there are addresses, none of which reports an exception.
pub simulate-NoException :
    (rand : ℕ → ℕ) (params : Params) (past_end total fuel : ℕ)
    → ((k : ℕ) → rand k ≤ rand_max)
    → IsSound params
    → params.virtual_regions ≡ (random_source past_end total).virtual_regions
    → 0 < past_end
    → past_end ≤ rand_max
    → total ≤ 999999
    → total < fuel
    → (results : List PagingResult) × (simulate rand fuel params (random_source past_end total)
        ≡ ok results)
      × (length results ≡ total)
      × NoException results
unfolding simulate
simulate-NoException rand params past_end total fuel small sound regions positive fits few enough =
    let (list, drawn, count, inside) =
      addresses_random rand past_end total fuel small positive fits enough in
    let (results, end, run, steps) =
      run_paging_simulation-Steps params list sound (omega (arith, count)) in
    let (none, same) =
      Steps-NoException steps (subst (λ r. AllInRange r list) (sym regions) inside) in
    (results, rw (drawn, run) refl, same ∙ count, none)
