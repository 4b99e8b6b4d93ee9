-- ===== src/Paging/Search.antt =====
-- The search of proj03/src/paging.c for a free frame.
use cs.Prelude.{
  ℕ, zero, suc, ◌+◌, ◌≤◌, ◌<◌, ◌≡◌, refl, true, false, Option, none, some, inl, inr, ◌⊎◌, arith,
  Bool-cases, dec_lt, ltb, Outcome, ok,
}
use cs.Paging.{Params, Frames, max_frame_count, find_free_from, find_first_free_frame}

-- The first free frame, or none if all are taken.
abbrev pub Search : Frames → ℕ → ℕ → Outcome (Option ℕ) → Type 0
Search frames i end result =
    ((result ≡ ok none) × ((f : ℕ) → i ≤ f → f < end → frames f ≡ true))
    ⊎ ((f : ℕ) × (result ≡ ok (some f)) × (f < end) × (frames f ≡ false))

find_free_from-Search :
    (frames : Frames) (n i end : ℕ)
    → i + n ≡ end
    → end ≤ max_frame_count
    → Search frames i end (find_free_from frames n i)
unfolding find_free_from
find_free_from-Search frames zero i end e room = inl (refl, λ f le lt. absurd (omega arith))
find_free_from-Search frames (suc n) i end e room =
    let inside : ltb i max_frame_count ≡ true = ground arith in
    elim (Bool-cases (frames i)) [
      | inl taken ↦ elim (find_free_from-Search frames n (i + 1) end (omega arith) room) [
        | inl (run, all) ↦ inl (
          rw (inside, taken) run,
          λ f le lt. elim (dec_lt i f) [
            | yes after ↦ all f (omega arith) lt
            | no here ↦ let e : f ≡ i = omega arith in rw e taken
          ],
        )
        | inr (f, run, lt, free) ↦ inr (f, rw (inside, taken) run, lt, free)
      ]
      | inr free ↦ inr (i, rw (inside, free), omega arith, free)
    ]

pub find_first_free_frame-Search :
    (params : Params) (frames : Frames)
    → params.num_of_frames ≤ max_frame_count
    → Search frames 0 params.num_of_frames (find_first_free_frame params frames)
unfolding find_first_free_frame
find_first_free_frame-Search params frames room =
    find_free_from-Search frames params.num_of_frames 0 params.num_of_frames (omega arith) room
