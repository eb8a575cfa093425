-- ===== src/Pool/Tests.antt =====
-- Runs of src/pool on small pools, and the theorems at concrete inputs.
use business2api.Base.{All, ◌+◌, ◌*◌, ◌≤◌, ◌≡◌, refl, List, [], ◌∷◌, none, some, arith}
use business2api.Text.{codes, eqb}
use business2api.Pool.Account.{second}
use business2api.Pool.Next.{next, visits, exceeded_daily, in_use_cooldown, hand_out}
use business2api.Pool.Next.Choice.{Choice, next-Choice}
use business2api.Pool.Next.Limit.{times_handed}
use business2api.Pool.Next.Calls.{
  Event, starts, steps, idle, begin, advance, look, settle, happen, happenings,
}
use business2api.Pool.Next.Overlaps.{IsWithin, happenings-le_limit}
use business2api.Pool.Samples.{settings, pool_of}

next_skips : (next settings (100 * second) (100 * second) (pool_of (0 ∷ 1 ∷ 2 ∷ []) [])).1 ≡ some 2
unfolding next eqb
next_skips = refl

next_oldest : (next settings (100 * second) (100 * second) (pool_of (0 ∷ 1 ∷ []) [])).1 ≡ some 1
unfolding next eqb
next_oldest = refl

next_exhausted : (next settings (100 * second) (100 * second) (pool_of (0 ∷ []) [])).1 ≡ none
unfolding next eqb
next_exhausted = refl

next-Choice_example :
    Choice settings
      (100 * second)
      (pool_of [] []).heap
      (visits (0 ∷ 1 ∷ 2 ∷ []) 0)
      (next settings (100 * second) (100 * second) (pool_of (0 ∷ 1 ∷ 2 ∷ []) [])).1
next-Choice_example =
    next-Choice settings (100 * second) (100 * second) (pool_of (0 ∷ 1 ∷ 2 ∷ []) [])

-- Two callers look at account 2 before either of them marks it.
abbrev overlapping : List Event
overlapping =
    starts 0 (100 * second)
    ∷ starts 1 (100 * second)
    ∷ steps 0 (100 * second)
    ∷ steps 1 (100 * second)
    ∷ steps 0 (100 * second)
    ∷ steps 1 (100 * second)
    ∷ []

-- Both are given it, though its limit of 2 had one use left.
overlapping_exceeds :
    times_handed 2 (happenings settings overlapping (pool_of (2 ∷ []) [], λ i. idle)) ≡ 2
unfolding happenings happen begin advance look settle visits exceeded_daily in_use_cooldown hand_out
    eqb
overlapping_exceeds = refl

within : All (IsWithin settings 2 (codes "2026-02-03") 2) overlapping
unfolding eqb
within = (
  (omega arith, refl),
  (
    (omega arith, refl),
    ((omega arith, refl), ((omega arith, refl), ((omega arith, refl), ((omega arith, refl), tt)))),
  ),
)

happenings-le_limit_example :
    1 + times_handed 2 (happenings settings overlapping (pool_of (2 ∷ []) [], λ i. idle)) ≤ 2 + 1
unfolding eqb
happenings-le_limit_example =
    happenings-le_limit settings (codes "2026-02-03") 2 2 overlapping (pool_of (2 ∷ []) [])
      (omega arith) (omega arith) within (omega arith)
