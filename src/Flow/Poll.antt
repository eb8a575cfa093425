-- ===== src/Flow/Poll.antt =====
-- src/flow/handler.go, `pollVideoResult`, and its copy `PollVideoResult` in src/flow/flow_client.go:
-- the service is asked a bounded number of times. The waits and the progress notes are left out.
use business2api.Base.{
  ℕ, zero, suc, ◌+◌, ◌≤◌, ◌<◌, ◌≡◌, ◌==◌, Bool, ◌||◌, Option, none, some, arith, if◌then◌else◌,
  null, Option-cases, Bool-cases, inl, inr,
}
use business2api.Text.{Text, codes, eqb}

pub record VideoStatusResponse : Type 0 where
  pub status : Text
  pub video_url : Text

pub data PollResult : Type 0 where
  video : Text → PollResult
  failed : Text → PollResult
  timeout : ℕ → PollResult

unfoldable pub is_final_error : Text → Bool
unfolding eqb
is_final_error status =
    eqb status (codes "MEDIA_GENERATION_STATUS_ERROR_UNKNOWN")
    || eqb status (codes "MEDIA_GENERATION_STATUS_ERROR_NSFW")
    || eqb status (codes "MEDIA_GENERATION_STATUS_ERROR_PERSON")
    || eqb status (codes "MEDIA_GENERATION_STATUS_ERROR_SAFETY")

-- What one answer decides: nothing, while the video is not there.
unfoldable pub decide : Option VideoStatusResponse → Option PollResult
unfolding is_final_error eqb
decide none = none
decide (some resp) =
    if eqb resp.status (codes "MEDIA_GENERATION_STATUS_SUCCESSFUL")
    then if null resp.video_url then none else some (video resp.video_url)
    else if is_final_error resp.status
    then some (failed resp.status)
    else none

-- `check i` is the answer to attempt `i`, and `none` an error of the request.
unfoldable pub poll_loop : (ℕ → Option VideoStatusResponse) → ℕ → ℕ → ℕ → PollResult
unfolding decide
poll_loop check most zero i = timeout most
poll_loop check most (suc left) i = elim (decide (check i)) [
  | none ↦ poll_loop check most left (i + 1)
  | some r ↦ r
]

unfoldable pub poll_video_result : (ℕ → Option VideoStatusResponse) → ℕ → PollResult
unfolding poll_loop
poll_video_result check most = poll_loop check most most 0

-- How a poll of the attempts from `i` to `last` ends.
pub data Polled (check : ℕ → Option VideoStatusResponse) (most i last : ℕ)
    : PollResult → Type 0 where
  decided :
      (j : ℕ) (r : PollResult)
      → i ≤ j
      → j < last
      → decide (check j) ≡ some r
      → ((m : ℕ) → i ≤ m → m < j → decide (check m) ≡ none)
      → Polled check most i last r
  exhausted :
      ((m : ℕ) → i ≤ m → m < last → decide (check m) ≡ none)
      → Polled check most i last (timeout most)

module _ (check : ℕ → Option VideoStatusResponse) (most : ℕ) where
  wait_for :
      (i last : ℕ) (r : PollResult)
      → i < last
      → decide (check i) ≡ none
      → Polled check most (i + 1) last r
      → Polled check most i last r
  wait_for i last r h open_still (decided j _ a b e before) = decided j r (omega arith) b e λ m p q.
      elim (Bool-cases (m == i)) [
        | inl here ↦ (let at : m ≡ i = ground arith in rw at open_still)
        | inr other ↦ before m (ground arith) q
      ]
  wait_for i last _ h open_still (exhausted before) = exhausted λ m p q.
      elim (Bool-cases (m == i)) [
        | inl here ↦ (let at : m ≡ i = ground arith in rw at open_still)
        | inr other ↦ before m (ground arith) q
      ]

  poll_loop-Polled :
      (left i last : ℕ) → i + left ≡ last → Polled check most i last (poll_loop check most left i)
  unfolding poll_loop
  poll_loop-Polled zero i last e = exhausted λ m p q. absurd (omega arith)
  poll_loop-Polled (suc left) i last e = elim (Option-cases (decide (check i))) [
    | inl open_still ↦
        rw (open_still, poll_loop)
          (wait_for i last _ (omega arith) open_still
            (poll_loop-Polled left (i + 1) last (omega arith)))
    | inr (r, closed) ↦
        rw (closed, poll_loop)
          (decided i r (omega arith) (omega arith) closed λ m p q. absurd (omega arith))
  ]

  -- The poll ends after at most `most` attempts: with what the first answer that decides anything
  -- says, a video's address or a final error, or with a timeout, if no answer does.
  pub poll_video_result-Polled : Polled check most 0 most (poll_video_result check most)
  unfolding poll_video_result
  poll_video_result-Polled = poll_loop-Polled most 0 most (omega arith)
