-- ===== src/Flow/Generate/Outcomes.antt =====
-- src/flow/handler.go, `HandleGeneration`: what a request leaves behind at the tokens.
use business2api.Base.{
  ℕ, ◌+◌, ◌≡◌, refl, sym, ap, ◌∙◌, List, Option, some, arith, ◌==◌, if◌then◌else◌, Option-cases,
  ◌⊎◌, inl, inr,
}
use business2api.Text.{Text, StringMap}
use business2api.Flow.{FlowToken}
use business2api.Flow.Select.{select_token}
use business2api.Flow.Models.{
  ModelConfig, VideoType, no_video, t2v, i2v, r2v, get_flow_model_config,
}
use business2api.Flow.Refresh.{StToAtResponse, ensure_at_valid, ensure_project_exists, store_answer}
use business2api.Flow.Generate.{
  FlowService, GenerationRequest, GenerationError, Outcome, generation_failed, submission_failed,
  handle_generation, generate_with, handle_image_generation, handle_video_generation, source_of,
  upload_all, tier_of,
}

-- The count of errors after a request: none after a success, one more after a call that the service
-- refused to generate for, and the same otherwise.
unfoldable pub errors_after : Text ⊎ GenerationError → ℕ → ℕ
errors_after (inl url) n = 0
errors_after (inr generation_failed) n = n + 1
errors_after (inr submission_failed) n = n + 1
errors_after (inr _) n = n

ensure_at_valid-errors :
    (now : ℕ) (reply : Option StToAtResponse) (token : FlowToken)
    → (ensure_at_valid now reply token).0.error_count ≡ token.error_count
unfolding ensure_at_valid store_answer
ensure_at_valid-errors now reply token = ground arith

ensure_project_exists-errors :
    (created : Option Text) (token : FlowToken)
    → (ensure_project_exists created token).0.error_count ≡ token.error_count
unfolding ensure_project_exists
ensure_project_exists-errors created token = ground arith

Sum-cases {ℓ κ} :
    {A : Type ℓ} {B : Type κ} (s : A ⊎ B) → ((a : A) × (s ≡ inl a)) ⊎ ((b : B) × (s ≡ inr b))
Sum-cases (inl a) = inl (a, refl)
Sum-cases (inr b) = inr (b, refl)

module _ {ℓ} {A : Type ℓ} where
  at_self : (p : ℕ) (a b : A) → (if p == p then a else b) ≡ a
  at_self p a b = ground arith

  at_other :
      (p q : ℕ) (a : A) (f : ℕ → A)
      → (if p == q then a else f q) ≡ (if p == q then if p == p then a else f p else f q)
  at_other p q a f = ground arith

module _ (service : FlowService) (later : ℕ) where
  abbrev Accounts : FlowToken → Outcome → Type 0
  Accounts token r = r.0.error_count ≡ errors_after r.1 token.error_count

  image-Accounts :
      (token : FlowToken) (config : ModelConfig) (req : GenerationRequest)
      → Accounts token (handle_image_generation service later token config req)
  unfolding handle_image_generation errors_after
  image-Accounts token config req =
      elim (Option-cases (upload_all service later token.at config.aspect_ratio req.images)) [
        | inl fails ↦ rw (fails, handle_image_generation) refl
        | inr (ids, sent) ↦
            let made = service.generate_image token.at token.project_id req.prompt config ids in
            rw (sent, handle_image_generation)
              (elim (Option-cases made) [
                | inl refused ↦ rw refused refl
                | inr (url, e) ↦ rw e (ground arith)
              ])
      ]

  -- A failure before the service is asked to generate is no error of the token.
  source_of-errors :
      (token : FlowToken) (config : ModelConfig) (images : List (List ℕ)) (e : GenerationError)
      (n : ℕ) (kind : VideoType)
      → config.video_type ≡ kind
      → source_of service later token config images ≡ inr e
      → errors_after (inr e) n ≡ n
  unfolding source_of errors_after
  source_of-errors token config images e n no_video is at = ground arith
  source_of-errors token config images e n t2v is at = ground arith
  source_of-errors token config images e n i2v is at = ground arith
  source_of-errors token config images e n r2v is at = ground arith

  video-Accounts :
      (token : FlowToken) (config : ModelConfig) (req : GenerationRequest)
      → Accounts token (handle_video_generation service later token config req)
  unfolding handle_video_generation errors_after
  video-Accounts token config req =
      elim (Sum-cases (source_of service later token config req.images)) [
        | inr (e, fails) ↦
            rw (fails, handle_video_generation)
              (sym (
                source_of-errors token config req.images e token.error_count config.video_type refl
                  fails))
        | inl (source, made) ↦
            let task =
              service.generate_video token.at token.project_id req.prompt config source
                (tier_of service later token) in
            rw (made, handle_video_generation)
              (elim (Option-cases task) [
                | inl refused ↦ rw refused refl
                | inr (name, e) ↦ rw e (ground arith)
              ])
      ]

  generate_with-Accounts :
      (now : ℕ) (token : FlowToken) (config : ModelConfig) (req : GenerationRequest)
      → Accounts token (generate_with service later now token config req)
  unfolding generate_with errors_after
  generate_with-Accounts now token config req =
      let r = ensure_at_valid now (service.st_to_at token.st) token in
      let placed = ensure_project_exists (service.create_project r.0.st) r.0 in
      ground (
        arith,
        ensure_at_valid-errors now (service.st_to_at token.st) token,
        ensure_project_exists-errors (service.create_project r.0.st) r.0,
        image-Accounts placed.0 config req,
        video-Accounts placed.0 config req,
      )

  -- Where the model is known and a token is selected, a request changes the selected token only. Its
  -- count of errors is 0 after a success, one higher after the service refused to generate or to take
  -- the video, and unchanged after every other failure.
  pub handle_generation-errors :
      (now : ℕ) (heap : ℕ → FlowToken) (tokens : StringMap ℕ) (req : GenerationRequest)
      (config : ModelConfig) (p : ℕ)
      → get_flow_model_config req.model ≡ some config
      → select_token heap tokens ≡ some p
      → let r = handle_generation service later now heap tokens req in
        ((r.0 p).error_count ≡ errors_after r.1 (heap p).error_count)
        × ((q : ℕ) → r.0 q ≡ (if p == q then r.0 p else heap q))
  unfolding handle_generation
  handle_generation-errors now heap tokens req config p known selected =
      rw (known, handle_generation)
        (rw (selected, handle_generation)
          (
            ap (λ t. t.error_count)
                  (at_self p (generate_with service later now (heap p) config req).0 (heap p))
                ∙ generate_with-Accounts now (heap p) config req,
            λ q. at_other p q (generate_with service later now (heap p) config req).0 heap,
          ))
