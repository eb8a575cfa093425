-- ===== src/Flow/Generate.antt =====
-- src/flow/handler.go, `HandleGeneration`: one request for an image or a video. The service is a
-- parameter; the notes that are streamed to the client are left out, and so is the update of the
-- credits, which runs beside the request.
pub mod Outcomes
use business2api.Base.{
  ℕ, zero, suc, ◌+◌, ◌≤◌, ◌≡◌, refl, Bool, true, false, not, ◌||◌, List, [], ◌∷◌, Option, none,
  some, arith, ltb, ◌==◌, if◌then◌else◌, null, length, ◌⊎◌, inl, inr,
}
use business2api.Text.{Text, codes, StringMap}
use business2api.Flow.{FlowToken}
use business2api.Flow.Select.{select_token}
use business2api.Flow.Models.{
  ModelConfig, get_flow_model_config, type_image, type_video, no_video, t2v, i2v, r2v,
}
use business2api.Flow.Refresh.{StToAtResponse, ensure_at_valid, ensure_project_exists}
use business2api.Flow.Poll.{
  VideoStatusResponse, PollResult, video, failed, timeout, poll_video_result,
}

pub record GenerationRequest : Type 0 where
  pub model : Text
  pub prompt : Text
  pub images : List (List ℕ)

-- What a video is made of, besides the prompt.
pub data Source : Type 0 where
  from_text : Source
  from_frames : Text → Text → Source
  from_references : List Text → Source

-- The service, for one request: each field is the answer to a call, and `none` an error. An empty
-- text stands for a part that the answer lacks.
pub record FlowService : Type 0 where
  pub st_to_at : Text → Option StToAtResponse
  pub create_project : Text → Option Text
  pub upload_image : Text → List ℕ → Text → Option Text
  pub generate_image : Text → Text → Text → ModelConfig → List Text → Option Text
  pub generate_video : Text → Text → Text → ModelConfig → Source → Text → Option Text
  pub check_video_status : Text → ℕ → Option VideoStatusResponse
  pub max_poll_attempts : ℕ

pub data GenerationError : Type 0 where
  unsupported_model no_token no_access no_project upload_failed generation_failed empty_result
        wrong_image_count submission_failed no_task :
      GenerationError
  poll_failed : PollResult → GenerationError

abbrev pub Outcome : Type 0
Outcome = FlowToken × (Text ⊎ GenerationError)

module _ (service : FlowService) (later : ℕ) where
  -- The images are uploaded in order, up to the first failure.
  unfoldable pub upload_all : Text → Text → List (List ℕ) → Option (List Text)
  upload_all at ratio [] = some []
  upload_all at ratio (image ∷ images) =
      let rest = upload_all at ratio images in
      elim (service.upload_image at image ratio) [
        | none ↦ none
        | some id ↦ elim rest [ none ↦ none | some ids ↦ some (id ∷ ids) ]
      ]

  abbrev pub count_error : FlowToken → FlowToken
  count_error token = record token { error_count = token.error_count + 1 }

  abbrev pub count_use : FlowToken → FlowToken
  count_use token = record token { last_used = later; error_count = 0 }

  unfoldable pub handle_image_generation : FlowToken → ModelConfig → GenerationRequest → Outcome
  unfolding upload_all
  handle_image_generation token config req =
      elim (upload_all token.at config.aspect_ratio req.images) [
        | none ↦ (token, inr upload_failed)
        | some ids ↦ elim (service.generate_image token.at token.project_id req.prompt config ids) [
          | none ↦ (count_error token, inr generation_failed)
          | some url ↦ if null url then (token, inr empty_result) else (count_use token, inl url)
        ]
      ]

  -- The frames of a video: the first image, and the second if there are two.
  unfoldable pub upload_frames : Text → Text → List (List ℕ) → Option Source
  upload_frames at ratio [] = some (from_frames [] [])
  upload_frames at ratio (first ∷ []) = elim (service.upload_image at first ratio) [
    | none ↦ none
    | some start ↦ some (from_frames start [])
  ]
  upload_frames at ratio (first ∷ second ∷ []) = elim (service.upload_image at first ratio) [
    | none ↦ none
    | some start ↦ elim (service.upload_image at second ratio) [
      | none ↦ none
      | some end ↦ some (from_frames start end)
    ]
  ]
  upload_frames at ratio (first ∷ images) = elim (service.upload_image at first ratio) [
    | none ↦ none
    | some start ↦ some (from_frames start [])
  ]

  -- The images that the kind of model asks for, uploaded. A text model ignores them.
  unfoldable pub source_of : FlowToken → ModelConfig → List (List ℕ) → Source ⊎ GenerationError
  unfolding upload_all upload_frames
  source_of token config images = elim config.video_type [
    | i2v ↦
        if ltb (length images) config.min_images || ltb config.max_images (length images)
        then inr wrong_image_count
        else elim (upload_frames token.at config.aspect_ratio images) [
          | none ↦ inr upload_failed
          | some source ↦ inl source
        ]
    | r2v ↦ elim (upload_all token.at config.aspect_ratio images) [
      | none ↦ inr upload_failed
      | some ids ↦ inl (from_references ids)
    ]
    | _ ↦ inl from_text
  ]

  abbrev pub tier_of : FlowToken → Text
  tier_of token =
      if null token.user_paygate_tier then codes "PAYGATE_TIER_ONE" else token.user_paygate_tier

  unfoldable pub handle_video_generation : FlowToken → ModelConfig → GenerationRequest → Outcome
  unfolding source_of poll_video_result
  handle_video_generation token config req = elim (source_of token config req.images) [
    | inr e ↦ (token, inr e)
    | inl source ↦
        elim (service.generate_video token.at token.project_id req.prompt config source
          (tier_of token)) [
            | none ↦ (count_error token, inr submission_failed)
            | some task ↦
                if null task
                then (token, inr no_task)
                else elim (poll_video_result (service.check_video_status task)
                    service.max_poll_attempts) [
                      | video url ↦ (count_use token, inl url)
                      | failed status ↦ (token, inr (poll_failed (failed status)))
                      | timeout n ↦ (token, inr (poll_failed (timeout n)))
                    ]
          ]
  ]

  abbrev pub by_type : FlowToken → ModelConfig → GenerationRequest → Outcome
  by_type token config req = elim config.model_type [
    | type_image ↦ handle_image_generation token config req
    | type_video ↦ handle_video_generation token config req
  ]

  -- The request with the token that was selected.
  unfoldable pub generate_with : ℕ → FlowToken → ModelConfig → GenerationRequest → Outcome
  unfolding ensure_at_valid ensure_project_exists handle_image_generation handle_video_generation
  generate_with now token config req =
      let (valid, access) = ensure_at_valid now (service.st_to_at token.st) token in
      let (placed, project) = ensure_project_exists (service.create_project valid.st) valid in
      if not access
      then (valid, inr no_access)
      else if not project
      then (placed, inr no_project)
      else by_type placed config req

  unfoldable pub handle_generation :
      ℕ
      → (ℕ → FlowToken)
      → StringMap ℕ
      → GenerationRequest
      → (ℕ → FlowToken) × (Text ⊎ GenerationError)
  unfolding get_flow_model_config select_token generate_with
  handle_generation now heap tokens req = elim (get_flow_model_config req.model) [
    | none ↦ (heap, inr unsupported_model)
    | some config ↦ elim (select_token heap tokens) [
      | none ↦ (heap, inr no_token)
      | some p ↦
          let (token, result) = generate_with now (heap p) config req in
          (λ q. if p == q then token else heap q, result)
    ]
  ]
