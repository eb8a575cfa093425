-- ===== src/Flow/Tests.antt =====
-- The tokens of src/flow on small pools, and the theorems at concrete inputs.
use business2api.Base.{
  ℕ, ◌≡◌, refl, Bool, true, List, [], ◌∷◌, ◌++◌, Option, none, some, ◌==◌, if◌then◌else◌, inr,
}
use business2api.Text.{Text, codes, eqb, find_entry, StringMap}
use business2api.Flow.{FlowToken, TokenPool, new_token, is_ready}
use business2api.Flow.Select.{select_token, select_from, better, Selected, select_token-Selected}
use business2api.Flow.Poll.{
  VideoStatusResponse, Polled, poll_video_result, poll_loop, decide, is_final_error, video,
  poll_video_result-Polled,
}
use business2api.Flow.Generate.{
  FlowService, GenerationRequest, handle_generation, generate_with, no_access,
}
use business2api.Flow.Models.{get_flow_model_config, flow_model_config}
use business2api.Flow.Refresh.{ensure_at_valid}
use business2api.Flow.Tokens.{marker}
use business2api.Flow.Tokens.Events.{load, add, remove, file_written, file_removed, edit, run, Op}
use business2api.Flow.Tokens.Sound.{IsSound, run-IsSound}

abbrev cookie : Text → Text
cookie st = codes "a=b; " ++ (marker ++ st ++ b';' ∷ codes " c=d")

abbrev digest : Text → Text
digest st = codes "0123456789abcdef" ++ st

abbrev pool : TokenPool
pool = record {
  heap = λ p. new_token [] [];
  next_pointer = 7;
  tokens = (codes "k", 3) ∷ [];
  client = some ((codes "k", 3) ∷ []);
  file_index = [];
  files = λ name. if eqb name (codes "x.txt") then some (cookie (codes "st")) else none;
}

always : Text → Bool
always name = true

abbrev events : List Op
events =
    load (codes "x.txt")
    ∷ add (cookie (codes "tt"))
    ∷ remove (codes "k") []
    ∷ file_written (codes "x.txt")
    ∷ file_removed (codes "x.txt")
    ∷ edit (codes "y") none
    ∷ []

abbrev empty_pool : TokenPool
empty_pool = record pool { tokens = []; client = some [] }

empty_pool-IsSound : IsSound digest always always empty_pool
unfolding find_entry
empty_pool-IsSound = record { owned = λ id. tt; held = λ id. tt }

run-IsSound_example : IsSound digest always always (run digest always always events empty_pool)
run-IsSound_example = run-IsSound digest always always events empty_pool empty_pool-IsSound

-- Token 2 is disabled, and token 1 was used before token 0.
abbrev heap : ℕ → FlowToken
heap p =
    let token = new_token (codes "t") (codes "s") in
    if p == 2
    then record token { disabled = true }
    else if p == 1
    then record token { last_used = 5 }
    else record token { last_used = 9 }

abbrev tokens : StringMap ℕ
tokens = (codes "c", 2) ∷ (codes "a", 0) ∷ (codes "b", 1) ∷ []

selected : select_token heap tokens ≡ some 1
unfolding select_token select_from better is_ready new_token
selected = refl

select_token-Selected_example : Selected heap (2 ∷ 0 ∷ 1 ∷ []) (select_token heap tokens)
select_token-Selected_example = select_token-Selected heap tokens

-- The third answer has the video.
abbrev answers : ℕ → Option VideoStatusResponse
answers i =
    if i == 2
    then some
        (record { status = codes "MEDIA_GENERATION_STATUS_SUCCESSFUL"; video_url = codes "u" })
    else none

polled : poll_video_result answers 5 ≡ video (codes "u")
unfolding poll_video_result poll_loop decide is_final_error eqb
polled = refl

poll_video_result-Polled_example : Polled answers 5 0 5 (poll_video_result answers 5)
poll_video_result-Polled_example = poll_video_result-Polled answers 5

abbrev service : FlowService
service = record {
  st_to_at = λ st. none;
  create_project = λ st. none;
  upload_image = λ at image ratio. none;
  generate_image = λ at project prompt config ids. none;
  generate_video = λ at project prompt config source tier. none;
  check_video_status = λ task. answers;
  max_poll_attempts = 5;
}

abbrev request : GenerationRequest
request = record { model = codes "veo_2_0_t2v_portrait"; prompt = []; images = [] }

-- The selected token has no access token and gets none.
no_renewal : (handle_generation service 8 7 heap tokens request).1 ≡ inr no_access
unfolding handle_generation generate_with ensure_at_valid get_flow_model_config flow_model_config
    find_entry eqb select_token select_from better is_ready new_token
no_renewal = refl
