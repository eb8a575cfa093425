-- ===== src/Api/Prompt/Tests.antt =====
-- Runs of the prompt of src/main.go, and the theorem at a concrete input.
use business2api.Base.{◌≡◌, refl, Option, none, some, [], ◌∷◌, true}
use business2api.Text.{Text, codes, eqb}
use business2api.Api.Prompt.{
  Message, plain, parts, text_part, image_part, convert_messages_to_prompt, is_video_name,
}
use business2api.Api.Prompt.Order.{convert_messages_to_prompt-swap}

abbrev no_png : Text → Option Text
no_png encoded = none

abbrev says : Text → Text → Message
says role text = record { role = role; content = plain text; name = []; tool_calls = [] }

abbrev system : Message
system = says (codes "system") (codes "Be brief.")

abbrev hello : Message
hello = record (says (codes "user") []) {
  content =
      parts (text_part (some (codes "He")) ∷ image_part none ∷ text_part (some (codes "llo")) ∷ []);
}

prompt_of_chat :
    convert_messages_to_prompt no_png (hello ∷ system ∷ says (codes "assistant") (codes "Hi") ∷ [])
    ≡ codes "<system>\nBe brief.\n</system>\n\nHuman: Hello\n\nAssistant: Hi\n\nAssistant:"
unfolding convert_messages_to_prompt eqb
prompt_of_chat = refl

video_by_name : is_video_name (codes "http://x/A.MP4") ≡ true
unfolding is_video_name
video_by_name = refl

convert_messages_to_prompt-swap_example :
    convert_messages_to_prompt no_png (hello ∷ system ∷ hello ∷ [])
    ≡ convert_messages_to_prompt no_png (hello ∷ hello ∷ system ∷ [])
unfolding eqb
convert_messages_to_prompt-swap_example =
    convert_messages_to_prompt-swap no_png (hello ∷ []) [] system hello refl refl
