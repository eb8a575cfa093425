-- ===== src/Api/Prompt.antt =====
-- src/main.go, the chat messages of a request: the text and the media of each, and the prompt that a
-- conversation becomes. JSON is read by the standard library: the model has the values that the
-- code asks for. The conversion of a picture to PNG is a parameter.
pub mod Order
mod Tests
use business2api.Base.{
  ℕ, Bool, true, false, not, ◌&&◌, ◌||◌, List, [], ◌∷◌, ◌++◌, Option, none, some, if◌then◌else◌,
  null, map, reverse,
}
use business2api.Text.{Text, codes, eqb, has_prefix, contains, index_of, join, lower_ascii}

-- A part of a message: its kind, and what the kind needs, where the part has it.
pub data ContentPart : Type 0 where
  text_part : Option Text → ContentPart
  image_part : Option Text → ContentPart
  video_part : Option Text → ContentPart
  file_part : Option Text → Option Text → ContentPart
  other_part : ContentPart

pub data Content : Type 0 where
  plain : Text → Content
  parts : List ContentPart → Content
  no_content : Content

-- The name and the arguments of a tool call.
pub record ToolCall : Type 0 where
  pub name : Text
  pub arguments : Text

pub record Message : Type 0 where
  pub role : Text
  pub content : Content
  pub name : Text
  pub tool_calls : List ToolCall

pub data MediaType : Type 0 where
  image video : MediaType

pub record MediaInfo : Type 0 where
  pub mime_type : Text
  pub content : Text
  pub url : Text
  pub is_url : Bool
  pub media_type : MediaType

unfoldable pub video_mime : Text → Text
unfolding contains
video_mime header =
    if contains header (codes "video/mp4")
    then codes "video/mp4"
    else if contains header (codes "video/webm")
    then codes "video/webm"
    else codes "video/mp4"

abbrev pub image_info : Text → Text → MediaInfo
image_info mime encoded = record {
  mime_type = mime;
  content = encoded;
  url = [];
  is_url = false;
  media_type = image;
}

-- `strings.HasSuffix(strings.ToLower(url), suffix)`, for a suffix of ASCII letters.
unfoldable pub ends_in : Text → Text → Bool
unfolding has_prefix lower_ascii
ends_in suffix url = has_prefix (reverse (map lower_ascii url)) (reverse suffix)

unfoldable pub is_video_name : Text → Bool
unfolding ends_in
is_video_name url =
    ends_in (codes ".mp4") url
    || ends_in (codes ".webm") url
    || ends_in (codes ".mov") url
    || ends_in (codes ".avi") url
    || ends_in (codes ".mkv") url
    || ends_in (codes ".m4v") url

module _ (to_png : Text → Option Text) where
  unfoldable pub image_data : Text → Text → MediaInfo
  unfolding contains
  image_data header encoded =
      if contains header (codes "image/png")
      then image_info (codes "image/png") encoded
      else if contains header (codes "image/jpeg")
      then image_info (codes "image/jpeg") encoded
      else elim (to_png encoded) [
        | none ↦ image_info (codes "image/jpeg") encoded
        | some png ↦ image_info (codes "image/png") png
      ]

  -- `none` stands for a data address without a comma.
  unfoldable pub parse_media_url : Text → MediaType → Option MediaInfo
  unfolding has_prefix index_of contains video_mime image_data is_video_name
  parse_media_url url kind =
      if has_prefix url (codes "data:")
      then elim (index_of b',' url) [
        | none ↦ none
        | some (header, encoded) ↦
            if contains header (codes "video/")
            then some (record {
              mime_type = video_mime header;
              content = encoded;
              url = [];
              is_url = false;
              media_type = video;
            })
            else some (image_data header encoded)
      ]
      else some (record {
        mime_type = [];
        content = [];
        url = url;
        is_url = true;
        media_type = if is_video_name url then video else kind;
      })

  abbrev pub media_at : Option Text → MediaType → List MediaInfo
  media_at none kind = []
  media_at (some url) kind = elim (parse_media_url url kind) [ none ↦ [] | some m ↦ m ∷ [] ]

  abbrev pub file_kind : Option Text → MediaType
  file_kind none = image
  file_kind (some mime) = if has_prefix mime (codes "video/") then video else image

  unfoldable pub part_text : ContentPart → Text
  part_text (text_part (some text)) = text
  part_text _ = []

  unfoldable pub part_media : ContentPart → List MediaInfo
  unfolding parse_media_url
  part_media (image_part url) = media_at url image
  part_media (video_part url) = media_at url video
  part_media (file_part url mime) = media_at url (file_kind mime)
  part_media _ = []

  abbrev pub texts_of : List ContentPart → Text
  texts_of [] = []
  texts_of (p ∷ ps) = part_text p ++ texts_of ps

  abbrev pub medias_of : List ContentPart → List MediaInfo
  medias_of [] = []
  medias_of (p ∷ ps) = part_media p ++ medias_of ps

  unfoldable pub parse_message_content : Message → Text × List MediaInfo
  unfolding part_text part_media
  parse_message_content msg = elim msg.content [
    | plain text ↦ (text, [])
    | parts ps ↦ (texts_of ps, medias_of ps)
    | no_content ↦ ([], [])
  ]

  unfoldable pub extract_system_prompt : List Message → Text
  unfolding parse_message_content eqb
  extract_system_prompt [] = []
  extract_system_prompt (msg ∷ msgs) =
      if eqb msg.role (codes "system")
      then (parse_message_content msg).0
      else extract_system_prompt msgs

  abbrev pub call_line : ToolCall → Text
  call_line tc = codes "Assistant: [调用工具 " ++ tc.name ++ codes "(" ++ tc.arguments ++ codes ")]"

  abbrev pub call_lines : List ToolCall → List Text
  call_lines [] = []
  call_lines (tc ∷ tcs) = call_line tc ∷ call_lines tcs

  -- What a message adds to the dialogue.
  unfoldable pub dialog_parts : Message → List Text
  unfolding parse_message_content eqb
  dialog_parts msg =
      let text = (parse_message_content msg).0 in
      if null text && not (eqb msg.role (codes "assistant"))
      then []
      else if eqb msg.role (codes "user") || eqb msg.role (codes "human")
      then (codes "Human: " ++ text) ∷ []
      else if eqb msg.role (codes "assistant")
      then (if not (null msg.tool_calls)
          then call_lines msg.tool_calls
          else if null text
          then []
          else (codes "Assistant: " ++ text) ∷ [])
      else if eqb msg.role (codes "tool") || eqb msg.role (codes "tool_result")
      then (codes "Tool Result [" ++ msg.name ++ codes "]: " ++ text) ∷ []
      else []

  -- The system prompt so far with what a message adds to it.
  unfoldable pub add_system : Text → Message → Text
  unfolding parse_message_content eqb
  add_system prompt msg =
      let text = (parse_message_content msg).0 in
      if not (eqb msg.role (codes "system")) || null text
      then prompt
      else if null prompt
      then text
      else prompt ++ 10 ∷ text

  unfoldable pub convert_from : List Message → List Text → Text → List Text × Text
  unfolding dialog_parts add_system
  convert_from [] dialog prompt = (dialog, prompt)
  convert_from (msg ∷ msgs) dialog prompt =
      convert_from msgs (dialog ++ dialog_parts msg) (add_system prompt msg)

  abbrev pub render : List Text × Text → Text
  render (dialog, prompt) =
      (if null prompt then [] else codes "<system>\n" ++ prompt ++ codes "\n</system>\n\n")
      ++ (if null dialog then [] else join (codes "\n\n") dialog)
      ++ codes "\n\nAssistant:"

  unfoldable pub convert_messages_to_prompt : List Message → Text
  unfolding convert_from join
  convert_messages_to_prompt messages = render (convert_from messages [] [])

unfoldable pub needs_conversation_context : List Message → Bool
unfolding eqb
needs_conversation_context [] = false
needs_conversation_context (msg ∷ msgs) =
    eqb msg.role (codes "assistant")
    || eqb msg.role (codes "tool")
    || eqb msg.role (codes "tool_result")
    || needs_conversation_context msgs
