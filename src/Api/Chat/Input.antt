-- ===== src/Api/Chat/Input.antt =====
-- src/main.go, `streamChat`: the text and the media that a request sends.
use business2api.Base.{◌||◌, List, [], ◌∷◌, ◌++◌, Option, none, some, if◌then◌else◌, null}
use business2api.Text.{Text, codes, eqb}
use business2api.Api.Prompt.{
  Message, MediaInfo, parse_message_content, extract_system_prompt, needs_conversation_context,
  convert_messages_to_prompt,
}

-- The media of the last message of the user.
module _ (to_png : Text → Option Text) where
  unfoldable pub last_user_media : List Message → List MediaInfo → List MediaInfo
  unfolding parse_message_content eqb
  last_user_media [] media = media
  last_user_media (msg ∷ msgs) media = last_user_media msgs (
      if eqb msg.role (codes "user") || eqb msg.role (codes "human")
      then (parse_message_content to_png msg).1
      else media)

  unfoldable pub last_message : Message → List Message → Message
  last_message msg [] = msg
  last_message msg (m ∷ msgs) = last_message m msgs

  -- The text and the media that are sent. `none` is the panic of an empty list of messages.
  unfoldable pub chat_input : List Message → Option (Text × List MediaInfo)
  unfolding parse_message_content extract_system_prompt needs_conversation_context
      convert_messages_to_prompt last_user_media last_message
  chat_input [] = none
  chat_input (msg ∷ msgs) =
      let messages = msg ∷ msgs in
      let system = extract_system_prompt to_png messages in
      let (text, media) = parse_message_content to_png (last_message msg msgs) in
      if needs_conversation_context messages
      then some (convert_messages_to_prompt to_png messages, last_user_media messages [])
      else if null system
      then some (text, media)
      else some (
        codes "<system>\n"
            ++ system
            ++ codes "\n</system>\n\nHuman: "
            ++ text
            ++ codes "\n\nAssistant:",
        media,
      )
