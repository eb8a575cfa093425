-- ===== src/Api/Chat/Replies.antt =====
-- src/main.go, `streamChat`: what the upstream answers in a round, the uploads of the media, and what a
-- body is worth.
use business2api.Base.{
  ℕ, Bool, not, ◌&&◌, ◌||◌, List, [], ◌∷◌, ◌++◌, Option, none, some, if◌then◌else◌,
}
use business2api.Text.{Text, codes, contains}
use business2api.Api.Prompt.{MediaInfo, MediaType}
use business2api.Api.Chat.Session.{SessionReply}

pub data Download : Type 0 where
  downloaded : Text → Text → Download
  not_downloaded : Text → Download

pub data Reply : Type 0 where
  no_reply : Text → Reply
  replied : ℕ → Text → Reply

-- What the upstream does in one round: the tries for a session, the uploads, which return the
-- identifier of the file, and the chat itself with these identifiers. `now` is the clock when the
-- account is chosen, `later` its next reading, and `after` that behind the answer.
pub record Upstream : Type 0 where
  pub now : ℕ
  pub later : ℕ
  pub after : ℕ
  pub session : ℕ → SessionReply
  pub upload_by_url : Text → Option Text
  pub download : Text → MediaType → Download
  pub upload : Text → Text → Option Text
  pub chat : Text → List Text → Reply

pub data Uploads : Type 0 where
  uploaded : List Text → Uploads
  upload_failed : Uploads
  media_refused : Text → Uploads

unfoldable pub upload_media : Upstream → MediaInfo → Uploads
unfolding contains
upload_media u media =
    if media.is_url
    then elim (u.upload_by_url media.url) [
      | some file ↦ uploaded (file ∷ [])
      | none ↦ elim (u.download media.url media.media_type) [
        | downloaded mime content ↦ elim (u.upload mime content) [
          | none ↦ upload_failed
          | some file ↦ uploaded (file ∷ [])
        ]
        | not_downloaded error ↦
            if contains error (codes "UPSTREAM_401") || contains error (codes "UPSTREAM_403")
            then media_refused error
            else upload_failed
      ]
    ]
    else elim (u.upload media.mime_type media.content) [
      | none ↦ upload_failed
      | some file ↦ uploaded (file ∷ [])
    ]

unfoldable pub upload_all : Upstream → List MediaInfo → Uploads
unfolding upload_media
upload_all u [] = uploaded []
upload_all u (media ∷ medias) = elim (upload_media u media) [
  | upload_failed ↦ upload_failed
  | media_refused error ↦ media_refused error
  | uploaded files ↦ elim (upload_all u medias) [
    | uploaded more ↦ uploaded (files ++ more)
    | upload_failed ↦ upload_failed
    | media_refused error ↦ media_refused error
  ]
]

-- What a body with the status 200 is worth.
pub data Worth : Type 0 where
  needs_login : Worth
  error_only : Bool → Worth
  thought_only empty content : Worth

abbrev pub has_content : Text → Bool
has_content body =
    contains body (codes "\"text\"")
    || contains body (codes "\"file\"")
    || contains body (codes "\"inlineData\"")
    || contains body (codes "\"functionCall\"")

unfoldable pub worth_of : Text → Worth
unfolding contains
worth_of body =
    if contains body (codes "uToken") && not (contains body (codes "streamAssistResponse"))
    then needs_login
    else if has_content body
    then content
    else if contains body (codes "\"error\"") || contains body (codes "\"errorMessage\"")
    then error_only (contains body (codes "RESOURCE_EXHAUSTED") || contains body (codes "quota"))
    else if contains body (codes "\"thought\"")
    then thought_only
    else empty
