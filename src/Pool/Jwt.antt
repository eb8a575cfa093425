-- ===== src/Pool/Jwt.antt =====
-- src/pool/pool.go, the token of an account: `RefreshJWT`, `createJWT`, `extractCSESIDX`.
use business2api.Base.{
  ℕ, ◌+◌, ◌-◌, ◌%◌, ◌/◌, not, ◌&&◌, ◌||◌, List, [], ◌∷◌, ◌++◌, Option, none, some, ltb, ◌==◌,
  if◌then◌else◌, null, length, ◌⊎◌, inl, inr,
}
use business2api.Text.{
  Text, codes, eqb, has_prefix, trim_space, split_on, decimal, drop_prefix, trim_right,
}
use business2api.Pool.Account.{Account, AccountData, Cookie, Settings, is_within, second}

-- The outcome of `RefreshJWT`, an error by its cause.
pub data RefreshError : Type 0 where
  cooling : Text → RefreshError
  missing_cookie : RefreshError
  request_failed : Text → RefreshError
  auth_rejected : ℕ → RefreshError
  rate_limited : ℕ → RefreshError
  server_error : ℕ → RefreshError
  bad_status : ℕ → Text → RefreshError
  bad_reply : Text → RefreshError
  bad_token : Text → RefreshError
  no_config_id : RefreshError

-- The error's text, which the refresh worker searches.
unfoldable pub message : RefreshError → Text
message (cooling seconds) = codes "刷新冷却中，剩余 " ++ seconds ++ codes " 秒"
message missing_cookie = codes "账号失效: 缺少 __Secure-C_SES Cookie"
message (request_failed why) = codes "getoxsrf 请求失败: " ++ why
message (auth_rejected code) = codes "账号失效: " ++ decimal code ++ codes " - Cookie可能已过期"
message (rate_limited code) = codes "请求频率过高: " ++ decimal code
message (server_error code) = codes "服务器错误: " ++ decimal code ++ codes ", 稍后重试"
message (bad_status code body) = codes "getoxsrf 失败: " ++ (decimal code ++ (codes " " ++ body))
message (bad_reply why) = codes "解析 xsrf 响应失败: " ++ why
message (bad_token why) = codes "解码 xsrfToken 失败: " ++ why
message no_config_id = codes "获取 configId 失败: 未配置 configId"

-- `getCookie`: the value of the first cookie of that name.
unfoldable pub get_cookie : Text → List Cookie → Text
get_cookie name [] = []
get_cookie name (c ∷ cs) =
    let rest = get_cookie name cs in if eqb c.name name then c.value else rest

-- The other secured cookies, each with its separator.
unfoldable pub other_cookies : List Cookie → Text
other_cookies [] = []
other_cookies (c ∷ cs) =
    let rest = other_cookies cs in
    let secured = has_prefix c.name (codes "__Secure-") || has_prefix c.name (codes "__Host-") in
    if not (eqb c.name (codes "__Secure-C_SES"))
      && not (eqb c.name (codes "__Host-C_OSES"))
      && secured
    then codes "; " ++ c.name ++ codes "=" ++ c.value ++ rest
    else rest

unfoldable pub cookie_header : Text → Text → List Cookie → Text
unfolding other_cookies
cookie_header secure_ses host_oses cookies =
    codes "__Secure-C_SES="
    ++ secure_ses
    ++ (if null host_oses then [] else codes "; __Host-C_OSES=" ++ host_oses)
    ++ other_cookies cookies

unfoldable pub error_of_status : ℕ → Text → RefreshError
error_of_status code body =
    if code == 401 || code == 403
    then auth_rejected code
    else if code == 429
    then rate_limited code
    else if code == 500 || code == 502 || code == 503 || code == 504
    then server_error code
    else bad_status code body

-- `fetchConfigID`.
unfoldable pub fetch_config_id : Settings → AccountData → Option Text
fetch_config_id s d =
    if not (null d.config_id)
    then some d.config_id
    else if not (null s.default_config)
    then some s.default_config
    else none

-- The padding of a base64 text.
unfoldable pub pad : Text → Text
pad token =
    let r = length token % 4 in
    if r == 2 then token ++ codes "==" else if r == 3 then token ++ codes "=" else token

-- `kqEncode` before the base64: one byte for a code point up to 255, else the two low bytes.
unfoldable pub kq_bytes : Text → List ℕ
kq_bytes [] = []
kq_bytes (c ∷ s) =
    let rest = kq_bytes s in if ltb 255 c then c % 256 ∷ c / 256 % 256 ∷ rest else c ∷ rest

-- The reply of the token service: the request failed, or a status with the body, also as cut off
-- after 200 bytes.
pub data Reply : Type 0 where
  unreachable : Text → Reply
  reply : ℕ → Text → Text → Reply

-- `Unix()`: the seconds since 1970, of a time since the year 1.
abbrev pub unix : ℕ → ℕ
unix now = now / second - 62_135_596_800

-- The libraries: base64, JSON and the HMAC; what JSON and base64 refuse they say with a text.
pub record Codecs : Type 0 where
  pub base64 : List ℕ → Text
  pub unbase64 : Text → Text ⊎ List ℕ
  pub hmac : List ℕ → Text → List ℕ
  pub header_json : Text → Text
  pub payload_json : Text → ℕ → ℕ → ℕ → Text
  pub xsrf_of_json : Text → Text ⊎ Text × Text
  pub raw_unbase64 : Text → Option Text
  pub sub_of_json : Text → Option Text
  pub seconds_text : ℕ → Text

module _ (lib : Codecs) where
  -- `urlsafeB64Encode`: without the padding.
  unfoldable pub urlsafe_b64_encode : List ℕ → Text
  urlsafe_b64_encode bytes = trim_right 61 (lib.base64 bytes)

  -- The header and the payload, which is issued at the second `now` for 300 seconds, and their HMAC.
  unfoldable pub create_jwt : List ℕ → Text → Text → ℕ → Text
  unfolding urlsafe_b64_encode kq_bytes
  create_jwt key_bytes key_id csesidx now =
      let encode : Text → Text = λ s. urlsafe_b64_encode (kq_bytes s) in
      let message_text =
        encode (lib.header_json key_id)
        ++ codes "."
        ++ encode (lib.payload_json (codes "csesidx/" ++ csesidx) now (now + 300) now) in
      message_text ++ codes "." ++ urlsafe_b64_encode (lib.hmac key_bytes message_text)

  -- `extractCSESIDX`: the subject of a bearer token.
  unfoldable pub csesidx_of_claims : Text → Text
  csesidx_of_claims part = elim (lib.raw_unbase64 part) [
    | none ↦ []
    | some payload ↦ elim (lib.sub_of_json payload) [
      | none ↦ []
      | some sub ↦
          if has_prefix sub (codes "csesidx/") then drop_prefix sub (codes "csesidx/") else []
    ]
  ]

  unfoldable pub csesidx_of_token : List Text → Text
  unfolding csesidx_of_claims
  csesidx_of_token (header ∷ payload ∷ signature ∷ []) = csesidx_of_claims payload
  csesidx_of_token _ = []

  unfoldable pub csesidx_of_auth : List Text → Text
  unfolding csesidx_of_token
  csesidx_of_auth (scheme ∷ token ∷ []) = csesidx_of_token (split_on 46 token)
  csesidx_of_auth _ = []

  unfoldable pub extract_csesidx : Text → Text
  unfolding csesidx_of_auth
  extract_csesidx auth = csesidx_of_auth (split_on 32 auth)

  module _ (s : Settings) (now : ℕ) where
    -- What a decoded key does to the account: the token stays even if there is no configuration.
    unfoldable pub accept_key : Account → Text → List ℕ → Account × Option RefreshError
    unfolding create_jwt fetch_config_id
    accept_key acc key_id key_bytes =
        let fresh : Account = record acc {
          jwt = create_jwt key_bytes key_id acc.csesidx (unix now);
          jwt_expires = now + s.jwt_ttl;
          last_refresh = now;
        } in
        if null acc.config_id
        then elim (fetch_config_id s acc.account_data) [
          | none ↦ (fresh, some no_config_id)
          | some id ↦ (record fresh { config_id = id }, none)
        ]
        else (fresh, none)

    unfoldable pub accept_body : Account → Text → Account × Option RefreshError
    unfolding accept_key pad
    accept_body acc body = elim (lib.xsrf_of_json (trim_space (drop_prefix body (codes ")]}'")))) [
      | inl why ↦ (acc, some (bad_reply why))
      | inr (token, key_id) ↦ elim (lib.unbase64 (pad token)) [
        | inl why ↦ (acc, some (bad_token why))
        | inr key_bytes ↦ accept_key acc key_id key_bytes
      ]
    ]

    unfoldable pub accept_reply : Account → Reply → Account × Option RefreshError
    unfolding accept_body error_of_status
    accept_reply acc (unreachable why) = (acc, some (request_failed why))
    accept_reply acc (reply code body shown) =
        if code == 200 then accept_body acc body else (acc, some (error_of_status code shown))

    -- `RefreshJWT`: the service answers the cookies and the index of the session.
    unfoldable pub refresh_jwt : (Text → Text → Reply) → Account → Account × Option RefreshError
    unfolding get_cookie cookie_header accept_reply
    refresh_jwt service acc =
        let cookies = acc.account_data.cookies in
        let secure_ses = get_cookie (codes "__Secure-C_SES") cookies in
        let host_oses = get_cookie (codes "__Host-C_OSES") cookies in
        if ltb now acc.jwt_expires
        then (acc, none)
        else if is_within now acc.last_refresh s.refresh_cooldown
        then (acc, some (cooling (lib.seconds_text (s.refresh_cooldown + acc.last_refresh - now))))
        else if null secure_ses
        then (acc, some missing_cookie)
        else accept_reply acc (service (cookie_header secure_ses host_oses cookies) acc.csesidx)

-- `GetJWT`.
unfoldable pub get_jwt : Account → Option (Text × Text)
get_jwt acc = if null acc.jwt then none else some (acc.jwt, acc.config_id)
