-- ===== src/Api/Auth.antt =====
-- src/main.go, who may call: the API keys, and the session of the administrator's panel.
pub mod Keys
mod Tests
use business2api.Base.{
  ℕ, Bool, true, false, not, ◌&&◌, ◌||◌, List, [], ◌∷◌, ◌++◌, Option, none, some, if◌then◌else◌,
  null,
}
use business2api.Text.{Text, codes, eqb, trim_space, has_prefix, drop_prefix, split_on}
use business2api.AdminAuth.Sessions.{SessionManager, SessionInfo, validate}

abbrev pub any_key : (Text → Bool) → List Text → Bool
any_key test [] = false
any_key test (k ∷ ks) = test k || any_key test ks

-- The parts between commas, trimmed, without the empty ones.
unfoldable pub trimmed_parts : List Text → List Text
unfolding trim_space
trimmed_parts [] = []
trimmed_parts (p ∷ ps) =
    if null (trim_space p) then trimmed_parts ps else trim_space p ∷ trimmed_parts ps

unfoldable pub split_csv : Text → List Text
unfolding split_on trimmed_parts
split_csv raw = trimmed_parts (split_on b',' raw)

-- `seen` are the keys that were taken already.
unfoldable pub normalize_from : List Text → List Text → List Text
unfolding trim_space
normalize_from seen [] = []
normalize_from seen (k ∷ ks) =
    let key = trim_space k in
    let rest = normalize_from seen ks in
    let taken = normalize_from (key ∷ seen) ks in
    if null key then rest else if any_key (λ s. eqb s key) seen then rest else key ∷ taken

unfoldable pub normalize_api_keys : List Text → List Text
unfolding normalize_from
normalize_api_keys keys = normalize_from [] keys

-- The keys after the environment's `API_KEYS` and `API_KEY`.
unfoldable pub override_api_keys : Text → Text → List Text → List Text
unfolding trim_space split_csv normalize_api_keys
override_api_keys listed single keys =
    let base = if null (trim_space listed) then keys else split_csv (trim_space listed) in
    normalize_api_keys (if null (trim_space single) then base else base ++ trim_space single ∷ [])

-- The headers `Authorization` and `X-API-Key`.
unfoldable pub extract_api_key : Text → Text → Text
unfolding trim_space has_prefix drop_prefix
extract_api_key authorization x_api_key =
    if has_prefix authorization (codes "Bearer ")
    then trim_space (drop_prefix authorization (codes "Bearer "))
    else trim_space x_api_key

unfoldable pub is_valid_api_key : List Text → Text → Bool
unfolding trim_space
is_valid_api_key keys api_key =
    let key = trim_space api_key in if null key then false else any_key (λ k. eqb k key) keys

-- The cookie of the session, if the request has one, at the time `now`.
unfoldable pub is_session_authorized : Option Text → ℕ → SessionManager → SessionManager × Bool
unfolding trim_space validate
is_session_authorized none now m = (m, false)
is_session_authorized (some token) now m =
    let (m', session) = validate token now m in
    if null (trim_space token)
    then (m, false)
    else (m', elim session [ none ↦ false | some info ↦ true ])

pub data Access : Type 0 where
  granted missing_key invalid_key unauthorized : Access

unfoldable pub api_key_auth : List Text → Text → Text → Access
unfolding extract_api_key is_valid_api_key
api_key_auth keys authorization x_api_key =
    let key = extract_api_key authorization x_api_key in
    if null keys
    then granted
    else if null key
    then missing_key
    else if is_valid_api_key keys key
    then granted
    else invalid_key

unfoldable pub admin_auth :
    List Text → Option Text → Text → Text → ℕ → SessionManager → SessionManager × Access
unfolding is_session_authorized extract_api_key is_valid_api_key
admin_auth keys cookie authorization x_api_key now m =
    let (m', session) = is_session_authorized cookie now m in
    if session
    then (m', granted)
    else if is_valid_api_key keys (extract_api_key authorization x_api_key)
    then (m', granted)
    else (m', unauthorized)

unfoldable pub require_session_auth : Option Text → ℕ → SessionManager → SessionManager × Access
unfolding is_session_authorized
require_session_auth cookie now m =
    let (m', session) = is_session_authorized cookie now m in
    (m', if session then granted else unauthorized)
