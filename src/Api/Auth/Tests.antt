-- ===== src/Api/Auth/Tests.antt =====
-- Runs of the API's keys of src/main.go, and the theorem at a concrete input.
use business2api.Base.{◌≡◌, ◌↔◌, refl, true, not, ◌&&◌, List, [], ◌∷◌, null}
use business2api.Text.{Text, codes, eqb}
use business2api.Api.Auth.{
  normalize_api_keys, extract_api_key, api_key_auth, override_api_keys, granted, invalid_key,
}
use business2api.Api.Auth.Keys.{is_listed, api_key_auth-granted}

abbrev keys : List Text
keys = codes " k1 " ∷ codes "k2" ∷ codes "k1" ∷ []

keys_once : normalize_api_keys keys ≡ codes "k1" ∷ codes "k2" ∷ []
unfolding normalize_api_keys eqb
keys_once = refl

keys_of_environment :
    override_api_keys (codes "a, b,,a") (codes "c") keys ≡ codes "a" ∷ codes "b" ∷ codes "c" ∷ []
unfolding override_api_keys eqb
keys_of_environment = refl

wrong_key : api_key_auth keys (codes "Bearer k3") (codes "k2") ≡ invalid_key
unfolding api_key_auth eqb
wrong_key = refl

api_key_auth-granted_example :
    let key = extract_api_key (codes "Bearer k1") [] in
    (api_key_auth (normalize_api_keys keys) (codes "Bearer k1") [] ≡ granted)
    ↔ ((not (null key) && is_listed key keys) ≡ true)
unfolding normalize_api_keys eqb
api_key_auth-granted_example = api_key_auth-granted keys (codes "Bearer k1") [] refl
