-- ===== src/Api/Auth/Keys.antt =====
-- src/main.go: which keys open the API.
use business2api.Base.{
  ◌≡◌, ◌↔◌, refl, Bool, true, false, not, ◌&&◌, List, [], ◌∷◌, arith, null, Bool-cases, inl, inr,
}
use business2api.Text.{
  Text, eqb, eqb_iff, eqb_refl, codes, trim_space, trim_space-idempotent, drop_prefix,
}
use business2api.Api.Auth.{
  any_key, normalize_from, normalize_api_keys, is_valid_api_key, extract_api_key, api_key_auth,
  granted,
}

-- The key is one of the list, up to the white space around it.
abbrev pub is_listed : Text → List Text → Bool
is_listed key keys = any_key (λ k. eqb (trim_space k) key) keys

-- Normalization keeps exactly the keys that are not blank and not seen before.
any_key-normalize_from :
    (key : Text) (seen keys : List Text)
    → null key ≡ false
    → any_key (λ s. eqb s key) seen ≡ false
    → any_key (λ k. eqb k key) (normalize_from seen keys) ≡ is_listed key keys
unfolding normalize_from
any_key-normalize_from key seen [] solid new = refl
any_key-normalize_from key seen (k ∷ ks) solid new =
    let ih = any_key-normalize_from key seen ks solid new in
    elim (Bool-cases (eqb (trim_space k) key)) [
      | inl same ↦
          let at : trim_space k ≡ key = (eqb_iff (trim_space k) key).0 same in
          rw (at, solid, new, normalize_from) (rw (eqb_refl key) refl)
      | inr other ↦ ground (arith, ih, any_key-normalize_from key (trim_space k ∷ seen) ks solid)
    ]

extract_api_key-trimmed :
    (authorization x_api_key : Text)
    → trim_space (extract_api_key authorization x_api_key) ≡ extract_api_key authorization x_api_key
unfolding extract_api_key
extract_api_key-trimmed authorization x_api_key = ground (
  arith,
  trim_space-idempotent (drop_prefix authorization (codes "Bearer ")),
  trim_space-idempotent x_api_key,
)

-- Where keys are configured, a request is let in if and only if the key that it brings, in either
-- header, is not blank and is one of the configured keys, up to the white space around both.
pub api_key_auth-granted :
    (keys : List Text) (authorization x_api_key : Text)
    → null (normalize_api_keys keys) ≡ false
    → let key = extract_api_key authorization x_api_key in
      (api_key_auth (normalize_api_keys keys) authorization x_api_key ≡ granted)
      ↔ ((not (null key) && is_listed key keys) ≡ true)
unfolding api_key_auth is_valid_api_key normalize_api_keys
api_key_auth-granted keys authorization x_api_key some_keys =
    let key = extract_api_key authorization x_api_key in
    let trimmed = extract_api_key-trimmed authorization x_api_key in
    elim (Bool-cases (null key)) [
      | inl blank ↦ rw (some_keys, blank, api_key_auth) (ground arith)
      | inr solid ↦
          let same = any_key-normalize_from key [] keys solid refl in
          rw (some_keys, solid, api_key_auth)
            (rw (trimmed, is_valid_api_key) (rw (solid, is_valid_api_key) (rw same (ground arith))))
    ]
