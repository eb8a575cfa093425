-- ===== src/Flow/Tokens/Extract.antt =====
-- src/flow/token_pool.go, `extractSessionToken`: a cookie header that holds the session token.
use business2api.Base.{◌≡◌, refl, false, [], ◌∷◌, ◌++◌, some, arith, ◌==◌, null, All}
use business2api.Text.{Text, trim_space, has_prefix, drop_prefix}
use business2api.Flow.Tokens.{marker, ends_token, token_run, find_token, extract_session_token}

-- The characters of a token: no semicolon and no white space of the pattern.
abbrev pub IsRun : Text → Type 0
IsRun = All λ c. ends_token c ≡ false

token_run-append : (token after : Text) → IsRun token → token_run (token ++ b';' ∷ after) ≡ token
unfolding token_run ends_token
token_run-append [] after h = refl
token_run-append (c ∷ token) after (h, hs) = ground (arith, token_run-append token after hs)

find_token-marker :
    (token after : Text)
    → null token ≡ false
    → IsRun token
    → find_token (marker ++ token ++ b';' ∷ after) ≡ some token
unfolding find_token has_prefix drop_prefix
find_token-marker token after solid run = rw (token_run-append token after run, solid) refl

-- Text without an underscore in front of the name of the token does not matter.
find_token-skip :
    (before rest : Text)
    → All (λ c. (c == b'_') ≡ false) before
    → find_token (before ++ rest) ≡ find_token rest
unfolding find_token has_prefix
find_token-skip [] rest h = refl
find_token-skip (c ∷ before) rest (h, hs) = ground (arith, find_token-skip before rest hs)

-- A token that stands in a cookie header, between its name and a semicolon, is read back, where it is
-- not empty and has no white space and no semicolon, and no underscore stands before its name.
pub extract_session_token-marker :
    (before token after : Text)
    → All (λ c. (c == b'_') ≡ false) before
    → null token ≡ false
    → IsRun token
    → trim_space token ≡ token
    → extract_session_token (before ++ (marker ++ token ++ b';' ∷ after)) ≡ token
unfolding extract_session_token
extract_session_token-marker before token after skip solid run trimmed =
    rw
      (
        find_token-skip before (marker ++ token ++ b';' ∷ after) skip,
        find_token-marker token after solid run,
        extract_session_token,
      )
      trimmed
