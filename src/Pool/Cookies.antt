-- ===== src/Pool/Cookies.antt =====
-- src/pool/pool.go, `ParseCookieString`, `BuildCookieString` and `GetAllCookies`.
pub mod RoundTrip
mod Tests
use business2api.Base.{List, [], ◌∷◌, ◌++◌, Option, none, some, if◌then◌else◌, null}
use business2api.Text.{Text, codes, trim_space, split_pair, index_of, join}
use business2api.Pool.Account.{Cookie, AccountData}

-- `idx > 0`: a part with no name before its `=` is dropped.
unfoldable pub cookie_of : Option (Text × Text) → List Cookie
cookie_of none = []
cookie_of (some ([], value)) = []
cookie_of (some (c ∷ name, value)) =
    record { name = c ∷ name; value = value; domain = codes ".gemini.google" } ∷ []

unfoldable pub parse_parts : List Text → List Cookie
unfolding cookie_of
parse_parts [] = []
parse_parts (part ∷ parts) =
    let trimmed = trim_space part in
    if null trimmed
    then parse_parts parts
    else cookie_of (index_of b'=' trimmed) ++ parse_parts parts

unfoldable pub parse_cookie_string : Text → List Cookie
unfolding parse_parts split_pair
parse_cookie_string s = if null s then [] else parse_parts (split_pair b';' b' ' s)

unfoldable pub cookie_parts : List Cookie → List Text
cookie_parts [] = []
cookie_parts (c ∷ cs) =
    if null (trim_space c.name)
    then cookie_parts cs
    else (c.name ++ b'=' ∷ c.value) ∷ cookie_parts cs

unfoldable pub build_cookie_string : List Cookie → Text
unfolding cookie_parts join
build_cookie_string cookies = if null cookies then [] else join (codes "; ") (cookie_parts cookies)

unfoldable pub get_all_cookies : AccountData → List Cookie
unfolding parse_cookie_string
get_all_cookies d =
    if null d.cookies
    then (if null d.cookie_string then [] else parse_cookie_string d.cookie_string)
    else d.cookies
