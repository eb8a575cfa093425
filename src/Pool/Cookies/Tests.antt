-- ===== src/Pool/Cookies/Tests.antt =====
-- Cookie strings of src/pool/pool.go, and the round trip at a concrete input.
use business2api.Base.{◌≡◌, refl, List, [], ◌∷◌, arith}
use business2api.Text.{Text, codes, trim_space, drop_space, is_space, join}
use business2api.Pool.Account.{Cookie}
use business2api.Pool.Cookies.{parse_cookie_string, build_cookie_string, cookie_parts}
use business2api.Pool.Cookies.RoundTrip.{IsClean, parse_cookie_string-build_cookie_string}

abbrev cookie : Text → Text → Cookie
cookie name value = record { name = name; value = value; domain = codes ".gemini.google" }

abbrev two_cookies : List Cookie
two_cookies = cookie (codes "a") (codes "1") ∷ cookie (codes "b") (codes "x=y") ∷ []

builds : build_cookie_string two_cookies ≡ codes "a=1; b=x=y"
unfolding build_cookie_string cookie_parts join trim_space drop_space is_space
builds = refl

first-IsClean : IsClean (cookie (codes "a") (codes "1"))
unfolding trim_space drop_space is_space
first-IsClean = record {
  named = refl;
  no_equals = (omega arith, tt);
  no_semicolon = (omega arith, (omega arith, (omega arith, tt)));
  no_margin = refl;
  default_domain = refl;
}

second-IsClean : IsClean (cookie (codes "b") (codes "x=y"))
unfolding trim_space drop_space is_space
second-IsClean = record {
  named = refl;
  no_equals = (omega arith, tt);
  no_semicolon = (omega arith, (omega arith, (omega arith, (omega arith, (omega arith, tt)))));
  no_margin = refl;
  default_domain = refl;
}

parse_cookie_string-build_cookie_string_example :
    parse_cookie_string (build_cookie_string two_cookies) ≡ two_cookies
parse_cookie_string-build_cookie_string_example =
    parse_cookie_string-build_cookie_string two_cookies (first-IsClean, (second-IsClean, tt))
