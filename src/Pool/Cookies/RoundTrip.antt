-- ===== src/Pool/Cookies/RoundTrip.antt =====
-- src/pool/pool.go: `ParseCookieString` reads what `BuildCookieString` writes.
use business2api.Base.{◌≡◌, refl, ap, ◌∙◌, false, List, [], ◌∷◌, ◌++◌, some, null, All}
use business2api.Text.{
  Text, codes, trim_space, drop_space, split_pair, index_of-append, join, Without,
  split_pair-Without, split_pair-append,
}
use business2api.Pool.Account.{Cookie}
use business2api.Pool.Cookies.{
  cookie_of, parse_parts, parse_cookie_string, cookie_parts, build_cookie_string,
}

abbrev pub pair_of : Cookie → Text
pair_of c = c.name ++ b'=' ∷ c.value

-- The cookie's text survives the format: it has a name without `=`, no `;` and no white space around
-- it, and the domain is the default one.
pub record IsClean (c : Cookie) : Type 0 where
  pub named : null (trim_space c.name) ≡ false
  pub no_equals : Without b'=' c.name
  pub no_semicolon : Without b';' (pair_of c)
  pub no_margin : trim_space (pair_of c) ≡ pair_of c
  pub default_domain : c.domain ≡ codes ".gemini.google"

split_pair-join :
    (p : Text) (ps : List Text)
    → All (Without b';') (p ∷ ps)
    → split_pair b';' b' ' (join (codes "; ") (p ∷ ps)) ≡ p ∷ ps
unfolding join
split_pair-join p [] (w, _) = split_pair-Without b';' b' ' p w
split_pair-join p (q ∷ ps) (w, ws) =
    split_pair-append b';' b' ' p (join (codes "; ") (q ∷ ps)) w
    ∙ ap (λ rest. p ∷ rest) (split_pair-join q ps ws)

parts : List Cookie → List Text
parts [] = []
parts (c ∷ cs) = pair_of c ∷ parts cs

cookie_parts-parts : (cs : List Cookie) → All IsClean cs → cookie_parts cs ≡ parts cs
unfolding cookie_parts parts
cookie_parts-parts [] h = refl
cookie_parts-parts (c ∷ cs) (clean, h) =
    rw clean.named (ap (λ rest. pair_of c ∷ rest) (cookie_parts-parts cs h))

parts-Without : (cs : List Cookie) → All IsClean cs → All (Without b';') (parts cs)
unfolding parts
parts-Without [] h = tt
parts-Without (c ∷ cs) (clean, h) = (clean.no_semicolon, parts-Without cs h)

cookie_of-some :
    (name value domain : Text)
    → null (trim_space name) ≡ false
    → domain ≡ codes ".gemini.google"
    → cookie_of (some (name, value)) ≡ record { name = name; value = value; domain = domain } ∷ []
unfolding cookie_of trim_space drop_space
cookie_of-some [] value domain named e = cc
cookie_of-some (n ∷ name) value domain named e = rw e refl

null-pair_of : (name value : Text) → null (name ++ b'=' ∷ value) ≡ false
null-pair_of [] value = refl
null-pair_of (n ∷ name) value = refl

parse_parts-parts : (cs : List Cookie) → All IsClean cs → parse_parts (parts cs) ≡ cs
unfolding parse_parts parts
parse_parts-parts [] h = refl
parse_parts-parts (c ∷ cs) (clean, h) =
    rw
      (
        clean.no_margin,
        null-pair_of c.name c.value,
        index_of-append b'=' c.name c.value clean.no_equals,
        cookie_of-some c.name c.value c.domain clean.named clean.default_domain,
      )
      (ap (λ rest. c ∷ rest) (parse_parts-parts cs h))

null-join : (p : Text) (ps : List Text) → null p ≡ false → null (join (codes "; ") (p ∷ ps)) ≡ false
unfolding join
null-join [] ps e = cc
null-join (a ∷ p) [] e = refl
null-join (a ∷ p) (q ∷ ps) e = refl

read_parts :
    (c : Cookie) (cs : List Cookie)
    → All IsClean (c ∷ cs)
    → parse_cookie_string (join (codes "; ") (parts (c ∷ cs))) ≡ c ∷ cs
unfolding parts parse_cookie_string
read_parts c cs h =
    rw
      (
        null-join (pair_of c) (parts cs) (null-pair_of c.name c.value),
        split_pair-join (pair_of c) (parts cs) (parts-Without (c ∷ cs) h),
      )
      (parse_parts-parts (c ∷ cs) h)

-- What `BuildCookieString` writes for cookies that survive the format, `ParseCookieString` reads
-- back as the same cookies in the same order.
pub parse_cookie_string-build_cookie_string :
    (cs : List Cookie) → All IsClean cs → parse_cookie_string (build_cookie_string cs) ≡ cs
unfolding build_cookie_string
parse_cookie_string-build_cookie_string [] h = unfold parse_cookie_string in refl
parse_cookie_string-build_cookie_string (c ∷ cs) h =
    rw (cookie_parts-parts (c ∷ cs) h) (read_parts c cs h)
