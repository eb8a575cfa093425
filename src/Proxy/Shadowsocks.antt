-- ===== src/Proxy/Shadowsocks.antt =====
-- src/proxy/proxy.go, `parseSS`: a link of a shadowsocks node. Base64 with its four alphabets and the
-- unescaping of a query are the standard library's, and parameters here.
pub mod Usable
mod Tests
use business2api.Base.{
  ℕ, zero, suc, ◌+◌, ◌-◌, ◌*◌, ◌^◌, Bool, true, false, not, ◌&&◌, ◌||◌, List, [], ◌∷◌, ◌++◌, Option,
  none, some, ltb, leb, ◌==◌, if◌then◌else◌, null, length, map, min, ℤ, pos, negsuc,
}
use business2api.Text.{
  Text, codes, eqb, lower_ascii, split_on, index_of, drop_prefix, has_prefix, read_decimal,
  trim_space,
}

pub record SsNode : Type 0 where
  pub raw : Text
  pub name : Text
  pub server : Text
  pub port : ℤ
  pub method : Text
  pub password : Text

-- `i, _ := strconv.Atoi(s)`: 0 for a text that is no number, and the nearest number of 64 bits for one
-- that is too large.
abbrev pub are_digits : Text → Bool
are_digits [] = true
are_digits (c ∷ s) = leb b'0' c && leb c b'9' && are_digits s

unfoldable pub positive_of : Text → ℤ
unfolding read_decimal
positive_of s =
    if null s || not (are_digits s) then pos 0 else pos (min (read_decimal 0 s) (2 ^ 63 - 1))

unfoldable pub negative_of : Text → ℤ
unfolding read_decimal
negative_of s =
    let n = min (read_decimal 0 s) (2 ^ 63) in
    if null s || not (are_digits s) || n == 0 then pos 0 else negsuc (n - 1)

unfoldable pub atoi : Text → ℤ
unfolding positive_of negative_of
atoi [] = pos 0
atoi (c ∷ s) =
    if c == b'-' then negative_of s else if c == b'+' then positive_of s else positive_of (c ∷ s)

-- The parts before and behind the last `sep`.
unfoldable pub cut_last : ℕ → Text → Option (Text × Text)
cut_last sep [] = none
cut_last sep (c ∷ s) = elim (cut_last sep s) [
  | some (before, behind) ↦ some (c ∷ before, behind)
  | none ↦ if c == sep then some ([], s) else none
]

-- The parts before and behind the first `a` with `b` behind it.
unfoldable pub cut_pair : ℕ → ℕ → Text → Option (Text × Text)
cut_pair a b [] = none
cut_pair a b (c ∷ []) = none
cut_pair a b (c ∷ d ∷ s) =
    let rest = cut_pair a b (d ∷ s) in
    if c == a && d == b
    then some ([], s)
    else elim rest [ none ↦ none | some (before, behind) ↦ some (c ∷ before, behind) ]

abbrev pub last_part : Text → List Text → Text
last_part p [] = p
last_part p (q ∷ qs) = last_part q qs

-- The method and the password, which are set only where there is a colon.
unfoldable pub set_user : Text → SsNode → SsNode
unfolding index_of
set_user user node = elim (index_of b':' user) [
  | none ↦ node
  | some (method, password) ↦ record node { method = method; password = password }
]

-- The part before the first colon and the one behind the last, where there is a colon.
unfoldable pub set_host : Text → SsNode → SsNode
unfolding split_on atoi
set_host host node = elim (split_on b':' host) [
  | server ∷ part ∷ parts ↦ record node { server = server; port = atoi (last_part part parts) }
  | _ ↦ node
]

unfoldable pub set_host_or_bracket : Text → SsNode → SsNode
unfolding set_host cut_pair atoi
set_host_or_bracket [] node = set_host [] node
set_host_or_bracket (c ∷ host) node =
    if c == b'['
    then elim (cut_pair b']' b':' (c ∷ host)) [
      | none ↦ node
      | some ([], port) ↦ node
      | some (bracket ∷ server, port) ↦ record node { server = server; port = atoi port }
    ]
    else set_host (c ∷ host) node

abbrev pub supported : List Text
supported =
    codes "aes-128-gcm"
    ∷ codes "aes-256-gcm"
    ∷ codes "chacha20-poly1305"
    ∷ codes "chacha20-ietf-poly1305"
    ∷ codes "xchacha20-poly1305"
    ∷ codes "xchacha20-ietf-poly1305"
    ∷ codes "aes-128-ctr"
    ∷ codes "aes-192-ctr"
    ∷ codes "aes-256-ctr"
    ∷ codes "none"
    ∷ codes "plain"
    ∷ codes "2022-blake3-aes-128-gcm"
    ∷ codes "2022-blake3-aes-256-gcm"
    ∷ codes "2022-blake3-chacha20-poly1305"
    ∷ []

abbrev pub is_among : Text → List Text → Bool
is_among s [] = false
is_among s (t ∷ ts) = eqb t s || is_among s ts

-- A method in lower case, as far as it is in ASCII.
unfoldable pub is_supported_ss_cipher : Text → Bool
unfolding lower_ascii eqb
is_supported_ss_cipher method = is_among (map lower_ascii method) supported

-- Of the other methods, only two have a replacement.
unfoldable pub try_map_ss_cipher : Text → Option Text
unfolding lower_ascii eqb is_supported_ss_cipher
try_map_ss_cipher method =
    let m = map lower_ascii method in
    if is_supported_ss_cipher m
    then some m
    else if eqb m (codes "chacha20") || eqb m (codes "chacha20-ietf")
    then some (codes "chacha20-ietf-poly1305")
    else none

abbrev pub is_zero : ℤ → Bool
is_zero (pos n) = n == 0
is_zero (negsuc n) = false

-- The last checks, and the method that is used in the end.
unfoldable pub finish_ss : SsNode → Option SsNode
unfolding try_map_ss_cipher
finish_ss node =
    if null node.server || is_zero node.port || null node.method
    then none
    else elim (try_map_ss_cipher node.method) [
      | none ↦ none
      | some method ↦ some (record node { method = method })
    ]

abbrev pub new_node : Text → Text → SsNode
new_node raw name = record {
  raw = raw;
  name = name;
  server = [];
  port = pos 0;
  method = [];
  password = [];
}

-- The four base64 encodings of the standard library.
pub record Base64 : Type 0 where
  pub std : Text → Option Text
  pub url : Text → Option Text
  pub raw_std : Text → Option Text
  pub raw_url : Text → Option Text

abbrev pub or_next : Option Text → Option Text → Option Text
or_next none next = next
or_next (some decoded) next = some decoded

-- The first of them that can read the text.
unfoldable pub try_base64_decode : Base64 → Text → Option Text
unfolding trim_space
try_base64_decode encodings text =
    let s = trim_space text in
    or_next (encodings.std s)
      (or_next (encodings.url s) (or_next (encodings.raw_std s) (encodings.raw_url s)))

-- `decode` is `try_base64_decode` of the encodings.
module _ (decode : Text → Option Text) (unescape : Text → Text) where
  -- The part of the user, which may stand without base64.
  abbrev pub decoded_user : Text → Text
  decoded_user user = elim (decode user) [ none ↦ user | some decoded ↦ decoded ]

  -- The link without its scheme and its name.
  unfoldable pub parse_ss_body : Text → SsNode → Option SsNode
  unfolding cut_last set_user set_host set_host_or_bracket finish_ss
  parse_ss_body link node = elim (cut_last b'@' link) [
    | some (user, host) ↦ finish_ss (set_host_or_bracket host (set_user (decoded_user user) node))
    | none ↦ elim (decode link) [
      | none ↦ none
      | some decoded ↦ elim (cut_last b'@' decoded) [
        | none ↦ finish_ss node
        | some (user, host) ↦ finish_ss (set_host host (set_user user node))
      ]
    ]
  ]

  unfoldable pub parse_ss : Text → Option SsNode
  unfolding drop_prefix index_of parse_ss_body
  parse_ss raw =
      let link = if has_prefix raw (codes "ss://") then drop_prefix raw (codes "ss://") else raw in
      elim (index_of b'#' link) [
        | none ↦ parse_ss_body link (new_node raw (unescape []))
        | some (before, name) ↦ parse_ss_body before (new_node raw (unescape name))
      ]
