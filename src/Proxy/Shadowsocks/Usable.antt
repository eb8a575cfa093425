-- ===== src/Proxy/Shadowsocks/Usable.antt =====
-- src/proxy/proxy.go, `parseSS`: every node that it makes can be used.
use business2api.Base.{
  ◌≡◌, refl, ap, sym, ◌∙◌, Bool, true, false, ◌||◌, [], Option, none, some, arith, if◌then◌else◌,
  null, map, Bool-cases, Option-cases, inl, inr,
}
use business2api.Text.{Text, codes, eqb, lower_ascii, index_of, has_prefix, drop_prefix}
use business2api.Proxy.Shadowsocks.{
  SsNode, finish_ss, try_map_ss_cipher, is_supported_ss_cipher, cut_last, parse_ss_body, parse_ss,
  set_user, is_zero, new_node, decoded_user, set_host, set_host_or_bracket,
}

-- The node has a server, a port and a method that the proxy program knows.
pub record IsUsable (node : SsNode) : Type 0 where
  pub server : null node.server ≡ false
  pub port : is_zero node.port ≡ false
  pub method : is_supported_ss_cipher node.method ≡ true

abbrev pub WhereAny : Option SsNode → Type 0
WhereAny none = Unit
WhereAny (some node) = IsUsable node

-- The one of two texts that is chosen passes the test that both pass.
chosen-passes :
    (test : Text → Bool) (first second : Bool) (s t chosen : Text)
    → (if first then some s else if second then some t else none) ≡ some chosen
    → (first ≡ true → test s ≡ true)
    → test t ≡ true
    → test chosen ≡ true
chosen-passes test true second s t chosen e passes other = ap test (value (sym e)) ∙ passes refl
  where
    value : some chosen ≡ some s → chosen ≡ s
    value e = ap (λ o. elim o [ none ↦ s | some u ↦ u ]) e
chosen-passes test false true s t chosen e passes other = ap test (value (sym e)) ∙ other
  where
    value : some chosen ≡ some t → chosen ≡ t
    value e = ap (λ o. elim o [ none ↦ t | some u ↦ u ]) e
chosen-passes test false false s t chosen e passes other = cc

try_map_ss_cipher-supported :
    (method mapped : Text)
    → try_map_ss_cipher method ≡ some mapped
    → is_supported_ss_cipher mapped ≡ true
unfolding try_map_ss_cipher
try_map_ss_cipher-supported method mapped e =
    let m = map lower_ascii method in
    chosen-passes is_supported_ss_cipher (is_supported_ss_cipher m)
      (eqb m (codes "chacha20") || eqb m (codes "chacha20-ietf")) m (codes "chacha20-ietf-poly1305")
      mapped e (λ known. known) refl

finish_ss-IsUsable : (node : SsNode) → WhereAny (finish_ss node)
unfolding finish_ss
finish_ss-IsUsable node =
    elim (Bool-cases (null node.server || is_zero node.port || null node.method)) [
      | inl missing ↦ rw (missing, finish_ss) tt
      | inr full ↦ elim (Option-cases (try_map_ss_cipher node.method)) [
        | inl unknown ↦ rw (full, finish_ss) (rw (unknown, finish_ss) tt)
        | inr (mapped, at) ↦
            rw (full, finish_ss)
              (rw (at, finish_ss)
                (record {
                  server = ground arith;
                  port = ground arith;
                  method = try_map_ss_cipher-supported node.method mapped at;
                }))
      ]
    ]

module _ (decode : Text → Option Text) (unescape : Text → Text) where
  parse_ss_body-IsUsable :
      (link : Text) (node : SsNode) → WhereAny (parse_ss_body decode unescape link node)
  unfolding parse_ss_body
  parse_ss_body-IsUsable link node = elim (Option-cases (cut_last b'@' link)) [
    | inr ((user, host), at) ↦
        rw (at, parse_ss_body)
          (finish_ss-IsUsable
            (set_host_or_bracket host (set_user (decoded_user decode unescape user) node)))
    | inl plain ↦ elim (Option-cases (decode link)) [
      | inl broken ↦ rw (plain, parse_ss_body) (rw (broken, parse_ss_body) tt)
      | inr (decoded, from) ↦ elim (Option-cases (cut_last b'@' decoded)) [
        | inl bare ↦
            rw (plain, parse_ss_body)
              (rw (from, parse_ss_body) (rw (bare, parse_ss_body) (finish_ss-IsUsable node)))
        | inr ((user, host), at) ↦
            rw (plain, parse_ss_body)
              (rw (from, parse_ss_body)
                (rw (at, parse_ss_body) (finish_ss-IsUsable (set_host host (set_user user node)))))
      ]
    ]
  ]

  -- Whatever the link, and however base64 and the escapes are read, a node that is made of it has a
  -- server, a port other than 0, and a method that is supported.
  pub parse_ss-IsUsable : (raw : Text) → WhereAny (parse_ss decode unescape raw)
  unfolding parse_ss
  parse_ss-IsUsable raw =
      let link = if has_prefix raw (codes "ss://") then drop_prefix raw (codes "ss://") else raw in
      elim (Option-cases (index_of b'#' link)) [
        | inl bare ↦ rw (bare, parse_ss) (parse_ss_body-IsUsable link (new_node raw (unescape [])))
        | inr ((before, name), at) ↦
            rw (at, parse_ss) (parse_ss_body-IsUsable before (new_node raw (unescape name)))
      ]
