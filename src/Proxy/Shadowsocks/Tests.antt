-- ===== src/Proxy/Shadowsocks/Tests.antt =====
-- Links that `parseSS` of src/proxy/proxy.go reads, and the theorem at a concrete input.
use business2api.Base.{◌≡◌, refl, Option, none, some, pos}
use business2api.Text.{Text, codes, eqb, lower_ascii, has_prefix}
use business2api.Proxy.Shadowsocks.{SsNode, parse_ss}
use business2api.Proxy.Shadowsocks.Usable.{WhereAny, parse_ss-IsUsable}

-- No part of these links is base64.
abbrev no_base64 : Text → Option Text
no_base64 s = none

abbrev as_it_is : Text → Text
as_it_is s = s

abbrev link : Text
link = codes "ss://AES-256-GCM:p@w@[::1]:8388#home"

abbrev node : SsNode
node = record {
  raw = link;
  name = codes "home";
  server = codes "::1";
  port = pos 8388;
  method = codes "aes-256-gcm";
  password = codes "p@w";
}

node_of_link : parse_ss no_base64 as_it_is link ≡ some node
unfolding parse_ss eqb lower_ascii has_prefix
node_of_link = refl

no_node_of_old_method : parse_ss no_base64 as_it_is (codes "ss://rc4-md5:p@a.b:80") ≡ none
unfolding parse_ss eqb lower_ascii has_prefix
no_node_of_old_method = refl

parse_ss-IsUsable_example : WhereAny (parse_ss no_base64 as_it_is link)
parse_ss-IsUsable_example = parse_ss-IsUsable no_base64 as_it_is link
