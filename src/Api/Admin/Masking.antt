-- ===== src/Api/Admin/Masking.antt =====
-- src/main.go, `maskEmail`: what a masked address shows.
use business2api.Base.{
  ◌<◌, ◌≡◌, refl, ◌∙◌, sym, false, [], ◌∷◌, ◌++◌, none, some, arith, leb, ◌==◌, null, length, take,
  All,
}
use business2api.Text.{Text, codes, split_on, push, trim_space}
use business2api.Api.Admin.{mask_trimmed, mask_email, last_of}

-- No `@` in the text.
abbrev pub IsPlain : Text → Type 0
IsPlain = All λ c. (c == b'@') ≡ false

split_on-IsPlain : (s : Text) → IsPlain s → split_on b'@' s ≡ s ∷ []
unfolding split_on push
split_on-IsPlain [] h = refl
split_on-IsPlain (c ∷ s) (h, hs) = ground (arith, split_on-IsPlain s hs)

split_on-address :
    (before domain : Text)
    → IsPlain before
    → IsPlain domain
    → split_on b'@' (before ++ b'@' ∷ domain) ≡ before ∷ domain ∷ []
unfolding split_on push
split_on-address [] domain h hd = rw (split_on-IsPlain domain hd) refl
split_on-address (c ∷ before) domain (h, hs) hd =
    ground (arith, split_on-address before domain hs hd)

-- An address with nothing before the `@` makes the request panic.
pub mask_email-none :
    (domain : Text)
    → IsPlain domain
    → trim_space (b'@' ∷ domain) ≡ b'@' ∷ domain
    → mask_email (b'@' ∷ domain) ≡ none
unfolding mask_email mask_trimmed
mask_email-none domain h trimmed =
    rw (trimmed, mask_email) (rw (split_on-IsPlain domain h, mask_trimmed) refl)

solid_of_long : (s : Text) → 2 < length s → null s ≡ false
solid_of_long [] h = absurd (omega arith)
solid_of_long (c ∷ s) h = refl

mask_trimmed-address :
    (before domain : Text)
    → IsPlain before
    → IsPlain domain
    → 2 < length before
    → mask_trimmed (before ++ b'@' ∷ domain)
      ≡ some (take 1 before ++ codes "***" ++ last_of before ++ b'@' ∷ domain)
unfolding mask_trimmed
mask_trimmed-address before domain h hd long =
    let solid = solid_of_long before long in
    let wide : leb (length before) 2 ≡ false = ground arith in
    rw (split_on-address before domain h hd, mask_trimmed) (rw (solid, wide) refl)

-- The masked form of an address tells no more of the part before the `@` than its first and its last
-- character, where it has three or more: addresses that agree in those and in the domain look alike.
pub mask_email-alike :
    (a b domain : Text)
    → IsPlain a
    → IsPlain b
    → IsPlain domain
    → 2 < length a
    → 2 < length b
    → take 1 a ≡ take 1 b
    → last_of a ≡ last_of b
    → mask_trimmed (a ++ b'@' ∷ domain) ≡ mask_trimmed (b ++ b'@' ∷ domain)
mask_email-alike a b domain ha hb hd la lb first last =
    mask_trimmed-address a domain ha hd la
    ∙ rw (first, last) (sym (mask_trimmed-address b domain hb hd lb))
