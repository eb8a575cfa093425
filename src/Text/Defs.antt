-- ===== src/Text/Defs.antt =====
-- Runes and whole strings: equality, white space and `strings.TrimSpace`, case, prefixes.
use Prim.Native.Char.{code}
use Prim.Native.String.{String}
use mathlib.Core.List.{reverse-reverse, reverse-cons, reverse-append}
use business2api.Base.{
  ℕ, ◌+◌, ◌≡◌, ◌↔◌, refl, Bool, true, false, ◌&&◌, ◌||◌, List, [], ◌∷◌, reverse, arith, leb, ◌==◌,
  if◌then◌else◌, null, drop, length, ◌++◌, Bool-cases, inl, inr,
}

abbrev pub Text : Type 0
Text = List ℕ

-- A string literal of the source.
abbrev pub codes : String → Text
codes String.[] = []
codes (String.◌∷◌ c s) = code c ∷ codes s

unfoldable pub eqb : Text → Text → Bool
eqb [] [] = true
eqb [] (y ∷ ys) = false
eqb (x ∷ xs) [] = false
eqb (x ∷ xs) (y ∷ ys) = x == y && eqb xs ys

pub eqb_iff : (s t : Text) → (eqb s t ≡ true) ↔ (s ≡ t)
unfolding eqb
eqb_iff [] [] = (λ _. refl, λ _. refl)
eqb_iff [] (y ∷ ys) = (λ e. cc, λ e. cc)
eqb_iff (x ∷ xs) [] = (λ e. cc, λ e. cc)
eqb_iff (x ∷ xs) (y ∷ ys) = ground (arith, eqb_iff xs ys)

pub eqb_refl : (s : Text) → eqb s s ≡ true
eqb_refl s = (eqb_iff s s).1 refl

-- `unicode.IsSpace`.
unfoldable pub is_space : ℕ → Bool
is_space c =
    (leb 9 c && leb c 13)
    || c == 32
    || c == 0x85
    || c == 0xa0
    || c == 0x1680
    || (leb 0x2000 c && leb c 0x200a)
    || c == 0x2028
    || c == 0x2029
    || c == 0x202f
    || c == 0x205f
    || c == 0x3000

unfoldable pub drop_space : Text → Text
drop_space [] = []
drop_space (c ∷ s) = if is_space c then drop_space s else c ∷ s

unfoldable pub trim_space : Text → Text
unfolding drop_space is_space
trim_space s = reverse (drop_space (reverse (drop_space s)))

unfoldable pub is_blank : Text → Bool
unfolding trim_space
is_blank s = null (trim_space s)

unfoldable pub has_prefix : Text → Text → Bool
has_prefix s [] = true
has_prefix [] (p ∷ ps) = false
has_prefix (c ∷ s) (p ∷ ps) = c == p && has_prefix s ps

-- `strings.TrimPrefix`.
unfoldable pub drop_prefix : Text → Text → Text
drop_prefix s p = if has_prefix s p then drop (length p) s else s

-- `strings.Contains`.
unfoldable pub contains : Text → Text → Bool
contains [] p = null p
contains (c ∷ s) p = has_prefix (c ∷ s) p || contains s p

-- `strings.TrimRight` for one rune.
unfoldable pub drop_rune : ℕ → Text → Text
drop_rune r [] = []
drop_rune r (c ∷ s) = if c == r then drop_rune r s else c ∷ s

unfoldable pub trim_right : ℕ → Text → Text
unfolding drop_rune
trim_right r s = reverse (drop_rune r (reverse s))

-- `unicode.ToLower` on ASCII.
unfoldable pub lower_ascii : ℕ → ℕ
lower_ascii c = if leb b'A' c && leb c b'Z' then c + 32 else c

-- The first rune of a string, if it has one, is no white space.
abbrev pub StartsSolid : Text → Type 0
StartsSolid [] = Unit {0}
StartsSolid (c ∷ s) = is_space c ≡ false

drop_space-StartsSolid : (s : Text) → StartsSolid (drop_space s)
unfolding drop_space
drop_space-StartsSolid [] = tt
drop_space-StartsSolid (c ∷ s) = ground (arith, drop_space-StartsSolid s)

drop_space-eq_self : (s : Text) → StartsSolid s → drop_space s ≡ s
unfolding drop_space
drop_space-eq_self [] h = refl
drop_space-eq_self (c ∷ s) h = rw h

-- A string with no white space at its ends is its own trim.
pub trim_space-eq_self : (s : Text) → StartsSolid s → StartsSolid (reverse s) → trim_space s ≡ s
unfolding trim_space
trim_space-eq_self s h k =
    rw (drop_space-eq_self s h, drop_space-eq_self (reverse s) k) (reverse-reverse s)

drop_space-snoc :
    (s : Text) (c : ℕ) → is_space c ≡ false → drop_space (s ++ c ∷ []) ≡ drop_space s ++ c ∷ []
unfolding drop_space
drop_space-snoc [] c solid = rw solid refl
drop_space-snoc (d ∷ s) c solid = elim (Bool-cases (is_space d)) [
  | inl e ↦ rw e (drop_space-snoc s c solid)
  | inr e ↦ rw e refl
]

-- White space cut off behind leaves the first rune alone.
trim_end-StartsSolid : (s : Text) → StartsSolid s → StartsSolid (reverse (drop_space (reverse s)))
unfolding drop_space
trim_end-StartsSolid [] h = tt
trim_end-StartsSolid (c ∷ s) h =
    rw
      (
        reverse-cons c s,
        drop_space-snoc (reverse s) c h,
        reverse-append (drop_space (reverse s)) (c ∷ []),
      )
      h

pub trim_space-idempotent : (s : Text) → trim_space (trim_space s) ≡ trim_space s
unfolding trim_space
trim_space-idempotent s =
    trim_space-eq_self (reverse (drop_space (reverse (drop_space s))))
      (trim_end-StartsSolid (drop_space s) (drop_space-StartsSolid s))
      (rw (reverse-reverse (drop_space (reverse (drop_space s))))
        (drop_space-StartsSolid (reverse (drop_space s))))
