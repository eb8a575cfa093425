-- ===== src/Text/Split.antt =====
-- `strings.Split` for separators of one and of two runes, `strings.Index` and `strings.Join`.
use business2api.Base.{
  ℕ, ◌≡◌, ◌≢◌, refl, true, false, ◌&&◌, List, [], ◌∷◌, ◌++◌, Option, none, some, arith, ◌==◌,
  if◌then◌else◌, All,
}
use business2api.Text.Defs.{Text}

-- Puts a rune in front of the first piece.
unfoldable pub push : ℕ → List Text → List Text
push c [] = (c ∷ []) ∷ []
push c (p ∷ ps) = (c ∷ p) ∷ ps

unfoldable pub split_on : ℕ → Text → List Text
unfolding push
split_on sep [] = [] ∷ []
split_on sep (c ∷ s) = let rest = split_on sep s in if c == sep then [] ∷ rest else push c rest

unfoldable pub split_pair : ℕ → ℕ → Text → List Text
unfolding push
split_pair a b [] = [] ∷ []
split_pair a b (c ∷ []) = (c ∷ []) ∷ []
split_pair a b (c ∷ d ∷ s) = elim (c == a && d == b) [
  | true ↦ [] ∷ split_pair a b s
  | false ↦ push c (split_pair a b (d ∷ s))
]

-- The part before the first `sep` and the part behind it.
unfoldable pub index_of : ℕ → Text → Option (Text × Text)
index_of sep [] = none
index_of sep (c ∷ s) =
    let rest = index_of sep s in
    if c == sep
    then some ([], s)
    else elim rest [ none ↦ none | some (before, after) ↦ some (c ∷ before, after) ]

unfoldable pub join : Text → List Text → Text
join sep [] = []
join sep (p ∷ []) = p
join sep (p ∷ q ∷ ps) = p ++ (sep ++ join sep (q ∷ ps))

-- No rune of the string is `c`.
abbrev pub Without : ℕ → Text → Type 0
Without c = All (λ x. x ≢ c)

pub index_of-append :
    (sep : ℕ) (s t : Text) → Without sep s → index_of sep (s ++ sep ∷ t) ≡ some (s, t)
unfolding index_of
index_of-append sep [] t w = ground arith
index_of-append sep (c ∷ s) t w = ground (arith, index_of-append sep s t w.1)

pub split_pair-Without : (a b : ℕ) (s : Text) → Without a s → split_pair a b s ≡ s ∷ []
unfolding split_pair
split_pair-Without a b [] w = refl
split_pair-Without a b (c ∷ []) w = refl
split_pair-Without a b (c ∷ d ∷ s) w = ground (arith, split_pair-Without a b (d ∷ s) w.1)

pub split_pair-append :
    (a b : ℕ) (s t : Text) → Without a s → split_pair a b (s ++ a ∷ b ∷ t) ≡ s ∷ split_pair a b t
unfolding split_pair
split_pair-append a b [] t w = ground arith
split_pair-append a b (c ∷ []) t w = ground (arith, split_pair-append a b [] t tt)
split_pair-append a b (c ∷ d ∷ s) t w = ground (arith, split_pair-append a b (d ∷ s) t w.1)
