-- ===== src/Api/Stats/Ranking.antt =====
-- src/main.go, `GetAllIPStats`: the callers by their number of requests.
use mathlib.Core.List.{reverse-reverse}
use business2api.Base.{
  ℕ, ◌+◌, ◌≤◌, ◌≡◌, refl, ◌∙◌, List, [], ◌∷◌, arith, if◌then◌else◌, All, reverse,
}
use business2api.Text.{Text, StringMap, eqb}
use business2api.Api.Stats.{IpRequestInfo, IpCount, sift, sort_from, counts_of, sorted_ips}

-- Read from the back, the counts rise.
abbrev pub IsRising : List IpCount → Type 0
IsRising [] = Unit
IsRising (x ∷ xs) = All (λ y. x.1 ≤ y.1) xs × IsRising xs

-- How often a caller is listed, with any count.
abbrev pub listed : Text → List IpCount → ℕ
listed ip [] = 0
listed ip (x ∷ xs) = (if eqb x.0 ip then 1 else 0) + listed ip xs

All-le : (n m : ℕ) (xs : List IpCount) → n ≤ m → All (λ y. m ≤ y.1) xs → All (λ y. n ≤ y.1) xs
All-le n m [] h all = tt
All-le n m (x ∷ xs) h (le, all) = (omega arith, All-le n m xs h all)

All-sift :
    (n : ℕ) (x : IpCount) (xs : List IpCount)
    → n ≤ x.1
    → All (λ y. n ≤ y.1) xs
    → All (λ y. n ≤ y.1) (sift x xs)
unfolding sift
All-sift n x [] h all = (h, tt)
All-sift n x (y ∷ ys) h (le, all) = ground (arith, All-sift n x ys h all)

sift-IsRising : (x : IpCount) (xs : List IpCount) → IsRising xs → IsRising (sift x xs)
unfolding sift
sift-IsRising x [] h = (tt, tt)
sift-IsRising x (y ∷ ys) (all, h) =
    ground (arith, All-sift y.1 x ys, sift-IsRising x ys h, All-le x.1 y.1 ys)

sort_from-IsRising : (done xs : List IpCount) → IsRising done → IsRising (sort_from done xs)
unfolding sort_from
sort_from-IsRising done [] h = h
sort_from-IsRising done (x ∷ xs) h = sort_from-IsRising (sift x done) xs (sift-IsRising x done h)

listed-sift :
    (ip : Text) (x : IpCount) (xs : List IpCount) → listed ip (sift x xs) ≡ listed ip (x ∷ xs)
unfolding sift
listed-sift ip x [] = refl
listed-sift ip x (y ∷ ys) = ground (arith, listed-sift ip x ys)

listed-sort_from :
    (ip : Text) (done xs : List IpCount)
    → listed ip (sort_from done xs) ≡ listed ip done + listed ip xs
unfolding sort_from
listed-sort_from ip done [] = omega arith
listed-sort_from ip done (x ∷ xs) =
    omega (arith, listed-sort_from ip (sift x done) xs, listed-sift ip x done)

-- The list of callers is in the order of falling counts, and lists each caller as often as the map
-- has it.
pub sorted_ips-IsRising :
    (requests : StringMap IpRequestInfo) (ip : Text)
    → IsRising (reverse (sorted_ips requests))
      × (listed ip (reverse (sorted_ips requests)) ≡ listed ip (counts_of requests))
unfolding sorted_ips
sorted_ips-IsRising requests ip = rw (reverse-reverse (sort_from [] (counts_of requests))) (
  sort_from-IsRising [] (counts_of requests) tt,
  listed-sort_from ip [] (counts_of requests) ∙ omega arith,
)
