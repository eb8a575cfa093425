-- ===== src/Pool/Next/Rotation.antt =====
-- src/pool/pool.go, `AccountPool.Next`: the order of the visits is a rotation of the ready list.
use mathlib.Core.Path.{ap₂}
use native.Mathlib.Nat.{mod-eq_of_lt, mod-lt}
use Prim.Native.Nat.add
use business2api.Base.{
  ℕ, zero, suc, ◌+◌, ◌-◌, ◌%◌, ◌≤◌, ◌<◌, ◌≡◌, refl, ap, ◌∙◌, List, [], ◌∷◌, ◌++◌, none, some, arith,
  length, get_elem?, take, drop, take-eq_self, length-drop,
}
use business2api.Pool.State.{uint64}
use business2api.Pool.Next.{visits_from, visits}

-- `k` elements from position `j` on.
slice : List ℕ → ℕ → ℕ → List ℕ
slice xs j zero = []
slice xs j (suc k) = elim (get_elem? xs j) [ none ↦ [] | some x ↦ x ∷ slice xs (suc j) k ]

slice-suc : (x : ℕ) (xs : List ℕ) (j k : ℕ) → slice (x ∷ xs) (suc j) k ≡ slice xs j k
unfolding slice
slice-suc x xs j zero = refl
slice-suc x xs j (suc k) = ground (arith, slice-suc x xs (suc j) k)

slice-take : (xs : List ℕ) (j k : ℕ) → j + k ≤ length xs → slice xs j k ≡ take k (drop j xs)
unfolding slice
slice-take [] j zero h = refl
slice-take [] j (suc k) h = absurd (omega arith)
slice-take (x ∷ xs) zero zero h = refl
slice-take (x ∷ xs) zero (suc k) h =
    ap (◌∷◌ x) (slice-suc x xs zero k ∙ slice-take xs zero k (omega arith))
slice-take (x ∷ xs) (suc j) k h = slice-suc x xs j k ∙ slice-take xs j k (omega arith)

pub get_elem?-lt : (xs : List ℕ) (j : ℕ) → j < length xs → (x : ℕ) × (get_elem? xs j ≡ some x)
get_elem?-lt [] j h = elim h [ ]
get_elem?-lt (x ∷ xs) zero h = (x, refl)
get_elem?-lt (x ∷ xs) (suc j) h = get_elem?-lt xs j (omega arith)

-- While the sum of the indices does not wrap and stays in one lap, the visits are a slice.
visits_from-slice :
    (xs : List ℕ) (start j k i : ℕ)
    → j + k ≤ length xs
    → ((m : ℕ) → m < k → (start + (i + m)) % uint64 % length xs ≡ j + m)
    → visits_from xs start k i ≡ slice xs j k
unfolding visits_from slice
visits_from-slice xs start j zero i h e = refl
visits_from-slice xs start j (suc k) i h e =
    let (x, at) = get_elem?-lt xs j (omega arith) in
    let here : (start + i) % uint64 % length xs ≡ j =
      ap (λ t. (start + t) % uint64 % length xs) (omega arith)
      ∙ (e 0 (omega arith) ∙ omega arith) in
    let ih : visits_from xs start k (i + 1) ≡ slice xs (suc j) k =
      visits_from-slice xs start (suc j) k (i + 1) (omega arith) (λ m l.
        ap (λ t. (start + t) % uint64 % length xs) (omega arith)
        ∙ (e (suc m) (omega arith) ∙ omega arith)) in
    rw (here, at, visits_from) (rw (at, slice) (ap (◌∷◌ x) ih))

visits_from-append :
    (xs : List ℕ) (start k l i : ℕ)
    → visits_from xs start (k + l) i ≡ visits_from xs start k i ++ visits_from xs start l (i + k)
unfolding visits_from
visits_from-append xs start zero l i = ap₂ (visits_from xs start) (omega arith) (omega arith)
visits_from-append xs start (suc k) l i =
    rw (add.suc k l)
      (ground (arith, visits_from-append xs start k l (i + 1), ap (visits_from xs start l) shift))
  where
    shift : i + 1 + k ≡ i + suc k
    shift = omega arith

mod_before : (s n m : ℕ) → 0 < n → s % n + m < n → s + m < uint64 → (s + m) % uint64 % n ≡ s % n + m
mod_before s n m pos h b = rw (mod-eq_of_lt b) (grind arith)

mod_after :
    (s n m : ℕ)
    → 0 < n
    → m < s % n
    → s + (n - s % n + m) < uint64
    → (s + (n - s % n + m)) % uint64 % n ≡ m
mod_after s n m pos h b = rw (mod-eq_of_lt b) (grind arith)

module _ (xs : List ℕ) (start : ℕ) (pos : 0 < length xs) (small : start + length xs ≤ uint64) where
  abbrev offset : ℕ
  offset = start % length xs

  offset-lt : offset < length xs
  offset-lt = mod-lt start pos

  first_lap : visits_from xs start (length xs - offset) 0 ≡ drop offset xs
  first_lap =
      visits_from-slice xs start offset (length xs - offset) 0 (omega (arith, offset-lt)) (λ m l.
        ap (λ i. (start + i) % uint64 % length xs) (omega arith)
        ∙ mod_before start (length xs) m pos (omega (arith, offset-lt)) (omega (arith, offset-lt)))
      ∙ (slice-take xs offset (length xs - offset) (omega (arith, offset-lt))
          ∙ take-eq_self (length xs - offset) (drop offset xs)
              (omega (arith, length-drop offset xs)))

  second_lap : visits_from xs start offset (length xs - offset) ≡ take offset xs
  second_lap =
      visits_from-slice xs start 0 offset (length xs - offset) (omega (arith, offset-lt))
        (λ m l. mod_after start (length xs) m pos l (omega (arith, offset-lt)) ∙ omega arith)
      ∙ slice-take xs 0 offset (omega (arith, offset-lt))

  -- Where the index and the number of ready accounts stay below the wrap-around, the round visits
  -- every ready account once: those from the index on, modulo their number, then those before it.
  pub visits-drop-take :
      visits xs start ≡ drop (start % length xs) xs ++ take (start % length xs) xs
  unfolding visits
  visits-drop-take =
      ap (λ k. visits_from xs start k 0) (omega (arith, offset-lt))
      ∙ (visits_from-append xs start (length xs - offset) offset 0
          ∙ ap₂ (◌++◌) first_lap (ap (visits_from xs start offset) (omega arith) ∙ second_lap))
