-- ===== src/Api/Admin/Paging.antt =====
-- src/main.go, `paginatePoolFileViews`: the pages of a list.
use native.Mathlib.Nat.{mod-eq_of_lt}
use business2api.Base.{
  ℕ, zero, suc, ◌+◌, ◌-◌, ◌*◌, ◌%◌, ◌^◌, ◌≤◌, ◌<◌, ◌≡◌, refl, ap, ◌∙◌, false, List, [], ◌∷◌, ◌++◌,
  Option, none, some, sym, null, leb→le, arith, ltb, leb, ◌==◌, length, take, drop, length-drop,
  min, pos, negsuc, int64, Bool-cases, inl, inr,
}
use business2api.Api.Admin.{paginate_pool_file_views}

int64_small : (w : ℕ) → w < 2 ^ 63 → int64 (w % 2 ^ 64) ≡ pos w
unfolding int64
int64_small w h = let small : w % 2 ^ 64 ≡ w = mod-eq_of_lt (omega arith) in rw small (ground arith)

int64_negative : (w : ℕ) → 2 ^ 63 ≤ w → (n : ℕ) × (int64 w ≡ negsuc n)
unfolding int64
int64_negative w h = let no : ltb w (2 ^ 63) ≡ false = ground arith in (2 ^ 64 - 1 - w, rw no refl)

module _ {ℓ} {A : Type ℓ} where
  drop_all : (k : ℕ) (xs : List A) → length xs ≤ k → drop k xs ≡ []
  drop_all zero [] h = refl
  drop_all zero (x ∷ xs) h = absurd (omega arith)
  drop_all (suc k) [] h = refl
  drop_all (suc k) (x ∷ xs) h = drop_all k xs (omega arith)

  take_nil : (n : ℕ) → take {A = A} n [] ≡ []
  take_nil zero = refl
  take_nil (suc n) = refl

  take-min : (n : ℕ) (xs : List A) → take (min n (length xs)) xs ≡ take n xs
  take-min zero xs = let none_left : min 0 (length xs) ≡ 0 = omega arith in rw none_left refl
  take-min (suc n) [] = take_nil (min (suc n) 0)
  take-min (suc n) (x ∷ xs) =
      let step : min (suc n) (suc (length xs)) ≡ suc (min n (length xs)) = omega arith in
      rw step (ap (◌∷◌ x) (take-min n xs))

  take-append-drop : (m n : ℕ) (xs : List A) → take m xs ++ take n (drop m xs) ≡ take (m + n) xs
  take-append-drop zero n xs = let same : 0 + n ≡ n = omega arith in rw same refl
  take-append-drop (suc m) n [] = rw (take_nil n) (sym (take_nil (suc m + n)))
  take-append-drop (suc m) n (x ∷ xs) =
      let step : suc m + n ≡ suc (m + n) = omega arith in
      rw step (ap (◌∷◌ x) (take-append-drop m n xs))

  -- A page holds the elements at its place, where the product of the parameters stays below 2 ^ 63.
  page_of :
      (items : List A) (page size : ℕ)
      → (page - 1) * size < 2 ^ 63
      → paginate_pool_file_views items page size
        ≡ some (take size (drop ((page - 1) * size) items), length items)
  unfolding paginate_pool_file_views
  page_of [] page size small =
      rw (drop_all ((page - 1) * size) [] (omega arith), take_nil size) refl
  page_of (x ∷ xs) page size small =
      let items = x ∷ xs in
      let start = (page - 1) * size in
      let total = length items in
      let some_items : (total == 0) ≡ false = ground arith in
      elim (Bool-cases (leb total start)) [
        | inl beyond ↦
            rw (some_items, paginate_pool_file_views)
              (rw (int64_small start small, beyond)
                (rw (drop_all start items (leb→le total start beyond), take_nil size) refl))
        | inr inside ↦
            let left = drop start items in
            let width : min (start + size) total - start ≡ min size (length left) =
              omega (arith, length-drop start items) in
            rw (some_items, paginate_pool_file_views)
              (rw (int64_small start small, inside)
                (rw width (ap (λ ys. some (ys, total)) (take-min size left))))
      ]

  -- The pages from the first on, put together; `none` where one of them panics.
  abbrev pub first_pages : List A → ℕ → ℕ → Option (List A)
  first_pages items size zero = some []
  first_pages items size (suc k) = elim (first_pages items size k) [
    | none ↦ none
    | some front ↦ elim (paginate_pool_file_views items (k + 1) size) [
      | none ↦ none
      | some (page, total) ↦ some (front ++ page)
    ]
  ]

  -- The first `k` pages put together are the first elements of the list, none left out and none shown
  -- twice, where the number of elements asked for stays below 2 ^ 63.
  pub paginate_pool_file_views-take :
      (items : List A) (size k : ℕ)
      → k * size < 2 ^ 63
      → first_pages items size k ≡ some (take (k * size) items)
  paginate_pool_file_views-take items size zero small =
      let none_yet : 0 * size ≡ 0 = omega arith in rw none_yet refl
  paginate_pool_file_views-take items size (suc k) small =
      let grows : suc k * size ≡ k * size + size = grind arith in
      let before : k * size < 2 ^ 63 = omega arith in
      let at : k + 1 - 1 ≡ k = omega arith in
      let page = page_of items (k + 1) size in
      rw (paginate_pool_file_views-take items size k before) (
        rw (rw at at page before)
          (ap some (take-append-drop (k * size) size items ∙ ap (λ n. take n items) (sym grows))))

  -- Where the product of the parameters is negative as a signed number of 64 bits, every list that is
  -- not empty makes the request panic.
  pub paginate_pool_file_views-overflow :
      (items : List A) (page size : ℕ)
      → null items ≡ false
      → 2 ^ 63 ≤ (page - 1) * size % 2 ^ 64
      → paginate_pool_file_views items page size ≡ none
  unfolding paginate_pool_file_views
  paginate_pool_file_views-overflow [] page size some_items big = cc
  paginate_pool_file_views-overflow (x ∷ xs) page size some_items big =
      let (n, negative) = int64_negative ((page - 1) * size % 2 ^ 64) big in
      let solid : (length (x ∷ xs) == 0) ≡ false = ground arith in
      rw (solid, paginate_pool_file_views) (rw negative refl)
