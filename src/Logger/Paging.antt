-- ===== src/Logger/Paging.antt =====
-- src/logger/store.go, `After`: reading the lines page by page.
use business2api.Base.{
  ℕ, ◌+◌, ◌≤◌, ◌<◌, ◌≡◌, refl, ap, Bool, true, false, not, ◌&&◌, ◌||◌, List, [], ◌∷◌, ◌++◌, arith,
  keep, leb, ltb, Bool-cases, inl, inr, ◌⊎◌, ℤ, ltb→lt,
}
use business2api.Text.{Text}
use business2api.Logger.Store.{LogEntry, RingStore, after, after_loop, read_limit, wanted}
use business2api.Logger.Bounds.{Numbered, IsSound}

-- A wanted line with a number above `a`.
abbrev pub newer : (LogEntry → Bool) → ℕ → LogEntry → Bool
newer wants a e = ltb a e.id && wants e

module _ (wants : LogEntry → Bool) where
  -- Below their numbers, the bound does not matter.
  keep-newer :
      (n a b : ℕ) (es : List LogEntry)
      → Numbered n es
      → a < n
      → b < n
      → keep (newer wants a) es ≡ keep (newer wants b) es
  keep-newer n a b [] v h k = refl
  keep-newer n a b (e ∷ es) (here, v) h k =
      let rest = keep-newer (n + 1) a b es v (omega arith) (omega arith) in ground (arith, rest)

  -- What the loop gives out, and what is left above the number that it returns.
  Splits : ℕ → ℕ → List LogEntry → List LogEntry × ℕ → Type 0
  Splits a next es r = (keep (newer wants a) es ≡ r.0 ++ keep (newer wants r.1) es) × (next ≤ r.1)

  skip-Splits :
      (a next : ℕ) (e : LogEntry) (es : List LogEntry) (r : List LogEntry × ℕ)
      → (leb e.id a || not (wants e)) ≡ true
      → a ≤ next
      → Splits a next es r
      → Splits a next (e ∷ es) r
  unfolding Splits
  skip-Splits a next e es r skips h (same, up) =
      let low : newer wants a e ≡ false = ground arith in
      let high : newer wants r.1 e ≡ false = ground arith in (rw (low, high) same, up)

  last-Splits :
      (a next n : ℕ) (e : LogEntry) (es : List LogEntry)
      → e.id ≡ n
      → Numbered (n + 1) es
      → newer wants a e ≡ true
      → next < e.id
      → Splits a next (e ∷ es) (e ∷ [], e.id)
  unfolding Splits
  last-Splits a next n e es here v takes below =
      let over : newer wants e.id e ≡ false = ground arith in
      let above : a < e.id = ground arith in
      (
        rw (takes, over)
            (ap (λ rest. e ∷ rest) (keep-newer (n + 1) a e.id es v (omega arith) (omega arith))),
        omega arith,
      )

  more-Splits :
      (a next : ℕ) (e : LogEntry) (es : List LogEntry) (r : List LogEntry × ℕ)
      → newer wants a e ≡ true
      → next < e.id
      → Splits a e.id es r
      → Splits a next (e ∷ es) (e ∷ r.0, r.1)
  unfolding Splits
  more-Splits a next e es r takes below (same, up) =
      let over : newer wants r.1 e ≡ false = ground arith in
      (rw (takes, over) (ap (λ rest. e ∷ rest) same), omega arith)

  after_loop-Splits :
      (limit a taken next n : ℕ) (es : List LogEntry)
      → Numbered n es
      → a ≤ next
      → (next ≡ a) ⊎ (next < n)
      → Splits a next es (after_loop wants limit a taken next es)
  unfolding after_loop
  after_loop-Splits limit a taken next n [] v h k = unfold Splits in (refl, omega arith)
  after_loop-Splits limit a taken next n (e ∷ es) (here, v) h k =
      elim (Bool-cases (leb e.id a || not (wants e))) [
        | inl skips ↦ rw skips (
            skip-Splits a next e es (after_loop wants limit a taken next es) skips h
              (after_loop-Splits limit a taken next (n + 1) es v h (ground arith)))
        | inr fits ↦
            let takes : newer wants a e ≡ true = ground arith in
            let below : ltb next e.id ≡ true = ground arith in
            elim (Bool-cases (leb limit (taken + 1))) [
              | inl full ↦
                  rw (fits, full, below) (last-Splits a next n e es here v takes (ltb→lt _ _ below))
              | inr free ↦
                  rw (fits, free, below)
                    (more-Splits a next e es (after_loop wants limit a (taken + 1) e.id es) takes
                      (ltb→lt _ _ below)
                      (after_loop-Splits limit a (taken + 1) e.id (n + 1) es v (ground arith)
                        (inr (omega arith))))
            ]
      ]

-- The lines newer than a number that match the filters are those that `After` gives out, followed by
-- those newer than the number that it returns: reading on from there misses no line that the store
-- still has and repeats none.
pub after-keep :
    (a : ℕ) (limit : ℤ) (source level : Text) (store : RingStore)
    → IsSound store
    → keep (newer (wanted source level) a) store.entries
      ≡ (after a limit source level store).0
        ++ keep (newer (wanted source level) (after a limit source level store).1) store.entries
unfolding after Splits
after-keep a limit source level store v =
    (after_loop-Splits (wanted source level) (read_limit limit) a 0 a _ store.entries v.numbered
      (omega arith) (inl refl)).0
