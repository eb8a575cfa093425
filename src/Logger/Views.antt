-- ===== src/Logger/Views.antt =====
-- src/logger/store.go, `Recent`: the newest matching lines.
use business2api.Base.{
  ℕ, zero, suc, ◌+◌, ◌-◌, ◌≤◌, ◌≡◌, refl, ap, ◌∙◌, Bool, true, false, List, [], ◌∷◌, arith, reverse,
  take, keep, leb, Bool-cases, inl, inr, ℤ, pos, negsuc,
}
use business2api.Text.{Text}
use business2api.Logger.Store.{LogEntry, RingStore, recent, recent_loop, read_limit, wanted}

pub read_limit_bounds : (limit : ℤ) → (1 ≤ read_limit limit) × (read_limit limit ≤ 1000)
unfolding read_limit
read_limit_bounds (pos n) = ground arith
read_limit_bounds (negsuc n) = omega arith

recent_loop-take :
    (wants : LogEntry → Bool) (limit left taken : ℕ) (es : List LogEntry)
    → limit ≡ taken + suc left
    → recent_loop wants limit taken es ≡ take (suc left) (keep wants es)
unfolding recent_loop
recent_loop-take wants limit left taken [] h = refl
recent_loop-take wants limit zero taken (e ∷ es) h = elim (Bool-cases (wants e)) [
  | inl takes ↦ let full : leb limit (taken + 1) ≡ true = ground arith in rw (takes, full) refl
  | inr skips ↦ rw skips (recent_loop-take wants limit zero taken es h)
]
recent_loop-take wants limit (suc left) taken (e ∷ es) h = elim (Bool-cases (wants e)) [
  | inl takes ↦
      let free : leb limit (taken + 1) ≡ false = ground arith in
      rw (takes, free)
        (ap (λ rest. e ∷ rest) (recent_loop-take wants limit left (taken + 1) es (omega arith)))
  | inr skips ↦ rw skips (recent_loop-take wants limit (suc left) taken es h)
]

-- `Recent` gives the newest lines that match the filters, as many as the limit allows, in the order
-- in which they came.
pub recent-take :
    (limit : ℤ) (source level : Text) (store : RingStore)
    → recent limit source level store
      ≡ reverse (take (read_limit limit) (keep (wanted source level) (reverse store.entries)))
unfolding recent
recent-take limit source level store =
    let bounds = read_limit_bounds limit in
    let e : suc (read_limit limit - 1) ≡ read_limit limit = omega arith in
    ap reverse (
      recent_loop-take (wanted source level) (read_limit limit) (read_limit limit - 1) 0
        (reverse store.entries) (omega arith)
      ∙ ap (λ n. take n (keep (wanted source level) (reverse store.entries))) e)
