-- ===== src/Flow/Select.antt =====
-- src/flow/flow_client.go, `SelectToken`: the ready token that has rested longest.
use business2api.Base.{
  ℕ, ◌≤◌, ◌≡◌, refl, true, false, List, [], ◌∷◌, Option, none, some, arith, ltb, if◌then◌else◌,
  elem, Bool-cases, inl, inr,
}
use business2api.Text.{StringMap}
use business2api.Flow.{FlowToken, is_ready}

-- The better of the best so far and one more ready token.
unfoldable pub better : (ℕ → FlowToken) → Option ℕ → ℕ → Option ℕ
better heap none p = some p
better heap (some b) p = if ltb (heap p).last_used (heap b).last_used then some p else some b

-- The loop over the client's tokens, in the order of the map.
unfoldable pub select_from : (ℕ → FlowToken) → StringMap ℕ → Option ℕ → Option ℕ
unfolding better is_ready
select_from heap [] best = best
select_from heap ((id, p) ∷ es) best =
    let taken = select_from heap es (better heap best p) in
    let skipped = select_from heap es best in if is_ready (heap p) then taken else skipped

unfoldable pub select_token : (ℕ → FlowToken) → StringMap ℕ → Option ℕ
unfolding select_from
select_token heap tokens = select_from heap tokens none

abbrev pub pointers : StringMap ℕ → List ℕ
pointers [] = []
pointers ((id, p) ∷ es) = p ∷ pointers es

-- A ready token of the list that no ready token of the list has rested longer than.
pub record IsBest (heap : ℕ → FlowToken) (ps : List ℕ) (p : ℕ) : Type 0 where
  pub listed : elem p ps ≡ true
  pub ready : is_ready (heap p) ≡ true
  pub rested :
      (q : ℕ)
      → elem q ps ≡ true
      → is_ready (heap q) ≡ true
      → (heap p).last_used ≤ (heap q).last_used

-- The loop ends with the best of what it started with and what it met.
select_from-IsBest :
    (heap : ℕ → FlowToken) (es : StringMap ℕ) (b : ℕ)
    → is_ready (heap b) ≡ true
    → (p : ℕ) × (select_from heap es (some b) ≡ some p) × IsBest heap (b ∷ pointers es) p
unfolding select_from better
select_from-IsBest heap [] b h =
    (b, refl, record { listed = ground arith; ready = h; rested = λ q e r. ground arith })
select_from-IsBest heap ((id, c) ∷ es) b h = elim (Bool-cases (is_ready (heap c))) [
  | inl can ↦ elim (Bool-cases (ltb (heap c).last_used (heap b).last_used)) [
    | inl older ↦
        let (p, e, best) = select_from-IsBest heap es c can in
        (
          p,
          rw (can, older, select_from) e,
          record {
            listed = ground (arith, best.listed);
            ready = best.ready;
            rested = λ q m r. ground (arith, best.rested q, best.rested c);
          },
        )
    | inr newer ↦
        let (p, e, best) = select_from-IsBest heap es b h in
        (
          p,
          rw (can, newer, select_from) e,
          record {
            listed = ground (arith, best.listed);
            ready = best.ready;
            rested = λ q m r. ground (arith, best.rested q, best.rested b);
          },
        )
  ]
  | inr cannot ↦
      let (p, e, best) = select_from-IsBest heap es b h in
      (
        p,
        rw (cannot, select_from) e,
        record {
          listed = ground (arith, best.listed);
          ready = best.ready;
          rested = λ q m r. ground (arith, best.rested q);
        },
      )
]

-- What a selection is, whatever the order of the map: nothing, where no token is ready, or the best.
pub data Selected (heap : ℕ → FlowToken) (ps : List ℕ) : Option ℕ → Type 0 where
  nobody : ((q : ℕ) → elem q ps ≡ true → is_ready (heap q) ≡ false) → Selected heap ps none
  chosen : (p : ℕ) → IsBest heap ps p → Selected heap ps (some p)

Selected-skip :
    (heap : ℕ → FlowToken) (ps : List ℕ) (c : ℕ) (r : Option ℕ)
    → is_ready (heap c) ≡ false
    → Selected heap ps r
    → Selected heap (c ∷ ps) r
Selected-skip heap ps c _ cannot (nobody none_ready) = nobody λ q e. ground (arith, none_ready q)
Selected-skip heap ps c _ cannot (chosen p best) = chosen p (record {
  listed = ground (arith, best.listed);
  ready = best.ready;
  rested = λ q m r. ground (arith, best.rested q);
})

-- Of the client's tokens that are not disabled and count fewer than three errors, one that was used
-- least recently is selected; nothing is selected only if there is no such token.
pub select_token-Selected :
    (heap : ℕ → FlowToken) (tokens : StringMap ℕ)
    → Selected heap (pointers tokens) (select_token heap tokens)
unfolding select_token select_from better
select_token-Selected heap [] = nobody λ q e. cc
select_token-Selected heap ((id, c) ∷ es) = elim (Bool-cases (is_ready (heap c))) [
  | inl can ↦
      let (p, e, best) = select_from-IsBest heap es c can in
      rw (can, select_from) (rw e (chosen p best))
  | inr cannot ↦
      rw (cannot, select_from)
        (Selected-skip heap (pointers es) c _ cannot (select_token-Selected heap es))
]
