-- ===== src/Proxy/Selection.antt =====
-- src/proxy/proxy.go, `Next`: which node is selected.
use business2api.Base.{
  ℕ, ◌≤◌, ◌≡◌, refl, sym, subst, true, false, List, [], ◌∷◌, Option, none, some, arith, elem, null,
  All, ltb, if◌then◌else◌, Bool-cases, Option-cases, inl, inr, ◌⊎◌,
}
use business2api.Proxy.Manager.{
  ProxyNode, ProxyManager, is_free, first_free, oldest, oldest_of, select,
}

some-injective : (p q : ℕ) → some p ≡ some q → p ≡ q
some-injective p q e = ground arith

module _ (now : ℕ) (heap : ℕ → ProxyNode) where
  abbrev pub IsBusy : ℕ → Type 0
  IsBusy p = is_free now (heap p) ≡ false

  first_free-some :
      (ps : List ℕ) (p : ℕ)
      → first_free now heap ps ≡ some p
      → (elem p ps ≡ true) × (is_free now (heap p) ≡ true)
  unfolding first_free
  first_free-some [] p e = cc
  first_free-some (q ∷ ps) p e = elim (Bool-cases (is_free now (heap q))) [
    | inl free ↦ ground arith
    | inr busy ↦ ground (arith, first_free-some ps p)
  ]

  first_free-none : (ps : List ℕ) → first_free now heap ps ≡ none → All IsBusy ps
  unfolding first_free
  first_free-none [] e = tt
  first_free-none (q ∷ ps) e = elim (Bool-cases (is_free now (heap q))) [
    | inl free ↦ ground arith
    | inr busy ↦ (busy, first_free-none ps (rw (busy, first_free) at e))
  ]

  -- The node `p` was used no later than any of the list.
  abbrev pub IsOldest : List ℕ → ℕ → Type 0
  IsOldest ps p = All (λ q. (heap p).last_used ≤ (heap q).last_used) ps

  oldest-older :
      (best p : ℕ) (ps : List ℕ)
      → ltb (heap p).last_used (heap best).last_used ≡ true
      → oldest heap best (p ∷ ps) ≡ oldest heap p ps
  unfolding oldest
  oldest-older best p ps e = rw e refl

  oldest-newer :
      (best p : ℕ) (ps : List ℕ)
      → ltb (heap p).last_used (heap best).last_used ≡ false
      → oldest heap best (p ∷ ps) ≡ oldest heap best ps
  unfolding oldest
  oldest-newer best p ps e = rw e refl

  -- One of the nodes, used no later than any of them.
  abbrev pub Wins : List ℕ → ℕ → Type 0
  Wins ps p = (elem p ps ≡ true) × IsOldest ps p

  insert_best :
      (best p r : ℕ) (ps : List ℕ)
      → Wins (p ∷ ps) r
      → (heap r).last_used ≤ (heap best).last_used
      → Wins (best ∷ p ∷ ps) r
  insert_best best p r ps (m, (first, rest)) low = (ground (arith, m), (low, (first, rest)))

  insert_second :
      (best p r : ℕ) (ps : List ℕ)
      → Wins (best ∷ ps) r
      → (heap r).last_used ≤ (heap p).last_used
      → Wins (best ∷ p ∷ ps) r
  insert_second best p r ps (m, (first, rest)) low = (ground (arith, m), (first, (low, rest)))

  no_later : (p r : ℕ) (ps : List ℕ) → Wins (p ∷ ps) r → (heap r).last_used ≤ (heap p).last_used
  no_later p r ps (m, (first, rest)) = first

  oldest-Wins : (best : ℕ) (ps : List ℕ) → Wins (best ∷ ps) (oldest heap best ps)
  oldest-Wins best [] = unfold oldest in (ground arith, (omega arith, tt))
  oldest-Wins best (p ∷ ps) = elim (Bool-cases (ltb (heap p).last_used (heap best).last_used)) [
    | inl older ↦
        let ih = oldest-Wins p ps in
        let low = no_later p (oldest heap p ps) ps ih in
        subst (Wins (best ∷ p ∷ ps)) (sym (oldest-older best p ps older))
          (insert_best best p (oldest heap p ps) ps ih (ground (arith, low)))
    | inr newer ↦
        let ih = oldest-Wins best ps in
        let low = no_later best (oldest heap best ps) ps ih in
        subst (Wins (best ∷ p ∷ ps)) (sym (oldest-newer best p ps newer))
          (insert_second best p (oldest heap best ps) ps ih (ground (arith, low)))
  ]

  oldest_of-some :
      (ps : List ℕ) (p : ℕ) → oldest_of heap ps ≡ some p → Wins ps p × (null ps ≡ false)
  unfolding oldest_of
  oldest_of-some [] p e = cc
  oldest_of-some (q ∷ ps) p e =
      (subst (Wins (q ∷ ps)) (some-injective _ _ e) (oldest-Wins q ps), refl)

  oldest_of-none : (ps : List ℕ) → oldest_of heap ps ≡ none → ps ≡ []
  unfolding oldest_of
  oldest_of-none [] e = refl
  oldest_of-none (q ∷ ps) e = cc

-- The selected node is a free one among the healthy, or no healthy node is free and it is a free one
-- among all, or no node is free at all and it was used no later than any healthy node, or than any
-- node if none is healthy. There is none only if both lists are empty.
abbrev pub Selection : ℕ → ProxyManager → Option ℕ → Type 0
Selection now pm none = (pm.healthy_nodes ≡ []) × (pm.nodes ≡ [])
Selection now pm (some p) =
    ((elem p pm.healthy_nodes ≡ true) × (is_free now (pm.node_heap p) ≡ true))
    ⊎ (All (IsBusy now pm.node_heap) pm.healthy_nodes
        × (((elem p pm.nodes ≡ true) × (is_free now (pm.node_heap p) ≡ true))
            ⊎ (All (IsBusy now pm.node_heap) pm.nodes
                × Wins now pm.node_heap
                    (if null pm.healthy_nodes then pm.nodes else pm.healthy_nodes) p)))

-- `Next` selects a healthy node that is free, if there is one. Else it selects any free node, if there
-- is one. If all are in use, it selects the one that was used the longest ago, of the healthy nodes if
-- there are any and else of all. Only where there is no node at all it selects none.
pub select-Selection : (now : ℕ) (pm : ProxyManager) → Selection now pm (select now pm)
unfolding select
select-Selection now pm = elim (Option-cases (first_free now pm.node_heap pm.healthy_nodes)) [
  | inr (p, e) ↦ rw e (inl (first_free-some now pm.node_heap pm.healthy_nodes p e))
  | inl none_healthy ↦
      let busy = first_free-none now pm.node_heap pm.healthy_nodes none_healthy in
      elim (Option-cases (first_free now pm.node_heap pm.nodes)) [
        | inr (p, e) ↦
            rw (none_healthy, e) (inr (busy, inl (first_free-some now pm.node_heap pm.nodes p e)))
        | inl none_free ↦
            let all_busy = first_free-none now pm.node_heap pm.nodes none_free in
            elim (Option-cases (oldest_of pm.node_heap pm.healthy_nodes)) [
              | inr (p, e) ↦
                  let here = oldest_of-some now pm.node_heap pm.healthy_nodes p e in
                  rw (none_healthy, none_free, e) (inr (busy, inr (all_busy, rw here.1 here.0)))
              | inl no_healthy ↦
                  let empty = oldest_of-none now pm.node_heap pm.healthy_nodes no_healthy in
                  elim (Option-cases (oldest_of pm.node_heap pm.nodes)) [
                    | inr (p, e) ↦
                        let here = oldest_of-some now pm.node_heap pm.nodes p e in
                        rw (none_healthy, none_free, no_healthy, e)
                          (inr (busy, inr (all_busy, rw empty here.0)))
                    | inl no_nodes ↦
                        rw (none_healthy, none_free, no_healthy, no_nodes)
                          (empty, oldest_of-none now pm.node_heap pm.nodes no_nodes)
                  ]
            ]
      ]
]
