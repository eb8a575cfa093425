-- ===== src/Proxy/Rotation.antt =====
-- src/proxy/proxy.go, `Next`: the lists of nodes are only reordered.
use business2api.Base.{
  ℕ, ◌≡◌, refl, true, List, [], ◌∷◌, ◌++◌, Option, arith, elem, count, count-append, Bool-cases,
  Option-cases, inl, inr,
}
use business2api.Text.{Text}
use business2api.Proxy.Manager.{
  ProxyNode, ProxyManager, without, rotate, next, use_node, launch_node, write, select, track,
  fail_start, start_instance,
}

count-without :
    (p q : ℕ) (xs : List ℕ) → elem p xs ≡ true → count q (without p xs ++ p ∷ []) ≡ count q xs
unfolding without
count-without p q [] e = cc
count-without p q (x ∷ xs) e = ground (arith, count-append q xs (p ∷ []), count-without p q xs)

-- Every node stands in both lists as often as before.
abbrev pub SameNodes : ProxyManager → ProxyManager → Type 0
SameNodes before after =
    (q : ℕ)
    → (count q after.healthy_nodes ≡ count q before.healthy_nodes)
      × (count q after.nodes ≡ count q before.nodes)

rotate-SameNodes : (p : ℕ) (pm : ProxyManager) → SameNodes pm (rotate p pm)
unfolding rotate
rotate-SameNodes p pm q = elim (Bool-cases (elem p pm.healthy_nodes)) [
  | inl healthy ↦ rw healthy (count-without p q pm.healthy_nodes healthy, refl)
  | inr other ↦ elim (Bool-cases (elem p pm.nodes)) [
    | inl listed ↦ rw (other, listed) (refl, count-without p q pm.nodes listed)
    | inr unlisted ↦ rw (other, unlisted) (refl, refl)
  ]
]

module _ (launch : ProxyNode → Option (Text × ℕ)) where
  launch_node-lists :
      (now : ℕ) (pm : ProxyManager) (p : ℕ)
      → ((launch_node launch now pm p).0.healthy_nodes ≡ pm.healthy_nodes)
        × ((launch_node launch now pm p).0.nodes ≡ pm.nodes)
  unfolding launch_node track fail_start
  launch_node-lists now pm p = elim (Option-cases (start_instance launch p pm)) [
    | inl fails ↦ rw (fails, launch_node) (refl, refl)
    | inr (started, e) ↦ rw (e, launch_node) (refl, refl)
  ]

  use_node-SameNodes :
      (now : ℕ) (pm : ProxyManager) (p : ℕ) → SameNodes pm (use_node launch now pm p).0
  unfolding use_node
  use_node-SameNodes now pm p q =
      let touched = record pm {
        node_heap = write pm.node_heap p (record (pm.node_heap p) { last_used = now });
      } in
      let lists = launch_node-lists now (rotate p touched) p in
      rw (lists.0, lists.1) (rotate-SameNodes p touched q)

  -- Whether the node starts or not, a call of `Next` only reorders the lists of nodes.
  pub next-SameNodes : (now : ℕ) (pm : ProxyManager) → SameNodes pm (next launch now pm).0
  unfolding next
  next-SameNodes now pm q = elim (Option-cases (select now pm)) [
    | inl absent ↦ rw (absent, next) (refl, refl)
    | inr (p, found) ↦ rw (found, next) (use_node-SameNodes now pm p q)
  ]
