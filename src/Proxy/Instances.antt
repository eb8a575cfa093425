-- ===== src/Proxy/Instances.antt =====
-- src/proxy/proxy.go: the instances that are lent and given back.
use business2api.Base.{
  ℕ, ◌≡◌, ◌≢◌, ap, ◌∙◌, Bool, true, false, ◌&&◌, List, [], ◌∷◌, Option, none, some, arith,
  if◌then◌else◌, elem, Option-cases, Bool-cases, inl, inr,
}
use business2api.Text.{Text}
use business2api.Proxy.Manager.{
  ProxyInstance, ProxyManager, InstanceStatus, idle, in_use, write, without, instance_of,
}

abbrev pub is_idle : InstanceStatus → Bool
is_idle idle = true
is_idle _ = false

unfoldable pub first_idle : (ℕ → ProxyInstance) → List ℕ → Option ℕ
first_idle heap [] = none
first_idle heap (i ∷ is) =
    let rest = first_idle heap is in
    if is_idle (heap i).status && (heap i).running then some i else rest

-- The instance is in use from now on.
abbrev pub lend : ℕ → ℕ → ProxyManager → ProxyManager
lend i now pm = record pm {
  instance_heap =
      write pm.instance_heap i (record (pm.instance_heap i) { status = in_use; last_used = now });
}

unfoldable pub get_from_pool : ℕ → ProxyManager → ProxyManager × Option ℕ
unfolding first_idle
get_from_pool now pm = elim (first_idle pm.instance_heap pm.instance_pool) [
  | none ↦ (pm, none)
  | some i ↦ (lend i now pm, some i)
]

unfoldable pub return_to_pool : ℕ → ProxyManager → ProxyManager
return_to_pool i pm = record pm {
  instance_heap = write pm.instance_heap i (record (pm.instance_heap i) { status = idle });
}

-- `ReleaseByURL`: the second part is the port of the process to stop.
unfoldable pub release_by_url : Text → ProxyManager → ProxyManager × Option ℕ
unfolding instance_of without
release_by_url url pm = elim (instance_of pm.instance_heap url pm.instance_pool) [
  | none ↦ (pm, none)
  | some i ↦ (
    record pm { instance_pool = without i pm.instance_pool },
    some (pm.instance_heap i).local_port,
  )
]

first_idle-some :
    (heap : ℕ → ProxyInstance) (is : List ℕ) (i : ℕ)
    → first_idle heap is ≡ some i
    → (is_idle (heap i).status && (heap i).running ≡ true) × (elem i is ≡ true)
unfolding first_idle
first_idle-some heap [] i e = cc
first_idle-some heap (j ∷ is) i e =
    elim (Bool-cases (is_idle (heap j).status && (heap j).running)) [
      | inl free ↦ ground arith
      | inr taken ↦ ground (arith, first_idle-some heap is i)
    ]

lent_status :
    (heap : ℕ → ProxyInstance) (i now : ℕ)
    → is_idle (write heap i (record (heap i) { status = in_use; last_used = now }) i).status ≡ false
lent_status heap i now = ground arith

none-ne-some : (i : ℕ) → none ≢ some i
none-ne-some i e = cc

some-injective : (i j : ℕ) → some i ≡ some j → i ≡ j
some-injective i j e = ground arith

get_from_pool-lent :
    (now : ℕ) (pm : ProxyManager) (i : ℕ)
    → (get_from_pool now pm).1 ≡ some i
    → (first_idle pm.instance_heap pm.instance_pool ≡ some i)
      × ((get_from_pool now pm).0 ≡ lend i now pm)
unfolding get_from_pool
get_from_pool-lent now pm i e = elim (Option-cases (first_idle pm.instance_heap pm.instance_pool)) [
  | inl absent ↦ absurd (none-ne-some i (rw (absent, get_from_pool) at e))
  | inr (j, found) ↦
      let same : j ≡ i = some-injective j i (rw (found, get_from_pool) at e) in
      (found ∙ ap (λ k. some k) same, rw (found, get_from_pool) (ap (λ k. lend k now pm) same))
]

-- `GetFromPool` lends an instance of the pool that ran idle, and does not lend it once more while it
-- is in use.
pub get_from_pool-first_idle :
    (now later : ℕ) (pm : ProxyManager) (i : ℕ)
    → (get_from_pool now pm).1 ≡ some i
    → (is_idle (pm.instance_heap i).status && (pm.instance_heap i).running ≡ true)
      × (elem i pm.instance_pool ≡ true)
      × ((get_from_pool later (get_from_pool now pm).0).1 ≢ some i)
get_from_pool-first_idle now later pm i e =
    let lent = get_from_pool-lent now pm i e in
    let here = first_idle-some pm.instance_heap pm.instance_pool i lent.0 in
    (here.0, here.1, λ again. twice (lent.1) again)
  where
    twice :
        (get_from_pool now pm).0 ≡ lend i now pm
        → (get_from_pool later (get_from_pool now pm).0).1 ≡ some i
        → ⊥
    twice same again =
        let next = get_from_pool-lent later (lend i now pm) i (rw same at again) in
        let free = (first_idle-some (lend i now pm).instance_heap pm.instance_pool i next.0).0 in
        let used = lent_status pm.instance_heap i now in ground (arith, free, used)
