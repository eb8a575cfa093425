-- ===== src/Proxy/Manager.antt =====
-- src/proxy/proxy.go, `ProxyManager`: which node the next request goes through, and the instances
-- that run. Nodes and instances are shared objects, so each kind has a heap and the lists hold
-- pointers. Of a node the fields that describe the connection are left out, but for its link and its
-- protocol. The mutex makes each operation one step.
use business2api.Base.{
  ℕ, ◌+◌, ◌*◌, Bool, true, not, ◌&&◌, ◌||◌, List, [], ◌∷◌, ◌++◌, Option, none, some, ltb, leb, ◌==◌,
  if◌then◌else◌, elem, min,
}
use business2api.Text.{Text, codes, eqb}

abbrev pub second : ℕ
second = 1_000_000_000

pub record ProxyNode : Type 0 where
  pub raw : Text
  pub protocol : Text
  pub last_used : ℕ
  pub fail_count : ℕ
  pub use_cooldown : ℕ

pub data InstanceStatus : Type 0 where
  idle in_use stopped : InstanceStatus

pub record ProxyInstance : Type 0 where
  pub local_port : ℕ
  pub node : ℕ
  pub running : Bool
  pub status : InstanceStatus
  pub last_used : ℕ
  pub proxy_url : Text

pub record ProxyManager : Type 0 where
  pub node_heap : ℕ → ProxyNode
  pub nodes : List ℕ
  pub healthy_nodes : List ℕ
  pub instance_heap : ℕ → ProxyInstance
  pub next_instance : ℕ
  pub instance_pool : List ℕ

abbrev pub write {ℓ} : {A : Type ℓ} → (ℕ → A) → ℕ → A → ℕ → A
write heap p a q = if p == q then a else heap q

-- The first occurrence of a pointer is taken out: `append(l[:i], l[i+1:]...)`.
unfoldable pub without : ℕ → List ℕ → List ℕ
without p [] = []
without p (q ∷ qs) = if q == p then qs else q ∷ without p qs

-- A node is free when its cooldown, 5 seconds by default, is over and it has failed less than 3 times.
unfoldable pub is_free : ℕ → ProxyNode → Bool
is_free now node =
    let cooldown = if node.use_cooldown == 0 then 5 * second else node.use_cooldown in
    not (ltb now (node.last_used + cooldown)) && not (leb 3 node.fail_count)

unfoldable pub first_free : ℕ → (ℕ → ProxyNode) → List ℕ → Option ℕ
unfolding is_free
first_free now heap [] = none
first_free now heap (p ∷ ps) =
    let rest = first_free now heap ps in if is_free now (heap p) then some p else rest

-- The loop for the node that was used the longest ago, with the best one so far.
unfoldable pub oldest : (ℕ → ProxyNode) → ℕ → List ℕ → ℕ
oldest heap best [] = best
oldest heap best (p ∷ ps) =
    let newer = oldest heap best ps in
    let older = oldest heap p ps in
    if ltb (heap p).last_used (heap best).last_used then older else newer

unfoldable pub oldest_of : (ℕ → ProxyNode) → List ℕ → Option ℕ
unfolding oldest
oldest_of heap [] = none
oldest_of heap (p ∷ ps) = some (oldest heap p ps)

abbrev pub or_else : Option ℕ → Option ℕ → Option ℕ
or_else none other = other
or_else (some p) other = some p

-- The healthy nodes first, then all nodes; if none is free, the one used the longest ago.
unfoldable pub select : ℕ → ProxyManager → Option ℕ
unfolding first_free oldest_of
select now pm = or_else (first_free now pm.node_heap pm.healthy_nodes) (
    or_else (first_free now pm.node_heap pm.nodes)
      (or_else (oldest_of pm.node_heap pm.healthy_nodes) (oldest_of pm.node_heap pm.nodes)))

-- The selected node goes to the end of the list that it is taken from. The two lists are arrays of
-- their own, as the loader and the health check build them.
unfoldable pub rotate : ℕ → ProxyManager → ProxyManager
unfolding without
rotate p pm =
    if elem p pm.healthy_nodes
    then record pm { healthy_nodes = without p pm.healthy_nodes ++ p ∷ [] }
    else if elem p pm.nodes
    then record pm { nodes = without p pm.nodes ++ p ∷ [] }
    else pm

-- `startInstanceLocked`: `launch` starts the sing-box process of a node and gives its address and
-- port, or nothing when that fails.
module _ (launch : ProxyNode → Option (Text × ℕ)) where
  unfoldable pub start_instance : ℕ → ProxyManager → Option (Text × ℕ)
  start_instance p pm =
      let node = pm.node_heap p in
      if eqb node.protocol (codes "http")
        || eqb node.protocol (codes "https")
        || eqb node.protocol (codes "socks5")
      then some (node.raw, 0)
      else launch node

  -- An instance that has started is in use and is kept track of.
  unfoldable pub track : ℕ → ℕ → Text × ℕ → ProxyManager → ProxyManager
  track now p (url, port) pm = record pm {
    instance_heap = write pm.instance_heap pm.next_instance (record {
      local_port = port;
      node = p;
      running = true;
      status = in_use;
      last_used = now;
      proxy_url = url;
    });
    next_instance = pm.next_instance + 1;
    instance_pool = pm.instance_pool ++ pm.next_instance ∷ [];
  }

  -- A node that does not start waits 10 seconds for each failure.
  unfoldable pub fail_start : ℕ → ProxyManager → ProxyManager
  fail_start p pm =
      let node = pm.node_heap p in
      let failures = node.fail_count + 1 in
      record pm {
        node_heap =
            write pm.node_heap p
              (record node { fail_count = failures; use_cooldown = failures * (10 * second) });
      }

  unfoldable pub launch_node : ℕ → ProxyManager → ℕ → ProxyManager × Text
  unfolding start_instance track fail_start
  launch_node now pm p = elim (start_instance p pm) [
    | none ↦ (fail_start p pm, [])
    | some started ↦ (track now p started pm, started.0)
  ]

  unfoldable pub use_node : ℕ → ProxyManager → ℕ → ProxyManager × Text
  unfolding rotate launch_node
  use_node now pm p =
      let touched = record pm {
        node_heap = write pm.node_heap p (record (pm.node_heap p) { last_used = now });
      } in
      launch_node now (rotate p touched) p

  -- `Next` at the time `now`; the empty string says that there is no proxy.
  unfoldable pub next : ℕ → ProxyManager → ProxyManager × Text
  unfolding select use_node
  next now pm = elim (select now pm) [ none ↦ (pm, []) | some p ↦ use_node now pm p ]

-- The first instance of the pool with that address. Every instance of the pool has a node.
unfoldable pub instance_of : (ℕ → ProxyInstance) → Text → List ℕ → Option ℕ
instance_of heap url [] = none
instance_of heap url (i ∷ is) =
    let rest = instance_of heap url is in if eqb (heap i).proxy_url url then some i else rest

abbrev pub on_node : (ProxyNode → ProxyNode) → Text → ProxyManager → ProxyManager
on_node f url pm = elim (instance_of pm.instance_heap url pm.instance_pool) [
  | none ↦ pm
  | some i ↦
      let p = (pm.instance_heap i).node in
      record pm { node_heap = write pm.node_heap p (f (pm.node_heap p)) }
]

-- 15 seconds for each failure, 2 minutes at most.
unfoldable pub punish : ProxyNode → ProxyNode
punish node =
    let failures = node.fail_count + 1 in
    record node {
      fail_count = failures;
      use_cooldown = min (failures * (15 * second)) (120 * second);
    }

unfoldable pub mark_proxy_failed : Text → ProxyManager → ProxyManager
unfolding instance_of punish
mark_proxy_failed url pm = on_node punish url pm

unfoldable pub mark_proxy_success : Text → ProxyManager → ProxyManager
unfolding instance_of
mark_proxy_success url pm =
    on_node (λ node. record node { fail_count = 0; use_cooldown = 5 * second }) url pm
