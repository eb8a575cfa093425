-- ===== src/Proxy/Tests.antt =====
-- Runs of the proxy manager, src/proxy/proxy.go, and the theorems at concrete inputs.
use business2api.Base.{ℕ, ◌*◌, ◌≡◌, refl, true, [], ◌∷◌, Option, none, some, ◌==◌, if◌then◌else◌}
use business2api.Text.{Text, codes, eqb}
use business2api.Proxy.Manager.{
  ProxyNode, ProxyManager, idle, second, select, first_free, is_free, next, use_node, launch_node,
  start_instance, track, rotate, without, mark_proxy_failed, instance_of, punish,
}
use business2api.Proxy.Selection.{Selection, select-Selection}
use business2api.Proxy.Instances.{get_from_pool, first_idle}

-- Node 0 was used a moment ago, node 1 long ago, and node 2 has failed too often.
abbrev node : ℕ → ProxyNode
node p = record {
  raw = codes "http://p";
  protocol = if p == 2 then codes "vmess" else codes "http";
  last_used = if p == 0 then 99 * second else 0;
  fail_count = if p == 2 then 3 else 0;
  use_cooldown = 0;
}

abbrev manager : ProxyManager
manager = record {
  node_heap = node;
  nodes = 2 ∷ 1 ∷ 0 ∷ [];
  healthy_nodes = 0 ∷ 1 ∷ [];
  instance_heap = λ i. record {
    local_port = 0;
    node = 1;
    running = true;
    status = idle;
    last_used = 0;
    proxy_url = codes "http://p";
  };
  next_instance = 5;
  instance_pool = 4 ∷ [];
}

abbrev no_launch : ProxyNode → Option (Text × ℕ)
no_launch n = none

goes_through : (next no_launch (100 * second) manager).1 ≡ codes "http://p"
unfolding next select first_free is_free use_node launch_node start_instance track rotate without
    eqb
goes_through = refl

goes_last : (next no_launch (100 * second) manager).0.healthy_nodes ≡ 0 ∷ 1 ∷ []
unfolding next select first_free is_free use_node launch_node start_instance track rotate without
    eqb
goes_last = refl

punished : ((mark_proxy_failed (codes "http://p") manager).node_heap 1).use_cooldown ≡ 15 * second
unfolding mark_proxy_failed instance_of punish eqb
punished = refl

select-Selection_example : Selection (100 * second) manager (select (100 * second) manager)
select-Selection_example = select-Selection (100 * second) manager

lends : (get_from_pool 7 manager).1 ≡ some 4
unfolding get_from_pool first_idle
lends = refl
