-- ===== src/Server/Broadcast/Need.antt =====
-- src/pool/pool_server.go, `broadcastRegisterTasks` and `poolMaintainer`: how many tasks go out.
use business2api.Base.{
  ℕ, ◌+◌, ◌-◌, ◌^◌, ◌<◌, ◌≡◌, refl, ap, ◌∙◌, List, [], ◌∷◌, min, arith, add_int32, int32,
  difference,
}
use business2api.Server.{PoolServer, WsClient, need_count, shortage}
use business2api.Server.Broadcast.{
  offer, broadcast_loop, maintain_loop, broadcast_register_tasks, pool_maintainer, waiting,
  live_room, offer-room, offer-Sent, broadcast_loop-maintain_loop,
}

-- The maintenance hands out what the live clients can take, and no more than the need.
maintain_loop-room :
    (now need : ℕ) (cs : List WsClient)
    → let r = maintain_loop now need cs in
      (r.1 ≡ min need (live_room cs)) × (waiting r.0 ≡ waiting cs + r.1)
unfolding maintain_loop
maintain_loop-room now need [] = (omega arith, refl)
maintain_loop-room now need (c ∷ cs) =
    let n = (offer now need c).1 in
    ground
      (arith, offer-room now need c, offer-Sent now need c, maintain_loop-room now (need - n) cs)

broadcast_loop-start :
    (now need : ℕ) (cs : List WsClient) → broadcast_loop now need 0 cs ≡ maintain_loop now need cs
broadcast_loop-start now need cs =
    broadcast_loop-maintain_loop now need 0 cs ∙ ap (λ n. maintain_loop now n cs) (omega arith)

broadcast_loop-room :
    (now need : ℕ) (cs : List WsClient)
    → let r = broadcast_loop now need 0 cs in
      (r.1 ≡ min need (live_room cs)) × (waiting r.0 ≡ waiting cs + r.1)
broadcast_loop-room now need cs =
    rw (broadcast_loop-start now need cs) (maintain_loop-room now need cs)

-- The broadcast and the maintenance step are the same change of the server.
pub broadcast_register_tasks-pool_maintainer :
    (now : ℕ) (ps : PoolServer) → broadcast_register_tasks now ps ≡ pool_maintainer now ps
unfolding broadcast_register_tasks pool_maintainer
broadcast_register_tasks-pool_maintainer now ps =
    rw (broadcast_loop-start now (shortage (need_count ps)) ps.clients) refl

-- Where the counter is not negative and does not overflow, the need that is left after a broadcast
-- is what the clients could not take: a second broadcast at once never hands a task out twice.
pub broadcast_register_tasks-shortage :
    (now : ℕ) (ps : PoolServer)
    → ps.pending_register_count + shortage (need_count ps) < 2 ^ 31
    → shortage (need_count (broadcast_register_tasks now ps))
      ≡ shortage (need_count ps) - live_room ps.clients
unfolding broadcast_register_tasks add_int32 need_count shortage int32 difference
broadcast_register_tasks-shortage now ps h =
    ground (arith, broadcast_loop-room now (shortage (need_count ps)) ps.clients)
