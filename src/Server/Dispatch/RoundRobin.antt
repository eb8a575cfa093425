-- ===== src/Server/Dispatch/RoundRobin.antt =====
-- src/pool/pool_server.go, `assignTaskRoundRobin`: each live client is tried, once.
use business2api.Base.{
  ℕ, ◌+◌, ◌-◌, ◌%◌, ◌<◌, ◌≡◌, All, ◌&&◌, Bool, true, false, List, some, leb, if◌then◌else◌, length,
  get_elem?,
}
use business2api.Server.{PoolServer, WsClient, WsMessage, has_room}
use business2api.Server.Dispatch.{alive_of, deliver}

-- How many steps it is from `i` on to `t`, round a circle of `n`.
pub gap : ℕ → ℕ → ℕ → ℕ
gap n i t = if leb i t then t - i else t + n - i

-- No client that the search from `start` on meets before the place `spot` has room.
abbrev pub NoneBefore : List WsClient → ℕ → ℕ → Type 0
NoneBefore alive start spot =
    (t : ℕ) (other : WsClient)
    → gap (length alive) (start % length alive) t < gap (length alive) (start % length alive) spot
    → get_elem? alive t ≡ some other
    → has_room other ≡ false

-- The client that a search from `start` on finds is the first in the circle whose channel has room,
-- and the next search starts behind it.
pub record Found (alive : List WsClient) (start : ℕ) (client : WsClient) (idx : ℕ) : Type 0 where
  pub spot : ℕ
  pub stands : get_elem? alive spot ≡ some client
  pub room : has_room client ≡ true
  pub first : NoneBefore alive start spot
  pub next_idx : idx ≡ spot + 1

-- The client is not alive or its channel is full.
abbrev pub IsClosed : WsClient → Type 0
IsClosed c = (c.is_alive && has_room c) ≡ false

-- What becomes of a task, where `order` lists the clients: of the live ones, the first that has room,
-- from the index on, takes it at the back of its queue; or no live client of the server has room, and
-- no channel is touched.
pub data Assigned (order : List WsClient) (msg : WsMessage) (ps : PoolServer)
    : PoolServer × Bool → Type 0 where
  delivered :
      (client : WsClient) (idx : ℕ)
      → Found (alive_of order) ps.next_client_idx client idx
      → Assigned order msg ps
          (record ps { next_client_idx = idx; clients = deliver client.id msg ps.clients }, true)
  refused :
      (idx : ℕ)
      → All IsClosed ps.clients
      → Assigned order msg ps (record ps { next_client_idx = idx }, false)
