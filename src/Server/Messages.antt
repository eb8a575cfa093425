-- ===== src/Server/Messages.antt =====
-- src/pool/pool_server.go, `handleMessage`: a message of a connected client.
use business2api.Base.{ℕ, Bool, List, Option, none, some}
use business2api.Text.{Text}
use business2api.Pool.Account.{Settings}
use business2api.Pool.Worker.{Outside}
use business2api.Pool.Jwt.{Codecs}
use business2api.Server.{PoolServer, WsClient}
use business2api.Server.Assign.{assign_task}
use business2api.Server.Results.{
  CookiesData, handle_register_result, handle_refresh_result, send_status_to,
}

-- What the server reads of a message. The threads are the whole part of a positive number, and the
-- version is a string, where the client sends them.
pub data ClientMessage : Type 0 where
  heartbeat_ack : ClientMessage
  client_ready : Option ℕ → Option Text → ClientMessage
  request_task : ClientMessage
  register_result : Bool → ClientMessage
  refresh_result : Text → Bool → Option CookiesData → ClientMessage
  query_status : ClientMessage
  unknown : ClientMessage

abbrev ready_client : Option ℕ → Option Text → WsClient → WsClient
ready_client max version client = record client {
  max_threads = elim max [ none ↦ 1 | some n ↦ n ];
  client_version = elim version [ none ↦ client.client_version | some v ↦ v ];
}

module _ (codecs : Codecs) (s : Settings) (out : Outside) (now : ℕ) (files : List Text) where
  -- The client and the server after the message. `none` is the end of the process.
  unfoldable pub handle_message :
      ClientMessage → WsClient → PoolServer → Option (WsClient × PoolServer)
  unfolding assign_task handle_register_result handle_refresh_result send_status_to
  handle_message msg client ps =
      let seen = record client { last_ping = now } in
      elim msg [
        | heartbeat_ack ↦ some (seen, ps)
        | client_ready max version ↦ some (assign_task s out now (ready_client max version seen) ps)
        | request_task ↦ some (assign_task s out now seen ps)
        | register_result success ↦
            some (seen, handle_register_result codecs s out now files success ps)
        | refresh_result email success cookies ↦
            elim (handle_refresh_result codecs s out now email success cookies ps) [
              | none ↦ none
              | some ps' ↦ some (seen, ps')
            ]
        | query_status ↦ some (send_status_to codecs s out now seen ps, ps)
        | unknown ↦ some (seen, ps)
      ]
