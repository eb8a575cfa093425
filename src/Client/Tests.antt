-- ===== src/Client/Tests.antt =====
-- Runs of a client of src/pool/pool_client.go, and the theorem at a concrete input.
use business2api.Base.{◌≡◌, refl, true, false, [], ◌∷◌, none, pos, negsuc, if◌then◌else◌, ◌==◌}
use business2api.Text.{codes}
use business2api.Pool.Samples.{session_cookie}
use business2api.Pool.Worker.{BrowserRefreshResult}
use business2api.Client.{
  write_pump, send_message, PoolClient, Work, registered, new_pool_client, do_periodic_register,
  acquire, finish_at, handle_register_task, register_report, own_share,
}
use business2api.Client.Uploads.{RegisterResult, stored, upload_error, register_request}
use business2api.Client.Threads.{
  starts, continues, ticks, acquires, finishes, writes, IsAccounted, Reached-IsAccounted,
}

abbrev new_account : RegisterResult
new_account = record {
  email = codes "a@b.c";
  full_name = codes "A B";
  mail_provider = [];
  mail_password = [];
  secure_cookies = session_cookie ∷ session_cookie ∷ [];
  authorization = codes "Bearer x";
  config_id = codes "cfg";
  csesidx = codes "7";
}

abbrev no_refresh : BrowserRefreshResult
no_refresh = record {
  success = false;
  secure_cookies = [];
  config_id = [];
  csesidx = [];
  authorization = [];
  response_headers = [];
}

-- The upload is taken at the third try.
abbrev work : Work
work = record {
  register = registered new_account;
  refresh = λ task. no_refresh;
  refresh_error = none;
  uploads = λ req i. if i == 2 then stored else upload_error (codes "busy");
}

cookie_string_of_account : (register_request new_account).cookie_string ≡ codes "c=v; c=v"
unfolding register_request
cookie_string_of_account = refl

third_try : handle_register_task work ≡ register_report true (codes "a@b.c") []
unfolding handle_register_task
third_try = refl

share_of_need : own_share (pos 2) (pos 5) ≡ 2
unfolding own_share
share_of_need = refl

share_of_none : own_share (pos 2) (negsuc 5) ≡ 0
unfolding own_share
share_of_none = refl

-- A client with one thread registers on its own, and its account is stored.
abbrev one_thread : PoolClient
one_thread = new_pool_client (pos 1)

abbrev busy_client : PoolClient
busy_client = acquire (do_periodic_register one_thread)

abbrev reported : PoolClient
reported = finish_at 0 work busy_client

Reached-IsAccounted_example : IsAccounted (pos 1) 1 1 0 (write_pump reported).0
unfolding new_pool_client do_periodic_register acquire finish_at handle_register_task write_pump
    send_message
Reached-IsAccounted_example = Reached-IsAccounted (pos 1) 1 1 0 (write_pump reported).0 (
    continues 1 0 0 0 1 0 reported (write_pump reported).0
      (continues 1 0 0 0 0 0 busy_client reported
        (continues 1 0 0 0 0 0 (do_periodic_register one_thread) busy_client
          (continues 0 0 0 1 0 0 one_thread (do_periodic_register one_thread) starts
            (ticks one_thread))
          (acquires (do_periodic_register one_thread)))
        (finishes 0 work busy_client))
      (writes reported))
