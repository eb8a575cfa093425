-- ===== src/Api/Config/Tests.antt =====
-- Runs of the configuration of src/main.go, and the theorem at a concrete input.
use business2api.Base.{ℕ, ◌≡◌, refl, true, false, [], ◌∷◌, pos, negsuc}
use business2api.Text.{codes, eqb, trim_space, lower_ascii}
use business2api.Api.Config.{
  PoolConfig, AppConfig, merge_config, normalize_mail_channel_order, is_positive,
}
use business2api.Api.Config.Merging.{IsRunnable, merge_config-IsRunnable}

abbrev pool_config : ℕ → PoolConfig
pool_config target = record {
  target_count = pos target;
  min_count = pos 10;
  check_interval_minutes = pos 30;
  enable_go_register = false;
  register_threads = pos 1;
  register_headless = true;
  mail_channel_order = codes "chatgpt" ∷ [];
  duck_mail_bearer = [];
  refresh_on_startup = true;
  refresh_cooldown_sec = pos 240;
  use_cooldown_sec = pos 15;
  max_fail_count = pos 3;
  enable_browser_refresh = true;
  browser_refresh_headless = true;
  browser_refresh_max_retry = pos 1;
  auto_delete_401 = false;
  external_refresh_mode = true;
  registrar_base_url = [];
}

abbrev config : PoolConfig → AppConfig ℕ
config pool = record {
  api_keys = [];
  listen_addr = codes ":8000";
  data_dir = codes "./data";
  pool = pool;
  proxy = [];
  proxy_subscribe = [];
  proxy_pool = record {
    proxy = [];
    subscribes = [];
    files = [];
    health_check = true;
    check_on_startup = true;
  };
  default_config = [];
  pool_server = 0;
  debug = false;
  flow = record {
    enable = false;
    tokens = [];
    proxy = [];
    timeout = pos 120;
    poll_interval = pos 3;
    max_poll_attempts = pos 500;
  };
  note = [];
}

abbrev file_config : AppConfig ℕ
file_config =
    config
      (record (pool_config 0) { min_count = negsuc 4; mail_channel_order = codes "unknown" ∷ [] })

-- The target of 0 and the negative minimum of the file do not count.
merged_counts : (merge_config (config (pool_config 50)) file_config).pool.target_count ≡ pos 50
unfolding merge_config is_positive
merged_counts = refl

channels_once :
    normalize_mail_channel_order (codes " DuckMail" ∷ codes "x" ∷ codes "duckmail" ∷ [])
    ≡ codes "duckmail" ∷ []
unfolding normalize_mail_channel_order eqb trim_space lower_ascii
channels_once = refl

merge_config-IsRunnable_example :
    IsRunnable (merge_config (config (pool_config 50)) file_config).pool
unfolding is_positive
merge_config-IsRunnable_example =
    merge_config-IsRunnable (config (pool_config 50)) file_config (record {
      target = refl;
      minimum = refl;
      interval = refl;
      threads = refl;
      refresh_cooldown = refl;
      use_cooldown = refl;
      failures = refl;
      channels = refl;
    })
