-- ===== src/Api/Config/Merging.antt =====
-- src/main.go, `mergeConfig` and `reloadConfig`: what the two make of a file.
use business2api.Base.{
  ◌≡◌, refl, Bool, true, false, List, Option, if◌then◌else◌, null, arith, ℤ, pos,
}
use business2api.Text.{Text}
use business2api.Api.Config.{
  PoolConfig, AppConfig, is_positive, merge_pool, merge_proxy_pool, merge_config,
  normalize_mail_channel_order, over_number, reload_config, reload_pool,
}

-- The numbers that the pool divides its work by.
pub record IsRunnable (c : PoolConfig) : Type 0 where
  pub target : is_positive c.target_count ≡ true
  pub minimum : is_positive c.min_count ≡ true
  pub interval : is_positive c.check_interval_minutes ≡ true
  pub threads : is_positive c.register_threads ≡ true
  pub refresh_cooldown : is_positive c.refresh_cooldown_sec ≡ true
  pub use_cooldown : is_positive c.use_cooldown_sec ≡ true
  pub failures : is_positive c.max_fail_count ≡ true
  pub channels : null c.mail_channel_order ≡ false

over_number-positive :
    (old given : ℤ) → is_positive old ≡ true → is_positive (over_number old given) ≡ true
over_number-positive old given h = ground arith

normalize_mail_channel_order-null :
    (order : List Text) → null (normalize_mail_channel_order order) ≡ false
unfolding normalize_mail_channel_order
normalize_mail_channel_order-null order = ground arith

-- A field that is taken over twice is taken over once.
twice {κ} :
    {A : Type κ} (b : Bool) (old given : A)
    → (if b then (if b then old else given) else given) ≡ (if b then old else given)
twice b old given = ground arith

thrice {κ} :
    {A : Type κ} (b : Bool) (old given : A)
    → (if b then given else if b then given else old) ≡ (if b then given else old)
thrice b old given = ground arith

module _ {ℓ} {S : Type ℓ} where
  -- Whatever a file says, the counts, intervals, threads and cooldowns stay positive where the defaults
  -- are, and some mail channel is left.
  pub merge_config-IsRunnable :
      (base loaded : AppConfig S)
      → IsRunnable base.pool
      → IsRunnable (merge_config base loaded).pool
  unfolding merge_config merge_pool
  merge_config-IsRunnable base loaded h =
      let p = base.pool in
      let q = loaded.pool in
      record {
        target = over_number-positive p.target_count q.target_count h.target;
        minimum = over_number-positive p.min_count q.min_count h.minimum;
        interval =
            over_number-positive p.check_interval_minutes q.check_interval_minutes h.interval;
        threads = over_number-positive p.register_threads q.register_threads h.threads;
        refresh_cooldown =
            over_number-positive p.refresh_cooldown_sec q.refresh_cooldown_sec h.refresh_cooldown;
        use_cooldown = over_number-positive p.use_cooldown_sec q.use_cooldown_sec h.use_cooldown;
        failures = over_number-positive p.max_fail_count q.max_fail_count h.failures;
        channels =
            ground (arith, normalize_mail_channel_order-null q.mail_channel_order, h.channels);
      }

  -- A file that sets the number of browser refreshes to 0 switches them off when it is reloaded, and
  -- changes nothing when the server starts with it.
  pub reload_config-merge_config :
      (listed single bearer : Text) (go_register external : Option Bool) (base loaded : AppConfig S)
      → loaded.pool.browser_refresh_max_retry ≡ pos 0
      → ((merge_config base loaded).pool.browser_refresh_max_retry
          ≡ base.pool.browser_refresh_max_retry)
        × ((reload_config listed single bearer go_register external base
              loaded).pool.browser_refresh_max_retry
            ≡ pos 0)
  unfolding merge_config merge_pool reload_config reload_pool is_positive
  reload_config-merge_config listed single bearer go_register external base loaded h =
      rw h (refl, refl)

  -- To read the same file twice is to read it once.
  pub merge_config-twice :
      (base loaded : AppConfig S)
      → merge_config (merge_config base loaded) loaded ≡ merge_config base loaded
  unfolding merge_config merge_pool merge_proxy_pool
  merge_config-twice base loaded = simp (twice, thrice)
