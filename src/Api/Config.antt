-- ===== src/Api/Config.antt =====
-- src/main.go, the configuration: the defaults, what a file changes at the start, and what a changed
-- file changes later. JSON is read by the standard library: a field that the file lacks has Go's
-- zero value in `loaded`.
pub mod Merging
mod Tests
use business2api.Base.{
  ℕ, Bool, true, false, not, ◌&&◌, ◌||◌, List, [], ◌∷◌, Option, none, some, ltb, if◌then◌else◌,
  null, map, ℤ, pos, negsuc,
}
use business2api.Text.{Text, codes, eqb, trim_space, lower_ascii}
use business2api.Api.Auth.{any_key, override_api_keys}

pub record PoolConfig : Type 0 where
  pub target_count : ℤ
  pub min_count : ℤ
  pub check_interval_minutes : ℤ
  pub enable_go_register : Bool
  pub register_threads : ℤ
  pub register_headless : Bool
  pub mail_channel_order : List Text
  pub duck_mail_bearer : Text
  pub refresh_on_startup : Bool
  pub refresh_cooldown_sec : ℤ
  pub use_cooldown_sec : ℤ
  pub max_fail_count : ℤ
  pub enable_browser_refresh : Bool
  pub browser_refresh_headless : Bool
  pub browser_refresh_max_retry : ℤ
  pub auto_delete_401 : Bool
  pub external_refresh_mode : Bool
  pub registrar_base_url : Text

pub record FlowConfigSection : Type 0 where
  pub enable : Bool
  pub tokens : List Text
  pub proxy : Text
  pub timeout : ℤ
  pub poll_interval : ℤ
  pub max_poll_attempts : ℤ

pub record ProxyConfig : Type 0 where
  pub proxy : Text
  pub subscribes : List Text
  pub files : List Text
  pub health_check : Bool
  pub check_on_startup : Bool

-- `pool_server` is copied as it is: its type does not matter here.
pub record AppConfig {ℓ} (S : Type ℓ) : Type ℓ where
  pub api_keys : List Text
  pub listen_addr : Text
  pub data_dir : Text
  pub pool : PoolConfig
  pub proxy : Text
  pub proxy_subscribe : Text
  pub proxy_pool : ProxyConfig
  pub default_config : Text
  pub pool_server : S
  pub debug : Bool
  pub flow : FlowConfigSection
  pub note : List Text

unfoldable pub is_positive : ℤ → Bool
is_positive (pos n) = ltb 0 n
is_positive (negsuc n) = false

-- `if given > 0 { old = given }`, and the same for texts and lists that are not empty.
abbrev pub over_number : ℤ → ℤ → ℤ
over_number old given = if is_positive given then given else old

abbrev pub over_text : Text → Text → Text
over_text old given = if null given then old else given

abbrev pub over_list : List Text → List Text → List Text
over_list old given = if null given then old else given

abbrev pub chatgpt : List Text
chatgpt = codes "chatgpt" ∷ []

-- A channel in lower case, which ASCII letters have in the names that are kept.
abbrev pub channel_of : Text → Text
channel_of item = map lower_ascii (trim_space item)

abbrev pub is_channel : Text → Bool
is_channel ch = eqb ch (codes "duckmail") || eqb ch (codes "chatgpt")

unfoldable pub channels_from : List Text → List Text → List Text
channels_from seen [] = []
channels_from seen (item ∷ items) =
    let ch = channel_of item in
    let rest = channels_from seen items in
    let taken = channels_from (ch ∷ seen) items in
    if not (is_channel ch) then rest else if any_key (λ s. eqb s ch) seen then rest else ch ∷ taken

unfoldable pub normalize_mail_channel_order : List Text → List Text
unfolding channels_from
normalize_mail_channel_order order = over_list chatgpt (channels_from [] order)

abbrev pub over_trimmed : Text → Text → Text
over_trimmed old given = over_text old (trim_space given)

unfoldable pub merge_pool : PoolConfig → PoolConfig → PoolConfig
unfolding normalize_mail_channel_order is_positive
merge_pool base loaded = record base {
  target_count = over_number base.target_count loaded.target_count;
  min_count = over_number base.min_count loaded.min_count;
  check_interval_minutes = over_number base.check_interval_minutes loaded.check_interval_minutes;
  register_threads = over_number base.register_threads loaded.register_threads;
  mail_channel_order =
      if null loaded.mail_channel_order
      then base.mail_channel_order
      else normalize_mail_channel_order loaded.mail_channel_order;
  duck_mail_bearer = over_trimmed base.duck_mail_bearer loaded.duck_mail_bearer;
  registrar_base_url = over_trimmed base.registrar_base_url loaded.registrar_base_url;
  register_headless = loaded.register_headless;
  refresh_on_startup = loaded.refresh_on_startup;
  enable_browser_refresh = loaded.enable_browser_refresh;
  browser_refresh_headless = loaded.browser_refresh_headless;
  auto_delete_401 = loaded.auto_delete_401;
  refresh_cooldown_sec = over_number base.refresh_cooldown_sec loaded.refresh_cooldown_sec;
  use_cooldown_sec = over_number base.use_cooldown_sec loaded.use_cooldown_sec;
  max_fail_count = over_number base.max_fail_count loaded.max_fail_count;
  browser_refresh_max_retry =
      over_number base.browser_refresh_max_retry loaded.browser_refresh_max_retry;
}

unfoldable pub merge_proxy_pool : ProxyConfig → ProxyConfig → ProxyConfig
merge_proxy_pool base loaded = record {
  subscribes = over_list base.subscribes loaded.subscribes;
  files = over_list base.files loaded.files;
  proxy = over_text base.proxy loaded.proxy;
  health_check = loaded.health_check;
  check_on_startup = loaded.check_on_startup;
}

-- The Boolean fields that the file names, `none` where it does not.
abbrev pub named : Option Bool → Bool → Bool
named none old = old
named (some b) old = b

unfoldable pub reload_pool : Option Bool → Option Bool → PoolConfig → PoolConfig → PoolConfig
unfolding normalize_mail_channel_order
reload_pool go_register external base new = record base {
  refresh_cooldown_sec = new.refresh_cooldown_sec;
  use_cooldown_sec = new.use_cooldown_sec;
  max_fail_count = new.max_fail_count;
  enable_browser_refresh = new.enable_browser_refresh;
  browser_refresh_headless = new.browser_refresh_headless;
  browser_refresh_max_retry = new.browser_refresh_max_retry;
  auto_delete_401 = new.auto_delete_401;
  enable_go_register = named go_register base.enable_go_register;
  external_refresh_mode = named external base.external_refresh_mode;
  mail_channel_order = normalize_mail_channel_order new.mail_channel_order;
  duck_mail_bearer = trim_space new.duck_mail_bearer;
  registrar_base_url = over_trimmed base.registrar_base_url new.registrar_base_url;
}

module _ {ℓ} {S : Type ℓ} where
  unfoldable pub merge_config : AppConfig S → AppConfig S → AppConfig S
  unfolding merge_pool merge_proxy_pool
  merge_config base loaded = record base {
    api_keys = over_list base.api_keys loaded.api_keys;
    listen_addr = over_text base.listen_addr loaded.listen_addr;
    data_dir = over_text base.data_dir loaded.data_dir;
    proxy = over_text base.proxy loaded.proxy;
    default_config = over_text base.default_config loaded.default_config;
    debug = loaded.debug;
    pool = merge_pool base.pool loaded.pool;
    pool_server = loaded.pool_server;
    flow = loaded.flow;
    proxy_pool = merge_proxy_pool base.proxy_pool loaded.proxy_pool;
    note = over_list base.note loaded.note;
  }

  -- A file that can be read and parsed, under the environment's `API_KEYS`, `API_KEY` and
  -- `DUCKMAIL_BEARER`. The environment's secret of the pool server changes nothing that is kept.
  unfoldable pub reload_config :
      Text → Text → Text → Option Bool → Option Bool → AppConfig S → AppConfig S → AppConfig S
  unfolding override_api_keys reload_pool
  reload_config listed single bearer go_register external base new =
      let pool = new.pool in
      record base {
        api_keys = override_api_keys listed single new.api_keys;
        debug = new.debug;
        note = new.note;
        pool =
            reload_pool go_register external base.pool
              (record pool { duck_mail_bearer = over_trimmed pool.duck_mail_bearer bearer });
      }
