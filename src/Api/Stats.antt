-- ===== src/Api/Stats.antt =====
-- src/main.go, the statistics of the API calls and of the callers. A counter is a number: an `int64`
-- would have to count 2 ^ 63 requests or tokens to wrap.
pub mod Rate
pub mod Totals
pub mod Ranking
mod Tests
use business2api.Base.{
  ℕ, zero, suc, ◌+◌, ◌-◌, ◌*◌, Bool, true, false, not, ◌&&◌, List, [], ◌∷◌, ◌++◌, Option, none,
  some, ltb, leb, ◌==◌, if◌then◌else◌, null, length, drop, reverse,
}
use business2api.Text.{Text, StringMap, find_entry, set_entry}
use business2api.Pool.Account.{second}

-- What a request uses.
pub record Usage : Type 0 where
  pub input_tokens : ℕ
  pub output_tokens : ℕ
  pub images : ℕ
  pub videos : ℕ

pub record ModelStats : Type 0 where
  pub requests : ℕ
  pub success : ℕ
  pub input_tokens : ℕ
  pub output_tokens : ℕ
  pub images : ℕ

pub record HourlyStats : Type 0 where
  pub hour : ℕ
  pub requests : ℕ
  pub success : ℕ
  pub input_tokens : ℕ
  pub output_tokens : ℕ

-- `hourly_stats` is an array of 24, read at an hour of the day.
pub record ApiStats : Type 0 where
  pub start_time : ℕ
  pub total_requests : ℕ
  pub success_requests : ℕ
  pub failed_requests : ℕ
  pub input_tokens : ℕ
  pub output_tokens : ℕ
  pub image_generated : ℕ
  pub video_generated : ℕ
  pub request_times : List ℕ
  pub model_stats : StringMap ModelStats
  pub hourly_stats : ℕ → HourlyStats
  pub last_hour : ℕ

pub record IpRequestInfo : Type 0 where
  pub ip : Text
  pub total_count : ℕ
  pub success_count : ℕ
  pub failed_count : ℕ
  pub input_tokens : ℕ
  pub output_tokens : ℕ
  pub images_count : ℕ
  pub videos_count : ℕ
  pub first_seen : ℕ
  pub last_seen : ℕ
  pub request_times : List ℕ
  pub models : StringMap ℕ
  pub user_agents : StringMap ℕ

abbrev pub one_if : Bool → ℕ
one_if b = if b then 1 else 0

-- `if len(ts) > n { ts = ts[len(ts)-n:] }`.
unfoldable pub keep_last : ℕ → List ℕ → List ℕ
keep_last n ts = drop (length ts - n) ts

-- `m[key]++`.
unfoldable pub increment : Text → StringMap ℕ → StringMap ℕ
unfolding find_entry set_entry
increment key counts =
    set_entry key (elim (find_entry key counts) [ none ↦ 1 | some n ↦ n + 1 ]) counts

unfoldable pub new_info : Text → ℕ → IpRequestInfo
new_info ip now = record {
  ip = ip;
  total_count = 0;
  success_count = 0;
  failed_count = 0;
  input_tokens = 0;
  output_tokens = 0;
  images_count = 0;
  videos_count = 0;
  first_seen = now;
  last_seen = 0;
  request_times = [];
  models = [];
  user_agents = [];
}

unfoldable pub record_info : ℕ → Text → Text → Bool → Usage → IpRequestInfo → IpRequestInfo
unfolding keep_last increment
record_info now model user_agent success usage info = record info {
  total_count = info.total_count + 1;
  last_seen = now;
  input_tokens = info.input_tokens + usage.input_tokens;
  output_tokens = info.output_tokens + usage.output_tokens;
  images_count = info.images_count + usage.images;
  videos_count = info.videos_count + usage.videos;
  request_times = keep_last 100 (info.request_times ++ now ∷ []);
  success_count = info.success_count + one_if success;
  failed_count = info.failed_count + one_if (not success);
  models = if null model then info.models else increment model info.models;
  user_agents =
      if not (null user_agent) && ltb (length info.user_agents) 50
      then increment user_agent info.user_agents
      else info.user_agents;
}

unfoldable pub record_ip_request :
    ℕ → Text → Text → Text → Bool → Usage → StringMap IpRequestInfo → StringMap IpRequestInfo
unfolding find_entry set_entry new_info record_info
record_ip_request now ip model user_agent success usage requests =
    let info : IpRequestInfo = elim (find_entry ip requests) [
      | none ↦ new_info ip now
      | some i ↦ i
    ] in
    set_entry ip (record_info now model user_agent success usage info) requests

unfoldable pub new_model_stats : ModelStats
new_model_stats = record {
  requests = 0;
  success = 0;
  input_tokens = 0;
  output_tokens = 0;
  images = 0;
}

unfoldable pub record_model : Text → Bool → Usage → StringMap ModelStats → StringMap ModelStats
unfolding find_entry set_entry new_model_stats
record_model model success usage stats =
    let ms : ModelStats = elim (find_entry model stats) [ none ↦ new_model_stats | some m ↦ m ] in
    if null model
    then stats
    else set_entry model
        (record ms {
          requests = ms.requests + 1;
          success = ms.success + one_if success;
          input_tokens = ms.input_tokens + usage.input_tokens;
          output_tokens = ms.output_tokens + usage.output_tokens;
          images = ms.images + usage.images;
        })
        stats

unfoldable pub new_hour : ℕ → HourlyStats
new_hour hour = record {
  hour = hour;
  requests = 0;
  success = 0;
  input_tokens = 0;
  output_tokens = 0;
}

-- The slot of the hour, emptied when the hour is not the last one seen.
unfoldable pub record_hour : ℕ → Bool → Usage → ℕ → (ℕ → HourlyStats) → ℕ → HourlyStats
unfolding new_hour
record_hour hour success usage last hourly slot =
    let hs = if hour == last then hourly hour else new_hour hour in
    if slot == hour
    then record hs {
      requests = hs.requests + 1;
      success = hs.success + one_if success;
      input_tokens = hs.input_tokens + usage.input_tokens;
      output_tokens = hs.output_tokens + usage.output_tokens;
    }
    else hourly slot

-- A request at the time `now`, in the hour `hour` of the day.
unfoldable pub record_request_with_model : ℕ → ℕ → Text → Bool → Usage → ApiStats → ApiStats
unfolding keep_last record_model record_hour
record_request_with_model now hour model success usage s = record s {
  total_requests = s.total_requests + 1;
  success_requests = s.success_requests + one_if success;
  failed_requests = s.failed_requests + one_if (not success);
  input_tokens = s.input_tokens + usage.input_tokens;
  output_tokens = s.output_tokens + usage.output_tokens;
  image_generated = s.image_generated + usage.images;
  video_generated = s.video_generated + usage.videos;
  request_times = keep_last 1000 (s.request_times ++ now ∷ []);
  model_stats = record_model model success usage s.model_stats;
  hourly_stats = record_hour hour success usage s.last_hour s.hourly_stats;
  last_hour = hour;
}

unfoldable pub record_request : ℕ → ℕ → Bool → Usage → ApiStats → ApiStats
unfolding record_request_with_model
record_request now hour = record_request_with_model now hour []

-- `t.After(now.Add(-time.Minute))`.
unfoldable pub is_recent : ℕ → ℕ → Bool
is_recent now t = ltb now (t + 60 * second)

-- The loop from the newest time back, up to the first that is a minute old.
unfoldable pub recent_run : ℕ → List ℕ → ℕ
unfolding is_recent
recent_run now [] = 0
recent_run now (t ∷ ts) = if is_recent now t then suc (recent_run now ts) else 0

unfoldable pub get_rpm : ℕ → List ℕ → ℕ
unfolding recent_run
get_rpm now times = recent_run now (reverse times)

-- One caller and its count, as `GetAllIPStats` sorts them.
abbrev pub IpCount : Type 0
IpCount = Text × ℕ

-- One round of the insertion sort on what is sorted so far, the last element first: the new element
-- moves left past the smaller ones.
unfoldable pub sift : IpCount → List IpCount → List IpCount
sift x [] = x ∷ []
sift x (y ∷ ys) = if ltb y.1 x.1 then y ∷ sift x ys else x ∷ y ∷ ys

unfoldable pub sort_from : List IpCount → List IpCount → List IpCount
unfolding sift
sort_from done [] = done
sort_from done (x ∷ xs) = sort_from (sift x done) xs

abbrev pub counts_of : StringMap IpRequestInfo → List IpCount
counts_of [] = []
counts_of ((ip, info) ∷ es) = (ip, info.total_count) ∷ counts_of es

unfoldable pub sorted_ips : StringMap IpRequestInfo → List IpCount
unfolding sort_from
sorted_ips requests = reverse (sort_from [] (counts_of requests))

unfoldable pub get_ip_detail : Text → StringMap IpRequestInfo → Option IpRequestInfo
unfolding find_entry
get_ip_detail ip requests = find_entry ip requests
