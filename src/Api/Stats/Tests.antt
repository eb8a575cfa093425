-- ===== src/Api/Stats/Tests.antt =====
-- Runs of the statistics of src/main.go, and the theorems at concrete inputs.
use business2api.Base.{ℕ, ◌*◌, ◌≡◌, refl, true, false, List, [], ◌∷◌, min, arith}
use business2api.Text.{codes, eqb}
use business2api.Pool.Account.{second}
use business2api.Api.Stats.{ApiStats, Usage, record_request_with_model, get_rpm}
use business2api.Api.Stats.Rate.{Request, history, times_of, recent_count, get_rpm-history}
use business2api.Api.Stats.Totals.{Agrees, record_request_with_model-Agrees}

abbrev usage : Usage
usage = record { input_tokens = 5; output_tokens = 7; images = 1; videos = 0 }

abbrev empty_stats : ApiStats
empty_stats = record {
  start_time = 0;
  total_requests = 0;
  success_requests = 0;
  failed_requests = 0;
  input_tokens = 0;
  output_tokens = 0;
  image_generated = 0;
  video_generated = 0;
  request_times = [];
  model_stats = [];
  hourly_stats =
      λ h. record { hour = h; requests = 0; success = 0; input_tokens = 0; output_tokens = 0 };
  last_hour = 0;
}

abbrev request : ℕ → Request
request s = record {
  now = s * second;
  hour = 3;
  model = codes "gemini";
  success = true;
  usage = usage;
}

abbrev requests : List Request
requests = request 100 ∷ request 50 ∷ request 30 ∷ []

-- The request of 70 seconds ago does not count.
rate_of_history : get_rpm (100 * second) (history requests empty_stats).request_times ≡ 2
unfolding get_rpm history eqb
rate_of_history = refl

get_rpm-history_example :
    get_rpm (100 * second) (history requests empty_stats).request_times
    ≡ min 1000 (recent_count (100 * second) (times_of requests))
get_rpm-history_example =
    get_rpm-history (100 * second) requests empty_stats refl (omega arith, (omega arith, tt))

record_request_with_model-Agrees_example :
    Agrees (record_request_with_model 100 3 (codes "gemini") false usage empty_stats)
record_request_with_model-Agrees_example =
    record_request_with_model-Agrees 100 3 (codes "gemini") false usage empty_stats (record {
      split = refl;
      by_model = omega arith;
      recent = omega arith;
      hours = λ slot. omega arith;
    })
