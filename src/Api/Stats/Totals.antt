-- ===== src/Api/Stats/Totals.antt =====
-- src/main.go, `RecordRequestWithModel`: the totals agree with each other.
use business2api.Base.{
  ℕ, ◌+◌, ◌-◌, ◌≤◌, ◌≡◌, Bool, List, [], ◌∷◌, ◌++◌, none, some, arith, null, length, length-drop,
  Bool-cases, inl, inr,
}
use business2api.Text.{Text, StringMap, find_entry, set_entry}
use business2api.Api.Stats.{
  ApiStats, ModelStats, HourlyStats, Usage, record_request_with_model, record_model, record_hour,
  new_hour, new_model_stats, keep_last,
}

-- The requests of all models together.
abbrev pub model_requests : StringMap ModelStats → ℕ
model_requests [] = 0
model_requests ((model, ms) ∷ es) = ms.requests + model_requests es

-- The counters are those of one and the same set of requests.
pub record Agrees (s : ApiStats) : Type 0 where
  pub split : s.total_requests ≡ s.success_requests + s.failed_requests
  pub by_model : model_requests s.model_stats ≤ s.total_requests
  pub recent : length s.request_times ≤ 1000
  pub hours : (slot : ℕ) → (s.hourly_stats slot).success ≤ (s.hourly_stats slot).requests

model_requests-set_entry :
    (model : Text) (ms : ModelStats) (es : StringMap ModelStats)
    → model_requests (set_entry model ms es)
        + (elim (find_entry model es) [ none ↦ 0 | some old ↦ old.requests ])
      ≡ model_requests es + ms.requests
unfolding set_entry find_entry
model_requests-set_entry model ms [] = omega arith
model_requests-set_entry model ms ((name, old) ∷ es) =
    ground (arith, model_requests-set_entry model ms es)

set_entry-le :
    (model : Text) (ms : ModelStats) (es : StringMap ModelStats)
    → ms.requests ≤ (elim (find_entry model es) [ none ↦ 0 | some old ↦ old.requests ]) + 1
    → model_requests (set_entry model ms es) ≤ model_requests es + 1
set_entry-le model ms es h = omega (arith, model_requests-set_entry model ms es)

record_model-requests :
    (model : Text) (success : Bool) (usage : Usage) (es : StringMap ModelStats)
    → model_requests (record_model model success usage es) ≤ model_requests es + 1
unfolding record_model new_model_stats
record_model-requests model success usage es = elim (Bool-cases (null model)) [
  | inl unnamed ↦ rw (unnamed, record_model) (omega arith)
  | inr named ↦ rw (named, record_model) (set_entry-le model _ es (ground arith))
]

length-keep_last : (n : ℕ) (ts : List ℕ) → length (keep_last n ts) ≤ n
unfolding keep_last
length-keep_last n ts = omega (arith, length-drop (length ts - n) ts)

record_hour-success :
    (hour : ℕ) (success : Bool) (usage : Usage) (last : ℕ) (hourly : ℕ → HourlyStats) (slot : ℕ)
    → ((q : ℕ) → (hourly q).success ≤ (hourly q).requests)
    → let after = record_hour hour success usage last hourly slot in after.success ≤ after.requests
unfolding record_hour new_hour
record_hour-success hour success usage last hourly slot h = ground (arith, h hour, h slot)

-- Recording a request keeps the counters in agreement: every request is a success or a failure, no
-- more requests are counted by model than in all, at most 1000 times are kept, and in no hour are
-- there more successes than requests.
pub record_request_with_model-Agrees :
    (now hour : ℕ) (model : Text) (success : Bool) (usage : Usage) (s : ApiStats)
    → Agrees s
    → Agrees (record_request_with_model now hour model success usage s)
unfolding record_request_with_model
record_request_with_model-Agrees now hour model success usage s h = record {
  split = ground (arith, h.split);
  by_model = omega (arith, h.by_model, record_model-requests model success usage s.model_stats);
  recent = length-keep_last 1000 (s.request_times ++ now ∷ []);
  hours = λ slot. record_hour-success hour success usage s.last_hour s.hourly_stats slot h.hours;
}
