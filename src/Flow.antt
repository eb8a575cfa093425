-- ===== src/Flow.antt =====
-- src/flow/flow_client.go and src/flow/token_pool.go, the tokens of the Flow service. The pool and
-- the client hold pointers to shared tokens, so the model has a heap of tokens. The HTTP service,
-- MD5 and the directory's listing are parameters.
pub mod Tokens
pub mod Refresh
pub mod Select
pub mod Models
pub mod Poll
pub mod Generate
mod Tests
use business2api.Base.{
  ℕ, ◌+◌, Bool, true, false, List, [], ◌∷◌, Option, none, some, ◌==◌, ◌&&◌, not, ltb, if◌then◌else◌,
}
use business2api.Text.{Text, StringMap, set_entry, find_entry}

pub record FlowToken : Type 0 where
  pub id : Text
  pub st : Text
  pub at : Text
  pub at_expires : ℕ
  pub email : Text
  pub project_id : Text
  pub credits : ℕ
  pub user_paygate_tier : Text
  pub disabled : Bool
  pub last_used : ℕ
  pub error_count : ℕ

-- The pool of tokens, the client it feeds if there is one, and the directory `at` of cookie files,
-- by their names. The maps stand in the order of an iteration, which Go leaves open.
pub record TokenPool : Type 0 where
  pub heap : ℕ → FlowToken
  pub next_pointer : ℕ
  pub tokens : StringMap ℕ
  pub client : Option (StringMap ℕ)
  pub file_index : StringMap Text
  pub files : Text → Option Text

abbrev pub write_token : ℕ → FlowToken → TokenPool → TokenPool
write_token p token pool = record pool { heap = λ q. if p == q then token else pool.heap q }

unfoldable pub new_token : Text → Text → FlowToken
new_token id st = record {
  id = id;
  st = st;
  at = [];
  at_expires = 0;
  email = [];
  project_id = [];
  credits = 0;
  user_paygate_tier = [];
  disabled = false;
  last_used = 0;
  error_count = 0;
}

-- The client's map, where there is a client.
unfoldable pub add_token : Text → ℕ → Option (StringMap ℕ) → Option (StringMap ℕ)
unfolding set_entry
add_token id p none = none
add_token id p (some tokens) = some (set_entry id p tokens)

-- A new token in the pool and the client, under its identifier.
unfoldable pub insert_token : Text → Text → TokenPool → TokenPool
unfolding new_token add_token set_entry
insert_token id st pool =
    let p = pool.next_pointer in
    record (write_token p (new_token id st) pool) {
      next_pointer = p + 1;
      tokens = set_entry id p pool.tokens;
      client = add_token id p pool.client;
    }

-- `!t.Disabled && t.ErrorCount < 3`.
unfoldable pub is_ready : FlowToken → Bool
is_ready token = not token.disabled && ltb token.error_count 3
