-- ===== src/Replay.antt =====
-- scripts/replay_shadow.py: the distribution of the logged decisions over the tiers, and the replay of
-- stored first messages through a classifier. A `Counter` is the list of what it has counted.
pub mod Report
pub mod Shares
pub mod Totals
use lite_router.Prelude.{
  ℕ, suc, Bool, true, false, not, String, Option, none, some, List, [], ◌∷◌, map, count, get_or,
  if◌then◌else◌,
}
use lite_router.Prelude.Text
use lite_router.Outcome.{Outcome, ok, raise, ◌>>=◌, http_error, json_decode_error, type_error}
use lite_router.Json.{Value, null, bool, num, str, arr, obj, end, is_str, item}
use lite_router.Policies.{PoliciesConfig}
use lite_router.Classifier.{HttpReply, failed, status}
use lite_router.Service.App.{ClassifyRequest}

-- the columns of a row that are read here
pub record Row : Type 0 where
  pub policy_name : Option String
  pub model : String
  pub raw_message : Option String
  pub system_excerpt : Option String

-- a nullable text as a value
abbrev pub value_of : Option String → Value
value_of none = null
value_of (some s) = str s

-- `dist.get(tier.name, 0)`
abbrev pub counted : String → List Value → ℕ
counted name keys = count (is_str name) keys

-- the lines of a distribution
abbrev pub distribution : PoliciesConfig → List Value → List (String × ℕ)
distribution p keys = map (λ t. (t.name, counted t.name keys)) p.tiers

-- `Counter(r["policy_name"] for r in rows)`
abbrev pub logged : List Row → List Value
logged rows = map (λ r. value_of r.policy_name) rows

-- `[r for r in rows if r["raw_message"]]`
unfoldable pub replayable : List Row → List Row
replayable [] = []
replayable (r ∷ rows) =
    let rest = replayable rows in if Text.nonempty (get_or r.raw_message "") then r ∷ rest else rest

abbrev pub request_for : Row → ClassifyRequest
request_for r = record {
  first_message = get_or r.raw_message "";
  system_summary = get_or r.system_excerpt "";
  repo_hints = end;
}

-- `resp.json()["policy_name"]`, whatever the status
unfoldable pub answer_name : HttpReply → Outcome Value
answer_name failed = raise http_error
answer_name (status code none) = raise json_decode_error
answer_name (status code (some body)) = item "policy_name" body

-- a key of a `Counter`
abbrev pub hashable : Value → Outcome Value
hashable (obj fs) = raise type_error
hashable (arr xs) = raise type_error
hashable v = ok v

-- `got != r["policy_name"]`
abbrev pub differs : Value → Option String → Bool
differs (str s) (some t) = not (is_str t (str s))
differs null none = false
differs v o = true

-- The loop of the replay: what was counted, and how often an answer differs from what was logged.
unfoldable pub replay : (ClassifyRequest → HttpReply) → List Row → Outcome (List Value × ℕ)
unfolding answer_name
replay post [] = ok ([], 0)
replay post (r ∷ rows) = do
  got ← answer_name (post (request_for r))
  key ← hashable got
  done ← replay post rows
  ok (key ∷ done.0, (if differs key r.policy_name then suc done.1 else done.1))
