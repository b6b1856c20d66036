-- ===== src/StateMachine.antt =====
-- packages/session-router/src/session_router/state_machine.py: session records and their
-- transitions. A record is a Python dict; here it is a record with a field for each key that the
-- router writes, `none` where the dict lacks the key.
pub mod Escalate
pub mod Pin
pub mod Life
use lite_router.Prelude.{
  ℕ, suc, ◌+◌, ◌-◌, Bool, true, false, String, Option, none, some, length, leb, if◌then◌else◌,
  get_or, ◌==◌, not,
}
use lite_router.Outcome.{Outcome, ok, raise, key_error, assertion_error, Exn, ◌>>=◌}
use lite_router.Runtime.{Float, zero_float, one_float}
use lite_router.Policies.{Tier, PoliciesConfig, tier_by_name, tier_index, tier_at, default_tier}
use lite_router.Escalation.{ScanDict, to_dict}

abbrev pub state_classifying : String
state_classifying = "classifying"

abbrev pub state_pinned : String
state_pinned = "pinned"

abbrev pub record_version : ℕ
record_version = 1

pub record ClassifyResult : Type 0 where
  pub policy_name : String
  pub model : String
  pub confidence : Float
  pub latency_ms : Option ℕ

pub record SessionRecord : Type 0 where
  pub v : ℕ
  pub state : String
  pub model : String
  pub policy_name : String
  pub classified : Option Bool
  pub confidence : Option Float
  pub path_override : Option Bool
  pub escalations : Option ℕ
  pub pinned_at : Option Float
  pub first_message_hash : Option String
  pub api_key_alias : Option String
  pub scan : Option ScanDict
  pub subagent : Option Bool

unfoldable pub classifying_placeholder : PoliciesConfig → Outcome SessionRecord
classifying_placeholder p = do
  tier ← default_tier p
  ok (record {
    v = record_version;
    state = state_classifying;
    model = p.default_model;
    policy_name = tier.name;
    classified = none;
    confidence = none;
    path_override = none;
    escalations = none;
    pinned_at = none;
    first_message_hash = none;
    api_key_alias = none;
    scan = none;
    subagent = none;
  })

-- what the three branches of `build_pin_record` choose
pub record Choice : Type 0 where
  pub policy_name : String
  pub model : String
  pub confidence : Float
  pub classified : Bool

-- `assert tier is not None`
abbrev required : Option Tier → Outcome Tier
required none = raise assertion_error
required (some t) = ok t

abbrev choose_default : PoliciesConfig → Outcome Choice
choose_default p = do
  tier ← default_tier p
  ok (record {
    policy_name = tier.name;
    model = p.default_model;
    confidence = zero_float;
    classified = false;
  })

unfoldable pub choose_classified : PoliciesConfig → Option ClassifyResult → Outcome Choice
choose_classified p none = choose_default p
choose_classified p (some c) = elim (tier_by_name p c.policy_name) [
  | none ↦ choose_default p
  | some tier ↦ ok (record {
    policy_name = c.policy_name;
    model = tier.model;
    confidence = c.confidence;
    classified = true;
  })
]

unfoldable pub choose : PoliciesConfig → Option ClassifyResult → Bool → Outcome Choice
unfolding choose_classified
choose p classify true = do
  tier ← required (tier_by_name p p.path_overrides.force_tier)
  ok (record {
    policy_name = tier.name;
    model = tier.model;
    confidence = one_float;
    classified = false;
  })
choose p classify false = choose_classified p classify

-- the dict that `build_pin_record` returns
abbrev pub pin_of : Choice → Bool → String → String → ℕ → Float → SessionRecord
pin_of choice path_override hash alias msg_count now = record {
  v = record_version;
  state = state_pinned;
  model = choice.model;
  policy_name = choice.policy_name;
  classified = some choice.classified;
  confidence = some choice.confidence;
  path_override = some path_override;
  escalations = some 0;
  pinned_at = some now;
  first_message_hash = some hash;
  api_key_alias = some alias;
  scan =
      some (
        to_dict
          (record { msg_count = msg_count; consec_failures = 0; escalated_at_msg_count = 0 }));
  subagent = none;
}

unfoldable pub build_pin_record :
    PoliciesConfig
    → Option ClassifyResult
    → Bool
    → String
    → String
    → ℕ
    → Float
    → Outcome SessionRecord
unfolding choose
build_pin_record p classify path_override hash alias msg_count now = do
  choice ← choose p classify path_override
  ok (pin_of choice path_override hash alias msg_count now)

-- `try: idx = tier_index(name) except KeyError: idx = tier_index(default_tier().name)`
abbrev on_key_error : Outcome ℕ → Outcome ℕ → Outcome ℕ
on_key_error (ok i) handler = ok i
on_key_error (raise Exn.key_error) handler = handler
on_key_error (raise Exn.attribute_error) handler = raise Exn.attribute_error
on_key_error (raise Exn.type_error) handler = raise Exn.type_error
on_key_error (raise Exn.index_error) handler = raise Exn.index_error
on_key_error (raise Exn.assertion_error) handler = raise Exn.assertion_error
on_key_error (raise Exn.value_error) handler = raise Exn.value_error
on_key_error (raise Exn.re_error) handler = raise Exn.re_error
on_key_error (raise Exn.overflow_error) handler = raise Exn.overflow_error
on_key_error (raise Exn.json_decode_error) handler = raise Exn.json_decode_error
on_key_error (raise Exn.http_error) handler = raise Exn.http_error
on_key_error (raise Exn.zero_division_error) handler = raise Exn.zero_division_error
on_key_error (raise Exn.runtime_error) handler = raise Exn.runtime_error

unfoldable pub anchor : PoliciesConfig → String → Outcome ℕ
anchor p name = on_key_error (tier_index p name) (do tier ← default_tier p; tier_index p tier.name)

abbrev pub escalations_of : SessionRecord → ℕ
escalations_of r = get_or r.escalations 0

abbrev pub raised_to : Tier → SessionRecord → SessionRecord
raised_to tier r = record r {
  policy_name = tier.name;
  model = tier.model;
  escalations = some (escalations_of r + 1);
}

unfoldable pub escalate : SessionRecord → PoliciesConfig → Outcome (Option SessionRecord)
escalate r p =
    if not (r.state == state_pinned)
    then ok none
    else if leb p.escalation.max_escalations (escalations_of r)
    then ok none
    else do
      idx ← anchor p r.policy_name
      if leb (length p.tiers - 1) idx
          then ok none
          else do new_tier ← tier_at p.tiers (idx + 1); ok (some (raised_to new_tier r))

-- `max(0, idx - 1)` is the subtraction of ℕ.
unfoldable pub subagent_tier : PoliciesConfig → SessionRecord → Outcome Tier
subagent_tier p parent = do
  idx ← anchor p parent.policy_name
  tier_at p.tiers (if get_or parent.path_override false then idx else idx - 1)
