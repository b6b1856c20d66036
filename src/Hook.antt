-- ===== src/Hook.antt =====
-- packages/session-router/src/session_router/hook.py: the pre-call hook. A request runs to its end
-- before the next one here, but in Hook/Concurrent.antt.
pub mod Keep
pub mod First
pub mod Route
pub mod Sessions
pub mod Pinned
pub mod Advances
pub mod NoDowngrade
pub mod Serving
pub mod Concurrent
pub mod Passes
pub mod Stash
pub mod Overrides
pub mod Gives
pub mod Decided
pub mod Answers
use lite_router.Prelude.{
  ℕ, suc, ◌+◌, Bool, true, false, not, ◌&&◌, ◌||◌, String, Option, none, some, List, [], ◌∷◌, ◌++◌,
  if◌then◌else◌, get_or, is_some, nat_eq, ltb, length, ◌==◌, any,
}
use lite_router.Prelude.Text
use lite_router.Outcome.{Outcome, ok, raise, type_error}
use lite_router.Exec.{Exec, continue, ◌>>=◌, ◌>>◌, pure, lift, modify}
use lite_router.Runtime.{Runtime, Float, one_float}
use lite_router.Json.{
  Value, null, bool, num, str, arr, obj, Items, nil, cons, Fields, end, field, get, put, has_key,
  truthy, is_str, length_items,
}
use lite_router.Policies.{Tier, PoliciesConfig, is_side_channel, cheapest_tier, default_tier}
use lite_router.SessionKey.{
  Headers, KeySource, from_header, derived, extract_headers, session_id_from_headers, system_text,
  first_user_message_text, first_message_hash, derive_session_key, extract_agent_ids,
}
use lite_router.Escalation.{
  ScanDict, ScanState, EscalationSignal, from_dict, to_dict, detect, consume,
}
use lite_router.StateMachine.{
  SessionRecord, ClassifyResult, state_pinned, classifying_placeholder, build_pin_record, escalate,
  subagent_tier, escalations_of,
}
use lite_router.Overrides.{RepoHints, no_hints, extract_repo_hints, match_path_override}
use lite_router.Client.{Client, detect_client, is_claude_code}
use lite_router.DecisionLog.{
  EventType, DecisionEvent, DecisionLog, Detail, emit, no_detail, escalation, subagent,
  classifier_unavailable, path_override, requested_model,
}
use lite_router.DecisionLog
use lite_router.Store.{
  Redis, Codec, Store, Settings, ttl_of, prefix_of, get_and_refresh, claim_for_classification,
  write_pin, update,
}
use lite_router.Classifier.{Http, classify}

-- The settings of config.py that the hook reads.
pub record Config : Type 0 where
  pub router_enabled : Bool
  pub shadow_mode : Bool
  pub subagent_routing_enabled : Bool
  pub capture_first_messages : Bool
  pub router_virtual_model : String
  pub router_session_headers : List String

-- What a request reads and does not change: the settings, the answer of `policies_holder.get()`
-- (an exception where no policies have ever been loaded), the classifier service, the clock, the
-- caller's key.
pub record Context : Type 0 where
  pub py : Runtime
  pub config : Config
  pub settings : Settings
  pub policies : Outcome PoliciesConfig
  pub http : Http
  pub now : Float
  pub key_alias : Option String
  pub user_id : Option String

-- The state of a `LiteAutoRouter` and of the server behind its store.
pub record World (redis : Redis) : Type 0 where
  pub store : Store redis
  pub log : DecisionLog
  -- the keys of `_override_seen`, oldest first
  pub override_seen : List (String × String)

abbrev pub override_max : ℕ
override_max = 4096

-- `v or []`
abbrev pub or_list : Value → Value
or_list v = if truthy v then v else arr nil

-- `len(messages) if isinstance(messages, list) else 0`
abbrev pub msg_count_of : Value → ℕ
msg_count_of (arr xs) = length_items xs
msg_count_of null = 0
msg_count_of (bool b) = 0
msg_count_of (num n) = 0
msg_count_of (str s) = 0
msg_count_of (obj fs) = 0

-- `getattr(key, "key_alias", None) or getattr(key, "user_id", None) or "unknown"`
abbrev pub text_of : Option String → String → String
text_of none d = d
text_of (some s) d = if Text.nonempty s then s else d

abbrev pub alias_of : Context → String
alias_of c = text_of c.key_alias (text_of c.user_id "unknown")

-- What a request knows of itself once its session key is derived.
pub record Call : Type 0 where
  pub key : String
  pub base_key : String
  pub headers : Headers
  pub agent_id : Option String
  pub alias : String
  pub client : Client
  pub subagent_routing : Bool

abbrev pub blank_event : Context → Call → EventType → String → DecisionEvent
blank_event c call kind model = record {
  session_key = call.key;
  event_type = kind;
  model = model;
  policy_name = none;
  confidence = none;
  first_message_hash = none;
  api_key_alias = some call.alias;
  latency_ms = none;
  shadow = c.config.shadow_mode;
  agent_id = call.agent_id;
  client = some call.client;
  detail = no_detail;
  raw_first_message = none;
  system_excerpt = none;
}

module _ (redis : Redis) (codec : Codec redis) (c : Context) (p : PoliciesConfig) where
  abbrev pub ttl : ℕ
  ttl = ttl_of c.settings p.session

  abbrev pub prefix : String
  prefix = prefix_of c.settings p.session

  -- The store's methods and `emit`, on the router's state. A request runs inside an event loop.
  unfoldable pub read_session : String → Exec (World redis) (Option SessionRecord)
  read_session key w =
      let (r, s) = get_and_refresh redis codec ttl prefix key w.store in
      (ok r, record w { store = s })

  unfoldable pub claim_session : String → SessionRecord → Exec (World redis) Bool
  claim_session key placeholder w =
      let (won, s) = claim_for_classification redis codec ttl prefix key placeholder w.store in
      (ok won, record w { store = s })

  unfoldable pub pin_session : String → SessionRecord → Exec (World redis) (Unit {0})
  unfolding modify
  pin_session key r =
      modify (λ w. record w { store = write_pin redis codec ttl prefix key r w.store })

  unfoldable pub update_session : String → SessionRecord → Exec (World redis) (Unit {0})
  unfolding modify
  update_session key r =
      modify (λ w. record w { store = update redis codec ttl prefix key r w.store })

  unfoldable pub emit_event : DecisionEvent → Exec (World redis) (Unit {0})
  unfolding modify
  emit_event event = modify (λ w. record w { log = emit true event w.log })
