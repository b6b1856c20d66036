-- ===== src/Hook/First.antt =====
-- `_handle_first_request` of hook.py: the claim, and the pin of the session that has won it.
use lite_router.Prelude.{
  ℕ, true, false, ◌&&◌, String, Option, none, some, if◌then◌else◌, is_some, ◌==◌,
}
use lite_router.Prelude.Text
use lite_router.Outcome.{Outcome}
use lite_router.Exec.{Exec, ◌>>=◌, ◌>>◌, pure, lift}
use lite_router.Runtime.{one_float}
use lite_router.Json.{Fields}
use lite_router.Policies.{Tier, PoliciesConfig, default_tier}
use lite_router.SessionKey.{first_user_message_text, first_message_hash, system_text}
use lite_router.StateMachine.{
  SessionRecord, ClassifyResult, state_pinned, classifying_placeholder, build_pin_record,
  subagent_tier,
}
use lite_router.Overrides.{RepoHints, no_hints, extract_repo_hints, match_path_override}
use lite_router.Client.{is_claude_code}
use lite_router.DecisionLog.{
  EventType, DecisionEvent, no_detail, subagent, classifier_unavailable, path_override,
}
use lite_router.Store.{Redis, Codec}
use lite_router.Classifier.{classify}
use lite_router.Hook.{
  Context, World, Call, blank_event, read_session, claim_session, pin_session, emit_event,
}

-- what the request says of its first message
pub record First : Type 0 where
  pub first_msg : String
  pub hash : String
  pub system : String
  pub msg_count : ℕ

unfoldable pub hints_of : Context → Call → First → RepoHints
hints_of c call first =
    if is_claude_code call.client then extract_repo_hints c.py first.system else no_hints

-- the classifier's answer; no call is made under a path override
unfoldable pub classify_unless :
    Context → PoliciesConfig → First → RepoHints → Option String → Option ClassifyResult
classify_unless c p first hints (some matched) = none
classify_unless c p first hints none =
    classify p c.http first.first_msg (Text.take 1000 first.system) hints

abbrev pub latency_of : Option ClassifyResult → Option ℕ
latency_of none = none
latency_of (some r) = r.latency_ms

-- the CLASSIFIED or FALLBACK event
abbrev pub classified_event :
    Context → Call → First → SessionRecord → Option ClassifyResult → DecisionEvent
classified_event c call first r result =
    record (blank_event c call (if is_some result then EventType.classified else EventType.fallback)
      r.model) {
        policy_name = some r.policy_name;
        confidence = r.confidence;
        first_message_hash = some first.hash;
        latency_ms = latency_of result;
        detail = if is_some result then no_detail else classifier_unavailable;
        raw_first_message =
            if c.config.capture_first_messages && Text.nonempty first.first_msg
            then some (Text.take 4000 first.first_msg)
            else none;
        system_excerpt =
            if c.config.capture_first_messages then some (Text.take 1000 first.system) else none;
      }

-- the PINNED event of a session that is no subagent's
abbrev pub pinned_event : Context → Call → First → SessionRecord → Option String → DecisionEvent
pinned_event c call first r matched = record (blank_event c call EventType.pinned r.model) {
  policy_name = some r.policy_name;
  confidence = r.confidence;
  first_message_hash = some first.hash;
  detail = elim matched [
    | none ↦ no_detail
    | some m ↦ if Text.nonempty m then path_override m else no_detail
  ];
}

-- the PINNED event of a subagent
abbrev pub subagent_event : Context → Call → First → SessionRecord → DecisionEvent
subagent_event c call first r = record (blank_event c call EventType.pinned r.model) {
  policy_name = some r.policy_name;
  first_message_hash = some first.hash;
  detail = subagent call.base_key;
}

-- the tier of a subagent, by the record of its parent
unfoldable pub tier_under : PoliciesConfig → Option SessionRecord → Outcome Tier
tier_under p none = default_tier p
tier_under p (some parent) =
    if parent.state == state_pinned then subagent_tier p parent else default_tier p

module _ (redis : Redis) (codec : Codec redis) (c : Context) (p : PoliciesConfig) where
  unfoldable pub pin_subagent : Call → First → Exec (World redis) String
  pin_subagent call first = do
    parent ← read_session redis codec c p call.base_key
    tier ← lift (tier_under p parent)
    pinned ← lift (
        build_pin_record p
          (some (record {
            policy_name = tier.name;
            model = tier.model;
            confidence = one_float;
            latency_ms = none;
          }))
          false first.hash call.alias first.msg_count c.now)
    pin_session redis codec c p call.key (record pinned { subagent = some true })
    emit_event redis codec c p (subagent_event c call first pinned)
    pure pinned.model

  abbrev pub emit_classified :
      Call
      → First
      → SessionRecord
      → Option ClassifyResult
      → Option String
      → Exec (World redis) (Unit {0})
  emit_classified call first r result none =
      emit_event redis codec c p (classified_event c call first r result)
  emit_classified call first r result (some matched) = pure tt

  -- after the hints have been matched and the classifier has answered
  unfoldable pub pin_chosen :
      Call → First → Option String → Option ClassifyResult → Exec (World redis) String
  pin_chosen call first matched result = do
    pinned ←
        lift
          (build_pin_record p result (is_some matched) first.hash call.alias first.msg_count c.now)
    pin_session redis codec c p call.key pinned
    emit_classified call first pinned result matched
    emit_event redis codec c p (pinned_event c call first pinned matched)
    pure pinned.model

  unfoldable pub pin_session_root : Call → First → Exec (World redis) String
  unfolding pin_chosen
  pin_session_root call first =
      let hints = hints_of c call first in
      let matched = match_path_override c.py hints call.headers p in
      pin_chosen call first matched (classify_unless c p first hints matched)

  abbrev pub pin_first : Call → First → Exec (World redis) String
  pin_first call first =
      if call.subagent_routing then pin_subagent call first else pin_session_root call first

  -- the rest of the method once the claim has been won
  unfoldable pub pin_claimed : Fields → Call → ℕ → Exec (World redis) String
  unfolding pin_subagent pin_session_root
  pin_claimed body call msg_count = do
    first_msg ← lift (first_user_message_text body)
    hash ← lift (first_message_hash c.py body)
    system ← lift (system_text body)
    pin_first call
        (record { first_msg = first_msg; hash = hash; system = system; msg_count = msg_count })

  unfoldable pub handle_first_request : Fields → Call → ℕ → Exec (World redis) String
  unfolding pin_claimed
  handle_first_request body call msg_count = do
    placeholder ← lift (classifying_placeholder p)
    won ← claim_session redis codec c p call.key placeholder
    if won then pin_claimed body call msg_count else pure p.default_model
