-- ===== src/Tests/Requests.antt =====
-- Whole requests on a Redis in memory and the example policies.
use lite_router.Prelude.{
  ℕ, length, ◌≤◌, arith, ◌≡◌, ◌⊎◌, refl, true, false, String, none, some, List, [], ◌∷◌,
}
use lite_router.Outcome.{ok}
use lite_router.Runtime.{ascii, zero_float, one_float}
use lite_router.Json.{Value, str, arr, obj, nil, cons, null, Fields, end, field, get}
use lite_router.Policies.{tier_index, is_side_channel}
use lite_router.Policies.Example.{example, example-IsValid}
use lite_router.StateMachine.{SessionRecord, state_pinned, pin_of, escalate, anchor}
use lite_router.StateMachine.Life.{Stands}
use lite_router.Classifier.{Http, failed}
use lite_router.DecisionLog.{DecisionLog, DecisionEvent, emit, Bounded}
use lite_router.Store.{get_and_refresh, update}
use lite_router.Store.Memory.{memory, memory_codec, memory_laws, memory_json}
use lite_router.Client.{generic}
use lite_router.Hook.{
  override_max, Config, Context, World, read_session, update_session, emit_event,
}
use lite_router.Hook.Keep.{handle_pinned, plan_pinned, on_signal}
use lite_router.Hook.Route.{
  seen, log_override, override_event, leave_stash, async_pre_call_hook, route_session, call_of,
}
use lite_router.Store.Sessions.{session}
use lite_router.Hook.Sessions.{ses}
use lite_router.Hook.Advances.{Advances}
use lite_router.Hook.NoDowngrade.{hook-Advances}
use lite_router.Hook.Serving.{Arrival, serve, serve-Stands}
use lite_router.Hook.Decided.{Decided}
use lite_router.Hook.Answers.{hook-Routed}
use lite_router.Hook.Passes.{hook-passes}
use lite_router.Hook.Overrides.{is_new, log_override-once}
use lite_router.Hook.Stash.{Stashed, leave_stash_cases}
use lite_router.Exec.{◌>>=◌}
use lite_router.SessionKey.{
  extract_headers, system_text, first_with_role, derive_session_key, session_id_from_headers,
  merge_source, extract_agent_ids, flatten_content,
}
use lite_router.Escalation.{
  detect, header_asks, patterns_compile, from_dict, to_dict, matches_retry, tool_result_failures,
}

abbrev pub config : Config
config = record {
  router_enabled = true;
  shadow_mode = false;
  subagent_routing_enabled = false;
  capture_first_messages = false;
  router_virtual_model = "lite-auto";
  router_session_headers = "x-session-id" ∷ [];
}

abbrev pub no_classifier : Http
no_classifier = record { post = λ payload. failed; parse_float = λ s. none; latency_ms = 0 }

abbrev pub context : Context
context = record {
  py = ascii;
  config = config;
  settings = record { ttl_seconds = none; key_prefix = none };
  policies = ok example;
  http = no_classifier;
  now = zero_float;
  key_alias = some "alice";
  user_id = none;
}

abbrev pub log : DecisionLog
log = record { database_url = "postgres"; queue = none; flusher = false; dropped = 0 }

abbrev pub pinned : SessionRecord
pinned =
    pin_of
      (record {
        policy_name = "standard_dev";
        model = "grok-4.5";
        confidence = one_float;
        classified = true;
      })
      false "hash" "alice" 1 zero_float

abbrev pub world : World memory
world = record {
  store = record { db = ("router:session:s1", pinned) ∷ []; getex_supported = true };
  log = log;
  override_seen = [];
}

abbrev pub user : String → Value
user text = obj (field "role" (str "user") (field "content" (str text) end))

abbrev pub request : String → Fields
request model = field "model" (str model) (
    field "messages" (arr (cons (user "fix it") (cons (user "still failing") nil))) (
      field "metadata" (obj (field "headers" (obj (field "X-Session-Id" (str "s1") end)) end)) end))

-- the retry escalates the session by one tier
retry-escalates :
    get "model"
      (elim (async_pre_call_hook memory memory_codec context
        (request "lite-auto")
        "completion"
        world).0 [ none ↦ end | some b ↦ b ])
    ≡ str "claude-opus-4-8"
unfolding async_pre_call_hook ◌>>=◌ extract_headers system_text is_side_channel first_with_role
    derive_session_key session_id_from_headers merge_source read_session get_and_refresh
    handle_pinned plan_pinned detect header_asks patterns_compile from_dict to_dict escalate anchor
    tier_index update emit matches_retry on_signal update_session emit_event route_session call_of
    extract_agent_ids tool_result_failures flatten_content
retry-escalates = refl

pinned-there :
    ses memory memory_codec context example memory_laws memory_json world "s1" ≡ some pinned
unfolding session
pinned-there = refl

hook-Advances_example :
    Advances memory memory_codec context example memory_laws memory_json world
      (async_pre_call_hook memory memory_codec context (request "lite-auto") "completion" world).1
hook-Advances_example =
    hook-Advances memory memory_codec context example memory_laws memory_json (request "lite-auto")
      "completion" world refl

abbrev arrival : Arrival
arrival = record {
  body = request "lite-auto";
  call_type = "completion";
  key_alias = some "alice";
  user_id = none;
  http = no_classifier;
  now = zero_float;
}

pinned-index : tier_index example "standard_dev" ≡ ok 1
unfolding tier_index
pinned-index = refl

serve-Stands_example :
    (r : SessionRecord) × (k : ℕ) × (ses memory memory_codec context example memory_laws memory_json
        (serve memory memory_codec context (arrival ∷ arrival ∷ []) world)
        "s1"
      ≡ some r)
    × (r.state ≡ state_pinned)
    × Stands example 1 0 k r
serve-Stands_example =
    serve-Stands memory memory_codec context example memory_laws memory_json example-IsValid refl
      (arrival ∷ arrival ∷ []) world "s1" pinned 1 pinned-there refl pinned-index

hook-Routed_example :
    (b : Fields) × (m : String) × ((async_pre_call_hook memory memory_codec context
        (request "lite-auto")
        "completion"
        world).0
      ≡ some b)
    × (get "model" b ≡ str m)
    × Decided memory memory_codec context example (request "lite-auto") "completion" world m
hook-Routed_example =
    hook-Routed memory memory_codec context example (request "lite-auto") "completion" world refl
      refl refl refl

hook-passes_example :
    ((async_pre_call_hook memory memory_codec context (request "grok-4.5") "completion" world).0
      ≡ none)
    × ((async_pre_call_hook memory memory_codec context
          (request "grok-4.5")
          "completion"
          world).1.store
        ≡ world.store)
hook-passes_example =
    hook-passes memory memory_codec context (request "grok-4.5") "completion" world refl

abbrev with_id : List (String × String)
with_id = ("x-session-id", "s1") ∷ []

log_override-once_example :
    let w = log_override memory memory_codec context "grok-4.5" with_id generic world in
    (((is_new memory memory_codec context "grok-4.5" with_id world ≡ false) × (w ≡ world))
      ⊎ ((is_new memory memory_codec context "grok-4.5" with_id world ≡ true)
          × (w.log ≡ emit true (override_event context "s1" "grok-4.5" generic) world.log)
          × (seen "s1" "grok-4.5" w.override_seen ≡ true)))
    × (length w.override_seen ≤ override_max)
    × (log_override memory memory_codec context "grok-4.5" with_id generic w ≡ w)
unfolding session_id_from_headers
log_override-once_example =
    log_override-once memory memory_codec context "grok-4.5" with_id generic world (omega arith)

abbrev null_metadata : Fields
null_metadata = field "model" (str "lite-auto") (field "metadata" null end)

leave_stash_cases_example :
    Stashed (str "note") null_metadata null (leave_stash (str "note") null_metadata null)
leave_stash_cases_example = leave_stash_cases (str "note") null_metadata

abbrev event : DecisionEvent
event = override_event context "s1" "grok-4.5" generic

log-Bounded : Bounded log
log-Bounded q h = cc
