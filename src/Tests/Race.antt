-- ===== src/Tests/Race.antt =====
-- Two requests of one session whose awaits interleave: the slower one writes back the record that it
-- read before the faster one escalated the session.
use lite_router.Prelude.{◌≡◌, refl, String, none, some, []}
use lite_router.Json.{Value, arr, nil, cons}
use lite_router.Policies.{tier_index, is_side_channel}
use lite_router.Policies.Example.{example}
use lite_router.StateMachine.{escalate, anchor}
use lite_router.DecisionLog.{emit}
use lite_router.Store.{get_and_refresh, update}
use lite_router.Store.Memory.{memory, memory_codec, memory_laws, memory_json}
use lite_router.Store.Sessions.{session}
use lite_router.Client.{generic}
use lite_router.Hook.{World, Call, read_session, update_session, emit_event}
use lite_router.Hook.Keep.{handle_pinned, plan_pinned, on_signal, rescan}
use lite_router.Hook.Route.{async_pre_call_hook, route_session, call_of}
use lite_router.Hook.Sessions.{ses}
use lite_router.Exec.{◌>>=◌}
use lite_router.SessionKey.{
  extract_headers, system_text, first_with_role, derive_session_key, session_id_from_headers,
  merge_source, extract_agent_ids, flatten_content,
}
use lite_router.Escalation.{
  detect, header_asks, patterns_compile, from_dict, to_dict, matches_retry, tool_result_failures,
}
use lite_router.Tests.Requests.{context, pinned, world, user, request}

abbrev tier_of : World memory → String
tier_of w = elim (ses memory memory_codec context example memory_laws memory_json w "s1") [
  | none ↦ ""
  | some r ↦ r.policy_name
]

-- the faster request, which escalates, after the slower one has read `pinned`
abbrev escalated_world : World memory
escalated_world =
    (async_pre_call_hook memory memory_codec context (request "lite-auto") "completion" world).1

abbrev slower : Call
slower = call_of context [] generic "s1"

abbrev thanks : Value
thanks = arr (cons (user "fix it") (cons (user "thanks") nil))

-- the rest of the slower request
abbrev final_world : World memory
final_world =
    (handle_pinned memory memory_codec context example slower pinned thanks escalated_world).1

escalated-first : tier_of escalated_world ≡ "high"
unfolding async_pre_call_hook ◌>>=◌ extract_headers system_text is_side_channel first_with_role
    derive_session_key session_id_from_headers merge_source read_session get_and_refresh
    handle_pinned plan_pinned detect header_asks patterns_compile from_dict to_dict escalate anchor
    tier_index update emit matches_retry on_signal update_session emit_event route_session call_of
    extract_agent_ids tool_result_failures flatten_content session
escalated-first = refl

-- the escalation is lost
downgraded-last : tier_of final_world ≡ "standard_dev"
unfolding async_pre_call_hook ◌>>=◌ extract_headers system_text is_side_channel first_with_role
    derive_session_key session_id_from_headers merge_source read_session get_and_refresh
    handle_pinned plan_pinned detect header_asks patterns_compile from_dict to_dict escalate anchor
    tier_index update emit matches_retry on_signal update_session emit_event route_session call_of
    extract_agent_ids tool_result_failures flatten_content session rescan
downgraded-last = refl
