-- ===== src/Hook/Route.antt =====
-- `_route`, `_maybe_log_override` and `async_pre_call_hook` of hook.py.
use lite_router.Prelude.{
  Bool, true, false, not, ◌&&◌, ◌||◌, String, Option, none, some, List, [], ◌∷◌, ◌++◌,
  if◌then◌else◌, is_some, ltb, length, ◌==◌, any,
}
use lite_router.Prelude.Text
use lite_router.Outcome.{Outcome, ok, raise, type_error}
use lite_router.Exec.{Exec, ◌>>=◌, pure, lift}
use lite_router.Json.{
  Value, null, bool, num, str, arr, obj, Fields, end, field, get, put, has_key, is_str,
}
use lite_router.Policies.{PoliciesConfig, is_side_channel, cheapest_tier}
use lite_router.SessionKey.{
  Headers, KeySource, from_header, derived, extract_headers, session_id_from_headers, system_text,
  derive_session_key, extract_agent_ids,
}
use lite_router.StateMachine.{SessionRecord, state_pinned}
use lite_router.Client.{Client, detect_client}
use lite_router.DecisionLog.{EventType, DecisionEvent, emit, requested_model}
use lite_router.Store.{Redis, Codec}
use lite_router.Hook.{
  Context, World, Call, override_max, or_list, msg_count_of, alias_of, read_session,
}
use lite_router.Hook.Keep.{handle_pinned}
use lite_router.Hook.First.{handle_first_request}

abbrev pub routable : String → Bool
routable call_type =
    call_type == "anthropic_messages" || (call_type == "acompletion" || call_type == "completion")

-- `key in self._override_seen`
abbrev pub seen : String → String → List (String × String) → Bool
seen session model = any (λ k. k.0 == session && k.1 == model)

abbrev pub drop_oldest : List (String × String) → List (String × String)
drop_oldest [] = []
drop_oldest (k ∷ l) = l

-- the insertion of a new key, and the `popitem` above the bound
unfoldable pub remember : String → String → List (String × String) → List (String × String)
remember session model l =
    let l' = l ++ (session, model) ∷ [] in
    if ltb override_max (length l') then drop_oldest l' else l'

abbrev pub override_event : Context → String → String → Client → DecisionEvent
override_event c session model client = record {
  session_key = session;
  event_type = EventType.override;
  model = model;
  policy_name = none;
  confidence = none;
  first_message_hash = none;
  api_key_alias = none;
  latency_ms = none;
  shadow = c.config.shadow_mode;
  agent_id = none;
  client = some client;
  detail = requested_model model;
  raw_first_message = none;
  system_excerpt = none;
}

abbrev name_of : KeySource → String
name_of from_header = "header"
name_of derived = "derived"

-- the stash that `_route` leaves in the metadata for the proxy's own logs
abbrev pub stash_of : Context → String → KeySource → String → Value
stash_of c key source model = obj (
    field "session_key" (str key) (
      field "key_source" (str (name_of source))
        (field "model" (str model) (field "shadow" (bool c.config.shadow_mode) end))))

-- `data.setdefault("metadata", {})["lite_router"] = stash`, where "metadata" holds no dict: a value
-- that stands there is kept by `setdefault`, and takes no item
abbrev pub set_default : Value → Fields → Outcome Fields
set_default stash body =
    if has_key "metadata" body
    then raise type_error
    else ok (put "metadata" (obj (field "lite_router" stash end)) body)

abbrev pub stash_in_metadata : Value → Fields → Value → Outcome Fields
stash_in_metadata stash body (obj meta) =
    ok (put "metadata" (obj (put "lite_router" stash meta)) body)
stash_in_metadata stash body null = set_default stash body
stash_in_metadata stash body (bool b) = set_default stash body
stash_in_metadata stash body (num n) = set_default stash body
stash_in_metadata stash body (str s) = set_default stash body
stash_in_metadata stash body (arr xs) = set_default stash body

-- `meta["lite_router"] = stash`
unfoldable pub leave_stash : Value → Fields → Value → Outcome Fields
leave_stash stash body (obj meta) =
    ok (put "litellm_metadata" (obj (put "lite_router" stash meta)) body)
leave_stash stash body null = stash_in_metadata stash body (get "metadata" body)
leave_stash stash body (bool b) = stash_in_metadata stash body (get "metadata" body)
leave_stash stash body (num n) = stash_in_metadata stash body (get "metadata" body)
leave_stash stash body (str s) = stash_in_metadata stash body (get "metadata" body)
leave_stash stash body (arr xs) = stash_in_metadata stash body (get "metadata" body)

abbrev pub with_agent : Bool → String → Option String → String
with_agent false base agent = base
with_agent true base none = base
with_agent true base (some agent) = Text.◌++◌ base (Text.◌++◌ ":" agent)

-- the session that a request belongs to
unfoldable pub call_of : Context → Headers → Client → String → Call
call_of c headers client base_key =
    let (agent_id, parent) = extract_agent_ids headers in
    let subagent_routing = c.config.subagent_routing_enabled && is_some parent in
    record {
      key = with_agent subagent_routing base_key agent_id;
      base_key = base_key;
      headers = headers;
      agent_id = if is_some parent then agent_id else none;
      alias = alias_of c;
      client = client;
      subagent_routing = subagent_routing;
    }

module _ (redis : Redis) (codec : Codec redis) (c : Context) where
  -- a model that is no text, or empty, is not logged
  unfoldable pub log_override : String → Headers → Client → World redis → World redis
  log_override model headers client w =
      let session = session_id_from_headers c.py headers c.config.router_session_headers in
      if not (Text.nonempty model) || not (Text.nonempty session)
      then w
      else if seen session model w.override_seen
      then w
      else record w {
        override_seen = remember session model w.override_seen;
        log = emit true (override_event c session model client) w.log;
      }

  abbrev pub maybe_log_override : Value → Headers → Client → World redis → World redis
  maybe_log_override (str model) headers client w = log_override model headers client w
  maybe_log_override null headers client w = w
  maybe_log_override (bool b) headers client w = w
  maybe_log_override (num n) headers client w = w
  maybe_log_override (arr xs) headers client w = w
  maybe_log_override (obj fs) headers client w = w

  -- the three cases of `record`: pinned, a placeholder of another request, none
  unfoldable pub decide :
      PoliciesConfig → Fields → Call → Value → Option SessionRecord → Exec (World redis) String
  decide p body call messages none =
      handle_first_request redis codec c p body call (msg_count_of messages)
  decide p body call messages (some r) =
      if r.state == state_pinned
      then handle_pinned redis codec c p call r messages
      else pure p.default_model

  -- the stash and the model that is served
  abbrev pub finish :
      PoliciesConfig → Fields → Call → KeySource → String → Exec (World redis) Fields
  finish p body call source decided = do
    stashed ←
        lift (leave_stash (stash_of c call.key source decided) body (get "litellm_metadata" body))
    pure (put "model" (str (if c.config.shadow_mode then p.default_model else decided)) stashed)

  -- from the derived key on
  unfoldable pub route_session :
      PoliciesConfig → Fields → Call → KeySource → Exec (World redis) Fields
  unfolding decide leave_stash
  route_session p body call source = do
    found ← read_session redis codec c p call.key
    decided ← decide p body call (or_list (get "messages" body)) found
    finish p body call source decided

  -- after the side-channel test
  unfoldable pub route_main : PoliciesConfig → Fields → Headers → Client → Exec (World redis) Fields
  unfolding route_session call_of
  route_main p body headers client = do
    (base_key, source) ←
        lift (derive_session_key c.py body headers (alias_of c) c.config.router_session_headers)
    route_session p body (call_of c headers client base_key) source

  abbrev pub route_cheap : PoliciesConfig → Fields → Exec (World redis) Fields
  route_cheap p body = do tier ← lift (cheapest_tier p); pure (put "model" (str tier.model) body)

  abbrev pub route_by :
      Bool → PoliciesConfig → Fields → Headers → Client → Exec (World redis) Fields
  route_by side p body headers client =
      if side then route_cheap p body else route_main p body headers client

  unfoldable pub route_enabled :
      PoliciesConfig → Fields → Headers → Client → Exec (World redis) Fields
  unfolding route_main
  route_enabled p body headers client = do
    system ← lift (system_text body)
    route_by (is_side_channel c.py p system) p body headers client

  abbrev pub route_virtual : Fields → Headers → Client → Exec (World redis) (Option Fields)
  route_virtual body headers client = do
    p ← lift c.policies
    routed ← route_enabled p body headers client
    pure (some routed)

  abbrev pub leave_alone : Value → Headers → Client → Exec (World redis) (Option Fields)
  leave_alone model headers client w = (ok none, maybe_log_override model headers client w)

  -- by whether the model is the virtual one, and whether the router is enabled
  abbrev pub route_model : Fields → Headers → Client → Exec (World redis) (Option Fields)
  route_model body headers client =
      if not (is_str c.config.router_virtual_model (get "model" body))
      then leave_alone (get "model" body) headers client
      else if not c.config.router_enabled
      then pure none
      else route_virtual body headers client

  abbrev pub route_routable : Fields → Exec (World redis) (Option Fields)
  route_routable body = do
    headers ← lift (extract_headers c.py body)
    route_model body headers (detect_client c.py headers)

  -- `none` is Python's None: the proxy goes on with the request as it is.
  unfoldable pub route : Fields → String → Exec (World redis) (Option Fields)
  unfolding route_enabled log_override
  route body call_type = if not (routable call_type) then pure none else route_routable body

  -- the handler of `async_pre_call_hook`
  abbrev pub fail_open : Fields → Outcome PoliciesConfig → Option Fields
  fail_open body (raise e) = none
  fail_open body (ok p) =
      if is_str c.config.router_virtual_model (get "model" body)
      then some (put "model" (str p.default_model) body)
      else none

  abbrev pub handled : Fields → Outcome (Option Fields) × World redis → Option Fields × World redis
  handled body (ok result, w) = (result, w)
  handled body (raise e, w) = (fail_open body c.policies, w)

  unfoldable pub async_pre_call_hook : Fields → String → World redis → Option Fields × World redis
  unfolding route
  async_pre_call_hook body call_type w = handled body (route body call_type w)
