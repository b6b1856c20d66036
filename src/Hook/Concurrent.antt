-- ===== src/Hook/Concurrent.antt =====
-- Requests that overlap. A request of hook.py runs without interruption from one await to the next;
-- at an await any other request may go on. Here a request is a task that stands at one of its
-- awaits, from the read of its record to the answer of `_handle_pinned` or
-- `_handle_first_request`.
pub mod Alone
pub mod Turns
pub mod Begun
pub mod Takes
pub mod Apart
pub mod Owners
pub mod Phases
pub mod Steps
pub mod Keeps
pub mod Once
pub mod Replies
pub mod Served
pub mod Pins
use lite_router.Prelude.{
  ℕ, zero, suc, Bool, true, false, String, Option, none, some, List, [], ◌∷◌, ◌==◌, if◌then◌else◌,
}
use lite_router.Prelude.Text
use lite_router.Outcome.{Outcome, ok, raise}
use lite_router.Exec.{Exec, ◌>>=◌, ◌>>◌, pure, lift}
use lite_router.Runtime.{one_float}
use lite_router.Json.{Value, Fields, get}
use lite_router.Policies.{PoliciesConfig}
use lite_router.SessionKey.{first_user_message_text, first_message_hash, system_text}
use lite_router.StateMachine.{
  SessionRecord, ClassifyResult, state_pinned, classifying_placeholder, build_pin_record,
}
use lite_router.Overrides.{match_path_override}
use lite_router.Store.{Redis, Codec}
use lite_router.Hook.{
  Context, World, Call, or_list, msg_count_of, read_session, claim_session, pin_session,
  update_session, emit_event,
}
use lite_router.Hook.Keep.{plan_pinned, emit_planned}
use lite_router.Hook.First.{
  First, hints_of, classify_unless, tier_under, subagent_event, pinned_event, emit_classified,
}
use lite_router.Hook.Serving.{Arrival, context_of}

-- A request whose session key is derived.
pub record Request : Type 0 where
  pub arrival : Arrival
  pub call : Call

-- The await that a request stands at, with what it has computed before.
pub data Point : Type 0 where
  -- `store.get_and_refresh(key)` in `_route`
  reading : Point
  -- `store.claim_for_classification`
  claiming : Point
  -- `store.get_and_refresh(base_key)`
  reading_parent : First → Point
  -- `classifier.classify`
  classifying : First → Point
  -- `store.write_pin` of a subagent's session, and of another
  pinning_subagent : First → SessionRecord → Point
  pinning : First → Option String → Option ClassifyResult → SessionRecord → Point
  -- `store.update`
  updating : SessionRecord → Point

-- where a request stands after its turn: at its next await, or it has decided its model
pub data Next : Type 0 where
  waits : Point → Next
  answers : String → Next

-- the record that a pinned request stores, if any
abbrev pub after_plan : SessionRecord → Option SessionRecord → Next
after_plan r none = answers r.model
after_plan r (some updated) = waits (updating updated)

module _ (redis : Redis) (codec : Codec redis) (c : Context) (p : PoliciesConfig)
    (call : Call) where
  -- `_handle_pinned` up to its await
  abbrev keep_turn : SessionRecord → Value → Exec (World redis) Next
  keep_turn r messages = do
    plan ← lift (plan_pinned c p call r messages)
    emit_planned redis codec c p plan.event
    pure (after_plan r plan.updated)

  -- the three cases of `record` in `_route`
  abbrev pub found_turn : Value → Option SessionRecord → Exec (World redis) Next
  found_turn messages none = pure (waits claiming)
  found_turn messages (some r) =
      if r.state == state_pinned then keep_turn r messages else pure (answers p.default_model)

  -- the pin that is written next
  abbrev pub build_turn :
      First → Option String → Option ClassifyResult → Bool → Exec (World redis) Next
  build_turn first matched result override = do
    pinned ← lift (build_pin_record p result override first.hash call.alias first.msg_count c.now)
    pure (waits (pinning first matched result pinned))

  -- by the path override, under which no classifier is called
  abbrev pub override_turn : First → Option String → Exec (World redis) Next
  override_turn first none = pure (waits (classifying first))
  override_turn first (some m) = build_turn first (some m) none true

  abbrev pub first_turn : First → Exec (World redis) Next
  first_turn first =
      if call.subagent_routing
      then pure (waits (reading_parent first))
      else override_turn first (match_path_override c.py (hints_of c call first) call.headers p)

  -- from the claim that was won to the next await
  abbrev pub claimed_turn : Fields → ℕ → Exec (World redis) Next
  claimed_turn body msg_count = do
    first_msg ← lift (first_user_message_text body)
    hash ← lift (first_message_hash c.py body)
    system ← lift (system_text body)
    first_turn
        (record { first_msg = first_msg; hash = hash; system = system; msg_count = msg_count })

  abbrev pub won_turn : Fields → ℕ → Bool → Exec (World redis) Next
  won_turn body msg_count won =
      if won then claimed_turn body msg_count else pure (answers p.default_model)

  abbrev pub parent_turn : First → Option SessionRecord → Exec (World redis) Next
  parent_turn first parent = do
    tier ← lift (tier_under p parent)
    pinned ← lift (
        build_pin_record p
          (some (record {
            policy_name = tier.name;
            model = tier.model;
            confidence = one_float;
            latency_ms = none;
          }))
          false first.hash call.alias first.msg_count c.now)
    pure (waits (pinning_subagent first (record pinned { subagent = some true })))

  -- A turn of a request: the call that it awaits is made, and it runs on to its next await.
  unfoldable pub turn : Fields → Point → Exec (World redis) Next
  turn body reading = do
    found ← read_session redis codec c p call.key
    found_turn (or_list (get "messages" body)) found
  turn body claiming = do
    placeholder ← lift (classifying_placeholder p)
    won ← claim_session redis codec c p call.key placeholder
    won_turn body (msg_count_of (or_list (get "messages" body))) won
  turn body (reading_parent first) = do
    parent ← read_session redis codec c p call.base_key
    parent_turn first parent
  turn body (classifying first) =
      build_turn first none (classify_unless c p first (hints_of c call first) none) false
  turn body (pinning_subagent first pinned) = do
    pin_session redis codec c p call.key pinned
    emit_event redis codec c p (subagent_event c call first pinned)
    pure (answers pinned.model)
  turn body (pinning first matched result pinned) = do
    pin_session redis codec c p call.key pinned
    emit_classified redis codec c p call first pinned result matched
    emit_event redis codec c p (pinned_event c call first pinned matched)
    pure (answers pinned.model)
  turn body (updating updated) = do
    update_session redis codec c p call.key updated
    pure (answers updated.model)

-- a request that is not answered yet
pub record Task : Type 0 where
  pub request : Request
  pub at : Point

-- A request comes in; the turn of a task; a task that is cancelled before its call is made, as where the
-- client has gone.
pub data Act : Type 0 where
  arrives : Request → Act
  goes cancels : ℕ → Act

-- the n-th task, and the others
abbrev pub pick : ℕ → List Task → Option (Task × List Task)
pick n [] = none
pick zero (t ∷ ts) = some (t, ts)
pick (suc n) (t ∷ ts) = elim (pick n ts) [ none ↦ none | some (u, us) ↦ some (u, t ∷ us) ]

-- the tasks after a turn: one that raises is answered by the handler of `async_pre_call_hook`
abbrev pub goes_on : Request → Outcome Next → List Task → List Task
goes_on q (ok (waits point)) rest = record { request = q; at = point } ∷ rest
goes_on q (ok (answers model)) rest = rest
goes_on q (raise e) rest = rest

module _ (redis : Redis) (codec : Codec redis) (c : Context) (p : PoliciesConfig) where
  pub record Live : Type 0 where
    pub world : World redis
    pub tasks : List Task

  -- no request yet
  abbrev pub start : World redis → Live
  start w = record { world = w; tasks = [] }

  abbrev pub task_turn : Task → Exec (World redis) Next
  task_turn t =
      turn redis codec (context_of c t.request.arrival) p t.request.call t.request.arrival.body t.at

  abbrev took_turn : Request → List Task → Outcome Next × World redis → Live
  took_turn q rest (next, world) = record { world = world; tasks = goes_on q next rest }

  abbrev pub picked_turn : Live → Option (Task × List Task) → Live
  picked_turn s none = s
  picked_turn s (some (t, rest)) = took_turn t.request rest (task_turn t s.world)

  abbrev pub without : Live → Option (Task × List Task) → Live
  without s none = s
  without s (some (t, rest)) = record s { tasks = rest }

  unfoldable pub act : Live → Act → Live
  act s (arrives q) = record s { tasks = record { request = q; at = reading } ∷ s.tasks }
  act s (goes n) = picked_turn s (pick n s.tasks)
  act s (cancels n) = without s (pick n s.tasks)

  unfoldable pub overlap : List Act → Live → Live
  overlap [] s = s
  overlap (a ∷ rest) s = overlap rest (act s a)
