-- ===== src/Hook/Concurrent/Alone.antt =====
-- A request that is alone takes its turns one after the other.
use lite_router.Prelude.{
  ℕ, zero, suc, ◌≡◌, refl, Bool, true, false, String, Option, none, some, if◌then◌else◌, is_some,
  ◌==◌, inl, inr, Bool-cases,
}
use lite_router.Outcome.{Outcome, Outcome-cases}
use lite_router.Exec.{Exec, ◌>>=◌, ◌>>◌, pure}
use lite_router.Json.{Fields, get}
use lite_router.Runtime.{one_float}
use lite_router.Policies.{Tier, PoliciesConfig}
use lite_router.DecisionLog.{DecisionEvent}
use lite_router.SessionKey.{first_user_message_text, first_message_hash, system_text}
use lite_router.Overrides.{match_path_override}
use lite_router.StateMachine.{
  SessionRecord, ClassifyResult, state_pinned, classifying_placeholder, build_pin_record,
}
use lite_router.Store.{Redis, Codec, get_and_refresh}
use lite_router.Hook.{
  Context, World, Call, ttl, prefix, or_list, msg_count_of, read_session, claim_session,
  pin_session, update_session, emit_event,
}
use lite_router.Hook.Keep.{plan_pinned, emit_planned, store_planned, handle_pinned}
use lite_router.Hook.First.{
  First, hints_of, classify_unless, tier_under, pin_subagent, pin_chosen, pin_session_root,
  pin_claimed, pin_first, handle_first_request,
}
use lite_router.Hook.Route.{decide}
use lite_router.Hook.Concurrent.{
  reading, claiming, reading_parent, Next, waits, answers, after_plan, found_turn, build_turn,
  override_turn, first_turn, claimed_turn, won_turn, turn,
}

module _ (redis : Redis) (codec : Codec redis) (c : Context) (p : PoliciesConfig) (call : Call)
    (body : Fields) where
  -- at most `n` turns of one request; `none` where it is still waiting
  unfoldable alone : ℕ → Next → Exec (World redis) (Option String)
  unfolding turn
  alone n (answers model) = pure (some model)
  alone zero (waits point) = pure none
  alone (suc n) (waits point) = turn redis codec c p call body point >>= alone n

  -- what a method returns
  abbrev answered : Exec (World redis) String → Exec (World redis) (Option String)
  answered action = do model ← action; pure (some model)

  build_turn-alone :
      (n : ℕ) (first : First) (matched : Option String) (result : Option ClassifyResult)
      (w : World redis)
      → (build_turn redis codec c p call first matched result (is_some matched) >>= alone (suc n)) w
        ≡ answered (pin_chosen redis codec c p call first matched result) w
  unfolding alone turn pin_chosen ◌>>=◌ pin_session emit_event
  build_turn-alone n first none result w =
      elim (Outcome-cases
        (build_pin_record p result false first.hash call.alias first.msg_count c.now)) [
          | inr (x, e) ↦ rw e refl
          | inl (r, e) ↦ rw e refl
        ]
  build_turn-alone n first (some m) result w =
      elim (Outcome-cases
        (build_pin_record p result true first.hash call.alias first.msg_count c.now)) [
          | inr (x, e) ↦ rw e refl
          | inl (r, e) ↦ rw e refl
        ]

  override_turn-alone :
      (n : ℕ) (first : First) (matched : Option String) (w : World redis)
      → (override_turn redis codec c p call first matched >>= alone (suc (suc n))) w
        ≡ answered
            (pin_chosen redis codec c p call first matched
              (classify_unless c p first (hints_of c call first) matched))
            w
  unfolding alone turn classify_unless ◌>>=◌
  override_turn-alone n first none w =
      build_turn-alone n first none (classify_unless c p first (hints_of c call first) none) w
  override_turn-alone n first (some m) w = build_turn-alone (suc n) first (some m) none w

  -- the pin of a subagent, by its tier
  abbrev subagent_pin : First → Tier → Outcome SessionRecord
  subagent_pin first tier =
      build_pin_record p
        (some (record {
          policy_name = tier.name;
          model = tier.model;
          confidence = one_float;
          latency_ms = none;
        }))
        false first.hash call.alias first.msg_count c.now

  parent_turn-alone :
      (n : ℕ) (first : First) (w : World redis)
      → alone (suc (suc n)) (waits (reading_parent first)) w
        ≡ answered (pin_subagent redis codec c p call first) w
  unfolding alone turn pin_subagent ◌>>=◌ read_session pin_session emit_event
  parent_turn-alone n first w =
      let found =
        (get_and_refresh redis codec (ttl redis codec c p) (prefix redis codec c p) call.base_key
          w.store).0 in
      elim (Outcome-cases (tier_under p found)) [
        | inr (x, e) ↦ rw e refl
        | inl (t, e) ↦ elim (Outcome-cases (subagent_pin first t)) [
          | inr (x, f) ↦ rw (e, f) refl
          | inl (r, f) ↦ rw (e, f) refl
        ]
      ]

  -- by whether the session is a subagent's
  by_subagent-alone :
      (routing : Bool) (n : ℕ) (first : First) (w : World redis)
      → ((if routing
              then pure (waits (reading_parent first))
              else override_turn redis codec c p call first
                  (match_path_override c.py (hints_of c call first) call.headers p))
            >>= alone (suc (suc n)))
          w
        ≡ answered
            (if routing
              then pin_subagent redis codec c p call first
              else pin_session_root redis codec c p call first)
            w
  unfolding pin_session_root alone ◌>>=◌
  by_subagent-alone true n first w = parent_turn-alone n first w
  by_subagent-alone false n first w =
      override_turn-alone n first (match_path_override c.py (hints_of c call first) call.headers p)
        w

  first_turn-alone :
      (n : ℕ) (first : First) (w : World redis)
      → (first_turn redis codec c p call first >>= alone (suc (suc n))) w
        ≡ answered (pin_first redis codec c p call first) w
  first_turn-alone n first w = by_subagent-alone call.subagent_routing n first w

  claimed_turn-alone :
      (n msg_count : ℕ) (w : World redis)
      → (claimed_turn redis codec c p call body msg_count >>= alone (suc (suc n))) w
        ≡ answered (pin_claimed redis codec c p body call msg_count) w
  unfolding pin_claimed ◌>>=◌
  claimed_turn-alone n msg_count w = elim (Outcome-cases (first_user_message_text body)) [
    | inr (x, e) ↦ rw e refl
    | inl (first_msg, e) ↦ elim (Outcome-cases (first_message_hash c.py body)) [
      | inr (x, f) ↦ rw (e, f) refl
      | inl (hash, f) ↦ elim (Outcome-cases (system_text body)) [
        | inr (x, g) ↦ rw (e, f, g) refl
        | inl (system, g) ↦ rw (e, f, g) (first_turn-alone n _ w)
      ]
    ]
  ]

  won_turn-alone :
      (n msg_count : ℕ) (won : Bool) (w : World redis)
      → (won_turn redis codec c p call body msg_count won >>= alone (suc (suc n))) w
        ≡ answered
            (if won then pin_claimed redis codec c p body call msg_count else pure p.default_model)
            w
  unfolding alone ◌>>=◌
  won_turn-alone n msg_count true w = claimed_turn-alone n msg_count w
  won_turn-alone n msg_count false w = refl

  claiming-alone :
      (n : ℕ) (w : World redis)
      → alone (suc (suc (suc n))) (waits claiming) w
        ≡ answered
            (handle_first_request redis codec c p body call
              (msg_count_of (or_list (get "messages" body))))
            w
  unfolding alone turn handle_first_request ◌>>=◌ claim_session
  claiming-alone n w = elim (Outcome-cases (classifying_placeholder p)) [
    | inr (x, e) ↦ rw e refl
    | inl (ph, e) ↦ rw e (won_turn-alone n _ _ _)
  ]

  planned_turn-alone :
      (n : ℕ) (event : Option DecisionEvent) (r : SessionRecord) (updated : Option SessionRecord)
      (w : World redis)
      → ((do emit_planned redis codec c p event; pure (after_plan r updated)) >>= alone (suc n)) w
        ≡ answered
            (do
              emit_planned redis codec c p event
              store_planned redis codec c p call.key r updated)
            w
  unfolding alone turn ◌>>=◌ emit_event update_session
  planned_turn-alone n none r none w = refl
  planned_turn-alone n (some event) r none w = refl
  planned_turn-alone n none r (some u) w = refl
  planned_turn-alone n (some event) r (some u) w = refl

  found_turn-alone :
      (n : ℕ) (found : Option SessionRecord) (w : World redis)
      → (found_turn redis codec c p call (or_list (get "messages" body)) found
            >>= alone (suc (suc (suc n))))
          w
        ≡ answered (decide redis codec c p body call (or_list (get "messages" body)) found) w
  unfolding decide handle_pinned alone ◌>>=◌
  found_turn-alone n none w = claiming-alone n w
  found_turn-alone n (some r) w = elim (Bool-cases (r.state == state_pinned)) [
    | inr e ↦ rw e refl
    | inl e ↦ elim (Outcome-cases (plan_pinned c p call r (or_list (get "messages" body)))) [
      | inr (x, f) ↦ rw (e, f) refl
      | inl (plan, f) ↦ rw (e, f) (planned_turn-alone (suc (suc n)) plan.event r plan.updated w)
    ]
  ]

  -- A request that no other interrupts takes at most four turns, and they are the method: from any
  -- state the turns, one after the other, end with the same result, an exception included, and in
  -- the same state as the read of the record and the three branches of `_route` run as a whole.
  alone-decide :
      (w : World redis)
      → alone 4 (waits reading) w
        ≡ (do
          found ← read_session redis codec c p call.key
          model ← decide redis codec c p body call (or_list (get "messages" body)) found
          pure (some model))
            w
  unfolding alone turn ◌>>=◌ read_session
  alone-decide w = found_turn-alone 0 _ _
