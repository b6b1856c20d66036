-- ===== src/Hook/Concurrent/Replies.antt =====
-- The model that a request of hook.py is answered with, by the await after which it is answered.
use lite_router.Prelude.{
  ℕ, ◌≡◌, refl, sym, Bool, true, false, String, Option, none, some, ◌==◌, eq_iff, ◌⊎◌, inl, inr,
  Bool-cases,
}
use lite_router.Outcome.{Outcome, ok, raise, Outcome-cases}
use lite_router.Exec.{Exec, ◌>>=◌, ◌>>◌, pure, lift}
use lite_router.Json.{Fields, Value}
use lite_router.Policies.{PoliciesConfig}
use lite_router.DecisionLog.{DecisionEvent}
use lite_router.SessionKey.{first_user_message_text, first_message_hash, system_text}
use lite_router.StateMachine.{
  SessionRecord, ClassifyResult, state_pinned, classifying_placeholder, build_pin_record,
}
use lite_router.Store.{Redis, Codec}
use lite_router.Store.Laws.{RedisLaws, CodecLaws}
use lite_router.Store.Reads.{get_and_refresh_reads}
use lite_router.Hook.{
  Context, World, Call, ttl, prefix, read_session, claim_session, pin_session, update_session,
  emit_event,
}
use lite_router.Hook.Keep.{plan_pinned, emit_planned}
use lite_router.Hook.First.{First, tier_under}
use lite_router.Hook.Sessions.{ses}
use lite_router.Hook.Concurrent.{
  Point, reading, claiming, reading_parent, classifying, pinning_subagent, pinning, updating, Next,
  waits, answers, after_plan, found_turn, build_turn, override_turn, first_turn, claimed_turn,
  won_turn, parent_turn, turn,
}
use lite_router.Hook.Concurrent.Turns.{pin_of}

-- Where the model comes from: the default, the session's pinned record, or the record that the
-- request has just pinned or updated.
pub data Reply (p : PoliciesConfig) (point : Point) (o : Option SessionRecord) (model : String)
    : Type 0 where
  default : model ≡ p.default_model → Reply p point o model
  kept :
      (r : SessionRecord)
      → o ≡ some r
      → r.state ≡ state_pinned
      → model ≡ r.model
      → Reply p point o model
  of_pin : (r : SessionRecord) → pin_of point ≡ some r → model ≡ r.model → Reply p point o model
  of_update : (u : SessionRecord) → point ≡ updating u → model ≡ u.model → Reply p point o model

module _ (redis : Redis) (p : PoliciesConfig) (point : Point) (o : Option SessionRecord) where
  -- the answer, if there is one
  abbrev Says : Outcome Next → Type 0
  Says (raise e) = Unit
  Says (ok (waits point')) = Unit
  Says (ok (answers model)) = Reply p point o model

  lift-Says :
      {A : Type 0} (result : Outcome A) (f : A → Exec (World redis) Next) (w : World redis)
      → ((a : A) → Says (f a w).0)
      → Says ((lift result >>= f) w).0
  unfolding ◌>>=◌
  lift-Says (ok a) f w h = h a
  lift-Says (raise e) f w h = tt

module _ (redis : Redis) (codec : Codec redis) (c : Context) (p : PoliciesConfig) (call : Call)
    (point : Point) (o : Option SessionRecord) where
  build_turn-Says :
      (first : First) (matched : Option String) (result : Option ClassifyResult) (override : Bool)
      (w : World redis)
      → Says redis p point o (build_turn redis codec c p call first matched result override w).0
  unfolding pure
  build_turn-Says first matched result override w =
      lift-Says redis p point o
        (build_pin_record p result override first.hash call.alias first.msg_count c.now) _ w
        (λ r. tt)

  override_turn-Says :
      (first : First) (matched : Option String) (w : World redis)
      → Says redis p point o (override_turn redis codec c p call first matched w).0
  unfolding pure
  override_turn-Says first none w = tt
  override_turn-Says first (some m) w = build_turn-Says first (some m) none true w

  first_turn-Says :
      (first : First) (w : World redis)
      → Says redis p point o (first_turn redis codec c p call first w).0
  unfolding pure
  first_turn-Says first w = elim (Bool-cases call.subagent_routing) [
    | inl e ↦ rw e tt
    | inr e ↦ rw e (override_turn-Says first _ w)
  ]

  claimed_turn-Says :
      (body : Fields) (n : ℕ) (w : World redis)
      → Says redis p point o (claimed_turn redis codec c p call body n w).0
  claimed_turn-Says body n w = lift-Says redis p point o (first_user_message_text body) _ w (λ text.
      lift-Says redis p point o (first_message_hash c.py body) _ w
        (λ hash. lift-Says redis p point o (system_text body) _ w (λ system. first_turn-Says _ w)))

  won_turn-Says :
      (body : Fields) (n : ℕ) (won : Bool) (w : World redis)
      → Says redis p point o (won_turn redis codec c p call body n won w).0
  unfolding pure
  won_turn-Says body n true w = claimed_turn-Says body n w
  won_turn-Says body n false w = default refl

  parent_turn-Says :
      (first : First) (parent : Option SessionRecord) (w : World redis)
      → Says redis p point o (parent_turn redis codec c p call first parent w).0
  unfolding pure
  parent_turn-Says first parent w = lift-Says redis p point o (tier_under p parent) _ w (λ tier.
      lift-Says redis p point o
        (build_pin_record p _ false first.hash call.alias first.msg_count c.now) _ w (λ r. tt))

  planned_turn-Says :
      (event : Option DecisionEvent) (r : SessionRecord) (updated : Option SessionRecord)
      (w : World redis)
      → o ≡ some r
      → r.state ≡ state_pinned
      → Says redis p point o
          ((do emit_planned redis codec c p event; pure (after_plan r updated)) w).0
  unfolding emit_event ◌>>=◌
  planned_turn-Says none r none w at pinned = kept r at pinned refl
  planned_turn-Says (some event) r none w at pinned = kept r at pinned refl
  planned_turn-Says none r (some u) w at pinned = tt
  planned_turn-Says (some event) r (some u) w at pinned = tt

  found_turn-Says :
      (messages : Value) (found : Option SessionRecord) (w : World redis)
      → (found ≡ none) ⊎ (found ≡ o)
      → Says redis p point o (found_turn redis codec c p call messages found w).0
  unfolding ◌>>=◌
  found_turn-Says messages none w reads = tt
  found_turn-Says messages (some r) w (inl nothing) = absurd (cc)
  found_turn-Says messages (some r) w (inr there) = elim (Bool-cases (r.state == state_pinned)) [
    | inr e ↦ rw e (default refl)
    | inl e ↦ elim (Outcome-cases (plan_pinned c p call r messages)) [
      | inr (x, f) ↦ rw (e, f) tt
      | inl (plan, f) ↦
          rw (e, f)
            (planned_turn-Says plan.event r plan.updated w (sym there)
              ((eq_iff r.state state_pinned).0 e))
    ]
  ]

module _ (redis : Redis) (codec : Codec redis) (c : Context) (p : PoliciesConfig) (call : Call)
    (laws : RedisLaws redis) (json : CodecLaws redis codec) where
  -- the answer of a turn in `w`, if there is one
  abbrev TurnSays : Fields → Point → World redis → Type 0
  TurnSays body point w =
      Says redis p point (ses redis codec c p laws json w call.key)
        (turn redis codec c p call body point w).0

  turn-Says : (body : Fields) (point : Point) (w : World redis) → TurnSays body point w
  unfolding turn read_session claim_session pin_session update_session emit_event ◌>>=◌
  turn-Says body reading w = found_turn-Says redis codec c p call reading _ _ _ _ (
      get_and_refresh_reads redis codec (ttl redis codec c p) (prefix redis codec c p) laws json
        call.key w.store)
  turn-Says body claiming w = elim (Outcome-cases (classifying_placeholder p)) [
    | inr (x, e) ↦ rw e tt
    | inl (ph, e) ↦ rw e (won_turn-Says redis codec c p call claiming _ body _ _ _)
  ]
  turn-Says body (reading_parent first) w =
      parent_turn-Says redis codec c p call (reading_parent first) _ first _ _
  turn-Says body (classifying first) w =
      build_turn-Says redis codec c p call (classifying first) _ first none _ false w
  turn-Says body (pinning_subagent first r) w = of_pin r refl refl
  turn-Says body (pinning first none result r) w = of_pin r refl refl
  turn-Says body (pinning first (some m) result r) w = of_pin r refl refl
  turn-Says body (updating u) w = of_update u refl refl

  -- What a request is answered with is the default, or the model of one of three records.
  pub turn-Reply :
      (body : Fields) (point : Point) (w : World redis) (model : String)
      → (turn redis codec c p call body point w).0 ≡ ok (answers model)
      → Reply p point (ses redis codec c p laws json w call.key) model
  turn-Reply body point w model h = rw h at (turn-Says body point w)
