-- ===== src/Hook/Advances.antt =====
-- The parts of hook.py and the pinned sessions in the store: the relation that one request brings
-- about.
use lite_router.Prelude.{
  ℕ, ◌≡◌, refl, sym, ap, ◌∙◌, Bool, true, false, String, Option, none, some, if◌then◌else◌, ◌==◌,
  eq_iff, Bool-cases, inl, inr, ◌⊎◌,
}
use lite_router.Outcome.{Outcome, ok, raise, Outcome-cases}
use lite_router.Exec.{◌>>=◌, ◌>>◌, continue, pure}
use lite_router.DecisionLog.{DecisionEvent}
use lite_router.Json.{Fields, Value}
use lite_router.Policies.{PoliciesConfig}
use lite_router.StateMachine.{SessionRecord, state_pinned, classifying_placeholder}
use lite_router.Store.{Redis, Codec}
use lite_router.Store.Laws.{RedisLaws, CodecLaws}
use lite_router.Store.Sessions.{claim-none, claim-Wrote, update-Wrote}
use lite_router.Hook.{
  Context, World, Call, ttl, prefix, claim_session, update_session, msg_count_of,
}
use lite_router.Hook.Keep.{Plan, emit_planned, store_planned, handle_pinned, plan_pinned}
use lite_router.Hook.First.{pin_claimed, handle_first_request}
use lite_router.Hook.Pinned.{Moved, stayed, plan_pinned-Moved}
use lite_router.Hook.Sessions.{ses, Others, SameSessions, emit_event-Same, keep_pin_claimed}
use lite_router.Hook.Route.{decide}

same_record : {a b : SessionRecord} {o : Option SessionRecord} → o ≡ some a → o ≡ some b → a ≡ b
same_record h k = cc

same_found : {a b : Option SessionRecord} → ok a ≡ ok b → a ≡ b
same_found h = cc

same_bool : {a b : Bool} → ok a ≡ ok b → a ≡ b
same_bool h = cc

module _ (redis : Redis) (codec : Codec redis) (c : Context) (p : PoliciesConfig)
    (laws : RedisLaws redis) (json : CodecLaws redis codec) where
  -- Every pinned session is still there, and has moved as one request may move it.
  abbrev pub Advances : World redis → World redis → Type 0
  Advances w w' =
      (j : String) (r : SessionRecord)
      → ses redis codec c p laws json w j ≡ some r
      → r.state ≡ state_pinned
      → (r' : SessionRecord) × (ses redis codec c p laws json w' j ≡ some r') × Moved p r r'

  pub Advances-of_Same :
      (w w' : World redis) → SameSessions redis codec c p laws json w w' → Advances w w'
  Advances-of_Same w w' same j r h pinned = (r, same j ∙ h, stayed refl)

  -- where the one session that changed was not there before
  Advances-of_Others :
      (key : String) (w w' : World redis)
      → ses redis codec c p laws json w key ≡ none
      → Others redis codec c p laws json key w w'
      → Advances w w'
  Advances-of_Others key w w' absent others j r h pinned = elim (Bool-cases (key == j)) [
    | inl e ↦ absurd (cc (absent, h, (eq_iff key j).0 e))
    | inr e ↦ (r, others j e ∙ h, stayed refl)
  ]

  -- where one session was given a record that its own may move to, or nothing changed
  Advances-of_Wrote :
      (key : String) (r u : SessionRecord) (w w' : World redis)
      → ses redis codec c p laws json w key ≡ some r
      → Moved p r u
      → SameSessions redis codec c p laws json w w'
        ⊎ ((j : String)
            → ses redis codec c p laws json w' j
              ≡ (if key == j then some u else ses redis codec c p laws json w j))
      → Advances w w'
  Advances-of_Wrote key r u w w' at moved (inl same) = Advances-of_Same w w' same
  Advances-of_Wrote key r u w w' at moved (inr wrote) = λ j r' h pinned.
      elim (Bool-cases (key == j)) [
        | inl e ↦
            let here : r ≡ r' =
              same_record at (ap (ses redis codec c p laws json w) ((eq_iff key j).0 e) ∙ h) in
            (u, (rw e at (wrote j)), (rw here at moved))
        | inr e ↦ (r', (rw e at (wrote j)) ∙ h, stayed refl)
      ]

  claim-Others :
      (key : String) (ph : SessionRecord) (w : World redis)
      → SameSessions redis codec c p laws json w (claim_session redis codec c p key ph w).1
        ⊎ ((ses redis codec c p laws json w key ≡ none)
            × Others redis codec c p laws json key w (claim_session redis codec c p key ph w).1)
  unfolding claim_session
  claim-Others key ph w =
      elim (claim-Wrote redis codec (ttl redis codec c p) (prefix redis codec c p) laws json key ph
        w.store) [
          | inl same ↦ inl same
          | inr (absent, wrote) ↦ inr (absent, λ j ne. rw ne at (wrote j))
        ]

  won-none :
      (key : String) (ph : SessionRecord) (w : World redis)
      → (claim_session redis codec c p key ph w).0 ≡ ok true
      → ses redis codec c p laws json w key ≡ none
  unfolding claim_session
  won-none key ph w h =
      claim-none redis codec (ttl redis codec c p) (prefix redis codec c p) laws json key ph w.store
        (same_bool h)

  claimed-Others :
      (key : String) (ph : SessionRecord) (w : World redis)
      → Others redis codec c p laws json key w (claim_session redis codec c p key ph w).1
  claimed-Others key ph w = elim (claim-Others key ph w) [
    | inl same ↦ λ j _. same j
    | inr (_, others) ↦ others
  ]

  -- the rest of the first request, by the result of the claim
  after_claim :
      (body : Fields) (call : Call) (n : ℕ) (w : World redis) (x : Outcome Bool × World redis)
      → (x.0 ≡ ok true → ses redis codec c p laws json w call.key ≡ none)
      → Others redis codec c p laws json call.key w x.1
      → SameSessions redis codec c p laws json w x.1
        ⊎ ((ses redis codec c p laws json w call.key ≡ none)
            × Others redis codec c p laws json call.key w x.1)
      → Advances w
          (continue
            (λ won. if won then pin_claimed redis codec c p body call n else pure p.default_model)
            x).1
  unfolding pure
  after_claim body call n w (ok true, w₁) absent others effect =
      Advances-of_Others call.key w (pin_claimed redis codec c p body call n w₁).1 (absent refl)
        ((keep_pin_claimed redis codec c p laws json call w body n).after w₁ others)
  after_claim body call n w (ok false, w₁) absent others (inl same) = Advances-of_Same w w₁ same
  after_claim body call n w (ok false, w₁) absent others (inr (none_, others')) =
      Advances-of_Others call.key w w₁ none_ others'
  after_claim body call n w (raise x, w₁) absent others (inl same) = Advances-of_Same w w₁ same
  after_claim body call n w (raise x, w₁) absent others (inr (none_, others')) =
      Advances-of_Others call.key w w₁ none_ others'

  handle_first_request-Advances :
      (body : Fields) (call : Call) (n : ℕ) (w : World redis)
      → Advances w (handle_first_request redis codec c p body call n w).1
  unfolding handle_first_request ◌>>=◌
  handle_first_request-Advances body call n w = elim (Outcome-cases (classifying_placeholder p)) [
    | inr (x, e) ↦ rw e (Advances-of_Same w w (λ j. refl))
    | inl (ph, e) ↦ rw e (
        after_claim body call n w (claim_session redis codec c p call.key ph w)
          (won-none call.key ph w) (claimed-Others call.key ph w) (claim-Others call.key ph w))
  ]

  update-Advances :
      (key : String) (r u : SessionRecord) (w : World redis)
      → ses redis codec c p laws json w key ≡ some r
      → Moved p r u
      → Advances w (update_session redis codec c p key u w).1
  unfolding update_session
  update-Advances key r u w at moved =
      Advances-of_Wrote key r u w (update_session redis codec c p key u w).1 at moved (
        update-Wrote redis codec (ttl redis codec c p) (prefix redis codec c p) laws json key u
          w.store)

  store_planned-Advances :
      (key : String) (r : SessionRecord) (updated : Option SessionRecord) (w : World redis)
      → ses redis codec c p laws json w key ≡ some r
      → ((u : SessionRecord) → updated ≡ some u → Moved p r u)
      → Advances w (store_planned redis codec c p key r updated w).1
  unfolding ◌>>=◌ update_session
  store_planned-Advances key r none w at moved = Advances-of_Same w w (λ j. refl)
  store_planned-Advances key r (some u) w at moved = update-Advances key r u w at (moved u refl)

  emit_planned-Same :
      (event : Option DecisionEvent) (w : World redis)
      → SameSessions redis codec c p laws json w (emit_planned redis codec c p event w).1
  unfolding pure
  emit_planned-Same none w j = refl
  emit_planned-Same (some event) w j = emit_event-Same redis codec c p laws json event w j

  pub Advances-from :
      (w w₁ w₂ : World redis)
      → SameSessions redis codec c p laws json w w₁
      → Advances w₁ w₂
      → Advances w w₂
  Advances-from w w₁ w₂ same h j r at pinned = h j r (same j ∙ at) pinned

  after_emit :
      (call : Call) (r : SessionRecord) (messages : Value) (w : World redis) (plan : Plan)
      (x : Outcome (Unit {0}) × World redis)
      → SameSessions redis codec c p laws json w x.1
      → ses redis codec c p laws json w call.key ≡ some r
      → plan_pinned c p call r messages ≡ ok plan
      → Advances w (continue (λ _. store_planned redis codec c p call.key r plan.updated) x).1
  after_emit call r messages w plan (raise x, w₁) same at e = Advances-of_Same w w₁ same
  after_emit call r messages w plan (ok a, w₁) same at e =
      Advances-from w w₁ (store_planned redis codec c p call.key r plan.updated w₁).1 same (
        store_planned-Advances call.key r plan.updated w₁ (same call.key ∙ at)
          (λ u k. plan_pinned-Moved c p call r messages plan u e k))

  -- what `_handle_pinned` does once its plan is made
  after_plan :
      (call : Call) (r : SessionRecord) (messages : Value) (w : World redis) (plan : Plan)
      → ses redis codec c p laws json w call.key ≡ some r
      → plan_pinned c p call r messages ≡ ok plan
      → Advances w
          ((do
            emit_planned redis codec c p plan.event
            store_planned redis codec c p call.key r plan.updated)
            w).1
  unfolding ◌>>=◌
  after_plan call r messages w plan at e =
      after_emit call r messages w plan (emit_planned redis codec c p plan.event w)
        (emit_planned-Same plan.event w) at e

  handle_pinned-Advances :
      (call : Call) (r : SessionRecord) (messages : Value) (w : World redis)
      → ses redis codec c p laws json w call.key ≡ some r
      → Advances w (handle_pinned redis codec c p call r messages w).1
  unfolding handle_pinned ◌>>=◌
  handle_pinned-Advances call r messages w at =
      elim (Outcome-cases (plan_pinned c p call r messages)) [
        | inr (x, e) ↦ rw e (Advances-of_Same w w (λ j. refl))
        | inl (plan, e) ↦ rw e (after_plan call r messages w plan at e)
      ]

  pub decide-Advances :
      (body : Fields) (call : Call) (messages : Value) (found : Option SessionRecord)
      (w : World redis)
      → (found ≡ none) ⊎ (found ≡ ses redis codec c p laws json w call.key)
      → Advances w (decide redis codec c p body call messages found w).1
  unfolding decide pure
  decide-Advances body call messages none w at =
      handle_first_request-Advances body call (msg_count_of messages) w
  decide-Advances body call messages (some r) w (inl e) = absurd (cc e)
  decide-Advances body call messages (some r) w (inr e) =
      elim (Bool-cases (r.state == state_pinned)) [
        | inl f ↦ rw f (handle_pinned-Advances call r messages w (sym e))
        | inr f ↦ rw f (Advances-of_Same w w (λ j. refl))
      ]
