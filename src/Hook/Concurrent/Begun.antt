-- ===== src/Hook/Concurrent/Begun.antt =====
-- The parts of a turn that run after the awaited call: from a claim that was won, or with the tier
-- or the classifier's answer, to the pin that is written next.
use lite_router.Prelude.{
  ℕ, ◌≡◌, refl, ap, Bool, true, false, String, Option, none, some, inl, inr, Bool-cases, get_or,
  arith,
}
use lite_router.Outcome.{Outcome, ok, raise, Outcome-cases}
use lite_router.Exec.{Exec, ◌>>=◌, pure, lift}
use lite_router.Json.{Fields}
use lite_router.Runtime.{Float}
use lite_router.SessionKey.{first_user_message_text, first_message_hash, system_text}
use lite_router.Policies.{PoliciesConfig, IsValid, default_tier}
use lite_router.StateMachine.{
  SessionRecord, ClassifyResult, state_classifying, classifying_placeholder, build_pin_record,
}
use lite_router.StateMachine.Pin.{build_pin_record-Pins}
use lite_router.Store.{Redis, Codec}
use lite_router.Hook.{Context, World, Call}
use lite_router.Hook.First.{First, tier_under}
use lite_router.Hook.Concurrent.{
  reading_parent, classifying, pinning_subagent, pinning, Next, build_turn, override_turn,
  first_turn, claimed_turn, parent_turn,
}
use lite_router.Hook.Concurrent.Turns.{Born, Begins, ends, begins}

module _ (redis : Redis) (p : PoliciesConfig) where
  -- nothing changes meanwhile
  abbrev pub Quiet : World redis → Outcome Next × World redis → Type 0
  Quiet w x = (x.1 ≡ w) × Begins p x.0

  lift-Quiet :
      {A : Type 0} (o : Outcome A) (f : A → Exec (World redis) Next) (w : World redis)
      → ((a : A) → o ≡ ok a → Quiet w (f a w))
      → Quiet w ((lift o >>= f) w)
  unfolding ◌>>=◌
  lift-Quiet (ok a) f w h = h a refl
  lift-Quiet (raise e) f w h = (refl, ends tt)

same_built : {a b : SessionRecord} {o : Outcome SessionRecord} → o ≡ ok a → o ≡ ok b → a ≡ b
same_built h k = cc

pub placeholder-state :
    (p : PoliciesConfig) (ph : SessionRecord)
    → classifying_placeholder p ≡ ok ph
    → ph.state ≡ state_classifying
unfolding classifying_placeholder
placeholder-state p ph h = elim (Outcome-cases (default_tier p)) [
  | inl (t, e) ↦ ground (arith, e)
  | inr (x, e) ↦ absurd (ground (arith, e))
]

build_pin_record-Born :
    (p : PoliciesConfig) (result : Option ClassifyResult) (override : Bool) (hash alias : String)
    (n : ℕ) (now : Float) (r : SessionRecord)
    → IsValid p
    → build_pin_record p result override hash alias n now ≡ ok r
    → Born p r
build_pin_record-Born p result override hash alias n now r valid h =
    let (b, _, built, _, _, _, state, _, fresh, _, listed) =
      build_pin_record-Pins p result override hash alias n now valid in
    rw (same_built h built)
      (record { pinned = state; fresh = ap (λ o. get_or o 0) fresh; listed = listed })

module _ (redis : Redis) (codec : Codec redis) (c : Context) (p : PoliciesConfig)
    (valid : IsValid p) (call : Call) where
  pub build_turn-Quiet :
      (first : First) (matched : Option String) (result : Option ClassifyResult) (override : Bool)
      (w : World redis)
      → Quiet redis p w (build_turn redis codec c p call first matched result override w)
  unfolding pure
  build_turn-Quiet first matched result override w =
      lift-Quiet redis p
        (build_pin_record p result override first.hash call.alias first.msg_count c.now) _ w
        (λ r e. (
          refl,
          begins (pinning first matched result r)
              (build_pin_record-Born p result override first.hash call.alias first.msg_count c.now r
                valid e)
              refl,
        ))

  override_turn-Quiet :
      (first : First) (matched : Option String) (w : World redis)
      → Quiet redis p w (override_turn redis codec c p call first matched w)
  unfolding pure
  override_turn-Quiet first none w = (refl, begins (classifying first) tt refl)
  override_turn-Quiet first (some m) w = build_turn-Quiet first (some m) none true w

  first_turn-Quiet :
      (first : First) (w : World redis) → Quiet redis p w (first_turn redis codec c p call first w)
  unfolding pure
  first_turn-Quiet first w = elim (Bool-cases call.subagent_routing) [
    | inl e ↦ rw e (refl, begins (reading_parent first) tt refl)
    | inr e ↦ rw e (override_turn-Quiet first _ w)
  ]

  pub claimed_turn-Quiet :
      (body : Fields) (n : ℕ) (w : World redis)
      → Quiet redis p w (claimed_turn redis codec c p call body n w)
  claimed_turn-Quiet body n w = lift-Quiet redis p (first_user_message_text body) _ w (λ text _.
      lift-Quiet redis p (first_message_hash c.py body) _ w
        (λ hash _. lift-Quiet redis p (system_text body) _ w (λ system _. first_turn-Quiet _ w)))

  pub parent_turn-Quiet :
      (first : First) (parent : Option SessionRecord) (w : World redis)
      → Quiet redis p w (parent_turn redis codec c p call first parent w)
  unfolding pure
  parent_turn-Quiet first parent w = lift-Quiet redis p (tier_under p parent) _ w (λ tier _.
      lift-Quiet redis p (build_pin_record p _ false first.hash call.alias first.msg_count c.now) _
        w
        (λ r e.
          let born =
            build_pin_record-Born p _ false first.hash call.alias first.msg_count c.now r valid e in
          (
            refl,
            begins (pinning_subagent first (record r { subagent = some true }))
                (record { pinned = born.pinned; fresh = born.fresh; listed = born.listed }) refl,
          )))
