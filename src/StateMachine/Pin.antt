-- ===== src/StateMachine/Pin.antt =====
-- The first pin of a session, and the tier of a subagent.
use lite_router.Prelude.{
  ℕ, ◌≡◌, refl, Bool, true, false, String, Option, none, some, arith, inl, inr, Option-cases,
}
use lite_router.Outcome.{Outcome, ok}
use lite_router.Runtime.{Float, zero_float, one_float}
use lite_router.Policies.{Tier, PoliciesConfig, IsValid, tier_by_name, tier_index, default_tier}
use lite_router.Policies.Valid.{
  tier_index-tier_by_name, tier_index-tier_at, default_tier-listed, force_tier-found,
}
use lite_router.StateMachine.{
  SessionRecord, ClassifyResult, Choice, state_pinned, choose, pin_of, build_pin_record,
}
use lite_router.Escalation.Turn.{to_dict}

-- Which tier a first pin takes: the forced one under a path override, else the classifier's where
-- the policies know it, else the default. The model is the tier's own, but for the default pin,
-- whose model is `default_model`.
pub data Pins (p : PoliciesConfig) (classify : Option ClassifyResult) (override : Bool) (c : Choice)
    : Type 0 where
  forced :
      (t : Tier)
      → override ≡ true
      → tier_by_name p p.path_overrides.force_tier ≡ some t
      → c ≡ record {
        policy_name = t.name;
        model = t.model;
        confidence = one_float;
        classified = false;
      }
      → Pins p classify override c
  by_classifier :
      (r : ClassifyResult) (t : Tier)
      → override ≡ false
      → classify ≡ some r
      → tier_by_name p r.policy_name ≡ some t
      → c ≡ record {
        policy_name = r.policy_name;
        model = t.model;
        confidence = r.confidence;
        classified = true;
      }
      → Pins p classify override c
  by_default :
      (t : Tier)
      → override ≡ false
      → ((r : ClassifyResult) → classify ≡ some r → tier_by_name p r.policy_name ≡ none)
      → default_tier p ≡ ok t
      → c ≡ record {
        policy_name = t.name;
        model = p.default_model;
        confidence = zero_float;
        classified = false;
      }
      → Pins p classify override c

same_result : {a b : ClassifyResult} → some a ≡ some b → a ≡ b
same_result h = cc

same_tier : {a b : Tier} {o : Option Tier} → o ≡ some a → o ≡ some b → a ≡ b
same_tier h k = cc

same_default : {a b : Tier} {o : Outcome Tier} → o ≡ ok a → o ≡ ok b → a ≡ b
same_default h k = cc

choose-Pins :
    (p : PoliciesConfig) (classify : Option ClassifyResult) (override : Bool)
    → IsValid p
    → (c : Choice) × (choose p classify override ≡ ok c) × Pins p classify override c
unfolding choose
choose-Pins p classify true v =
    let (t, found) = force_tier-found p v in (_, rw found, forced t refl found refl)
choose-Pins p none false v =
    let (i, t, chosen, _, _) = default_tier-listed p v in
    (_, rw chosen, by_default t refl (λ r e. cc) chosen refl)
choose-Pins p (some r) false v = elim (Option-cases (tier_by_name p r.policy_name)) [
  | inl unknown ↦
      let (i, t, chosen, _, _) = default_tier-listed p v in
      (
        _,
        ground (arith, unknown, chosen),
        by_default t refl (λ q e. rw (same_result e) at unknown) chosen refl,
      )
  | inr (t, found) ↦ (_, ground (arith, found), by_classifier r t refl refl found refl)
]

-- A choice names a tier that the policies list.
Pins-listed :
    (p : PoliciesConfig) (classify : Option ClassifyResult) (override : Bool) (c : Choice)
    → IsValid p
    → Pins p classify override c
    → (i : ℕ) × (tier_index p c.policy_name ≡ ok i)
Pins-listed p classify override c v (forced t o found e) =
    elim (tier_index-tier_by_name p p.path_overrides.force_tier) [
      | inl (i, u, at, found', there, named, _) ↦
          (i, rw e (tier_index-tier_at p i t v (rw (same_tier found' found) at there)))
      | inr (_, unknown) ↦ absurd (cc (found, unknown))
    ]
Pins-listed p classify override c v (by_classifier r t o k found e) =
    elim (tier_index-tier_by_name p r.policy_name) [
      | inl (i, u, at, _, _, _, _) ↦ (i, rw e at)
      | inr (_, unknown) ↦ absurd (cc (found, unknown))
    ]
Pins-listed p classify override c v (by_default t o k chosen e) =
    let (i, u, chosen', there, _) = default_tier-listed p v in
    (i, rw e (tier_index-tier_at p i t v (rw (same_default chosen' chosen) at there)))

-- On validated policies the first pin never raises. Its tier and model follow the precedence of
-- path override, classifier and default, the tier is listed, and the record is pinned with no
-- escalation, and with a scan state that has read all `msg_count` messages and counts no failures.
pub build_pin_record-Pins :
    (p : PoliciesConfig) (classify : Option ClassifyResult) (override : Bool) (hash alias : String)
    (msg_count : ℕ) (now : Float)
    → IsValid p
    → (r : SessionRecord) × (c : Choice) × (build_pin_record p classify override hash alias
          msg_count now
        ≡ ok r)
      × Pins p classify override c
      × (r.policy_name ≡ c.policy_name)
      × (r.model ≡ c.model)
      × (r.state ≡ state_pinned)
      × (r.path_override ≡ some override)
      × (r.escalations ≡ some 0)
      × (r.scan
          ≡ some (record {
            msg_count = some msg_count;
            consec_failures = some 0;
            escalated_at_msg_count = some 0;
          }))
      × ((i : ℕ) × (tier_index p r.policy_name ≡ ok i))
unfolding build_pin_record to_dict
build_pin_record-Pins p classify override hash alias msg_count now v =
    let (c, chosen, pins) = choose-Pins p classify override v in
    (
      pin_of c override hash alias msg_count now,
      c,
      rw chosen,
      pins,
      refl,
      refl,
      refl,
      refl,
      refl,
      refl,
      Pins-listed p classify override c v pins,
    )
