-- ===== src/Tests/Tiers.antt =====
-- Tiers and records of the example policies.
use lite_router.Prelude.{ℕ, ◌≡◌, refl, true, false, some}
use lite_router.Outcome.{ok}
use lite_router.Runtime.{zero_float, one_float}
use lite_router.Policies.{Tier, tier_index}
use lite_router.Policies.Example.{example, example-IsValid}
use lite_router.StateMachine.{
  SessionRecord, ClassifyResult, Choice, state_pinned, anchor, escalate, raised_to, pin_of,
  build_pin_record,
}
use lite_router.StateMachine.Pin.{Pins, build_pin_record-Pins}

abbrev standard : SessionRecord
standard =
    pin_of
      (record {
        policy_name = "standard_dev";
        model = "grok-4.5";
        confidence = one_float;
        classified = true;
      })
      false "hash" "alice" 3 zero_float

abbrev high : Tier
high = record { name = "high"; model = "claude-opus-4-8"; description = "" }

standard-escalates : escalate standard example ≡ ok (some (raised_to high standard))
unfolding escalate anchor tier_index
standard-escalates = refl

standard-index : tier_index example "standard_dev" ≡ ok 1
unfolding tier_index
standard-index = refl

abbrev judged : ClassifyResult
judged = record {
  policy_name = "high";
  model = "claude-opus-4-8";
  confidence = one_float;
  latency_ms = some 12;
}

build_pin_record-Pins_example :
    (r : SessionRecord) × (c : Choice) × (build_pin_record example
        (some judged)
        false
        "hash"
        "alice"
        1
        zero_float
      ≡ ok r)
    × Pins example (some judged) false c
    × (r.policy_name ≡ c.policy_name)
    × (r.model ≡ c.model)
    × (r.state ≡ state_pinned)
    × (r.path_override ≡ some false)
    × (r.escalations ≡ some 0)
    × (r.scan
        ≡ some (record {
          msg_count = some 1;
          consec_failures = some 0;
          escalated_at_msg_count = some 0;
        }))
    × ((i : ℕ) × (tier_index example r.policy_name ≡ ok i))
build_pin_record-Pins_example =
    build_pin_record-Pins example (some judged) false "hash" "alice" 1 zero_float example-IsValid
