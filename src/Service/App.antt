-- ===== src/Service/App.antt =====
-- packages/classifier-svc/src/classifier_svc/app.py: the answer of `/classify`, with
-- the policies that are loaded.
use lite_router.Prelude.{ℕ, Bool, true, false, ◌&&◌, leb, Option, none, some, String, if◌then◌else◌}
use lite_router.Prelude.Text
use lite_router.Outcome.{Exn, Outcome, ok, raise, ◌>>=◌}
use lite_router.Runtime.{Float, zero_float}
use lite_router.Json.{Value, str, Fields, get, has_key, float_of}
use lite_router.Policies.{Tier, PoliciesConfig, tier_by_name, default_tier}
use lite_router.Classifier.{HttpReply}
use lite_router.Service.Clamp.{clamp}
use lite_router.Service.Prompt.{system_prompt, user_prompt, response_schema}
use lite_router.Service.Backend.{ChatRequest, Settings, Library, chat_classify}

pub record ClassifyRequest : Type 0 where
  pub first_message : String
  pub system_summary : String
  pub repo_hints : Fields

pub record ClassifyResponse : Type 0 where
  pub policy_name : String
  pub model : String
  pub confidence : Float
  pub latency_ms : ℕ

-- the limits of the fields
abbrev pub within_limits : ClassifyRequest → Bool
within_limits req =
    leb (Text.length req.first_message) 8000 && leb (Text.length req.system_summary) 2000

-- The endpoint of the model, as one call of the service meets it, and the time that the call takes.
pub record Gateway : Type 0 where
  pub post : ChatRequest → HttpReply
  pub latency_ms : ℕ

-- `except (TypeError, ValueError)`
abbrev pub is_conversion : Exn → Bool
is_conversion Exn.type_error = true
is_conversion Exn.value_error = true
is_conversion e = false

-- the value of a `try` that gives a float
abbrev pub or_zero : Outcome Float → Outcome Float
or_zero (ok x) = ok (clamp x)
or_zero (raise e) = if is_conversion e then ok zero_float else raise e

module _ (lib : Library) (settings : Settings) where
  -- the confidence of an answer that names a tier
  unfoldable pub confidence_of : Fields → Outcome Float
  unfolding float_of
  confidence_of result = or_zero (
      if has_key "confidence" result
      then float_of lib.parse_float (get "confidence" result)
      else ok zero_float)

  -- the tier that the name in the answer belongs to
  abbrev pub candidate_tier : PoliciesConfig → Value → Option Tier
  candidate_tier p (str name) = tier_by_name p name
  candidate_tier p v = none

  -- the name and the confidence that are kept, by the tier that was found
  abbrev pub accept : Tier → Fields → Option Tier → Outcome (String × Float)
  accept default result none = ok (default.name, zero_float)
  accept default result (some tier) = confidence_of result >>= λ x. ok (tier.name, x)

  abbrev pub judge : PoliciesConfig → Tier → Option Fields → Outcome (String × Float)
  judge p default none = ok (default.name, zero_float)
  judge p default (some result) =
      accept default result (candidate_tier p (get "policy_name" result))

  -- `tier_by_name(policy_name) or default_tier`, and the response
  abbrev tier_or : Tier → Option Tier → Tier
  tier_or default none = default
  tier_or default (some tier) = tier

  abbrev pub response : PoliciesConfig → Tier → ℕ → String × Float → ClassifyResponse
  response p default latency_ms (name, confidence) =
      let tier = tier_or default (tier_by_name p name) in
      record {
        policy_name = tier.name;
        model = tier.model;
        confidence = confidence;
        latency_ms = latency_ms;
      }

  abbrev pub ask : PoliciesConfig → Gateway → String → Option Float → Option Fields
  ask p gateway user timeout_s =
      chat_classify lib settings gateway.post (system_prompt lib.py p) user (response_schema p)
        timeout_s

  -- `/classify` with the policies that are loaded
  unfoldable pub classify_with :
      PoliciesConfig → Gateway → ClassifyRequest → Outcome ClassifyResponse
  unfolding chat_classify user_prompt confidence_of
  classify_with p gateway req = do
    default ← default_tier p
    user ← user_prompt lib.show req.first_message req.system_summary req.repo_hints
    kept ← judge p default (ask p gateway user none)
    ok (response p default gateway.latency_ms kept)
