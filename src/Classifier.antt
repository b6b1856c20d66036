-- ===== src/Classifier.antt =====
-- packages/session-router/src/session_router/classifier_client.py: the call of the classifier
-- service. The HTTP call is a parameter, as is Python's `float` and the measured time.
use lite_router.Prelude.{
  ℕ, ◌≡◌, String, Option, none, some, if◌then◌else◌, nat_eq, arith, Option-cases, inl, inr,
}
use lite_router.Prelude.Text
use lite_router.Runtime.{Float, zero_float}
use lite_router.Outcome.{Outcome, ok, raise}
use lite_router.Json.{Value, null, bool, num, str, arr, obj, Fields, get, has_key, float_of}
use lite_router.Policies.{Tier, PoliciesConfig, tier_by_name}
use lite_router.StateMachine.{ClassifyResult}
use lite_router.Overrides.{RepoHints}

pub record Payload : Type 0 where
  pub first_message : String
  pub system_summary : String
  pub repo_hints : RepoHints

-- What the HTTP client gives back: an exception (a timeout too), or a status with a body, `none`
-- where the body is no JSON.
pub data HttpReply : Type 0 where
  failed : HttpReply
  status : ℕ → Option Value → HttpReply

pub record Http : Type 0 where
  pub post : Payload → HttpReply
  -- `float` of a text, none where it raises
  pub parse_float : String → Option Float
  pub latency_ms : ℕ

-- `float(body.get("confidence", 0.0))`; a null that is there is handed to `float`, which raises
abbrev confidence_of : Http → Fields → Outcome Float
confidence_of http body =
    if has_key "confidence" body
    then float_of http.parse_float (get "confidence" body)
    else ok zero_float

-- the answer for a tier that the policies know
abbrev with_tier : Http → Fields → String → Tier → Option ClassifyResult
with_tier http body name tier = elim (confidence_of http body) [
  | raise e ↦ none
  | ok confidence ↦ some (record {
    policy_name = name;
    model = tier.model;
    confidence = confidence;
    latency_ms = some http.latency_ms;
  })
]

-- a name that is no text equals no tier's name
abbrev named : PoliciesConfig → Http → Fields → Value → Option ClassifyResult
named p http body (str name) = elim (tier_by_name p name) [
  | none ↦ none
  | some tier ↦ with_tier http body name tier
]
named p http body v = none

-- `body.get` of a body that is no dict raises, and the handler returns None.
unfoldable pub read_body : PoliciesConfig → Http → Option Value → Option ClassifyResult
read_body p http (some (obj body)) = named p http body (get "policy_name" body)
read_body p http (some null) = none
read_body p http (some (bool b)) = none
read_body p http (some (num n)) = none
read_body p http (some (str s)) = none
read_body p http (some (arr xs)) = none
read_body p http none = none

unfoldable pub read_reply : PoliciesConfig → Http → HttpReply → Option ClassifyResult
unfolding read_body
read_reply p http failed = none
read_reply p http (status code body) = if nat_eq code 200 then read_body p http body else none

unfoldable pub classify :
    PoliciesConfig → Http → String → String → RepoHints → Option ClassifyResult
unfolding read_reply
classify p http first_message system_summary repo_hints = read_reply p http (
    http.post (record {
      first_message = Text.take 4000 first_message;
      system_summary = Text.take 1000 system_summary;
      repo_hints = repo_hints;
    }))

named-known :
    (p : PoliciesConfig) (http : Http) (body : Fields) (v : Value) (r : ClassifyResult)
    → named p http body v ≡ some r
    → (t : Tier) × (tier_by_name p r.policy_name ≡ some t) × (r.model ≡ t.model)
named-known p http body (str name) r h = elim (Option-cases (tier_by_name p name)) [
  | inl e ↦ absurd (ground (arith, e))
  | inr (t, e) ↦ (t, ground (arith, e), ground (arith, e))
]
named-known p http body null r h = cc
named-known p http body (bool b) r h = cc
named-known p http body (num n) r h = cc
named-known p http body (arr xs) r h = cc
named-known p http body (obj fs) r h = cc

read_reply-known :
    (p : PoliciesConfig) (http : Http) (answer : HttpReply) (r : ClassifyResult)
    → read_reply p http answer ≡ some r
    → (t : Tier) × (tier_by_name p r.policy_name ≡ some t) × (r.model ≡ t.model)
unfolding read_reply
read_reply-known p http failed r h = cc
read_reply-known p http (status code none) r h = absurd (ground arith)
read_reply-known p http (status code (some (obj body))) r h =
    named-known p http body (get "policy_name" body) r (ground arith)
read_reply-known p http (status code (some null)) r h = absurd (ground arith)
read_reply-known p http (status code (some (bool b))) r h = absurd (ground arith)
read_reply-known p http (status code (some (num n))) r h = absurd (ground arith)
read_reply-known p http (status code (some (str s))) r h = absurd (ground arith)
read_reply-known p http (status code (some (arr xs))) r h = absurd (ground arith)

-- Whatever the classifier service does, a result of the client names a tier that the policies
-- know, with that tier's model: the body's own "model" is never used.
pub classify-known :
    (p : PoliciesConfig) (http : Http) (first system : String) (hints : RepoHints)
    (r : ClassifyResult)
    → classify p http first system hints ≡ some r
    → (t : Tier) × (tier_by_name p r.policy_name ≡ some t) × (r.model ≡ t.model)
unfolding classify
classify-known p http first system hints r h =
    read_reply-known p http
      (http.post (record {
        first_message = Text.take 4000 first;
        system_summary = Text.take 1000 system;
        repo_hints = hints;
      }))
      r h
