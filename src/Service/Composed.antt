-- ===== src/Service/Composed.antt =====
-- `ClassifierClient.classify` of packages/session-router/src/session_router/classifier_client.py with
-- the service of packages/classifier-svc behind it.
use lite_router.Prelude.{
  ℕ, ◌≡◌, refl, sym, ap, ◌∙◌, Bool, true, false, if◌then◌else◌, Bool-cases, ◌⊎◌, String, Option,
  none, some, arith, inl, inr,
}
use lite_router.Prelude.Text
use lite_router.Runtime.{Float}
use lite_router.Json.{num, str, obj, Number, Fields, end, field, float_of}
use lite_router.Policies.{Tier, PoliciesConfig, IsValid, tier_by_name}
use lite_router.StateMachine.{ClassifyResult}
use lite_router.Overrides.{RepoHints}
use lite_router.Config.{Clock}
use lite_router.Classifier.{Payload, HttpReply, failed, status, Http, classify, read_reply}
use lite_router.Service.Clamp.{InUnit}
use lite_router.Service.Backend.{Settings, Library}
use lite_router.Service.App.{ClassifyRequest, ClassifyResponse, within_limits, Gateway, ask}
use lite_router.Service.Answers.{Backed, Overflows, classify_with_cases}
use lite_router.Service.Life.{Answer, rejected, crashed, answered, State, post_classify}

-- the payload as the service's request
abbrev hints_of : RepoHints → Fields
hints_of hints =
    field "cwd" (str hints.cwd) (field "claude_md_excerpt" (str hints.claude_md_excerpt) end)

abbrev pub request_of : Payload → ClassifyRequest
request_of payload = record {
  first_message = payload.first_message;
  system_summary = payload.system_summary;
  repo_hints = hints_of payload.repo_hints;
}

-- How the numbers of a response are written in JSON, and read back.
pub record Numbers : Type 0 where
  pub of_float : Float → Number
  pub of_int : ℕ → Number
  pub float-of_float : (x : Float) → InUnit x → (of_float x).float ≡ some x

abbrev body_of : Numbers → ClassifyResponse → Fields
body_of numbers r = field "policy_name" (str r.policy_name) (
    field "model" (str r.model) (
      field "confidence" (num (numbers.of_float r.confidence))
        (field "latency_ms" (num (numbers.of_int r.latency_ms)) end)))

abbrev pub reply_of : Numbers → Answer → HttpReply
reply_of numbers rejected = status 422 none
reply_of numbers crashed = status 500 none
reply_of numbers (answered r) = status 200 (some (obj (body_of numbers r)))

-- the payload of a call of `classify`
abbrev pub payload_of : String → String → RepoHints → Payload
payload_of first system hints = record {
  first_message = Text.take 4000 first;
  system_summary = Text.take 1000 system;
  repo_hints = hints;
}

module _ (clock : Clock) (lib : Library) (settings : Settings) (warmup_timeout_s : Float)
    (numbers : Numbers) (gateway : Gateway) (latency_ms : ℕ) (in_time : Payload → Bool) where
  -- The service in some state, as the client's HTTP call meets it. `in_time` says of which payloads
  -- the connection and the answer come within the client's timeouts; httpx raises for the others.
  abbrev pub behind : State clock → Http
  behind s = record {
    post = λ payload.
        if in_time payload
        then reply_of numbers
            (post_classify clock lib settings warmup_timeout_s gateway (request_of payload) s)
        else failed;
    parse_float = lib.parse_float;
    latency_ms = latency_ms;
  }

  -- What the client returns of a response that its own policies stand behind.
  read_reply-answered :
      (p : PoliciesConfig) (http : Http) (r : ClassifyResponse)
      → Backed lib settings p r
      → (c : ClassifyResult) × (read_reply p http (reply_of numbers (answered r)) ≡ some c)
        × (c.policy_name ≡ r.policy_name)
        × (c.model ≡ r.model)
        × (c.confidence ≡ r.confidence)
  unfolding read_reply float_of
  read_reply-answered p http r b = (
    record {
      policy_name = r.policy_name;
      model = b.tier.model;
      confidence = r.confidence;
      latency_ms = some http.latency_ms;
    },
    ground (arith, b.known, numbers.float-of_float r.confidence b.confident),
    refl,
    sym b.its_model,
    refl,
  )

  request_within :
      (first system : String) (hints : RepoHints)
      → within_limits (request_of (payload_of first system hints)) ≡ true
  request_within first system hints =
      ground (arith, Text.length-take-le 4000 first, Text.length-take-le 1000 system)

  -- what the client's result is to be
  abbrev Usable : PoliciesConfig → Option ClassifyResult → Type 0
  Usable p o =
      (c : ClassifyResult) × (t : Tier) × (o ≡ some c)
      × (tier_by_name p c.policy_name ≡ some t)
      × (c.model ≡ t.model)
      × InUnit c.confidence

  Usable-answered :
      (p : PoliciesConfig) (http : Http) (r : ClassifyResponse)
      → Backed lib settings p r
      → Usable p (read_reply p http (reply_of numbers (answered r)))
  Usable-answered p http r b =
      let (c, read, name, model, confidence) = read_reply-answered p http r b in
      (
        c,
        b.tier,
        read,
        ap (tier_by_name p) name ∙ b.known,
        model ∙ b.its_model,
        rw confidence b.confident,
      )

  -- The router's client and the service together, with the same validated policies on both sides,
  -- whatever the message, the system prompt and the hints, and whatever the endpoint of the model
  -- does. Where the service's answer comes within the client's timeouts, the client has a result,
  -- which names a known tier with its model, and a confidence between 0 and 1; where it does not, the
  -- client has none. It takes that the model's confidence, if there is any, is no integer beyond the
  -- floats.
  pub classify-behind :
      (p : PoliciesConfig) (s : State clock) (first system : String) (hints : RepoHints)
      → IsValid p
      → s.policies ≡ some p
      → ((user : String) (answer : Fields)
          → ask lib settings p gateway user none ≡ some answer
          → ¬ Overflows lib settings answer)
      → let payload = payload_of first system hints in
        ((in_time payload ≡ true) × Usable p (classify p (behind s) first system hints))
        ⊎ ((in_time payload ≡ false) × (classify p (behind s) first system hints ≡ none))
  unfolding classify post_classify read_reply
  classify-behind p s first system hints v held fits =
      let req = request_of (payload_of first system hints) in
      elim (Bool-cases (in_time (payload_of first system hints))) [
        | inr late ↦ inr (late, rw late refl)
        | inl soon ↦ elim (classify_with_cases lib settings p gateway req v) [
          | inl (r, e, b) ↦ inl (
            soon,
            rw (soon, request_within first system hints, held, e)
                (Usable-answered p (behind s) r b),
          )
          | inr (inl (_, (_, no_slice))) ↦ cc
          | inr (inr (user, answer, asked, _, o)) ↦ absurd (fits user answer asked o)
        ]
      ]
