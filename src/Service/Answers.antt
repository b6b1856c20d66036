-- ===== src/Service/Answers.antt =====
-- What `/classify` of app.py answers, whatever the endpoint of the model does.
use lite_router.Prelude.{
  ℕ, ◌≡◌, refl, ap, ◌∙◌, true, false, String, Option, none, some, List, [], ◌∷◌, inl, inr, ◌⊎◌,
  Bool-cases, Option-cases,
}
use lite_router.Prelude.Text
use lite_router.Prelude.Text.{◌++◌}
use lite_router.Outcome.{Exn, Outcome, ok, raise, type_error, overflow_error, value_error}
use lite_router.Runtime.{Float, zero_float, one_float}
use lite_router.Json.{
  Value, null, bool, num, str, arr, obj, Fields, get, has_key, truthy, slice, ok_or, float_of,
}
use lite_router.Policies.{Tier, PoliciesConfig, IsValid, tier_by_name, default_tier}
use lite_router.Policies.Valid.{tier_index-tier_by_name, tier_index-tier_at, default_tier-listed}
use lite_router.Service.Clamp.{clamp, InUnit, clamp-InUnit, zero_float-InUnit}
use lite_router.Service.Prompt.{max_prompt_chars, format, excerpt_part, joined, user_prompt}
use lite_router.Service.Backend.{Settings, Library}
use lite_router.Service.App.{
  ClassifyRequest, ClassifyResponse, Gateway, is_conversion, or_zero, confidence_of, candidate_tier,
  judge, response, ask, classify_with,
}

-- the name of a tier that is found is the name that was looked for
pub tier_by_name-name :
    (p : PoliciesConfig) (name : String) (t : Tier) → tier_by_name p name ≡ some t → t.name ≡ name
tier_by_name-name p name t h = elim (tier_index-tier_by_name p name) [
  | inl (i, u, _, found, _, named, _) ↦ cc
  | inr (_, missing) ↦ cc
]

tier_by_name-own :
    (p : PoliciesConfig) (name : String) (t : Tier)
    → tier_by_name p name ≡ some t
    → tier_by_name p t.name ≡ some t
tier_by_name-own p name t h = ap (tier_by_name p) (tier_by_name-name p name t h) ∙ h

-- On validated policies the default tier is found under its own name.
pub default_tier-found :
    (p : PoliciesConfig)
    → IsValid p
    → (d : Tier) × (default_tier p ≡ ok d) × (tier_by_name p d.name ≡ some d)
default_tier-found p v =
    let (i, d, returned, at, _) = default_tier-listed p v in
    let index = tier_index-tier_at p i d v at in
    elim (tier_index-tier_by_name p d.name) [
      | inl (j, t, index', found, at', _, _) ↦ (d, returned, cc)
      | inr (missing, _) ↦ cc
    ]

module _ (parse : String → Option Float) where
  abbrev Converted : Exn → Outcome Float → Type 0
  Converted e x = ((f : Float) × (x ≡ ok f)) ⊎ (x ≡ raise e)

  ok_or_cases : (e : Exn) (x : Option Float) → Converted e (ok_or e x)
  ok_or_cases e none = inr refl
  ok_or_cases e (some x) = inl (x, refl)

  -- A conversion returns, raises what its callers catch, or overflows.
  float_of_cases :
      (v : Value)
      → ((x : Float) × (float_of parse v ≡ ok x))
        ⊎ ((e : Exn) × (float_of parse v ≡ raise e) × (is_conversion e ≡ true))
        ⊎ (float_of parse v ≡ raise overflow_error)
  unfolding float_of
  float_of_cases (num n) = elim (ok_or_cases overflow_error n.float) [
    | inl (x, e) ↦ inl (x, e)
    | inr e ↦ inr (inr e)
  ]
  float_of_cases (str s) = elim (ok_or_cases value_error (parse s)) [
    | inl (x, e) ↦ inl (x, e)
    | inr e ↦ inr (inl (value_error, e, refl))
  ]
  float_of_cases (bool true) = inl (one_float, refl)
  float_of_cases (bool false) = inl (zero_float, refl)
  float_of_cases null = inr (inl (type_error, refl, refl))
  float_of_cases (arr xs) = inr (inl (type_error, refl, refl))
  float_of_cases (obj fs) = inr (inl (type_error, refl, refl))

module _ (lib : Library) (settings : Settings) where
  -- the answer's confidence is a number beyond the floats
  abbrev pub Overflows : Fields → Type 0
  Overflows result = float_of lib.parse_float (get "confidence" result) ≡ raise overflow_error

  or_zero_cases :
      (x : Outcome Float)
      → ((f : Float) × (x ≡ ok f))
        ⊎ ((e : Exn) × (x ≡ raise e) × (is_conversion e ≡ true))
        ⊎ (x ≡ raise overflow_error)
      → ((f : Float) × (or_zero x ≡ ok f) × InUnit f)
        ⊎ ((or_zero x ≡ raise overflow_error) × (x ≡ raise overflow_error))
  or_zero_cases x (inl (f, h)) = inl (clamp f, rw h refl, clamp-InUnit f)
  or_zero_cases x (inr (inl (e, h, c))) = inl (zero_float, rw (h, c) refl, zero_float-InUnit)
  or_zero_cases x (inr (inr h)) = inr (rw h refl, h)

  confidence_of_cases :
      (result : Fields)
      → ((f : Float) × (confidence_of lib settings result ≡ ok f) × InUnit f)
        ⊎ ((confidence_of lib settings result ≡ raise overflow_error) × Overflows result)
  unfolding confidence_of
  confidence_of_cases result = elim (Bool-cases (has_key "confidence" result)) [
    | inl e ↦ rw e (or_zero_cases _ (float_of_cases lib.parse_float (get "confidence" result)))
    | inr e ↦ rw e (inl (clamp zero_float, refl, clamp-InUnit zero_float))
  ]

  -- A response that the policies stand behind: a tier that they know, with the model of that tier,
  -- and a confidence between 0 and 1.
  pub record Backed (p : PoliciesConfig) (r : ClassifyResponse) : Type 0 where
    pub tier : Tier
    pub known : tier_by_name p r.policy_name ≡ some tier
    pub its_model : r.model ≡ tier.model
    pub confident : InUnit r.confidence

  response-Backed :
      (p : PoliciesConfig) (d t : Tier) (ms : ℕ) (name : String) (x : Float)
      → tier_by_name p name ≡ some t
      → InUnit x
      → Backed p (response lib settings p d ms (name, x))
  response-Backed p d t ms name x h u =
      rw h
        (record { tier = t; known = tier_by_name-own p name t h; its_model = refl; confident = u })

  -- what `judge` keeps of an answer
  abbrev Kept : PoliciesConfig → Option Fields → Outcome (String × Float) → Type 0
  Kept p result kept =
      ((name : String) × (x : Float) × (t : Tier) × (kept ≡ ok (name, x))
        × (tier_by_name p name ≡ some t)
        × InUnit x)
      ⊎ ((fs : Fields) × (result ≡ some fs) × (kept ≡ raise overflow_error) × Overflows fs)

  candidate_tier-known :
      (p : PoliciesConfig) (v : Value) (t : Tier)
      → candidate_tier lib settings p v ≡ some t
      → tier_by_name p t.name ≡ some t
  candidate_tier-known p (str name) t h = tier_by_name-own p name t h
  candidate_tier-known p null t h = cc
  candidate_tier-known p (bool b) t h = cc
  candidate_tier-known p (num n) t h = cc
  candidate_tier-known p (arr xs) t h = cc
  candidate_tier-known p (obj fs) t h = cc

  judge-Kept :
      (p : PoliciesConfig) (d : Tier) (result : Option Fields)
      → tier_by_name p d.name ≡ some d
      → Kept p result (judge lib settings p d result)
  judge-Kept p d none h = inl (d.name, zero_float, d, refl, h, zero_float-InUnit)
  judge-Kept p d (some fs) h =
      elim (Option-cases (candidate_tier lib settings p (get "policy_name" fs))) [
        | inl e ↦ inl (d.name, zero_float, d, rw e refl, h, zero_float-InUnit)
        | inr (t, e) ↦ elim (confidence_of_cases fs) [
          | inl (x, c, u) ↦ inl (t.name, x, t, rw (e, c) refl, candidate_tier-known p _ t e, u)
          | inr (c, o) ↦ inr (fs, refl, rw (e, c) refl, o)
        ]
      ]

  -- an excerpt of which no slice can be taken
  abbrev pub Unsliceable : Value → Type 0
  Unsliceable v = (truthy v ≡ true) × (slice 500 v ≡ raise type_error)

  slice_cases :
      (v : Value) → ((w : Value) × (slice 500 v ≡ ok w)) ⊎ (slice 500 v ≡ raise type_error)
  slice_cases (str s) = inl (_, refl)
  slice_cases (arr xs) = inl (_, refl)
  slice_cases null = inr refl
  slice_cases (bool b) = inr refl
  slice_cases (num n) = inr refl
  slice_cases (obj fs) = inr refl

  excerpt_part_cases :
      (v : Value)
      → ((parts : List String) × (excerpt_part lib.show v ≡ ok parts))
        ⊎ ((excerpt_part lib.show v ≡ raise type_error) × Unsliceable v)
  excerpt_part_cases v = elim (Bool-cases (truthy v)) [
    | inr e ↦ inl ([], rw e refl)
    | inl e ↦ elim (slice_cases v) [
      | inl (w, f) ↦ inl (("Project context excerpt:\n" ++ format lib.show w) ∷ [], rw (e, f) refl)
      | inr f ↦ inr (rw (e, f) refl, (e, f))
    ]
  ]

  pub user_prompt_cases :
      (first system : String) (hints : Fields)
      → ((user : String) × (user_prompt lib.show first system hints ≡ ok user))
        ⊎ ((user_prompt lib.show first system hints ≡ raise type_error)
            × Unsliceable (get "claude_md_excerpt" hints))
  unfolding user_prompt
  user_prompt_cases first system hints = elim (excerpt_part_cases (get "claude_md_excerpt" hints)) [
    | inl (parts, e) ↦ inl (
      Text.take max_prompt_chars (joined lib.show first system (get "cwd" hints) parts),
      rw e refl,
    )
    | inr (e, bad) ↦ inr (rw e refl, bad)
  ]

  -- `/classify` on validated policies, whatever the endpoint of the model does: the response is
  -- backed by the policies; or the request is answered with 500, which takes an excerpt that is
  -- neither a text nor a list, or a confidence that is an integer beyond the floats.
  pub classify_with_cases :
      (p : PoliciesConfig) (gateway : Gateway) (req : ClassifyRequest)
      → IsValid p
      → ((r : ClassifyResponse) × (classify_with lib settings p gateway req ≡ ok r) × Backed p r)
        ⊎ ((classify_with lib settings p gateway req ≡ raise type_error)
            × Unsliceable (get "claude_md_excerpt" req.repo_hints))
        ⊎ ((user : String) × (fs : Fields) × (ask lib settings p gateway user none ≡ some fs)
            × (classify_with lib settings p gateway req ≡ raise overflow_error)
            × Overflows fs)
  unfolding classify_with
  classify_with_cases p gateway req v =
      let (d, default, found) = default_tier-found p v in
      elim (user_prompt_cases req.first_message req.system_summary req.repo_hints) [
        | inr (e, bad) ↦ inr (inl (rw (default, e) refl, bad))
        | inl (user, e) ↦ elim (judge-Kept p d (ask lib settings p gateway user none) found) [
          | inl (name, x, t, kept, known, u) ↦ inl (
            _,
            rw (default, e, kept) refl,
            response-Backed p d t gateway.latency_ms name x known u,
          )
          | inr (fs, answer, kept, o) ↦ inr (inr (user, fs, answer, rw (default, e, kept) refl, o))
        ]
      ]
