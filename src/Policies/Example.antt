-- ===== src/Policies/Example.antt =====
-- policies.yaml of the repository, as the loader hands it to the validator (descriptions left
-- empty, and the escalation and path patterns cut to the first ones).
use lite_router.Prelude.{String, [], ◌∷◌, refl}
use lite_router.Policies.{Tier, PoliciesConfig, IsValid, validate}

abbrev tier : String → String → Tier
tier name model = record { name = name; model = model; description = "" }

abbrev pub example : PoliciesConfig
example = record {
  version = 1;
  default_model = "grok-4.5";
  tiers =
      tier "quick_lookup" "claude-sonnet-5"
      ∷ tier "standard_dev" "grok-4.5"
      ∷ tier "high" "claude-opus-4-8"
      ∷ tier "ultra-think" "claude-fable-5"
      ∷ [];
  path_overrides = record { force_tier = "high"; patterns = "contracts" ∷ "solidity" ∷ [] };
  escalation = record {
    max_escalations = 3;
    retry_patterns = "still failing" ∷ "try again" ∷ "^no[,. ]" ∷ [];
    failure_markers = "FAILED" ∷ [];
    consecutive_tool_failures = 2;
  };
  session = record { ttl_seconds = 28800; redis_key_prefix = "router:session:" };
  side_channels = "you are a title generator" ∷ [];
}

pub example-IsValid : IsValid example
unfolding validate
example-IsValid = refl
