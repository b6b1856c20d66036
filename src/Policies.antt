-- ===== src/Policies.antt =====
-- packages/router-common/src/router_common/policies.py: the policy models, their validator and the
-- lookups. `load_policies` reads YAML and hands it to pydantic, which is not modelled: a
-- `PoliciesConfig` here is what pydantic has parsed, with every default filled in, and `validate`
-- is the validator that runs on it.
pub mod Lookup
pub mod Valid
pub mod Example
use lite_router.Prelude.{
  ℕ, zero, suc, ◌/◌, Bool, true, false, not, ◌||◌, Option, none, some, String, List, [], ◌∷◌, map,
  any, length, ◌==◌, if◌then◌else◌,
}
use lite_router.Prelude.Text
use lite_router.Outcome.{Outcome, ok, raise, value_error, key_error, index_error, ◌>>=◌}
use lite_router.Runtime.{Runtime}

pub record Tier : Type 0 where
  pub name : String
  pub model : String
  pub description : String

pub record PathOverrides : Type 0 where
  pub force_tier : String
  pub patterns : List String

-- A bound that the file gives as a negative number acts as 0 does.
pub record EscalationConfig : Type 0 where
  pub max_escalations : ℕ
  pub retry_patterns : List String
  pub failure_markers : List String
  pub consecutive_tool_failures : ℕ

pub record SessionConfig : Type 0 where
  pub ttl_seconds : ℕ
  pub redis_key_prefix : String

pub record PoliciesConfig : Type 0 where
  pub version : ℕ
  pub default_model : String
  pub tiers : List Tier
  pub path_overrides : PathOverrides
  pub escalation : EscalationConfig
  pub session : SessionConfig
  -- `side_channels.system_patterns`
  pub side_channels : List String

abbrev pub tier_names : PoliciesConfig → List String
tier_names p = map (λ t. t.name) p.tiers

abbrev pub member : String → List String → Bool
member s l = any (λ t. t == s) l

-- `len(set(names)) != len(names)`
abbrev pub has_duplicates : List String → Bool
has_duplicates [] = false
has_duplicates (s ∷ l) = member s l || has_duplicates l

abbrev is_empty : List Tier → Bool
is_empty [] = true
is_empty (t ∷ l) = false

unfoldable pub validate : PoliciesConfig → Outcome PoliciesConfig
validate p =
    if is_empty p.tiers
    then raise value_error
    else if has_duplicates (tier_names p)
    then raise value_error
    else if not (member p.path_overrides.force_tier (tier_names p))
    then raise value_error
    else ok p

abbrev pub IsValid : PoliciesConfig → Type 0
IsValid p = Path (Outcome PoliciesConfig) (validate p) (ok p)

unfoldable pub find_tier : (Tier → Bool) → List Tier → Option Tier
find_tier test [] = none
find_tier test (t ∷ l) = if test t then some t else find_tier test l

unfoldable pub tier_by_name : PoliciesConfig → String → Option Tier
unfolding find_tier
tier_by_name p name = find_tier (λ t. t.name == name) p.tiers

-- the loop of `tier_index`
unfoldable pub index_from : String → List Tier → Outcome ℕ
index_from name [] = raise key_error
index_from name (t ∷ l) = if t.name == name then ok 0 else (index_from name l >>= λ i. ok (suc i))

unfoldable pub tier_index : PoliciesConfig → String → Outcome ℕ
unfolding index_from
tier_index p name = index_from name p.tiers

-- `tiers[i]`
abbrev pub tier_at : List Tier → ℕ → Outcome Tier
tier_at [] i = raise index_error
tier_at (t ∷ l) zero = ok t
tier_at (t ∷ l) (suc i) = tier_at l i

unfoldable pub default_tier : PoliciesConfig → Outcome Tier
unfolding find_tier
default_tier p = elim (find_tier (λ t. t.model == p.default_model) p.tiers) [
  | some t ↦ ok t
  | none ↦ tier_at p.tiers (length p.tiers / 2)
]

unfoldable pub cheapest_tier : PoliciesConfig → Outcome Tier
cheapest_tier p = tier_at p.tiers 0

unfoldable pub is_side_channel : Runtime → PoliciesConfig → String → Bool
is_side_channel py p system_text =
    if not (Text.nonempty system_text)
    then false
    else any (λ s. Text.contains (py.lower s) (py.lower system_text)) p.side_channels
