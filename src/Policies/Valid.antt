-- ===== src/Policies/Valid.antt =====
-- The validator of `PoliciesConfig` in policies.py, and the lookups on policies that it accepts.
use lite_router.Prelude.{
  ℕ, zero, suc, ◌/◌, ◌<◌, ◌≡◌, refl, Bool, true, false, none, some, String, List, [], ◌∷◌, map,
  length, arith, ◌==◌, Bool-cases, Option-cases, inl, inr, ◌⊎◌, ◌↔◌,
}
use lite_router.Outcome.{ok, raise, key_error}
use lite_router.Policies.{
  Tier, PoliciesConfig, tier_names, member, has_duplicates, validate, IsValid, find_tier,
  tier_by_name, tier_index, tier_at, default_tier,
}
use lite_router.Policies.Lookup.{
  index_from-tier_at, find_tier-index_from, index_from_of_find_tier, index_from_cases,
  index_from_of_tier_at,
}

-- The validator accepts exactly the policies with a tier, distinct names and a known forced tier.
pub validate_iff :
    (p : PoliciesConfig)
    → IsValid p ↔ (
        (0 < length p.tiers)
        × (has_duplicates (tier_names p) ≡ false)
        × (member p.path_overrides.force_tier (tier_names p) ≡ true))
unfolding validate
validate_iff p = (λ v. (ground arith, ground arith, ground arith), λ h. ground arith)

find_tier-tier_at :
    (test : Tier → Bool) (l : List Tier) (t : Tier)
    → find_tier test l ≡ some t
    → (i : ℕ) × (tier_at l i ≡ ok t) × (i < length l) × (test t ≡ true)
unfolding find_tier
find_tier-tier_at test [] t h = cc
find_tier-tier_at test (u ∷ l) t h = elim (Bool-cases (test u)) [
  | inl e ↦ (0, ground arith, omega arith, ground arith)
  | inr e ↦
      let (i, at, bound, holds) = find_tier-tier_at test l t (ground arith) in
      (suc i, at, omega arith, holds)
]

pub tier_at-in_range : (l : List Tier) (i : ℕ) → i < length l → (t : Tier) × (tier_at l i ≡ ok t)
tier_at-in_range [] i h = elim h [ ]
tier_at-in_range (t ∷ l) zero h = (t, refl)
tier_at-in_range (t ∷ l) (suc i) h = tier_at-in_range l i (omega arith)

member-find_tier :
    (name : String) (l : List Tier)
    → member name (map (λ u. u.name) l) ≡ true
    → (t : Tier) × (find_tier (λ u. u.name == name) l ≡ some t)
unfolding find_tier
member-find_tier name [] h = cc
member-find_tier name (u ∷ l) h = elim (Bool-cases (u.name == name)) [
  | inl e ↦ (u, ground arith)
  | inr e ↦ let (t, found) = member-find_tier name l (ground arith) in (t, ground arith)
]

-- On any policies, an index that `tier_index` returns is in range, and the tier there has the name
-- and is the one that `tier_by_name` returns. An unknown name is a KeyError in one and None in the
-- other.
pub tier_index-tier_by_name :
    (p : PoliciesConfig) (name : String)
    → ((i : ℕ) × (t : Tier) × (tier_index p name ≡ ok i)
        × (tier_by_name p name ≡ some t)
        × (tier_at p.tiers i ≡ ok t)
        × (t.name ≡ name)
        × (i < length p.tiers))
      ⊎ ((tier_index p name ≡ raise key_error) × (tier_by_name p name ≡ none))
unfolding tier_index tier_by_name
tier_index-tier_by_name p name = elim (index_from_cases name p.tiers) [
  | inl (i, f) ↦
      let (t, found, at) = find_tier-index_from name p.tiers i f in
      let (u, at', named, bound) = index_from-tier_at name p.tiers i f in
      inl (i, t, f, found, at, ground arith, bound)
  | inr f ↦ elim (Option-cases (find_tier (λ u. u.name == name) p.tiers)) [
    | inl e ↦ inr (f, e)
    | inr (t, e) ↦ let (i, g, _) = index_from_of_find_tier name p.tiers t e in absurd (ground arith)
  ]
]

-- On validated policies the index of a listed tier's name is the tier's own place.
pub tier_index-tier_at :
    (p : PoliciesConfig) (i : ℕ) (t : Tier)
    → IsValid p
    → tier_at p.tiers i ≡ ok t
    → tier_index p t.name ≡ ok i
unfolding tier_index
tier_index-tier_at p i t v h = index_from_of_tier_at p.tiers i t ((validate_iff p).0 v).1 h

-- On validated policies `default_tier` does not raise, and returns a listed tier: one with the
-- default model if there is any.
pub default_tier-listed :
    (p : PoliciesConfig)
    → IsValid p
    → (i : ℕ) × (t : Tier) × (default_tier p ≡ ok t)
      × (tier_at p.tiers i ≡ ok t)
      × (i < length p.tiers)
unfolding default_tier
default_tier-listed p v =
    elim (Option-cases (find_tier (λ t. t.model == p.default_model) p.tiers)) [
      | inl e ↦
          let nonempty = ((validate_iff p).0 v).0 in
          let (t, at) = tier_at-in_range p.tiers (length p.tiers / 2) (omega arith) in
          (length p.tiers / 2, t, rw (e, default_tier) at, at, omega arith)
      | inr (t, e) ↦
          let (i, at, bound, _) = find_tier-tier_at (λ t. t.model == p.default_model) p.tiers t e in
          (i, t, rw (e, default_tier), at, bound)
    ]

-- On validated policies the assertion of `build_pin_record` holds: the forced tier is found.
pub force_tier-found :
    (p : PoliciesConfig)
    → IsValid p
    → (t : Tier) × (tier_by_name p p.path_overrides.force_tier ≡ some t)
unfolding tier_by_name
force_tier-found p v = member-find_tier p.path_overrides.force_tier p.tiers ((validate_iff p).0 v).2
