-- ===== src/Policies/Lookup.antt =====
-- The loops of the tier lookups in policies.py, and how they relate.
use lite_router.Prelude.{
  ℕ, zero, suc, ◌<◌, ◌≡◌, refl, true, false, some, String, List, [], ◌∷◌, map, length, arith, ◌==◌,
  eq_iff, eq_refl, Bool-cases, inl, inr, ◌⊎◌,
}
use lite_router.Outcome.{ok, raise, key_error}
use lite_router.Policies.{Tier, member, has_duplicates, find_tier, index_from, tier_at}

-- The tier at the index that the loop finds has the name.
pub index_from-tier_at :
    (name : String) (l : List Tier) (i : ℕ)
    → index_from name l ≡ ok i
    → (t : Tier) × (tier_at l i ≡ ok t) × (t.name ≡ name) × (i < length l)
unfolding index_from
index_from-tier_at name [] i h = cc
index_from-tier_at name (t ∷ l) zero h = (t, refl, ground (arith, eq_iff t.name name), omega arith)
index_from-tier_at name (t ∷ l) (suc i) h =
    let (u, at, named, bound) = index_from-tier_at name l i (ground arith) in
    (u, at, named, omega arith)

-- The first tier with the name is found by both lookups, and at the same place.
pub find_tier-index_from :
    (name : String) (l : List Tier) (i : ℕ)
    → index_from name l ≡ ok i
    → (t : Tier) × (find_tier (λ u. u.name == name) l ≡ some t) × (tier_at l i ≡ ok t)
unfolding index_from find_tier
find_tier-index_from name [] i h = cc
find_tier-index_from name (t ∷ l) zero h = (t, ground arith, refl)
find_tier-index_from name (t ∷ l) (suc i) h =
    let (u, found, at) = find_tier-index_from name l i (ground arith) in (u, ground arith, at)

pub index_from_of_find_tier :
    (name : String) (l : List Tier) (t : Tier)
    → find_tier (λ u. u.name == name) l ≡ some t
    → (i : ℕ) × (index_from name l ≡ ok i) × (t.name ≡ name)
unfolding index_from find_tier
index_from_of_find_tier name [] t h = cc
index_from_of_find_tier name (u ∷ l) t h = elim (Bool-cases (u.name == name)) [
  | inl e ↦ (0, ground arith, ground (arith, eq_iff u.name name))
  | inr e ↦
      let (i, found, named) = index_from_of_find_tier name l t (ground arith) in
      (suc i, ground arith, named)
]

-- A failed index is a `KeyError`, and nothing else.
pub index_from_cases :
    (name : String) (l : List Tier)
    → ((i : ℕ) × (index_from name l ≡ ok i)) ⊎ (index_from name l ≡ raise key_error)
unfolding index_from
index_from_cases name [] = inr refl
index_from_cases name (t ∷ l) = elim (Bool-cases (t.name == name)) [
  | inl e ↦ inl (0, ground arith)
  | inr e ↦ elim (index_from_cases name l) [
    | inl (i, f) ↦ inl (suc i, ground arith)
    | inr f ↦ inr (ground arith)
  ]
]

-- A tier that stands in the list has its name among the names.
pub tier_at-member :
    (l : List Tier) (i : ℕ) (t : Tier)
    → tier_at l i ≡ ok t
    → member t.name (map (λ u. u.name) l) ≡ true
tier_at-member [] i t h = cc
tier_at-member (u ∷ l) zero t h = ground (arith, eq_refl t.name)
tier_at-member (u ∷ l) (suc i) t h = ground (arith, tier_at-member l i t h)

-- With distinct names the index of a tier's name is the tier's place.
pub index_from_of_tier_at :
    (l : List Tier) (i : ℕ) (t : Tier)
    → has_duplicates (map (λ u. u.name) l) ≡ false
    → tier_at l i ≡ ok t
    → index_from t.name l ≡ ok i
unfolding index_from
index_from_of_tier_at [] i t d h = cc
index_from_of_tier_at (u ∷ l) zero t d h = ground (arith, eq_refl t.name)
index_from_of_tier_at (u ∷ l) (suc i) t d h =
    ground (arith, eq_iff u.name t.name, tier_at-member l i t h, index_from_of_tier_at l i t)
