-- ===== src/StateMachine/Life.antt =====
-- The life of a pinned session on fixed policies: escalations and scan updates, in any order.
use lite_router.Prelude.{
  ℕ, ◌+◌, ◌≤◌, ◌<◌, ◌≡◌, refl, sym, ap, ◌∙◌, String, Option, some, length, arith, inl, inr, ◌⊎◌,
}
use lite_router.Outcome.{Outcome, ok}
use lite_router.Policies.{Tier, PoliciesConfig, IsValid, tier_index, tier_at}
use lite_router.Policies.Valid.{tier_index-tier_by_name}
use lite_router.Escalation.{ScanDict}
use lite_router.StateMachine.{SessionRecord, escalations_of, raised_to, escalate}
use lite_router.StateMachine.Escalate.{anchor_of_index, escalate_cases}

-- What the router does to a stored record of a pinned session.
pub data Step (p : PoliciesConfig) (r : SessionRecord) (r' : SessionRecord) : Type 0 where
  escalated : escalate r p ≡ ok (some r') → Step p r r'
  scanned : (d : ScanDict) → r' ≡ record r { scan = some d } → Step p r r'

pub data Reach (p : PoliciesConfig) (r : SessionRecord) : SessionRecord → Type 0 where
  here : Reach p r r
  next : {r' r'' : SessionRecord} → Reach p r r' → Step p r' r'' → Reach p r r''

-- The record stands `k` tiers above the place `i`, and its own count of escalations is `e + k`.
pub record Stands (p : PoliciesConfig) (i e k : ℕ) (r : SessionRecord) : Type 0 where
  pub place : tier_index p r.policy_name ≡ ok (i + k)
  pub counted : escalations_of r ≡ e + k
  pub capped : (k ≡ 0) ⊎ (e + k ≤ p.escalation.max_escalations)
  pub exists : i + k < length p.tiers

some_injective :
    {a b : SessionRecord}
    → Path (Outcome (Option SessionRecord)) (ok (some a)) (ok (some b))
    → a ≡ b
some_injective h = cc

escalated-Stands :
    {p : PoliciesConfig} {r r' : SessionRecord} (i e k : ℕ)
    → IsValid p
    → Stands p i e k r
    → escalate r p ≡ ok (some r')
    → Stands p i e (k + 1) r'
escalated-Stands {p} {r} {r'} i e k v s h =
    let (j, at, cases) = escalate_cases r p v in
    let same : j ≡ i + k = cc (at, anchor_of_index p r.policy_name (i + k) s.place) in
    elim cases [
      | inl (_, stays) ↦ absurd (cc (stays, h))
      | inr (may, (t, there, found, moved)) ↦
          let e' : raised_to t r ≡ r' = some_injective (sym moved ∙ h) in
          rw (← e') (record {
            place = found ∙ ap ok (omega (arith, same));
            counted = omega (arith, s.counted);
            capped = inr (ground (arith, s.counted));
            exists = ground (arith, same);
          })
    ]

scanned-Stands :
    {p : PoliciesConfig} {r r' : SessionRecord} (i e k : ℕ) (d : ScanDict)
    → Stands p i e k r
    → r' ≡ record r { scan = some d }
    → Stands p i e k r'
scanned-Stands i e k d s h =
    rw h (record { place = s.place; counted = s.counted; capped = s.capped; exists = s.exists })

-- The model of a record that stands `k` tiers above the place `i`, by its model there.
abbrev pub Models : PoliciesConfig → ℕ → String → ℕ → String → Type 0
Models p i first k model =
    ((k ≡ 0) × (model ≡ first))
    ⊎ ((t : Tier) × (0 < k) × (tier_at p.tiers (i + k) ≡ ok t) × (model ≡ t.model))

escalated-Models :
    {p : PoliciesConfig} {r r' : SessionRecord} (i e k : ℕ) (first : String)
    → IsValid p
    → Stands p i e k r
    → escalate r p ≡ ok (some r')
    → Models p i first (k + 1) r'.model
escalated-Models {p} {r} {r'} i e k first v s h =
    let (j, at, cases) = escalate_cases r p v in
    let same : j + 1 ≡ i + (k + 1) =
      let here_ : j ≡ i + k = cc (at, anchor_of_index p r.policy_name (i + k) s.place) in
      omega (arith, here_) in
    elim cases [
      | inl (_, stays) ↦ absurd (cc (stays, h))
      | inr (may, (t, there, found, moved)) ↦
          let e' : raised_to t r ≡ r' = some_injective (sym moved ∙ h) in
          rw (← e') (inr (t, omega arith, rw same at there, refl))
    ]

here-Stands :
    {p : PoliciesConfig} {r : SessionRecord} (i : ℕ)
    → tier_index p r.policy_name ≡ ok i
    → Stands p i (escalations_of r) 0 r
here-Stands {p} {r} i h = elim (tier_index-tier_by_name p r.policy_name) [
  | inl (j, t, found, _, _, _, bound) ↦ record {
    place = ground (arith, h);
    counted = omega arith;
    capped = inl refl;
    exists = let same : i ≡ j = cc (h, found) in omega arith;
  }
  | inr (unknown, _) ↦ absurd (cc (h, unknown))
]

-- On fixed validated policies, whatever escalations and scan updates follow on a record, the one
-- that they lead to stands k tiers above the first one's place, with the model of the tier there, or
-- with the first one's own model where k is 0.
pub Reach-Models :
    {p : PoliciesConfig} {r r' : SessionRecord} (i : ℕ)
    → IsValid p
    → tier_index p r.policy_name ≡ ok i
    → Reach p r r'
    → (k : ℕ) × Stands p i (escalations_of r) k r' × Models p i r.model k r'.model
Reach-Models i v h here = (0, here-Stands i h, inl (refl, refl))
Reach-Models {p} {r} i v h (next reach (escalated up)) =
    let (k, s, m) = Reach-Models i v h reach in
    (k + 1, escalated-Stands i _ k v s up, escalated-Models i _ k r.model v s up)
Reach-Models i v h (next reach (scanned d e)) =
    let (k, s, m) = Reach-Models i v h reach in (k, scanned-Stands i _ k d s e, rw e m)

-- Whatever escalations and scan updates follow on a record, the one that they lead to stands k tiers
-- above, for a k that its own count of escalations has grown by.
pub Reach-Stands :
    {p : PoliciesConfig} {r r' : SessionRecord} (i : ℕ)
    → IsValid p
    → tier_index p r.policy_name ≡ ok i
    → Reach p r r'
    → (k : ℕ) × Stands p i (escalations_of r) k r'
Reach-Stands i v h reach = let (k, s, _) = Reach-Models i v h reach in (k, s)
