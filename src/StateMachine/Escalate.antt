-- ===== src/StateMachine/Escalate.antt =====
-- `escalate` of state_machine.py on validated policies, case by case.
use lite_router.Prelude.{
  ℕ, ◌+◌, ◌-◌, ◌<◌, ◌≡◌, Bool, true, false, not, String, none, some, length, leb, if◌then◌else◌,
  ◌==◌, arith, Bool-cases, inl, inr, ◌⊎◌,
}
use lite_router.Outcome.{ok}
use lite_router.Policies.{Tier, PoliciesConfig, IsValid, tier_index, tier_at}
use lite_router.Policies.Valid.{
  tier_index-tier_by_name, tier_index-tier_at, default_tier-listed, tier_at-in_range,
}
use lite_router.StateMachine.{
  SessionRecord, state_pinned, anchor, escalations_of, raised_to, escalate,
}

-- The place of a record's tier, that of the default tier where the policies do not know the name.
pub anchor-listed :
    (p : PoliciesConfig) (name : String)
    → IsValid p
    → (i : ℕ) × (anchor p name ≡ ok i) × (i < length p.tiers)
unfolding anchor
anchor-listed p name v = elim (tier_index-tier_by_name p name) [
  | inl (i, t, found, _, _, _, bound) ↦ (i, rw found, bound)
  | inr (unknown, _) ↦
      let (i, t, chosen, at, bound) = default_tier-listed p v in
      (i, rw (unknown, chosen) (tier_index-tier_at p i t v at), bound)
]

-- An index of a known name is its anchor.
pub anchor_of_index :
    (p : PoliciesConfig) (name : String) (i : ℕ) → tier_index p name ≡ ok i → anchor p name ≡ ok i
unfolding anchor
anchor_of_index p name i h = rw h

abbrev pub may_escalate : SessionRecord → PoliciesConfig → ℕ → Bool
may_escalate r p i =
    if r.state == state_pinned
    then (if leb p.escalation.max_escalations (escalations_of r)
        then false
        else not (leb (length p.tiers - 1) i))
    else false

pub escalate_cases :
    (r : SessionRecord) (p : PoliciesConfig)
    → IsValid p
    → (i : ℕ) × (anchor p r.policy_name ≡ ok i)
      × (((may_escalate r p i ≡ false) × (escalate r p ≡ ok none))
          ⊎ ((may_escalate r p i ≡ true)
              × ((t : Tier) × (tier_at p.tiers (i + 1) ≡ ok t)
                  × (tier_index p t.name ≡ ok (i + 1))
                  × (escalate r p ≡ ok (some (raised_to t r))))))
unfolding escalate
escalate_cases r p v =
    let (i, at, bound) = anchor-listed p r.policy_name v in
    (
      i,
      at,
      elim (Bool-cases (may_escalate r p i)) [
        | inl yes_ ↦
            let (t, there) = tier_at-in_range p.tiers (i + 1) (ground arith) in
            inr
              (yes_, (t, there, tier_index-tier_at p (i + 1) t v there, ground (arith, at, there)))
        | inr no_ ↦ inl (no_, ground (arith, at))
      ],
    )
