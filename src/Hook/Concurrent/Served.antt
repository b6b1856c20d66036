-- ===== src/Hook/Concurrent/Served.antt =====
-- Requests that overlap, of this and of other sessions: what the requests of a pinned session are
-- served with.
use lite_router.Prelude.{ℕ, ◌+◌, ◌≤◌, ◌<◌, ◌≡◌, String, ◌⊎◌}
use lite_router.Outcome.{ok}
use lite_router.Policies.{Tier, PoliciesConfig, tier_at}
use lite_router.StateMachine.{SessionRecord, escalations_of}

-- The default model, the model of the record `r`, or that of a tier k places above `i`, where k is
-- positive and added to the escalations that `r` counts stays within the cap.
abbrev pub Served : PoliciesConfig → ℕ → SessionRecord → String → Type 0
Served p i r model =
    (model ≡ p.default_model)
    ⊎ ((model ≡ r.model)
        ⊎ ((k : ℕ) × (t : Tier) × (0 < k)
            × (escalations_of r + k ≤ p.escalation.max_escalations)
            × (tier_at p.tiers (i + k) ≡ ok t)
            × (model ≡ t.model)))
