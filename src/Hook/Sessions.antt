-- ===== src/Hook/Sessions.antt =====
-- What each part of the hook does to the sessions in the store.
use lite_router.Prelude.{ℕ, ◌≡◌, refl, ◌∙◌, false, String, Option, none, some, ◌==◌, inl, inr}
use lite_router.Exec.{Preserves, Preserves-pure, preserves_rules}
use lite_router.Json.{Fields}
use lite_router.Policies.{PoliciesConfig}
use lite_router.StateMachine.{SessionRecord, ClassifyResult}
use lite_router.DecisionLog.{DecisionEvent}
use lite_router.Store.{Redis, Codec}
use lite_router.Store.Laws.{RedisLaws, CodecLaws}
use lite_router.Store.Sessions.{session, get_and_refresh-Same, write_pin-Wrote}
use lite_router.Hook.{Context, World, Call, ttl, prefix, read_session, pin_session, emit_event}
use lite_router.Hook.First.{
  First, pin_subagent, emit_classified, pin_chosen, pin_session_root, pin_claimed,
}

module _ (redis : Redis) (codec : Codec redis) (c : Context) (p : PoliciesConfig)
    (laws : RedisLaws redis) (json : CodecLaws redis codec) where
  -- The record that a session has in a state of the router.
  abbrev pub ses : World redis → String → Option SessionRecord
  ses w = session redis codec (ttl redis codec c p) (prefix redis codec c p) laws json w.store.db

  -- no session but that of `key` differs
  abbrev pub Others : String → World redis → World redis → Type 0
  Others key w w' = (j : String) → (key == j) ≡ false → ses w' j ≡ ses w j

  abbrev pub SameSessions : World redis → World redis → Type 0
  SameSessions w w' = (j : String) → ses w' j ≡ ses w j

  pub read_session-Same :
      (key : String) (w : World redis) → SameSessions w (read_session redis codec c p key w).1
  unfolding read_session
  read_session-Same key w j =
      get_and_refresh-Same redis codec (ttl redis codec c p) (prefix redis codec c p) laws json key
        w.store j

  pub emit_event-Same :
      (event : DecisionEvent) (w : World redis)
      → SameSessions w (emit_event redis codec c p event w).1
  unfolding emit_event
  emit_event-Same event w j = refl

  pub pin_session-Others :
      (key : String) (r : SessionRecord) (w : World redis)
      → Others key w (pin_session redis codec c p key r w).1
  unfolding pin_session
  pin_session-Others key r w j ne =
      elim (write_pin-Wrote redis codec (ttl redis codec c p) (prefix redis codec c p) laws json key
        r w.store) [ inl same ↦ same j | inr wrote ↦ rw ne at (wrote j) ]

  -- Through the first request of a session no other session changes.
  module _ (call : Call) (w₀ : World redis) where
    pub keep_read : (k : String) → Preserves (Others call.key w₀) (read_session redis codec c p k)
    keep_read k = record { after = λ w h j ne. read_session-Same k w j ∙ h j ne }

    pub keep_emit :
        (event : DecisionEvent) → Preserves (Others call.key w₀) (emit_event redis codec c p event)
    keep_emit event = record { after = λ w h j ne. emit_event-Same event w j ∙ h j ne }

    pub keep_pin :
        (r : SessionRecord)
        → Preserves (Others call.key w₀) (pin_session redis codec c p call.key r)
    keep_pin r = record { after = λ w h j ne. pin_session-Others call.key r w j ne ∙ h j ne }

    pub keep_emit_classified :
        (first : First) (r : SessionRecord) (result : Option ClassifyResult)
        (matched : Option String)
        → Preserves
            (Others call.key w₀)
            (emit_classified redis codec c p call first r result matched)
    keep_emit_classified first r result none = keep_emit _
    keep_emit_classified first r result (some m) = Preserves-pure tt

    ruleset first_rules = (preserves_rules, keep_read, keep_emit, keep_pin, keep_emit_classified)

    keep_pin_chosen :
        (first : First) (matched : Option String) (result : Option ClassifyResult)
        → Preserves (Others call.key w₀) (pin_chosen redis codec c p call first matched result)
    unfolding pin_chosen
    keep_pin_chosen first matched result = search first_rules depth 9

    keep_pin_subagent :
        (first : First) → Preserves (Others call.key w₀) (pin_subagent redis codec c p call first)
    unfolding pin_subagent
    keep_pin_subagent first = search first_rules depth 9

    keep_pin_root :
        (first : First)
        → Preserves (Others call.key w₀) (pin_session_root redis codec c p call first)
    unfolding pin_session_root
    keep_pin_root first = keep_pin_chosen first _ _

    pub keep_pin_claimed :
        (body : Fields) (n : ℕ)
        → Preserves (Others call.key w₀) (pin_claimed redis codec c p body call n)
    unfolding pin_claimed
    keep_pin_claimed body n = search (preserves_rules, keep_pin_subagent, keep_pin_root) depth 9
