-- ===== src/Hook/Concurrent/Apart.antt =====
-- A turn of a request of hook.py changes no session but its own.
use lite_router.Prelude.{◌∙◌, String, Option, none, some, inl, inr}
use lite_router.Exec.{Preserves, Preserves-pure, preserves_rules}
use lite_router.Json.{Fields, Value}
use lite_router.Policies.{PoliciesConfig}
use lite_router.DecisionLog.{DecisionEvent}
use lite_router.StateMachine.{SessionRecord, ClassifyResult}
use lite_router.Store.{Redis, Codec}
use lite_router.Store.Laws.{RedisLaws, CodecLaws}
use lite_router.Store.Sessions.{claim-Wrote, update-Wrote}
use lite_router.Hook.{
  Context, World, Call, ttl, prefix, claim_session, update_session, read_session, emit_event,
  pin_session,
}
use lite_router.Hook.Keep.{emit_planned}
use lite_router.Hook.First.{First, emit_classified}
use lite_router.Hook.Sessions.{Others, keep_read, keep_emit, keep_pin, keep_emit_classified}
use lite_router.Hook.Concurrent.{
  Point, reading, claiming, reading_parent, classifying, pinning_subagent, pinning, updating,
  found_turn, override_turn, turn,
}

module _ (redis : Redis) (codec : Codec redis) (c : Context) (p : PoliciesConfig)
    (laws : RedisLaws redis) (json : CodecLaws redis codec) (call : Call) (w₀ : World redis) where
  -- no session but this request's has changed since `w₀`
  abbrev pub Apart : World redis → Type 0
  Apart = Others redis codec c p laws json call.key w₀

  keep_claim : (r : SessionRecord) → Preserves Apart (claim_session redis codec c p call.key r)
  unfolding claim_session
  keep_claim r = record {
    after = λ w h j ne.
        elim (claim-Wrote redis codec (ttl redis codec c p) (prefix redis codec c p) laws json
          call.key r w.store) [
            | inl same ↦ same j ∙ h j ne
            | inr (_, wrote) ↦ (rw ne at (wrote j)) ∙ h j ne
          ];
  }

  keep_update : (r : SessionRecord) → Preserves Apart (update_session redis codec c p call.key r)
  unfolding update_session
  keep_update r = record {
    after = λ w h j ne.
        elim (update-Wrote redis codec (ttl redis codec c p) (prefix redis codec c p) laws json
          call.key r w.store) [
            | inl same ↦ same j ∙ h j ne
            | inr wrote ↦ (rw ne at (wrote j)) ∙ h j ne
          ];
  }

  keep_planned :
      (event : Option DecisionEvent) → Preserves Apart (emit_planned redis codec c p event)
  keep_planned none = Preserves-pure tt
  keep_planned (some event) = keep_emit redis codec c p laws json call w₀ event

  keep_found :
      (messages : Value) (found : Option SessionRecord)
      → Preserves Apart (found_turn redis codec c p call messages found)
  keep_found messages none = Preserves-pure _
  keep_found messages (some r) = search (preserves_rules, keep_planned) depth 9

  keep_override :
      (first : First) (matched : Option String)
      → Preserves Apart (override_turn redis codec c p call first matched)
  keep_override first none = Preserves-pure _
  keep_override first (some m) = search preserves_rules depth 9

  -- the rules of Hook/Sessions.antt, for this request
  keep_seen : (k : String) → Preserves Apart (read_session redis codec c p k)
  keep_seen = keep_read redis codec c p laws json call w₀

  keep_event : (event : DecisionEvent) → Preserves Apart (emit_event redis codec c p event)
  keep_event = keep_emit redis codec c p laws json call w₀

  keep_pinned : (r : SessionRecord) → Preserves Apart (pin_session redis codec c p call.key r)
  keep_pinned = keep_pin redis codec c p laws json call w₀

  keep_classified :
      (first : First) (r : SessionRecord) (result : Option ClassifyResult) (matched : Option String)
      → Preserves Apart (emit_classified redis codec c p call first r result matched)
  keep_classified = keep_emit_classified redis codec c p laws json call w₀

  ruleset turn_rules = (
    preserves_rules, keep_seen, keep_event, keep_pinned, keep_classified, keep_claim, keep_update,
    keep_found, keep_override,
  )

  pub turn-Apart :
      (body : Fields) (point : Point) → Preserves Apart (turn redis codec c p call body point)
  unfolding turn
  turn-Apart body reading = search turn_rules depth 9
  turn-Apart body claiming = search turn_rules depth 9
  turn-Apart body (reading_parent first) = search turn_rules depth 9
  turn-Apart body (classifying first) = search turn_rules depth 9
  turn-Apart body (pinning_subagent first r) = search turn_rules depth 9
  turn-Apart body (pinning first matched result r) = search turn_rules depth 9
  turn-Apart body (updating r) = search turn_rules depth 9
