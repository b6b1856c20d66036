-- ===== src/Hook/Concurrent/Takes.antt =====
-- Each turn of a request of hook.py is one of the kinds of `Turn` for the record of its session.
use lite_router.Prelude.{
  ℕ, ◌≡◌, refl, sym, Bool, true, false, String, Option, none, some, ◌==◌, eq_refl, eq_iff,
  if◌then◌else◌, ◌⊎◌, inl, inr, Bool-cases,
}
use lite_router.Outcome.{Outcome, Outcome-cases}
use lite_router.Exec.{◌>>=◌, ◌>>◌, pure}
use lite_router.Json.{Fields, Value}
use lite_router.Policies.{PoliciesConfig, IsValid}
use lite_router.DecisionLog.{DecisionEvent}
use lite_router.StateMachine.{
  SessionRecord, ClassifyResult, state_pinned, state_classifying, classifying_placeholder,
}
use lite_router.Store.{Redis, Codec}
use lite_router.Store.Laws.{RedisLaws, CodecLaws}
use lite_router.Store.Sessions.{
  get_and_refresh-Same, claim-none, claim-there, claim-Wrote, write_pin-Wrote, update-Wrote,
}
use lite_router.Store.Reads.{get_and_refresh_reads}
use lite_router.Hook.{
  Context, World, Call, ttl, prefix, read_session, claim_session, pin_session, update_session,
  emit_event,
}
use lite_router.Hook.Keep.{plan_pinned, emit_planned}
use lite_router.Hook.First.{First}
use lite_router.Hook.Pinned.{Moved, plan_pinned-Moved}
use lite_router.Hook.Sessions.{ses, SameSessions, read_session-Same}
use lite_router.Hook.Concurrent.{
  Point, reading, claiming, reading_parent, classifying, pinning_subagent, pinning, updating, Next,
  after_plan, found_turn, won_turn, turn,
}
use lite_router.Hook.Concurrent.Turns.{
  Turn, idle, plans, places, wins, works, pins, updates, owns, Idle, ends, begins,
}
use lite_router.Hook.Concurrent.Begun.{
  Quiet, placeholder-state, build_turn-Quiet, claimed_turn-Quiet, parent_turn-Quiet,
}

module _ (redis : Redis) (codec : Codec redis) (c : Context) (p : PoliciesConfig)
    (valid : IsValid p) (call : Call) (laws : RedisLaws redis) (json : CodecLaws redis codec) where
  -- a turn from `point` in `w`, by its result
  abbrev Took : Point → World redis → Outcome Next × World redis → Type 0
  Took point w x =
      Turn p point (ses redis codec c p laws json w call.key)
        (ses redis codec c p laws json x.1 call.key) x.0

  -- a request that holds its claim, after a call that changes no session
  Took-works :
      (point : Point) (w w₁ : World redis) (x : Outcome Next × World redis)
      → owns point ≡ 1
      → ses redis codec c p laws json w₁ call.key ≡ ses redis codec c p laws json w call.key
      → Quiet redis p w₁ x
      → Took point w x
  Took-works point w w₁ x own same (quiet, ends i) = idle (rw quiet same) i
  Took-works point w w₁ x own same (quiet, begins point' o e) = works point' own (rw quiet same) o e

  classifying-Took :
      (body : Fields) (first : First) (w : World redis)
      → Took (classifying first) w (turn redis codec c p call body (classifying first) w)
  unfolding turn
  classifying-Took body first w =
      Took-works (classifying first) w w _ refl refl
        (build_turn-Quiet redis codec c p valid call first none _ false w)

  reading_parent-Took :
      (body : Fields) (first : First) (w : World redis)
      → Took (reading_parent first) w (turn redis codec c p call body (reading_parent first) w)
  unfolding turn read_session ◌>>=◌
  reading_parent-Took body first w =
      Took-works (reading_parent first) w (read_session redis codec c p call.base_key w).1 _ refl
        (read_session-Same redis codec c p laws json call.base_key w call.key)
        (parent_turn-Quiet redis codec c p valid call first _ _)

  -- a write of this session's record, after which the request is answered
  Took-wrote :
      (point : Point) (r : SessionRecord) (w : World redis) (x : Outcome Next × World redis)
      → Idle x.0
      → (ses redis codec c p laws json x.1 call.key ≡ some r → Took point w x)
      → SameSessions redis codec c p laws json w x.1
        ⊎ ((j : String)
            → ses redis codec c p laws json x.1 j
              ≡ (if call.key == j then some r else ses redis codec c p laws json w j))
      → Took point w x
  Took-wrote point r w x i made (inl same) = idle (same call.key) i
  Took-wrote point r w x i made (inr wrote) = made (rw (eq_refl call.key) at (wrote call.key))

  pinning_subagent-Took :
      (body : Fields) (first : First) (r : SessionRecord) (w : World redis)
      → Took
          (pinning_subagent first r)
          w
          (turn redis codec c p call body (pinning_subagent first r) w)
  unfolding turn pin_session emit_event ◌>>=◌
  pinning_subagent-Took body first r w =
      Took-wrote (pinning_subagent first r) r w
        (turn redis codec c p call body (pinning_subagent first r) w) tt
        (λ wrote. pins r refl wrote tt)
        (write_pin-Wrote redis codec (ttl redis codec c p) (prefix redis codec c p) laws json
          call.key r w.store)

  pinning-Took :
      (body : Fields) (first : First) (matched : Option String) (result : Option ClassifyResult)
      (r : SessionRecord) (w : World redis)
      → Took
          (pinning first matched result r)
          w
          (turn redis codec c p call body (pinning first matched result r) w)
  unfolding turn pin_session emit_event ◌>>=◌
  pinning-Took body first none result r w =
      Took-wrote (pinning first none result r) r w
        (turn redis codec c p call body (pinning first none result r) w) tt
        (λ wrote. pins r refl wrote tt)
        (write_pin-Wrote redis codec (ttl redis codec c p) (prefix redis codec c p) laws json
          call.key r w.store)
  pinning-Took body first (some m) result r w =
      Took-wrote (pinning first (some m) result r) r w
        (turn redis codec c p call body (pinning first (some m) result r) w) tt
        (λ wrote. pins r refl wrote tt)
        (write_pin-Wrote redis codec (ttl redis codec c p) (prefix redis codec c p) laws json
          call.key r w.store)

  updating-Took :
      (body : Fields) (u : SessionRecord) (w : World redis)
      → Took (updating u) w (turn redis codec c p call body (updating u) w)
  unfolding turn update_session ◌>>=◌
  updating-Took body u w =
      Took-wrote (updating u) u w (turn redis codec c p call body (updating u) w) tt
        (λ wrote. updates u refl wrote tt)
        (update-Wrote redis codec (ttl redis codec c p) (prefix redis codec c p) laws json call.key
          u w.store)

  -- the turn after the claim, by its result
  won_turn-Took :
      (body : Fields) (n : ℕ) (ph : SessionRecord) (won : Bool) (w w₁ : World redis)
      → ph.state ≡ state_classifying
      → (won ≡ true → ses redis codec c p laws json w call.key ≡ none)
      → (won ≡ true → ses redis codec c p laws json w₁ call.key ≡ some ph)
      → SameSessions redis codec c p laws json w w₁
        ⊎ ((ses redis codec c p laws json w call.key ≡ none)
            × ((j : String)
                → ses redis codec c p laws json w₁ j
                  ≡ (if call.key == j then some ph else ses redis codec c p laws json w j)))
      → Took claiming w (won_turn redis codec c p call body n won w₁)
  unfolding pure
  won_turn-Took body n ph false w w₁ state absent there (inl same) = idle (same call.key) tt
  won_turn-Took body n ph false w w₁ state absent there (inr (was, wrote)) =
      places ph was (rw (eq_refl call.key) at (wrote call.key)) state tt
  won_turn-Took body n ph true w w₁ state absent there effect =
      won_begins (claimed_turn-Quiet redis codec c p valid call body n w₁)
    where
      won_begins : {x : Outcome Next × World redis} → Quiet redis p w₁ x → Took claiming w x
      won_begins (quiet, ends i) = places ph (absent refl) (rw quiet (there refl)) state i
      won_begins (quiet, begins point o e) =
          wins ph point (absent refl) (rw quiet (there refl)) state o e

  claiming-Took :
      (body : Fields) (w : World redis)
      → Took claiming w (turn redis codec c p call body claiming w)
  unfolding turn claim_session ◌>>=◌
  claiming-Took body w = elim (Outcome-cases (classifying_placeholder p)) [
    | inr (x, e) ↦ rw e (idle refl tt)
    | inl (ph, e) ↦ rw e (
        won_turn-Took body _ ph _ w _ (placeholder-state p ph e)
          (claim-none redis codec (ttl redis codec c p) (prefix redis codec c p) laws json call.key
            ph w.store)
          (claim-there redis codec (ttl redis codec c p) (prefix redis codec c p) laws json call.key
            ph w.store)
          (claim-Wrote redis codec (ttl redis codec c p) (prefix redis codec c p) laws json call.key
            ph w.store))
  ]

  -- what a pinned request plans
  planned_turn-Took :
      (event : Option DecisionEvent) (r : SessionRecord) (updated : Option SessionRecord)
      (w w₁ : World redis)
      → ses redis codec c p laws json w call.key ≡ some r
      → r.state ≡ state_pinned
      → ((u : SessionRecord) → updated ≡ some u → Moved p r u)
      → ses redis codec c p laws json w₁ call.key ≡ ses redis codec c p laws json w call.key
      → Took reading w ((do emit_planned redis codec c p event; pure (after_plan r updated)) w₁)
  unfolding emit_event ◌>>=◌
  planned_turn-Took none r none w w₁ at pinned moved same = idle same tt
  planned_turn-Took (some event) r none w w₁ at pinned moved same = idle same tt
  planned_turn-Took none r (some u) w w₁ at pinned moved same =
      plans r u at pinned (moved u refl) same refl
  planned_turn-Took (some event) r (some u) w w₁ at pinned moved same =
      plans r u at pinned (moved u refl) same refl

  found_turn-Took :
      (messages : Value) (found : Option SessionRecord) (w w₁ : World redis)
      → (found ≡ none) ⊎ (found ≡ ses redis codec c p laws json w call.key)
      → ses redis codec c p laws json w₁ call.key ≡ ses redis codec c p laws json w call.key
      → Took reading w (found_turn redis codec c p call messages found w₁)
  unfolding ◌>>=◌
  found_turn-Took messages none w w₁ reads same = idle same tt
  found_turn-Took messages (some r) w w₁ (inl nothing) same = absurd (cc)
  found_turn-Took messages (some r) w w₁ (inr there) same =
      elim (Bool-cases (r.state == state_pinned)) [
        | inr e ↦ rw e (idle same tt)
        | inl e ↦ elim (Outcome-cases (plan_pinned c p call r messages)) [
          | inr (x, f) ↦ rw (e, f) (idle same tt)
          | inl (plan, f) ↦
              rw (e, f)
                (planned_turn-Took plan.event r plan.updated w w₁ (sym there)
                  ((eq_iff r.state state_pinned).0 e)
                  (λ u up. plan_pinned-Moved c p call r messages plan u f up) same)
        ]
      ]

  reading-Took :
      (body : Fields) (w : World redis) → Took reading w (turn redis codec c p call body reading w)
  unfolding turn read_session ◌>>=◌
  reading-Took body w =
      found_turn-Took _ _ w _
        (get_and_refresh_reads redis codec (ttl redis codec c p) (prefix redis codec c p) laws json
          call.key w.store)
        (get_and_refresh-Same redis codec (ttl redis codec c p) (prefix redis codec c p) laws json
          call.key w.store call.key)

  -- The seven awaits: each turn of a request is one of the kinds of `Turn` for its session.
  pub turn-Turn :
      (body : Fields) (point : Point) (w : World redis)
      → Took point w (turn redis codec c p call body point w)
  turn-Turn body reading w = reading-Took body w
  turn-Turn body claiming w = claiming-Took body w
  turn-Turn body (reading_parent first) w = reading_parent-Took body first w
  turn-Turn body (classifying first) w = classifying-Took body first w
  turn-Turn body (pinning_subagent first r) w = pinning_subagent-Took body first r w
  turn-Turn body (pinning first matched result r) w = pinning-Took body first matched result r w
  turn-Turn body (updating r) w = updating-Took body r w
