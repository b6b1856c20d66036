-- ===== src/Hook/Serving.antt =====
-- Requests one after the other, and the tier of a session over all of them.
use lite_router.Prelude.{ℕ, ◌≡◌, sym, ap, ◌∙◌, String, Option, some, List, [], ◌∷◌, inl, inr}
use lite_router.Outcome.{Outcome, ok}
use lite_router.Runtime.{Float}
use lite_router.Json.{Fields}
use lite_router.Policies.{PoliciesConfig, IsValid, tier_index}
use lite_router.StateMachine.{SessionRecord, state_pinned, escalate, escalations_of}
use lite_router.StateMachine.Escalate.{escalate_cases}
use lite_router.StateMachine.Life.{Step, Reach, here, next, Reach-Stands, Stands}
use lite_router.Classifier.{Http}
use lite_router.Store.{Redis, Codec}
use lite_router.Store.Laws.{RedisLaws, CodecLaws}
use lite_router.Hook.{Context, World}
use lite_router.Hook.Pinned.{Moved, stayed, scanned, escalated}
use lite_router.Hook.Sessions.{ses}
use lite_router.Hook.Route.{async_pre_call_hook}
use lite_router.Hook.NoDowngrade.{hook-Advances}

-- A request of the proxy, with what the world outside gives it: the caller's key, the classifier
-- service at that moment, the clock.
pub record Arrival : Type 0 where
  pub body : Fields
  pub call_type : String
  pub key_alias : Option String
  pub user_id : Option String
  pub http : Http
  pub now : Float

abbrev pub context_of : Context → Arrival → Context
context_of c a = record c {
  key_alias = a.key_alias;
  user_id = a.user_id;
  http = a.http;
  now = a.now;
}

-- The requests that reach the proxy, in order; the hook ends each before the next.
unfoldable pub serve :
    (redis : Redis) → Codec redis → Context → List Arrival → World redis → World redis
serve redis codec c [] w = w
serve redis codec c (a ∷ rest) w =
    serve redis codec c rest
      (async_pre_call_hook redis codec (context_of c a) a.body a.call_type w).1

state-escalate :
    (r e : SessionRecord) (p : PoliciesConfig)
    → IsValid p
    → escalate r p ≡ ok (some e)
    → e.state ≡ r.state
state-escalate r e p v h =
    let (i, at, cases) = escalate_cases r p v in
    elim cases [
      | inl (_, stays) ↦ absurd (cc (stays, h))
      | inr (_, (t, _, _, moved)) ↦
          ap (λ (x : SessionRecord). x.state) (same_result (sym h ∙ moved))
    ]
  where
    same_result :
        {a b : SessionRecord}
        → Path (Outcome (Option SessionRecord)) (ok (some a)) (ok (some b))
        → a ≡ b
    same_result h = cc

pub Moved-Reach : {p : PoliciesConfig} {r r' : SessionRecord} → Moved p r r' → Reach p r r'
Moved-Reach {p} {r} (stayed e) = rw e here
Moved-Reach (scanned d e) = next here (Step.scanned d e)
Moved-Reach (escalated x d up e) = next (next here (Step.escalated up)) (Step.scanned d e)

pub Reach-trans :
    {p : PoliciesConfig} {r r' r'' : SessionRecord} → Reach p r r' → Reach p r' r'' → Reach p r r''
Reach-trans a here = a
Reach-trans a (next b s) = next (Reach-trans a b) s

pub Moved-state :
    {p : PoliciesConfig} {r r' : SessionRecord} → IsValid p → Moved p r r' → r'.state ≡ r.state
Moved-state v (stayed e) = ap (λ (x : SessionRecord). x.state) e
Moved-state v (scanned d e) = ap (λ (x : SessionRecord). x.state) e
Moved-state {p} {r} v (escalated x d up e) =
    ap (λ (y : SessionRecord). y.state) e ∙ state-escalate r x p v up

module _ (redis : Redis) (codec : Codec redis) (c : Context) (p : PoliciesConfig)
    (laws : RedisLaws redis) (json : CodecLaws redis codec) (valid : IsValid p)
    (loaded : c.policies ≡ ok p) where
  serve-Reach :
      (arrivals : List Arrival) (w : World redis) (j : String) (r : SessionRecord)
      → ses redis codec c p laws json w j ≡ some r
      → r.state ≡ state_pinned
      → (r' : SessionRecord) × (ses redis codec c p laws json (serve redis codec c arrivals w) j
          ≡ some r')
        × (r'.state ≡ state_pinned)
        × Reach p r r'
  unfolding serve
  serve-Reach [] w j r at pinned = (r, at, pinned, here)
  serve-Reach (a ∷ rest) w j r at pinned =
      let (r₁, at₁, moved) =
        hook-Advances redis codec (context_of c a) p laws json a.body a.call_type w loaded j r at
          pinned in
      let (r₂, at₂, pinned₂, reach) =
        serve-Reach rest (async_pre_call_hook redis codec (context_of c a) a.body a.call_type w).1 j
          r₁ at₁ (Moved-state valid moved ∙ pinned) in
      (r₂, at₂, pinned₂, Reach-trans (Moved-Reach moved) reach)

  -- No downgrades: on fixed validated policies, whatever requests arrive one after the other, and
  -- whatever fails of Redis and of the classifier, a session that is pinned at a tier of the
  -- policies is still pinned afterwards, some number k of tiers higher, where k counts its
  -- escalations and keeps them within `max_escalations`. Keys do not expire meanwhile.
  pub serve-Stands :
      (arrivals : List Arrival) (w : World redis) (j : String) (r : SessionRecord) (i : ℕ)
      → ses redis codec c p laws json w j ≡ some r
      → r.state ≡ state_pinned
      → tier_index p r.policy_name ≡ ok i
      → (r' : SessionRecord) × (k : ℕ) × (ses redis codec c p laws json
            (serve redis codec c arrivals w)
            j
          ≡ some r')
        × (r'.state ≡ state_pinned)
        × Stands p i (escalations_of r) k r'
  serve-Stands arrivals w j r i at pinned place =
      let (r', at', pinned', reach) = serve-Reach arrivals w j r at pinned in
      let (k, stands) = Reach-Stands i valid place reach in (r', k, at', pinned', stands)
