-- ===== src/Hook/Concurrent/Pins.antt =====
-- Requests that overlap, of this and of other sessions: who pins a session, and where it stands
-- afterwards.
use lite_router.Prelude.{ℕ, ◌≤◌, ◌≡◌, refl, String, Option, none, some, List, ◌⊎◌, inl, inr, arith}
use lite_router.Outcome.{ok}
use lite_router.Policies.{PoliciesConfig, IsValid, tier_index}
use lite_router.StateMachine.{SessionRecord, state_pinned, state_classifying, escalations_of}
use lite_router.StateMachine.Life.{Reach-Stands, Stands}
use lite_router.Store.{Redis, Codec}
use lite_router.Store.Laws.{RedisLaws, CodecLaws}
use lite_router.Hook.{Context, World}
use lite_router.Hook.Sessions.{ses}
use lite_router.Hook.Concurrent.{Act, Live, overlap, start}
use lite_router.Hook.Concurrent.Owners.{owners}
use lite_router.Hook.Concurrent.Once.{PinnedIn, UnpinnedIn, overlap-Pinned, overlap-Once}

-- The session is pinned at a listed tier, k tiers above `i`, where k is the count of escalations in
-- its record, and 0 or within `max_escalations`.
abbrev pub StandsAbove : PoliciesConfig → ℕ → Option SessionRecord → Type 0
StandsAbove p i o =
    (u : SessionRecord) × (k : ℕ) × (o ≡ some u) × (u.state ≡ state_pinned) × Stands p i 0 k u

-- no record, or the placeholder of a claim
abbrev pub NotPinned : Option SessionRecord → Type 0
NotPinned o = (o ≡ none) ⊎ ((r : SessionRecord) × (o ≡ some r) × (r.state ≡ state_classifying))

module _ (redis : Redis) (codec : Codec redis) (c : Context) (p : PoliciesConfig)
    (laws : RedisLaws redis) (json : CodecLaws redis codec) (valid : IsValid p) (key : String) where
  Pinned-Above :
      (b : SessionRecord) (i : ℕ) (s : Live redis codec c p)
      → escalations_of b ≡ 0
      → tier_index p b.policy_name ≡ ok i
      → PinnedIn redis codec c p laws json valid key b s
      → StandsAbove p i (ses redis codec c p laws json s.world key)
  Pinned-Above b i s fresh place pinned =
      let (u, at, (state, reach)) = pinned.now in
      let (k, stands) = Reach-Stands i valid place reach in (u, k, at, state, rw fresh at stands)

  Unpinned-NotPinned :
      (s : Live redis codec c p)
      → UnpinnedIn redis codec c p laws json valid key s
      → NotPinned (ses redis codec c p laws json s.world key) × (owners p key s.tasks ≤ 1)
  Unpinned-NotPinned s open_ = elim open_.count [
    | inl (absent, free) ↦ (inl absent, omega (arith, free))
    | inr (r, at, state, few) ↦ (inr (r, at, state), few)
  ]

  -- One first pin. On fixed validated policies, for a session that has no record when the first of
  -- the requests comes in, and however any requests of this and of other sessions then interleave at
  -- their awaits or are cancelled there, and whatever fails of Redis and of the classifier: at any
  -- moment the session is not pinned yet, and at most one request holds its claim; or none does, and
  -- the session is pinned, at that moment and after whatever follows, each time at or above the tier
  -- of one first pin, by as many tiers as its record counts escalations, and these are within
  -- `max_escalations`. A record that was stored later may stand lower than an earlier one, down to
  -- the first pin: an escalation is lost, with its count, when a slower request writes back what it
  -- has read before. Keys do not expire meanwhile.
  pub overlap-StandsAbove :
      (before after : List Act) (w : World redis)
      → ses redis codec c p laws json w key ≡ none
      → let s = overlap redis codec c p before (start redis codec c p w) in
        let s' = overlap redis codec c p after s in
        (NotPinned (ses redis codec c p laws json s.world key) × (owners p key s.tasks ≤ 1))
        ⊎ ((i : ℕ) × (owners p key s.tasks ≡ 0)
            × StandsAbove p i (ses redis codec c p laws json s.world key)
            × StandsAbove p i (ses redis codec c p laws json s'.world key))
  unfolding owners
  overlap-StandsAbove before after w absent =
      elim (overlap-Once redis codec c p laws json valid key before (start redis codec c p w)
        (record { count = inl (absent, refl); sound = tt })) [
          | inl open_ ↦
              inl (
                Unpinned-NotPinned (overlap redis codec c p before (start redis codec c p w)) open_)
          | inr (b, born, pinned) ↦
              let s = overlap redis codec c p before (start redis codec c p w) in
              let (i, place) = born.listed in
              inr (
                i,
                pinned.held.count,
                Pinned-Above b i s born.fresh place pinned,
                Pinned-Above b i (overlap redis codec c p after s) born.fresh place
                    (overlap-Pinned redis codec c p laws json valid key b after s pinned),
              )
        ]
