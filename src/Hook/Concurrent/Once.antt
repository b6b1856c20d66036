-- ===== src/Hook/Concurrent/Once.antt =====
-- What is known of one session, through any sequence of turns of requests of any sessions.
use mathlib.Core.Path.{subst}
use lite_router.Prelude.{
  ℕ, ◌≤◌, ◌≡◌, refl, ◌∙◌, true, false, String, Option, none, some, List, [], ◌∷◌, eq_iff, ◌⊎◌, inl,
  inr, Bool-cases, arith,
}
use lite_router.Policies.{PoliciesConfig, IsValid}
use lite_router.StateMachine.{SessionRecord}
use lite_router.Store.{Redis, Codec}
use lite_router.Store.Laws.{RedisLaws, CodecLaws}
use lite_router.Hook.{Context, World}
use lite_router.Hook.Serving.{context_of}
use lite_router.Hook.Sessions.{ses}
use lite_router.Hook.Concurrent.{
  Task, Act, arrives, goes, cancels, pick, Live, task_turn, picked_turn, without, act, overlap,
}
use lite_router.Hook.Concurrent.Turns.{Turn, Born}
use lite_router.Hook.Concurrent.Takes.{turn-Turn}
use lite_router.Hook.Concurrent.Apart.{turn-Apart}
use lite_router.Hook.Concurrent.Owners.{Later, Never, mine, Picked, pick-Picked}
use lite_router.Hook.Concurrent.Phases.{Placed, Unpinned, Unowned, Pinned}
use lite_router.Hook.Concurrent.Steps.{step-Pinned, step-Unpinned}
use lite_router.Hook.Concurrent.Keeps.{Held-picked, Held-without, Held-arrives, Held-strange}

fewer-Unowned : (m n : ℕ) → m ≤ n → n ≡ 0 → m ≡ 0
fewer-Unowned m n h k = omega arith

fewer-Placed : (o : Option SessionRecord) (m n : ℕ) → m ≤ n → Placed o n → Placed o m
fewer-Placed o m n h (inl (absent, free)) = inl (absent, omega arith)
fewer-Placed o m n h (inr (r, at, state, few)) = inr (r, at, state, omega arith)

module _ (redis : Redis) (codec : Codec redis) (c : Context) (p : PoliciesConfig)
    (laws : RedisLaws redis) (json : CodecLaws redis codec) (valid : IsValid p) (key : String) where
  abbrev pub record_in : World redis → Option SessionRecord
  record_in w = ses redis codec c p laws json w key

  -- a turn of a task of this session
  turn-Turn_here :
      (t : Task) (w : World redis)
      → mine p key t.request ≡ true
      → Turn p t.at
          (record_in w)
          (record_in (task_turn redis codec c p t w).1)
          (task_turn redis codec c p t w).0
  turn-Turn_here t w m =
      subst
        (λ k.
          Turn p t.at (ses redis codec c p laws json w k)
            (ses redis codec c p laws json (task_turn redis codec c p t w).1 k)
            (task_turn redis codec c p t w).0)
        ((eq_iff t.request.call.key key).0 m)
        (turn-Turn redis codec (context_of c t.request.arrival) p valid t.request.call laws json
          t.request.arrival.body t.at w)

  turn_strange :
      (t : Task) (w : World redis)
      → mine p key t.request ≡ false
      → record_in (task_turn redis codec c p t w).1 ≡ record_in w
  turn_strange t w m =
      (turn-Apart redis codec (context_of c t.request.arrival) p laws json t.request.call w
          t.request.arrival.body t.at).after
        w (λ j ne. refl) key m

  abbrev pub PinnedIn : SessionRecord → Live redis codec c p → Type 0
  PinnedIn r s = Pinned p key r (record_in s.world) s.tasks

  abbrev pub UnpinnedIn : Live redis codec c p → Type 0
  UnpinnedIn s = Unpinned p key (record_in s.world) s.tasks

  Picked-Pinned :
      (r : SessionRecord) (s : Live redis codec c p) (o : Option (Task × List Task))
      → Picked p key (Later p r) s.tasks o
      → PinnedIn r s
      → PinnedIn r (picked_turn redis codec c p s o)
  Picked-Pinned r s none _ pinned = pinned
  Picked-Pinned r s (some (t, rest)) picked pinned =
      let held =
        Held-picked p key (Later p r) Unowned fewer-Unowned s.tasks t rest picked pinned.held in
      elim (Bool-cases (mine p key t.request)) [
        | inl m ↦
            step-Pinned p key valid t.request t.at rest m r (record_in s.world) _ _
              (turn-Turn_here t s.world m) (record { now = pinned.now; held = held })
        | inr m ↦
            let (u, at, later) = pinned.now in
            record {
              now = (u, turn_strange t s.world m ∙ at, later);
              held = Held-strange p key (Later p r) Unowned fewer-Unowned t rest _ m held;
            }
      ]

  act-Pinned :
      (r : SessionRecord) (a : Act) (s : Live redis codec c p)
      → PinnedIn r s
      → PinnedIn r (act redis codec c p s a)
  unfolding act
  act-Pinned r (arrives q) s pinned = record {
    now = pinned.now;
    held = Held-arrives p key (Later p r) Unowned fewer-Unowned q s.tasks pinned.held;
  }
  act-Pinned r (goes n) s pinned =
      Picked-Pinned r s (pick n s.tasks) (pick-Picked p key (Later p r) n s.tasks) pinned
  act-Pinned r (cancels n) s pinned =
      without-Pinned (pick n s.tasks) (pick-Picked p key (Later p r) n s.tasks)
    where
      without-Pinned :
          (o : Option (Task × List Task))
          → Picked p key (Later p r) s.tasks o
          → PinnedIn r (without redis codec c p s o)
      without-Pinned none _ = pinned
      without-Pinned (some (t, rest)) picked = record {
        now = pinned.now;
        held =
            Held-without p key (Later p r) Unowned fewer-Unowned t rest (
              Held-picked p key (Later p r) Unowned fewer-Unowned s.tasks t rest picked
                pinned.held);
      }

  pub overlap-Pinned :
      (r : SessionRecord) (acts : List Act) (s : Live redis codec c p)
      → PinnedIn r s
      → PinnedIn r (overlap redis codec c p acts s)
  unfolding overlap
  overlap-Pinned r [] s pinned = pinned
  overlap-Pinned r (a ∷ acts) s pinned =
      overlap-Pinned r acts (act redis codec c p s a) (act-Pinned r a s pinned)

  -- not pinned yet, or pinned once
  abbrev pub Once : Live redis codec c p → Type 0
  Once s = UnpinnedIn s ⊎ ((b : SessionRecord) × Born p b × PinnedIn b s)

  Picked-Once :
      (s : Live redis codec c p) (o : Option (Task × List Task))
      → Picked p key Never s.tasks o
      → UnpinnedIn s
      → Once (picked_turn redis codec c p s o)
  Picked-Once s none _ open_ = inl open_
  Picked-Once s (some (t, rest)) picked open_ =
      let fewer = fewer-Placed (record_in s.world) in
      let held =
        Held-picked p key Never (Placed (record_in s.world)) fewer s.tasks t rest picked open_ in
      elim (Bool-cases (mine p key t.request)) [
        | inl m ↦
            step-Unpinned p key valid t.request t.at rest m (record_in s.world) _ _
              (turn-Turn_here t s.world m) held
        | inr m ↦ inl (
            rw (turn_strange t s.world m)
              (Held-strange p key Never (Placed (record_in s.world)) fewer t rest _ m held))
      ]

  act-Once : (a : Act) (s : Live redis codec c p) → UnpinnedIn s → Once (act redis codec c p s a)
  unfolding act
  act-Once (arrives q) s open_ = inl (
      Held-arrives p key Never (Placed (record_in s.world)) (fewer-Placed (record_in s.world)) q
        s.tasks open_)
  act-Once (goes n) s open_ =
      Picked-Once s (pick n s.tasks) (pick-Picked p key Never n s.tasks) open_
  act-Once (cancels n) s open_ =
      inl (without-Unpinned (pick n s.tasks) (pick-Picked p key Never n s.tasks))
    where
      without-Unpinned :
          (o : Option (Task × List Task))
          → Picked p key Never s.tasks o
          → UnpinnedIn (without redis codec c p s o)
      without-Unpinned none _ = open_
      without-Unpinned (some (t, rest)) picked =
          let fewer = fewer-Placed (record_in s.world) in
          Held-without p key Never (Placed (record_in s.world)) fewer t rest
            (Held-picked p key Never (Placed (record_in s.world)) fewer s.tasks t rest picked open_)

  pub overlap-Once :
      (acts : List Act) (s : Live redis codec c p)
      → UnpinnedIn s
      → Once (overlap redis codec c p acts s)
  unfolding overlap
  overlap-Once [] s open_ = inl open_
  overlap-Once (a ∷ acts) s open_ = elim (act-Once a s open_) [
    | inl open' ↦ overlap-Once acts (act redis codec c p s a) open'
    | inr (b, born, pinned) ↦ inr (b, born, overlap-Pinned b acts (act redis codec c p s a) pinned)
  ]
