-- ===== src/Hook/Concurrent/Steps.antt =====
-- The requests of one session, all at once, by the kinds of `Turn`: at most one holds the claim, and
-- once a record is pinned none does.
use lite_router.Prelude.{
  ℕ, ◌+◌, ◌≤◌, ◌≡◌, refl, sym, ◌∙◌, true, String, Option, none, some, List, ◌∷◌, All, eq_iff, ◌⊎◌,
  inl, inr, arith,
}
use lite_router.Outcome.{Outcome}
use lite_router.Policies.{PoliciesConfig, IsValid}
use lite_router.StateMachine.{SessionRecord, state_pinned, state_classifying}
use lite_router.StateMachine.Life.{here}
use lite_router.Hook.Pinned.{Moved}
use lite_router.Hook.Serving.{Moved-Reach, Moved-state, Reach-trans}
use lite_router.Hook.Concurrent.{Request, Point, updating, Next, Task, goes_on}
use lite_router.Hook.Concurrent.Turns.{
  Turn, idle, plans, places, wins, works, pins, updates, Born, owns,
}
use lite_router.Hook.Concurrent.Owners.{
  Later, Never, mine, owners, Fit, Sound-pin, pin-owns, Owner-Sound, Owner-owns, Never-All,
}
use lite_router.Hook.Concurrent.Phases.{Unpinned, Pinned, Idle-owners, Idle-All}

both_states : {state : String} → state ≡ state_pinned → state ≡ state_classifying → ⊥
both_states h k = cc ((eq_iff state_pinned state_classifying).1 (sym h ∙ k))

module _ (p : PoliciesConfig) (key : String) where
  same_record : {o : Option SessionRecord} {a b : SessionRecord} → o ≡ some a → o ≡ some b → a ≡ b
  same_record h k = cc

  -- the tasks before a turn, and after one that goes on to an await
  abbrev at_point : Request → Point → Task
  at_point q point = record { request = q; at = point }

  owners_at :
      (q : Request) (point : Point) (rest : List Task)
      → mine p key q ≡ true
      → owners p key (at_point q point ∷ rest) ≡ owns point + owners p key rest
  unfolding owners
  owners_at q point rest m = rw m refl

  module _ (valid : IsValid p) (q : Request) (point : Point) (rest : List Task)
      (m : mine p key q ≡ true) where
    Later-Moved : (r u u' : SessionRecord) → Later p r u → Moved p u u' → Later p r u'
    Later-Moved r u u' (pinned, reach) moved =
        (Moved-state valid moved ∙ pinned, Reach-trans reach (Moved-Reach moved))

    no_owner :
        owners p key (at_point q point ∷ rest) ≡ 0 → (owns point ≡ 0) × (owners p key rest ≡ 0)
    no_owner h = ground (arith, owners_at q point rest m)

    -- A pinned session stays pinned at records that the same one led to.
    pub step-Pinned :
        (r : SessionRecord) (o o' : Option SessionRecord) (next : Outcome Next)
        → Turn p point o o' next
        → Pinned p key r o (at_point q point ∷ rest)
        → Pinned p key r o' (goes_on q next rest)
    step-Pinned r o o' next (idle same i) s =
        let (v, at, later) = s.now in
        record {
          now = (v, same ∙ at, later);
          held = record {
            count = Idle-owners p key (Later p r) q rest next i ∙ (no_owner s.held.count).1;
            sound = Idle-All p key (Later p r) q rest next i (s.held.sound.1);
          };
        }
    step-Pinned r o o' next (plans a u was pinned moved same e) s =
        let (v, at, later) = s.now in
        rw e (record {
          now = (v, same ∙ at, later);
          held = record {
            count = omega (arith, owners_at q (updating u) rest m, (no_owner s.held.count).1);
            sound =
                ((λ _. Later-Moved r a u (rw (same_record was at) later) moved), s.held.sound.1);
          };
        })
    step-Pinned r o o' next (places a absent there state i) s =
        let (v, at, later) = s.now in absurd (cc (absent, at))
    step-Pinned r o o' next (wins a point' absent there state owner e) s =
        let (v, at, later) = s.now in absurd (cc (absent, at))
    step-Pinned r o o' next (works point' own same owner e) s =
        absurd (ground (arith, no_owner s.held.count))
    step-Pinned r o o' next (pins a pin there i) s =
        absurd (ground (arith, no_owner s.held.count, pin-owns p key point a pin))
    step-Pinned r o o' next (updates u here_ there i) s = record {
      now = (u, there, rw here_ at (s.held.sound.0 m));
      held = record {
        count = Idle-owners p key (Later p r) q rest next i ∙ (no_owner s.held.count).1;
        sound = Idle-All p key (Later p r) q rest next i (s.held.sound.1);
      };
    }

    one_owner :
        {n : ℕ} → owners p key (at_point q point ∷ rest) ≤ n → owns point + owners p key rest ≤ n
    one_owner h = ground (arith, owners_at q point rest m)

    -- A session with a placeholder keeps it, or is pinned for the first time.
    step-placed :
        (o o' : Option SessionRecord) (next : Outcome Next) (r : SessionRecord)
        → Turn p point o o' next
        → o ≡ some r
        → r.state ≡ state_classifying
        → owners p key (at_point q point ∷ rest) ≤ 1
        → All (Fit p key Never) (at_point q point ∷ rest)
        → Unpinned p key o' (goes_on q next rest)
          ⊎ ((b : SessionRecord) × Born p b × Pinned p key b o' (goes_on q next rest))
    step-placed o o' next r (idle same i) at state few (f, all) = inl (record {
      count = inr (
        r,
        same ∙ at,
        state,
        omega (arith, one_owner few, Idle-owners p key Never q rest next i),
      );
      sound = Idle-All p key Never q rest next i all;
    })
    step-placed o o' next r (plans a u was pinned moved same e) at state few (f, all) =
        absurd (both_states pinned (rw (same_record was at) state))
    step-placed o o' next r (places a absent there state' i) at state few (f, all) =
        absurd (cc (absent, at))
    step-placed o o' next r (wins a point' absent there state' owner e) at state few (f, all) =
        absurd (cc (absent, at))
    step-placed o o' next r (works point' own same owner e) at state few (f, all) = rw e (
        inl (record {
          count = inr (
            r,
            same ∙ at,
            state,
            omega (
              arith,
              one_owner few,
              own,
              owners_at q point' rest m,
              Owner-owns p key point' owner,
            ),
          );
          sound = ((λ _. Owner-Sound p key Never point' owner), all);
        }))
    step-placed o o' next r (pins a pin there i) at state few (f, all) =
        let born = Sound-pin p key Never point a pin (f m) in
        inr (
          a,
          born,
          record {
            now = (a, there, (born.pinned, here));
            held = record {
              count = omega (
                arith,
                one_owner few,
                pin-owns p key point a pin,
                Idle-owners p key Never q rest next i,
              );
              sound =
                  Idle-All p key (Later p a) q rest next i (Never-All p key (Later p a) rest all);
            };
          },
        )
    step-placed o o' next r (updates u here_ there i) at state few (f, all) =
        absurd (rw here_ at (f m))

    -- A session without a record is claimed by one request, or stays without.
    step-absent :
        (o o' : Option SessionRecord) (next : Outcome Next)
        → Turn p point o o' next
        → o ≡ none
        → owners p key (at_point q point ∷ rest) ≡ 0
        → All (Fit p key Never) (at_point q point ∷ rest)
        → Unpinned p key o' (goes_on q next rest)
    step-absent o o' next (idle same i) absent free (f, all) = record {
      count = inl (same ∙ absent, Idle-owners p key Never q rest next i ∙ (no_owner free).1);
      sound = Idle-All p key Never q rest next i all;
    }
    step-absent o o' next (plans a u was pinned moved same e) absent free (f, all) =
        absurd (cc (absent, was))
    step-absent o o' next (places a absent' there state i) absent free (f, all) = record {
      count = inr (
        a,
        there,
        state,
        omega (arith, Idle-owners p key Never q rest next i, (no_owner free).1),
      );
      sound = Idle-All p key Never q rest next i all;
    }
    step-absent o o' next (wins a point' absent' there state owner e) absent free (f, all) =
        rw e (record {
          count = inr (
            a,
            there,
            state,
            omega (arith, no_owner free, owners_at q point' rest m, Owner-owns p key point' owner),
          );
          sound = ((λ _. Owner-Sound p key Never point' owner), all);
        })
    step-absent o o' next (works point' own same owner e) absent free (f, all) =
        absurd (ground (arith, no_owner free))
    step-absent o o' next (pins a pin there i) absent free (f, all) =
        absurd (ground (arith, no_owner free, pin-owns p key point a pin))
    step-absent o o' next (updates u here_ there i) absent free (f, all) =
        absurd (rw here_ at (f m))

    -- A session that is not pinned stays so, or is pinned for the first time.
    pub step-Unpinned :
        (o o' : Option SessionRecord) (next : Outcome Next)
        → Turn p point o o' next
        → Unpinned p key o (at_point q point ∷ rest)
        → Unpinned p key o' (goes_on q next rest)
          ⊎ ((b : SessionRecord) × Born p b × Pinned p key b o' (goes_on q next rest))
    step-Unpinned o o' next took s = elim s.count [
      | inl (absent, free) ↦ inl (step-absent o o' next took absent free s.sound)
      | inr (r, at, state, few) ↦ step-placed o o' next r took at state few s.sound
    ]
