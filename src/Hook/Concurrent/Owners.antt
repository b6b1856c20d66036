-- ===== src/Hook/Concurrent/Owners.antt =====
-- The tasks that hold the claim of a session, and what is known of the writes still to come.
use lite_router.Prelude.{
  ℕ, zero, suc, ◌+◌, ◌≡◌, refl, Bool, true, String, Option, none, some, List, [], ◌∷◌, All, ◌==◌,
  if◌then◌else◌, arith,
}
use lite_router.Policies.{PoliciesConfig}
use lite_router.StateMachine.{SessionRecord, state_pinned}
use lite_router.StateMachine.Life.{Reach}
use lite_router.Hook.Concurrent.{
  Request, Point, reading, claiming, reading_parent, classifying, pinning_subagent, pinning,
  updating, Task, pick,
}
use lite_router.Hook.Concurrent.Turns.{Born, owns, pin_of, Owner}

-- a pinned record that some escalations and scans of `r` lead to
abbrev pub Later : PoliciesConfig → SessionRecord → SessionRecord → Type 0
Later p r u = (u.state ≡ state_pinned) × Reach p r u

-- no record
abbrev pub Never : SessionRecord → Type 0
Never r = ⊥

same_pin : {a b : SessionRecord} → some a ≡ some b → a ≡ b
same_pin h = cc

module _ (p : PoliciesConfig) (key : String) where
  abbrev pub mine : Request → Bool
  mine q = q.call.key == key

  -- how many tasks hold the claim of the session
  abbrev pub owned : Task → ℕ
  owned t = if mine t.request then owns t.at else 0

  unfoldable pub owners : List Task → ℕ
  owners [] = 0
  owners (t ∷ ts) = owned t + owners ts

  -- A pin that is still to be written is a first pin, and an update is of the given kind.
  abbrev pub Sound : (SessionRecord → Type 0) → Point → Type 0
  Sound P reading = Unit
  Sound P claiming = Unit
  Sound P (reading_parent first) = Unit
  Sound P (classifying first) = Unit
  Sound P (pinning_subagent first r) = Born p r
  Sound P (pinning first matched result r) = Born p r
  Sound P (updating u) = P u

  abbrev pub Fit : (SessionRecord → Type 0) → Task → Type 0
  Fit P t = mine t.request ≡ true → Sound P t.at

  pub Sound-pin :
      (P : SessionRecord → Type 0) (point : Point) (r : SessionRecord)
      → pin_of point ≡ some r
      → Sound P point
      → Born p r
  Sound-pin P reading r h s = cc
  Sound-pin P claiming r h s = cc
  Sound-pin P (reading_parent first) r h s = cc
  Sound-pin P (classifying first) r h s = cc
  Sound-pin P (pinning_subagent first b) r h s = rw (← same_pin h) s
  Sound-pin P (pinning first matched result b) r h s = rw (← same_pin h) s
  Sound-pin P (updating u) r h s = cc

  pub pin-owns : (point : Point) (r : SessionRecord) → pin_of point ≡ some r → owns point ≡ 1
  pin-owns reading r h = cc
  pin-owns claiming r h = cc
  pin-owns (reading_parent first) r h = cc
  pin-owns (classifying first) r h = cc
  pin-owns (pinning_subagent first b) r h = refl
  pin-owns (pinning first matched result b) r h = refl
  pin-owns (updating u) r h = cc

  pub Owner-Sound : (P : SessionRecord → Type 0) (point : Point) → Owner p point → Sound P point
  Owner-Sound P reading o = tt
  Owner-Sound P claiming o = tt
  Owner-Sound P (reading_parent first) o = tt
  Owner-Sound P (classifying first) o = tt
  Owner-Sound P (pinning_subagent first r) o = o
  Owner-Sound P (pinning first matched result r) o = o
  Owner-Sound P (updating u) o = absurd o

  pub Owner-owns : (point : Point) → Owner p point → owns point ≡ 1
  Owner-owns reading o = absurd o
  Owner-owns claiming o = absurd o
  Owner-owns (reading_parent first) o = refl
  Owner-owns (classifying first) o = refl
  Owner-owns (pinning_subagent first r) o = refl
  Owner-owns (pinning first matched result r) o = refl
  Owner-owns (updating u) o = absurd o

  pub Never-Sound : (P : SessionRecord → Type 0) (point : Point) → Sound Never point → Sound P point
  Never-Sound P reading o = tt
  Never-Sound P claiming o = tt
  Never-Sound P (reading_parent first) o = tt
  Never-Sound P (classifying first) o = tt
  Never-Sound P (pinning_subagent first r) o = o
  Never-Sound P (pinning first matched result r) o = o
  Never-Sound P (updating u) o = absurd o

  pub Never-All :
      (P : SessionRecord → Type 0) (ts : List Task) → All (Fit Never) ts → All (Fit P) ts
  Never-All P [] a = tt
  Never-All P (t ∷ ts) (f, a) = ((λ m. Never-Sound P t.at (f m)), Never-All P ts a)

  -- a task that is picked, and the others
  abbrev pub Picked : (SessionRecord → Type 0) → List Task → Option (Task × List Task) → Type 0
  Picked P ts none = Unit
  Picked P ts (some (t, rest)) =
      (owners ts ≡ owned t + owners rest) × (All (Fit P) ts → All (Fit P) (t ∷ rest))

  behind-Picked :
      (P : SessionRecord → Type 0) (t : Task) (ts : List Task) (o : Option (Task × List Task))
      → Picked P ts o
      → Picked P (t ∷ ts) (elim o [ none ↦ none | some (u, us) ↦ some (u, t ∷ us) ])
  unfolding owners
  behind-Picked P t ts none picked = tt
  behind-Picked P t ts (some (u, us)) (count, all) =
      (ground (arith, count), λ (f, a). let (g, b) = all a in (g, (f, b)))

  pub pick-Picked : (P : SessionRecord → Type 0) (n : ℕ) (ts : List Task) → Picked P ts (pick n ts)
  unfolding owners
  pick-Picked P n [] = tt
  pick-Picked P zero (t ∷ ts) = (refl, λ a. a)
  pick-Picked P (suc n) (t ∷ ts) = behind-Picked P t ts (pick n ts) (pick-Picked P n ts)
