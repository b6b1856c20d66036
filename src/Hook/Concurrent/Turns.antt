-- ===== src/Hook/Concurrent/Turns.antt =====
-- What one turn of a request of hook.py may do to the record of its session.
use lite_router.Prelude.{ℕ, ◌≡◌, Option, none, some}
use lite_router.Outcome.{Outcome, ok, raise}
use lite_router.Policies.{PoliciesConfig, tier_index}
use lite_router.StateMachine.{SessionRecord, state_pinned, state_classifying, escalations_of}
use lite_router.Hook.Pinned.{Moved}
use lite_router.Hook.Concurrent.{
  Point, reading, claiming, reading_parent, classifying, pinning_subagent, pinning, updating, Next,
  waits, answers,
}

-- A first pin: at a tier of the policies, with no escalation.
pub record Born (p : PoliciesConfig) (r : SessionRecord) : Type 0 where
  pub pinned : r.state ≡ state_pinned
  pub fresh : escalations_of r ≡ 0
  pub listed : (i : ℕ) × (tier_index p r.policy_name ≡ ok i)

-- the request holds the claim of its session
abbrev pub owns : Point → ℕ
owns reading = 0
owns claiming = 0
owns (reading_parent first) = 1
owns (classifying first) = 1
owns (pinning_subagent first r) = 1
owns (pinning first matched result r) = 1
owns (updating r) = 0

abbrev pub pin_of : Point → Option SessionRecord
pin_of reading = none
pin_of claiming = none
pin_of (reading_parent first) = none
pin_of (classifying first) = none
pin_of (pinning_subagent first r) = some r
pin_of (pinning first matched result r) = some r
pin_of (updating r) = none

-- the next await of a request that holds its claim
abbrev pub Owner : PoliciesConfig → Point → Type 0
Owner p reading = ⊥
Owner p claiming = ⊥
Owner p (reading_parent first) = Unit
Owner p (classifying first) = Unit
Owner p (pinning_subagent first r) = Born p r
Owner p (pinning first matched result r) = Born p r
Owner p (updating r) = ⊥

-- the request is answered, or is yet to claim
abbrev pub Idle : Outcome Next → Type 0
Idle (raise e) = Unit
Idle (ok (answers model)) = Unit
Idle (ok (waits reading)) = Unit
Idle (ok (waits claiming)) = Unit
Idle (ok (waits (reading_parent first))) = ⊥
Idle (ok (waits (classifying first))) = ⊥
Idle (ok (waits (pinning_subagent first r))) = ⊥
Idle (ok (waits (pinning first matched result r))) = ⊥
Idle (ok (waits (updating r))) = ⊥

-- What a turn from `point` does to the record of its session, `o` before and `o'` after.
pub data Turn (p : PoliciesConfig) (point : Point) (o o' : Option SessionRecord)
    (next : Outcome Next) : Type 0 where
  idle : o' ≡ o → Idle next → Turn p point o o' next
  plans :
      (r u : SessionRecord)
      → o ≡ some r
      → r.state ≡ state_pinned
      → Moved p r u
      → o' ≡ o
      → next ≡ ok (waits (updating u))
      → Turn p point o o' next
  places :
      (r : SessionRecord)
      → o ≡ none
      → o' ≡ some r
      → r.state ≡ state_classifying
      → Idle next
      → Turn p point o o' next
  wins :
      (r : SessionRecord) (point' : Point)
      → o ≡ none
      → o' ≡ some r
      → r.state ≡ state_classifying
      → Owner p point'
      → next ≡ ok (waits point')
      → Turn p point o o' next
  works :
      (point' : Point)
      → owns point ≡ 1
      → o' ≡ o
      → Owner p point'
      → next ≡ ok (waits point')
      → Turn p point o o' next
  pins :
      (r : SessionRecord) → pin_of point ≡ some r → o' ≡ some r → Idle next → Turn p point o o' next
  updates :
      (u : SessionRecord) → point ≡ updating u → o' ≡ some u → Idle next → Turn p point o o' next

-- what follows without an await: the request ends, or goes on with its claim
pub data Begins (p : PoliciesConfig) (next : Outcome Next) : Type 0 where
  ends : Idle next → Begins p next
  begins : (point : Point) → Owner p point → next ≡ ok (waits point) → Begins p next
