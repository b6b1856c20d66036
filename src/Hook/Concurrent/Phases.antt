-- ===== src/Hook/Concurrent/Phases.antt =====
-- What is known of the tasks of one session: who holds its claim, and the writes still to come.
use lite_router.Prelude.{
  ℕ, ◌≤◌, ◌≡◌, refl, false, String, Option, none, some, List, All, ◌⊎◌, arith,
}
use lite_router.Outcome.{Outcome, ok, raise}
use lite_router.Policies.{PoliciesConfig}
use lite_router.StateMachine.{SessionRecord, state_classifying}
use lite_router.Hook.Concurrent.{
  Request, reading, claiming, reading_parent, classifying, pinning_subagent, pinning, updating,
  Next, waits, answers, Task, goes_on,
}
use lite_router.Hook.Concurrent.Turns.{Idle}
use lite_router.Hook.Concurrent.Owners.{Later, Never, mine, owners, Fit}

abbrev pub Placed : Option SessionRecord → ℕ → Type 0
Placed o n =
    ((o ≡ none) × (n ≡ 0))
    ⊎ ((r : SessionRecord) × (o ≡ some r) × (r.state ≡ state_classifying) × (n ≤ 1))

abbrev pub Unowned : ℕ → Type 0
Unowned n = n ≡ 0

module _ (p : PoliciesConfig) (key : String) where
  -- How many tasks hold the claim, and what is known of the writes still to come.
  pub record Held (P : SessionRecord → Type 0) (Q : ℕ → Type 0) (tasks : List Task) : Type 0 where
    pub count : Q (owners p key tasks)
    pub sound : All (Fit p key P) tasks

  -- The session is not pinned: it has no record and no owner, or a placeholder and at most one.
  abbrev pub Unpinned : Option SessionRecord → List Task → Type 0
  Unpinned o = Held Never (Placed o)

  -- The session is pinned, at a record that `r` led to, and so are all updates to come.
  pub record Pinned (r : SessionRecord) (o : Option SessionRecord) (tasks : List Task)
      : Type 0 where
    pub now : (u : SessionRecord) × (o ≡ some u) × Later p r u
    pub held : Held (Later p r) Unowned tasks

  module _ (P : SessionRecord → Type 0) (q : Request) (rest : List Task) where
    pub Idle-owners :
        (next : Outcome Next) → Idle next → owners p key (goes_on q next rest) ≡ owners p key rest
    unfolding owners
    Idle-owners (raise e) i = refl
    Idle-owners (ok (answers model)) i = refl
    Idle-owners (ok (waits reading)) i = ground arith
    Idle-owners (ok (waits claiming)) i = ground arith
    Idle-owners (ok (waits (reading_parent first))) i = absurd i
    Idle-owners (ok (waits (classifying first))) i = absurd i
    Idle-owners (ok (waits (pinning_subagent first r))) i = absurd i
    Idle-owners (ok (waits (pinning first matched result r))) i = absurd i
    Idle-owners (ok (waits (updating u))) i = absurd i

    pub Idle-All :
        (next : Outcome Next)
        → Idle next
        → All (Fit p key P) rest
        → All (Fit p key P) (goes_on q next rest)
    Idle-All (raise e) i a = a
    Idle-All (ok (answers model)) i a = a
    Idle-All (ok (waits reading)) i a = ((λ m. tt), a)
    Idle-All (ok (waits claiming)) i a = ((λ m. tt), a)
    Idle-All (ok (waits (reading_parent first))) i a = absurd i
    Idle-All (ok (waits (classifying first))) i a = absurd i
    Idle-All (ok (waits (pinning_subagent first r))) i a = absurd i
    Idle-All (ok (waits (pinning first matched result r))) i a = absurd i
    Idle-All (ok (waits (updating u))) i a = absurd i

    -- a request of another session
    pub strange-owners :
        (next : Outcome Next)
        → mine p key q ≡ false
        → owners p key (goes_on q next rest) ≡ owners p key rest
    unfolding owners
    strange-owners (raise e) m = refl
    strange-owners (ok (answers model)) m = refl
    strange-owners (ok (waits point)) m = ground arith

    pub strange-All :
        (next : Outcome Next)
        → mine p key q ≡ false
        → All (Fit p key P) rest
        → All (Fit p key P) (goes_on q next rest)
    strange-All (raise e) m a = a
    strange-All (ok (answers model)) m a = a
    strange-All (ok (waits point)) m a = ((λ m'. absurd (cc (m, m'))), a)
