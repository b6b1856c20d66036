-- ===== src/Hook/Concurrent/Keeps.antt =====
-- What is known of the tasks of one session stays true as tasks come, go and are picked, and through
-- the turns of other sessions.
use lite_router.Prelude.{ℕ, ◌≤◌, ◌≡◌, false, String, some, List, ◌∷◌, arith}
use lite_router.Outcome.{Outcome}
use lite_router.Policies.{PoliciesConfig}
use lite_router.StateMachine.{SessionRecord}
use lite_router.Hook.Concurrent.{Request, reading, Next, Task, goes_on}
use lite_router.Hook.Concurrent.Owners.{mine, owners, Picked}
use lite_router.Hook.Concurrent.Phases.{Held, strange-owners, strange-All}

module _ (p : PoliciesConfig) (key : String) (P : SessionRecord → Type 0) (Q : ℕ → Type 0)
    (fewer : (m n : ℕ) → m ≤ n → Q n → Q m) where
  -- A task that is picked is seen first.
  pub Held-picked :
      (ts : List Task) (t : Task) (rest : List Task)
      → Picked p key P ts (some (t, rest))
      → Held p key P Q ts
      → Held p key P Q (t ∷ rest)
  unfolding owners
  Held-picked ts t rest (count, all) s = record {
    count = fewer _ _ (omega (arith, count)) s.count;
    sound = all s.sound;
  }

  pub Held-without : (t : Task) (rest : List Task) → Held p key P Q (t ∷ rest) → Held p key P Q rest
  unfolding owners
  Held-without t rest s = record { count = fewer _ _ (omega arith) s.count; sound = s.sound.1 }

  pub Held-arrives :
      (q : Request) (ts : List Task)
      → Held p key P Q ts
      → Held p key P Q (record { request = q; at = reading } ∷ ts)
  unfolding owners
  Held-arrives q ts s = record {
    count = fewer _ _ (ground arith) s.count;
    sound = ((λ _. tt), s.sound);
  }

  -- the turn of a request of another session
  pub Held-strange :
      (t : Task) (rest : List Task) (next : Outcome Next)
      → mine p key t.request ≡ false
      → Held p key P Q (t ∷ rest)
      → Held p key P Q (goes_on t.request next rest)
  Held-strange t rest next m s =
      let left = Held-without t rest s in
      record {
        count = fewer _ _ (omega (arith, strange-owners p key P t.request rest next m)) left.count;
        sound = strange-All p key P t.request rest next m left.sound;
      }
