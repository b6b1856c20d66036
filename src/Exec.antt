-- ===== src/Exec.antt =====
-- Methods that change the router's state and may raise. What was done before an exception stays
-- done, so the state comes back beside the exception too.
use lite_router.Prelude.{Bool, true, false, if◌then◌else◌}
use lite_router.Outcome.{Outcome, ok, raise}

abbrev pub Exec : Type 0 → Type 0 → Type 0
Exec S A = S → Outcome A × S

module _ {S A : Type 0} where
  unfoldable pub pure : A → Exec S A
  pure a s = (ok a, s)

  unfoldable pub lift : Outcome A → Exec S A
  lift r s = (r, s)

unfoldable pub modify : {S : Type 0} → (S → S) → Exec S (Unit {0})
modify f s = (ok tt, f s)

module _ {S A B : Type 0} where
  abbrev pub continue : (A → Exec S B) → Outcome A × S → Outcome B × S
  continue f (ok a, s) = f a s
  continue f (raise e, s) = (raise e, s)

  infixl 5 ◌>>=◌ ◌>>◌
  -- opening this opens `pure`, `lift` and `modify` too
  unfoldable pub ◌>>=◌ : Exec S A → (A → Exec S B) → Exec S B
  unfolding pure lift modify
  ◌>>=◌ m f s = continue f (m s)

  abbrev pub ◌>>◌ : Exec S A → Exec S B → Exec S B
  m >> k = m >>= λ _. k

-- `Inv` holds after the action if it holds before, whether the action returns or raises.
pub record Preserves {S A : Type 0} (Inv : S → Type 0) (action : Exec S A) : Type 0 where
  pub after : (before : S) → Inv before → Inv (action before).1

module _ {S A : Type 0} {Inv : S → Type 0} where
  pub Preserves-pure : (result : A) → Preserves Inv (pure result)
  unfolding pure
  Preserves-pure result = record { after = λ before inv. inv }

  pub Preserves-lift : (outcome : Outcome A) → Preserves Inv (lift outcome)
  unfolding lift
  Preserves-lift outcome = record { after = λ before inv. inv }

  pub Preserves-if :
      (test : Bool) (left right : Exec S A)
      → Preserves Inv right
      → Preserves Inv left
      → Preserves Inv (if test then left else right)
  Preserves-if true left right on_right on_left = on_left
  Preserves-if false left right on_right on_left = on_right

module _ {S A B : Type 0} {Inv : S → Type 0} (rest : A → Exec S B) where
  Preserves-continue :
      (done : Outcome A × S)
      → ((a : A) → Preserves Inv (rest a))
      → Inv done.1
      → Inv (continue rest done).1
  Preserves-continue (raise e, now) later inv = inv
  Preserves-continue (ok a, now) later inv = (later a).after now inv

  pub Preserves->>= :
      (action : Exec S A)
      → ((a : A) → Preserves Inv (rest a))
      → Preserves Inv action
      → Preserves Inv (action >>= rest)
  unfolding ◌>>=◌
  Preserves->>= action later first = record {
    after = λ before inv. Preserves-continue (action before) later (first.after before inv);
  }

pub ruleset preserves_rules = (Preserves->>=, Preserves-if, Preserves-lift, Preserves-pure)
