-- ===== src/Hook/Gives.antt =====
-- Methods of the hook that end in a body with a model, or in an exception.
use lite_router.Prelude.{◌≡◌, refl, Bool, true, false, String, if◌then◌else◌}
use lite_router.Outcome.{Outcome, ok, raise}
use lite_router.Exec.{Exec, continue, ◌>>=◌, pure, lift}
use lite_router.Json.{Fields, str, get, put, get-put_self}

-- An exception, or a body whose "model" is a text that `Allowed` admits.
abbrev pub Answers : (String → Type 0) → Outcome Fields → Type 0
Answers Allowed (raise e) = Unit {0}
Answers Allowed (ok body) = (m : String) × Allowed m × (get "model" body ≡ str m)

-- The same after each run of a method.
pub record Gives {S : Type 0} (Allowed : String → Type 0) (m : Exec S Fields) : Type 0 where
  pub at : (s : S) → Answers Allowed (m s).0

module _ {S : Type 0} {Allowed : String → Type 0} where
  Gives-continue :
      {A : Type 0} {f : A → Exec S Fields} (x : Outcome A × S)
      → ((a : A) → Gives Allowed (f a))
      → Answers Allowed (continue f x).0
  Gives-continue (raise e, s) h = tt
  Gives-continue (ok a, s) h = (h a).at s

  pub Gives-bind :
      {A : Type 0} (m : Exec S A) {f : A → Exec S Fields}
      → ((a : A) → Gives Allowed (f a))
      → Gives Allowed (m >>= f)
  unfolding ◌>>=◌
  Gives-bind m h = record { at = λ s. Gives-continue (m s) h }

  pub Gives-lift :
      {A : Type 0} (r : Outcome A) (f : A → Exec S Fields)
      → ((a : A) → r ≡ ok a → Gives Allowed (f a))
      → Gives Allowed (lift r >>= f)
  unfolding ◌>>=◌
  Gives-lift (raise e) f h = record { at = λ s. tt }
  Gives-lift (ok a) f h = record { at = λ s. (h a refl).at s }

  pub Gives-put :
      (m : String) (body : Fields)
      → Allowed m
      → Gives {S = S} Allowed (pure (put "model" (str m) body))
  unfolding pure
  Gives-put m body a = record { at = λ s. (m, a, get-put_self "model" (str m) body) }

  Gives-if :
      {m n : Exec S Fields} (b : Bool)
      → Gives Allowed m
      → Gives Allowed n
      → Gives Allowed (if b then m else n)
  Gives-if true h k = h
  Gives-if false h k = k
