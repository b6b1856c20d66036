-- ===== src/Outcome.antt =====
-- Python's exceptions as values: what a call of the hook's code returns or raises. Only the
-- exceptions that the modelled code can meet are listed.
use lite_router.Prelude.{◌≡◌, refl, ◌⊎◌, inl, inr}

pub data Exn : Type 0 where
  -- `.get` of a value that is no dict
  attribute_error : Exn
  -- iterating or measuring a value that has no items
  type_error : Exn
  key_error : Exn
  index_error : Exn
  assertion_error : Exn
  -- a validator of `PoliciesConfig`, or a policies file that cannot be read
  value_error : Exn
  -- `re.compile` of a malformed pattern
  re_error : Exn
  -- `float` of an integer that is too large
  overflow_error : Exn
  -- `json.loads` of a text that is no JSON
  json_decode_error : Exn
  -- the HTTP client's, a timeout too, and `raise_for_status`
  http_error : Exn
  zero_division_error : Exn
  runtime_error : Exn

pub data Outcome {ℓ} (A : Type ℓ) : Type ℓ where
  ok : A → Outcome A
  raise : Exn → Outcome A

infixl 5 ◌>>=◌
abbrev pub ◌>>=◌ {ℓ κ} : {A : Type ℓ} {B : Type κ} → Outcome A → (A → Outcome B) → Outcome B
ok a >>= f = f a
raise e >>= f = raise e

pub Outcome-cases {ℓ} :
    {A : Type ℓ} (m : Outcome A) → ((a : A) × (m ≡ ok a)) ⊎ ((e : Exn) × (m ≡ raise e))
Outcome-cases (ok a) = inl (a, refl)
Outcome-cases (raise e) = inr (e, refl)
