-- ===== src/Hook/Passes.antt =====
-- Requests that the router leaves as they are, and the first steps of every request.
use lite_router.Prelude.{
  ◌≡◌, refl, ap, ◌∙◌, Bool, true, false, not, String, Option, none, if◌then◌else◌, Bool-cases, inl,
  inr, arith,
}
use lite_router.Outcome.{Exn, Outcome, ok, raise, Outcome-cases}
use lite_router.Exec.{Exec, continue, ◌>>=◌, pure, lift}
use lite_router.Json.{Fields, Value, null, bool, num, str, arr, obj, get, is_str}
use lite_router.Policies.{PoliciesConfig}
use lite_router.SessionKey.{Headers, extract_headers}
use lite_router.Client.{Client, detect_client}
use lite_router.Store.{Redis, Codec}
use lite_router.Hook.{Context, World}
use lite_router.Hook.Route.{
  routable, log_override, maybe_log_override, leave_alone, route_model, route, fail_open,
  async_pre_call_hook,
}

pub not_if : {A : Type 0} (b : Bool) (x y : A) → b ≡ true → (if not b then x else y) ≡ y
not_if b x y h = rw h refl

not_if_false : {A : Type 0} (b : Bool) (x y : A) → b ≡ false → (if not b then x else y) ≡ x
not_if_false b x y h = rw h refl

module _ {S A B : Type 0} where
  pub lift-ok :
      (o : Outcome A) {a : A} (f : A → Exec S B) (s : S) → o ≡ ok a → (lift o >>= f) s ≡ f a s
  unfolding ◌>>=◌
  lift-ok o f s h = rw h refl

module _ (redis : Redis) (codec : Codec redis) (c : Context) where
  route_left_alone :
      (body : Fields) (call_type : String) (w : World redis) (headers : Headers)
      → extract_headers c.py body ≡ ok headers
      → routable call_type ≡ true
      → is_str c.config.router_virtual_model (get "model" body) ≡ false
      → route redis codec c body call_type w
        ≡ leave_alone redis codec c (get "model" body) headers (detect_client c.py headers) w
  unfolding route
  route_left_alone body call_type w headers e able concrete =
      ap (λ (m : Exec (World redis) (Option Fields)). m w) (not_if (routable call_type) _ _ able)
      ∙ lift-ok (extract_headers c.py body)
          (λ headers. route_model redis codec c body headers (detect_client c.py headers)) w e
      ∙ ap (λ (m : Exec (World redis) (Option Fields)). m w)
          (not_if_false (is_str c.config.router_virtual_model (get "model" body)) _ _ concrete)

  pub route_raised :
      (body : Fields) (call_type : String) (w : World redis) (x : Exn)
      → extract_headers c.py body ≡ raise x
      → routable call_type ≡ true
      → route redis codec c body call_type w ≡ (raise x, w)
  unfolding route ◌>>=◌
  route_raised body call_type w x e able =
      ap (λ (m : Exec (World redis) (Option Fields)). m w) (not_if (routable call_type) _ _ able)
      ∙ ap
          (λ (o : Outcome Headers).
            continue
              (λ headers. route_model redis codec c body headers (detect_client c.py headers))
              (o, w))
          e

  fail_open-none :
      (body : Fields) (o : Outcome PoliciesConfig)
      → is_str c.config.router_virtual_model (get "model" body) ≡ false
      → fail_open redis codec c body o ≡ none
  fail_open-none body (raise e) h = refl
  fail_open-none body (ok q) h = rw h refl

  route_not_able :
      (body : Fields) (call_type : String) (w : World redis)
      → routable call_type ≡ false
      → route redis codec c body call_type w ≡ (ok none, w)
  unfolding route pure
  route_not_able body call_type w not_able =
      ap (λ (m : Exec (World redis) (Option Fields)). m w)
        (not_if_false (routable call_type) _ _ not_able)

  maybe_log_override-store :
      (model : Value) (headers : Headers) (client : Client) (w : World redis)
      → (maybe_log_override redis codec c model headers client w).store ≡ w.store
  unfolding log_override
  maybe_log_override-store (str model) headers client w = ground arith
  maybe_log_override-store null headers client w = refl
  maybe_log_override-store (bool b) headers client w = refl
  maybe_log_override-store (num n) headers client w = refl
  maybe_log_override-store (arr xs) headers client w = refl
  maybe_log_override-store (obj fs) headers client w = refl

  -- A request that names another model than the virtual one is left as it is, whatever its body
  -- holds, and nothing is sent to Redis for it.
  pub hook-passes :
      (body : Fields) (call_type : String) (w : World redis)
      → is_str c.config.router_virtual_model (get "model" body) ≡ false
      → ((async_pre_call_hook redis codec c body call_type w).0 ≡ none)
        × ((async_pre_call_hook redis codec c body call_type w).1.store ≡ w.store)
  unfolding async_pre_call_hook
  hook-passes body call_type w concrete = elim (Bool-cases (routable call_type)) [
    | inr not_able ↦ rw (route_not_able body call_type w not_able) (refl, refl)
    | inl able ↦ elim (Outcome-cases (extract_headers c.py body)) [
      | inl (headers, e) ↦
          rw (route_left_alone body call_type w headers e able concrete) (
            refl,
            maybe_log_override-store (get "model" body) headers (detect_client c.py headers) w,
          )
      | inr (x, e) ↦
          rw (route_raised body call_type w x e able)
            (fail_open-none body c.policies concrete, refl)
    ]
  ]
