-- ===== src/Hook/Answers.antt =====
-- What the proxy is handed back: the request with a concrete model in it, or nothing.
use lite_router.Prelude.{◌≡◌, refl, ap, ◌∙◌, true, String, Option, some, inl, inr}
use lite_router.Outcome.{Exn, Outcome, ok, raise, Outcome-cases}
use lite_router.Exec.{Exec, continue, ◌>>=◌, pure}
use lite_router.Json.{Fields, str, get, put, is_str, get-put_self}
use lite_router.Policies.{PoliciesConfig}
use lite_router.SessionKey.{Headers, extract_headers}
use lite_router.Client.{Client, detect_client}
use lite_router.Store.{Redis, Codec}
use lite_router.Hook.{Context, World}
use lite_router.Hook.Passes.{not_if, lift-ok, route_raised}
use lite_router.Hook.Route.{
  routable, route_enabled, route_virtual, route_model, route, handled, fail_open,
  async_pre_call_hook,
}
use lite_router.Hook.Gives.{Answers}
use lite_router.Hook.Decided.{Decided, failed_open, route_enabled-Answers}

module _ (redis : Redis) (codec : Codec redis) (c : Context) (p : PoliciesConfig) where
  -- The answer to a request for the virtual model.
  abbrev pub Routed : Fields → String → World redis → Option Fields → Type 0
  Routed body call_type w answer =
      (b : Fields) × (m : String) × (answer ≡ some b)
      × (get "model" b ≡ str m)
      × Decided redis codec c p body call_type w m

  fail_open-Routed :
      (body : Fields) (call_type : String) (w : World redis) (e : Exn)
      → c.policies ≡ ok p
      → is_str c.config.router_virtual_model (get "model" body) ≡ true
      → (route redis codec c body call_type w).0 ≡ raise e
      → Routed body call_type w (fail_open redis codec c body c.policies)
  fail_open-Routed body call_type w e loaded virtual raised = (
    put "model" (str p.default_model) body,
    p.default_model,
    rw (loaded, virtual) refl,
    get-put_self "model" (str p.default_model) body,
    failed_open e raised refl,
  )

  handled-Routed :
      (body : Fields) (call_type : String) (w : World redis) (x : Outcome Fields × World redis)
      → c.policies ≡ ok p
      → is_str c.config.router_virtual_model (get "model" body) ≡ true
      → route redis codec c body call_type w ≡ continue (λ routed. pure (some routed)) x
      → Answers (Decided redis codec c p body call_type w) x.0
      → Routed body call_type w
          (handled redis codec c body (continue (λ routed. pure (some routed)) x)).0
  unfolding pure
  handled-Routed body call_type w (raise e, w') loaded virtual run h =
      fail_open-Routed body call_type w e loaded virtual (ap (λ y. y.0) run)
  handled-Routed body call_type w (ok b, w') loaded virtual run (m, allowed, at) =
      (b, m, refl, at, allowed)

  route_virtual-enabled :
      (body : Fields) (headers : Headers) (client : Client) (w : World redis)
      → c.policies ≡ ok p
      → route_virtual redis codec c body headers client w
        ≡ continue
            (λ routed. pure (some routed))
            (route_enabled redis codec c p body headers client w)
  unfolding ◌>>=◌
  route_virtual-enabled body headers client w loaded =
      ap
        (λ o.
          continue
            (λ q.
              route_enabled redis codec c q body headers client >>= λ routed. pure (some routed))
            (o, w))
        loaded

  route_virtual_of :
      (body : Fields) (call_type : String) (w : World redis) (headers : Headers)
      → extract_headers c.py body ≡ ok headers
      → routable call_type ≡ true
      → is_str c.config.router_virtual_model (get "model" body) ≡ true
      → c.config.router_enabled ≡ true
      → route redis codec c body call_type w
        ≡ route_virtual redis codec c body headers (detect_client c.py headers) w
  unfolding route
  route_virtual_of body call_type w headers e able virtual enabled =
      ap (λ (m : Exec (World redis) (Option Fields)). m w) (not_if (routable call_type) _ _ able)
      ∙ lift-ok (extract_headers c.py body)
          (λ headers. route_model redis codec c body headers (detect_client c.py headers)) w e
      ∙ ap (λ (m : Exec (World redis) (Option Fields)). m w)
          (not_if (is_str c.config.router_virtual_model (get "model" body)) _ _ virtual
            ∙ not_if c.config.router_enabled _ _ enabled)

  -- Every request for the virtual model is answered with a model that the router has chosen. Where
  -- the router is enabled, the call type is routable and policies have been loaded, the hook returns
  -- a body, and its "model" is, whatever the body holds and whatever fails of Redis and of the
  -- classifier: the cheapest tier's, where the system prompt is a side channel's; where it is not, the
  -- model that `decide` returns on the record that is read under the request's derived key, or in
  -- shadow mode, once `decide` has returned one, the default model; and the default model where
  -- `_route` raises.
  pub hook-Routed :
      (body : Fields) (call_type : String) (w : World redis)
      → c.policies ≡ ok p
      → routable call_type ≡ true
      → is_str c.config.router_virtual_model (get "model" body) ≡ true
      → c.config.router_enabled ≡ true
      → (b : Fields) × (m : String) × ((async_pre_call_hook redis codec c body call_type w).0
          ≡ some b)
        × (get "model" b ≡ str m)
        × Decided redis codec c p body call_type w m
  unfolding async_pre_call_hook
  hook-Routed body call_type w loaded able virtual enabled =
      elim (Outcome-cases (extract_headers c.py body)) [
        | inl (headers, e) ↦
            let client = detect_client c.py headers in
            let run =
              route_virtual_of body call_type w headers e able virtual enabled
              ∙ route_virtual-enabled body headers client w loaded in
            rw run (
              handled-Routed body call_type w (route_enabled redis codec c p body headers client w)
                loaded virtual run
                (route_enabled-Answers redis codec c p body call_type w headers e))
        | inr (x, e) ↦
            let run = route_raised redis codec c body call_type w x e able in
            rw run (fail_open-Routed body call_type w x loaded virtual (ap (λ y. y.0) run))
      ]
