-- ===== src/Hook/NoDowngrade.antt =====
-- A whole request of hook.py, and what it does to the pinned sessions in the store.
use lite_router.Prelude.{
  ◌≡◌, refl, sym, ◌∙◌, Bool, true, false, not, String, Option, none, some, if◌then◌else◌,
  Bool-cases, inl, inr, ◌⊎◌, arith,
}
use lite_router.Outcome.{Outcome, ok, raise, Outcome-cases}
use lite_router.Exec.{Exec, ◌>>=◌, continue, pure, lift}
use lite_router.Json.{Fields, Value, get, null, bool, num, str, arr, obj, is_str}
use lite_router.Policies.{PoliciesConfig, is_side_channel, cheapest_tier}
use lite_router.SessionKey.{KeySource, Headers, extract_headers, system_text, derive_session_key}
use lite_router.Client.{Client, detect_client}
use lite_router.StateMachine.{SessionRecord}
use lite_router.Store.{Redis, Codec}
use lite_router.Store.Laws.{RedisLaws, CodecLaws}
use lite_router.Store.Reads.{get_and_refresh_reads}
use lite_router.Hook.{Context, World, Call, ttl, prefix, read_session, or_list, alias_of}
use lite_router.Hook.Sessions.{ses, SameSessions, read_session-Same}
use lite_router.Hook.Advances.{Advances, Advances-of_Same, Advances-from, decide-Advances}
use lite_router.Hook.Route.{
  call_of, routable, log_override, maybe_log_override, leave_alone, route_main, route_by,
  route_enabled, route_virtual, route_model, route, handled, async_pre_call_hook, decide, finish,
  route_session, leave_stash, stash_of,
}

same_policies : {a b : PoliciesConfig} {o : Outcome PoliciesConfig} → o ≡ ok a → o ≡ ok b → a ≡ b
same_policies h k = cc

same_found : {a b : Option SessionRecord} → ok a ≡ ok b → a ≡ b
same_found h = cc

module _ (redis : Redis) (codec : Codec redis) (c : Context) (p : PoliciesConfig)
    (laws : RedisLaws redis) (json : CodecLaws redis codec) where
  Advances-lift :
      {A B : Type 0} (r : Outcome A) (f : A → Exec (World redis) B) (w : World redis)
      → ((a : A) → r ≡ ok a → Advances redis codec c p laws json w (f a w).1)
      → Advances redis codec c p laws json w ((lift r >>= f) w).1
  unfolding ◌>>=◌
  Advances-lift (ok a) f w h = h a refl
  Advances-lift (raise e) f w h = Advances-of_Same redis codec c p laws json w w (λ j. refl)

  Advances-last_continue :
      {A B : Type 0} (f : A → Exec (World redis) B) (w : World redis) (x : Outcome A × World redis)
      → Advances redis codec c p laws json w x.1
      → ((a : A) (w₁ : World redis) → SameSessions redis codec c p laws json w₁ (f a w₁).1)
      → Advances redis codec c p laws json w (continue f x).1
  Advances-last_continue f w (raise e, w₁) h k = h
  Advances-last_continue f w (ok a, w₁) h k =
      λ j r at pinned. let (r', at', moved) = h j r at pinned in (r', k a w₁ j ∙ at', moved)

  Advances-first_continue :
      {A B : Type 0} (f : A → Exec (World redis) B) (w : World redis) (x : Outcome A × World redis)
      → SameSessions redis codec c p laws json w x.1
      → ((a : A) → x.0 ≡ ok a → Advances redis codec c p laws json x.1 (f a x.1).1)
      → Advances redis codec c p laws json w (continue f x).1
  Advances-first_continue f w (raise e, w₁) same k =
      Advances-of_Same redis codec c p laws json w w₁ same
  Advances-first_continue f w (ok a, w₁) same k =
      Advances-from redis codec c p laws json w w₁ (f a w₁).1 same (k a refl)

  finish-Same :
      (body : Fields) (call : Call) (source : KeySource) (decided : String) (w : World redis)
      → SameSessions redis codec c p laws json w
          (finish redis codec c p body call source decided w).1
  unfolding ◌>>=◌
  finish-Same body call source decided w =
      elim (Outcome-cases
        (leave_stash (stash_of c call.key source decided) body (get "litellm_metadata" body))) [
          | inl (b, e) ↦ rw e (λ j. refl)
          | inr (x, e) ↦ rw e (λ j. refl)
        ]

  read_found :
      (key : String) (w : World redis) (found : Option SessionRecord)
      → (read_session redis codec c p key w).0 ≡ ok found
      → (found ≡ none)
        ⊎ (found ≡ ses redis codec c p laws json (read_session redis codec c p key w).1 key)
  unfolding read_session
  read_found key w found h =
      elim (get_and_refresh_reads redis codec (ttl redis codec c p) (prefix redis codec c p) laws
        json key w.store) [
          | inl e ↦ inl (sym (same_found h) ∙ e)
          | inr e ↦
              inr (
                sym (same_found h)
                ∙ e
                ∙ sym (read_session-Same redis codec c p laws json key w key))
        ]

  route_session-Advances :
      (body : Fields) (call : Call) (source : KeySource) (w : World redis)
      → Advances redis codec c p laws json w (route_session redis codec c p body call source w).1
  unfolding route_session ◌>>=◌
  route_session-Advances body call source w =
      Advances-first_continue _ w (read_session redis codec c p call.key w)
        (read_session-Same redis codec c p laws json call.key w)
        λ found e.
          Advances-last_continue (finish redis codec c p body call source)
            (read_session redis codec c p call.key w).1
            (decide redis codec c p body call (or_list (get "messages" body)) found
              (read_session redis codec c p call.key w).1)
            (decide-Advances redis codec c p laws json body call (or_list (get "messages" body))
              found (read_session redis codec c p call.key w).1 (read_found call.key w found e))
            (finish-Same body call source)

  Advances-last :
      {A B : Type 0} (m : Exec (World redis) A) (f : A → Exec (World redis) B) (w : World redis)
      → Advances redis codec c p laws json w (m w).1
      → ((a : A) (w₁ : World redis) → SameSessions redis codec c p laws json w₁ (f a w₁).1)
      → Advances redis codec c p laws json w ((m >>= f) w).1
  unfolding ◌>>=◌
  Advances-last m f w h k = Advances-last_continue f w (m w) h k

  Advances-if :
      {A : Type 0} (b : Bool) (m n : Exec (World redis) A) (w : World redis)
      → Advances redis codec c p laws json w (m w).1
      → Advances redis codec c p laws json w (n w).1
      → Advances redis codec c p laws json w ((if b then m else n) w).1
  Advances-if true m n w h k = h
  Advances-if false m n w h k = k

  maybe_log_override-Same :
      (model : Value) (headers : Headers) (client : Client) (w : World redis)
      → SameSessions redis codec c p laws json w
          (maybe_log_override redis codec c model headers client w)
  unfolding log_override
  maybe_log_override-Same (str model) headers client w j = ground arith
  maybe_log_override-Same null headers client w j = refl
  maybe_log_override-Same (bool b) headers client w j = refl
  maybe_log_override-Same (num n) headers client w j = refl
  maybe_log_override-Same (arr xs) headers client w j = refl
  maybe_log_override-Same (obj fs) headers client w j = refl

  route_by-Advances :
      (side : Bool) (body : Fields) (headers : Headers) (client : Client) (w : World redis)
      → Advances redis codec c p laws json w (route_by redis codec c side p body headers client w).1
  unfolding route_main pure
  route_by-Advances true body headers client w =
      Advances-lift (cheapest_tier p) _ w
        λ tier _. Advances-of_Same redis codec c p laws json w w (λ j. refl)
  route_by-Advances false body headers client w =
      Advances-lift
        (derive_session_key c.py body headers (alias_of c) c.config.router_session_headers)
        (λ k. route_session redis codec c p body (call_of c headers client k.0) k.1) w
        λ k _. route_session-Advances body (call_of c headers client k.0) k.1 w

  route_virtual-Advances :
      (body : Fields) (headers : Headers) (client : Client) (w : World redis)
      → c.policies ≡ ok p
      → Advances redis codec c p laws json w (route_virtual redis codec c body headers client w).1
  unfolding route_enabled pure
  route_virtual-Advances body headers client w e =
      Advances-lift c.policies
        (λ q. route_enabled redis codec c q body headers client >>= λ routed. pure (some routed)) w
        λ q f. rw (same_policies f e) (
          Advances-last _ _ w
            (Advances-lift (system_text body) _ w
              λ system _. route_by-Advances (is_side_channel c.py p system) body headers client w)
            (λ a w₁ j. refl))

  route_model-Advances :
      (body : Fields) (headers : Headers) (client : Client) (w : World redis)
      → c.policies ≡ ok p
      → Advances redis codec c p laws json w (route_model redis codec c body headers client w).1
  unfolding pure
  route_model-Advances body headers client w e =
      Advances-if (not (is_str c.config.router_virtual_model (get "model" body)))
        (leave_alone redis codec c (get "model" body) headers client)
        (if not c.config.router_enabled
          then pure none
          else route_virtual redis codec c body headers client)
        w
        (Advances-of_Same redis codec c p laws json w
          (maybe_log_override redis codec c (get "model" body) headers client w)
          (maybe_log_override-Same (get "model" body) headers client w))
        (Advances-if (not c.config.router_enabled) (pure none)
          (route_virtual redis codec c body headers client) w
          (Advances-of_Same redis codec c p laws json w w (λ j. refl))
          (route_virtual-Advances body headers client w e))

  route-Advances :
      (body : Fields) (call_type : String) (w : World redis)
      → c.policies ≡ ok p
      → Advances redis codec c p laws json w (route redis codec c body call_type w).1
  unfolding route pure
  route-Advances body call_type w e = elim (Bool-cases (routable call_type)) [
    | inr no_ ↦ rw no_ (Advances-of_Same redis codec c p laws json w w (λ j. refl))
    | inl yes_ ↦ rw yes_ (
        Advances-lift (extract_headers c.py body) _ w
          λ headers _. route_model-Advances body headers (detect_client c.py headers) w e)
  ]

  handled-world :
      (body : Fields) (x : Outcome (Option Fields) × World redis)
      → (handled redis codec c body x).1 ≡ x.1
  handled-world body (ok a, w) = refl
  handled-world body (raise e, w) = refl

  -- Whatever a request does to the store, a pinned session stays, or moves as one request may move
  -- it.
  pub hook-Advances :
      (body : Fields) (call_type : String) (w : World redis)
      → c.policies ≡ ok p
      → Advances redis codec c p laws json w (async_pre_call_hook redis codec c body call_type w).1
  unfolding async_pre_call_hook
  hook-Advances body call_type w e =
      rw (handled-world body (route redis codec c body call_type w))
        (route-Advances body call_type w e)
