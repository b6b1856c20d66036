-- ===== src/Hook/Decided.antt =====
-- How `_route` of hook.py comes to the model of a request for the virtual one.
use lite_router.Prelude.{◌≡◌, refl, Bool, true, false, String, Option, if◌then◌else◌}
use lite_router.Outcome.{Exn, Outcome, ok, raise}
use lite_router.Exec.{continue, ◌>>=◌, pure, lift}
use lite_router.Json.{Fields, str, get, put}
use lite_router.Policies.{Tier, PoliciesConfig, is_side_channel, cheapest_tier}
use lite_router.StateMachine.{SessionRecord}
use lite_router.SessionKey.{Headers, KeySource, extract_headers, system_text, derive_session_key}
use lite_router.Client.{Client, detect_client}
use lite_router.Store.{Redis, Codec}
use lite_router.Hook.{Context, World, Call, read_session, or_list, alias_of}
use lite_router.Hook.Route.{
  decide, call_of, finish, route_session, route_main, route_by, route_enabled, route, leave_stash,
  stash_of,
}
use lite_router.Hook.Gives.{Answers, Gives, Gives-bind, Gives-lift, Gives-put}

module _ (redis : Redis) (codec : Codec redis) (c : Context) (p : PoliciesConfig) where
  -- `decided` of `_route` for a request in the state `w` that is no side channel's: what `decide`
  -- returns, by the record that the read of the derived key finds.
  pub record Chosen (body : Fields) (headers : Headers) (w : World redis) (m : String)
      : Type 0 where
    pub system : String
    pub said : system_text body ≡ ok system
    pub no_side_channel : is_side_channel c.py p system ≡ false
    pub key : String
    pub source : KeySource
    pub found : Option SessionRecord
    pub derived :
        derive_session_key c.py body headers (alias_of c) c.config.router_session_headers
        ≡ ok (key, source)
    pub read :
        (read_session redis codec c p (call_of c headers (detect_client c.py headers) key).key w).0
        ≡ ok found
    pub decided :
        (decide redis codec c p body
          (call_of c headers (detect_client c.py headers) key)
          (or_list (get "messages" body))
          found
          (read_session redis codec c p
            (call_of c headers (detect_client c.py headers) key).key
            w).1).0
        ≡ ok m

  -- The model that a request for the virtual one is given: the cheapest tier's for a side channel;
  -- else the decided one, or the default in shadow mode; and the default where `_route` raises.
  pub data Decided (body : Fields) (call_type : String) (w : World redis) (m : String)
      : Type 0 where
    routed :
        (headers : Headers)
        → extract_headers c.py body ≡ ok headers
        → c.config.shadow_mode ≡ false
        → Chosen body headers w m
        → Decided body call_type w m
    in_shadow :
        (headers : Headers) (decided : String)
        → extract_headers c.py body ≡ ok headers
        → c.config.shadow_mode ≡ true
        → Chosen body headers w decided
        → m ≡ p.default_model
        → Decided body call_type w m
    side_channel :
        (s : String) (t : Tier)
        → system_text body ≡ ok s
        → is_side_channel c.py p s ≡ true
        → cheapest_tier p ≡ ok t
        → m ≡ t.model
        → Decided body call_type w m
    failed_open :
        (e : Exn)
        → (route redis codec c body call_type w).0 ≡ raise e
        → m ≡ p.default_model
        → Decided body call_type w m

  Decided-if :
      (body : Fields) (call_type : String) (w : World redis) (m : String) (headers : Headers)
      (b : Bool)
      → c.config.shadow_mode ≡ b
      → extract_headers c.py body ≡ ok headers
      → Chosen body headers w m
      → Decided body call_type w (if b then p.default_model else m)
  Decided-if body call_type w m headers true shadow e chosen =
      in_shadow headers m e shadow chosen refl
  Decided-if body call_type w m headers false live e chosen = routed headers e live chosen

  module _ (body : Fields) (call_type : String) (w : World redis) (headers : Headers)
      (given : extract_headers c.py body ≡ ok headers) where
    abbrev detected : Client
    detected = detect_client c.py headers

    finish-Gives :
        (call : Call) (source : KeySource) (decided : String)
        → Chosen body headers w decided
        → Gives (Decided body call_type w) (finish redis codec c p body call source decided)
    finish-Gives call source decided chosen =
        Gives-bind
          (lift
            (leave_stash (stash_of c call.key source decided) body (get "litellm_metadata" body)))
          λ stashed.
            Gives-put (if c.config.shadow_mode then p.default_model else decided) stashed
              (Decided-if body call_type w decided headers c.config.shadow_mode refl given chosen)

    -- the rest of `_route`, by what `decide` and the read before it gave
    finished-Answers :
        (call : Call) (source : KeySource) (x : Outcome String × World redis)
        → ((m : String) → x.0 ≡ ok m → Chosen body headers w m)
        → Answers
            (Decided body call_type w)
            (continue (finish redis codec c p body call source) x).0
    finished-Answers call source (raise e, w') chosen = tt
    finished-Answers call source (ok m, w') chosen =
        (finish-Gives call source m (chosen m refl)).at w'

    found-Answers :
        (call : Call) (source : KeySource) (x : Outcome (Option SessionRecord) × World redis)
        → ((found : Option SessionRecord) (m : String)
            → x.0 ≡ ok found
            → (decide redis codec c p body call (or_list (get "messages" body)) found x.1).0 ≡ ok m
            → Chosen body headers w m)
        → Answers
            (Decided body call_type w)
            (continue
              (λ found.
                decide redis codec c p body call (or_list (get "messages" body)) found
                >>= finish redis codec c p body call source)
              x).0
    unfolding ◌>>=◌
    found-Answers call source (raise e, w') chosen = tt
    found-Answers call source (ok found, w') chosen =
        finished-Answers call source
          (decide redis codec c p body call (or_list (get "messages" body)) found w')
          (λ m e. chosen found m refl e)

    key-Answers :
        (s : String) (derived : Outcome (String × KeySource))
        → system_text body ≡ ok s
        → is_side_channel c.py p s ≡ false
        → derive_session_key c.py body headers (alias_of c) c.config.router_session_headers
          ≡ derived
        → Answers
            (Decided body call_type w)
            ((lift derived >>= λ k.
                route_session redis codec c p body (call_of c headers detected k.0) k.1)
              w).0
    unfolding route_session ◌>>=◌
    key-Answers s (raise e) said main h = tt
    key-Answers s (ok (key, source)) said main h =
        let call = call_of c headers detected key in
        found-Answers call source (read_session redis codec c p call.key w) (λ found m read decided.
          record {
            system = s;
            said = said;
            no_side_channel = main;
            key = key;
            source = source;
            found = found;
            derived = h;
            read = read;
            decided = decided;
          })

    route_by-Answers :
        (side : Bool) (s : String)
        → system_text body ≡ ok s
        → is_side_channel c.py p s ≡ side
        → Answers
            (Decided body call_type w)
            (route_by redis codec c side p body headers detected w).0
    unfolding route_main
    route_by-Answers false s e f = key-Answers s _ e f refl
    route_by-Answers true s e f =
        (Gives-lift (cheapest_tier p) (λ tier. pure (put "model" (str tier.model) body))
            λ tier there. Gives-put tier.model body (side_channel s tier e f there refl)).at
          w

    system-Answers :
        (system : Outcome String)
        → system_text body ≡ system
        → Answers
            (Decided body call_type w)
            ((lift system >>= λ s.
                route_by redis codec c (is_side_channel c.py p s) p body headers detected)
              w).0
    unfolding ◌>>=◌
    system-Answers (raise e) h = tt
    system-Answers (ok s) h = route_by-Answers (is_side_channel c.py p s) s h refl

    pub route_enabled-Answers :
        Answers (Decided body call_type w) (route_enabled redis codec c p body headers detected w).0
    unfolding route_enabled
    route_enabled-Answers = system-Answers (system_text body) refl
