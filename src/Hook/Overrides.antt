-- ===== src/Hook/Overrides.antt =====
-- `_maybe_log_override` of hook.py: the memory of requests that name a concrete model.
use lite_router.Prelude.{
  ◌≤◌, ◌≡◌, refl, Bool, true, false, not, ◌&&◌, ◌||◌, String, List, [], ◌∷◌, ◌++◌, ltb, length,
  length-append, eq_refl, Bool-cases, inl, inr, ◌⊎◌, arith,
}
use lite_router.Prelude.Text
use lite_router.SessionKey.{Headers, session_id_from_headers}
use lite_router.Client.{Client}
use lite_router.DecisionLog.{emit}
use lite_router.Store.{Redis, Codec}
use lite_router.Hook.{Context, World, override_max}
use lite_router.Hook.Route.{seen, remember, log_override, override_event}

seen-append :
    (session model : String) (l : List (String × String))
    → seen session model (l ++ (session, model) ∷ []) ≡ true
seen-append session model [] = rw (eq_refl session, eq_refl model) refl
seen-append session model (k ∷ l) = ground (arith, seen-append session model l)

seen-remember :
    (session model : String) (l : List (String × String))
    → length l ≤ override_max
    → seen session model (remember session model l) ≡ true
unfolding remember
seen-remember session model [] h = rw (eq_refl session, eq_refl model) refl
seen-remember session model (k ∷ l) h =
    elim (Bool-cases (ltb override_max (length ((k ∷ l) ++ (session, model) ∷ [])))) [
      | inl full ↦ rw full (seen-append session model l)
      | inr room ↦ rw room (seen-append session model (k ∷ l))
    ]

length-remember :
    (session model : String) (l : List (String × String))
    → length l ≤ override_max
    → length (remember session model l) ≤ override_max
unfolding remember
length-remember session model [] h = omega arith
length-remember session model (k ∷ l) h =
    elim (Bool-cases (ltb override_max (length ((k ∷ l) ++ (session, model) ∷ [])))) [
      | inl full ↦ rw (full, length-append l ((session, model) ∷ [])) (omega (arith, h))
      | inr room ↦ rw room (ground (arith, room))
    ]

module _ (redis : Redis) (codec : Codec redis) (c : Context) where
  -- whether the request names no model, or no session that the headers give
  abbrev skipped : String → Headers → Bool
  skipped model headers =
      not (Text.nonempty model)
      || not (Text.nonempty (session_id_from_headers c.py headers c.config.router_session_headers))

  abbrev was_seen : String → Headers → World redis → Bool
  was_seen model headers w =
      seen (session_id_from_headers c.py headers c.config.router_session_headers) model
        w.override_seen

  abbrev logged : String → Headers → Client → World redis → World redis
  logged model headers client w =
      let session = session_id_from_headers c.py headers c.config.router_session_headers in
      record w {
        override_seen = remember session model w.override_seen;
        log = emit true (override_event c session model client) w.log;
      }

  log_override-skipped :
      (model : String) (headers : Headers) (client : Client) (w : World redis)
      → skipped model headers ≡ true
      → log_override redis codec c model headers client w ≡ w
  unfolding log_override
  log_override-skipped model headers client w h = rw h refl

  log_override-seen :
      (model : String) (headers : Headers) (client : Client) (w : World redis)
      → skipped model headers ≡ false
      → was_seen model headers w ≡ true
      → log_override redis codec c model headers client w ≡ w
  unfolding log_override
  log_override-seen model headers client w h k = rw (h, k) refl

  log_override-new :
      (model : String) (headers : Headers) (client : Client) (w : World redis)
      → skipped model headers ≡ false
      → was_seen model headers w ≡ false
      → log_override redis codec c model headers client w ≡ logged model headers client w
  unfolding log_override
  log_override-new model headers client w h k = rw (h, k) refl

  -- The request names a model in a session that the headers give, and the memory does not hold the
  -- two yet.
  abbrev pub is_new : String → Headers → World redis → Bool
  is_new model headers w =
      let session = session_id_from_headers c.py headers c.config.router_session_headers in
      Text.nonempty model && (Text.nonempty session && not (seen session model w.override_seen))

  is_new-cases :
      (model : String) (headers : Headers) (w : World redis)
      → ((is_new model headers w ≡ false)
          × ((skipped model headers ≡ true)
              ⊎ ((skipped model headers ≡ false) × (was_seen model headers w ≡ true))))
        ⊎ ((is_new model headers w ≡ true)
            × (skipped model headers ≡ false)
            × (was_seen model headers w ≡ false))
  is_new-cases model headers w = elim (Bool-cases (skipped model headers)) [
    | inl skip ↦ inl (ground (arith, skip), inl skip)
    | inr take ↦ elim (Bool-cases (was_seen model headers w)) [
      | inl again ↦ inl (ground (arith, take, again), inr (take, again))
      | inr new ↦ inr (ground (arith, take, new), take, new)
    ]
  ]

  -- Requests for concrete models are logged once each. A request whose model and session are not in
  -- the memory yet emits one event, and the two are in the memory afterwards; any other one, or one
  -- that names no model or no session in a header, changes nothing. The memory keeps its bound, and
  -- the same request a second time changes nothing.
  pub log_override-once :
      (model : String) (headers : Headers) (client : Client) (w : World redis)
      → length w.override_seen ≤ override_max
      → let w' = log_override redis codec c model headers client w in
        let session = session_id_from_headers c.py headers c.config.router_session_headers in
        (((is_new model headers w ≡ false) × (w' ≡ w))
          ⊎ ((is_new model headers w ≡ true)
              × (w'.log ≡ emit true (override_event c session model client) w.log)
              × (seen session model w'.override_seen ≡ true)))
        × (length w'.override_seen ≤ override_max)
        × (log_override redis codec c model headers client w' ≡ w')
  log_override-once model headers client w bound = elim (is_new-cases model headers w) [
    | inl (old, inl skip) ↦
        let e = log_override-skipped model headers client w skip in rw e (inl (old, refl), bound, e)
    | inl (old, inr (take, again)) ↦
        let e = log_override-seen model headers client w take again in
        rw e (inl (old, refl), bound, e)
    | inr (new, take, unseen) ↦
        let noted = seen-remember _ model w.override_seen bound in
        rw (log_override-new model headers client w take unseen) (
          inr (new, refl, noted),
          length-remember _ model w.override_seen bound,
          log_override-seen model headers client (logged model headers client w) take noted,
        )
  ]
