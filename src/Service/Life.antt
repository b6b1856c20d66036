-- ===== src/Service/Life.antt =====
-- packages/classifier-svc/src/classifier_svc/app.py: the state of the service, its start-up with the
-- retries of the warm-up, the watch on the policies file, and the endpoints.
use lite_router.Prelude.{
  ℕ, ◌*◌, min, Bool, true, false, not, Option, none, some, String, List, [], ◌∷◌, if◌then◌else◌,
}
use lite_router.Outcome.{Outcome, ok, raise, attribute_error, runtime_error}
use lite_router.Exec.{Exec, lift, modify, pure, ◌>>=◌, ◌>>◌}
use lite_router.Runtime.{Float}
use lite_router.Json.{Fields, end}
use lite_router.Policies.{PoliciesConfig, tier_names}
use lite_router.Config.{Clock, Disk, load_policies}
use lite_router.Service.Prompt.{user_prompt}
use lite_router.Service.Backend.{Settings, Library}
use lite_router.Service.App.{
  ClassifyRequest, ClassifyResponse, within_limits, Gateway, ask, classify_with,
}

-- What a client of `/classify` gets: 422 where the fields exceed their limits, 500 for an
-- exception, or 200.
pub data Answer : Type 0 where
  rejected : Answer
  crashed : Answer
  answered : ClassifyResponse → Answer

abbrev pub answer_of : Outcome ClassifyResponse → Answer
answer_of (ok r) = answered r
answer_of (raise e) = crashed

-- The body of `/healthz`, 503 in the first case; `uptime_s` is left out.
pub data Health : Type 0 where
  warming_up : Health
  -- the model and the version of the policies
  healthy : String → ℕ → Health

module _ (clock : Clock) where
  -- `policies` is `none` until they have been loaded.
  pub record State : Type 0 where
    pub policies : Option PoliciesConfig
    pub policies_mtime : clock.Time
    pub ready : Bool
    pub started_at : clock.Time

  abbrev pub new_state : State
  new_state = record {
    policies = none;
    policies_mtime = clock.zero;
    ready = false;
    started_at = clock.zero;
  }

  -- an attribute that has not been set
  abbrev pub set_policies : Option PoliciesConfig → Outcome PoliciesConfig
  set_policies none = raise attribute_error
  set_policies (some p) = ok p

  -- `_load_policies` reads the file, and then asks for its time
  unfoldable pub load : Disk clock → Exec State (Unit {0})
  load disk = do
    p ← lift (load_policies disk.parsed)
    modify (λ s. record s { policies = some p })
    mtime ← lift disk.stat
    modify (λ s. record s { policies_mtime = mtime })

  -- a turn of `_watch_policies`: the time of the file, or the exception of `stat`
  abbrev pub watch_at : Disk clock → Outcome clock.Time → State → State
  watch_at disk (raise e) s = s
  watch_at disk (ok mtime) s =
      if not (clock.same mtime s.policies_mtime) then (load disk s).1 else s

  unfoldable pub watch : Outcome clock.Time → Disk clock → State → State
  unfolding load
  watch stat disk s = watch_at disk stat s

  -- `state.policies`
  unfoldable pub current : Exec State PoliciesConfig
  current s = (set_policies s.policies, s)

  -- `/reload`: the names of the tiers
  unfoldable pub reload_policies : Disk clock → Exec State (List String)
  reload_policies disk = do load disk; p ← current; pure (tier_names p)

  -- `/healthz`, with the model of the settings
  abbrev pub healthz : String → State → Outcome Health
  healthz model s = if not s.ready then ok warming_up else elim (set_policies s.policies) [
    | raise e ↦ raise e
    | ok p ↦ ok (healthy model p.version)
  ]

  module _ (lib : Library) (settings : Settings) (warmup_timeout_s : Float) where
    -- `if result is None: raise RuntimeError`
    abbrev pub warmed : Option Fields → Outcome (Unit {0})
    warmed none = raise runtime_error
    warmed (some result) = ok tt

    -- `_warmup`
    unfoldable pub warmup : Gateway → Exec State (Unit {0})
    unfolding current
    warmup gateway = do
      p ← current
      user ← lift (user_prompt lib.show "warmup: explain this regex" "" end)
      lift (warmed (ask lib settings p gateway user (some warmup_timeout_s)))

    -- after an attempt: `break` and `ready`, or the delay and the next attempts
    abbrev pub after_attempt :
        ℕ → (State → List ℕ × State) → Outcome (Unit {0}) × State → List ℕ × State
    after_attempt delay retry (ok _, s) = ([], record s { ready = true })
    after_attempt delay retry (raise e, s) = let (delays, last) = retry s in (delay ∷ delays, last)

    -- The loop of `lifespan`, with what the endpoint of the model is at each attempt: the delays that
    -- were slept, and the state. It is over where the state is ready; otherwise the attempts given
    -- have all failed, and the loop goes on. `delay` is `retry_delay`, in whole seconds.
    unfoldable pub warm_up : List Gateway → ℕ → State → List ℕ × State
    warm_up [] delay s = ([], s)
    warm_up (gateway ∷ later) delay s =
        after_attempt delay (warm_up later (min (delay * 2) 30)) (warmup gateway s)

    -- `lifespan` up to its `yield`: the delays, or the exception of the first `_load_policies`
    unfoldable pub start : clock.Time → Disk clock → List Gateway → Exec State (List ℕ)
    unfolding load warm_up warmup
    start now disk gateways = do
      modify (λ s. record s { started_at = now })
      load disk
      λ s. let (delays, s') = warm_up gateways 2 s in (ok delays, s')

    -- `/classify`
    unfoldable pub post_classify : Gateway → ClassifyRequest → State → Answer
    unfolding classify_with
    post_classify gateway req s =
        if within_limits req
        then answer_of (elim (set_policies s.policies) [
          | raise e ↦ raise e
          | ok p ↦ classify_with lib settings p gateway req
        ])
        else rejected

  -- What happens to the state once the service is up: a turn of the watch, or `/reload`. The other
  -- endpoints only read it.
  pub data Input : Type 0 where
    watches : Outcome clock.Time → Disk clock → Input
    reloads : Disk clock → Input

  abbrev pub react : State → Input → State
  react s (watches stat disk) = watch stat disk s
  react s (reloads disk) = (reload_policies disk s).1

  unfoldable pub run : List Input → State → State
  unfolding watch reload_policies
  run [] s = s
  run (i ∷ rest) s = run rest (react s i)
