-- ===== src/Service/Starts.antt =====
-- The start-up of app.py: what `lifespan` has done when it yields, by the attempts of the warm-up.
use lite_router.Prelude.{
  ℕ, zero, suc, ◌*◌, ◌≤◌, ◌≡◌, refl, min, Bool, true, false, ◌||◌, Option, none, some, String, List,
  [], ◌∷◌, any, All, is_some, if◌then◌else◌, arith, Bool-cases, inl, inr,
}
use lite_router.Outcome.{Outcome, ok, raise, runtime_error}
use lite_router.Exec.{◌>>=◌}
use lite_router.Runtime.{Float}
use lite_router.Json.{Fields, end}
use lite_router.Policies.{PoliciesConfig}
use lite_router.Config.{Clock, Disk, load_policies}
use lite_router.Service.Prompt.{user_prompt}
use lite_router.Service.Backend.{Settings, Library}
use lite_router.Service.App.{Gateway, ask}
use lite_router.Service.Life.{State, new_state, load, warmed, warmup, warm_up, start}

-- the delays of so many failures, from a first one
abbrev pub delays_of : ℕ → ℕ → List ℕ
delays_of zero delay = []
delays_of (suc n) delay = delay ∷ delays_of n (min (delay * 2) 30)

-- how many attempts fail before the first that does not
abbrev pub failures : (Gateway → Bool) → List Gateway → ℕ
failures answers [] = 0
failures answers (g ∷ later) = if answers g then 0 else suc (failures answers later)

delays_of-bounded :
    (n delay : ℕ) → 2 ≤ delay → delay ≤ 30 → All (λ d. (2 ≤ d) × (d ≤ 30)) (delays_of n delay)
delays_of-bounded zero delay low high = tt
delays_of-bounded (suc n) delay low high =
    ((low, high), delays_of-bounded n (min (delay * 2) 30) (omega arith) (omega arith))

or_false : (b : Bool) → (b || false) ≡ b
or_false true = refl
or_false false = refl

module _ (clock : Clock) (lib : Library) (settings : Settings) (warmup_timeout_s : Float) where
  abbrev warmup_prompt : String
  warmup_prompt = "First user message:\nwarmup: explain this regex"

  -- the endpoint's answer to the warm-up holds an object
  unfoldable pub answers : PoliciesConfig → Gateway → Bool
  answers p g = is_some (ask lib settings p g warmup_prompt (some warmup_timeout_s))

  warmup_prompt_lem : user_prompt lib.show "warmup: explain this regex" "" end ≡ ok warmup_prompt
  unfolding user_prompt
  warmup_prompt_lem = refl

  -- the outcome of an attempt
  abbrev outcome_of : Bool → Outcome (Unit {0})
  outcome_of true = ok tt
  outcome_of false = raise runtime_error

  warmed_lem :
      (result : Option Fields)
      → warmed clock lib settings warmup_timeout_s result ≡ outcome_of (is_some result)
  warmed_lem none = refl
  warmed_lem (some fs) = refl

  warmup_lem :
      (p : PoliciesConfig) (g : Gateway) (s : State clock)
      → s.policies ≡ some p
      → warmup clock lib settings warmup_timeout_s g s ≡ (outcome_of (answers p g), s)
  unfolding warmup answers ◌>>=◌
  warmup_lem p g s held =
      rw
        (
          held,
          warmup_prompt_lem,
          ← warmed_lem (ask lib settings p g warmup_prompt (some warmup_timeout_s)),
        )
        refl

  abbrev ready_if : Bool → State clock → State clock
  ready_if b s = record s { ready = b || s.ready }

  -- The loop of the warm-up ends with the first attempt that is answered: it has slept after each
  -- failure before it, first `delay` seconds and then twice as long up to 30, and the state is ready.
  -- Where no attempt is answered it has slept after all of them, and the state is as it was.
  pub warm_up_lem :
      (gateways : List Gateway) (delay : ℕ) (p : PoliciesConfig) (s : State clock)
      → s.policies ≡ some p
      → warm_up clock lib settings warmup_timeout_s gateways delay s
        ≡ (delays_of (failures (answers p) gateways) delay, ready_if (any (answers p) gateways) s)
  unfolding warm_up
  warm_up_lem [] delay p s held = refl
  warm_up_lem (g ∷ later) delay p s held = elim (Bool-cases (answers p g)) [
    | inl e ↦ rw (warmup_lem p g s held, e) refl
    | inr e ↦ rw (warmup_lem p g s held, e, warm_up_lem later (min (delay * 2) 30) p s held) refl
  ]

  -- The service starts. With a policies file that can be read and is valid, `lifespan` is ready as
  -- soon as an attempt of the warm-up is answered, however many failed before; each failure has cost
  -- one delay, of at least 2 and at most 30 seconds, and no attempt is made after the answer.
  pub start_lem :
      (now : clock.Time) (disk : Disk clock) (gateways : List Gateway) (p : PoliciesConfig)
      (mtime : clock.Time)
      → load_policies disk.parsed ≡ ok p
      → disk.stat ≡ ok mtime
      → (start clock lib settings warmup_timeout_s now disk gateways (new_state clock) ≡ (
        ok (delays_of (failures (answers p) gateways) 2),
        record {
          policies = some p;
          policies_mtime = mtime;
          ready = any (answers p) gateways;
          started_at = now;
        },
      ))
        × All (λ d. (2 ≤ d) × (d ≤ 30)) (delays_of (failures (answers p) gateways) 2)
  unfolding start load ◌>>=◌
  start_lem now disk gateways p mtime read stat =
      let loaded : State clock = record {
        policies = some p;
        policies_mtime = mtime;
        ready = false;
        started_at = now;
      } in
      (
        rw (read, stat, warm_up_lem gateways 2 p loaded refl, or_false (any (answers p) gateways))
            refl,
        delays_of-bounded (failures (answers p) gateways) 2 (omega arith) (omega arith),
      )
