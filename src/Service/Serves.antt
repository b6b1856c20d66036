-- ===== src/Service/Serves.antt =====
-- The service in operation: whatever becomes of the policies file, `/classify` answers from validated
-- policies.
use lite_router.Prelude.{
  ◌≡◌, refl, Bool, true, none, some, String, List, any, [], ◌∷◌, Bool-cases, inl, inr, ◌⊎◌,
}
use lite_router.Outcome.{Outcome, ok, raise, Outcome-cases}
use lite_router.Exec.{◌>>=◌, Preserves, preserves_rules}
use lite_router.Runtime.{Float}
use lite_router.Json.{Fields, get}
use lite_router.Policies.{PoliciesConfig, IsValid}
use lite_router.Config.{Clock, Disk, load_policies}
use lite_router.Config.Served.{load-IsValid}
use lite_router.Service.Backend.{Settings, Library}
use lite_router.Service.App.{ClassifyRequest, ClassifyResponse, within_limits, Gateway, ask}
use lite_router.Service.Answers.{Backed, Unsliceable, Overflows, classify_with_cases}
use lite_router.Service.Starts.{answers, start_lem}
use lite_router.Service.Life.{
  Answer, crashed, answered, healthy, State, load, current, watch_at, watch, reload_policies,
  healthz, post_classify, Input, watches, reloads, react, run, start, new_state,
}

module _ (clock : Clock) where
  -- Validated policies are held, and the service counts as ready as it did.
  pub record Serving (ready : Bool) (s : State clock) : Type 0 where
    pub policies : PoliciesConfig
    pub held : s.policies ≡ some policies
    pub valid : IsValid policies
    pub same_ready : s.ready ≡ ready

  -- `_load_policies` keeps what is held, or replaces it by what it has validated.
  load-Serving :
      (ready : Bool) (disk : Disk clock) (s : State clock)
      → Serving ready s
      → Serving ready (load clock disk s).1
  unfolding load ◌>>=◌
  load-Serving ready disk s v = elim (Outcome-cases (load_policies disk.parsed)) [
    | inr (e, bad) ↦ rw bad v
    | inl (p, read) ↦ elim (Outcome-cases disk.stat) [
      | inl (mtime, stat) ↦
          rw (read, stat)
            (record {
              policies = p;
              held = refl;
              valid = load-IsValid disk.parsed p read;
              same_ready = v.same_ready;
            })
      | inr (e, bad) ↦
          rw (read, bad)
            (record {
              policies = p;
              held = refl;
              valid = load-IsValid disk.parsed p read;
              same_ready = v.same_ready;
            })
    ]
  ]

  watch_at-Serving :
      (ready : Bool) (disk : Disk clock) (stat : Outcome clock.Time) (s : State clock)
      → Serving ready s
      → Serving ready (watch_at clock disk stat s)
  watch_at-Serving ready disk (raise e) s v = v
  watch_at-Serving ready disk (ok mtime) s v =
      elim (Bool-cases (clock.same mtime s.policies_mtime)) [
        | inl e ↦ rw e v
        | inr e ↦ rw e (load-Serving ready disk s v)
      ]

  load-Preserves : (ready : Bool) (disk : Disk clock) → Preserves (Serving ready) (load clock disk)
  load-Preserves ready disk = record { after = load-Serving ready disk }

  current-Preserves : (ready : Bool) → Preserves (Serving ready) (current clock)
  unfolding current
  current-Preserves ready = record { after = λ s v. v }

  reload-Preserves :
      (ready : Bool) (disk : Disk clock) → Preserves (Serving ready) (reload_policies clock disk)
  unfolding reload_policies
  reload-Preserves ready disk = search (preserves_rules, load-Preserves, current-Preserves)

  react-Serving :
      (ready : Bool) (s : State clock) (i : Input clock)
      → Serving ready s
      → Serving ready (react clock s i)
  unfolding watch
  react-Serving ready s (watches stat disk) v = watch_at-Serving ready disk stat s v
  react-Serving ready s (reloads disk) v = (reload-Preserves ready disk).after s v

  run-Serving :
      (ready : Bool) (inputs : List (Input clock)) (s : State clock)
      → Serving ready s
      → Serving ready (run clock inputs s)
  unfolding run
  run-Serving ready [] s v = v
  run-Serving ready (i ∷ rest) s v =
      run-Serving ready rest (react clock s i) (react-Serving ready s i v)

module _ (clock : Clock) (lib : Library) (settings : Settings) (warmup_timeout_s : Float) where
  -- What `/classify` does in a state: a response that the policies stand behind, or 500, which takes
  -- an excerpt that cannot be sliced, or a confidence beyond the floats.
  abbrev pub Answers : PoliciesConfig → Gateway → ClassifyRequest → Answer → Type 0
  Answers p gateway req answer =
      ((r : ClassifyResponse) × (answer ≡ answered r) × Backed lib settings p r)
      ⊎ ((answer ≡ crashed)
          × (Unsliceable lib settings (get "claude_md_excerpt" req.repo_hints)
              ⊎ ((user : String) × (fs : Fields) × (ask lib settings p gateway user none ≡ some fs)
                  × Overflows lib settings fs)))

  post_classify-Answers :
      (gateway : Gateway) (req : ClassifyRequest) (s : State clock) (ready : Bool)
      (v : Serving clock ready s)
      → within_limits req ≡ true
      → Answers v.policies gateway req
          (post_classify clock lib settings warmup_timeout_s gateway req s)
  unfolding post_classify
  post_classify-Answers gateway req s ready v limits =
      elim (classify_with_cases lib settings v.policies gateway req v.valid) [
        | inl (r, e, b) ↦ rw (limits, v.held, e) (inl (r, refl, b))
        | inr (inl (e, bad)) ↦ rw (limits, v.held, e) (inr (refl, inl bad))
        | inr (inr (user, fs, asked, e, o)) ↦
            rw (limits, v.held, e) (inr (refl, inr (user, fs, asked, o)))
      ]

  -- The service in operation. Started on a valid policies file and with an endpoint that answers one
  -- of the warm-ups, after any turns of the watch and any reloads, with whatever the file is then, it
  -- reports itself healthy, with the version of the validated policies that it holds; and a request
  -- to `/classify` within the limits is answered with a tier of those policies, its model and a
  -- confidence between 0 and 1, or with 500, which takes an excerpt that is neither a text nor a
  -- list, or a confidence that is an integer beyond the floats.
  pub serves :
      (now : clock.Time) (disk : Disk clock) (gateways : List Gateway) (p : PoliciesConfig)
      (mtime : clock.Time) (inputs : List (Input clock)) (gateway : Gateway) (req : ClassifyRequest)
      → load_policies disk.parsed ≡ ok p
      → disk.stat ≡ ok mtime
      → any (answers clock lib settings warmup_timeout_s p) gateways ≡ true
      → within_limits req ≡ true
      → let begun =
          (start clock lib settings warmup_timeout_s now disk gateways (new_state clock)).1 in
        let s = run clock inputs begun in
        (q : PoliciesConfig) × (s.policies ≡ some q)
        × IsValid q
        × (healthz clock settings.classifier_model s
            ≡ ok (healthy settings.classifier_model q.version))
        × Answers q gateway req (post_classify clock lib settings warmup_timeout_s gateway req s)
  serves now disk gateways p mtime inputs gateway req read stat up limits =
      let begun : State clock = record {
        policies = some p;
        policies_mtime = mtime;
        ready = true;
        started_at = now;
      } in
      let starts =
        start_lem clock lib settings warmup_timeout_s now disk gateways p mtime read stat in
      let v = run-Serving clock true inputs begun (record {
        policies = p;
        held = refl;
        valid = load-IsValid disk.parsed p read;
        same_ready = refl;
      }) in
      rw (starts.0, up)
        (
          v.policies,
          v.held,
          v.valid,
          rw (v.same_ready, v.held) refl,
          post_classify-Answers gateway req (run clock inputs begun) true v limits,
        )
