-- ===== src/Config/Served.antt =====
-- What the router is given as policies, whatever happens to the file, and how often a line is logged.
use lite_router.Prelude.{
  ◌≡◌, refl, sym, ap, ◌∙◌, true, String, Option, none, some, List, [], ◌∷◌, if◌then◌else◌, get_or,
  ◌==◌, Bool-cases, inl, inr, arith,
}
use lite_router.Prelude.Dict.{lookup, insert, lookup-insert}
use lite_router.Outcome.{Exn, Outcome, ok, raise, Outcome-cases}
use lite_router.Policies.{PoliciesConfig, IsValid, validate}
use lite_router.Config.{
  Clock, Disk, PoliciesHolder, new_holder, load_policies, keep_previous, loaded, reload, check_file,
  recheck, get_from, get, warning,
}

same_policies : {a b : PoliciesConfig} → ok a ≡ ok b → a ≡ b
same_policies h = cc

validate_returns : (q p : PoliciesConfig) → validate q ≡ ok p → q ≡ p
unfolding validate
validate_returns q p h = ground (arith, h)

pub load-IsValid :
    (parsed : Outcome PoliciesConfig) (p : PoliciesConfig) → load_policies parsed ≡ ok p → IsValid p
unfolding load_policies
load-IsValid (raise e) p h = cc
load-IsValid (ok q) p h = let e = validate_returns q p h in rw e at h

module _ (clock : Clock) where
  -- Only validated policies are held.
  abbrev Held : PoliciesHolder clock → Type 0
  Held h = (p : PoliciesConfig) → h.policies ≡ some p → IsValid p

  -- An answer with what is held afterwards: validated policies, which are held, or an exception,
  -- where nothing was held and nothing is.
  pub data Served (before : Option PoliciesConfig)
      (x : Outcome PoliciesConfig × PoliciesHolder clock) : Type 0 where
    served : (p : PoliciesConfig) → x.0 ≡ ok p → x.1.policies ≡ some p → IsValid p → Served before x
    refused : (e : Exn) → x.0 ≡ raise e → before ≡ none → x.1.policies ≡ none → Served before x

  keep_previous-Served :
      (h : PoliciesHolder clock) (o : Option PoliciesConfig) (e : Exn)
      → h.policies ≡ o
      → Held h
      → Served o (keep_previous clock h o e)
  keep_previous-Served h none e at held = refused e refl refl at
  keep_previous-Served h (some p) e at held = served p refl at (held p at)

  loaded-Served :
      (h : PoliciesHolder clock) (mtime : clock.Time) (parsed : Outcome PoliciesConfig)
      → Held h
      → Served h.policies (loaded clock h mtime (load_policies parsed))
  loaded-Served h mtime parsed held = elim (Outcome-cases (load_policies parsed)) [
    | inl (p, e) ↦ rw e (served p refl refl (load-IsValid parsed p e))
    | inr (x, e) ↦ rw e (keep_previous-Served h h.policies x refl held)
  ]

  reload-Served :
      (h : PoliciesHolder clock) (mtime : clock.Time) (parsed : Outcome PoliciesConfig)
      (o : Option PoliciesConfig)
      → h.policies ≡ o
      → Held h
      → Served h.policies (reload clock h mtime parsed o)
  reload-Served h mtime parsed none at held = loaded-Served h mtime parsed held
  reload-Served h mtime parsed (some p) at held = elim (Bool-cases (clock.same mtime h.mtime)) [
    | inl same ↦ rw same (served p refl at (held p at))
    | inr changed ↦ rw changed (loaded-Served h mtime parsed held)
  ]

  check_file-Served :
      (h : PoliciesHolder clock) (parsed : Outcome PoliciesConfig) (stat : Outcome clock.Time)
      → Held h
      → Served h.policies (check_file clock h parsed stat)
  check_file-Served h parsed (ok mtime) held = reload-Served h mtime parsed h.policies refl held
  check_file-Served h parsed (raise e) held = keep_previous-Served h h.policies e refl held

  recheck-Served :
      (disk : Disk clock) (h : PoliciesHolder clock)
      → Held h
      → Served h.policies (recheck clock disk h)
  recheck-Served disk h held =
      check_file-Served (record h { next_check = clock.add_recheck disk.now }) disk.parsed disk.stat
        held

  get_from-Served :
      (disk : Disk clock) (h : PoliciesHolder clock) (o : Option PoliciesConfig)
      → h.policies ≡ o
      → Held h
      → Served h.policies (get_from clock disk h o)
  get_from-Served disk h none at held = recheck-Served disk h held
  get_from-Served disk h (some p) at held = elim (Bool-cases (clock.before disk.now h.next_check)) [
    | inl early ↦ rw early (served p refl at (held p at))
    | inr late ↦ rw late (recheck-Served disk h held)
  ]

  get-Served :
      (disk : Disk clock) (h : PoliciesHolder clock) → Held h → Served h.policies (get clock disk h)
  unfolding get
  get-Served disk h held = get_from-Served disk h h.policies refl held

  Served-Held :
      (o : Option PoliciesConfig) (x : Outcome PoliciesConfig × PoliciesHolder clock)
      → Served o x
      → Held x.1
  Served-Held o x (served p e at valid) q here = rw (same_held (sym at ∙ here)) at valid
    where
      same_held : {a b : PoliciesConfig} → some a ≡ some b → a ≡ b
      same_held h = cc
  Served-Held o x (refused e f before at) q here = absurd (cc (at, here))

  -- The holder after calls of `get`, in order.
  unfoldable pub after_calls : List (Disk clock) → PoliciesHolder clock → PoliciesHolder clock
  after_calls [] h = h
  after_calls (disk ∷ rest) h = after_calls rest (get clock disk h).1

  after_calls-Held :
      (disks : List (Disk clock)) (h : PoliciesHolder clock) → Held h → Held (after_calls disks h)
  unfolding after_calls
  after_calls-Held [] h held = held
  after_calls-Held (disk ∷ rest) h held =
      after_calls-Held rest (get clock disk h).1
        (Served-Held h.policies (get clock disk h) (get-Served disk h held))

  -- From start-up on, whatever happens to the file and the clock, `get` returns validated policies
  -- and holds them, and raises only where no call before it has loaded any.
  pub get-after_calls :
      (disks : List (Disk clock)) (disk : Disk clock)
      → let h = after_calls disks (new_holder clock) in Served h.policies (get clock disk h)
  get-after_calls disks disk =
      get-Served disk (after_calls disks (new_holder clock))
        (after_calls-Held disks (new_holder clock) (λ p h. cc))

  get_from_early :
      (disk : Disk clock) (h : PoliciesHolder clock) (p : PoliciesConfig)
      (o : Option PoliciesConfig)
      → o ≡ some p
      → clock.before disk.now h.next_check ≡ true
      → get_from clock disk h o ≡ (ok p, h)
  get_from_early disk h p none at early = cc
  get_from_early disk h p (some q) at early = rw early (ap (λ a. (ok a, h)) (same_held at))
    where
      same_held : {a b : PoliciesConfig} → some a ≡ some b → a ≡ b
      same_held h = cc

  held_of_answer :
      (o : Option PoliciesConfig) (x : Outcome PoliciesConfig × PoliciesHolder clock)
      (p : PoliciesConfig)
      → Served o x
      → x.0 ≡ ok p
      → x.1.policies ≡ some p
  held_of_answer o x p (served q e at valid) got = at ∙ ap some (same_policies (sym e ∙ got))
  held_of_answer o x p (refused e f before at) got = absurd (cc (f, got))

  -- Where a call of `get` returned policies, and only validated ones were held before it, the next
  -- call before the time of the next check returns the same and changes nothing, whatever the file
  -- holds.
  get-get_early :
      (first later : Disk clock) (h h' : PoliciesHolder clock) (p : PoliciesConfig)
      → ((q : PoliciesConfig) → h.policies ≡ some q → IsValid q)
      → get clock first h ≡ (ok p, h')
      → clock.before later.now h'.next_check ≡ true
      → get clock later h' ≡ (ok p, h')
  unfolding get
  get-get_early first later h h' p held got early =
      get_from_early later h' p h'.policies
        (ap (λ x. x.1.policies) (sym got)
          ∙ held_of_answer h.policies (get clock first h) p (get-Served first h held)
              (ap (λ x. x.0) got))
        early

  warned :
      (key : String) (now : clock.Time) (last : List (String × clock.Time))
      → (warning clock key now last).0 ≡ clock.due now (get_or (lookup key last) clock.zero)
  unfolding warning
  warned key now last = elim (Bool-cases (clock.due now (get_or (lookup key last) clock.zero))) [
    | inl d ↦ rw d refl
    | inr d ↦ rw d refl
  ]

  noted :
      (key : String) (now : clock.Time) (last : List (String × clock.Time))
      → clock.due now (get_or (lookup key last) clock.zero) ≡ true
      → (warning clock key now last).1 ≡ insert key now last
  unfolding warning
  noted key now last d = rw d refl

  due_after :
      (key other : String) (now later : clock.Time) (last : List (String × clock.Time))
      → clock.due later (get_or (lookup other (insert key now last)) clock.zero)
        ≡ (if key == other then clock.due later now else (warning clock other later last).0)
  due_after key other now later last =
      rw (lookup-insert key other now last) (elim (Bool-cases (key == other)) [
        | inl e ↦ rw e refl
        | inr e ↦ rw e (sym (warned other later last))
      ])

  -- A line that was logged is not logged again under its key until it is due; the other keys are
  -- not affected.
  warning-warning :
      (key other : String) (now later : clock.Time) (last : List (String × clock.Time))
      → (warning clock key now last).0 ≡ true
      → (warning clock other later (warning clock key now last).1).0
        ≡ (if key == other then clock.due later now else (warning clock other later last).0)
  warning-warning key other now later last logged =
      rw (noted key now last (sym (warned key now last) ∙ logged))
        (warned other later (insert key now last) ∙ due_after key other now later last)
