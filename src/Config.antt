-- ===== src/Config.antt =====
-- packages/session-router/src/session_router/config.py: `PoliciesHolder`, which loads the policies and
-- checks the file for changes, and `RateLimitedLogger`. The clocks and the file are parameters.
pub mod Served
use lite_router.Prelude.{
  ◌≡◌, refl, sym, ap, ◌∙◌, Bool, true, false, not, ◌||◌, String, Option, none, some, List, [], ◌∷◌,
  if◌then◌else◌, is_some, get_or, ◌==◌, Bool-cases, inl, inr, ◌⊎◌,
}
use lite_router.Prelude.Dict.{lookup, insert, lookup-insert}
use lite_router.Outcome.{Exn, Outcome, ok, raise, ◌>>=◌, Outcome-cases}
use lite_router.Policies.{PoliciesConfig, IsValid, validate}

-- Python's floats as times: `time.monotonic()` and `st_mtime`.
pub record Clock : Type 1 where
  pub Time : Type 0
  -- `0.0`
  pub zero : Time
  -- `a < b`
  pub before : Time → Time → Bool
  -- `a == b`
  pub same : Time → Time → Bool
  -- `t + _POLICIES_RECHECK_S`
  pub add_recheck : Time → Time
  -- `now - last >= self._interval`
  pub due : Time → Time → Bool

-- What a call of `get` meets outside: the time, the file's `st_mtime` or an exception, and the fields
-- that YAML and pydantic read from the file, or an exception.
pub record Disk (clock : Clock) : Type 0 where
  pub now : clock.Time
  pub stat : Outcome clock.Time
  pub parsed : Outcome PoliciesConfig

-- `load_policies`: `model_validate` runs the validator on what was read.
unfoldable pub load_policies : Outcome PoliciesConfig → Outcome PoliciesConfig
load_policies parsed = do p ← parsed; validate p

module _ (clock : Clock) where
  pub record PoliciesHolder : Type 0 where
    pub policies : Option PoliciesConfig
    pub mtime : clock.Time
    pub next_check : clock.Time

  abbrev pub new_holder : PoliciesHolder
  new_holder = record { policies = none; mtime = clock.zero; next_check = clock.zero }

  -- the handler: `raise` where nothing has been loaded, and the previous policies otherwise
  abbrev pub keep_previous :
      PoliciesHolder → Option PoliciesConfig → Exn → Outcome PoliciesConfig × PoliciesHolder
  keep_previous h none e = (raise e, h)
  keep_previous h (some p) e = (ok p, h)

  -- after `load_policies`
  abbrev pub loaded :
      PoliciesHolder → clock.Time → Outcome PoliciesConfig → Outcome PoliciesConfig × PoliciesHolder
  loaded h mtime (ok p) = (ok p, record h { policies = some p; mtime = mtime })
  loaded h mtime (raise e) = keep_previous h h.policies e

  -- `if self._policies is None or mtime != self._mtime`, with the `return` at the end
  abbrev pub reload :
      PoliciesHolder
      → clock.Time
      → Outcome PoliciesConfig
      → Option PoliciesConfig
      → Outcome PoliciesConfig × PoliciesHolder
  reload h mtime parsed none = loaded h mtime (load_policies parsed)
  reload h mtime parsed (some p) =
      if not (clock.same mtime h.mtime) then loaded h mtime (load_policies parsed) else (ok p, h)

  -- the body of the `try`, after `self._next_check` has been set
  abbrev pub check_file :
      PoliciesHolder
      → Outcome PoliciesConfig
      → Outcome clock.Time
      → Outcome PoliciesConfig × PoliciesHolder
  check_file h parsed (raise e) = keep_previous h h.policies e
  check_file h parsed (ok mtime) = reload h mtime parsed h.policies

  abbrev pub recheck : Disk clock → PoliciesHolder → Outcome PoliciesConfig × PoliciesHolder
  recheck disk h =
      check_file (record h { next_check = clock.add_recheck disk.now }) disk.parsed disk.stat

  abbrev pub get_from :
      Disk clock → PoliciesHolder → Option PoliciesConfig → Outcome PoliciesConfig × PoliciesHolder
  get_from disk h none = recheck disk h
  get_from disk h (some p) =
      if clock.before disk.now h.next_check then (ok p, h) else recheck disk h

  unfoldable pub get : Disk clock → PoliciesHolder → Outcome PoliciesConfig × PoliciesHolder
  unfolding load_policies
  get disk h = get_from disk h h.policies

  -- `RateLimitedLogger.warning`: whether the line is logged, and the times of the last lines
  unfoldable pub warning :
      String → clock.Time → List (String × clock.Time) → Bool × List (String × clock.Time)
  warning key now last =
      if clock.due now (get_or (lookup key last) clock.zero)
      then (true, insert key now last)
      else (false, last)
