-- ===== src/Tests/Settings.antt =====
-- The policies holder and the rate limiter on a clock that counts seconds.
use lite_router.Prelude.{ℕ, ◌+◌, ◌≡◌, refl, true, some, [], ◌∷◌, ltb, leb, nat_eq}
use lite_router.Outcome.{ok, raise, value_error}
use lite_router.Policies.{validate}
use lite_router.Policies.Example.{example}
use lite_router.Config.{Clock, Disk, PoliciesHolder, new_holder, load_policies, get, warning}
use lite_router.Config.Served.{Served, after_calls, get-after_calls}

abbrev seconds : Clock
seconds = record {
  Time = ℕ;
  zero = 0;
  before = ltb;
  same = nat_eq;
  add_recheck = λ t. t + 60;
  due = λ now last. leb (last + 30) now;
}

abbrev readable : Disk seconds
readable = record { now = 5; stat = ok 7; parsed = ok example }

abbrev edited : Disk seconds
edited = record { now = 70; stat = ok 8; parsed = ok (record example { tiers = [] }) }

abbrev unreadable : Disk seconds
unreadable = record { now = 140; stat = raise value_error; parsed = raise value_error }

get-after_calls_example :
    let h = after_calls seconds (readable ∷ edited ∷ []) (new_holder seconds) in
    Served seconds h.policies (get seconds unreadable h)
get-after_calls_example = get-after_calls seconds (readable ∷ edited ∷ []) unreadable

abbrev filled : PoliciesHolder seconds
filled = record { policies = some example; mtime = 7; next_check = 65 }

first-get : get seconds readable (new_holder seconds) ≡ (ok example, filled)
unfolding get load_policies validate
first-get = refl

-- an edit that the validator refuses leaves the previous policies in place
edited-refused : (get seconds edited filled).0 ≡ ok example
unfolding get load_policies validate
edited-refused = refl

abbrev soon : Disk seconds
soon = record { now = 10; stat = raise value_error; parsed = raise value_error }

first-logged : (warning seconds "redis_get" 40 []).0 ≡ true
unfolding warning
first-logged = refl
