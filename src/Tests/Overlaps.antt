-- ===== src/Tests/Overlaps.antt =====
-- Requests of one session that overlap: two pinned ones that both read the record before either has
-- updated it, and two first ones.
use lite_router.Prelude.{ℕ, ◌≤◌, ◌≡◌, refl, true, String, none, some, List, [], ◌∷◌, ◌⊎◌}
use lite_router.Json.{arr, nil, cons, field, end}
use lite_router.Policies.Example.{example, example-IsValid}
use lite_router.StateMachine.{SessionRecord}
use lite_router.Store.Memory.{memory, memory_codec, memory_laws, memory_json}
use lite_router.Store.Sessions.{session}
use lite_router.Client.{generic}
use lite_router.Hook.{World, Call}
use lite_router.Hook.Route.{call_of}
use lite_router.Hook.Serving.{Arrival}
use lite_router.Hook.Sessions.{ses}
use lite_router.Hook.Concurrent.{
  Request, updating, Task, Act, arrives, goes, cancels, overlap, start,
}
use lite_router.Hook.Concurrent.Owners.{owners}
use lite_router.Hook.Concurrent.Served.{Served}
use lite_router.Hook.Concurrent.Pins.{NotPinned, StandsAbove, overlap-StandsAbove}
use lite_router.Tests.Requests.{context, no_classifier, pinned, world, user, log}

abbrev call : Call
call = call_of context [] generic "s1"

abbrev saying : String → Arrival
saying text = record {
  body = field "messages" (arr (cons (user "fix it") (cons (user text) nil))) end;
  call_type = "completion";
  key_alias = some "alice";
  user_id = none;
  http = no_classifier;
  now = context.now;
}

abbrev retry : Request
retry = record { arrival = saying "still failing"; call = call }

abbrev thanks : Request
thanks = record { arrival = saying "thanks"; call = call }

-- both read, and the slower one updates last
abbrev crossed : List Act
crossed = arrives thanks ∷ arrives retry ∷ goes 1 ∷ goes 1 ∷ goes 0 ∷ goes 0 ∷ []

abbrev empty_world : World memory
empty_world = record {
  store = record { db = []; getex_supported = true };
  log = log;
  override_seen = [];
}

-- two first requests, of which the second to claim loses, and the next request after the pin
abbrev first_two : List Act
first_two = arrives thanks ∷ arrives retry ∷ goes 0 ∷ goes 1 ∷ goes 0 ∷ goes 1 ∷ []

abbrev rest_of_them : List Act
rest_of_them = goes 0 ∷ goes 0 ∷ arrives retry ∷ goes 0 ∷ goes 0 ∷ cancels 0 ∷ []

nothing-there :
    ses memory memory_codec context example memory_laws memory_json empty_world "s1" ≡ none
unfolding session
nothing-there = refl

overlap-StandsAbove_example :
    let s =
      overlap memory memory_codec context example first_two
        (start memory memory_codec context example empty_world) in
    let s' = overlap memory memory_codec context example rest_of_them s in
    (NotPinned (ses memory memory_codec context example memory_laws memory_json s.world "s1")
      × (owners example "s1" s.tasks ≤ 1))
    ⊎ ((i : ℕ) × (owners example "s1" s.tasks ≡ 0)
        × StandsAbove example i
            (ses memory memory_codec context example memory_laws memory_json s.world "s1")
        × StandsAbove example i
            (ses memory memory_codec context example memory_laws memory_json s'.world "s1"))
overlap-StandsAbove_example =
    overlap-StandsAbove memory memory_codec context example memory_laws memory_json example-IsValid
      "s1" first_two rest_of_them empty_world nothing-there

-- the retry has planned its escalation, and is about to write it
abbrev planned : List Act
planned = arrives retry ∷ goes 0 ∷ []

abbrev escalated : SessionRecord
escalated = record pinned {
  model = "claude-opus-4-8";
  policy_name = "high";
  escalations = some 1;
  scan =
      some
        (record { msg_count = some 2; consec_failures = some 0; escalated_at_msg_count = some 2 });
}

abbrev retrying : Task
retrying = record { request = retry; at = updating escalated }
