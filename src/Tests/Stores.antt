-- ===== src/Tests/Stores.antt =====
-- The store's methods on a Redis in memory.
use lite_router.Prelude.{refl, ◌≡◌, ◌≤◌, ◌+◌, true, false, none, List, [], ◌∷◌}
use lite_router.Runtime.{zero_float, one_float}
use lite_router.StateMachine.{SessionRecord, pin_of}
use lite_router.Store.{Store}
use lite_router.Store.Memory.{memory, memory_codec, memory_laws, memory_json}
use lite_router.Store.Runs.{
  Op, reads, claims, updates, Follows, run, wins, expires, expiries, free, run-Follows,
  wins-le-expiries,
}
use lite_router.Connections.{
  RedisArgs, redis_args, base_url, http_args, service_args, Act, gets, begins, ends, acts,
  no_client, get_client, begin_close, end_close,
}
use lite_router.Connections.Accounts.{IsAccounted, Fresh, acts-Fresh}
use lite_router.Store.Sessions.{session}

abbrev pinned : SessionRecord
pinned =
    pin_of
      (record {
        policy_name = "high";
        model = "claude-opus-4-8";
        confidence = one_float;
        classified = true;
      })
      false "hash" "alice" 1 zero_float

abbrev store : Store memory
store = record { db = ("router:session:s1", pinned) ∷ []; getex_supported = true }

abbrev ops : List Op
ops =
    claims "s2" pinned
    ∷ reads "s2"
    ∷ claims "s2" pinned
    ∷ expires "s2"
    ∷ claims "s2" pinned
    ∷ updates "s1" pinned
    ∷ []

run-Follows_example :
    Follows ops
      (session memory memory_codec 60 "router:session:" memory_laws memory_json store.db)
      (session memory memory_codec 60 "router:session:" memory_laws memory_json
        (run memory memory_codec 60 "router:session:" ops store).db)
run-Follows_example =
    run-Follows memory memory_codec 60 "router:session:" memory_laws memory_json ops store

wins-le-expiries_example :
    wins memory memory_codec 60 "router:session:" "s2" ops store
    ≤ free memory memory_codec 60 "router:session:" memory_laws memory_json
        (session memory memory_codec 60 "router:session:" memory_laws memory_json store.db "s2")
      + expiries memory memory_codec 60 "router:session:" "s2" ops
wins-le-expiries_example =
    wins-le-expiries memory memory_codec 60 "router:session:" memory_laws memory_json "s2" ops store

-- a client, its `aclose` with a `_get_client` before it has returned, and a new client
abbrev local : RedisArgs
local = redis_args none "redis://127.0.0.1:6379/0" zero_float

abbrev uses : List (Act RedisArgs)
uses = gets local ∷ begins ∷ gets local ∷ ends true ∷ gets local ∷ []

acts-Fresh_example :
    let h = acts true uses no_client in
    IsAccounted h × Fresh (get_client local h).0 (get_client local h).1
unfolding get_client begin_close end_close
acts-Fresh_example = acts-Fresh true uses local (tt, (refl, (tt, (refl, (tt, tt)))))

-- two calls of `aclose` that overlap close the client twice
closed_twice :
    (acts true (gets local ∷ begins ∷ begins ∷ ends false ∷ ends false ∷ []) no_client).closed
    ≡ 0 ∷ 0 ∷ []
unfolding acts get_client begin_close end_close
closed_twice = refl

-- the trailing slash goes, and the connecting has 0.3 seconds of the 1.0
no_slash : base_url none "http://127.0.0.1:8891/" ≡ "http://127.0.0.1:8891"
unfolding base_url
no_slash = refl

connect_sooner : (http_args none one_float).connect ≡ record { bits = 0x3fd3333333333333 }
unfolding http_args
connect_sooner = refl

same_timeout : (service_args one_float).connect ≡ one_float
unfolding service_args
same_timeout = refl
