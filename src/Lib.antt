-- ===== src/Lib.antt =====
-- lite-router: the session router that picks the model of a request and keeps it for the session.
--
-- A request reaches `LiteAutoRouter.async_pre_call_hook` (packages/session-router/src/session_router/
-- hook.py) before the proxy sends it on. The hook merges the headers, leaves requests for a concrete
-- model alone, sends side channels to the cheapest tier, derives a session key, and reads the
-- session's record from Redis. A pinned session is scanned for escalation signals and may move one
-- tier up; a session without a record is claimed, classified and pinned. Decisions go to a bounded
-- queue. Every exception on the way fails open.
-- A task takes the events from the queue and writes them to Postgres in batches. The classifier
-- service asks a model for the tier of a first message, and answers from its own copy of the policies.
--
-- Which file models which part (sources under packages/session-router/src/session_router/ unless a
-- path is given):
--   Policies       packages/router-common/src/router_common/policies.py: tiers, lookups, validator
--   SessionKey     session_key.py and packages/router-common/src/router_common/hashing.py
--   Escalation     escalation.py: `detect`, `consume`; Escalation/Turn.antt has `ScanState` and what
--                  the loop does with one message
--   StateMachine   state_machine.py: records, `build_pin_record`, `escalate`, `subagent_tier`
--   Overrides      overrides.py
--   Client         client.py
--   Classifier     classifier_client.py: `ClassifierClient.classify`
--   DecisionLog    packages/router-common/src/router_common/events.py and `emit` of decision_log.py;
--                  DecisionLog/Flusher.antt has the task that writes the events, and
--                  DecisionLog/Close.antt `aclose`
--   Connections    `_get_client` and `aclose` of session_store.py, of classifier_client.py, and of
--                  packages/classifier-svc/src/classifier_svc/backend.py
--   Store          session_store.py: `SessionStore`; the laws of Redis are in Store/Laws.antt
--   Environment    config.py: the settings of the hook, from the environment
--   Config         config.py: `PoliciesHolder` and `RateLimitedLogger`; the clock and the file are
--                  parameters
--   Service        packages/classifier-svc/src/classifier_svc: Service/Prompt.antt is prompt.py,
--                  Service/Backend.antt and Service/Span.antt are backend.py, Service/App.antt and
--                  Service/Life.antt are app.py, and Service/Composed.antt puts the service behind
--                  the router's client
--   Migrate        scripts/migrate.py
--   Replay         scripts/replay_shadow.py: the distributions, the replay, and the printed report
--   Hook           hook.py: the state of `LiteAutoRouter`; Hook/Keep.antt has `_handle_pinned`,
--                  Hook/First.antt `_handle_first_request`, and Hook/Route.antt `_route`,
--                  `_maybe_log_override` and `async_pre_call_hook`. Hook/Concurrent.antt has
--                  requests that overlap: the same methods, cut at their awaits
--   Prelude, Outcome, Exec, Json, Runtime   shared: numbers, lists, texts and dicts; exceptions as
--                  values; methods on the router's state; JSON bodies; what Python's library gives
--   Tests          small requests, and the theorems at concrete values
-- The other files under a component hold its proofs.
--
-- How the code corresponds: a function of the source is a definition of the same name. A function
-- that may raise returns `Outcome`, with the exceptions that the code can meet as values. A method of
-- the hook is an `Exec`, which takes the state of the router (the store, the decision log, the keys of
-- `_override_seen`) and gives it back also where an exception is raised. A loop is a recursion on the
-- list that it runs over, so no fuel is needed; the loop of the service's start-up, which has no bound,
-- runs over the list of what its attempts meet, and the endless task of the decision log is a step
-- function, run over a list of steps and of calls of `emit` in any order. A body is a tree of JSON
-- values, in which a number is known by its truth, its float and its text. A stored record has a field
-- for each key that the router writes, optional where an older record may lack it. Counters and limits
-- are natural numbers; the settings that bound them are taken to be non-negative.
--
-- Parameters, since their code is not in the repository: `Redis` with `RedisLaws` (each command writes
-- its key or nothing, a confirmed write is there, a read returns what is there; any command may fail,
-- with its effect done or not), `Codec` with `CodecLaws` (`json`), `Runtime` (`str.lower`,
-- `str.strip`, `re`, SHA-256), `Http` (the classifier service, seen from the router), `Clock` and
-- `Disk` (Python's clocks and the policies file), `Postgres` with `PostgresLaws` and `Server` with
-- `ServerLaws` (the databases of the decision log and of the migrations), of the replay's report
-- `Doubles` (the arithmetic of floats), and of the service `Library` (the two substitutions of `re`,
-- `json.loads`, `str` and `float`) and `Gateway` (the endpoint of the model).
-- Store/Memory.antt is a Redis in memory that keeps the laws.
--
-- A request of the hook ends before the next begins, but in Hook/Concurrent.antt, where any requests
-- take turns from one await to the next; Tests/Race.antt interleaves two by hand, and Store/Runs.antt
-- has the store's calls in any order.
--
-- The one fuel is that of `alone` in Hook/Concurrent/Alone.antt, where four turns are enough for a
-- request that no other interrupts: they are the methods of Hook/Keep.antt and Hook/First.antt.
--
-- Not modelled: the expiry of keys during a request of the hook, a change of the policies within a
-- request, the connections of the scripts, the end of the service's lifespan, the environment
-- variables of addresses, timeouts and of the service, the reading of YAML, log lines, timing and
-- uptime, the arguments and the query of scripts/replay_shadow.py (SQL), scripts/retention_purge.py
-- (one SQL statement), scripts/load_test.py, and the deployment.
pub mod Prelude
pub mod Outcome
pub mod Runtime
pub mod Json
pub mod Policies
pub mod SessionKey
pub mod Escalation
pub mod StateMachine
pub mod Overrides
pub mod Client
pub mod DecisionLog
pub mod Store
pub mod Classifier
pub mod Exec
pub mod Connections
pub mod Config
pub mod Hook
pub mod Environment
pub mod Replay
pub mod Migrate
mod Tests
pub mod Service
