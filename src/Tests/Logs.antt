-- ===== src/Tests/Logs.antt =====
-- The decision log's task on a table in memory, in a database that is up.
use lite_router.Prelude.{
  ◌+◌, ◌≤◌, ◌≡◌, refl, Bool, true, false, String, none, List, [], ◌∷◌, ◌++◌, map, arith, inr, count,
  length,
}
use lite_router.DecisionLog.{no_detail, DecisionEvent, pinned, emit}
use lite_router.DecisionLog.Flusher.{
  waiting, DecisionRow, Postgres, Logger, Input, emits, steps, decision_row, run, started,
}
use lite_router.DecisionLog.Rows.{PostgresLaws, IsUp}
use lite_router.DecisionLog.Queue.{queued, IsOpen}
use lite_router.DecisionLog.Bounds.{InBounds}
use lite_router.DecisionLog.Conserve.{emitted, pending, run-conserves}
use lite_router.DecisionLog.Close.{Call, closes, aclose, calls, closed_for_good}
use lite_router.DecisionLog.Drain.{steps_for, run-drains}

abbrev table : Postgres
table = record {
  Db = List DecisionRow;
  dumps = λ d. "{}";
  create_pool = λ db. (true, db);
  acquire = λ db. (true, db);
  insert_decisions = λ db rows. (true, db ++ rows);
  insert_messages = λ db rows. (true, db);
}

abbrev table_laws : PostgresLaws table
table_laws = record {
  rows = λ db. db;
  create_pool_keeps = λ db. refl;
  acquire_keeps = λ db. refl;
  insert_messages_keeps = λ db ms. refl;
  insert_decisions_adds = λ db ds h. refl;
  insert_decisions_fails = λ db ds. inr refl;
}

abbrev table_up : IsUp table
table_up = record {
  create_pool_returns = λ db. refl;
  acquire_returns = λ db. refl;
  insert_decisions_returns = λ db ds. refl;
  insert_messages_returns = λ db ms. refl;
}

abbrev event : String → DecisionEvent
event key = record {
  session_key = key;
  event_type = pinned;
  model = "grok-4.5";
  policy_name = none;
  confidence = none;
  first_message_hash = none;
  api_key_alias = none;
  latency_ms = none;
  shadow = false;
  agent_id = none;
  client = none;
  detail = no_detail;
  raw_first_message = none;
  system_excerpt = none;
}

-- two events, with a step of the task between them, which has the first in its batch then
abbrev inputs : List (Input table)
inputs = emits (event "s1") ∷ steps false ∷ emits (event "s2") ∷ []

abbrev log : Logger table
log = run table inputs (started table "postgres://db" [])

run-conserves_example :
    InBounds table log
    × (count (λ row. true) (map (decision_row table) (emitted table inputs)) + 0
        ≤ count (λ row. true) (map (decision_row table) (pending table log))
          + count (λ row. true) log.db
          + log.log.dropped)
run-conserves_example = run-conserves table table_laws (λ row. true) inputs "postgres://db" [] refl

abbrev deadlines : List Bool
deadlines = false ∷ false ∷ false ∷ true ∷ false ∷ []

enough : steps_for log.pc (queued log.log) ≤ 5
unfolding run emit
enough = omega arith

run-drains_example :
    (let s = run table (map steps deadlines) log in
      (s.pc ≡ waiting)
      × (queued s.log ≡ [])
      × (s.db ≡ log.db ++ map (decision_row table) (pending table log))
      × (s.log.dropped ≡ log.log.dropped))
run-drains_example = run-drains table table_laws table_up deadlines log enough

-- two events more, and another `aclose`, after the log was closed with the first event in its batch
abbrev late : List (Call table)
late = Call.emits (event "s3") ∷ Call.steps true ∷ closes true ∷ Call.emits (event "s4") ∷ []

log-IsOpen : IsOpen log.log
log-IsOpen =
    (run-conserves table table_laws (λ row. true) inputs "postgres://db" [] refl).0.log_open

closed_for_good_example :
    let s = calls table late (aclose table false log) in
    (s.db ≡ (aclose table false log).db)
    × (false ≡ false → s.db ≡ log.db)
    × (length (queued s.log) ≤ 10000)
    × (length (queued s.log) + s.log.dropped ≡ 2 + length (queued log.log) + log.log.dropped)
closed_for_good_example = closed_for_good table false late log log-IsOpen
