-- ===== src/DecisionLog/Flusher.antt =====
-- The flusher task of packages/session-router/src/session_router/decision_log.py: `_flusher`,
-- `_collect_batch` and `_write_batch`. Postgres and its driver are the parameter `Postgres`. The task
-- runs between two awaits without interruption, so a step here ends at the next await; `emit` may
-- come between any two steps.
use lite_router.Prelude.{
  ℕ, ◌*◌, min, Bool, true, false, not, ◌&&◌, String, Option, none, some, List, [], ◌∷◌, ◌++◌, map,
  length, ltb, if◌then◌else◌, get_or,
}
use lite_router.Prelude.Text
use lite_router.Runtime.{Float}
use lite_router.Client.{Client, claude_code, opencode, generic}
use lite_router.DecisionLog.{
  EventType, classified, pinned, escalated, override, fallback, Detail, DecisionEvent, DecisionLog,
  put_nowait, emit,
}

abbrev pub batch_max : ℕ
batch_max = 200

-- seconds, doubled and capped: whole numbers
abbrev pub backoff_max_s : ℕ
backoff_max_s = 30

-- the parameters of `_DECISIONS_SQL`
pub record DecisionRow : Type 0 where
  pub session_key : String
  pub event_type : String
  pub policy_name : Option String
  pub model : String
  pub confidence : Option Float
  pub first_message_hash : Option String
  pub api_key_alias : Option String
  pub latency_ms : Option ℕ
  pub shadow : Bool
  pub agent_id : Option String
  pub client : Option String
  pub detail : String

-- the parameters of `_FIRST_MESSAGES_SQL`
pub record MessageRow : Type 0 where
  pub first_message_hash : String
  pub session_key : String
  pub raw_message : String
  pub system_excerpt : Option String

-- The pool and its connections, on the state of the database: whether the call returned, or raised.
pub record Postgres : Type 1 where
  pub Db : Type 0
  -- `json.dumps` of the dict that a detail stands for
  pub dumps : Detail → String
  pub create_pool : Db → Bool × Db
  pub acquire : Db → Bool × Db
  -- `executemany` of the two statements
  pub insert_decisions : Db → List DecisionRow → Bool × Db
  pub insert_messages : Db → List MessageRow → Bool × Db

-- `str(ev.event_type)`
abbrev event_name : EventType → String
event_name classified = "classified"
event_name pinned = "pinned"
event_name escalated = "escalated"
event_name override = "override"
event_name fallback = "fallback"

-- the constants of client.py
abbrev client_name : Client → String
client_name claude_code = "claude-code"
client_name opencode = "opencode"
client_name generic = "generic"

abbrev name_of : Option Client → Option String
name_of none = none
name_of (some c) = some (client_name c)

-- the row of one event with its first message and hash, if both are there and not empty
abbrev message_row : DecisionEvent → Option String → Option String → List MessageRow
message_row ev none hash = []
message_row ev (some raw) none = []
message_row ev (some raw) (some hash) =
    if Text.nonempty raw && Text.nonempty hash
    then record {
      first_message_hash = hash;
      session_key = ev.session_key;
      raw_message = raw;
      system_excerpt = ev.system_excerpt;
    }
      ∷ []
    else []

unfoldable pub message_rows : List DecisionEvent → List MessageRow
message_rows [] = []
message_rows (ev ∷ batch) =
    message_row ev ev.raw_first_message ev.first_message_hash ++ message_rows batch

-- Where the task stands: in the first `get` of `_collect_batch`, in its `wait_for` with the batch so
-- far, in `_write_batch`, or in `sleep`.
pub data Pc : Type 0 where
  waiting : Pc
  filling writing : List DecisionEvent → Pc
  sleeping : Pc

-- `for ev in batch: try: put_nowait(ev) except QueueFull: dropped += 1`; the queue exists while the
-- task runs
unfoldable pub requeue : List DecisionEvent → DecisionLog → DecisionLog
requeue [] log = log
requeue (ev ∷ batch) log = requeue batch (put_nowait ev (get_or log.queue []) log)

-- the tests of the loop in `_collect_batch`; `expired` says that the deadline has passed
abbrev pub collected : Bool → List DecisionEvent → Pc
collected expired batch =
    if ltb (length batch) batch_max && not expired then filling batch else writing batch

module _ (pg : Postgres) where
  -- a `DecisionLog` with its task and the database; `pool` says whether `_pool` is set
  pub record Logger : Type 0 where
    pub log : DecisionLog
    pub pc : Pc
    pub backoff : ℕ
    pub pool : Bool
    pub db : pg.Db

  unfoldable pub decision_row : DecisionEvent → DecisionRow
  decision_row ev = record {
    session_key = ev.session_key;
    event_type = event_name ev.event_type;
    policy_name = ev.policy_name;
    model = ev.model;
    confidence = ev.confidence;
    first_message_hash = ev.first_message_hash;
    api_key_alias = ev.api_key_alias;
    latency_ms = ev.latency_ms;
    shadow = ev.shadow;
    agent_id = ev.agent_id;
    client = name_of ev.client;
    detail = pg.dumps ev.detail;
  }

  -- `if message_rows: await conn.executemany(…)`
  abbrev pub insert_rest : List MessageRow → pg.Db → Bool × pg.Db
  insert_rest [] db = (true, db)
  insert_rest (row ∷ rows) db = pg.insert_messages db (row ∷ rows)

  abbrev pub after_decisions : List DecisionEvent → Bool × pg.Db → Bool × pg.Db
  after_decisions batch (false, db) = (false, db)
  after_decisions batch (true, db) = insert_rest (message_rows batch) db

  abbrev pub after_acquire : List DecisionEvent → Bool × pg.Db → Bool × pg.Db
  after_acquire batch (false, db) = (false, db)
  after_acquire batch (true, db) =
      after_decisions batch (pg.insert_decisions db (map decision_row batch))

  -- `_get_pool`: whether there is a pool afterwards
  unfoldable pub get_pool : Bool → pg.Db → Bool × pg.Db
  get_pool true db = (true, db)
  get_pool false db = pg.create_pool db

  abbrev pub after_pool : List DecisionEvent → Bool × pg.Db → Bool × pg.Db
  after_pool batch (false, db) = (false, db)
  after_pool batch (true, db) = after_acquire batch (pg.acquire db)

  -- whether it returned
  unfoldable pub write_batch : List DecisionEvent → Bool → pg.Db → Bool × pg.Db
  unfolding get_pool decision_row message_rows
  write_batch batch pool db = after_pool batch (get_pool pool db)

  -- the `try` of `_flusher`, by whether the batch was written
  abbrev pub settle : List DecisionEvent → Logger → Bool × pg.Db → Logger
  settle batch s (true, db) = record s { pc = waiting; backoff = 1; pool = true; db = db }
  settle batch s (false, db) = record s {
    log = requeue batch s.log;
    pc = sleeping;
    pool = false;
    db = db;
  }

  -- The next step of the task where it stands. `queue` is what `self._queue` holds: where it is
  -- empty, `get` goes on waiting, and `wait_for` runs into its timeout.
  abbrev pub step_at : Pc → List DecisionEvent → Bool → Logger → Logger
  step_at waiting [] expired s = s
  step_at waiting (ev ∷ queue) expired s = record s {
    log = record s.log { queue = some queue };
    pc = collected expired (ev ∷ []);
  }
  step_at (filling batch) [] expired s = record s { pc = writing batch }
  step_at (filling batch) (ev ∷ queue) expired s = record s {
    log = record s.log { queue = some queue };
    pc = collected expired (batch ++ ev ∷ []);
  }
  step_at (writing batch) queue expired s = settle batch s (write_batch batch s.pool s.db)
  step_at sleeping queue expired s = record s {
    pc = waiting;
    backoff = min (s.backoff * 2) backoff_max_s;
  }

  unfoldable pub step : Bool → Logger → Logger
  unfolding write_batch requeue
  step expired s = step_at s.pc (get_or s.log.queue []) expired s

  -- What happens to a log, in order: a call of `emit`, or a step of the task.
  pub data Input : Type 0 where
    emits : DecisionEvent → Input
    steps : Bool → Input

  abbrev pub react : Logger → Input → Logger
  react s (emits ev) = record s { log = emit true ev s.log }
  react s (steps expired) = step expired s

  unfoldable pub run : List Input → Logger → Logger
  unfolding step
  run [] s = s
  run (i ∷ rest) s = run rest (react s i)

  -- where the first `emit` has made the queue and the task
  abbrev pub started : String → pg.Db → Logger
  started url db = record {
    log = record { database_url = url; queue = some []; flusher = true; dropped = 0 };
    pc = waiting;
    backoff = 1;
    pool = false;
    db = db;
  }
