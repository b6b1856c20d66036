-- ===== src/DecisionLog.antt =====
-- packages/router-common/src/router_common/events.py, and `DecisionLog.emit` of
-- packages/session-router/src/session_router/decision_log.py: the bounded queue of events on the
-- request path.
pub mod Flusher
pub mod Rows
pub mod Queue
pub mod Bounds
pub mod Conserve
pub mod Close
pub mod Drain
use lite_router.Prelude.{
  ℕ, ◌+◌, ◌≤◌, ◌≡◌, refl, Bool, true, false, String, Option, none, some, List, [], ◌∷◌, ◌++◌,
  length, ltb, if◌then◌else◌, arith, length-append, get_or, ◌⊎◌, inl, inr, Bool-cases,
}
use lite_router.Prelude.Text
use lite_router.Runtime.{Float}
use lite_router.Escalation.{EscalationSignal}
use lite_router.Client.{Client}

pub data EventType : Type 0 where
  classified pinned escalated override fallback : EventType

-- The `detail` of an event: the dicts that the hook builds.
pub data Detail : Type 0 where
  no_detail : Detail
  -- reason and its detail, from_model, escalations
  escalation : EscalationSignal → String → ℕ → Detail
  -- parent_key
  subagent : String → Detail
  classifier_unavailable : Detail
  path_override : String → Detail
  requested_model : String → Detail

pub record DecisionEvent : Type 0 where
  pub session_key : String
  pub event_type : EventType
  pub model : String
  pub policy_name : Option String
  pub confidence : Option Float
  pub first_message_hash : Option String
  pub api_key_alias : Option String
  pub latency_ms : Option ℕ
  pub shadow : Bool
  pub agent_id : Option String
  pub client : Option Client
  pub detail : Detail
  pub raw_first_message : Option String
  pub system_excerpt : Option String

abbrev pub queue_max : ℕ
queue_max = 10000

-- The fields of `DecisionLog` that `emit` reads and writes; the queue is `none` until the first
-- event, and `flusher` says whether the task has been created.
pub record DecisionLog : Type 0 where
  pub database_url : String
  pub queue : Option (List DecisionEvent)
  pub flusher : Bool
  pub dropped : ℕ

-- `self._queue.put_nowait(event)` with the handler of QueueFull
abbrev pub put_nowait : DecisionEvent → List DecisionEvent → DecisionLog → DecisionLog
put_nowait event queue log =
    if ltb (length queue) queue_max
    then record log { queue = some (queue ++ event ∷ []) }
    else record log { dropped = log.dropped + 1 }

-- the body of the `try`, by whether the queue exists; `running` says whether there is a running
-- event loop, without which `get_running_loop` raises after the queue has been assigned
abbrev pub enqueue : Bool → DecisionEvent → Option (List DecisionEvent) → DecisionLog → DecisionLog
enqueue running event (some queue) log = put_nowait event queue log
enqueue true event none log = put_nowait event [] (record log { queue = some []; flusher = true })
enqueue false event none log = record log { queue = some []; dropped = log.dropped + 1 }

unfoldable pub emit : Bool → DecisionEvent → DecisionLog → DecisionLog
emit running event log =
    if Text.nonempty log.database_url then enqueue running event log.queue log else log

-- A log whose queue keeps its bound.
abbrev pub Bounded : DecisionLog → Type 0
Bounded log = (q : List DecisionEvent) → log.queue ≡ some q → length q ≤ queue_max

-- What an event can do to a log that writes to a database: it is the last of the queue, or it is
-- counted as dropped and the queue holds what it held.
abbrev pub Recorded : DecisionEvent → DecisionLog → DecisionLog → Type 0
Recorded event log log' =
    ((log'.queue ≡ some (get_or log.queue [] ++ event ∷ [])) × (log'.dropped ≡ log.dropped))
    ⊎ ((log'.queue ≡ some (get_or log.queue [])) × (log'.dropped ≡ log.dropped + 1))

same_queue : {a b : List DecisionEvent} → some a ≡ some b → a ≡ b
same_queue h = cc

put_nowait-Bounded :
    (event : DecisionEvent) (queue : List DecisionEvent) (log : DecisionLog)
    → Bounded log
    → Bounded (put_nowait event queue log)
put_nowait-Bounded event queue log h = elim (Bool-cases (ltb (length queue) queue_max)) [
  | inl room ↦
      rw room λ q e. rw (← same_queue e, length-append queue (event ∷ [])) (ground (arith, room))
  | inr full ↦ rw full h
]

put_nowait-Recorded :
    (event : DecisionEvent) (queue : List DecisionEvent) (log : DecisionLog)
    → log.queue ≡ some queue
    → Recorded event log (put_nowait event queue log)
put_nowait-Recorded event queue log h = elim (Bool-cases (ltb (length queue) queue_max)) [
  | inl room ↦ inl (rw (room, h) (refl, refl))
  | inr full ↦ inr (rw (full, h) (refl, refl))
]

enqueue-Bounded :
    (running : Bool) (event : DecisionEvent) (queue : Option (List DecisionEvent))
    (log : DecisionLog)
    → log.queue ≡ queue
    → Bounded log
    → Bounded (enqueue running event queue log)
      × Recorded event log (enqueue running event queue log)
enqueue-Bounded running event (some queue) log h b =
    (put_nowait-Bounded event queue log b, put_nowait-Recorded event queue log h)
enqueue-Bounded true event none log h b =
    ((λ q e. rw (← same_queue e) (omega arith)), inl (rw h (refl, refl)))
enqueue-Bounded false event none log h b =
    ((λ q e. rw (← same_queue e) (omega arith)), inr (rw h (refl, refl)))

-- Where the log writes to a database, `emit` keeps the queue within its bound, and no event is lost
-- without a trace: it is the last of the queue, or it is counted as dropped. Nothing that was in
-- the queue is lost, with or without a running event loop.
pub emit-Bounded :
    (running : Bool) (event : DecisionEvent) (log : DecisionLog)
    → Text.nonempty log.database_url ≡ true
    → Bounded log
    → Bounded (emit running event log) × Recorded event log (emit running event log)
unfolding emit
emit-Bounded running event log url b = rw url (enqueue-Bounded running event log.queue log refl b)
