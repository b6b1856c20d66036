-- ===== src/DecisionLog/Close.antt =====
-- `DecisionLog.aclose` of packages/session-router/src/session_router/decision_log.py, in any order
-- with calls of `emit` and steps of the task.
use lite_router.Prelude.{
  ℕ, suc, ◌+◌, ◌≤◌, ◌≡◌, refl, ◌∙◌, Bool, true, false, List, [], ◌∷◌, ◌++◌, length, length-append,
  if◌then◌else◌, inl, inr, arith,
}
use lite_router.DecisionLog.{DecisionEvent, DecisionLog, queue_max, emit, Recorded, emit-Bounded}
use lite_router.DecisionLog.Flusher.{
  Postgres, Pc, waiting, filling, writing, sleeping, Logger, write_batch, step,
}
use lite_router.DecisionLog.Queue.{queued, IsOpen, IsOpen-Bounded, queue_of_some, emit-IsOpen}

module _ (pg : Postgres) where
  -- the database when the task is cancelled; `made` says whether a write that was under way has been
  -- carried out
  abbrev cancelled_db : Bool → Pc → Logger pg → pg.Db
  cancelled_db made waiting s = s.db
  cancelled_db made (filling batch) s = s.db
  cancelled_db made (writing batch) s = if made then (write_batch pg batch s.pool s.db).1 else s.db
  cancelled_db made sleeping s = s.db

  -- `self._task.cancel()`, and the task is gone with the batch that it held
  abbrev cancelled : Bool → Logger pg → Logger pg
  cancelled made s = record s {
    log = record s.log { flusher = false };
    pc = waiting;
    db = cancelled_db made s.pc s;
  }

  -- `aclose`: the task, if there is one, and then the pool, whose `close` may raise
  unfoldable pub aclose : Bool → Logger pg → Logger pg
  aclose made s =
      if s.log.flusher
      then record (cancelled made s) { pool = false }
      else record s { pool = false }

  -- a call of `emit`, a step of the task, or a call of `aclose`
  pub data Call : Type 0 where
    emits : DecisionEvent → Call
    steps closes : Bool → Call

  abbrev pub answer : Logger pg → Call → Logger pg
  answer s (emits ev) = record s { log = emit true ev s.log }
  answer s (steps expired) = if s.log.flusher then step pg expired s else s
  answer s (closes made) = aclose made s

  unfoldable pub calls : List Call → Logger pg → Logger pg
  calls [] s = s
  calls (c ∷ rest) s = calls rest (answer s c)

  -- how many events are emitted
  abbrev pub emissions : List Call → ℕ
  emissions [] = 0
  emissions (emits ev ∷ rest) = suc (emissions rest)
  emissions (steps expired ∷ rest) = emissions rest
  emissions (closes made ∷ rest) = emissions rest

-- what a log has taken, kept or dropped
abbrev pub taken : DecisionLog → ℕ
taken log = length (queued log) + log.dropped

Recorded-taken :
    (ev : DecisionEvent) (log log' : DecisionLog)
    → Recorded ev log log'
    → taken log' ≡ suc (taken log)
Recorded-taken ev log log' (inl (e, d)) =
    rw (queue_of_some log' (queued log ++ ev ∷ []) e, d, length-append (queued log) (ev ∷ []))
      (omega arith)
Recorded-taken ev log log' (inr (e, d)) = rw (queue_of_some log' (queued log) e, d) (omega arith)

emit-taken :
    (ev : DecisionEvent) (log : DecisionLog)
    → IsOpen log
    → taken (emit true ev log) ≡ suc (taken log)
emit-taken ev log o =
    Recorded-taken ev log (emit true ev log)
      (emit-Bounded true ev log o.url_set (IsOpen-Bounded log o)).1

-- where the queue exists, `emit` makes no task
emit-flusher :
    (ev : DecisionEvent) (log : DecisionLog) → IsOpen log → (emit true ev log).flusher ≡ log.flusher
unfolding emit
emit-flusher ev log o = rw (o.url_set, o.queue_there) (ground arith)

module _ (pg : Postgres) where
  -- closed: the queue exists, and no task reads it
  record Shut (s : Logger pg) : Type 0 where
    log_open : IsOpen s.log
    no_task : s.log.flusher ≡ false

  by_flag :
      (P : Logger pg → Type 0) (b : Bool) {x y : Logger pg}
      → (b ≡ true → P x)
      → (b ≡ false → P y)
      → P (if b then x else y)
  by_flag P true f g = f refl
  by_flag P false f g = g refl

  aclose-Shut : (made : Bool) (s : Logger pg) → IsOpen s.log → Shut (aclose pg made s)
  unfolding aclose
  aclose-Shut made s o =
      by_flag Shut s.log.flusher
        (λ e. record {
          log_open = record {
            url_set = o.url_set;
            queue_there = o.queue_there;
            queue_bounded = o.queue_bounded;
          };
          no_task = refl;
        })
        (λ e. record { log_open = o; no_task = e })

  -- what `aclose` does not touch, where no write is carried out
  aclose-keeps :
      (made : Bool) (s : Logger pg)
      → (taken (aclose pg made s).log ≡ taken s.log) × (made ≡ false → (aclose pg made s).db ≡ s.db)
  unfolding aclose
  aclose-keeps made s =
      by_flag (λ s'. (taken s'.log ≡ taken s.log) × (made ≡ false → s'.db ≡ s.db)) s.log.flusher
        (λ e. (refl, cancelled-db s.pc)) (λ e. (refl, λ _. refl))
    where
      cancelled-db : (pc : Pc) → made ≡ false → cancelled_db pg made pc s ≡ s.db
      cancelled-db waiting h = refl
      cancelled-db (filling batch) h = refl
      cancelled-db (writing batch) h = rw h refl
      cancelled-db sleeping h = refl

  -- nothing but the event of the call is taken
  abbrev Quiet : Logger pg → Call pg → Logger pg → Type 0
  Quiet s c s' = Shut s' × (s'.db ≡ s.db) × (taken s'.log ≡ emissions pg (c ∷ []) + taken s.log)

  -- a call on a closed log leaves the database, and takes its event
  answer-Shut : (s : Logger pg) (c : Call pg) → Shut s → Quiet s c (answer pg s c)
  answer-Shut s (emits ev) shut = (
    record {
      log_open = emit-IsOpen ev s.log shut.log_open;
      no_task = emit-flusher ev s.log shut.log_open ∙ shut.no_task;
    },
    refl,
    omega (arith, emit-taken ev s.log shut.log_open),
  )
  answer-Shut s (steps expired) shut =
      by_flag (Quiet s (steps expired)) s.log.flusher (λ e. absurd (cc (e, shut.no_task)))
        (λ e. (shut, refl, omega arith))
  answer-Shut s (closes made) shut =
      unfold aclose in
      by_flag (Quiet s (closes made)) s.log.flusher (λ e. absurd (cc (e, shut.no_task)))
        (λ e. (record { log_open = shut.log_open; no_task = shut.no_task }, refl, omega arith))

  emissions-cons :
      (c : Call pg) (cs : List (Call pg))
      → emissions pg (c ∷ cs) ≡ emissions pg (c ∷ []) + emissions pg cs
  emissions-cons (emits ev) cs = omega arith
  emissions-cons (steps expired) cs = omega arith
  emissions-cons (closes made) cs = omega arith

  calls-Shut :
      (cs : List (Call pg)) (s : Logger pg)
      → Shut s
      → Shut (calls pg cs s)
        × ((calls pg cs s).db ≡ s.db)
        × (taken (calls pg cs s).log ≡ emissions pg cs + taken s.log)
  unfolding calls
  calls-Shut [] s shut = (shut, refl, omega arith)
  calls-Shut (c ∷ cs) s shut =
      let (shut', same, took) = answer-Shut s c shut in
      let (shut'', same', took') = calls-Shut cs (answer pg s c) shut' in
      (shut'', same' ∙ same, omega (arith, took, took', emissions-cons c cs))

  -- Closed for good. Once `aclose` has been called on a log whose queue exists, nothing is written to
  -- the database any more, whatever calls of `emit` and `aclose` follow: the queue keeps its bound,
  -- and its length and the counter of drops together grow by exactly the events emitted later. The
  -- batch that the task held is not counted, and is not written either, unless the write that was
  -- under way is carried out: else the database is the one that `aclose` found.
  pub closed_for_good :
      (made : Bool) (cs : List (Call pg)) (s : Logger pg)
      → IsOpen s.log
      → let s' = calls pg cs (aclose pg made s) in
        (s'.db ≡ (aclose pg made s).db)
        × (made ≡ false → s'.db ≡ s.db)
        × (length (queued s'.log) ≤ queue_max)
        × (length (queued s'.log) + s'.log.dropped
            ≡ emissions pg cs + length (queued s.log) + s.log.dropped)
  closed_for_good made cs s o =
      let (shut, same, took) = calls-Shut cs (aclose pg made s) (aclose-Shut made s o) in
      let (kept, unwritten) = aclose-keeps made s in
      (same, (λ h. same ∙ unwritten h), shut.log_open.queue_bounded, omega (arith, took, kept))
