-- ===== src/DecisionLog/Conserve.antt =====
-- `DecisionLog` of decision_log.py with its task, under every schedule: what becomes of the events
-- that were emitted.
use lite_router.Prelude.{
  ℕ, ◌+◌, ◌≤◌, ◌≡◌, refl, Bool, true, false, String, List, [], ◌∷◌, ◌++◌, map, arith, inl, inr, ◌⊎◌,
  count, count-append, count-map,
}
use lite_router.Prelude.Text
use lite_router.DecisionLog.{DecisionEvent}
use lite_router.DecisionLog.Flusher.{
  DecisionRow, Postgres, Pc, waiting, filling, writing, sleeping, Logger, decision_row, write_batch,
  settle, step_at, step, Input, emits, steps, react, run, started,
}
use lite_router.DecisionLog.Rows.{PostgresLaws, Wrote, write_batch-Wrote}
use lite_router.DecisionLog.Queue.{batch_of, queued, IsOpen, held, emit-held, requeue-held}
use lite_router.DecisionLog.Bounds.{
  InBounds, batch_of-collected, react-InBounds, run-InBounds, started-InBounds,
}

module _ (pg : Postgres) where
  abbrev pub emitted : List (Input pg) → List DecisionEvent
  emitted [] = []
  emitted (emits ev ∷ rest) = ev ∷ emitted rest
  emitted (steps expired ∷ rest) = emitted rest

  -- the events that are still to be written, the oldest batch first
  abbrev pub pending : Logger pg → List DecisionEvent
  pending s = batch_of s.pc ++ queued s.log

module _ (pg : Postgres) (laws : PostgresLaws pg) (p : DecisionRow → Bool) where
  -- the same test on the row of an event
  abbrev picks : DecisionEvent → Bool
  picks ev = p (decision_row pg ev)

  -- what a logger holds of the rows that `p` picks, written or not, with all that was dropped
  abbrev total : Logger pg → ℕ
  total s = count picks (batch_of s.pc) + held picks s.log + count p (laws.rows s.db)

  count_written :
      (batch : List DecisionEvent) (before after : List DecisionRow)
      → after ≡ before ++ map (decision_row pg) batch
      → count p after ≡ count p before + count picks batch
  count_written batch before after e =
      rw
        (
          e,
          count-append p before (map (decision_row pg) batch),
          count-map p (decision_row pg) batch,
        )
        refl

  count_whole :
      (batch : List DecisionEvent) (before after : List DecisionRow)
      → (after ≡ before) ⊎ (after ≡ before ++ map (decision_row pg) batch)
      → count p before ≤ count p after
  count_whole batch before after (inl e) = rw e (omega arith)
  count_whole batch before after (inr e) = omega (arith, count_written batch before after e)

  settle-total :
      (batch : List DecisionEvent) (s : Logger pg) (x : Bool × pg.Db)
      → IsOpen s.log
      → Wrote pg laws batch (laws.rows s.db) x
      → count picks batch + held picks s.log + count p (laws.rows s.db)
        ≤ total (settle pg batch s x)
  settle-total batch s (true, db) o w =
      omega (arith, count_written batch (laws.rows s.db) (laws.rows db) (w.returned refl))
  settle-total batch s (false, db) o w = omega (
    arith,
    requeue-held picks batch s.log o,
    count_whole batch (laws.rows s.db) (laws.rows db) w.whole,
  )

  step_at-total :
      (pc : Pc) (queue : List DecisionEvent) (expired : Bool) (s : Logger pg)
      → s.pc ≡ pc
      → queued s.log ≡ queue
      → IsOpen s.log
      → total s ≤ total (step_at pg pc queue expired s)
  step_at-total waiting [] expired s at e o = omega arith
  step_at-total waiting (ev ∷ queue) expired s at e o =
      rw (at, e, batch_of-collected expired (ev ∷ [])) (omega arith)
  step_at-total (filling batch) [] expired s at e o = rw at (omega arith)
  step_at-total (filling batch) (ev ∷ queue) expired s at e o =
      rw (at, e, batch_of-collected expired (batch ++ ev ∷ []), count-append picks batch (ev ∷ []))
        (omega arith)
  step_at-total (writing batch) queue expired s at e o = rw at (
      settle-total batch s (write_batch pg batch s.pool s.db) o
        (write_batch-Wrote pg laws batch s.pool s.db))
  step_at-total sleeping queue expired s at e o = rw at (omega arith)

  abbrev fresh : Input pg → ℕ
  fresh i = count picks (emitted pg (i ∷ []))

  react-total :
      (s : Logger pg) (i : Input pg) → InBounds pg s → fresh i + total s ≤ total (react pg s i)
  unfolding step
  react-total s (emits ev) v = omega (arith, emit-held picks ev s.log v.log_open)
  react-total s (steps expired) v =
      omega (arith, step_at-total s.pc (queued s.log) expired s refl refl v.log_open)

  run-total :
      (inputs : List (Input pg)) (s : Logger pg)
      → InBounds pg s
      → count picks (emitted pg inputs) + total s ≤ total (run pg inputs s)
  unfolding run
  run-total [] s v = omega arith
  run-total (emits ev ∷ rest) s v = omega (
    arith,
    react-total s (emits ev) v,
    run-total rest (react pg s (emits ev)) (react-InBounds pg s (emits ev) v),
  )
  run-total (steps expired ∷ rest) s v = omega (
    arith,
    react-total s (steps expired) v,
    run-total rest (react pg s (steps expired)) (react-InBounds pg s (steps expired) v),
  )

  -- No event is lost without a trace. A log that was started on a database, with any calls of `emit`
  -- and any steps of its task since, in any order and whatever fails, stays within the bounds of its
  -- constants; and for every test of rows, as many of the events emitted as pass it are in the
  -- queue, in the task's batch, or among the rows written since, or are counted as dropped.
  pub run-conserves :
      (inputs : List (Input pg)) (url : String) (db : pg.Db)
      → Text.nonempty url ≡ true
      → let s = run pg inputs (started pg url db) in
        InBounds pg s
        × (count p (map (decision_row pg) (emitted pg inputs)) + count p (laws.rows db)
            ≤ count p (map (decision_row pg) (pending pg s))
              + count p (laws.rows s.db)
              + s.log.dropped)
  run-conserves inputs url db set =
      let s = run pg inputs (started pg url db) in
      let v = started-InBounds pg url db set in
      (
        run-InBounds pg inputs (started pg url db) v,
        rw
            (
              count-map p (decision_row pg) (emitted pg inputs),
              count-map p (decision_row pg) (pending pg s),
              count-append picks (batch_of s.pc) (queued s.log),
            )
            (omega (arith, run-total inputs (started pg url db) v)),
      )
