-- ===== src/DecisionLog/Drain.antt =====
-- The task of decision_log.py on a database that is up, with no further calls of `emit`.
use mathlib.Core.List.{append_assoc, append-nil, map-append}
use lite_router.Prelude.{
  ℕ, ◌+◌, ◌-◌, ◌*◌, ◌≤◌, ◌≡◌, refl, sym, ◌∙◌, Bool, true, false, List, [], ◌∷◌, ◌++◌, map, length,
  arith,
}
use lite_router.DecisionLog.{DecisionEvent}
use lite_router.DecisionLog.Flusher.{
  DecisionRow, Postgres, Pc, waiting, filling, writing, sleeping, Logger, decision_row, write_batch,
  settle, collected, step_at, step, steps, run,
}
use lite_router.DecisionLog.Rows.{PostgresLaws, IsUp, Wrote, write_batch-Wrote, write_batch_returns}
use lite_router.DecisionLog.Queue.{queued}
use lite_router.DecisionLog.Bounds.{batch_of-collected}
use lite_router.DecisionLog.Conserve.{pending}

-- the steps that the task needs for what it holds, and for the queue
abbrev pub steps_at : Pc → ℕ
steps_at waiting = 0
steps_at (filling batch) = 2
steps_at (writing batch) = 1
steps_at sleeping = 1

abbrev pub steps_for : Pc → List DecisionEvent → ℕ
steps_for pc queue = 3 * length queue + steps_at pc

steps_at-collected :
    (expired : Bool) (batch : List DecisionEvent) → steps_at (collected expired batch) ≤ 2
steps_at-collected expired batch = ground arith

nothing_left :
    (pc : Pc) (queue : List DecisionEvent) → steps_for pc queue ≤ 0 → (pc ≡ waiting) × (queue ≡ [])
nothing_left waiting [] h = (refl, refl)
nothing_left waiting (ev ∷ queue) h = absurd (omega arith)
nothing_left (filling batch) queue h = absurd (omega arith)
nothing_left (writing batch) queue h = absurd (omega arith)
nothing_left sleeping queue h = absurd (omega arith)

module _ (pg : Postgres) (laws : PostgresLaws pg) (up : IsUp pg) where
  -- the rows that will be there once all that is pending has been written
  abbrev all_rows : Logger pg → List DecisionRow
  all_rows s = laws.rows s.db ++ map (decision_row pg) (pending pg s)

  abbrev needed : Logger pg → ℕ
  needed s = steps_for s.pc (queued s.log)

  -- a step that brings the task nearer to its end, and loses, repeats and reorders nothing
  record Nearer (s s' : Logger pg) : Type 0 where
    same_rows : all_rows s' ≡ all_rows s
    same_dropped : s'.log.dropped ≡ s.log.dropped
    fewer : needed s' ≤ needed s - 1

  settle-Nearer :
      (batch : List DecisionEvent) (s : Logger pg) (x : Bool × pg.Db)
      → s.pc ≡ writing batch
      → x.0 ≡ true
      → Wrote pg laws batch (laws.rows s.db) x
      → Nearer s (settle pg batch s x)
  settle-Nearer batch s (false, db) at ok_ w = cc
  settle-Nearer batch s (true, db) at ok_ w = record {
    same_rows =
        rw (at, w.returned refl, map-append (decision_row pg) batch (queued s.log))
          (append_assoc (laws.rows s.db) (map (decision_row pg) batch)
            (map (decision_row pg) (queued s.log)));
    same_dropped = refl;
    fewer = rw at (omega arith);
  }

  step_at-Nearer :
      (pc : Pc) (queue : List DecisionEvent) (expired : Bool) (s : Logger pg)
      → s.pc ≡ pc
      → queued s.log ≡ queue
      → Nearer s (step_at pg pc queue expired s)
  step_at-Nearer waiting [] expired s at e = record {
    same_rows = refl;
    same_dropped = refl;
    fewer = rw (at, e) (omega arith);
  }
  step_at-Nearer waiting (ev ∷ queue) expired s at e = record {
    same_rows = rw (at, e, batch_of-collected expired (ev ∷ [])) refl;
    same_dropped = refl;
    fewer = rw (at, e) (omega (arith, steps_at-collected expired (ev ∷ [])));
  }
  step_at-Nearer (filling batch) [] expired s at e = record {
    same_rows = rw at refl;
    same_dropped = refl;
    fewer = rw at (omega arith);
  }
  step_at-Nearer (filling batch) (ev ∷ queue) expired s at e = record {
    same_rows =
        rw (at, e, batch_of-collected expired (batch ++ ev ∷ []))
          (rw (append_assoc batch (ev ∷ []) queue) refl);
    same_dropped = refl;
    fewer = rw (at, e) (omega (arith, steps_at-collected expired (batch ++ ev ∷ [])));
  }
  step_at-Nearer (writing batch) queue expired s at e =
      settle-Nearer batch s (write_batch pg batch s.pool s.db) at
        (write_batch_returns pg up batch s.pool s.db) (write_batch-Wrote pg laws batch s.pool s.db)
  step_at-Nearer sleeping queue expired s at e = record {
    same_rows = rw at refl;
    same_dropped = refl;
    fewer = rw at (omega arith);
  }

  step-Nearer : (s : Logger pg) (expired : Bool) → Nearer s (step pg expired s)
  unfolding step
  step-Nearer s expired = step_at-Nearer s.pc (queued s.log) expired s refl refl

  -- All is written in the end. On a database that is up, once `emit` is not called any more, three
  -- steps of the task for each event in the queue, and two more, are enough: then the task waits at
  -- an empty queue, and the rows of all the events that were pending have been added, each once and
  -- in order, and none was dropped, whatever deadlines have passed.
  pub run-drains :
      (deadlines : List Bool) (s : Logger pg)
      → steps_for s.pc (queued s.log) ≤ length deadlines
      → let s' = run pg (map steps deadlines) s in
        (s'.pc ≡ waiting)
        × (queued s'.log ≡ [])
        × (laws.rows s'.db ≡ laws.rows s.db ++ map (decision_row pg) (pending pg s))
        × (s'.log.dropped ≡ s.log.dropped)
  unfolding run
  run-drains [] s enough =
      let (at, e) = nothing_left s.pc (queued s.log) enough in
      (at, e, rw (at, e) (sym (append-nil (laws.rows s.db))), refl)
  run-drains (expired ∷ rest) s enough =
      let n = step-Nearer s expired in
      let (at, e, written, dropped) =
        run-drains rest (step pg expired s) (omega (arith, n.fewer)) in
      (at, e, written ∙ n.same_rows, dropped ∙ n.same_dropped)
