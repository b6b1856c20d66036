-- ===== src/DecisionLog/Bounds.antt =====
-- `DecisionLog` of decision_log.py with its task, under every schedule: the bounds of its constants.
use lite_router.Prelude.{
  ◌≤◌, ◌≡◌, refl, Bool, true, false, not, ◌&&◌, String, some, List, [], ◌∷◌, ◌++◌, length,
  length-append, ltb, arith, inl, inr, Bool-cases,
}
use lite_router.Prelude.Text
use lite_router.DecisionLog.{DecisionEvent, DecisionLog}
use lite_router.DecisionLog.Flusher.{
  batch_max, backoff_max_s, Postgres, Pc, waiting, filling, writing, sleeping, Logger, write_batch,
  settle, collected, step_at, step, Input, emits, steps, react, run, started,
}
use lite_router.DecisionLog.Queue.{batch_of, Fits, queued, IsOpen, emit-IsOpen, requeue-IsOpen}

collected-Fits :
    (expired : Bool) (batch : List DecisionEvent)
    → length batch ≤ batch_max
    → Fits (collected expired batch)
collected-Fits expired batch h = elim (Bool-cases (ltb (length batch) batch_max && not expired)) [
  | inl more ↦ rw more (ground (arith, more))
  | inr full ↦ rw full h
]

pub batch_of-collected :
    (expired : Bool) (batch : List DecisionEvent) → batch_of (collected expired batch) ≡ batch
batch_of-collected expired batch = ground arith

module _ (pg : Postgres) where
  -- The bounds of the code's constants, with the queue there.
  pub record InBounds (s : Logger pg) : Type 0 where
    pub log_open : IsOpen s.log
    pub fits : Fits s.pc
    pub backoff_low : 1 ≤ s.backoff
    pub backoff_high : s.backoff ≤ backoff_max_s

  shorter-IsOpen :
      (log : DecisionLog) (ev : DecisionEvent) (queue : List DecisionEvent)
      → queued log ≡ ev ∷ queue
      → IsOpen log
      → IsOpen (record log { queue = some queue })
  shorter-IsOpen log ev queue e o = record {
    url_set = o.url_set;
    queue_there = refl;
    queue_bounded = let b = rw e at o.queue_bounded in omega arith;
  }

  settle-InBounds :
      (batch : List DecisionEvent) (s : Logger pg) (x : Bool × pg.Db)
      → InBounds s
      → InBounds (settle pg batch s x)
  settle-InBounds batch s (true, db) v = record {
    log_open = v.log_open;
    fits = tt;
    backoff_low = omega arith;
    backoff_high = omega arith;
  }
  settle-InBounds batch s (false, db) v = record {
    log_open = requeue-IsOpen batch s.log v.log_open;
    fits = tt;
    backoff_low = v.backoff_low;
    backoff_high = v.backoff_high;
  }

  step_at-InBounds :
      (pc : Pc) (queue : List DecisionEvent) (expired : Bool) (s : Logger pg)
      → s.pc ≡ pc
      → queued s.log ≡ queue
      → InBounds s
      → InBounds (step_at pg pc queue expired s)
  step_at-InBounds waiting [] expired s at e v = v
  step_at-InBounds waiting (ev ∷ queue) expired s at e v = record {
    log_open = shorter-IsOpen s.log ev queue e v.log_open;
    fits = collected-Fits expired (ev ∷ []) (omega arith);
    backoff_low = v.backoff_low;
    backoff_high = v.backoff_high;
  }
  step_at-InBounds (filling batch) [] expired s at e v = record {
    log_open = v.log_open;
    fits = let f : Fits (filling batch) = rw at at v.fits in omega arith;
    backoff_low = v.backoff_low;
    backoff_high = v.backoff_high;
  }
  step_at-InBounds (filling batch) (ev ∷ queue) expired s at e v = record {
    log_open = shorter-IsOpen s.log ev queue e v.log_open;
    fits = collected-Fits expired (batch ++ ev ∷ []) (
        let f : Fits (filling batch) = rw at at v.fits in
        omega (arith, length-append batch (ev ∷ [])));
    backoff_low = v.backoff_low;
    backoff_high = v.backoff_high;
  }
  step_at-InBounds (writing batch) queue expired s at e v =
      settle-InBounds batch s (write_batch pg batch s.pool s.db) v
  step_at-InBounds sleeping queue expired s at e v = record {
    log_open = v.log_open;
    fits = tt;
    backoff_low = ground (arith, v.backoff_low);
    backoff_high = ground arith;
  }

  pub react-InBounds : (s : Logger pg) (i : Input pg) → InBounds s → InBounds (react pg s i)
  unfolding step
  react-InBounds s (emits ev) v = record {
    log_open = emit-IsOpen ev s.log v.log_open;
    fits = v.fits;
    backoff_low = v.backoff_low;
    backoff_high = v.backoff_high;
  }
  react-InBounds s (steps expired) v = step_at-InBounds s.pc (queued s.log) expired s refl refl v

  pub run-InBounds :
      (inputs : List (Input pg)) (s : Logger pg) → InBounds s → InBounds (run pg inputs s)
  unfolding run
  run-InBounds [] s v = v
  run-InBounds (i ∷ rest) s v = run-InBounds rest (react pg s i) (react-InBounds s i v)

  pub started-InBounds :
      (url : String) (db : pg.Db) → Text.nonempty url ≡ true → InBounds (started pg url db)
  started-InBounds url db set = record {
    log_open = record { url_set = set; queue_there = refl; queue_bounded = omega arith };
    fits = tt;
    backoff_low = omega arith;
    backoff_high = omega arith;
  }
