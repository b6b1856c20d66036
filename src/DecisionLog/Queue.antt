-- ===== src/DecisionLog/Queue.antt =====
-- The queue of decision_log.py under `emit` and under the requeueing of a batch.
use lite_router.Prelude.{
  ℕ, ◌+◌, ◌≤◌, ◌<◌, ◌≡◌, refl, sym, ap, ◌∙◌, Bool, true, Option, none, some, List, [], ◌∷◌, ◌++◌,
  length, get_or, arith, inl, inr, Bool-cases, count, count-append,
}
use lite_router.Prelude.Text
use lite_router.DecisionLog.{
  DecisionEvent, DecisionLog, queue_max, put_nowait, enqueue, emit, Bounded, Recorded, emit-Bounded,
  put_nowait-Bounded, put_nowait-Recorded,
}
use lite_router.DecisionLog.Flusher.{batch_max, Pc, waiting, filling, writing, sleeping, requeue}

-- the batch that the task holds
abbrev pub batch_of : Pc → List DecisionEvent
batch_of waiting = []
batch_of (filling batch) = batch
batch_of (writing batch) = batch
batch_of sleeping = []

-- A batch that is still being filled has room for one more.
abbrev pub Fits : Pc → Type 0
Fits waiting = Unit {0}
Fits (filling batch) = length batch < batch_max
Fits (writing batch) = length batch ≤ batch_max
Fits sleeping = Unit {0}

-- the events that wait in the queue
abbrev pub queued : DecisionLog → List DecisionEvent
queued log = get_or log.queue []

-- The queue exists and keeps its bound, in a log that writes to a database.
pub record IsOpen (log : DecisionLog) : Type 0 where
  pub url_set : Text.nonempty log.database_url ≡ true
  pub queue_there : log.queue ≡ some (queued log)
  pub queue_bounded : length (queued log) ≤ queue_max

some_queue : {a b : List DecisionEvent} → some a ≡ some b → a ≡ b
some_queue h = cc

pub IsOpen-Bounded : (log : DecisionLog) → IsOpen log → Bounded log
IsOpen-Bounded log o q e = rw (← some_queue (sym o.queue_there ∙ e)) o.queue_bounded

pub queue_of_some :
    (log : DecisionLog) (q : List DecisionEvent) → log.queue ≡ some q → queued log ≡ q
queue_of_some log q e = rw e

pub IsOpen-of :
    (log : DecisionLog) (q : List DecisionEvent)
    → Text.nonempty log.database_url ≡ true
    → log.queue ≡ some q
    → Bounded log
    → IsOpen log
IsOpen-of log q url e b = record {
  url_set = url;
  queue_there = e ∙ ap some (sym (queue_of_some log q e));
  queue_bounded = b (queued log) (e ∙ ap some (sym (queue_of_some log q e)));
}

put_nowait_url :
    (ev : DecisionEvent) (q : List DecisionEvent) (log : DecisionLog)
    → (put_nowait ev q log).database_url ≡ log.database_url
put_nowait_url ev q log = ground arith

-- `Recorded` leaves a queue.
Recorded-queue :
    (ev : DecisionEvent) (log log' : DecisionLog)
    → Recorded ev log log'
    → (q : List DecisionEvent) × (log'.queue ≡ some q)
Recorded-queue ev log log' (inl (e, d)) = (queued log ++ ev ∷ [], e)
Recorded-queue ev log log' (inr (e, d)) = (queued log, e)

put_nowait-IsOpen :
    (ev : DecisionEvent) (log : DecisionLog) → IsOpen log → IsOpen (put_nowait ev (queued log) log)
put_nowait-IsOpen ev log o =
    let (q, e) =
      Recorded-queue ev log (put_nowait ev (queued log) log)
        (put_nowait-Recorded ev (queued log) log o.queue_there) in
    IsOpen-of (put_nowait ev (queued log) log) q
      (ap Text.nonempty (put_nowait_url ev (queued log) log) ∙ o.url_set) e
      (put_nowait-Bounded ev (queued log) log (IsOpen-Bounded log o))

enqueue_url :
    (ev : DecisionEvent) (queue : Option (List DecisionEvent)) (log : DecisionLog)
    → (enqueue true ev queue log).database_url ≡ log.database_url
enqueue_url ev none log = put_nowait_url ev [] (record log { queue = some []; flusher = true })
enqueue_url ev (some q) log = put_nowait_url ev q log

emit_url :
    (ev : DecisionEvent) (log : DecisionLog) → (emit true ev log).database_url ≡ log.database_url
unfolding emit
emit_url ev log = elim (Bool-cases (Text.nonempty log.database_url)) [
  | inl set ↦ rw set (enqueue_url ev log.queue log)
  | inr unset ↦ rw unset refl
]

pub emit-IsOpen : (ev : DecisionEvent) (log : DecisionLog) → IsOpen log → IsOpen (emit true ev log)
emit-IsOpen ev log o =
    let (b, r) = emit-Bounded true ev log o.url_set (IsOpen-Bounded log o) in
    let (q, e) = Recorded-queue ev log (emit true ev log) r in
    IsOpen-of (emit true ev log) q (ap Text.nonempty (emit_url ev log) ∙ o.url_set) e b

pub requeue-IsOpen :
    (batch : List DecisionEvent) (log : DecisionLog) → IsOpen log → IsOpen (requeue batch log)
unfolding requeue
requeue-IsOpen [] log o = o
requeue-IsOpen (ev ∷ batch) log o =
    requeue-IsOpen batch (put_nowait ev (queued log) log) (put_nowait-IsOpen ev log o)

-- How much a log holds of what a test `p` picks, if what was dropped counts as picked.
module _ (p : DecisionEvent → Bool) where
  abbrev pub held : DecisionLog → ℕ
  held log = count p (queued log) + log.dropped

  Recorded-held :
      (ev : DecisionEvent) (log log' : DecisionLog)
      → Recorded ev log log'
      → count p (ev ∷ []) + held log ≤ held log'
  Recorded-held ev log log' (inl (e, d)) =
      rw (queue_of_some log' (queued log ++ ev ∷ []) e, d, count-append p (queued log) (ev ∷ []))
        (omega arith)
  Recorded-held ev log log' (inr (e, d)) = rw (queue_of_some log' (queued log) e, d) (ground arith)

  pub emit-held :
      (ev : DecisionEvent) (log : DecisionLog)
      → IsOpen log
      → count p (ev ∷ []) + held log ≤ held (emit true ev log)
  emit-held ev log o =
      Recorded-held ev log (emit true ev log)
        (emit-Bounded true ev log o.url_set (IsOpen-Bounded log o)).1

  pub requeue-held :
      (batch : List DecisionEvent) (log : DecisionLog)
      → IsOpen log
      → count p batch + held log ≤ held (requeue batch log)
  unfolding requeue
  requeue-held [] log o = omega arith
  requeue-held (ev ∷ batch) log o = omega (
    arith,
    requeue-held batch (put_nowait ev (queued log) log) (put_nowait-IsOpen ev log o),
    Recorded-held ev log (put_nowait ev (queued log) log)
        (put_nowait-Recorded ev (queued log) log o.queue_there),
  )
