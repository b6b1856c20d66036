-- ===== src/DecisionLog/Rows.antt =====
-- What the decision log relies on of Postgres, and what `_write_batch` of decision_log.py does to the
-- rows of router_decisions.
use lite_router.Prelude.{◌≡◌, refl, ◌∙◌, Bool, true, false, List, [], ◌∷◌, ◌++◌, map, inl, inr, ◌⊎◌}
use lite_router.DecisionLog.{DecisionEvent}
use lite_router.DecisionLog.Flusher.{
  DecisionRow, MessageRow, Postgres, decision_row, insert_rest, after_decisions, after_acquire,
  get_pool, after_pool, write_batch, message_rows,
}

-- What the log relies on of Postgres and its driver: the rows of router_decisions, to which a
-- successful `executemany` adds its own, a failed one none or, if only the reply was lost, its own,
-- and which no other call touches.
pub record PostgresLaws (pg : Postgres) : Type 0 where
  pub rows : pg.Db → List DecisionRow
  pub create_pool_keeps : (db : pg.Db) → rows (pg.create_pool db).1 ≡ rows db
  pub acquire_keeps : (db : pg.Db) → rows (pg.acquire db).1 ≡ rows db
  pub insert_messages_keeps :
      (db : pg.Db) (ms : List MessageRow) → rows (pg.insert_messages db ms).1 ≡ rows db
  pub insert_decisions_adds :
      (db : pg.Db) (ds : List DecisionRow)
      → (pg.insert_decisions db ds).0 ≡ true
      → rows (pg.insert_decisions db ds).1 ≡ rows db ++ ds
  pub insert_decisions_fails :
      (db : pg.Db) (ds : List DecisionRow)
      → (rows (pg.insert_decisions db ds).1 ≡ rows db)
        ⊎ (rows (pg.insert_decisions db ds).1 ≡ rows db ++ ds)

module _ (pg : Postgres) (laws : PostgresLaws pg) where
  -- After a write: the rows of the batch have been added if it returned, and in any case they have
  -- been added whole or not at all.
  pub record Wrote (batch : List DecisionEvent) (before : List DecisionRow) (x : Bool × pg.Db)
      : Type 0 where
    pub returned : x.0 ≡ true → laws.rows x.1 ≡ before ++ map (decision_row pg) batch
    pub whole : (laws.rows x.1 ≡ before) ⊎ (laws.rows x.1 ≡ before ++ map (decision_row pg) batch)

  module _ (batch : List DecisionEvent) (before : List DecisionRow) where
    not_returned : (db : pg.Db) → laws.rows db ≡ before → Wrote batch before (false, db)
    not_returned db same = record { returned = λ h. cc; whole = inl same }

    insert_rest-keeps :
        (ms : List MessageRow) (db : pg.Db) → laws.rows (insert_rest pg ms db).1 ≡ laws.rows db
    insert_rest-keeps [] db = refl
    insert_rest-keeps (m ∷ ms) db = laws.insert_messages_keeps db (m ∷ ms)

    after_decisions-Wrote :
        (x : Bool × pg.Db) → Wrote batch before x → Wrote batch before (after_decisions pg batch x)
    after_decisions-Wrote (false, db) w = w
    after_decisions-Wrote (true, db) w =
        let added = insert_rest-keeps (message_rows batch) db ∙ w.returned refl in
        record { returned = λ _. added; whole = inr added }

    insert_decisions-Wrote :
        (db : pg.Db)
        → laws.rows db ≡ before
        → Wrote batch before (pg.insert_decisions db (map (decision_row pg) batch))
    insert_decisions-Wrote db same = rw (← same) (record {
      returned = laws.insert_decisions_adds db (map (decision_row pg) batch);
      whole = laws.insert_decisions_fails db (map (decision_row pg) batch);
    })

    after_acquire-Wrote :
        (x : Bool × pg.Db) → laws.rows x.1 ≡ before → Wrote batch before (after_acquire pg batch x)
    after_acquire-Wrote (false, db) same = not_returned db same
    after_acquire-Wrote (true, db) same =
        after_decisions-Wrote (pg.insert_decisions db (map (decision_row pg) batch))
          (insert_decisions-Wrote db same)

    after_pool-Wrote :
        (x : Bool × pg.Db) → laws.rows x.1 ≡ before → Wrote batch before (after_pool pg batch x)
    after_pool-Wrote (false, db) same = not_returned db same
    after_pool-Wrote (true, db) same =
        after_acquire-Wrote (pg.acquire db) (laws.acquire_keeps db ∙ same)

  get_pool-keeps : (pool : Bool) (db : pg.Db) → laws.rows (get_pool pg pool db).1 ≡ laws.rows db
  unfolding get_pool
  get_pool-keeps true db = refl
  get_pool-keeps false db = laws.create_pool_keeps db

  pub write_batch-Wrote :
      (batch : List DecisionEvent) (pool : Bool) (db : pg.Db)
      → Wrote batch (laws.rows db) (write_batch pg batch pool db)
  unfolding write_batch
  write_batch-Wrote batch pool db =
      after_pool-Wrote batch (laws.rows db) (get_pool pg pool db) (get_pool-keeps pool db)

-- A database that is up: no call raises.
pub record IsUp (pg : Postgres) : Type 0 where
  pub create_pool_returns : (db : pg.Db) → (pg.create_pool db).0 ≡ true
  pub acquire_returns : (db : pg.Db) → (pg.acquire db).0 ≡ true
  pub insert_decisions_returns :
      (db : pg.Db) (ds : List DecisionRow) → (pg.insert_decisions db ds).0 ≡ true
  pub insert_messages_returns :
      (db : pg.Db) (ms : List MessageRow) → (pg.insert_messages db ms).0 ≡ true

module _ (pg : Postgres) (up : IsUp pg) where
  insert_rest_returns : (ms : List MessageRow) (db : pg.Db) → (insert_rest pg ms db).0 ≡ true
  insert_rest_returns [] db = refl
  insert_rest_returns (m ∷ ms) db = up.insert_messages_returns db (m ∷ ms)

  after_decisions_returns :
      (batch : List DecisionEvent) (x : Bool × pg.Db)
      → x.0 ≡ true
      → (after_decisions pg batch x).0 ≡ true
  after_decisions_returns batch (true, db) h = insert_rest_returns (message_rows batch) db
  after_decisions_returns batch (false, db) h = h

  after_acquire_returns :
      (batch : List DecisionEvent) (x : Bool × pg.Db)
      → x.0 ≡ true
      → (after_acquire pg batch x).0 ≡ true
  after_acquire_returns batch (true, db) h =
      after_decisions_returns batch (pg.insert_decisions db (map (decision_row pg) batch))
        (up.insert_decisions_returns db (map (decision_row pg) batch))
  after_acquire_returns batch (false, db) h = h

  after_pool_returns :
      (batch : List DecisionEvent) (x : Bool × pg.Db)
      → x.0 ≡ true
      → (after_pool pg batch x).0 ≡ true
  after_pool_returns batch (true, db) h =
      after_acquire_returns batch (pg.acquire db) (up.acquire_returns db)
  after_pool_returns batch (false, db) h = h

  get_pool_returns : (pool : Bool) (db : pg.Db) → (get_pool pg pool db).0 ≡ true
  unfolding get_pool
  get_pool_returns true db = refl
  get_pool_returns false db = up.create_pool_returns db

  pub write_batch_returns :
      (batch : List DecisionEvent) (pool : Bool) (db : pg.Db)
      → (write_batch pg batch pool db).0 ≡ true
  unfolding write_batch
  write_batch_returns batch pool db =
      after_pool_returns batch (get_pool pg pool db) (get_pool_returns pool db)
