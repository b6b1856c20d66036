-- ===== src/Migrate/Applies.antt =====
-- What a run of scripts/migrate.py has applied when it ends, wherever it fails.
use lite_router.Prelude.{
  ◌≡◌, refl, sym, ap, ◌∙◌, Bool, true, false, Option, none, some, String, List, [], ◌∷◌, ◌++◌, All,
  any, ◌==◌, if◌then◌else◌, inl, inr, ◌⊎◌, Bool-cases,
}
use lite_router.Migrate.{
  Migration, Server, is_applied, go_on, block, after_file, apply_all, after_fetch, after_create,
  main,
}
use lite_router.Migrate.Laws.{
  View, ServerLaws, pending, pending_same, Front, front_none, front_more, grown, grown-nil,
  grown-cons,
}

module _ (server : Server) (laws : ServerLaws server) where
  -- Of a result: an initial part of the files has been applied, with their statements and with their
  -- names, and all of them if it returned.
  pub record Applied (before : View) (todo : List Migration) (x : Bool × server.Db) : Type 0 where
    pub front : List Migration
    pub in_order : Front front todo
    pub applied : laws.view x.1 ≡ grown before front
    pub all_applied : x.0 ≡ true → front ≡ todo

  abbrev pub ArePlain : List Migration → Type 0
  ArePlain files = All (λ file. laws.IsPlain file.sql) files

  Applied-none :
      (before : View) (todo : List Migration) (db : server.Db)
      → laws.view db ≡ before
      → Applied before todo (false, db)
  Applied-none before todo db h = record {
    front = [];
    in_order = front_none;
    applied = h ∙ sym (grown-nil before);
    all_applied = λ e. cc;
  }

  -- the block, behind its first call
  inserted-view :
      (before : View) (file : Migration) (x : Bool × server.Db)
      → (x.0 ≡ true → laws.view x.1 ≡ (before.0 ++ file.sql ∷ [], before.1))
      → (go_on server (server.insert file.name) x).0 ≡ true
      → laws.view (go_on server (server.insert file.name) x).1 ≡ grown before (file ∷ [])
  inserted-view before file (false, db) h e = cc
  inserted-view before file (true, db) h e =
      laws.insert_returns file.name db e ∙ ap (λ (v : View). (v.0, v.1 ++ file.name ∷ [])) (h refl)

  block-view :
      (before : View) (file : Migration) (db : server.Db)
      → laws.IsPlain file.sql
      → laws.view db ≡ before
      → (block server file db).0 ≡ true
      → laws.view (block server file db).1 ≡ grown before (file ∷ [])
  block-view before file db plain h e =
      inserted-view before file (server.execute file.sql db)
        (λ returned.
          laws.execute_returns file.sql db plain returned
          ∙ ap (λ (v : View). (v.0 ++ file.sql ∷ [], v.1)) h)
        e

  go_on-Applied :
      (before : View) (todo : List Migration) (file : Migration)
      (rest : server.Db → Bool × server.Db) (x : Bool × server.Db)
      → (x.0 ≡ true → laws.view x.1 ≡ grown before (file ∷ []))
      → (x.0 ≡ false → (laws.view x.1 ≡ before) ⊎ (laws.view x.1 ≡ grown before (file ∷ [])))
      → ((db : server.Db)
          → laws.view db ≡ grown before (file ∷ [])
          → Applied (grown before (file ∷ [])) todo (rest db))
      → Applied before (file ∷ todo) (go_on server rest x)
  go_on-Applied before todo file rest (false, db) t f k = elim (f refl) [
    | inl same ↦ Applied-none before (file ∷ todo) db same
    | inr done ↦ record {
      front = file ∷ [];
      in_order = front_more front_none;
      applied = done;
      all_applied = λ e. cc;
    }
  ]
  go_on-Applied before todo file rest (true, db) t f k =
      let a = k db (t refl) in
      record {
        front = file ∷ a.front;
        in_order = front_more a.in_order;
        applied = a.applied ∙ grown-cons before file a.front;
        all_applied = λ e. ap (◌∷◌ file) (a.all_applied e);
      }

  by_readable-Applied :
      (before : View) (todo : List Migration) (readable : Bool) (x y : Bool × server.Db)
      → Applied before todo x
      → Applied before todo y
      → Applied before todo (if readable then x else y)
  by_readable-Applied before todo true x y h k = h
  by_readable-Applied before todo false x y h k = k

  after_file-Applied :
      (before : View) (todo : List Migration) (file : Migration)
      (rest : server.Db → Bool × server.Db) (db : server.Db)
      → laws.IsPlain file.sql
      → laws.view db ≡ before
      → ((db' : server.Db)
          → laws.view db' ≡ grown before (file ∷ [])
          → Applied (grown before (file ∷ [])) todo (rest db'))
      → Applied before (file ∷ todo) (after_file server file rest db)
  after_file-Applied before todo file rest db plain h k =
      by_readable-Applied before (file ∷ todo) file.readable
        (go_on server rest (server.transaction (block server file) db)) (false, db)
        (go_on-Applied before todo file rest (server.transaction (block server file) db)
          (λ returned.
            let (begun, same, ran, kept) =
              laws.transaction_returns (block server file) db returned in
            kept ∙ block-view before file begun plain (same ∙ h) ran)
          (λ raised. elim (laws.transaction_raises (block server file) db raised) [
            | inl back ↦ inl (back ∙ h)
            | inr (begun, same, ran, kept) ↦
                inr (kept ∙ block-view before file begun plain (same ∙ h) ran)
          ])
          k)
        (Applied-none before (file ∷ todo) db h)

  apply_all-Applied :
      (applied : List String) (files : List Migration) (before : View) (db : server.Db)
      → ArePlain files
      → laws.view db ≡ before
      → Applied before (pending applied files) (apply_all server applied files db)
  unfolding apply_all pending
  apply_all-Applied applied [] before db plain h = record {
    front = [];
    in_order = front_none;
    applied = h ∙ sym (grown-nil before);
    all_applied = λ e. refl;
  }
  apply_all-Applied applied (file ∷ files) before db (plain, rest) h =
      elim (Bool-cases (is_applied applied file)) [
        | inl e ↦ rw e (apply_all-Applied applied files before db rest h)
        | inr e ↦ rw e (
            after_file-Applied before (pending applied files) file (apply_all server applied files)
              db plain h
              (λ db' h'. apply_all-Applied applied files (grown before (file ∷ [])) db' rest h'))
      ]

  after_fetch-Applied :
      (files : List Migration) (before : View) (x : Option (List String) × server.Db)
      → ArePlain files
      → laws.view x.1 ≡ before
      → ((applied : List String) (name : String)
          → x.0 ≡ some applied
          → any (λ row. row == name) applied ≡ any (λ row. row == name) before.1)
      → Applied before (pending before.1 files) (after_fetch server files x)
  after_fetch-Applied files before (none, db) plain h rows =
      Applied-none before (pending before.1 files) db h
  after_fetch-Applied files before (some applied, db) plain h rows =
      rw (← pending_same applied before.1 files (λ name. rows applied name refl))
        (apply_all-Applied applied files before db plain h)

  after_create-Applied :
      (files : List Migration) (before : View) (x : Bool × server.Db)
      → ArePlain files
      → laws.view x.1 ≡ before
      → Applied before (pending before.1 files) (after_create server files x)
  after_create-Applied files before (false, db) plain h =
      Applied-none before (pending before.1 files) db h
  after_create-Applied files before (true, db) plain h =
      after_fetch-Applied files before (server.fetch db) plain (laws.fetch_keeps db ∙ h)
        (λ applied name e.
          laws.fetch_rows db applied name e ∙ ap (λ (v : View). any (λ row. row == name) v.1) h)

  -- A run of files with plain statements, wherever it fails, has applied an initial part of the files
  -- that had no row, in order and each once, and all of them if it returns: their statements have
  -- taken effect and their names have been added to schema_migrations, and nothing else has changed
  -- in either.
  pub main-Applied :
      (files : List Migration) (db : server.Db)
      → ArePlain files
      → Applied (laws.view db) (pending (laws.view db).1 files) (main server files db)
  unfolding main
  main-Applied files db plain =
      after_create-Applied files (laws.view db) (server.create_table db) plain
        (laws.create_table_keeps db)
