-- ===== src/Tests/Migrations.antt =====
-- Two migrations on a database in memory, of which one has been applied.
use lite_router.Prelude.{
  ◌≡◌, refl, Bool, true, false, String, Option, some, List, [], ◌∷◌, ◌++◌, any, ◌==◌, inl,
}
use lite_router.Migrate.{Migration, Server, main}
use lite_router.Migrate.Laws.{View, ServerLaws, pending}
use lite_router.Migrate.Applies.{Applied, main-Applied}

-- a database that keeps what a block does if the block returns
abbrev kept_if : View → Bool × View → Bool × View
kept_if before (true, after) = (true, after)
kept_if before (false, after) = (false, before)

abbrev memory : Server
memory = record {
  Db = View;
  create_table = λ db. (true, db);
  fetch = λ db. (some db.1, db);
  execute = λ sql db. (true, (db.0 ++ sql ∷ [], db.1));
  insert = λ name db. (true, (db.0, db.1 ++ name ∷ []));
  transaction = λ body db. kept_if db (body db);
}

same_rows :
    {x y : List String} (name : String)
    → Path (Option (List String)) (some x) (some y)
    → any (λ row. row == name) y ≡ any (λ row. row == name) x
same_rows name h = cc

kept_if-true :
    (before : View) (x : Bool × View)
    → (kept_if before x).0 ≡ true
    → (x.0 ≡ true) × ((kept_if before x).1 ≡ x.1)
kept_if-true before (true, after) h = (refl, refl)
kept_if-true before (false, after) h = cc

kept_if-false :
    (before : View) (x : Bool × View) → (kept_if before x).0 ≡ false → (kept_if before x).1 ≡ before
kept_if-false before (true, after) h = cc
kept_if-false before (false, after) h = refl

abbrev memory_laws : ServerLaws memory
memory_laws = record {
  view = λ db. db;
  IsPlain = λ sql. Unit;
  create_table_keeps = λ db. refl;
  fetch_keeps = λ db. refl;
  fetch_rows = λ db applied name h. same_rows name h;
  execute_returns = λ sql db plain h. refl;
  insert_returns = λ name db h. refl;
  transaction_returns =
      λ body db h. let (ran, same) = kept_if-true db (body db) h in (db, refl, ran, same);
  transaction_raises = λ body db h. inl (kept_if-false db (body db) h);
}

abbrev first : Migration
first = record { name = "001_init.sql"; sql = "CREATE TABLE router_decisions ()"; readable = true }

abbrev second : Migration
second = record {
  name = "002_agents.sql";
  sql = "ALTER TABLE router_decisions ADD agent_id text";
  readable = true;
}

-- the first file has been applied
abbrev before : View
before = (first.sql ∷ [], first.name ∷ [])

main-Applied_example :
    Applied memory memory_laws before
      (pending ("001_init.sql" ∷ []) (first ∷ second ∷ []))
      (main memory (first ∷ second ∷ []) before)
main-Applied_example = main-Applied memory memory_laws (first ∷ second ∷ []) before (tt, (tt, tt))

returns :
    main memory (first ∷ second ∷ []) before
    ≡ (true, (first.sql ∷ second.sql ∷ [], first.name ∷ second.name ∷ []))
unfolding main
returns = refl
