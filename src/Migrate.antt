-- ===== src/Migrate.antt =====
-- scripts/migrate.py: the migrations are applied in the order of their names, each in a transaction
-- with its row in schema_migrations. Postgres and its driver are the parameter `Server`; the list of
-- files is what `sorted(MIGRATIONS_DIR.glob("*.sql"))` gives.
pub mod Laws
pub mod Applies
pub mod Again
use lite_router.Prelude.{
  Bool, true, false, not, ◌||◌, Option, none, some, String, List, [], ◌∷◌, any, ◌==◌, if◌then◌else◌,
}

-- a file: its name, its text, and whether reading it returns
pub record Migration : Type 0 where
  pub name : String
  pub sql : String
  pub readable : Bool

-- A connection, on the state of the database: whether the call returned, or raised.
pub record Server : Type 1 where
  pub Db : Type 0
  -- CREATE TABLE IF NOT EXISTS schema_migrations
  pub create_table : Db → Bool × Db
  -- SELECT filename FROM schema_migrations
  pub fetch : Db → Option (List String) × Db
  -- `conn.execute` of a text of statements
  pub execute : String → Db → Bool × Db
  -- INSERT INTO schema_migrations of a name
  pub insert : String → Db → Bool × Db
  -- `async with conn.transaction()` around a block
  pub transaction : (Db → Bool × Db) → Db → Bool × Db

-- `path.name in applied`
abbrev pub is_applied : List String → Migration → Bool
is_applied applied file = any (λ name. name == file.name) applied

module _ (server : Server) where
  -- what follows a call, if that returned
  abbrev pub go_on : (server.Db → Bool × server.Db) → Bool × server.Db → Bool × server.Db
  go_on rest (false, db) = (false, db)
  go_on rest (true, db) = rest db

  -- the block in the transaction
  abbrev pub block : Migration → server.Db → Bool × server.Db
  block file db = go_on (server.insert file.name) (server.execute file.sql db)

  -- a file that has no row, and the rest of the loop
  abbrev pub after_file : Migration → (server.Db → Bool × server.Db) → server.Db → Bool × server.Db
  after_file file rest db =
      if file.readable then go_on rest (server.transaction (block file) db) else (false, db)

  -- the loop over the files
  unfoldable pub apply_all : List String → List Migration → server.Db → Bool × server.Db
  apply_all applied [] db = (true, db)
  apply_all applied (file ∷ files) db =
      if is_applied applied file
      then apply_all applied files db
      else after_file file (apply_all applied files) db

  abbrev pub after_fetch : List Migration → Option (List String) × server.Db → Bool × server.Db
  after_fetch files (none, db) = (false, db)
  after_fetch files (some applied, db) = apply_all applied files db

  abbrev pub after_create : List Migration → Bool × server.Db → Bool × server.Db
  after_create files (false, db) = (false, db)
  after_create files (true, db) = after_fetch files (server.fetch db)

  -- whether it returned
  unfoldable pub main : List Migration → server.Db → Bool × server.Db
  unfolding apply_all
  main files db = after_create files (server.create_table db)
