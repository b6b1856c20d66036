-- ===== src/Migrate/Laws.antt =====
-- What scripts/migrate.py relies on of Postgres and asyncpg, and the files that a run is to apply.
use mathlib.Core.List.{append_assoc, append-nil}
use lite_router.Prelude.{
  ◌≡◌, refl, Bool, true, false, some, String, List, [], ◌∷◌, ◌++◌, map, any, ◌==◌, if◌then◌else◌,
  ◌⊎◌,
}
use lite_router.Migrate.{Migration, Server, is_applied}

-- the texts whose statements have taken effect, and the names in schema_migrations
abbrev pub View : Type 0
View = List String × List String

-- What the script relies on of Postgres, and of asyncpg's `transaction`: it commits what a block does
-- that returns, and rolls back one that raises; where the commit itself raises, either may have
-- happened. A text is plain if its statements neither end the transaction nor touch
-- schema_migrations.
pub record ServerLaws (server : Server) : Type 1 where
  pub view : server.Db → View
  pub IsPlain : String → Type 0
  pub create_table_keeps : (db : server.Db) → view (server.create_table db).1 ≡ view db
  pub fetch_keeps : (db : server.Db) → view (server.fetch db).1 ≡ view db
  -- the names come in any order
  pub fetch_rows :
      (db : server.Db) (applied : List String) (name : String)
      → (server.fetch db).0 ≡ some applied
      → any (λ row. row == name) applied ≡ any (λ row. row == name) (view db).1
  pub execute_returns :
      (sql : String) (db : server.Db)
      → IsPlain sql
      → (server.execute sql db).0 ≡ true
      → view (server.execute sql db).1 ≡ ((view db).0 ++ sql ∷ [], (view db).1)
  pub insert_returns :
      (name : String) (db : server.Db)
      → (server.insert name db).0 ≡ true
      → view (server.insert name db).1 ≡ ((view db).0, (view db).1 ++ name ∷ [])
  pub transaction_returns :
      (body : server.Db → Bool × server.Db) (db : server.Db)
      → (server.transaction body db).0 ≡ true
      → (begun : server.Db) × (view begun ≡ view db)
        × ((body begun).0 ≡ true)
        × (view (server.transaction body db).1 ≡ view (body begun).1)
  pub transaction_raises :
      (body : server.Db → Bool × server.Db) (db : server.Db)
      → (server.transaction body db).0 ≡ false
      → (view (server.transaction body db).1 ≡ view db)
        ⊎ ((begun : server.Db) × (view begun ≡ view db)
            × ((body begun).0 ≡ true)
            × (view (server.transaction body db).1 ≡ view (body begun).1))

-- the files that have no row
unfoldable pub pending : List String → List Migration → List Migration
pending applied [] = []
pending applied (file ∷ files) =
    let rest = pending applied files in if is_applied applied file then rest else file ∷ rest

-- `front` is an initial part of `whole`
pub data Front : List Migration → List Migration → Type 0 where
  front_none : {whole : List Migration} → Front [] whole
  front_more :
      {file : Migration} {front whole : List Migration}
      → Front front whole
      → Front (file ∷ front) (file ∷ whole)

pub Front-all : (l : List Migration) → Front l l
Front-all [] = front_none
Front-all (file ∷ l) = front_more (Front-all l)

-- the same tests of names give the same files
pub pending_same :
    (a b : List String) (files : List Migration)
    → ((name : String) → any (λ row. row == name) a ≡ any (λ row. row == name) b)
    → pending a files ≡ pending b files
unfolding pending
pending_same a b [] h = refl
pending_same a b (file ∷ files) h = rw (h file.name, pending_same a b files h) refl

-- a view with the texts and the names of some more files
abbrev pub grown : View → List Migration → View
grown v files = (v.0 ++ map (λ file. file.sql) files, v.1 ++ map (λ file. file.name) files)

pub grown-nil : (v : View) → grown v [] ≡ v
grown-nil v = rw (append-nil v.0, append-nil v.1) refl

pub grown-cons :
    (v : View) (file : Migration) (files : List Migration)
    → grown (grown v (file ∷ [])) files ≡ grown v (file ∷ files)
grown-cons v file files =
    rw
      (
        append_assoc v.0 (file.sql ∷ []) (map (λ file. file.sql) files),
        append_assoc v.1 (file.name ∷ []) (map (λ file. file.name) files),
      )
      refl
