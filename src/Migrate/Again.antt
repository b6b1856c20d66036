-- ===== src/Migrate/Again.antt =====
-- A second run of scripts/migrate.py on the same files.
use mathlib.Core.Path.{subst⁻¹}
use lite_router.Prelude.{
  ◌≡◌, refl, ap, ◌∙◌, true, false, ◌||◌, String, List, [], ◌∷◌, ◌++◌, map, All, eq_refl, inl, inr,
  arith, Bool-cases,
}
use lite_router.Migrate.{Migration, Server, is_applied, main}
use lite_router.Migrate.Laws.{View, ServerLaws, pending, Front, front_none, front_more, grown-nil}
use lite_router.Migrate.Applies.{ArePlain, main-Applied}

is_applied-append :
    (a b : List String) (file : Migration)
    → is_applied (a ++ b) file ≡ (is_applied a file || is_applied b file)
is_applied-append [] b file = refl
is_applied-append (name ∷ a) b file = ground (arith, is_applied-append a b file)

abbrev Covered : List String → List Migration → Type 0
Covered applied files = All (λ file. is_applied applied file ≡ true) files

Covered-more :
    (a b : List String) (name : String) (files : List Migration)
    → Covered (a ++ b) files
    → Covered (a ++ name ∷ b) files
Covered-more a b name [] c = tt
Covered-more a b name (file ∷ files) (h, c) = (
  is_applied-append a (name ∷ b) file ∙ ground (arith, is_applied-append a b file, h),
  Covered-more a b name files c,
)

pending-applied :
    (applied : List String) (file : Migration) (files : List Migration)
    → is_applied applied file ≡ true
    → pending applied (file ∷ files) ≡ pending applied files
unfolding pending
pending-applied applied file files e = rw e refl

pending-new :
    (applied : List String) (file : Migration) (files : List Migration)
    → is_applied applied file ≡ false
    → pending applied (file ∷ files) ≡ file ∷ pending applied files
unfolding pending
pending-new applied file files e = rw e refl

abbrev names : List Migration → List String
names files = map (λ file. file.name) files

abbrev Still : List String → List Migration → List Migration → Type 0
Still applied files rest = Covered (applied ++ names rest) files

-- the files with a row and the pending ones together are all files
pending-covers :
    (applied : List String) (files : List Migration)
    → Covered (applied ++ names (pending applied files)) files
pending-covers applied [] = tt
pending-covers applied (file ∷ files) = elim (Bool-cases (is_applied applied file)) [
  | inl e ↦ subst⁻¹ (Still applied (file ∷ files)) (pending-applied applied file files e) (
    is_applied-append applied (names (pending applied files)) file ∙ rw e refl,
    pending-covers applied files,
  )
  | inr e ↦ subst⁻¹ (Still applied (file ∷ files)) (pending-new applied file files e) (
    is_applied-append applied (file.name ∷ names (pending applied files)) file
        ∙ ground (arith, eq_refl file.name),
    Covered-more applied (names (pending applied files)) file.name files
        (pending-covers applied files),
  )
]

pending_of_Covered :
    (applied : List String) (files : List Migration)
    → Covered applied files
    → pending applied files ≡ []
unfolding pending
pending_of_Covered applied [] c = refl
pending_of_Covered applied (file ∷ files) (h, c) = rw h (pending_of_Covered applied files c)

Front-nil : (front whole : List Migration) → Front front whole → whole ≡ [] → front ≡ []
Front-nil front whole front_none e = refl
Front-nil front whole (front_more f) e = cc

module _ (server : Server) (laws : ServerLaws server) where
  none_left :
      (files : List Migration) (db : server.Db)
      → ArePlain server laws files
      → (main server files db).0 ≡ true
      → pending (laws.view (main server files db).1).1 files ≡ []
  none_left files db plain returned =
      let first = main-Applied server laws files db plain in
      pending_of_Covered (laws.view (main server files db).1).1 files (
        rw (ap (λ (v : View). v.1) first.applied, first.all_applied returned)
          (pending-covers (laws.view db).1 files))

  -- A second run applies nothing: after a run that returned, another one of the same files, whether
  -- it returns or fails, leaves what has been applied as it is.
  main-again :
      (files : List Migration) (db : server.Db)
      → ArePlain server laws files
      → (main server files db).0 ≡ true
      → laws.view (main server files (main server files db).1).1
        ≡ laws.view (main server files db).1
  main-again files db plain returned =
      let second = main-Applied server laws files (main server files db).1 plain in
      second.applied
      ∙ rw (Front-nil second.front _ second.in_order (none_left files db plain returned))
          (grown-nil (laws.view (main server files db).1))
