-- ===== src/Store/Memory.antt =====
-- A Redis that never fails, with the records themselves for texts and no clock: it keeps the laws
-- of Store/Laws.antt, and tests run on it.
use lite_router.Prelude.{
  ◌≡◌, refl, Bool, true, false, String, Option, none, some, List, ◌==◌, eq_refl, ◌∙◌, if◌then◌else◌,
  ◌⊎◌, inl, inr,
}
use lite_router.Prelude.Dict.{lookup, insert, remove, lookup-insert, lookup-remove}
use lite_router.StateMachine.{SessionRecord}
use lite_router.Store.{Redis, Codec, Reply, reply}
use lite_router.Store.Laws.{RedisLaws, CodecLaws}

abbrev Table : Type 0
Table = List (String × SessionRecord)

abbrev set_new : Table → String → SessionRecord → Option SessionRecord → Reply Bool × Table
set_new db k v none = (reply true, insert k v db)
set_new db k v (some old) = (reply false, db)

abbrev pub memory : Redis
memory = record {
  Db = Table;
  Raw = SessionRecord;
  nonempty = λ r. true;
  getex = λ db k ttl. (reply (lookup k db), db);
  get_expire = λ db k ttl. (reply (lookup k db), db);
  set_nx = λ db k v ttl. set_new db k v (lookup k db);
  set_ex = λ db k v ttl. (reply true, insert k v db);
  set_keepttl = λ db k v. (reply true, insert k v db);
  expire = λ db k. remove k db;
}

abbrev pub memory_codec : Codec memory
memory_codec = record { dumps = λ r. r; loads = λ r. some r }

pub same_reply : {A : Type 0} {a b : A} → reply a ≡ reply b → b ≡ a
same_reply h = cc

pub set_new-effect :
    (db : Table) (k : String) (v : SessionRecord) (found : Option SessionRecord)
    → lookup k db ≡ found
    → ((j : String) → lookup j (set_new db k v found).1 ≡ lookup j db)
      ⊎ ((lookup k db ≡ none)
          × ((j : String)
              → lookup j (set_new db k v found).1 ≡ (if k == j then some v else lookup j db)))
set_new-effect db k v none h = inr (h, λ j. lookup-insert k j v db)
set_new-effect db k v (some old) h = inl λ j. refl

pub set_new-true :
    (db : Table) (k : String) (v : SessionRecord) (found : Option SessionRecord)
    → (set_new db k v found).0 ≡ reply true
    → found ≡ none
set_new-true db k v none h = refl
set_new-true db k v (some old) h = cc

pub lookup-insert_self :
    (k : String) (v : SessionRecord) (db : Table) → lookup k (insert k v db) ≡ some v
lookup-insert_self k v db = lookup-insert k k v db ∙ rw (eq_refl k) refl

pub set_new-there :
    (db : Table) (k : String) (v : SessionRecord) (found : Option SessionRecord)
    → (set_new db k v found).0 ≡ reply true
    → lookup k (set_new db k v found).1 ≡ some v
set_new-there db k v none h = lookup-insert_self k v db
set_new-there db k v (some old) h = cc

abbrev pub memory_laws : RedisLaws memory
memory_laws = record {
  peek = λ db k. lookup k db;
  getex_keeps = λ db k ttl j. refl;
  getex_reply = λ db k ttl raw h. same_reply h;
  get_expire_keeps = λ db k ttl j. refl;
  get_expire_reply = λ db k ttl raw h. same_reply h;
  set_nx_effect = λ db k v ttl. set_new-effect db k v (lookup k db) refl;
  set_nx_true = λ db k v ttl h. set_new-true db k v (lookup k db) h;
  set_nx_there = λ db k v ttl h. set_new-there db k v (lookup k db) h;
  set_ex_effect = λ db k v ttl. inr λ j. lookup-insert k j v db;
  set_ex_reply = λ db k v ttl b h. lookup-insert_self k v db;
  set_keepttl_effect = λ db k v. inr λ j. lookup-insert k j v db;
  expire_effect = λ db k j. lookup-remove k j db;
  set_keepttl_reply = λ db k v b h. lookup-insert_self k v db;
}

abbrev pub memory_json : CodecLaws memory memory_codec
memory_json = record { loads-dumps = λ r. refl; dumps-nonempty = λ r. refl }
