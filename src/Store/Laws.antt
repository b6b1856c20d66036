-- ===== src/Store/Laws.antt =====
-- What the router relies on of Redis and of `json`: the documented effect of each command on the
-- texts that stand under the keys, whatever the reply. A command whose reply is lost may have been
-- carried out or not.
use lite_router.Prelude.{ℕ, ◌≡◌, Bool, true, String, Option, none, some, ◌==◌, if◌then◌else◌, ◌⊎◌}
use lite_router.StateMachine.{SessionRecord}
use lite_router.Store.{Redis, Codec, reply}

pub record RedisLaws (redis : Redis) : Type 0 where
  -- the text under a key, if there is one that has not expired
  pub peek : redis.Db → String → Option redis.Raw
  -- reading changes no text, and a reply has the text under the key
  pub getex_keeps :
      (db : redis.Db) (k : String) (ttl : ℕ) (j : String)
      → peek (redis.getex db k ttl).1 j ≡ peek db j
  pub getex_reply :
      (db : redis.Db) (k : String) (ttl : ℕ) (raw : Option redis.Raw)
      → (redis.getex db k ttl).0 ≡ reply raw
      → raw ≡ peek db k
  pub get_expire_keeps :
      (db : redis.Db) (k : String) (ttl : ℕ) (j : String)
      → peek (redis.get_expire db k ttl).1 j ≡ peek db j
  pub get_expire_reply :
      (db : redis.Db) (k : String) (ttl : ℕ) (raw : Option redis.Raw)
      → (redis.get_expire db k ttl).0 ≡ reply raw
      → raw ≡ peek db k
  -- SET NX writes only where there was no text, and says so truthfully
  pub set_nx_effect :
      (db : redis.Db) (k : String) (v : redis.Raw) (ttl : ℕ)
      → ((j : String) → peek (redis.set_nx db k v ttl).1 j ≡ peek db j)
        ⊎ ((peek db k ≡ none)
            × ((j : String)
                → peek (redis.set_nx db k v ttl).1 j ≡ (if k == j then some v else peek db j)))
  pub set_nx_true :
      (db : redis.Db) (k : String) (v : redis.Raw) (ttl : ℕ)
      → (redis.set_nx db k v ttl).0 ≡ reply true
      → peek db k ≡ none
  pub set_nx_there :
      (db : redis.Db) (k : String) (v : redis.Raw) (ttl : ℕ)
      → (redis.set_nx db k v ttl).0 ≡ reply true
      → peek (redis.set_nx db k v ttl).1 k ≡ some v
  -- a write changes the text under its key or nothing, and has been made if it was confirmed
  pub set_ex_effect :
      (db : redis.Db) (k : String) (v : redis.Raw) (ttl : ℕ)
      → ((j : String) → peek (redis.set_ex db k v ttl).1 j ≡ peek db j)
        ⊎ ((j : String)
            → peek (redis.set_ex db k v ttl).1 j ≡ (if k == j then some v else peek db j))
  pub set_ex_reply :
      (db : redis.Db) (k : String) (v : redis.Raw) (ttl : ℕ) (b : Bool)
      → (redis.set_ex db k v ttl).0 ≡ reply b
      → peek (redis.set_ex db k v ttl).1 k ≡ some v
  pub set_keepttl_effect :
      (db : redis.Db) (k : String) (v : redis.Raw)
      → ((j : String) → peek (redis.set_keepttl db k v).1 j ≡ peek db j)
        ⊎ ((j : String)
            → peek (redis.set_keepttl db k v).1 j ≡ (if k == j then some v else peek db j))
  pub expire_effect :
      (db : redis.Db) (k : String) (j : String)
      → peek (redis.expire db k) j ≡ (if k == j then none else peek db j)
  pub set_keepttl_reply :
      (db : redis.Db) (k : String) (v : redis.Raw) (b : Bool)
      → (redis.set_keepttl db k v).0 ≡ reply b
      → peek (redis.set_keepttl db k v).1 k ≡ some v

-- `json.loads` reads back what `json.dumps` wrote, which is never the empty text.
pub record CodecLaws (redis : Redis) (codec : Codec redis) : Type 0 where
  pub loads-dumps : (r : SessionRecord) → codec.loads (codec.dumps r) ≡ some r
  pub dumps-nonempty : (r : SessionRecord) → redis.nonempty (codec.dumps r) ≡ true
