-- ===== src/Store/Reads.antt =====
-- What a read of the store returns, for any Redis that keeps its laws and whatever fails.
use lite_router.Prelude.{ℕ, ◌≡◌, refl, ap, ◌∙◌, String, Option, none, ◌⊎◌, inl, inr, Bool-cases}
use lite_router.Prelude.Text.{◌++◌}
use lite_router.Store.{
  Redis, Codec, Reply, reply, response_error, redis_error, Store, decode, get_without_getex,
  get_with_getex, get_and_refresh,
}
use lite_router.Store.Laws.{RedisLaws, CodecLaws}
use lite_router.Store.Sessions.{session}

module _ (redis : Redis) (codec : Codec redis) (ttl : ℕ) (prefix : String) (laws : RedisLaws redis)
    (json : CodecLaws redis codec) where
  without_getex_reads :
      (key : String) (db : redis.Db) (r : Reply (Option redis.Raw) × redis.Db)
      → ((raw : Option redis.Raw) → r.0 ≡ reply raw → raw ≡ laws.peek db (prefix ++ key))
      → ((get_without_getex redis codec ttl prefix key r).0 ≡ none)
        ⊎ ((get_without_getex redis codec ttl prefix key r).0
            ≡ session redis codec ttl prefix laws json db key)
  unfolding session
  without_getex_reads key db (reply raw, db') h = inr (ap (decode redis codec) (h raw refl))
  without_getex_reads key db (response_error, db') h = inl refl
  without_getex_reads key db (redis_error, db') h = inl refl

  with_getex_reads :
      (key : String) (db : redis.Db) (r : Reply (Option redis.Raw) × redis.Db)
      → ((raw : Option redis.Raw) → r.0 ≡ reply raw → raw ≡ laws.peek db (prefix ++ key))
      → laws.peek r.1 (prefix ++ key) ≡ laws.peek db (prefix ++ key)
      → ((get_with_getex redis codec ttl prefix key r).0 ≡ none)
        ⊎ ((get_with_getex redis codec ttl prefix key r).0
            ≡ session redis codec ttl prefix laws json db key)
  unfolding session
  with_getex_reads key db (reply raw, db') h same = inr (ap (decode redis codec) (h raw refl))
  with_getex_reads key db (redis_error, db') h same = inl refl
  with_getex_reads key db (response_error, db') h same =
      without_getex_reads key db (redis.get_expire db' (prefix ++ key) ttl)
        (λ raw e. laws.get_expire_reply db' (prefix ++ key) ttl raw e ∙ same)

  pub get_and_refresh_reads :
      (key : String) (s : Store redis)
      → ((get_and_refresh redis codec ttl prefix key s).0 ≡ none)
        ⊎ ((get_and_refresh redis codec ttl prefix key s).0
            ≡ session redis codec ttl prefix laws json s.db key)
  unfolding get_and_refresh
  get_and_refresh_reads key s = elim (Bool-cases s.getex_supported) [
    | inl e ↦ rw e (
        with_getex_reads key s.db (redis.getex s.db (prefix ++ key) ttl)
          (laws.getex_reply s.db (prefix ++ key) ttl)
          (laws.getex_keeps s.db (prefix ++ key) ttl (prefix ++ key)))
    | inr e ↦ rw e (
        without_getex_reads key s.db (redis.get_expire s.db (prefix ++ key) ttl)
          (laws.get_expire_reply s.db (prefix ++ key) ttl))
  ]
