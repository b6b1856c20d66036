-- ===== src/Store/Sessions.antt =====
-- The store as a map from session keys to records: what each method changes, for any
-- Redis that keeps its laws and whatever fails.
use text.Mathlib.TextLemmas.{append_cancel_left}
use lite_router.Prelude.{
  ℕ, ◌≡◌, refl, sym, ap, ◌∙◌, Bool, true, false, String, Option, none, some, ◌==◌, eq_iff, eq_refl,
  if◌then◌else◌, ◌⊎◌, inl, inr, Bool-cases,
}
use lite_router.Prelude.Text.{◌++◌}
use lite_router.StateMachine.{SessionRecord}
use lite_router.Store.{
  Redis, Codec, Reply, reply, response_error, redis_error, Store, claim_ttl_s, decode,
  get_without_getex, get_with_getex, get_and_refresh, claimed, claim_for_classification, write_pin,
  or_set_ex, update,
}
use lite_router.Store.Laws.{RedisLaws, CodecLaws}

prefix_eq : (p k j : String) → (p ++ k == p ++ j) ≡ (k == j)
prefix_eq p k j = elim (Bool-cases (k == j)) [
  | inl e ↦ rw ((eq_iff k j).0 e) (eq_refl (p ++ j) ∙ sym (eq_refl j))
  | inr e ↦ elim (Bool-cases (p ++ k == p ++ j)) [
    | inl f ↦
        rw (append_cancel_left p k j ((eq_iff (p ++ k) (p ++ j)).0 f))
          (eq_refl (p ++ j) ∙ sym (eq_refl j))
    | inr f ↦ f ∙ sym e
  ]
]

decode-if :
    (redis : Redis) (codec : Codec redis) (json : CodecLaws redis codec) (b : Bool)
    (r : SessionRecord) (o : Option redis.Raw)
    → decode redis codec (if b then some (codec.dumps r) else o)
      ≡ (if b then some r else decode redis codec o)
decode-if redis codec json true r o = rw (json.dumps-nonempty r) (json.loads-dumps r)
decode-if redis codec json false r o = refl

reply_of_claimed : (r : Reply Bool) → claimed r ≡ true → r ≡ reply true
reply_of_claimed (reply b) h = rw h
reply_of_claimed response_error h = cc
reply_of_claimed redis_error h = cc

-- two writes of one record in a row are one write, and so is a write with one that did nothing
write_twice :
    (b : Bool) (r : SessionRecord) (o : Option SessionRecord)
    → (if b then some r else (if b then some r else o)) ≡ (if b then some r else o)
write_twice true r o = refl
write_twice false r o = refl

module _ (redis : Redis) (codec : Codec redis) (ttl : ℕ) (prefix : String) (laws : RedisLaws redis)
    (json : CodecLaws redis codec) where
  -- The record that a session has now.
  unfoldable pub session : redis.Db → String → Option SessionRecord
  session db key = decode redis codec (laws.peek db (prefix ++ key))

  -- nothing changed, for any session
  abbrev pub Same : redis.Db → redis.Db → Type 0
  Same db db' = (j : String) → session db' j ≡ session db j

  -- one session was given a record, and no other changed
  abbrev pub Wrote : redis.Db → redis.Db → String → SessionRecord → Type 0
  Wrote db db' key r = (j : String) → session db' j ≡ (if key == j then some r else session db j)

  session_of_peek :
      (db db' : redis.Db) (j : String)
      → laws.peek db' (prefix ++ j) ≡ laws.peek db (prefix ++ j)
      → session db' j ≡ session db j
  unfolding session
  session_of_peek db db' j h = rw h

  Wrote-of_peek :
      (db db' : redis.Db) (key : String) (r : SessionRecord)
      → ((j : String)
          → laws.peek db' j ≡ (if prefix ++ key == j then some (codec.dumps r) else laws.peek db j))
      → Wrote db db' key r
  unfolding session
  Wrote-of_peek db db' key r h j =
      rw (h (prefix ++ j), prefix_eq prefix key j)
        (decode-if redis codec json (key == j) r (laws.peek db (prefix ++ j)))

  without_getex-Same :
      (db : redis.Db) (key : String) (r : Reply (Option redis.Raw) × redis.Db)
      → Same db r.1
      → Same db (get_without_getex redis codec ttl prefix key r).1.db
  without_getex-Same db key (r, db') h = h

  with_getex-Same :
      (db : redis.Db) (key : String) (r : Reply (Option redis.Raw) × redis.Db)
      → Same db r.1
      → Same db (get_with_getex redis codec ttl prefix key r).1.db
  with_getex-Same db key (reply raw, db') h = h
  with_getex-Same db key (response_error, db') h = λ j.
      session_of_peek db' (redis.get_expire db' (prefix ++ key) ttl).1 j
        (laws.get_expire_keeps db' (prefix ++ key) ttl (prefix ++ j))
      ∙ h j
  with_getex-Same db key (redis_error, db') h = h

  -- Reading a session changes no session, whatever fails.
  pub get_and_refresh-Same :
      (key : String) (s : Store redis)
      → Same s.db (get_and_refresh redis codec ttl prefix key s).1.db
  unfolding get_and_refresh
  get_and_refresh-Same key s = elim (Bool-cases s.getex_supported) [
    | inl e ↦ rw e (
        with_getex-Same s.db key (redis.getex s.db (prefix ++ key) ttl)
          (λ j. session_of_peek _ _ j (laws.getex_keeps s.db (prefix ++ key) ttl (prefix ++ j))))
    | inr e ↦ rw e (
        without_getex-Same s.db key (redis.get_expire s.db (prefix ++ key) ttl) (λ j.
          session_of_peek _ _ j (laws.get_expire_keeps s.db (prefix ++ key) ttl (prefix ++ j))))
  ]

  decode-unless :
      (b : Bool) (o : Option redis.Raw)
      → decode redis codec (if b then none else o) ≡ (if b then none else decode redis codec o)
  decode-unless true o = refl
  decode-unless false o = refl

  -- The server drops the record of one session.
  pub expire-session :
      (key : String) (db : redis.Db) (j : String)
      → session (redis.expire db (prefix ++ key)) j ≡ (if key == j then none else session db j)
  unfolding session
  expire-session key db j =
      rw (laws.expire_effect db (prefix ++ key) (prefix ++ j), prefix_eq prefix key j)
        (decode-unless (key == j) (laws.peek db (prefix ++ j)))

  -- A claim that is won found no session.
  pub claim-none :
      (key : String) (placeholder : SessionRecord) (s : Store redis)
      → (claim_for_classification redis codec ttl prefix key placeholder s).0 ≡ true
      → session s.db key ≡ none
  unfolding claim_for_classification session
  claim-none key placeholder s h = ap (decode redis codec) (
      laws.set_nx_true s.db (prefix ++ key) (codec.dumps placeholder) claim_ttl_s
        (reply_of_claimed _ h))

  -- A claim that is won has written its placeholder.
  pub claim-there :
      (key : String) (placeholder : SessionRecord) (s : Store redis)
      → (claim_for_classification redis codec ttl prefix key placeholder s).0 ≡ true
      → session (claim_for_classification redis codec ttl prefix key placeholder s).1.db key
        ≡ some placeholder
  unfolding claim_for_classification session
  claim-there key placeholder s h =
      ap (decode redis codec) (
        laws.set_nx_there s.db (prefix ++ key) (codec.dumps placeholder) claim_ttl_s
          (reply_of_claimed _ h))
      ∙ decode-if redis codec json true placeholder none

  -- A claim, won or not, leaves every session as it was, or writes its placeholder where there was
  -- none.
  pub claim-Wrote :
      (key : String) (placeholder : SessionRecord) (s : Store redis)
      → Same s.db (claim_for_classification redis codec ttl prefix key placeholder s).1.db
        ⊎ ((session s.db key ≡ none)
            × Wrote s.db
                (claim_for_classification redis codec ttl prefix key placeholder s).1.db
                key
                placeholder)
  unfolding claim_for_classification
  claim-Wrote key placeholder s =
      elim (laws.set_nx_effect s.db (prefix ++ key) (codec.dumps placeholder) claim_ttl_s) [
        | inl same ↦ inl (λ j. session_of_peek _ _ j (same (prefix ++ j)))
        | inr (absent, wrote) ↦
            inr (unfold session in rw absent, Wrote-of_peek _ _ key placeholder wrote)
      ]

  -- `write_pin` writes its session or nothing.
  pub write_pin-Wrote :
      (key : String) (r : SessionRecord) (s : Store redis)
      → Same s.db (write_pin redis codec ttl prefix key r s).db
        ⊎ Wrote s.db (write_pin redis codec ttl prefix key r s).db key r
  unfolding write_pin
  write_pin-Wrote key r s = elim (laws.set_ex_effect s.db (prefix ++ key) (codec.dumps r) ttl) [
    | inl same ↦ inl (λ j. session_of_peek _ _ j (same (prefix ++ j)))
    | inr wrote ↦ inr (Wrote-of_peek _ _ key r wrote)
  ]

  set_ex-Wrote :
      (key : String) (r : SessionRecord) (db : redis.Db)
      → Same db (redis.set_ex db (prefix ++ key) (codec.dumps r) ttl).1
        ⊎ Wrote db (redis.set_ex db (prefix ++ key) (codec.dumps r) ttl).1 key r
  set_ex-Wrote key r db = elim (laws.set_ex_effect db (prefix ++ key) (codec.dumps r) ttl) [
    | inl same ↦ inl (λ j. session_of_peek _ _ j (same (prefix ++ j)))
    | inr wrote ↦ inr (Wrote-of_peek _ _ key r wrote)
  ]

  or_set_ex-Wrote :
      (key : String) (r : SessionRecord) (answer : Reply Bool) (db db' : redis.Db)
      → Same db db' ⊎ Wrote db db' key r
      → Same db (or_set_ex redis codec ttl prefix key r answer db')
        ⊎ Wrote db (or_set_ex redis codec ttl prefix key r answer db') key r
  or_set_ex-Wrote key r (reply b) db db' h = h
  or_set_ex-Wrote key r redis_error db db' h = h
  or_set_ex-Wrote key r response_error db db' (inl same) = elim (set_ex-Wrote key r db') [
    | inl same' ↦ inl (λ j. same' j ∙ same j)
    | inr wrote ↦ inr (λ j. rw (← same j) (wrote j))
  ]
  or_set_ex-Wrote key r response_error db db' (inr wrote) = elim (set_ex-Wrote key r db') [
    | inl same' ↦ inr (λ j. same' j ∙ wrote j)
    | inr again ↦ inr (λ j.
        again j
        ∙ ap (λ o. if key == j then some r else o) (wrote j)
        ∙ write_twice (key == j) r (session db j))
  ]

  -- `update` writes its session or nothing, also where it falls back from KEEPTTL.
  pub update-Wrote :
      (key : String) (r : SessionRecord) (s : Store redis)
      → Same s.db (update redis codec ttl prefix key r s).db
        ⊎ Wrote s.db (update redis codec ttl prefix key r s).db key r
  unfolding update
  update-Wrote key r s =
      or_set_ex-Wrote key r (redis.set_keepttl s.db (prefix ++ key) (codec.dumps r)).0 s.db
        (redis.set_keepttl s.db (prefix ++ key) (codec.dumps r)).1
        (elim (laws.set_keepttl_effect s.db (prefix ++ key) (codec.dumps r)) [
          | inl same ↦ inl (λ j. session_of_peek _ _ j (same (prefix ++ j)))
          | inr wrote ↦ inr (Wrote-of_peek _ _ key r wrote)
        ])
