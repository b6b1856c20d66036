-- ===== src/Store.antt =====
-- packages/session-router/src/session_router/session_store.py: session records in Redis. The Redis
-- server and its client are the parameter `Redis`, and `json` is the parameter `Codec`; what the
-- router relies on is in `Store.Laws`.
pub mod Laws
pub mod Memory
pub mod Sessions
pub mod Reads
pub mod Runs
use lite_router.Prelude.{ℕ, Bool, true, false, String, Option, none, some, if◌then◌else◌, get_or}
use lite_router.Prelude.Text
use lite_router.Prelude.Text.{◌++◌}
use lite_router.Policies.{PoliciesConfig, SessionConfig}
use lite_router.StateMachine.{SessionRecord}

-- The reply of a command, or the exception of the client: `ResponseError` apart from the others.
pub data Reply {ℓ} (A : Type ℓ) : Type ℓ where
  reply : A → Reply A
  response_error : Reply A
  redis_error : Reply A

-- The commands that the store sends, on the state of the server. The last argument of a command
-- that expires a key is its time to live in seconds.
pub record Redis : Type 1 where
  pub Db : Type 0
  -- the texts that the server stores, and `bool` of one
  pub Raw : Type 0
  pub nonempty : Raw → Bool
  pub getex : Db → String → ℕ → Reply (Option Raw) × Db
  -- GET and EXPIRE in one pipeline, with the reply of the GET
  pub get_expire : Db → String → ℕ → Reply (Option Raw) × Db
  -- SET NX EX: whether the key was set
  pub set_nx : Db → String → Raw → ℕ → Reply Bool × Db
  pub set_ex : Db → String → Raw → ℕ → Reply Bool × Db
  pub set_keepttl : Db → String → Raw → Reply Bool × Db
  -- what the server does when the time of a key is over
  pub expire : Db → String → Db

-- `json.dumps` of a record, and `json.loads` of a text, none where it raises
pub record Codec (redis : Redis) : Type 0 where
  pub dumps : SessionRecord → redis.Raw
  pub loads : redis.Raw → Option SessionRecord

abbrev pub claim_ttl_s : ℕ
claim_ttl_s = 30

-- The arguments of `SessionStore`, where `none` and 0 or "" give way to the policies.
pub record Settings : Type 0 where
  pub ttl_seconds : Option ℕ
  pub key_prefix : Option String

abbrev or_ttl : Option ℕ → ℕ → ℕ
or_ttl none d = d
or_ttl (some ℕ.zero) d = d
or_ttl (some (ℕ.suc n)) d = ℕ.suc n

abbrev or_prefix : Option String → String → String
or_prefix none d = d
or_prefix (some s) d = if Text.nonempty s then s else d

-- `_params`
abbrev pub ttl_of : Settings → SessionConfig → ℕ
ttl_of settings session = or_ttl settings.ttl_seconds session.ttl_seconds

abbrev pub prefix_of : Settings → SessionConfig → String
prefix_of settings session = or_prefix settings.key_prefix session.redis_key_prefix

-- The state of a store: the server, and `_getex_supported`.
pub record Store (redis : Redis) : Type 0 where
  pub db : redis.Db
  pub getex_supported : Bool

-- `json.loads(raw) if raw else None`, with the handler of JSONDecodeError
abbrev pub decode : (redis : Redis) → Codec redis → Option redis.Raw → Option SessionRecord
decode redis codec none = none
decode redis codec (some raw) = if redis.nonempty raw then codec.loads raw else none

-- the reply of a read, under the handler of RedisError
abbrev pub decode_reply :
    (redis : Redis) → Codec redis → Reply (Option redis.Raw) → Option SessionRecord
decode_reply redis codec (reply raw) = decode redis codec raw
decode_reply redis codec response_error = none
decode_reply redis codec redis_error = none

-- `bool(reply)`, with the handler
abbrev pub claimed : Reply Bool → Bool
claimed (reply set) = set
claimed response_error = false
claimed redis_error = false

module _ (redis : Redis) (codec : Codec redis) (ttl : ℕ) (prefix : String) where
  -- the branch without GETEX
  abbrev pub get_without_getex :
      String → Reply (Option redis.Raw) × redis.Db → Option SessionRecord × Store redis
  get_without_getex key (r, db) =
      (decode_reply redis codec r, record { db = db; getex_supported = false })

  -- the branch with GETEX, by its reply
  abbrev pub get_with_getex :
      String → Reply (Option redis.Raw) × redis.Db → Option SessionRecord × Store redis
  get_with_getex key (reply raw, db) =
      (decode redis codec raw, record { db = db; getex_supported = true })
  get_with_getex key (response_error, db) =
      get_without_getex key (redis.get_expire db (prefix ++ key) ttl)
  get_with_getex key (redis_error, db) = (none, record { db = db; getex_supported = true })

  unfoldable pub get_and_refresh : String → Store redis → Option SessionRecord × Store redis
  get_and_refresh key s =
      if s.getex_supported
      then get_with_getex key (redis.getex s.db (prefix ++ key) ttl)
      else get_without_getex key (redis.get_expire s.db (prefix ++ key) ttl)

  unfoldable pub claim_for_classification :
      String → SessionRecord → Store redis → Bool × Store redis
  claim_for_classification key placeholder s =
      let (r, db) = redis.set_nx s.db (prefix ++ key) (codec.dumps placeholder) claim_ttl_s in
      (claimed r, record s { db = db })

  unfoldable pub write_pin : String → SessionRecord → Store redis → Store redis
  write_pin key r s =
      let (_, db) = redis.set_ex s.db (prefix ++ key) (codec.dumps r) ttl in record s { db = db }

  -- after SET KEEPTTL, the handler of its ResponseError
  abbrev pub or_set_ex : String → SessionRecord → Reply Bool → redis.Db → redis.Db
  or_set_ex key r (reply b) db = db
  or_set_ex key r response_error db = (redis.set_ex db (prefix ++ key) (codec.dumps r) ttl).1
  or_set_ex key r redis_error db = db

  unfoldable pub update : String → SessionRecord → Store redis → Store redis
  update key r s =
      let (answer, db) = redis.set_keepttl s.db (prefix ++ key) (codec.dumps r) in
      record s { db = or_set_ex key r answer db }
