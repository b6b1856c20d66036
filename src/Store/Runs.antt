-- ===== src/Store/Runs.antt =====
-- Any sequence of calls of the store's methods, by any requests in any order, with keys that expire
-- in between: what becomes of the sessions, and who wins their claims.
use lite_router.Prelude.{
  ℕ, ◌+◌, ◌≤◌, ◌≡◌, refl, ap, Bool, true, false, String, Option, none, some, List, [], ◌∷◌, ◌==◌,
  eq_iff, ◌&&◌, is_some, if◌then◌else◌, inl, inr, Bool-cases, arith,
}
use lite_router.Prelude.Text.{◌++◌}
use lite_router.StateMachine.{SessionRecord}
use lite_router.Store.{
  Redis, Codec, Store, get_and_refresh, claim_for_classification, write_pin, update,
}
use lite_router.Store.Laws.{RedisLaws, CodecLaws}
use lite_router.Store.Sessions.{
  session, get_and_refresh-Same, expire-session, claim-none, claim-there, claim-Wrote,
  write_pin-Wrote, update-Wrote,
}

and_both : {a b : Bool} → a && b ≡ true → (a ≡ true) × (b ≡ true)
and_both h = ground arith

-- A call of a method, or a key whose time is over.
pub data Op : Type 0 where
  reads expires : String → Op
  claims pins updates : String → SessionRecord → Op

-- the sessions as a map
abbrev pub Sessions : Type 0
Sessions = String → Option SessionRecord

abbrev pub Unchanged : Sessions → Sessions → Type 0
Unchanged m m' = (j : String) → m' j ≡ m j

abbrev pub Put : String → SessionRecord → Sessions → Sessions → Type 0
Put key r m m' = (j : String) → m' j ≡ (if key == j then some r else m j)

-- What a call may do to the map of sessions.
pub data May (m m' : Sessions) : Op → Type 0 where
  read_only : {key : String} → Unchanged m m' → May m m' (reads key)
  not_claimed : {key : String} {r : SessionRecord} → Unchanged m m' → May m m' (claims key r)
  claimed_new :
      {key : String} {r : SessionRecord} → m key ≡ none → Put key r m m' → May m m' (claims key r)
  not_pinned : {key : String} {r : SessionRecord} → Unchanged m m' → May m m' (pins key r)
  expired :
      {key : String}
      → ((j : String) → m' j ≡ (if key == j then none else m j))
      → May m m' (expires key)
  pinned : {key : String} {r : SessionRecord} → Put key r m m' → May m m' (pins key r)
  not_updated : {key : String} {r : SessionRecord} → Unchanged m m' → May m m' (updates key r)
  updated : {key : String} {r : SessionRecord} → Put key r m m' → May m m' (updates key r)

-- A path through maps of sessions, one call at a time.
pub data Follows : List Op → Sessions → Sessions → Type 0 where
  done : {m : Sessions} → Follows [] m m
  call :
      {op : Op} {ops : List Op} {m m' m'' : Sessions}
      → May m m' op
      → Follows ops m' m''
      → Follows (op ∷ ops) m m''

module _ (redis : Redis) (codec : Codec redis) (ttl : ℕ) (prefix : String) where
  abbrev pub step : Op → Store redis → Store redis
  step (reads key) s = (get_and_refresh redis codec ttl prefix key s).1
  step (expires key) s = record s { db = redis.expire s.db (prefix ++ key) }
  step (claims key r) s = (claim_for_classification redis codec ttl prefix key r s).1
  step (pins key r) s = write_pin redis codec ttl prefix key r s
  step (updates key r) s = update redis codec ttl prefix key r s

  unfoldable pub run : List Op → Store redis → Store redis
  run [] s = s
  run (op ∷ ops) s = run ops (step op s)

  -- whether a call is a claim on a session, and wins it
  abbrev won : String → Op → Store redis → Bool
  won key (reads k) s = false
  won key (expires k) s = false
  won key (claims k r) s = k == key && (claim_for_classification redis codec ttl prefix k r s).0
  won key (pins k r) s = false
  won key (updates k r) s = false

  -- how often a session's key expires
  abbrev pub expiry : String → Op → ℕ
  expiry key (reads k) = 0
  expiry key (expires k) = if k == key then 1 else 0
  expiry key (claims k r) = 0
  expiry key (pins k r) = 0
  expiry key (updates k r) = 0

  abbrev pub expiries : String → List Op → ℕ
  expiries key [] = 0
  expiries key (op ∷ ops) = expiry key op + expiries key ops

  -- how many claims on a session are won
  unfoldable pub wins : String → List Op → Store redis → ℕ
  wins key [] s = 0
  wins key (op ∷ ops) s = (if won key op s then 1 else 0) + wins key ops (step op s)

module _ (redis : Redis) (codec : Codec redis) (ttl : ℕ) (prefix : String) (laws : RedisLaws redis)
    (json : CodecLaws redis codec) where
  abbrev sessions_of : Store redis → Sessions
  sessions_of s = session redis codec ttl prefix laws json s.db

  step-May :
      (op : Op) (s : Store redis)
      → May (sessions_of s) (sessions_of (step redis codec ttl prefix op s)) op
  step-May (reads key) s = read_only (get_and_refresh-Same redis codec ttl prefix laws json key s)
  step-May (expires key) s = expired (expire-session redis codec ttl prefix laws json key s.db)
  step-May (claims key r) s = elim (claim-Wrote redis codec ttl prefix laws json key r s) [
    | inl same ↦ not_claimed same
    | inr (absent, wrote) ↦ claimed_new absent wrote
  ]
  step-May (pins key r) s = elim (write_pin-Wrote redis codec ttl prefix laws json key r s) [
    | inl same ↦ not_pinned same
    | inr wrote ↦ pinned wrote
  ]
  step-May (updates key r) s = elim (update-Wrote redis codec ttl prefix laws json key r s) [
    | inl same ↦ not_updated same
    | inr wrote ↦ updated wrote
  ]

  -- The store is a map from sessions to records. Whatever fails of Redis, a sequence of calls takes
  -- the map along a path of which each step is one call's: a read changes nothing; a claim puts its
  -- placeholder where there is no record, or nothing; a pin and an update put their record under
  -- their own session, or nothing; and an expiry takes away one record.
  pub run-Follows :
      (ops : List Op) (s : Store redis)
      → Follows ops (sessions_of s) (sessions_of (run redis codec ttl prefix ops s))
  unfolding run
  run-Follows [] s = done
  run-Follows (op ∷ ops) s =
      call (step-May op s) (run-Follows ops (step redis codec ttl prefix op s))

  -- 1 where a session has no record
  abbrev pub free : Option SessionRecord → ℕ
  free o = if is_some o then 0 else 1

  free-Put :
      (key k : String) (r : SessionRecord) (o o' : Option SessionRecord)
      → o' ≡ (if k == key then some r else o)
      → free o' ≤ free o
  free-Put key k r o o' e = ground arith

  free-expired :
      (key k : String) (o o' : Option SessionRecord)
      → o' ≡ (if k == key then none else o)
      → free o' ≤ free o + (if k == key then 1 else 0)
  free-expired key k o o' e = ground arith

  free_of_some : (o : Option SessionRecord) → is_some o ≡ true → free o ≡ 0
  free_of_some o h = rw h refl

  free-Unchanged : (o o' : Option SessionRecord) → o' ≡ o → free o' ≤ free o + 0
  free-Unchanged o o' e = rw e (omega arith)

  -- a record stays, but for an expiry
  May-free :
      (key : String) (m m' : Sessions) (op : Op)
      → May m m' op
      → free (m' key) ≤ free (m key) + expiry redis codec ttl prefix key op
  May-free key m m' (reads k) (read_only same) = free-Unchanged (m key) (m' key) (same key)
  May-free key m m' (expires k) (expired gone) = free-expired key k (m key) (m' key) (gone key)
  May-free key m m' (claims k r) (not_claimed same) = free-Unchanged (m key) (m' key) (same key)
  May-free key m m' (claims k r) (claimed_new absent put) =
      omega (arith, free-Put key k r (m key) (m' key) (put key))
  May-free key m m' (pins k r) (not_pinned same) = free-Unchanged (m key) (m' key) (same key)
  May-free key m m' (pins k r) (pinned put) =
      omega (arith, free-Put key k r (m key) (m' key) (put key))
  May-free key m m' (updates k r) (not_updated same) = free-Unchanged (m key) (m' key) (same key)
  May-free key m m' (updates k r) (updated put) =
      omega (arith, free-Put key k r (m key) (m' key) (put key))

  -- a claim that is won found no record, and leaves one
  won-new :
      (key : String) (op : Op) (s : Store redis)
      → won redis codec ttl prefix key op s ≡ true
      → (sessions_of s key ≡ none)
        × (is_some (sessions_of (step redis codec ttl prefix op s) key) ≡ true)
  won-new key (reads k) s h = cc
  won-new key (expires k) s h = cc
  won-new key (pins k r) s h = cc
  won-new key (updates k r) s h = cc
  won-new key (claims k r) s h =
      let (mine, winner) = and_both h in
      rw (← (eq_iff k key).0 mine) (
        claim-none redis codec ttl prefix laws json k r s winner,
        ap is_some (claim-there redis codec ttl prefix laws json k r s winner),
      )

  -- A session is claimed once, until its key expires. Among any calls of the store's methods, in any
  -- order and whatever fails of Redis, no more claims on a session are won than its key expires, and
  -- one more only where it has no record to begin with.
  pub wins-le-expiries :
      (key : String) (ops : List Op) (s : Store redis)
      → wins redis codec ttl prefix key ops s
        ≤ free (session redis codec ttl prefix laws json s.db key)
          + expiries redis codec ttl prefix key ops
  unfolding wins
  wins-le-expiries key [] s = omega arith
  wins-le-expiries key (op ∷ ops) s =
      let s' = step redis codec ttl prefix op s in
      let more = wins-le-expiries key ops s' in
      elim (Bool-cases (won redis codec ttl prefix key op s)) [
        | inl e ↦
            let (absent, there) = won-new key op s e in
            rw (e, absent) (omega (arith, more, free_of_some (sessions_of s' key) there))
        | inr e ↦
            rw e (
              omega (arith, more, May-free key (sessions_of s) (sessions_of s') op (step-May op s)))
      ]
