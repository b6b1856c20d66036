-- ===== src/Replay/Totals.antt =====
-- The replay against the classifier service: it goes through, and its distribution is complete.
use lite_router.Prelude.{
  ℕ, suc, ◌+◌, ◌≤◌, ◌≡◌, refl, sym, ap, ◌∙◌, Bool, true, false, String, none, some, List, [], ◌∷◌,
  map, All, length, eq_iff, if◌then◌else◌, arith, Bool-cases, inl, inr,
}
use lite_router.Outcome.{Outcome, ok}
use lite_router.Runtime.{Float}
use lite_router.Json.{Value, null, bool, num, str, arr, obj, Fields, is_str}
use lite_router.Policies.{
  Tier, PoliciesConfig, IsValid, tier_names, member, has_duplicates, tier_by_name,
}
use lite_router.Policies.Lookup.{tier_at-member}
use lite_router.Policies.Valid.{validate_iff, tier_index-tier_by_name}
use lite_router.Config.{Clock}
use lite_router.Classifier.{HttpReply}
use lite_router.Service.Backend.{Settings, Library}
use lite_router.Service.App.{ClassifyRequest, within_limits, Gateway, ask}
use lite_router.Service.Answers.{Unsliceable, Overflows, classify_with_cases}
use lite_router.Service.Composed.{Numbers, reply_of}
use lite_router.Service.Life.{State, post_classify}
use lite_router.Replay.{Row, counted, distribution, request_for, answer_name, differs, replay}

-- the sum of the lines
abbrev pub total : List (String × ℕ) → ℕ
total [] = 0
total ((name, n) ∷ lines) = n + total lines

-- a text that is one of the names
abbrev pub names_one : List String → Value → Bool
names_one names (str s) = member s names
names_one names v = false

-- how many of the names a key is equal to
abbrev hits : Value → List String → ℕ
hits key [] = 0
hits key (name ∷ names) = (if is_str name key then 1 else 0) + hits key names

hits_of_missing :
    (s : String) (names : List String) → member s names ≡ false → hits (str s) names ≡ 0
hits_of_missing s [] h = refl
hits_of_missing s (name ∷ names) h =
    ground (arith, eq_iff s name, eq_iff name s, hits_of_missing s names)

hits_of_member :
    (s : String) (names : List String)
    → has_duplicates names ≡ false
    → member s names ≡ true
    → hits (str s) names ≡ 1
hits_of_member s [] d h = cc
hits_of_member s (name ∷ names) d h =
    ground (arith, eq_iff s name, eq_iff name s, hits_of_missing s names, hits_of_member s names)

abbrev lines : List Tier → List Value → List (String × ℕ)
lines tiers keys = map (λ t. (t.name, counted t.name keys)) tiers

total-nil : (tiers : List Tier) → total (lines tiers []) ≡ 0
total-nil [] = refl
total-nil (t ∷ tiers) = omega (arith, total-nil tiers)

total-cons :
    (tiers : List Tier) (key : Value) (keys : List Value)
    → total (lines tiers (key ∷ keys))
      ≡ hits key (map (λ t. t.name) tiers) + total (lines tiers keys)
total-cons [] key keys = refl
total-cons (t ∷ tiers) key keys = omega (arith, total-cons tiers key keys)

hits_of_one :
    (key : Value) (names : List String)
    → has_duplicates names ≡ false
    → names_one names key ≡ true
    → hits key names ≡ 1
hits_of_one (str s) names d h = hits_of_member s names d h
hits_of_one null names d h = cc
hits_of_one (bool b) names d h = cc
hits_of_one (num n) names d h = cc
hits_of_one (arr xs) names d h = cc
hits_of_one (obj fs) names d h = cc

-- Where every key is a tier's name, each is counted in one line.
total-distribution :
    (p : PoliciesConfig) (keys : List Value)
    → has_duplicates (tier_names p) ≡ false
    → All (λ key. names_one (tier_names p) key ≡ true) keys
    → total (distribution p keys) ≡ length keys
total-distribution p [] d h = total-nil p.tiers
total-distribution p (key ∷ keys) d (h, hs) = omega (
  arith,
  total-cons p.tiers key keys,
  hits_of_one key (tier_names p) d h,
  total-distribution p keys d hs,
)

-- a tier that is found has one of the names
found-member :
    (p : PoliciesConfig) (name : String) (t : Tier)
    → tier_by_name p name ≡ some t
    → member name (tier_names p) ≡ true
found-member p name t h = elim (tier_index-tier_by_name p name) [
  | inl (i, u, _, _, at, named, _) ↦
      ap (λ n. member n (tier_names p)) (sym named) ∙ tier_at-member p.tiers i u at
  | inr (_, missing) ↦ cc
]

no_excerpt : (lib : Library) (settings : Settings) → ¬ Unsliceable lib settings null
no_excerpt lib settings (h, _) = cc

module _ (clock : Clock) (lib : Library) (settings : Settings) (warmup_timeout_s : Float)
    (numbers : Numbers) (gateway : Gateway) (p : PoliciesConfig) (s : State clock) where
  abbrev pub asks_service : ClassifyRequest → HttpReply
  asks_service req =
      reply_of numbers (post_classify clock lib settings warmup_timeout_s gateway req s)

  answer_name-service :
      (r : Row)
      → IsValid p
      → s.policies ≡ some p
      → within_limits (request_for r) ≡ true
      → ((user : String) (answer : Fields)
          → ask lib settings p gateway user none ≡ some answer
          → ¬ Overflows lib settings answer)
      → (name : String) × (answer_name (asks_service (request_for r)) ≡ ok (str name))
        × (member name (tier_names p) ≡ true)
  unfolding answer_name post_classify
  answer_name-service r v held limits fits =
      elim (classify_with_cases lib settings p gateway (request_for r) v) [
        | inl (c, e, b) ↦
            (c.policy_name, rw (limits, held, e) refl, found-member p c.policy_name b.tier b.known)
        | inr (inl (_, no_slice)) ↦ absurd (no_excerpt lib settings no_slice)
        | inr (inr (user, answer, asked, _, o)) ↦ absurd (fits user answer asked o)
      ]

  -- what a replay of the rows gives
  abbrev Complete : List Row → Outcome (List Value × ℕ) → Type 0
  Complete rows result =
      (keys : List Value) × (differing : ℕ) × (result ≡ ok (keys, differing))
      × All (λ key. names_one (tier_names p) key ≡ true) keys
      × (length keys ≡ length rows)
      × (differing ≤ length rows)

  replay-cons :
      (r : Row) (rows : List Row)
      → ((name : String) × (answer_name (asks_service (request_for r)) ≡ ok (str name))
          × (member name (tier_names p) ≡ true))
      → Complete rows (replay asks_service rows)
      → Complete (r ∷ rows) (replay asks_service (r ∷ rows))
  unfolding replay
  replay-cons r rows (name, got, known) (keys, differing, rest, named, size, few) =
      elim (Bool-cases (differs (str name) r.policy_name)) [
        | inl e ↦ (
          str name ∷ keys,
          suc differing,
          rw (got, rest, e) refl,
          (known, named),
          omega arith,
          omega arith,
        )
        | inr e ↦ (
          str name ∷ keys,
          differing,
          rw (got, rest, e) refl,
          (known, named),
          omega arith,
          omega arith,
        )
      ]

  replay-Complete :
      (rows : List Row)
      → IsValid p
      → s.policies ≡ some p
      → All (λ r. within_limits (request_for r) ≡ true) rows
      → ((user : String) (answer : Fields)
          → ask lib settings p gateway user none ≡ some answer
          → ¬ Overflows lib settings answer)
      → Complete rows (replay asks_service rows)
  replay-Complete [] v held _ fits = ([], 0, unfold replay in refl, tt, refl, omega arith)
  replay-Complete (r ∷ rows) v held (limits, rest) fits =
      replay-cons r rows (answer_name-service r v held limits fits)
        (replay-Complete rows v held rest fits)

  -- The replay goes through. Against the service with the same validated policies, with messages and
  -- excerpts within its limits and a model whose confidence is no integer beyond the floats, the
  -- replay raises nothing; it counts one answer for each row, the lines of its distribution sum up
  -- to the number of rows, and no more answers differ than there are rows.
  pub replay-total :
      (rows : List Row)
      → IsValid p
      → s.policies ≡ some p
      → All (λ r. within_limits (request_for r) ≡ true) rows
      → ((user : String) (answer : Fields)
          → ask lib settings p gateway user none ≡ some answer
          → ¬ Overflows lib settings answer)
      → (keys : List Value) × (differing : ℕ) × (replay asks_service rows ≡ ok (keys, differing))
        × (total (distribution p keys) ≡ length rows)
        × (differing ≤ length rows)
  replay-total rows v held limits fits =
      let (keys, differing, result, named, size, few) = replay-Complete rows v held limits fits in
      (
        keys,
        differing,
        result,
        total-distribution p keys ((validate_iff p).0 v).1 named ∙ size,
        few,
      )
