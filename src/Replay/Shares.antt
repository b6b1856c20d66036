-- ===== src/Replay/Shares.antt =====
-- The numbers that scripts/replay_shadow.py prints percentages of.
use lite_router.Prelude.{
  ℕ, suc, ◌≤◌, ◌<◌, ◌≡◌, refl, Bool, true, false, String, Option, none, some, List, [], ◌∷◌, ◌++◌,
  map, All, length, if◌then◌else◌, arith, inl, inr, ◌⊎◌, Bool-cases,
}
use lite_router.Prelude.Dict.{lookup}
use lite_router.Outcome.{Exn, Outcome, ok, raise, Outcome-cases}
use lite_router.Runtime.{Float, zero_float, one_float}
use lite_router.Json.{Value}
use lite_router.Policies.{Tier, PoliciesConfig, IsValid}
use lite_router.Policies.Valid.{validate_iff}
use lite_router.Classifier.{HttpReply}
use lite_router.Service.App.{ClassifyRequest}
use lite_router.Replay.{
  Row, counted, logged, replayable, request_for, answer_name, hashable, differs, replay,
}
use lite_router.Replay.Report.{
  Doubles, Options, Line, no_sessions, no_pricing, no_messages, sessions, replayed, tier_share,
  projected, disagreement, last_tier, shares, hundred, project, delta, spend_lines, replay_lines,
  replay_part, after_spend, report,
}

-- a part of a number that is not zero
abbrev pub IsShare : Line → Type 0
IsShare no_sessions = Unit
IsShare no_pricing = Unit
IsShare no_messages = Unit
IsShare (sessions n) = 0 < n
IsShare (replayed n) = 0 < n
IsShare (tier_share name c n) = (0 < n) × (c ≤ n)
IsShare (projected baseline spent delta) = Unit
IsShare (disagreement c n) = (0 < n) × (c ≤ n)

count-le-length : (keys : List Value) (name : String) → counted name keys ≤ length keys
count-le-length [] name = omega arith
count-le-length (key ∷ keys) name = ground (arith, count-le-length keys name)

shares-IsShare :
    (tiers : List Tier) (keys : List Value) (n : ℕ)
    → 0 < n
    → length keys ≤ n
    → All IsShare (
        map
          (λ (d : String × ℕ). tier_share d.0 d.1 n)
          (map (λ (t : Tier). (t.name, counted t.name keys)) tiers))
shares-IsShare [] keys n h k = tt
shares-IsShare (t ∷ tiers) keys n h k =
    ((h, omega (arith, count-le-length keys t.name)), shares-IsShare tiers keys n h k)

All-IsShare : (ls ms : List Line) → All IsShare ls → All IsShare ms → All IsShare (ls ++ ms)
All-IsShare [] ms a b = b
All-IsShare (l ∷ ls) ms (h, a) b = (h, All-IsShare ls ms a b)

same_done : {a b : List Value × ℕ} → Path (Outcome (List Value × ℕ)) (ok a) (ok b) → a ≡ b
same_done h = cc

length-logged : (rows : List Row) → length (logged rows) ≡ length rows
length-logged [] = refl
length-logged (r ∷ rows) = omega (arith, length-logged rows)

-- one answer for each row
abbrev Counts : List Row → List Value × ℕ → Type 0
Counts rows done = (length done.0 ≡ length rows) × (done.1 ≤ length rows)

Counts-cons :
    (r : Row) (rows : List Row) (key : Value) (done : List Value × ℕ)
    → Counts rows done
    → Counts (r ∷ rows) (key ∷ done.0, (if differs key r.policy_name then suc done.1 else done.1))
Counts-cons r rows key done (size, few) = (omega (arith, size), ground (arith, few))

length-replayable-le : (rows : List Row) → length (replayable rows) ≤ length rows
unfolding replayable
length-replayable-le [] = omega arith
length-replayable-le (r ∷ rows) = ground (arith, length-replayable-le rows)

module _ (post : ClassifyRequest → HttpReply) where
  replay-Counts :
      (rows : List Row) (done : List Value × ℕ) → replay post rows ≡ ok done → Counts rows done
  unfolding replay
  replay-Counts [] done h = rw (← same_done h) (refl, omega arith)
  replay-Counts (r ∷ rows) done h = elim (Outcome-cases (answer_name (post (request_for r)))) [
    | inr (x, e) ↦ absurd (cc (rw e at h))
    | inl (got, e) ↦ elim (Outcome-cases (hashable got)) [
      | inr (x, f) ↦ absurd (cc (rw (e, f) at h))
      | inl (key, f) ↦ elim (Outcome-cases (replay post rows)) [
        | inr (x, g) ↦ absurd (cc (rw (e, f, g) at h))
        | inl (rest, g) ↦
            rw (← same_done (rw (e, f, g) at h))
              (Counts-cons r rows key rest (replay-Counts rows rest g))
      ]
    ]
  ]

  module _ (d : Doubles) (o : Options) (p : PoliciesConfig) where
    replay_lines-IsShare :
        (rows : List Row) (result : Outcome (List Value × ℕ))
        → 0 < length rows
        → ((done : List Value × ℕ) → result ≡ ok done → Counts rows done)
        → All IsShare (replay_lines d o p post (length rows) result).0
    replay_lines-IsShare rows (raise e) some_ counts = tt
    replay_lines-IsShare rows (ok (keys, n)) some_ counts =
        let (size, few) = counts (keys, n) refl in
        (
          some_,
          All-IsShare (shares p keys (length rows)) (disagreement n (length rows) ∷ [])
              (shares-IsShare p.tiers keys (length rows) some_ (omega (arith, size)))
              ((some_, few), tt),
        )

    replay_part-IsShare : (rows : List Row) → All IsShare (replay_part d o p post rows).0
    replay_part-IsShare [] = (tt, tt)
    replay_part-IsShare (r ∷ rows) =
        replay_lines-IsShare (r ∷ rows) (replay post (r ∷ rows)) (omega arith)
          (replay-Counts (r ∷ rows))

    -- what is printed after the spend, and how the run ends
    abbrev pub Sound : List Row → List Line × Outcome (Unit {0}) → Type 0
    Sound rows x =
        All IsShare x.0
        × ((x.1 ≡ ok tt)
            ⊎ ((e : Exn) × (o.no_replay ≡ false)
                × (replay post (replayable rows) ≡ raise e)
                × (x.1 ≡ raise e)))

    by_flag-Sound :
        (rows : List Row) (b : Bool) (x y : List Line × Outcome (Unit {0}))
        → Sound rows x
        → (b ≡ false → Sound rows y)
        → Sound rows (if b then x else y)
    by_flag-Sound rows true x y f g = f
    by_flag-Sound rows false x y f g = g refl

    -- how the replay of some rows ends
    replay_part-ends :
        (rows : List Row)
        → ((replay_part d o p post rows).1 ≡ ok tt)
          ⊎ ((e : Exn) × (replay post rows ≡ raise e) × ((replay_part d o p post rows).1 ≡ raise e))
    replay_part-ends [] = inl refl
    replay_part-ends (r ∷ rows) = elim (Outcome-cases (replay post (r ∷ rows))) [
      | inl (done, e) ↦ inl (rw e refl)
      | inr (x, e) ↦ inr (x, e, rw e refl)
    ]

    after_spend-Sound :
        (head : List Line) (rows : List Row)
        → All IsShare head
        → Sound rows (after_spend d o p post head rows)
    after_spend-Sound head rows a =
        by_flag-Sound rows o.no_replay (head, ok tt) _ (a, inl refl)
          (λ on. (
            All-IsShare head (replay_part d o p post (replayable rows)).0 a
                (replay_part-IsShare (replayable rows)),
            elim (replay_part-ends (replayable rows)) [
              | inl e ↦ inl e
              | inr (x, e, f) ↦ inr (x, on, e, f)
            ],
          ))

    -- the guard keeps the division from raising
    delta-ok :
        (baseline spent : Float) → (percent : Float) × (delta d o baseline spent ≡ ok percent)
    unfolding delta
    delta-ok baseline spent = elim (Bool-cases (d.is_true baseline)) [
      | inl e ↦ (d.times hundred (d.minus one_float (d.over spent baseline)), rw e refl)
      | inr e ↦ (zero_float, rw e refl)
    ]

    spend_lines-ok :
        (sums : Option (Float × Float))
        → (lines : List Line) × (spend_lines d o sums ≡ ok lines) × All IsShare lines
    unfolding spend_lines
    spend_lines-ok none = (no_pricing ∷ [], refl, (tt, tt))
    spend_lines-ok (some (baseline, spent)) =
        let (percent, e) = delta-ok baseline spent in
        (projected baseline spent percent ∷ [], rw e refl, (tt, tt))

    last_tier-ok : (tiers : List Tier) → 0 < length tiers → (t : Tier) × (last_tier tiers ≡ ok t)
    last_tier-ok [] h = absurd (omega arith)
    last_tier-ok (t ∷ []) h = (t, refl)
    last_tier-ok (t ∷ (u ∷ rest)) h = last_tier-ok (u ∷ rest) (omega arith)

    -- The report of a run. Whatever rows the query returns and whatever the classifier answers, on
    -- validated policies: each share of a count that is printed is of a number that is not zero, and
    -- each count, of a tier or of the answers that differ, is at most the number that it is a part of.
    -- The run raises only where the replay was asked for and raised: no division by a baseline of zero
    -- and no missing last tier ends it before.
    pub report-Sound : (rows : List Row) → IsValid p → Sound rows (report d o p post rows)
    unfolding report
    report-Sound [] v = ((tt, tt), inl refl)
    report-Sound (r ∷ rows) v =
        let n = length (r ∷ rows) in
        let (opus, last) = last_tier-ok p.tiers (((validate_iff p).0 v).0) in
        let (lines, spent, shares_) =
          spend_lines-ok
            (project d o (lookup opus.model o.pricing) zero_float zero_float (r ∷ rows)) in
        rw (last, spent)
          (after_spend-Sound _ (r ∷ rows) (
            All-IsShare (sessions n ∷ shares p (logged (r ∷ rows)) n) lines
              (
                omega arith,
                shares-IsShare p.tiers (logged (r ∷ rows)) n (omega arith)
                    (omega (arith, length-logged (r ∷ rows))),
              )
              shares_))
