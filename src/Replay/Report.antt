-- ===== src/Replay/Report.antt =====
-- What scripts/replay_shadow.py prints: the logged distribution, the projected spend, and the replay.
-- The arithmetic of doubles is the parameter `Doubles`; a percentage is printed from the two numbers
-- that it is made of.
use lite_router.Prelude.{
  ℕ, Bool, String, Option, none, some, List, [], ◌∷◌, ◌++◌, map, length, get_or, if◌then◌else◌,
}
use lite_router.Prelude.Dict.{lookup}
use lite_router.Outcome.{Outcome, ok, raise, ◌>>=◌, index_error, zero_division_error}
use lite_router.Runtime.{Float, zero_float, one_float}
use lite_router.Json.{Value}
use lite_router.Policies.{Tier, PoliciesConfig}
use lite_router.Classifier.{HttpReply}
use lite_router.Service.App.{ClassifyRequest}
use lite_router.Replay.{Row, distribution, logged, replayable, replay}

-- `ModelPricing` of policies.py: dollars per million tokens
pub record ModelPricing : Type 0 where
  pub in_ : Float
  pub out : Float

-- `+`, `-` and `*` of Python's floats, `/` by one that is not zero, and whether one is not zero
pub record Doubles : Type 0 where
  pub plus : Float → Float → Float
  pub minus : Float → Float → Float
  pub times : Float → Float → Float
  pub over : Float → Float → Float
  pub is_true : Float → Bool

-- the arguments of the command line that are read here, and `policies.pricing`
pub record Options : Type 0 where
  pub mtok_in : Float
  pub mtok_out : Float
  pub no_replay : Bool
  pub pricing : List (String × ModelPricing)

-- What is printed.
pub data Line : Type 0 where
  no_sessions no_pricing no_messages : Line
  -- how many sessions, and how many replayed messages
  sessions replayed : ℕ → Line
  -- a tier, its count, and the number that the percentage is of
  tier_share : String → ℕ → ℕ → Line
  -- the two sums and the difference in per cent
  projected : Float → Float → Float → Line
  -- the answers that differ, and their number
  disagreement : ℕ → ℕ → Line

abbrev pub hundred : Float
hundred = record { bits = 0x4059000000000000 }

-- `policies.tiers[-1]`
abbrev pub last_tier : List Tier → Outcome Tier
last_tier [] = raise index_error
last_tier (t ∷ []) = ok t
last_tier (t ∷ (u ∷ rest)) = last_tier (u ∷ rest)

-- `for tier in policies.tiers: …`, of `n` in all
abbrev pub shares : PoliciesConfig → List Value → ℕ → List Line
shares p keys n = map (λ d. tier_share d.0 d.1 n) (distribution p keys)

module _ (d : Doubles) (o : Options) where
  -- a session's price
  abbrev pub cost : ModelPricing → Float
  cost price = d.plus (d.times o.mtok_in price.in_) (d.times o.mtok_out price.out)

  -- The loop over the rows, with `baseline` and `spent`; `none` is its `break`, where the baseline's
  -- model, which is the same in every round, has no price.
  unfoldable pub project : Option ModelPricing → Float → Float → List Row → Option (Float × Float)
  project p_base baseline spent [] = some (baseline, spent)
  project none baseline spent (r ∷ rows) = none
  project (some base) baseline spent (r ∷ rows) =
      project (some base) (d.plus baseline (cost base))
        (d.plus spent (cost (get_or (lookup r.model o.pricing) base))) rows

  -- `a / b`
  abbrev pub divided : Float → Float → Outcome Float
  divided a b = if d.is_true b then ok (d.over a b) else raise zero_division_error

  -- `delta`
  unfoldable pub delta : Float → Float → Outcome Float
  delta baseline spent =
      if d.is_true baseline
      then (do part ← divided spent baseline; ok (d.times hundred (d.minus one_float part)))
      else ok zero_float

  unfoldable pub spend_lines : Option (Float × Float) → Outcome (List Line)
  unfolding delta
  spend_lines none = ok (no_pricing ∷ [])
  spend_lines (some (baseline, spent)) = do
    percent ← delta baseline spent
    ok (projected baseline spent percent ∷ [])

  abbrev pub spend : Tier → List Row → Outcome (List Line)
  spend opus rows = spend_lines (project (lookup opus.model o.pricing) zero_float zero_float rows)

  module _ (p : PoliciesConfig) (post : ClassifyRequest → HttpReply) where
    -- the end of the report
    abbrev pub replay_lines : ℕ → Outcome (List Value × ℕ) → List Line × Outcome (Unit {0})
    replay_lines rn (raise e) = ([], raise e)
    replay_lines rn (ok (keys, disagree)) =
        (replayed rn ∷ (shares p keys rn ++ disagreement disagree rn ∷ []), ok tt)

    -- by `replayable`
    abbrev pub replay_part : List Row → List Line × Outcome (Unit {0})
    replay_part [] = (no_messages ∷ [], ok tt)
    replay_part (r ∷ rows) = replay_lines (length (r ∷ rows)) (replay post (r ∷ rows))

    abbrev pub after_spend : List Line → List Row → List Line × Outcome (Unit {0})
    after_spend head rows =
        if o.no_replay
        then (head, ok tt)
        else let (tail, result) = replay_part (replayable rows) in (head ++ tail, result)

    abbrev pub from_spend :
        List Line → List Row → Outcome (List Line) → List Line × Outcome (Unit {0})
    from_spend head rows (raise e) = (head, raise e)
    from_spend head rows (ok lines) = after_spend (head ++ lines) rows

    abbrev from_tier : List Line → List Row → Outcome Tier → List Line × Outcome (Unit {0})
    from_tier head rows (raise e) = (head, raise e)
    from_tier head rows (ok opus) = from_spend head rows (spend opus rows)

    -- `main` from the rows on: what it prints, and whether it raises afterwards
    unfoldable pub report : List Row → List Line × Outcome (Unit {0})
    report [] = (no_sessions ∷ [], ok tt)
    report (r ∷ rows) =
        from_tier (sessions (length (r ∷ rows)) ∷ shares p (logged (r ∷ rows)) (length (r ∷ rows)))
          (r ∷ rows) (last_tier p.tiers)
