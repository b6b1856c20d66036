-- ===== src/Tests/Reports.antt =====
-- The report of a replay over two sessions, of which one has a first message.
use lite_router.Prelude.{false, not, nat_eq, none, some, List, [], ◌∷◌}
use lite_router.Runtime.{one_float}
use lite_router.Json.{str, obj, field, end}
use lite_router.Policies.Example.{example, example-IsValid}
use lite_router.Classifier.{HttpReply, status}
use lite_router.Service.App.{ClassifyRequest}
use lite_router.Replay.{Row}
use lite_router.Replay.Report.{Doubles, Options, report}
use lite_router.Replay.Shares.{Sound, report-Sound}

-- a stand-in for the arithmetic of doubles
abbrev doubles : Doubles
doubles = record {
  plus = λ a b. b;
  minus = λ a b. a;
  times = λ a b. b;
  over = λ a b. a;
  is_true = λ a. not (nat_eq a.bits 0);
}

abbrev options : Options
options = record {
  mtok_in = one_float;
  mtok_out = one_float;
  no_replay = false;
  pricing = ("claude-opus-4-8", record { in_ = one_float; out = one_float }) ∷ [];
}

abbrev rows : List Row
rows =
    record {
      policy_name = some "standard_dev";
      model = "grok-4.5";
      raw_message = some "fix it";
      system_excerpt = none;
    }
    ∷ (record {
      policy_name = some "high";
      model = "claude-opus-4-8";
      raw_message = none;
      system_excerpt = none;
    }
        ∷ [])

abbrev always_high : ClassifyRequest → HttpReply
always_high req = status 200 (some (obj (field "policy_name" (str "high") end)))

report-Sound_example :
    Sound always_high doubles options example rows (report doubles options example always_high rows)
report-Sound_example = report-Sound always_high doubles options example rows example-IsValid
