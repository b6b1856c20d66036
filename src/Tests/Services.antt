-- ===== src/Tests/Services.antt =====
-- The classifier service with a model that wraps its answer in prose.
use lite_router.Prelude.{
  ℕ, ◌+◌, ◌≤◌, ◌≡◌, ◌⊎◌, Bool, false, refl, sym, ◌∙◌, true, nat_eq, ltb, leb, none, some, String,
  List, [], ◌∷◌, ◌==◌, any, All, arith, if◌then◌else◌,
}
use lite_router.Prelude.Text
use lite_router.Prelude.Text.{◌++◌}
use lite_router.Outcome.{ok, raise, json_decode_error}
use lite_router.Runtime.{Float, one_float, ascii}
use lite_router.Json.{Value, num, str, arr, obj, Fields, end, field, nil, cons, float_of}
use lite_router.Policies.{Tier, PoliciesConfig, IsValid, tier_by_name, validate}
use lite_router.Policies.Example.{example, example-IsValid}
use lite_router.StateMachine.{ClassifyResult}
use lite_router.Overrides.{no_hints}
use lite_router.Config.{Clock, Disk, load_policies}
use lite_router.Classifier.{Payload, failed, status, classify}
use lite_router.Service.Clamp.{InUnit}
use lite_router.Service.Span.{Lacks, find, rfind}
use lite_router.Service.Backend.{Settings, Library, chat_classify, extract_json}
use lite_router.Service.Prompt.{max_prompt_chars, user_prompt}
use lite_router.Service.Extract.{extract_json-braces}
use lite_router.Service.Fits.{user_prompt-message}
use lite_router.Service.App.{ClassifyRequest, Gateway, ask}
use lite_router.Service.Answers.{Overflows}
use lite_router.Service.Composed.{Numbers, payload_of, behind, classify-behind}
use lite_router.Service.Life.{
  State, new_state, start, run, Input, watches, reloads, healthz, healthy, post_classify,
}
use lite_router.Service.Starts.{answers, failures, delays_of, start_lem}
use lite_router.Replay.{Row, distribution, replay}
use lite_router.Replay.Totals.{total, asks_service, replay-total}
use lite_router.Service.Serves.{Answers, serves}

abbrev half : Float
half = record { bits = 0x3fe0000000000000 }

abbrev judged : Fields
judged =
    field "policy_name" (str "high")
      (field "confidence" (num (record { nonzero = true; float = some half; text = "0.5" })) end)

abbrev object : String
object = "{high, 0.5}"

abbrev seconds : Clock
seconds = record {
  Time = ℕ;
  zero = 0;
  before = ltb;
  same = nat_eq;
  add_recheck = λ t. t + 60;
  due = λ now last. leb (last + 30) now;
}

-- `json`, which reads one text only, and no wrappers
abbrev lib : Library
lib = record {
  py = ascii;
  show = λ v. "";
  parse_float = λ s. none;
  drop_think = λ s. s;
  drop_fence = λ s. s;
  loads = λ s. if s == object then ok (obj judged) else raise json_decode_error;
}

abbrev prose : String
prose = "The tier is {high, 0.5}, I think."

no_opening : Lacks "{" "The tier is "
unfolding find
no_opening = refl

no_closing : Lacks "}" ", I think."
unfolding find
no_closing = refl

extract_json-braces_example : extract_json lib (str prose) ≡ ok (some judged)
extract_json-braces_example =
    extract_json-braces lib prose "The tier is " "high, 0.5" ", I think." judged refl refl
      no_opening no_closing refl refl

user_prompt-message_example :
    (front : String) × (user_prompt lib.show "fix it" "be brief"
        (field "cwd" (str "/src") (field "claude_md_excerpt" (str "a library") end))
      ≡ ok (front ++ ("First user message:\n" ++ Text.take 4000 "fix it")))
    × (Text.length (front ++ ("First user message:\n" ++ Text.take 4000 "fix it"))
        ≤ max_prompt_chars)
user_prompt-message_example =
    user_prompt-message lib.show "fix it" "be brief" "/src" "a library" (omega arith)

abbrev settings : Settings
settings = record {
  base_url = "http://127.0.0.1:4000/v1";
  classifier_model = "small";
  api_key = "";
  request_timeout_s = one_float;
}

-- an endpoint that is down, and one that answers
abbrev down : Gateway
down = record { post = λ request. failed; latency_ms = 3 }

abbrev chat_body : Value
chat_body = obj (
    field "choices"
      (arr (cons (obj (field "message" (obj (field "content" (str prose) end)) end)) nil)) end)

abbrev up : Gateway
up = record { post = λ request. status 200 (some chat_body); latency_ms = 120 }

abbrev request : ClassifyRequest
request = record { first_message = "fix it"; system_summary = ""; repo_hints = end }

abbrev numbers : Numbers
numbers = record {
  of_float = λ x. record { nonzero = true; float = some x; text = "" };
  of_int = λ n. record { nonzero = true; float = none; text = "" };
  float-of_float = λ x u. refl;
}

abbrev running : State seconds
running = record { policies = some example; policies_mtime = 7; ready = true; started_at = 5 }

asked : (user : String) → ask lib settings example up user none ≡ some judged
unfolding chat_classify find rfind
asked user = refl

judged-fits : ¬ Overflows lib settings judged
unfolding float_of
judged-fits h = cc

same_fields : {a b : Fields} → some a ≡ some b → a ≡ b
same_fields h = cc

fits :
    (user : String) (answer : Fields)
    → ask lib settings example up user none ≡ some answer
    → ¬ Overflows lib settings answer
fits user answer e = rw (← same_fields (sym (asked user) ∙ e)) judged-fits

abbrev in_time : Payload → Bool
in_time payload = ltb (Text.length payload.first_message) 4000

classify-behind_example :
    let http = behind seconds lib settings one_float numbers up 130 in_time running in
    ((in_time (payload_of "fix it" "" no_hints) ≡ true)
      × ((c : ClassifyResult) × (t : Tier) × (classify example http "fix it" "" no_hints ≡ some c)
          × (tier_by_name example c.policy_name ≡ some t)
          × (c.model ≡ t.model)
          × InUnit c.confidence))
    ⊎ ((in_time (payload_of "fix it" "" no_hints) ≡ false)
        × (classify example http "fix it" "" no_hints ≡ none))
classify-behind_example =
    classify-behind seconds lib settings one_float numbers up 130 in_time example running "fix it"
      "" no_hints example-IsValid refl fits

abbrev readable : Disk seconds
readable = record { now = 5; stat = ok 7; parsed = ok example }

abbrev broken : Disk seconds
broken = record { now = 90; stat = ok 9; parsed = ok (record example { tiers = [] }) }

loads-example : load_policies readable.parsed ≡ ok example
unfolding load_policies validate
loads-example = refl

start_lem_example :
    (start seconds lib settings one_float 5 readable (down ∷ up ∷ []) (new_state seconds) ≡ (
      ok (delays_of (failures (answers seconds lib settings one_float example) (down ∷ up ∷ [])) 2),
      record {
        policies = some example;
        policies_mtime = 7;
        ready = any (answers seconds lib settings one_float example) (down ∷ up ∷ []);
        started_at = 5;
      },
    ))
    × All
        (λ d. (2 ≤ d) × (d ≤ 30))
        (delays_of (failures (answers seconds lib settings one_float example) (down ∷ up ∷ [])) 2)
start_lem_example =
    start_lem seconds lib settings one_float 5 readable (down ∷ up ∷ []) example 7 loads-example
      refl

second-answers : any (answers seconds lib settings one_float example) (down ∷ up ∷ []) ≡ true
unfolding answers chat_classify find rfind
second-answers = refl

abbrev inputs : List (Input seconds)
inputs = watches (ok 9) broken ∷ reloads readable ∷ []

serves_example :
    let begun =
      (start seconds lib settings one_float 5 readable (down ∷ up ∷ []) (new_state seconds)).1 in
    let s = run seconds inputs begun in
    (q : PoliciesConfig) × (s.policies ≡ some q)
    × IsValid q
    × (healthz seconds "small" s ≡ ok (healthy "small" q.version))
    × Answers seconds lib settings one_float q up request
        (post_classify seconds lib settings one_float up request s)
serves_example =
    serves seconds lib settings one_float 5 readable (down ∷ up ∷ []) example 7 inputs up request
      loads-example refl second-answers refl

abbrev rows : List Row
rows =
    record {
      policy_name = some "high";
      model = "claude-opus-4-8";
      raw_message = some "fix it";
      system_excerpt = none;
    }
    ∷ record {
      policy_name = none;
      model = "grok-4.5";
      raw_message = some "rename it";
      system_excerpt = some "be brief";
    }
    ∷ []

replay-total_example :
    (keys : List Value) × (differing : ℕ) × (replay
        (asks_service seconds lib settings one_float numbers up example running)
        rows
      ≡ ok (keys, differing))
    × (total (distribution example keys) ≡ 2)
    × (differing ≤ 2)
replay-total_example =
    replay-total seconds lib settings one_float numbers up example running rows example-IsValid refl
      (refl, (refl, tt)) fits
