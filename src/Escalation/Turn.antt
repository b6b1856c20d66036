-- ===== src/Escalation/Turn.antt =====
-- The state of the scan, and the body of its loop, in
-- packages/session-router/src/session_router/escalation.py. `_compiled` is a cache round
-- `re.compile`; the cache is not modelled, and a malformed pattern raises as it does there.
use lite_router.Prelude.{
  ℕ, ◌+◌, ◌-◌, Bool, true, false, not, ◌&&◌, String, Option, none, some, List, [], ◌∷◌, leb, nat_eq,
  if◌then◌else◌, is_some, get_or,
}
use lite_router.Prelude.Text
use lite_router.Runtime.{Runtime, strip}
use lite_router.Json.{Value, bool, arr, obj, Items, nil, cons, get_of, is_str}
use lite_router.Policies.{EscalationConfig}
use lite_router.SessionKey.{flatten_content}

abbrev pub max_tail : ℕ
max_tail = 10

abbrev pub retry_text_limit : ℕ
retry_text_limit = 500

abbrev pub tool_result_limit : ℕ
tool_result_limit = 2000

pub record ScanState : Type 0 where
  pub msg_count : ℕ
  pub consec_failures : ℕ
  pub escalated_at_msg_count : ℕ

-- the dict that a session record holds; a missing key is `none`
pub record ScanDict : Type 0 where
  pub msg_count : Option ℕ
  pub consec_failures : Option ℕ
  pub escalated_at_msg_count : Option ℕ

unfoldable pub from_dict : Option ScanDict → ScanState
from_dict none = record { msg_count = 0; consec_failures = 0; escalated_at_msg_count = 0 }
from_dict (some raw) = record {
  msg_count = get_or raw.msg_count 0;
  consec_failures = get_or raw.consec_failures 0;
  escalated_at_msg_count = get_or raw.escalated_at_msg_count 0;
}

unfoldable pub to_dict : ScanState → ScanDict
to_dict s = record {
  msg_count = some s.msg_count;
  consec_failures = some s.consec_failures;
  escalated_at_msg_count = some s.escalated_at_msg_count;
}

-- `EscalationSignal`: the reason, with its detail
pub data EscalationSignal : Type 0 where
  from_header : EscalationSignal
  retry_text : String → EscalationSignal
  tool_failures : ℕ → EscalationSignal

-- `re.compile` of each pattern
abbrev pub all_compile : Runtime → Bool → List String → Bool
all_compile py flags [] = true
all_compile py flags (p ∷ ps) = py.re_compiles flags p && all_compile py flags ps

-- the loop of `_matches_retry`
unfoldable pub matches_snippet : Runtime → String → List String → Option String
matches_snippet py snippet [] = none
matches_snippet py snippet (p ∷ ps) =
    if Text.starts_with p "^"
    then (if py.re_match true p snippet then some p else matches_snippet py snippet ps)
    else if py.re_search true p snippet
    then some p
    else matches_snippet py snippet ps

unfoldable pub matches_retry : Runtime → String → List String → Option String
unfolding matches_snippet
matches_retry py text patterns =
    matches_snippet py (strip py (Text.take retry_text_limit text)) patterns

-- the blocks of a list that are dicts of type "tool_result"
abbrev pub result_blocks : Items → List Value
result_blocks nil = []
result_blocks (cons b rest) =
    if is_str "tool_result" (get_of "type" b) then b ∷ result_blocks rest else result_blocks rest

abbrev pub tool_result_blocks : Value → List Value
tool_result_blocks (arr blocks) = result_blocks blocks
tool_result_blocks content = []

abbrev is_true : Value → Bool
is_true (bool b) = b
is_true v = false

-- `bool(text and failure_re.search(text))` for the text of a content
abbrev pub text_failed : Runtime → String → Value → Bool
text_failed py failure content =
    let text = flatten_content content tool_result_limit in
    Text.nonempty text && py.re_search false failure text

unfoldable pub block_failed : Runtime → String → Value → Bool
block_failed py failure block =
    if is_true (get_of "is_error" block)
    then true
    else text_failed py failure (get_of "content" block)

abbrev pub blocks_failed : Runtime → String → List Value → List Bool
blocks_failed py failure [] = []
blocks_failed py failure (b ∷ bs) = block_failed py failure b ∷ blocks_failed py failure bs

abbrev or_not_a_turn : List Bool → Option (List Bool)
or_not_a_turn [] = none
or_not_a_turn (b ∷ bs) = some (b ∷ bs)

-- `none` is "not a tool turn".
unfoldable pub tool_result_failures : Runtime → String → Value → Option (List Bool)
tool_result_failures py failure msg =
    if is_str "user" (get_of "role" msg)
    then or_not_a_turn (blocks_failed py failure (tool_result_blocks (get_of "content" msg)))
    else if is_str "tool" (get_of "role" msg)
    then some (text_failed py failure (get_of "content" msg) ∷ [])
    else none

-- `for failed in failures: consec = consec + 1 if failed else 0`
unfoldable pub count_failures : ℕ → List Bool → ℕ
count_failures consec [] = consec
count_failures consec (failed ∷ rest) = count_failures (if failed then consec + 1 else 0) rest

abbrev pub Progress : Type 0
Progress = ℕ × Option EscalationSignal

-- the retry test at the end of the loop's body, for a message that is no tool turn
abbrev pub retry_check :
    Runtime
    → EscalationConfig
    → ScanState
    → ℕ
    → ℕ
    → Value
    → Option EscalationSignal
    → Option EscalationSignal
retry_check py cfg scan i n msg signal =
    if nat_eq i (n - 1) && (is_str "user" (get_of "role" msg) && leb scan.escalated_at_msg_count i)
    then elim (matches_retry py (flatten_content (get_of "content" msg) retry_text_limit)
        cfg.retry_patterns) [
          | none ↦ signal
          | some hit ↦
              if Text.nonempty hit && not (is_some signal) then some (retry_text hit) else signal
        ]
    else signal

-- the part of the loop's body that depends on the kind of message
unfoldable pub scan_turn :
    Runtime
    → EscalationConfig
    → ScanState
    → ℕ
    → ℕ
    → Value
    → Option (List Bool)
    → Progress
    → Progress
unfolding count_failures
scan_turn py cfg scan i n msg (some failures) (consec, signal) =
    let consec' = count_failures consec failures in
    (
      consec',
      (if not (is_some signal) && leb cfg.consecutive_tool_failures consec'
          then some (tool_failures consec')
          else signal),
    )
scan_turn py cfg scan i n msg none (consec, signal) =
    (consec, retry_check py cfg scan i n msg signal)

-- the body of the loop; a message that is no dict is skipped
unfoldable pub scan_message :
    Runtime → EscalationConfig → String → ScanState → ℕ → ℕ → Value → Progress → Progress
unfolding scan_turn
scan_message py cfg failure scan i n (obj fields) progress =
    scan_turn py cfg scan i n (obj fields) (tool_result_failures py failure (obj fields)) progress
scan_message py cfg failure scan i n msg progress = progress
