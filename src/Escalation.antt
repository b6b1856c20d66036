-- ===== src/Escalation.antt =====
-- packages/session-router/src/session_router/escalation.py: the scan of the last messages for
-- escalation signals. Escalation/Turn.antt has the state and the body of the loop.
pub mod Turn
pub mod Scan
pub mod Signals
pub mod Watermark
use lite_router.Prelude.{
  ℕ, zero, suc, ◌+◌, ◌-◌, max, Bool, true, false, not, ◌&&◌, ◌||◌, String, Option, none, some, List,
  [], ◌∷◌, leb, ltb, nat_eq, if◌then◌else◌, is_some, get_or, any, ◌==◌,
}
use lite_router.Prelude.Text
use lite_router.Outcome.{Outcome, ok, raise, re_error}
use lite_router.Runtime.{Runtime, strip}
use lite_router.Json.{
  Value, null, bool, num, str, arr, obj, Items, nil, cons, Fields, get_of, is_str, length_items,
}
use lite_router.Policies.{EscalationConfig}
use lite_router.SessionKey.{Headers, header, escalate_header, flatten_content}
pub use lite_router.Escalation.Turn.{
  max_tail, retry_text_limit, tool_result_limit, ScanState, ScanDict, EscalationSignal,
  result_blocks, tool_result_blocks, text_failed, blocks_failed, Progress, retry_check, from_header,
  retry_text, tool_failures,
}
unfoldable pub use lite_router.Escalation.Turn.{
  from_dict, to_dict, matches_snippet, matches_retry, block_failed, tool_result_failures,
  count_failures, scan_turn, scan_message,
}
use lite_router.Escalation.Turn.{all_compile}

-- `for i in range(start, n)`, over the messages from `start` on
unfoldable pub scan_from :
    Runtime → EscalationConfig → String → ScanState → ℕ → ℕ → Items → Progress → Progress
unfolding scan_message
scan_from py cfg failure scan i n nil progress = progress
scan_from py cfg failure scan i n (cons msg rest) progress =
    scan_from py cfg failure scan (i + 1) n rest (scan_message py cfg failure scan i n msg progress)

abbrev pub drop_items : ℕ → Items → Items
drop_items zero xs = xs
drop_items (suc n) nil = nil
drop_items (suc n) (cons x xs) = drop_items n xs

-- the reset of the watermark where the history has shrunk
unfoldable pub rewind : ℕ → ScanState → ScanState
rewind n scan =
    if ltb n scan.msg_count
    then record { msg_count = n - max_tail; consec_failures = 0; escalated_at_msg_count = 0 }
    else scan

abbrev pub start_of : ℕ → ScanState → ℕ
start_of n scan = max scan.msg_count (n - max_tail)

-- `"|".join(cfg.failure_markers) or r"(?!x)x"`
unfoldable pub failure_pattern : EscalationConfig → String
failure_pattern cfg =
    let joined = Text.join "|" cfg.failure_markers in
    if Text.nonempty joined then joined else "(?!x)x"

-- the scan of a list, after the rewind
unfoldable pub scan_list :
    Runtime → EscalationConfig → Items → ScanState → Option EscalationSignal × ScanState
unfolding scan_from
scan_list py cfg messages scan =
    let n = length_items messages in
    let (consec, signal) =
      scan_from py cfg (failure_pattern cfg) scan (start_of n scan) n
        (drop_items (start_of n scan) messages) (scan.consec_failures, none) in
    (
      signal,
      record {
        msg_count = n;
        consec_failures = consec;
        escalated_at_msg_count = scan.escalated_at_msg_count;
      },
    )

-- `headers.get(ESCALATE_HEADER, "").strip().lower() == "true"`
unfoldable pub header_asks : Runtime → Headers → Bool
header_asks py headers = py.lower (strip py (header escalate_header headers)) == "true"

-- the state after an escalation by header, at a history of `n` messages
abbrev pub spent : ℕ → ScanState → ScanState
spent n scan = record {
  msg_count = max n scan.msg_count;
  consec_failures = 0;
  escalated_at_msg_count = max n scan.msg_count;
}

abbrev pub count_or : Value → ℕ → ℕ
count_or (arr xs) d = length_items xs
count_or v d = d

unfoldable pub patterns_compile : Runtime → EscalationConfig → Bool
patterns_compile py cfg =
    all_compile py true cfg.retry_patterns && py.re_compiles false (failure_pattern cfg)

-- the part of `detect` after the header test
unfoldable pub detect_in :
    Runtime → Value → ScanState → EscalationConfig → Outcome (Option EscalationSignal × ScanState)
unfolding scan_list rewind
detect_in py (arr messages) scan cfg =
    if patterns_compile py cfg
    then ok (scan_list py cfg messages (rewind (length_items messages) scan))
    else raise re_error
detect_in py messages scan cfg = ok (none, scan)

unfoldable pub detect :
    Runtime
    → Value
    → Headers
    → ScanState
    → EscalationConfig
    → Outcome (Option EscalationSignal × ScanState)
unfolding detect_in
detect py messages headers scan cfg =
    if header_asks py headers
    then ok (some from_header, spent (count_or messages scan.msg_count) scan)
    else detect_in py messages scan cfg

unfoldable pub consume : ScanState → ℕ → ScanState
consume state message_count = record {
  msg_count = max state.msg_count message_count;
  consec_failures = 0;
  escalated_at_msg_count = max state.escalated_at_msg_count message_count;
}
