-- ===== src/Tests/Scans.antt =====
-- Scans of small histories.
use lite_router.Prelude.{arith, String, ◌≡◌, refl, true, false, none, some, [], ◌∷◌, or_else}
use lite_router.Outcome.{ok}
use lite_router.Runtime.{ascii}
use lite_router.Json.{Value, bool, str, arr, obj, Items, nil, cons, end, field, append_items}
use lite_router.Policies.{EscalationConfig}
use lite_router.Escalation.{
  ScanState, tool_failures, detect, consume, rewind, start_of, header_asks, patterns_compile,
  failure_pattern, tool_result_failures, matches_retry, block_failed,
}
use lite_router.SessionKey.{flatten_content}
use lite_router.Escalation.Scan.{streak, first_streak, final_retry}
use lite_router.Escalation.Signals.{window, detect-list}
use lite_router.Escalation.Watermark.{detect-consume, detect_incremental}

abbrev patterns : EscalationConfig
patterns = record {
  max_escalations = 3;
  retry_patterns = "still failing" ∷ [];
  failure_markers = "FAILED" ∷ [];
  consecutive_tool_failures = 2;
}

abbrev user : String → Value
user text = obj (field "role" (str "user") (field "content" (str text) end))

abbrev failed : Value
failed = obj (
    field "role" (str "user") (
      field "content"
        (arr (cons (obj (field "type" (str "tool_result") (field "is_error" (bool true) end))) nil))
        end))

abbrev first : Items
first = cons (user "fix it") (cons failed nil)

abbrev more : Items
more = cons failed (cons (user "still failing") nil)

abbrev fresh : ScanState
fresh = record { msg_count = 0; consec_failures = 0; escalated_at_msg_count = 0 }

abbrev seen_first : ScanState
seen_first = record { msg_count = 2; consec_failures = 1; escalated_at_msg_count = 0 }

abbrev seen_more : ScanState
seen_more = record { msg_count = 4; consec_failures = 2; escalated_at_msg_count = 0 }

first-detected : detect ascii (arr first) [] fresh patterns ≡ ok (none, seen_first)
unfolding detect header_asks patterns_compile tool_result_failures block_failed
first-detected = refl

more-detected :
    detect ascii (arr (append_items first more)) [] seen_first patterns
    ≡ ok (some (tool_failures 2), seen_more)
unfolding detect header_asks patterns_compile tool_result_failures matches_retry block_failed
    flatten_content
more-detected = refl

no_header : header_asks ascii [] ≡ false
unfolding header_asks
no_header = refl

all_compile : patterns_compile ascii patterns ≡ true
unfolding patterns_compile
all_compile = refl

detect-list_example :
    detect ascii (arr first) [] fresh patterns
    ≡ ok (
      or_else (first_streak ascii (failure_pattern patterns) 2 0 (window first fresh)) (
          final_retry ascii patterns
            (failure_pattern patterns)
            fresh
            (start_of 2 fresh)
            (window first fresh)),
      record {
        msg_count = 2;
        consec_failures = streak ascii (failure_pattern patterns) 0 (window first fresh);
        escalated_at_msg_count = 0;
      },
    )
unfolding rewind
detect-list_example = detect-list ascii first [] fresh patterns no_header all_compile

detect-consume_example :
    detect ascii (arr (append_items first more)) [] (consume seen_more 4) patterns
    ≡ ok (none, consume seen_more 4)
detect-consume_example =
    detect-consume ascii [] patterns no_header all_compile (append_items first more) seen_more
      (omega arith)

detect_incremental_example :
    2 ≡ streak ascii (failure_pattern patterns) 0 (append_items (window first fresh) more)
unfolding rewind
detect_incremental_example =
    detect_incremental ascii [] patterns no_header all_compile first more fresh first-detected
      more-detected (omega arith)
