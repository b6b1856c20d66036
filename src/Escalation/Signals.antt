-- ===== src/Escalation/Signals.antt =====
-- `detect` of escalation.py on a list of messages, and its window.
use lite_router.Prelude.{
  ℕ, zero, suc, ◌+◌, ◌-◌, ◌≤◌, ◌≡◌, refl, ap, true, false, none, arith, or_else,
}
use lite_router.Outcome.{ok}
use lite_router.Runtime.{Runtime}
use lite_router.Json.{arr, Items, nil, cons, length_items, append_items}
use lite_router.Policies.{EscalationConfig}
use lite_router.SessionKey.{Headers}
use lite_router.Escalation.{
  ScanState, drop_items, rewind, start_of, failure_pattern, scan_list, header_asks,
  patterns_compile, detect,
}
use lite_router.Escalation.Scan.{streak, first_streak, final_retry, scan_from_lem}

pub length-drop_items : (k : ℕ) (xs : Items) → length_items (drop_items k xs) ≡ length_items xs - k
length-drop_items zero xs = omega arith
length-drop_items (suc k) nil = omega arith
length-drop_items (suc k) (cons x xs) = omega (arith, length-drop_items k xs)

pub length-append_items :
    (xs ys : Items) → length_items (append_items xs ys) ≡ length_items xs + length_items ys
length-append_items nil ys = omega arith
length-append_items (cons x xs) ys = omega (arith, length-append_items xs ys)

pub drop_items_all : (xs : Items) → drop_items (length_items xs) xs ≡ nil
drop_items_all nil = refl
drop_items_all (cons x xs) = drop_items_all xs

-- the messages that a scan of `messages` reads
abbrev pub window : Items → ScanState → Items
window messages scan = drop_items (start_of (length_items messages) scan) messages

pub rewound-msg_count-le : (n : ℕ) (scan : ScanState) → (rewind n scan).msg_count ≤ n
unfolding rewind
rewound-msg_count-le n scan = ground arith

scan_list_lem :
    (py : Runtime) (cfg : EscalationConfig) (messages : Items) (old : ScanState)
    → old.msg_count ≤ length_items messages
    → scan_list py cfg messages old ≡ (
      or_else
          (first_streak py
            (failure_pattern cfg)
            cfg.consecutive_tool_failures
            old.consec_failures
            (window messages old))
          (final_retry py cfg
            (failure_pattern cfg)
            old
            (start_of (length_items messages) old)
            (window messages old)),
      record {
        msg_count = length_items messages;
        consec_failures = streak py (failure_pattern cfg) old.consec_failures (window messages old);
        escalated_at_msg_count = old.escalated_at_msg_count;
      },
    )
unfolding scan_list
scan_list_lem py cfg messages old h = rw (
    scan_from_lem py cfg old (failure_pattern cfg) (start_of (length_items messages) old)
      (length_items messages) (window messages old) old.consec_failures none
      (omega (arith, length-drop_items (start_of (length_items messages) old) messages)))

-- With no escalation header and with patterns that compile, the signal for a list of messages is
-- the first streak of failing tool results in the window that reaches the threshold, else the
-- retry text of the last message; the new state has the length of the history, the streak at its
-- end, and the old point of the last escalation. The counts are those of the state after the
-- rewind that a shrunken history causes.
pub detect-list :
    (py : Runtime) (messages : Items) (headers : Headers) (scan : ScanState)
    (cfg : EscalationConfig)
    → header_asks py headers ≡ false
    → patterns_compile py cfg ≡ true
    → let n = length_items messages in
      let old = rewind n scan in
      detect py (arr messages) headers scan cfg
      ≡ ok (
        or_else
            (first_streak py
              (failure_pattern cfg)
              cfg.consecutive_tool_failures
              old.consec_failures
              (window messages old))
            (final_retry py cfg (failure_pattern cfg) old (start_of n old) (window messages old)),
        record {
          msg_count = n;
          consec_failures =
              streak py (failure_pattern cfg) old.consec_failures (window messages old);
          escalated_at_msg_count = old.escalated_at_msg_count;
        },
      )
unfolding detect
detect-list py messages headers scan cfg no_header compile =
    rw (no_header, compile) (ap ok (scan_list_lem py cfg messages _ (rewound-msg_count-le _ scan)))
