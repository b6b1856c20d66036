-- ===== src/Escalation/Watermark.antt =====
-- The watermark in the scan state of escalation.py: which messages a scan reads, over one request and
-- over two, and the state after `consume`.
use lite_router.Prelude.{ℕ, ◌≤◌, ◌≡◌, refl, sym, ap, ◌∙◌, true, false, Option, none, arith, String}
use lite_router.Outcome.{Outcome, ok, raise}
use lite_router.Runtime.{Runtime}
use lite_router.Json.{arr, Items, nil, cons, length_items, append_items}
use lite_router.Policies.{EscalationConfig}
use lite_router.SessionKey.{Headers}
use lite_router.Escalation.{
  ScanState, EscalationSignal, drop_items, rewind, start_of, failure_pattern, header_asks,
  patterns_compile, detect, consume, max_tail,
}
use lite_router.Escalation.Scan.{streak, first_streak, final_retry, flags_of, streak_after}
use lite_router.Escalation.Signals.{
  window, detect-list, length-drop_items, length-append_items, drop_items_all,
}

-- At most `max_tail` messages are scanned, whatever the state and the history.
pub window-le-max_tail :
    (messages : Items) (scan : ScanState)
    → length_items (window messages (rewind (length_items messages) scan)) ≤ max_tail
window-le-max_tail messages scan = omega (
  arith,
  length-drop_items (start_of (length_items messages) (rewind (length_items messages) scan))
      messages,
)

drop_items-append : (xs ys : Items) → drop_items (length_items xs) (append_items xs ys) ≡ ys
drop_items-append nil ys = refl
drop_items-append (cons x xs) ys = drop_items-append xs ys

streak-append :
    (py : Runtime) (failure : String) (consec : ℕ) (xs ys : Items)
    → streak py failure consec (append_items xs ys)
      ≡ streak py failure (streak py failure consec xs) ys
unfolding streak
streak-append py failure consec nil ys = refl
streak-append py failure consec (cons m xs) ys =
    streak-append py failure (streak_after consec (flags_of py failure m)) xs ys

abbrev state_of : Outcome (Option EscalationSignal × ScanState) → ScanState → ScanState
state_of (ok (s, state)) d = state
state_of (raise e) d = d

rewind-consume :
    (scan : ScanState) (n : ℕ) → scan.msg_count ≤ n → rewind n (consume scan n) ≡ consume scan n
unfolding rewind consume
rewind-consume scan n h = ground arith

rewind_keeps : (n : ℕ) (scan : ScanState) → scan.msg_count ≤ n → rewind n scan ≡ scan
unfolding rewind
rewind_keeps n scan h = ground arith

start-consume : (scan : ScanState) (n : ℕ) → scan.msg_count ≤ n → start_of n (consume scan n) ≡ n
unfolding consume
start-consume scan n h = omega arith

consume_counts :
    (scan : ScanState) (n : ℕ)
    → scan.msg_count ≤ n
    → consume scan n ≡ record {
      msg_count = n;
      consec_failures = (consume scan n).consec_failures;
      escalated_at_msg_count = (consume scan n).escalated_at_msg_count;
    }
unfolding consume
consume_counts scan n h = ground arith

module _ (py : Runtime) (headers : Headers) (cfg : EscalationConfig)
    (no_header : header_asks py headers ≡ false) (compile : patterns_compile py cfg ≡ true) where
  pub state-detect :
      (messages : Items) (scan : ScanState) {s : Option EscalationSignal} {new : ScanState}
      → detect py (arr messages) headers scan cfg ≡ ok (s, new)
      → (new.msg_count ≡ length_items messages)
        × (new.consec_failures
            ≡ streak py
                (failure_pattern cfg)
                (rewind (length_items messages) scan).consec_failures
                (window messages (rewind (length_items messages) scan)))
  state-detect messages scan {s} {new} h =
      let e = sym h ∙ detect-list py messages headers scan cfg no_header compile in
      (ap (λ r. (state_of r new).msg_count) e, ap (λ r. (state_of r new).consec_failures) e)

  -- Evidence that an applied escalation has consumed never fires again: on the same history, with
  -- no escalation header and patterns that compile, the next scan has no signal and leaves the
  -- state as it is. The state's count is at most the length of the history.
  pub detect-consume :
      (messages : Items) (scan : ScanState)
      → scan.msg_count ≤ length_items messages
      → detect py (arr messages) headers (consume scan (length_items messages)) cfg
        ≡ ok (none, consume scan (length_items messages))
  detect-consume messages scan h =
      let n = length_items messages in
      detect-list py messages headers (consume scan n) cfg no_header compile
      ∙ rw (rewind-consume scan n h, start-consume scan n h, drop_items_all messages)
          (unfold streak first_streak final_retry in
            ap (λ c. ok (none, c)) (sym (consume_counts scan n h)))

  -- A message is scanned once: after a scan of a history, with no escalation header and patterns
  -- that compile, a scan of a history that is no shorter begins behind the messages of the first.
  scanned_once :
      (messages later : Items) (scan : ScanState) {s : Option EscalationSignal} {new : ScanState}
      → detect py (arr messages) headers scan cfg ≡ ok (s, new)
      → length_items messages ≤ length_items later
      → length_items messages ≤ start_of (length_items later) (rewind (length_items later) new)
  unfolding rewind
  scanned_once messages later scan h le = let (e, _) = state-detect messages scan h in ground arith

  -- No message is lost: if at most `max_tail` messages follow a scanned history, the streak after
  -- the second scan is the streak over the first window and all the new messages together. Neither
  -- scan has an escalation header, and the patterns compile.
  pub detect_incremental :
      (xs ys : Items) (scan : ScanState) {s s' : Option EscalationSignal} {new new' : ScanState}
      → detect py (arr xs) headers scan cfg ≡ ok (s, new)
      → detect py (arr (append_items xs ys)) headers new cfg ≡ ok (s', new')
      → length_items ys ≤ max_tail
      → new'.consec_failures
        ≡ streak py
            (failure_pattern cfg)
            (rewind (length_items xs) scan).consec_failures
            (append_items (window xs (rewind (length_items xs) scan)) ys)
  detect_incremental xs ys scan {new} {new'} h h' le =
      let (counted, before) = state-detect xs scan h in
      let (_, after) = state-detect (append_items xs ys) new h' in
      let total = length-append_items xs ys in
      let kept = rewind_keeps (length_items (append_items xs ys)) new (omega (arith, total)) in
      let from_end : start_of (length_items (append_items xs ys)) new ≡ length_items xs =
        omega (arith, total) in
      (rw (kept, from_end, drop_items-append xs ys, before) at after)
      ∙ sym
          (streak-append py (failure_pattern cfg) _ (window xs (rewind (length_items xs) scan)) ys)
