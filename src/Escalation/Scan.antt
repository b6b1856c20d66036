-- ===== src/Escalation/Scan.antt =====
-- The loop of `detect` against a reference in two passes: the streak of failing tool results over
-- the scanned messages, and the retry test of the last one.
use lite_router.Prelude.{
  ℕ, ◌+◌, ◌≡◌, ◌<◌, refl, ap, ◌∙◌, Bool, true, false, ◌&&◌, String, Option, none, some, List, arith,
  leb, if◌then◌else◌, or_else, or_else-none, or_else_assoc,
}
use lite_router.Prelude.Text
use lite_router.Runtime.{Runtime}
use lite_router.Json.{
  Value, null, bool, num, str, arr, obj, Items, nil, cons, get_of, is_str, length_items,
}
use lite_router.Policies.{EscalationConfig}
use lite_router.SessionKey.{flatten_content}
use lite_router.Escalation.{
  ScanState, EscalationSignal, retry_text, tool_failures, matches_retry, retry_text_limit,
  tool_result_failures, count_failures, scan_turn, scan_message, scan_from,
}

-- The per-result failure flags of a message, none where it is no tool turn.
abbrev pub flags_of : Runtime → String → Value → Option (List Bool)
flags_of py failure (obj fields) = tool_result_failures py failure (obj fields)
flags_of py failure v = none

abbrev pub streak_after : ℕ → Option (List Bool) → ℕ
streak_after consec none = consec
streak_after consec (some flags) = count_failures consec flags

-- The number of failing tool results that end the messages, from `consec` before them.
unfoldable pub streak : Runtime → String → ℕ → Items → ℕ
streak py failure consec nil = consec
streak py failure consec (cons m rest) =
    streak py failure (streak_after consec (flags_of py failure m)) rest

abbrev pub streak_signal : ℕ → ℕ → Option (List Bool) → Option EscalationSignal
streak_signal threshold consec none = none
streak_signal threshold consec (some flags) =
    if leb threshold (count_failures consec flags)
    then some (tool_failures (count_failures consec flags))
    else none

-- The first tool turn after which the streak has reached the threshold.
unfoldable pub first_streak : Runtime → String → ℕ → ℕ → Items → Option EscalationSignal
first_streak py failure threshold consec nil = none
first_streak py failure threshold consec (cons m rest) =
    or_else (streak_signal threshold consec (flags_of py failure m))
      (first_streak py failure threshold (streak_after consec (flags_of py failure m)) rest)

abbrev is_object : Value → Bool
is_object (obj fields) = true
is_object v = false

abbrev hit_signal : Option String → Option EscalationSignal
hit_signal none = none
hit_signal (some hit) = if Text.nonempty hit then some (retry_text hit) else none

-- The retry test of a message at index `i`: a plain user message, no tool turn, at or behind the
-- last escalation, whose text matches a pattern that is not empty.
abbrev pub retry_of :
    Runtime
    → EscalationConfig
    → ScanState
    → ℕ
    → Value
    → Option (List Bool)
    → Option EscalationSignal
retry_of py cfg scan i m (some flags) = none
retry_of py cfg scan i m none =
    if is_object m && (is_str "user" (get_of "role" m) && leb scan.escalated_at_msg_count i)
    then hit_signal (
        matches_retry py (flatten_content (get_of "content" m) retry_text_limit) cfg.retry_patterns)
    else none

-- The retry test of the last message, where `i` is the index of the first one.
unfoldable pub final_retry :
    Runtime → EscalationConfig → String → ScanState → ℕ → Items → Option EscalationSignal
final_retry py cfg failure scan i nil = none
final_retry py cfg failure scan i (cons m nil) = retry_of py cfg scan i m (flags_of py failure m)
final_retry py cfg failure scan i (cons m (cons m' rest)) =
    final_retry py cfg failure scan (i + 1) (cons m' rest)

module _ (py : Runtime) (cfg : EscalationConfig) (scan : ScanState) where
  turn_last :
      (i n : ℕ) (m : Value) (flags : Option (List Bool)) (consec : ℕ)
      (signal : Option EscalationSignal)
      → is_object m ≡ true
      → i + 1 ≡ n
      → scan_turn py cfg scan i n m flags (consec, signal) ≡ (
        streak_after consec flags,
        or_else signal (
            or_else
              (streak_signal cfg.consecutive_tool_failures consec flags)
              (retry_of py cfg scan i m flags)),
      )
  unfolding scan_turn
  turn_last i n m (some flags) consec none o h = ground arith
  turn_last i n m (some flags) consec (some s) o h = ground arith
  turn_last i n m none consec none o h = ground arith
  turn_last i n m none consec (some s) o h = ground arith

  turn_inner :
      (i n : ℕ) (m : Value) (flags : Option (List Bool)) (consec : ℕ)
      (signal : Option EscalationSignal)
      → i + 1 < n
      → scan_turn py cfg scan i n m flags (consec, signal) ≡ (
        streak_after consec flags,
        or_else signal (streak_signal cfg.consecutive_tool_failures consec flags),
      )
  unfolding scan_turn
  turn_inner i n m (some flags) consec none h = ground arith
  turn_inner i n m (some flags) consec (some s) h = ground arith
  turn_inner i n m none consec none h = ground arith
  turn_inner i n m none consec (some s) h = ground arith

  module _ (failure : String) where
    message_last :
        (i n : ℕ) (m : Value) (consec : ℕ) (signal : Option EscalationSignal)
        → i + 1 ≡ n
        → scan_message py cfg failure scan i n m (consec, signal) ≡ (
          streak_after consec (flags_of py failure m),
          or_else signal (
              or_else
                (streak_signal cfg.consecutive_tool_failures consec (flags_of py failure m))
                (retry_of py cfg scan i m (flags_of py failure m))),
        )
    unfolding scan_message
    message_last i n (obj fields) consec signal h =
        turn_last i n (obj fields) (flags_of py failure (obj fields)) consec signal refl h
    message_last i n null consec signal h = ground arith
    message_last i n (bool b) consec signal h = ground arith
    message_last i n (num b) consec signal h = ground arith
    message_last i n (str s) consec signal h = ground arith
    message_last i n (arr xs) consec signal h = ground arith

    message_inner :
        (i n : ℕ) (m : Value) (consec : ℕ) (signal : Option EscalationSignal)
        → i + 1 < n
        → scan_message py cfg failure scan i n m (consec, signal) ≡ (
          streak_after consec (flags_of py failure m),
          or_else signal
              (streak_signal cfg.consecutive_tool_failures consec (flags_of py failure m)),
        )
    unfolding scan_message
    message_inner i n (obj fields) consec signal h =
        turn_inner i n (obj fields) (flags_of py failure (obj fields)) consec signal h
    message_inner i n null consec signal h = ground arith
    message_inner i n (bool b) consec signal h = ground arith
    message_inner i n (num b) consec signal h = ground arith
    message_inner i n (str s) consec signal h = ground arith
    message_inner i n (arr xs) consec signal h = ground arith

    -- The loop from index `i` to the end, by the two passes.
    pub scan_from_lem :
        (i n : ℕ) (xs : Items) (consec : ℕ) (signal : Option EscalationSignal)
        → i + length_items xs ≡ n
        → scan_from py cfg failure scan i n xs (consec, signal) ≡ (
          streak py failure consec xs,
          or_else signal (
              or_else
                (first_streak py failure cfg.consecutive_tool_failures consec xs)
                (final_retry py cfg failure scan i xs)),
        )
    unfolding scan_from streak first_streak final_retry
    scan_from_lem i n nil consec signal h = ground arith
    scan_from_lem i n (cons m nil) consec signal h =
        rw or_else-none (message_last i n m consec signal (omega arith))
    scan_from_lem i n (cons m (cons m' rest)) consec signal h =
        ap (scan_from py cfg failure scan (i + 1) n (cons m' rest))
          (message_inner i n m consec signal (omega arith))
        ∙ scan_from_lem (i + 1) n (cons m' rest) (streak_after consec (flags_of py failure m)) _
            (omega arith)
        ∙ simp or_else_assoc
