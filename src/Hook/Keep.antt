-- ===== src/Hook/Keep.antt =====
-- `LiteAutoRouter._handle_pinned` of packages/session-router/src/session_router/hook.py.
use lite_router.Prelude.{
  ℕ, suc, Bool, true, false, ◌&&◌, String, Option, none, some, if◌then◌else◌, nat_eq,
}
use lite_router.Prelude.Text
use lite_router.Outcome.{Outcome, ok, raise, type_error}
use lite_router.Exec.{Exec, ◌>>=◌, ◌>>◌, pure, lift}
use lite_router.Json.{Value, null, bool, num, str, arr, obj, Fields, end, field, length_items}
use lite_router.Policies.{PoliciesConfig}
use lite_router.Escalation.{
  ScanDict, ScanState, EscalationSignal, from_dict, to_dict, detect, consume,
}
use lite_router.StateMachine.{SessionRecord, escalate, escalations_of}
use lite_router.DecisionLog.{EventType, DecisionEvent, escalation}
use lite_router.Store.{Redis, Codec}
use lite_router.Hook.{Context, World, Call, blank_event, update_session, emit_event}

abbrev count_fields : Fields → ℕ
count_fields end = 0
count_fields (field k v rest) = suc (count_fields rest)

-- `len(messages)`
abbrev pub len : Value → Outcome ℕ
len (arr xs) = ok (length_items xs)
len (obj fs) = ok (count_fields fs)
len (str s) = ok (Text.length s)
len null = raise type_error
len (bool b) = raise type_error
len (num n) = raise type_error

abbrev same_count : Option ℕ → Option ℕ → Bool
same_count none none = true
same_count none (some b) = false
same_count (some a) none = false
same_count (some a) (some b) = nat_eq a b

-- `new_scan.to_dict() == record.get("scan")`
abbrev pub same_scan : ScanDict → Option ScanDict → Bool
same_scan a none = false
same_scan a (some b) =
    same_count a.msg_count b.msg_count
    && (same_count a.consec_failures b.consec_failures
        && same_count a.escalated_at_msg_count b.escalated_at_msg_count)

-- What a pinned request does: the record that it stores, if any, and the event that it emits.
pub record Plan : Type 0 where
  pub updated : Option SessionRecord
  pub event : Option DecisionEvent

abbrev pub escalated_event :
    Context → Call → SessionRecord → SessionRecord → EscalationSignal → DecisionEvent
escalated_event c call old new signal = record (blank_event c call EventType.escalated new.model) {
  policy_name = some new.policy_name;
  detail = escalation signal old.model (escalations_of new);
}

-- `if updated is None and new_scan.to_dict() != record.get("scan")`
unfoldable pub rescan : SessionRecord → ScanState → Plan
rescan r new_scan = record {
  updated =
      if same_scan (to_dict new_scan) r.scan
      then none
      else some (record r { scan = some (to_dict new_scan) });
  event = none;
}

-- the branch of a signal, by the result of `sm.escalate`
unfoldable pub on_escalation :
    Context
    → Call
    → SessionRecord
    → Value
    → EscalationSignal
    → ScanState
    → Option SessionRecord
    → Outcome Plan
unfolding rescan
on_escalation c call r messages signal new_scan none = ok (rescan r new_scan)
on_escalation c call r messages signal new_scan (some escalated) = elim (len messages) [
  | raise e ↦ raise e
  | ok n ↦ ok (record {
    updated = some (record escalated { scan = some (to_dict (consume new_scan n)) });
    event = some (escalated_event c call r escalated signal);
  })
]

unfoldable pub on_signal :
    Context
    → PoliciesConfig
    → Call
    → SessionRecord
    → Value
    → Option EscalationSignal × ScanState
    → Outcome Plan
unfolding on_escalation
on_signal c p call r messages (none, new_scan) = ok (rescan r new_scan)
on_signal c p call r messages (some signal, new_scan) = elim (escalate r p) [
  | raise e ↦ raise e
  | ok escalated ↦ on_escalation c call r messages signal new_scan escalated
]

-- `_handle_pinned` up to its first await
unfoldable pub plan_pinned : Context → PoliciesConfig → Call → SessionRecord → Value → Outcome Plan
unfolding on_signal
plan_pinned c p call r messages =
    elim (detect c.py messages call.headers (from_dict r.scan) p.escalation) [
      | raise e ↦ raise e
      | ok found ↦ on_signal c p call r messages found
    ]

module _ (redis : Redis) (codec : Codec redis) (c : Context) (p : PoliciesConfig) where
  abbrev pub emit_planned : Option DecisionEvent → Exec (World redis) (Unit {0})
  emit_planned none = pure tt
  emit_planned (some event) = emit_event redis codec c p event

  -- `if updated is not None: await self.store.update(key, updated); record = updated`, and the
  -- model that is returned
  abbrev pub store_planned :
      String → SessionRecord → Option SessionRecord → Exec (World redis) String
  store_planned key r none = pure r.model
  store_planned key r (some updated) = do
    update_session redis codec c p key updated
    pure updated.model

  unfoldable pub handle_pinned : Call → SessionRecord → Value → Exec (World redis) String
  unfolding emit_event update_session
  handle_pinned call r messages = do
    plan ← lift (plan_pinned c p call r messages)
    emit_planned plan.event
    store_planned call.key r plan.updated
