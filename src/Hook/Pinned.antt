-- ===== src/Hook/Pinned.antt =====
-- What a request of a pinned session may store: an escalation by one tier, or its scan state.
use lite_router.Prelude.{◌≡◌, ap, ◌∙◌, Option, none, some, inl, inr, arith}
use lite_router.Outcome.{ok, Outcome-cases}
use lite_router.Json.{Value}
use lite_router.Policies.{PoliciesConfig}
use lite_router.Escalation.{
  ScanDict, ScanState, EscalationSignal, from_dict, to_dict, detect, consume,
}
use lite_router.StateMachine.{SessionRecord, escalate}
use lite_router.Hook.{Context, Call}
use lite_router.Hook.Keep.{Plan, len, rescan, on_escalation, on_signal, plan_pinned}

-- The records that one request may put in the place of a pinned one.
pub data Moved (p : PoliciesConfig) (r : SessionRecord) (r' : SessionRecord) : Type 0 where
  stayed : r' ≡ r → Moved p r r'
  scanned : (d : ScanDict) → r' ≡ record r { scan = some d } → Moved p r r'
  escalated :
      (e : SessionRecord) (d : ScanDict)
      → escalate r p ≡ ok (some e)
      → r' ≡ record e { scan = some d }
      → Moved p r r'

plan_eq : {a b : Plan} → ok a ≡ ok b → a ≡ b
plan_eq h = cc

module _ (c : Context) (p : PoliciesConfig) (call : Call) (r : SessionRecord)
    (messages : Value) where
  rescan-Moved : (s : ScanState) (u : SessionRecord) → (rescan r s).updated ≡ some u → Moved p r u
  unfolding rescan
  rescan-Moved s u h = scanned (to_dict s) (ground arith)

  on_escalation-Moved :
      (signal : EscalationSignal) (s : ScanState) (e : Option SessionRecord) (plan : Plan)
      (u : SessionRecord)
      → escalate r p ≡ ok e
      → on_escalation c call r messages signal s e ≡ ok plan
      → plan.updated ≡ some u
      → Moved p r u
  unfolding on_escalation
  on_escalation-Moved signal s none plan u up h k =
      rescan-Moved s u (ap (λ (q : Plan). q.updated) (plan_eq h) ∙ k)
  on_escalation-Moved signal s (some e) plan u up h k = elim (Outcome-cases (len messages)) [
    | inl (n, l) ↦ escalated e (to_dict (consume s n)) up (ground (arith, l))
    | inr (x, l) ↦ absurd (ground (arith, l))
  ]

  on_signal-Moved :
      (found : Option EscalationSignal × ScanState) (plan : Plan) (u : SessionRecord)
      → on_signal c p call r messages found ≡ ok plan
      → plan.updated ≡ some u
      → Moved p r u
  unfolding on_signal
  on_signal-Moved (none, s) plan u h k =
      rescan-Moved s u (ap (λ (q : Plan). q.updated) (plan_eq h) ∙ k)
  on_signal-Moved (some signal, s) plan u h k = elim (Outcome-cases (escalate r p)) [
    | inl (e, l) ↦ on_escalation-Moved signal s e plan u l (ground (arith, l)) k
    | inr (x, l) ↦ absurd (ground (arith, l))
  ]

  pub plan_pinned-Moved :
      (plan : Plan) (u : SessionRecord)
      → plan_pinned c p call r messages ≡ ok plan
      → plan.updated ≡ some u
      → Moved p r u
  unfolding plan_pinned
  plan_pinned-Moved plan u h k =
      elim (Outcome-cases (detect c.py messages call.headers (from_dict r.scan) p.escalation)) [
        | inl (found, l) ↦ on_signal-Moved found plan u (ground (arith, l)) k
        | inr (x, l) ↦ absurd (ground (arith, l))
      ]
