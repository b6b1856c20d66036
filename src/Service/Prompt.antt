-- ===== src/Service/Prompt.antt =====
-- packages/classifier-svc/src/classifier_svc/prompt.py: the prompts for the model.
use mathlib.Core.List as L
use lite_router.Prelude.{ℕ, Bool, true, false, some, String, List, [], ◌∷◌, map, if◌then◌else◌}
use lite_router.Prelude.Text
use lite_router.Prelude.Text.{◌++◌}
use lite_router.Outcome.{Outcome, ok, ◌>>=◌}
use lite_router.Runtime.{Float, zero_float, one_float, Runtime}
use lite_router.Json.{
  Value, num, str, arr, obj, Fields, end, field, Items, nil, cons, get, truthy, slice,
}
use lite_router.Policies.{Tier, PoliciesConfig, tier_names}

-- `_EXAMPLES`: a message, and the tier that it belongs to
abbrev examples : List (String × String)
examples =
    ("How do I check if a key exists in a Python dict?", "quick_lookup")
    ∷ ("Write a regex that matches ISO-8601 dates.", "quick_lookup")
    ∷ ("Add a POST /users endpoint with validation and a unit test.", "standard_dev")
    ∷ ("Bump fastapi to 0.115 and fix any deprecation warnings.", "standard_dev")
    ∷ (
      "Refactor the payments module to support multi-currency settlement; "
          ++ "it touches the ledger, the reconciliation job, and the public API.",
      "high",
    )
    ∷ ("Our request queue deadlocks under load, sometimes. Find out why.", "high")
    ∷ ("Design a lock-free concurrent hashmap and argue it's linearizable.", "ultra-think")
    ∷ []

abbrev pub max_prompt_chars : ℕ
max_prompt_chars = 6000

-- `f"- {t.name}: {' '.join(t.description.split())}"`
abbrev tier_line : Runtime → Tier → String
tier_line py t = "- " ++ (t.name ++ (": " ++ Text.join " " (Text.split py.is_space t.description)))

-- `f'  "{q}" -> {name}'`
abbrev example_line : String × String → String
example_line (q, name) = "  \"" ++ (q ++ ("\" -> " ++ name))

unfoldable pub system_prompt : Runtime → PoliciesConfig → String
system_prompt py p =
    "You classify the FIRST message of a software-engineering session into "
    ++ ("exactly one policy tier, based on how much model capability the task needs.\n\n"
        ++ ("Tiers:\n"
            ++ (Text.join "\n" (map (tier_line py) p.tiers)
                ++ ("\n\nExamples:\n"
                    ++ (Text.join "\n" (map example_line examples)
                        ++ ("\n\nRespond with JSON only: {\"policy_name\": <tier>, \"confidence\": <0..1>}. "
                            ++ "When torn between two tiers, pick the higher one."))))))

-- a value in an f-string; `show` is `str` of a value that is neither a text nor a number
abbrev pub format : (Value → String) → Value → String
format show (str s) = s
format show (num n) = n.text
format show v = show v

module _ (show : Value → String) where
  -- `cwd = (repo_hints or {}).get("cwd") or ""` with its part of the prompt
  abbrev pub cwd_part : Value → List String
  cwd_part v = if truthy v then ("Working directory: " ++ format show v) ∷ [] else []

  -- the same for `claude_md_excerpt`, of which a slice is taken
  abbrev pub excerpt_part : Value → Outcome (List String)
  excerpt_part v =
      if truthy v
      then (slice 500 v >>= λ w. ok (("Project context excerpt:\n" ++ format show w) ∷ []))
      else ok []

  abbrev pub summary_part : String → List String
  summary_part s =
      if Text.nonempty s then ("System prompt summary:\n" ++ Text.take 1000 s) ∷ [] else []

  -- the prompt before its cut
  abbrev pub joined : String → String → Value → List String → String
  joined first_message system_summary cwd excerpt = Text.join "\n\n" (
      L.◌++◌ (cwd_part cwd) (
        L.◌++◌ excerpt (
          L.◌++◌ (summary_part system_summary)
            (("First user message:\n" ++ Text.take 4000 first_message) ∷ []))))

  unfoldable pub user_prompt : String → String → Fields → Outcome String
  user_prompt first_message system_summary repo_hints = do
    excerpt ← excerpt_part (get "claude_md_excerpt" repo_hints)
    ok (
        Text.take max_prompt_chars
          (joined first_message system_summary (get "cwd" repo_hints) excerpt))

abbrev strings : List String → Items
strings [] = nil
strings (s ∷ rest) = cons (str s) (strings rest)

abbrev whole : Bool → Float → String → Value
whole nonzero float text = num (record { nonzero = nonzero; float = some float; text = text })

-- The schema, which `chat_classify` takes and does not send.
unfoldable pub response_schema : PoliciesConfig → Fields
response_schema p = field "type" (str "object") (
    field "properties"
      (obj (
        field "policy_name"
          (obj (field "type" (str "string") (field "enum" (arr (strings (tier_names p))) end)))
          (field "confidence"
            (obj (
              field "type" (str "number") (
                field "minimum" (whole false zero_float "0")
                  (field "maximum" (whole true one_float "1") end))))
            end)))
      (field "required" (arr (cons (str "policy_name") (cons (str "confidence") nil))) end))
