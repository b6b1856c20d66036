-- ===== src/Tests/Keys.antt =====
-- Session keys, headers, hints and the classifier's answer for small requests.
use lite_router.Prelude.{◌≡◌, refl, true, false, none, some, [], ◌∷◌, ◌⊎◌, String, or_else, All}
use lite_router.Prelude.Text
use lite_router.Prelude.Dict
use lite_router.Outcome.{ok, raise, attribute_error}
use lite_router.Runtime.{zero_float, strip, ascii}
use lite_router.Json.{Value, str, arr, obj, Items, nil, cons, Fields, end, field}
use lite_router.Policies.{Tier, tier_by_name}
use lite_router.Policies.Example.{example}
use lite_router.SessionKey.{
  Headers, session_id_from_headers, flatten_content, extract_headers, derive_session_key,
}
use lite_router.SessionKey.Flatten.{full_text, flatten_content-eq-take}
use lite_router.SessionKey.Headers.{source_text, source, all_readable, extract_headers-lookup}
use lite_router.SessionKey.Derive.{later_turn, derive_session_key-later_turn}
use lite_router.Overrides.{
  RepoHints, no_hints, Forces, match_path_override, asked_tier, hints_text, StandsNotIn,
  match_path_override_cases,
}
use lite_router.StateMachine.{ClassifyResult}
use lite_router.Classifier.{Http, status, classify, classify-known}

abbrev message : String → String → Value
message role text = obj (field "role" (str role) (field "content" (str text) end))

abbrev asked : Items
asked = cons (message "user" "fix the parser") nil

abbrev answered : Items
answered = cons (message "assistant" "done") (cons (message "user" "still failing") nil)

abbrev body : Fields
body =
    field "model" (str "lite-auto")
      (field "system" (str "be brief") (field "messages" (arr asked) end))

abbrev blocks : Value
blocks = arr (
    cons (obj (field "type" (str "text") (field "text" (str "fix") end)))
      (cons (obj (field "type" (str "text") (field "text" (str "it") end))) nil))

flatten_content-eq-take_example : flatten_content blocks 4 ≡ Text.take 4 (full_text blocks)
flatten_content-eq-take_example = flatten_content-eq-take blocks 4

derive_session_key-later_turn_example :
    derive_session_key ascii (later_turn asked answered body) [] "alice" []
    ≡ derive_session_key ascii body [] "alice" []
derive_session_key-later_turn_example =
    derive_session_key-later_turn ascii body [] "alice" [] asked answered refl refl refl

abbrev with_id : Headers
with_id = ("x-session-id", "s1") ∷ []

found_id : Text.nonempty (session_id_from_headers ascii with_id ("x-session-id" ∷ [])) ≡ true
unfolding session_id_from_headers
found_id = refl

abbrev with_headers : Fields
with_headers =
    field "metadata" (obj (field "headers" (obj (field "X-Session-Id" (str "s1") end)) end)) end

extract_headers-lookup_example :
    ((all_readable with_headers ≡ true)
      × ((headers : Headers) × (extract_headers ascii with_headers ≡ ok headers)
          × (Dict.lookup "x-session-id" headers
              ≡ or_else
                  (source_text ascii "x-session-id" (source "litellm_metadata" with_headers))
                  (or_else (source_text ascii "x-session-id" (source "metadata" with_headers)) (
                    source_text ascii "x-session-id"
                      (source "proxy_server_request" with_headers))))))
    ⊎ ((all_readable with_headers ≡ false)
        × (extract_headers ascii with_headers ≡ raise attribute_error))
extract_headers-lookup_example = extract_headers-lookup ascii with_headers "x-session-id"

abbrev hints : RepoHints
hints = record { cwd = "/home/alice/Contracts"; claude_md_excerpt = "" }

match_path_override_cases_example :
    ((m : String) × (match_path_override ascii hints [] example ≡ some m)
      × Forces ascii hints [] example m)
    ⊎ ((match_path_override ascii hints [] example ≡ none)
        × ¬ (asked_tier ascii [] ≡ example.path_overrides.force_tier)
        × ((strip ascii (hints_text ascii hints) ≡ "")
            ⊎ All (StandsNotIn ascii hints) example.path_overrides.patterns))
match_path_override_cases_example = match_path_override_cases ascii hints [] example

abbrev answers_high : Http
answers_high = record {
  post = λ payload.
      status 200
        (some (obj (field "policy_name" (str "high") (field "model" (str "another") end))));
  parse_float = λ s. none;
  latency_ms = 12;
}

abbrev judged : ClassifyResult
judged = record {
  policy_name = "high";
  model = "claude-opus-4-8";
  confidence = zero_float;
  latency_ms = some 12;
}

classified : classify example answers_high "fix it" "" no_hints ≡ some judged
unfolding classify tier_by_name
classified = refl

classify-known_example :
    (t : Tier) × (tier_by_name example "high" ≡ some t) × ("claude-opus-4-8" ≡ t.model)
classify-known_example = classify-known example answers_high "fix it" "" no_hints judged classified
