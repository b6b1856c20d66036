-- ===== src/SessionKey.antt =====
-- packages/session-router/src/session_router/session_key.py, with the hashes of
-- packages/router-common/src/router_common/hashing.py: headers, the text of a request, and the
-- session key. A request body is a JSON object (`Fields`).
pub mod Flatten
pub mod Headers
pub mod Derive
use lite_router.Prelude.{
  ℕ, ◌+◌, ◌-◌, Bool, true, false, String, Option, none, some, List, [], ◌∷◌, leb, if◌then◌else◌,
  ◌==◌,
}
use lite_router.Prelude.Text
use lite_router.Prelude.Dict
use lite_router.Outcome.{Outcome, ok, raise, ◌>>=◌}
use lite_router.Runtime.{Runtime, strip}
use lite_router.Json.{
  Value, null, bool, num, str, arr, obj, Items, nil, cons, Fields, end, field, get, truthy, get_in,
  iterate, has_role, get_of,
}

abbrev pub session_header : String
session_header = "x-claude-code-session-id"

abbrev pub agent_header : String
agent_header = "x-claude-code-agent-id"

abbrev pub parent_agent_header : String
parent_agent_header = "x-claude-code-parent-agent-id"

abbrev pub escalate_header : String
escalate_header = "x-router-escalate"

abbrev pub Headers : Type 0
Headers = List (String × String)

-- `headers.get(name, "")`
abbrev pub header : String → Headers → String
header name headers = elim (Dict.lookup name headers) [ none ↦ "" | some v ↦ v ]

unfoldable pub session_id_from_headers : Runtime → Headers → List String → String
session_id_from_headers py headers [] = ""
session_id_from_headers py headers (name ∷ names) =
    let value = strip py (header name headers) in
    if Text.nonempty value then value else session_id_from_headers py headers names

-- the inner loop of `extract_headers`, over the entries of one source
unfoldable pub merge_fields : Runtime → Fields → Headers → Headers
merge_fields py end merged = merged
merge_fields py (field k (str v) rest) merged =
    merge_fields py rest (Dict.insert (py.lower k) v merged)
merge_fields py (field k v rest) merged = merge_fields py rest merged

-- `if isinstance(headers, dict)`
unfoldable pub merge_source : Runtime → Value → Headers → Headers
unfolding merge_fields
merge_source py (obj fields) merged = merge_fields py fields merged
merge_source py v merged = merged

unfoldable pub extract_headers : Runtime → Fields → Outcome Headers
extract_headers py body = do
  proxy ← get_in (get "proxy_server_request" body) "headers"
  meta ← get_in (get "metadata" body) "headers"
  litellm ← get_in (get "litellm_metadata" body) "headers"
  ok (merge_source py litellm (merge_source py meta (merge_source py proxy [])))

-- the body of the loop, given the block's text and the rounds after it
abbrev pub next_round : ℕ → ℕ → String → (ℕ → List String) → List String
next_round limit total text rounds = elim (leb limit total) [
  | true ↦ []
  | false ↦
      let part = Text.take (limit - total) text in
      elim (Text.nonempty text) [
        | true ↦ part ∷ rounds (total + Text.length part)
        | false ↦ rounds total
      ]
]

-- `if isinstance(text, str): text` with what stands in the `elif`
abbrev pub text_or : Value → String → String
text_or (str s) other = s
text_or null other = other
text_or (bool b) other = other
text_or (num n) other = other
text_or (arr items) other = other
text_or (obj fields) other = other

-- The loop over a list's blocks returns `parts`. `content_text` is the call for a block's
-- "content", made only where that is a text or a list, and `flatten_field` finds it among the
-- fields of the block.
unfoldable mutual
  pub flatten_content : Value → ℕ → String
  flatten_content (str s) limit = Text.take limit s
  flatten_content (arr blocks) limit = Text.concat (flatten_items blocks limit 0)
  flatten_content null limit = ""
  flatten_content (bool b) limit = ""
  flatten_content (num n) limit = ""
  flatten_content (obj fields) limit = ""

  pub flatten_items : Items → ℕ → ℕ → List String
  flatten_items nil limit total = []
  flatten_items (cons block rest) limit total =
      next_round limit total (block_text block (limit - total)) (λ t. flatten_items rest limit t)

  -- the `text` of one block, "" where it is None
  pub block_text : Value → ℕ → String
  block_text (str s) room = s
  block_text (obj fields) room = text_or (get "text" fields) (flatten_field fields room)
  block_text null room = ""
  block_text (bool b) room = ""
  block_text (num n) room = ""
  block_text (arr items) room = ""

  pub flatten_field : Fields → ℕ → String
  flatten_field end room = ""
  flatten_field (field k v rest) room =
      let here = flatten_content v room in
      let later = flatten_field rest room in if k == "content" then here else later

-- the first message with the role, flattened; the loop of the two functions below
unfoldable pub first_with_role : String → ℕ → Items → String
first_with_role role limit nil = ""
first_with_role role limit (cons msg rest) =
    if has_role role msg
    then flatten_content (get_of "content" msg) limit
    else first_with_role role limit rest

unfoldable pub first_user_message_text : Fields → Outcome String
first_user_message_text body = do
  messages ← iterate (get "messages" body)
  ok (first_with_role "user" 4000 messages)

unfoldable pub system_text : Fields → Outcome String
system_text body =
    if truthy (get "system" body)
    then ok (flatten_content (get "system" body) 8000)
    else do messages ← iterate (get "messages" body); ok (first_with_role "system" 8000 messages)

-- hashing.py
unfoldable pub short_hash : Runtime → String → ℕ → String
short_hash py text length = Text.take length (py.sha256 text)

unfoldable pub derive_fallback_session_key : Runtime → String → String → String → String
unfolding short_hash
derive_fallback_session_key py alias system first =
    short_hash py (Text.◌++◌ alias (Text.◌++◌ (short_hash py system 16) (short_hash py first 16)))
      16

pub data KeySource : Type 0 where
  from_header derived : KeySource

unfoldable pub derive_session_key :
    Runtime → Fields → Headers → String → List String → Outcome (String × KeySource)
derive_session_key py body headers alias session_headers =
    let header_key = session_id_from_headers py headers session_headers in
    if Text.nonempty header_key then ok (header_key, from_header) else do
      system ← system_text body
      first ← first_user_message_text body
      ok (derive_fallback_session_key py alias system first, derived)

unfoldable pub first_message_hash : Runtime → Fields → Outcome String
unfolding short_hash
first_message_hash py body = do text ← first_user_message_text body; ok (short_hash py text 16)

-- `headers.get(name) or None`
abbrev or_none : String → Option String
or_none s = if Text.nonempty s then some s else none

-- the agent's id and its parent's
unfoldable pub extract_agent_ids : Headers → Option String × Option String
extract_agent_ids headers =
    (or_none (header agent_header headers), or_none (header parent_agent_header headers))
