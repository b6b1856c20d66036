-- ===== src/SessionKey/Derive.antt =====
-- `derive_session_key` of session_key.py over the turns of a conversation.
use lite_router.Prelude.{ℕ, ◌≡◌, refl, Bool, true, false, not, ◌||◌, String, List, arith}
use lite_router.Prelude.Text
use lite_router.Outcome.{ok}
use lite_router.Runtime.{Runtime}
use lite_router.Json.{
  arr, Items, nil, cons, Fields, get, put, truthy, has_role, append_items, get-put_self, get-put_ne,
}
use lite_router.SessionKey.{
  Headers, session_id_from_headers, first_with_role, first_user_message_text, system_text,
  derive_session_key, from_header,
}

-- whether some message of the list is a dict with the role
abbrev pub any_has_role : String → Items → Bool
any_has_role role nil = false
any_has_role role (cons m rest) = has_role role m || any_has_role role rest

first_with_role-append :
    (role : String) (limit : ℕ) (xs ys : Items)
    → (any_has_role role xs || not (any_has_role role ys)) ≡ true
    → first_with_role role limit (append_items xs ys) ≡ first_with_role role limit xs
unfolding first_with_role
first_with_role-append role limit (cons m xs) ys h =
    ground (arith, first_with_role-append role limit xs ys)
first_with_role-append role limit nil nil h = refl
first_with_role-append role limit nil (cons m ys) h =
    ground (arith, first_with_role-append role limit nil ys)

-- The request of a later turn: the same body, with more messages behind the old ones.
abbrev pub later_turn : Items → Items → Fields → Fields
later_turn xs ys body = put "messages" (arr (append_items xs ys)) body

-- A request that replays a history has the key of the history: messages behind the old ones change
-- no session key, if the old ones hold a user message, and if the system prompt stands in the body
-- or among the old messages, or no later message is a system message.
pub derive_session_key-later_turn :
    (py : Runtime) (body : Fields) (headers : Headers) (alias : String) (names : List String)
    (xs ys : Items)
    → get "messages" body ≡ arr xs
    → any_has_role "user" xs ≡ true
    → (truthy (get "system" body) || any_has_role "system" xs || not (any_has_role "system" ys))
      ≡ true
    → derive_session_key py (later_turn xs ys body) headers alias names
      ≡ derive_session_key py body headers alias names
unfolding derive_session_key system_text first_user_message_text
derive_session_key-later_turn py body headers alias names xs ys m u s = ground (
  arith,
  get-put_self "messages" (arr (append_items xs ys)) body,
  get-put_ne "messages" "system" (arr (append_items xs ys)) body refl,
  first_with_role-append "user" 4000 xs ys,
  first_with_role-append "system" 8000 xs ys,
)

-- Where a configured session header has a usable value, that value is the session key, whatever the
-- body holds, and the key is said to come from a header.
pub derive_session_key-header :
    (py : Runtime) (body : Fields) (headers : Headers) (alias : String) (names : List String)
    → Text.nonempty (session_id_from_headers py headers names) ≡ true
    → derive_session_key py body headers alias names
      ≡ ok (session_id_from_headers py headers names, from_header)
unfolding derive_session_key
derive_session_key-header py body headers alias names h = rw h
