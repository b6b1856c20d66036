-- ===== src/Client.antt =====
-- packages/session-router/src/session_router/client.py
use lite_router.Prelude.{Bool, true, false, any, if◌then◌else◌}
use lite_router.Prelude.Text
use lite_router.Runtime.{Runtime}
use lite_router.SessionKey.{Headers, header}

pub data Client : Type 0 where
  claude_code opencode generic : Client

abbrev pub is_claude_code : Client → Bool
is_claude_code claude_code = true
is_claude_code opencode = false
is_claude_code generic = false

-- `call_type` is not read by the source.
unfoldable pub detect_client : Runtime → Headers → Client
detect_client py headers =
    if any (λ h. Text.starts_with h.0 "x-claude-code-") headers
    then claude_code
    else if Text.contains "opencode" (py.lower (header "user-agent" headers))
    then opencode
    else generic
