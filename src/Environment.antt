-- ===== src/Environment.antt =====
-- packages/session-router/src/session_router/config.py: the settings that are read from the environment.
pub mod Names
use Prim.Native.Char.{code}
use Prim.Native.String.{[], ◌∷◌}
use lite_router.Prelude.{
  Bool, true, false, Char, String, Option, none, some, List, nat_eq, if◌then◌else◌, get_or,
}
use lite_router.Prelude.Dict.{lookup}
use lite_router.Prelude.Text
use lite_router.Runtime.{Runtime, strip}
use lite_router.Policies.{member}
use lite_router.Hook.{Config}

-- `os.environ`
abbrev pub Environ : Type 0
Environ = List (String × String)

-- the values that switch a setting on
abbrev switched_on : List String
switched_on = List.◌∷◌ "1" (List.◌∷◌ "true" (List.◌∷◌ "yes" (List.◌∷◌ "on" List.[])))

abbrev bool_of : Runtime → Bool → Option String → Bool
bool_of py default none = default
bool_of py default (some val) = member (py.lower (strip py val)) switched_on

-- `_env_bool`
unfoldable pub env_bool : Runtime → Environ → String → Bool → Bool
env_bool py env name default = bool_of py default (lookup name env)

-- `os.environ.get(name, default)`
abbrev pub env_text : Environ → String → String → String
env_text env name default = get_or (lookup name env) default

-- a character that is no separator joins the first piece of what follows
abbrev pub onto_piece : Char → List String → List String
onto_piece d List.[] = List.◌∷◌ (d ∷ []) List.[]
onto_piece d (List.◌∷◌ piece pieces) = List.◌∷◌ (d ∷ piece) pieces

-- `s.split(c)`
unfoldable pub split_on : Char → String → List String
split_on c [] = List.◌∷◌ [] List.[]
split_on c (d ∷ s) =
    let rest = split_on c s in
    if nat_eq (code d) (code c) then List.◌∷◌ [] rest else onto_piece d rest

-- the generator: `h.strip().lower()` of the pieces that are not blank
unfoldable pub header_names : Runtime → List String → List String
header_names py List.[] = List.[]
header_names py (List.◌∷◌ h rest) =
    let names = header_names py rest in
    if Text.nonempty (strip py h) then List.◌∷◌ (py.lower (strip py h)) names else names

unfoldable pub session_headers : Runtime → Environ → List String
unfolding split_on header_names
session_headers py env =
    header_names py
      (split_on "," (env_text env "ROUTER_SESSION_HEADERS" "x-claude-code-session-id,x-session-id"))

-- the settings that the hook reads
unfoldable pub config_of : Runtime → Environ → Config
unfolding env_bool session_headers
config_of py env = record {
  router_enabled = env_bool py env "ROUTER_ENABLED" true;
  shadow_mode = env_bool py env "SHADOW_MODE" true;
  subagent_routing_enabled = env_bool py env "SUBAGENT_ROUTING_ENABLED" false;
  capture_first_messages = env_bool py env "ROUTER_CAPTURE_FIRST_MESSAGES" true;
  router_virtual_model = env_text env "ROUTER_VIRTUAL_MODEL" "lite-auto";
  router_session_headers = session_headers py env;
}
