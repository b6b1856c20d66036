-- ===== src/Tests/Environments.antt =====
-- Session headers from the environment, listed in any case.
use lite_router.Prelude.{◌≡◌, refl, String, List, [], ◌∷◌, map}
use lite_router.Outcome.{ok}
use lite_router.Runtime.{ascii, strip}
use lite_router.Json.{end}
use lite_router.SessionKey.{Headers, from_header, derive_session_key}
use lite_router.Environment.{config_of}
use lite_router.Environment.Names.{
  listing, not_blank, FirstUsable, config_of-header_names, derive_session_key-listed,
}

abbrev others : List String
others = " x-session-id" ∷ " " ∷ []

config_of-header_names_example :
    (config_of ascii (listing [] ("X-My-Session" ∷ others))).router_session_headers
    ≡ map (λ w. ascii.lower (strip ascii w)) (not_blank ascii ("X-My-Session" ∷ others))
config_of-header_names_example =
    config_of-header_names ascii [] "X-My-Session" others refl (refl, (refl, tt))

abbrev headers : Headers
headers = ("x-my-session", " ") ∷ (("x-session-id", " s1 ") ∷ [])

derive_session_key-listed_example :
    (key : String) × (derive_session_key ascii end headers "alice"
        (config_of ascii (listing [] ("X-My-Session" ∷ others))).router_session_headers
      ≡ ok (key, from_header))
    × FirstUsable ascii headers key ("X-My-Session" ∷ others)
derive_session_key-listed_example =
    derive_session_key-listed ascii [] end headers "alice" "X-My-Session" others refl
      (refl, (refl, tt)) refl
