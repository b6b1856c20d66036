-- ===== src/Environment/Names.antt =====
-- The session headers of config.py: which names a value of ROUTER_SESSION_HEADERS stands for, and
-- what a request with one of them does.
use Prim.Native.Char.{code}
use Prim.Native.String.{[], ◌∷◌}
use text.Mathlib.TextLemmas.{nil-append, cons-append}
use lite_router.Prelude.{
  ◌≡◌, refl, ap, Bool, true, false, not, ◌&&◌, Char, String, List, All, any, Bool-cases, inl, inr,
  nat_eq, arith, map, if◌then◌else◌, ◌∙◌,
}
use lite_router.Prelude.Text
use lite_router.Prelude.Text.{◌++◌}
use lite_router.Prelude.Dict.{insert, lookup-insert}
use lite_router.Runtime.{Runtime, strip}
use lite_router.SessionKey.{
  Headers, header, session_id_from_headers, from_header, derive_session_key,
}
use lite_router.SessionKey.Derive.{derive_session_key-header}
use lite_router.Json.{Fields}
use lite_router.Outcome.{ok}
use lite_router.Environment.{Environ, split_on, header_names, config_of}

-- no character of the text is `c`
abbrev pub lacks : Char → String → Bool
lacks c [] = true
lacks c (d ∷ s) = not (nat_eq (code d) (code c)) && lacks c s

lacks-cons :
    (c d : Char) (s : String)
    → lacks c (d ∷ s) ≡ true
    → (nat_eq (code d) (code c) ≡ false) × (lacks c s ≡ true)
lacks-cons c d s h = ground arith

split_on-whole : (c : Char) (s : String) → lacks c s ≡ true → split_on c s ≡ List.◌∷◌ s List.[]
unfolding split_on
split_on-whole c [] h = refl
split_on-whole c (d ∷ s) h =
    let (other, h') = lacks-cons c d s h in rw (other, split_on-whole c s h') refl

same_code : (c : Char) → nat_eq (code c) (code c) ≡ true
same_code c = ground arith

split_on-behind :
    (c : Char) (s t : String)
    → lacks c s ≡ true
    → split_on c (s ++ (c ∷ t)) ≡ List.◌∷◌ s (split_on c t)
unfolding split_on
split_on-behind c [] t h = rw (nil-append (c ∷ t), split_on, same_code c) refl
split_on-behind c (d ∷ s) t h =
    let (other, h') = lacks-cons c d s h in
    rw (cons-append d s (c ∷ t), split_on, other, split_on-behind c s t h') refl

abbrev pub AllLack : Char → List String → Type 0
AllLack c ws = All (λ w. lacks c w ≡ true) ws

split_on-join :
    (c : Char) (w : String) (ws : List String)
    → lacks c w ≡ true
    → AllLack c ws
    → split_on c (Text.join (c ∷ []) (List.◌∷◌ w ws)) ≡ List.◌∷◌ w ws
split_on-join c w List.[] h _ = split_on-whole c w h
split_on-join c w (List.◌∷◌ v ws) h (h', hs) =
    rw
      (
        cons-append c [] (Text.join (c ∷ []) (List.◌∷◌ v ws)),
        nil-append (Text.join (c ∷ []) (List.◌∷◌ v ws)),
        split_on-behind c w (Text.join (c ∷ []) (List.◌∷◌ v ws)) h,
      )
      (ap (List.◌∷◌ w) (split_on-join c v ws h' hs))

-- an environment in which the session headers are listed, separated by commas
abbrev pub listing : Environ → List String → Environ
listing env names = insert "ROUTER_SESSION_HEADERS" (Text.join "," names) env

-- the names that are not blank
abbrev pub not_blank : Runtime → List String → List String
not_blank py List.[] = List.[]
not_blank py (List.◌∷◌ w ws) =
    let rest = not_blank py ws in if Text.nonempty (strip py w) then List.◌∷◌ w rest else rest

header_names-map :
    (py : Runtime) (ws : List String)
    → header_names py ws ≡ map (λ w. py.lower (strip py w)) (not_blank py ws)
unfolding header_names
header_names-map py List.[] = refl
header_names-map py (List.◌∷◌ w ws) = elim (Bool-cases (Text.nonempty (strip py w))) [
  | inl e ↦ rw (e, header_names-map py ws) refl
  | inr e ↦ rw (e, header_names-map py ws) refl
]

-- The session headers that a value of ROUTER_SESSION_HEADERS lists, separated by commas, are read
-- back in order: `strip` and then `lower` of each that is not blank.
pub config_of-header_names :
    (py : Runtime) (env : Environ) (w : String) (ws : List String)
    → lacks "," w ≡ true
    → AllLack "," ws
    → (config_of py (listing env (List.◌∷◌ w ws))).router_session_headers
      ≡ map (λ w'. py.lower (strip py w')) (not_blank py (List.◌∷◌ w ws))
unfolding config_of
config_of-header_names py env w ws h hs =
    rw
      (lookup-insert "ROUTER_SESSION_HEADERS" "ROUTER_SESSION_HEADERS"
        (Text.join "," (List.◌∷◌ w ws)) env)
      (ap (header_names py) (split_on-join "," w ws h hs) ∙ header_names-map py (List.◌∷◌ w ws))

-- the value that a request has under a listed name
abbrev pub value_under : Runtime → Headers → String → String
value_under py headers w = strip py (header (py.lower (strip py w)) headers)

-- a listed name that is not blank, with a value in the headers that is not blank
abbrev pub usable : Runtime → Headers → String → Bool
usable py headers w = Text.nonempty (strip py w) && Text.nonempty (value_under py headers w)

-- The value under the first of the names that are usable.
pub data FirstUsable (py : Runtime) (headers : Headers) (key : String) : List String → Type 0 where
  first_is :
      {w : String} {ws : List String}
      → usable py headers w ≡ true
      → key ≡ value_under py headers w
      → FirstUsable py headers key (List.◌∷◌ w ws)
  passed :
      {w : String} {ws : List String}
      → usable py headers w ≡ false
      → FirstUsable py headers key ws
      → FirstUsable py headers key (List.◌∷◌ w ws)

-- the session id of a request with a usable name
session_id-FirstUsable :
    (py : Runtime) (headers : Headers) (ws : List String)
    → any (usable py headers) ws ≡ true
    → (Text.nonempty (session_id_from_headers py headers (header_names py ws)) ≡ true)
      × FirstUsable py headers (session_id_from_headers py headers (header_names py ws)) ws
unfolding session_id_from_headers header_names
session_id-FirstUsable py headers List.[] h = cc
session_id-FirstUsable py headers (List.◌∷◌ w ws) h =
    elim (Bool-cases (Text.nonempty (strip py w))) [
      | inr e ↦
          let (some_, first) = session_id-FirstUsable py headers ws (ground (arith, e, h)) in
          rw e (some_, passed (rw e refl) first)
      | inl e ↦ elim (Bool-cases (Text.nonempty (value_under py headers w))) [
        | inl f ↦ rw (e, f) (f, first_is (rw (e, f) refl) refl)
        | inr f ↦
            let (some_, first) = session_id-FirstUsable py headers ws (ground (arith, e, f, h)) in
            rw (e, f) (some_, passed (rw (e, f) refl) first)
      ]
    ]

-- A request is known by the first header that the setting lists and that the request has with a value
-- that is not blank, whatever the case and the space in which that name is listed: the session key is
-- that value, stripped, and is said to come from a header, whatever the body holds.
pub derive_session_key-listed :
    (py : Runtime) (env : Environ) (body : Fields) (headers : Headers) (alias w : String)
    (ws : List String)
    → lacks "," w ≡ true
    → AllLack "," ws
    → any (usable py headers) (List.◌∷◌ w ws) ≡ true
    → (key : String) × (derive_session_key py body headers alias
          (config_of py (listing env (List.◌∷◌ w ws))).router_session_headers
        ≡ ok (key, from_header))
      × FirstUsable py headers key (List.◌∷◌ w ws)
derive_session_key-listed py env body headers alias w ws h hs use_ =
    let (some_, first) = session_id-FirstUsable py headers (List.◌∷◌ w ws) use_ in
    rw (config_of-header_names py env w ws h hs, ← header_names-map py (List.◌∷◌ w ws))
      (
        session_id_from_headers py headers (header_names py (List.◌∷◌ w ws)),
        derive_session_key-header py body headers alias (header_names py (List.◌∷◌ w ws)) some_,
        first,
      )
