-- ===== src/Connections.antt =====
-- The clients of the libraries and their lives: `_get_client` and `aclose` of session_store.py and
-- classifier_client.py in packages/session-router/src/session_router/, and of
-- packages/classifier-svc/src/classifier_svc/backend.py. A client is known by its number, in the
-- order in which they are made, and by the arguments that it was made with.
pub mod Accounts
use lite_router.Prelude.{
  ℕ, zero, suc, Bool, true, false, not, ◌&&◌, ◌||◌, String, Char, Option, none, some, List, [], ◌∷◌,
  if◌then◌else◌, nat_eq,
}
use Prim.Native.Char.{code}
use lite_router.Prelude.Text
use lite_router.Runtime.{Float}
use lite_router.Service.Clamp.{min_float}

-- the double 0.3
abbrev three_tenths : Float
three_tenths = record { bits = 0x3fd3333333333333 }

-- `not x`
abbrev is_zero : Float → Bool
is_zero x = nat_eq x.bits 0 || nat_eq x.bits 0x8000000000000000

-- `text or default`
abbrev or_text : Option String → String → String
or_text none d = d
or_text (some s) d = if Text.nonempty s then s else d

-- `seconds or default`
abbrev or_seconds : Option Float → Float → Float
or_seconds none d = d
or_seconds (some x) d = if is_zero x then d else x

-- the arguments of `aioredis.from_url`
pub record RedisArgs : Type 0 where
  pub url : String
  pub socket_timeout : Float
  pub socket_connect_timeout : Float
  pub decode_responses : Bool

-- the timeouts of an `httpx.AsyncClient`, and of its connecting
pub record HttpArgs : Type 0 where
  pub timeout : Float
  pub connect : Float

-- `SessionStore.__init__` and `_get_client`: the argument, and the settings of config.py
unfoldable pub redis_args : Option String → String → Float → RedisArgs
redis_args redis_url router_redis_url timeout = record {
  url = or_text redis_url router_redis_url;
  socket_timeout = timeout;
  socket_connect_timeout = timeout;
  decode_responses = true;
}

-- `(base_url or config.ROUTER_CLASSIFIER_URL).rstrip("/")`
unfoldable pub base_url : Option String → String → String
base_url given router_classifier_url =
    Text.rstrip (λ c. nat_eq (code c) 47) (or_text given router_classifier_url)

-- `ClassifierClient.__init__` and `_get_client`
unfoldable pub http_args : Option Float → Float → HttpArgs
http_args timeout_s router_classifier_timeout_s =
    let timeout = or_seconds timeout_s router_classifier_timeout_s in
    record { timeout = timeout; connect = min_float three_tenths timeout }

-- `_get_client` of backend.py, where one timeout holds for connecting too
unfoldable pub service_args : Float → HttpArgs
service_args request_timeout_s = record { timeout = request_timeout_s; connect = request_timeout_s }

-- A holder of a client: `_client`, how many have been made, those whose `aclose` was called, the last
-- call first, and how many of these calls are awaited.
pub record Holder (A : Type 0) : Type 0 where
  pub client : Option (ℕ × A)
  pub made : ℕ
  pub closed : List ℕ
  pub awaited : ℕ

-- A call of `_get_client` with what a client is made with, and the two parts of `aclose`: up to its
-- await, and behind it, where an exception may have come out of that.
pub data Act (A : Type 0) : Type 0 where
  gets : A → Act A
  begins : Act A
  ends : Bool → Act A

module _ {A : Type 0} where
  -- `_get_client`, by what is held
  abbrev pub client_of : A → Option (ℕ × A) → Holder A → (ℕ × A) × Holder A
  client_of args none h =
      ((h.made, args), record h { client = some (h.made, args); made = suc h.made })
  client_of args (some given) h = (given, h)

  unfoldable pub get_client : A → Holder A → (ℕ × A) × Holder A
  get_client args h = client_of args h.client h

  -- `aclose` up to its await
  abbrev pub begin_of : Option (ℕ × A) → Holder A → Holder A
  begin_of none h = h
  begin_of (some (n, a)) h = record h { closed = n ∷ h.closed; awaited = suc h.awaited }

  unfoldable pub begin_close : Holder A → Holder A
  begin_close h = begin_of h.client h

  -- The rest of an awaited `aclose`, if there is one. `caught` says whether an exception of the await
  -- is caught, as in the router's two clients and not in the service's; then `_client` is None in any
  -- case.
  abbrev pub end_of : Bool → Bool → ℕ → Holder A → Holder A
  end_of caught raised zero h = h
  end_of caught raised (suc k) h =
      if raised && not caught
      then record h { awaited = k }
      else record h { client = none; awaited = k }

  unfoldable pub end_close : Bool → Bool → Holder A → Holder A
  end_close caught raised h = end_of caught raised h.awaited h

  abbrev pub act : Bool → Holder A → Act A → Holder A
  act caught h (gets args) = (get_client args h).1
  act caught h begins = begin_close h
  act caught h (ends raised) = end_close caught raised h

  unfoldable pub acts : Bool → List (Act A) → Holder A → Holder A
  acts caught [] h = h
  acts caught (a ∷ rest) h = acts caught rest (act caught h a)

  abbrev pub no_client : Holder A
  no_client = record { client = none; made = 0; closed = []; awaited = 0 }
