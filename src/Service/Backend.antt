-- ===== src/Service/Backend.antt =====
-- packages/classifier-svc/src/classifier_svc/backend.py: the call of the model behind an
-- OpenAI-compatible endpoint, and the parsing of its answer. The HTTP client, `re` and `json` are
-- parameters.
use lite_router.Prelude.{
  ℕ, Bool, true, false, not, ◌&&◌, ltb, leb, Option, none, some, String, get_or, if◌then◌else◌,
}
use lite_router.Prelude.Text
use lite_router.Prelude.Text.{◌++◌}
use lite_router.Outcome.{
  Exn, Outcome, ok, raise, ◌>>=◌, attribute_error, type_error, http_error, json_decode_error,
}
use lite_router.Runtime.{Float, Runtime, strip}
use lite_router.Json.{Value, str, obj, Fields, get, has_key, truthy, item, first_item}
use lite_router.Classifier.{HttpReply, failed, status}
use lite_router.Service.Span.{outermost}

-- The JSON body of the request and its headers. `stream`, `temperature` and `max_tokens` are fixed.
pub record ChatRequest : Type 0 where
  pub url : String
  pub model : String
  pub stream : Bool
  pub temperature : ℕ
  pub max_tokens : ℕ
  pub system : String
  pub user : String
  pub authorization : Option String
  pub timeout_s : Float

-- The settings that the module reads from the environment.
pub record Settings : Type 0 where
  pub base_url : String
  pub classifier_model : String
  pub api_key : String
  pub request_timeout_s : Float

-- What the service takes from Python's libraries.
pub record Library : Type 0 where
  pub py : Runtime
  -- `str(v)` of a value that is neither a text nor a number
  pub show : Value → String
  -- `float(s)` of a text, none where it raises
  pub parse_float : String → Option Float
  -- `_THINK_RE.sub("", s)` and `_FENCE_RE.sub("", s)`
  pub drop_think : String → String
  pub drop_fence : String → String
  -- `json.loads`
  pub loads : String → Outcome Value

-- `obj if isinstance(obj, dict) else None`
abbrev as_dict : Value → Option Fields
as_dict (obj fs) = some fs
as_dict v = none

abbrev pub is_decode_error : Exn → Bool
is_decode_error Exn.json_decode_error = true
is_decode_error e = false

module _ (lib : Library) where
  -- the second `try`, with its `except JSONDecodeError`
  abbrev or_none : Outcome Value → Outcome (Option Fields)
  or_none (ok v) = ok (as_dict v)
  or_none (raise e) = if is_decode_error e then ok none else raise e

  abbrev in_span : Option String → Outcome (Option Fields)
  in_span none = ok none
  in_span (some span) = or_none (lib.loads span)

  -- the first `try`; after its `except` the span between the braces
  abbrev or_span : String → Outcome Value → Outcome (Option Fields)
  or_span text (ok v) = ok (as_dict v)
  or_span text (raise e) = if is_decode_error e then in_span (outermost text) else raise e

  -- the text without what may surround the answer
  abbrev pub cleaned : String → String
  cleaned content = strip lib.py (lib.drop_fence (lib.drop_think content))

  -- `re.sub` of what is no text raises
  abbrev extract_from : Value → Outcome (Option Fields)
  extract_from (str s) = or_span (cleaned s) (lib.loads (cleaned s))
  extract_from v = raise type_error

  unfoldable pub extract_json : Value → Outcome (Option Fields)
  unfolding outermost
  extract_json content = if not (truthy content) then ok none else extract_from content

  -- `.get("content", "")` of the message
  abbrev get_content : Value → Outcome Value
  get_content (obj fs) = ok (if has_key "content" fs then get "content" fs else str "")
  get_content v = raise attribute_error

  unfoldable pub content_of : Value → Outcome Value
  content_of body = do
    choices ← item "choices" body
    choice ← first_item choices
    message ← item "message" choice
    get_content message

  -- `resp.json()`
  abbrev json_of : Option Value → Outcome Value
  json_of none = raise json_decode_error
  json_of (some body) = ok body

  -- `raise_for_status` of httpx raises but for 2xx
  abbrev read_answer : HttpReply → Outcome (Option Fields)
  read_answer failed = raise http_error
  read_answer (status code body) =
      if leb 200 code && ltb code 300
      then (json_of body >>= λ v. content_of v >>= extract_json)
      else raise http_error

  -- the `except Exception` of `chat_classify`
  abbrev or_failed : Outcome (Option Fields) → Option Fields
  or_failed (ok result) = result
  or_failed (raise e) = none

  abbrev chat_request : Settings → String → String → Option Float → ChatRequest
  chat_request settings system user timeout_s = record {
    url = settings.base_url ++ "/chat/completions";
    model = settings.classifier_model;
    stream = false;
    temperature = 0;
    max_tokens = 64;
    system = system;
    user = user;
    authorization =
        if Text.nonempty settings.api_key then some ("Bearer " ++ settings.api_key) else none;
    timeout_s = get_or timeout_s settings.request_timeout_s;
  }

  -- `post` sends a request to the endpoint
  unfoldable pub chat_classify :
      Settings → (ChatRequest → HttpReply) → String → String → Fields → Option Float → Option Fields
  unfolding extract_json content_of
  chat_classify settings post system user schema timeout_s =
      or_failed (read_answer (post (chat_request settings system user timeout_s)))
