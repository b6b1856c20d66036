-- ===== src/Service/Extract.antt =====
-- `_extract_json` of backend.py: which object it finds in what a model has written.
use Prim.Native.String.{◌∷◌}
use lite_router.Prelude.{◌≡◌, refl, true, String, some}
use lite_router.Prelude.Text
use lite_router.Prelude.Text.{◌++◌}
use lite_router.Outcome.{ok, raise, json_decode_error}
use lite_router.Json.{str, obj, Fields}
use lite_router.Service.Span.{Lacks, outermost-braces}
use lite_router.Service.Backend.{Library, cleaned, extract_json}

module _ (lib : Library) where
  -- An object in prose is found: where the text that is left of a model's answer is no JSON, but is
  -- an object between two texts, the first without an opening and the second without a closing
  -- brace, that object is returned.
  pub extract_json-braces :
      (content pre mid post : String) (answer : Fields)
      → Text.nonempty content ≡ true
      → cleaned lib content ≡ pre ++ ("{" ∷ (mid ++ ("}" ∷ post)))
      → Lacks "{" pre
      → Lacks "}" post
      → lib.loads (cleaned lib content) ≡ raise json_decode_error
      → lib.loads ("{" ∷ (mid ++ ("}" ∷ ""))) ≡ ok (obj answer)
      → extract_json lib (str content) ≡ ok (some answer)
  unfolding extract_json
  extract_json-braces content pre mid post answer n whole a b no_json inner =
      rw (n, no_json, whole, outermost-braces pre mid post a b, inner) refl
