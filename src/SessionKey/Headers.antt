-- ===== src/SessionKey/Headers.antt =====
-- `extract_headers` against its reference: which source's value a header has.
use lite_router.Prelude.{
  ◌≡◌, refl, ◌⊎◌, Bool, true, false, String, Option, none, some, [], arith, ◌==◌, if◌then◌else◌,
  inl, inr, or_else, or_else-none, ◌&&◌,
}
use lite_router.Prelude.Dict
use lite_router.Outcome.{ok, raise, attribute_error}
use lite_router.Runtime.{Runtime}
use lite_router.Json.{
  Value, null, bool, num, str, arr, obj, Fields, end, field, get, get_in, get_in_cases,
}
use lite_router.SessionKey.{Headers, merge_fields, merge_source, extract_headers}

-- The last text that the fields give to a name, names compared after lowering.
unfoldable pub last_text : Runtime → String → Fields → Option String
last_text py j end = none
last_text py j (field k (str v) rest) =
    or_else (last_text py j rest) (if py.lower k == j then some v else none)
last_text py j (field k v rest) = last_text py j rest

unfoldable pub source_text : Runtime → String → Value → Option String
source_text py j (obj fields) = last_text py j fields
source_text py j v = none

or_else-if :
    (a : Option String) (b : Bool) (v : String) (c : Option String)
    → or_else a (if b then some v else c) ≡ or_else (or_else a (if b then some v else none)) c
or_else-if a b v c = ground arith

lookup-merge_fields :
    (py : Runtime) (j : String) (fields : Fields) (merged : Headers)
    → Dict.lookup j (merge_fields py fields merged)
      ≡ or_else (last_text py j fields) (Dict.lookup j merged)
unfolding merge_fields last_text
lookup-merge_fields py j end merged = refl
lookup-merge_fields py j (field k (str v) rest) merged = ground (
  arith,
  lookup-merge_fields py j rest (Dict.insert (py.lower k) v merged),
  Dict.lookup-insert (py.lower k) j v merged,
  or_else-if (last_text py j rest) (py.lower k == j) v (Dict.lookup j merged),
)
lookup-merge_fields py j (field k null rest) merged = lookup-merge_fields py j rest merged
lookup-merge_fields py j (field k (bool b) rest) merged = lookup-merge_fields py j rest merged
lookup-merge_fields py j (field k (num b) rest) merged = lookup-merge_fields py j rest merged
lookup-merge_fields py j (field k (arr xs) rest) merged = lookup-merge_fields py j rest merged
lookup-merge_fields py j (field k (obj fs) rest) merged = lookup-merge_fields py j rest merged

lookup-merge_source :
    (py : Runtime) (j : String) (v : Value) (merged : Headers)
    → Dict.lookup j (merge_source py v merged) ≡ or_else (source_text py j v) (Dict.lookup j merged)
unfolding merge_source source_text
lookup-merge_source py j (obj fields) merged = lookup-merge_fields py j fields merged
lookup-merge_source py j null merged = refl
lookup-merge_source py j (bool b) merged = refl
lookup-merge_source py j (num b) merged = refl
lookup-merge_source py j (str s) merged = refl
lookup-merge_source py j (arr xs) merged = refl

-- Where `(body.get(place) or {}).get("headers")` raises nothing, the source that it is.
abbrev pub source : String → Fields → Value
source place body = elim (get_in (get place body) "headers") [ ok v ↦ v | raise e ↦ null ]

abbrev readable : String → Fields → Bool
readable place body = elim (get_in (get place body) "headers") [ ok v ↦ true | raise e ↦ false ]

abbrev pub all_readable : Fields → Bool
all_readable body =
    readable "proxy_server_request" body
    && (readable "metadata" body && readable "litellm_metadata" body)

-- A header is what litellm_metadata gives it, else what metadata does, else what
-- proxy_server_request does; within one source the last entry counts. Names are compared lowered,
-- and entries that are no texts do not count. This holds where the three places are dicts or
-- falsy, and elsewhere `extract_headers` raises AttributeError.
pub extract_headers-lookup :
    (py : Runtime) (body : Fields) (j : String)
    → ((all_readable body ≡ true)
        × ((headers : Headers) × (extract_headers py body ≡ ok headers)
            × (Dict.lookup j headers
                ≡ or_else (source_text py j (source "litellm_metadata" body)) (
                    or_else
                      (source_text py j (source "metadata" body))
                      (source_text py j (source "proxy_server_request" body))))))
      ⊎ ((all_readable body ≡ false) × (extract_headers py body ≡ raise attribute_error))
unfolding extract_headers
extract_headers-lookup py body j = elim (get_in_cases (get "proxy_server_request" body) "headers") [
  | inr e ↦ inr (ground arith, ground arith)
  | inl (p, e) ↦ elim (get_in_cases (get "metadata" body) "headers") [
    | inr f ↦ inr (ground arith, ground arith)
    | inl (m, f) ↦ elim (get_in_cases (get "litellm_metadata" body) "headers") [
      | inr g ↦ inr (ground arith, ground arith)
      | inl (l, g) ↦ inl (
        ground arith,
        (
          merge_source py l (merge_source py m (merge_source py p [])),
          ground arith,
          ground (
            arith,
            lookup-merge_source py j l (merge_source py m (merge_source py p [])),
            lookup-merge_source py j m (merge_source py p []),
            lookup-merge_source py j p [],
            or_else-none (source_text py j p),
          ),
        ),
      )
    ]
  ]
]
