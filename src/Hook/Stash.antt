-- ===== src/Hook/Stash.antt =====
-- The router's note in the metadata of a request.
use lite_router.Prelude.{
  ◌≡◌, refl, sym, ap, ◌∙◌, Bool, true, false, String, ◌==◌, Bool-cases, inl, inr, ◌⊎◌,
}
use lite_router.Outcome.{Outcome, ok, raise, type_error}
use lite_router.Json.{
  Value, null, bool, num, str, arr, obj, Fields, end, get, put, has_key, get-put_self, get-put_ne,
}
use lite_router.Hook.Route.{set_default, stash_in_metadata, leave_stash}

-- the dict that stands under a key, empty where there is none
abbrev pub dict_of : Value → Fields
dict_of (obj fields) = fields
dict_of null = end
dict_of (bool b) = end
dict_of (num n) = end
dict_of (str s) = end
dict_of (arr xs) = end

-- The body has the note in the dict under `k`, and nothing else in that dict or in the body has
-- changed.
pub record Left (stash : Value) (body : Fields) (k : String) (b : Fields) : Type 0 where
  pub meta : Fields
  pub there : get k b ≡ obj meta
  pub noted : get "lite_router" meta ≡ stash
  pub kept : (j : String) → ("lite_router" == j) ≡ false → get j meta ≡ get j (dict_of (get k body))
  pub others : (j : String) → (k == j) ≡ false → get j b ≡ get j body

abbrev is_dict : Value → Bool
is_dict (obj fields) = true
is_dict null = false
is_dict (bool b) = false
is_dict (num n) = false
is_dict (str s) = false
is_dict (arr xs) = false

put-Left :
    (stash : Value) (body : Fields) (k : String) (meta : Fields)
    → dict_of (get k body) ≡ meta
    → Left stash body k (put k (obj (put "lite_router" stash meta)) body)
put-Left stash body k meta e = record {
  meta = put "lite_router" stash meta;
  there = get-put_self k (obj (put "lite_router" stash meta)) body;
  noted = get-put_self "lite_router" stash meta;
  kept = λ j ne.
      get-put_ne "lite_router" j stash meta ne ∙ ap (λ (fields : Fields). get j fields) (sym e);
  others = λ j ne. get-put_ne k j (obj (put "lite_router" stash meta)) body ne;
}

no_dict-end : (v : Value) → is_dict v ≡ false → dict_of v ≡ end
no_dict-end (obj fields) h = absurd (cc h)
no_dict-end null h = refl
no_dict-end (bool b) h = refl
no_dict-end (num n) h = refl
no_dict-end (str s) h = refl
no_dict-end (arr xs) h = refl

-- How the note is left by the fallback on "metadata".
abbrev InMetadata : Value → Fields → Value → Outcome Fields → Type 0
InMetadata stash body metadata result =
    ((b : Fields) × (result ≡ ok b)
      × Left stash body "metadata" b
      × ((is_dict metadata ≡ true) ⊎ (has_key "metadata" body ≡ false)))
    ⊎ ((is_dict metadata ≡ false) × (has_key "metadata" body ≡ true) × (result ≡ raise type_error))

set_default-cases :
    (stash : Value) (body : Fields) (metadata : Value)
    → get "metadata" body ≡ metadata
    → is_dict metadata ≡ false
    → InMetadata stash body metadata (set_default stash body)
set_default-cases stash body metadata e h = elim (Bool-cases (has_key "metadata" body)) [
  | inl there ↦ rw there (inr (h, refl, refl))
  | inr absent ↦ rw absent (
      inl (
        _,
        refl,
        put-Left stash body "metadata" end (ap dict_of e ∙ no_dict-end metadata h),
        inr refl,
      ))
]

stash_in_metadata-cases :
    (stash : Value) (body : Fields) (metadata : Value)
    → get "metadata" body ≡ metadata
    → InMetadata stash body metadata (stash_in_metadata stash body metadata)
stash_in_metadata-cases stash body (obj meta) e =
    inl (_, refl, put-Left stash body "metadata" meta (ap dict_of e), inl refl)
stash_in_metadata-cases stash body null e = set_default-cases stash body null e refl
stash_in_metadata-cases stash body (bool b) e = set_default-cases stash body (bool b) e refl
stash_in_metadata-cases stash body (num n) e = set_default-cases stash body (num n) e refl
stash_in_metadata-cases stash body (str s) e = set_default-cases stash body (str s) e refl
stash_in_metadata-cases stash body (arr xs) e = set_default-cases stash body (arr xs) e refl

-- How the note is left, by what "litellm_metadata" holds.
abbrev pub Stashed : Value → Fields → Value → Outcome Fields → Type 0
Stashed stash body litellm result =
    ((b : Fields) × (result ≡ ok b)
      × ((Left stash body "litellm_metadata" b × (is_dict litellm ≡ true))
          ⊎ (Left stash body "metadata" b
              × (is_dict litellm ≡ false)
              × ((is_dict (get "metadata" body) ≡ true) ⊎ (has_key "metadata" body ≡ false)))))
    ⊎ ((is_dict litellm ≡ false)
        × (is_dict (get "metadata" body) ≡ false)
        × (has_key "metadata" body ≡ true)
        × (result ≡ raise type_error))

Stashed-in_metadata :
    (stash : Value) (body : Fields) (litellm : Value)
    → is_dict litellm ≡ false
    → Stashed stash body litellm (stash_in_metadata stash body (get "metadata" body))
Stashed-in_metadata stash body litellm h =
    elim (stash_in_metadata-cases stash body (get "metadata" body) refl) [
      | inl (b, e, left, open_) ↦ inl (b, e, inr (left, h, open_))
      | inr (no_dict, there, e) ↦ inr (h, no_dict, there, e)
    ]

leave_stash-Stashed :
    (stash : Value) (body : Fields) (litellm : Value)
    → get "litellm_metadata" body ≡ litellm
    → Stashed stash body litellm (leave_stash stash body litellm)
unfolding leave_stash
leave_stash-Stashed stash body (obj meta) e =
    inl (_, refl, inl (put-Left stash body "litellm_metadata" meta (ap dict_of e), refl))
leave_stash-Stashed stash body null e = Stashed-in_metadata stash body null refl
leave_stash-Stashed stash body (bool b) e = Stashed-in_metadata stash body (bool b) refl
leave_stash-Stashed stash body (num n) e = Stashed-in_metadata stash body (num n) refl
leave_stash-Stashed stash body (str s) e = Stashed-in_metadata stash body (str s) refl
leave_stash-Stashed stash body (arr xs) e = Stashed-in_metadata stash body (arr xs) refl

-- The note goes into the dict under "litellm_metadata" where there is one, else into the one under
-- "metadata", which is a new one if the body has no such key. The other entries of that dict and
-- the other keys of the body stay as they were. A TypeError is raised exactly where neither key
-- holds a dict and the body has a "metadata" all the same, a null one for example.
pub leave_stash_cases :
    (stash : Value) (body : Fields)
    → Stashed stash body
        (get "litellm_metadata" body)
        (leave_stash stash body (get "litellm_metadata" body))
leave_stash_cases stash body = leave_stash-Stashed stash body (get "litellm_metadata" body) refl
