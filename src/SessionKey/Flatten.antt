-- ===== src/SessionKey/Flatten.antt =====
-- `flatten_content` against its reference: the text of a message with no limit, cut once.
use Prim.Native.String.{[], ◌∷◌}
use text.Mathlib.TextLemmas.{nil-append, cons≢nil}
use lite_router.Prelude.{
  List, ℕ, zero, suc, ◌+◌, ◌-◌, ◌≤◌, ◌<◌, ◌≡◌, refl, sym, ap, ◌∙◌, true, false, String, arith, leb,
  Bool-cases, inl, inr, ◌==◌, if◌then◌else◌,
}
use lite_router.Prelude.Text
use lite_router.Prelude.Text.{◌++◌}
use lite_router.Json.{
  Value, null, bool, num, str, arr, obj, Items, nil, cons, Fields, end, field, get,
}
use lite_router.SessionKey.{
  next_round, text_or, flatten_content, flatten_items, block_text, flatten_field,
}

-- The text of a message's content, whole.
unfoldable mutual
  pub full_text : Value → String
  full_text (str s) = s
  full_text (arr blocks) = full_items blocks
  full_text null = ""
  full_text (bool b) = ""
  full_text (num n) = ""
  full_text (obj fields) = ""

  pub full_items : Items → String
  full_items nil = ""
  full_items (cons block rest) = full_block block ++ full_items rest

  pub full_block : Value → String
  full_block (str s) = s
  full_block (obj fields) = text_or (get "text" fields) (full_field fields)
  full_block null = ""
  full_block (bool b) = ""
  full_block (num n) = ""
  full_block (arr items) = ""

  pub full_field : Fields → String
  full_field end = ""
  full_field (field k v rest) = if k == "content" then full_text v else full_field rest

take_eq_nil : (n : ℕ) (s : String) → 0 < n → Text.take n s ≡ [] → s ≡ []
take_eq_nil zero s p h = absurd (omega arith)
take_eq_nil (suc n) [] p h = refl
take_eq_nil (suc n) (c ∷ s) p h = absurd (cons≢nil h)

eq-nil_of_not_nonempty : (s : String) → Text.nonempty s ≡ false → s ≡ []
eq-nil_of_not_nonempty [] h = refl
eq-nil_of_not_nonempty (c ∷ s) h = cc

module _ (limit total : ℕ) (text whole later : String)
    (same : Text.take (limit - total) text ≡ Text.take (limit - total) whole) where
  room_left :
      limit - (total + Text.length (Text.take (limit - total) whole))
      ≡ limit - total - Text.length whole
  room_left = omega (arith, Text.length-take (limit - total) whole)

  -- one more part, and the rest with the room that is left
  nonempty_step :
      Text.take (limit - total) text
        ++ Text.take (limit - (total + Text.length (Text.take (limit - total) text))) later
      ≡ Text.take (limit - total) (whole ++ later)
  nonempty_step = rw (same, room_left) (sym (Text.take-append (limit - total) whole later))

  -- a block with no text is skipped
  empty_step :
      leb limit total ≡ false
      → Text.nonempty text ≡ false
      → Text.take (limit - total) later ≡ Text.take (limit - total) (whole ++ later)
  empty_step open_room none =
      let e = eq-nil_of_not_nonempty text none in
      let cut : Text.take (limit - total) whole ≡ [] =
        sym same ∙ ap (Text.take (limit - total)) e ∙ Text.take-nil (limit - total) in
      let w = take_eq_nil (limit - total) whole (ground arith) cut in rw (w, nil-append)

sub_zero : (n : ℕ) → n - zero ≡ n
sub_zero n = omega arith

no_room : (limit total : ℕ) (s : String) → leb limit total ≡ true → Text.take (limit - total) s ≡ []
no_room limit total s h = let e : limit - total ≡ 0 = ground arith in rw e

-- one round of the loop, for any later rounds that are right
items_step :
    (limit total : ℕ) (text whole later : String) (rounds : ℕ → List String)
    → Text.take (limit - total) text ≡ Text.take (limit - total) whole
    → ((t : ℕ) → Text.concat (rounds t) ≡ Text.take (limit - t) later)
    → Text.concat (next_round limit total text rounds) ≡ Text.take (limit - total) (whole ++ later)
items_step limit total text whole later rounds same ih = ground (
  arith,
  ih total,
  ih (total + Text.length (Text.take (limit - total) text)),
  nonempty_step limit total text whole later same,
  empty_step limit total text whole later same,
  no_room limit total (whole ++ later),
)

obj_step :
    (t : Value) (n : ℕ) {here : String} (whole : String)
    → here ≡ Text.take n whole
    → Text.take n (text_or t here) ≡ Text.take n (text_or t whole)
obj_step (str s) n whole h = refl
obj_step null n whole h = rw h (Text.take-take n n whole (omega arith))
obj_step (bool b) n whole h = rw h (Text.take-take n n whole (omega arith))
obj_step (num b) n whole h = rw h (Text.take-take n n whole (omega arith))
obj_step (arr xs) n whole h = rw h (Text.take-take n n whole (omega arith))
obj_step (obj fs) n whole h = rw h (Text.take-take n n whole (omega arith))

mutual
  unfolding flatten_content flatten_items block_text flatten_field full_text full_items full_block
      full_field

  content_lem : (v : Value) (n : ℕ) → flatten_content v n ≡ Text.take n (full_text v)
  content_lem (str s) n = refl
  content_lem (arr blocks) n = rw sub_zero at (items_lem blocks n 0)
  content_lem null n = sym (Text.take-nil n)
  content_lem (bool b) n = sym (Text.take-nil n)
  content_lem (num b) n = sym (Text.take-nil n)
  content_lem (obj fields) n = sym (Text.take-nil n)

  items_lem :
      (xs : Items) (limit total : ℕ)
      → Text.concat (flatten_items xs limit total) ≡ Text.take (limit - total) (full_items xs)
  items_lem nil limit total = sym (Text.take-nil _)
  items_lem (cons b xs) limit total =
      items_step limit total (block_text b (limit - total)) (full_block b) (full_items xs)
        (λ t. flatten_items xs limit t) (block_lem b (limit - total)) (λ t. items_lem xs limit t)

  block_lem : (b : Value) (n : ℕ) → Text.take n (block_text b n) ≡ Text.take n (full_block b)
  block_lem (str s) n = refl
  block_lem (obj fields) n = obj_step (get "text" fields) n (full_field fields) (field_lem fields n)
  block_lem null n = refl
  block_lem (bool b) n = refl
  block_lem (num b) n = refl
  block_lem (arr items) n = refl

  field_lem : (fs : Fields) (n : ℕ) → flatten_field fs n ≡ Text.take n (full_field fs)
  field_lem end n = sym (Text.take-nil n)
  field_lem (field k v rest) n = elim (Bool-cases (k == "content")) [
    | inl e ↦ rw e (content_lem v n)
    | inr e ↦ rw e (field_lem rest n)
  ]

-- For every content and limit, `flatten_content` returns the whole text cut at the limit: the
-- truncation of each block and the early exit of the loop lose nothing else.
pub flatten_content-eq-take :
    (v : Value) (limit : ℕ) → flatten_content v limit ≡ Text.take limit (full_text v)
flatten_content-eq-take v limit = content_lem v limit

-- The text that the router reads of a message is never longer than the limit.
pub length-flatten_content-le :
    (v : Value) (limit : ℕ) → Text.length (flatten_content v limit) ≤ limit
length-flatten_content-le v limit =
    rw (content_lem v limit) (Text.length-take-le limit (full_text v))
