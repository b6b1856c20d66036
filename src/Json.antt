-- ===== src/Json.antt =====
-- The JSON values of a request body or an answer, and the Python operations that the code applies to
-- them. An integer or a float is known by what the code can see of it.
use Prim.Native.String.{[], ◌∷◌}
use lite_router.Prelude.{
  ℕ, suc, ◌≡◌, refl, ◌⊎◌, inl, inr, arith, eq_refl, eq_iff, Bool, true, false, String, ◌==◌,
  if◌then◌else◌, Bool-cases, Option, none, some,
}
use lite_router.Prelude.Text
use lite_router.Runtime.{Float, zero_float, one_float}
use lite_router.Outcome.{
  Exn, Outcome, ok, raise, attribute_error, type_error, key_error, index_error, value_error,
  overflow_error,
}

-- a number n: whether it differs from 0, `float(n)`, none where that raises OverflowError, and
-- `str(n)`
pub record Number : Type 0 where
  pub nonzero : Bool
  pub float : Option Float
  pub text : String

mutual
  pub data Value : Type 0 where
    -- `None`
    null : Value
    bool : Bool → Value
    num : Number → Value
    str : String → Value
    obj : Fields → Value
    arr : Items → Value

  pub data Fields : Type 0 where
    end : Fields
    field : String → Value → Fields → Fields

  pub data Items : Type 0 where
    nil : Items
    cons : Value → Items → Items

-- `d.get(k)`: `None` stands for a missing key too.
abbrev pub get : String → Fields → Value
get k end = null
get k (field j v rest) = if j == k then v else get k rest

-- `k in d`
abbrev pub has_key : String → Fields → Bool
has_key k end = false
has_key k (field j v rest) = if j == k then true else has_key k rest

-- `d[k] = v`
abbrev pub put : String → Value → Fields → Fields
put k v end = field k v end
put k v (field j w rest) = if j == k then field k v rest else field j w (put k v rest)

abbrev items_nonempty : Items → Bool
items_nonempty nil = false
items_nonempty (cons v rest) = true

abbrev fields_nonempty : Fields → Bool
fields_nonempty end = false
fields_nonempty (field k v rest) = true

-- `bool(v)`
abbrev pub truthy : Value → Bool
truthy null = false
truthy (bool b) = b
truthy (num n) = n.nonzero
truthy (str s) = Text.nonempty s
truthy (arr xs) = items_nonempty xs
truthy (obj fs) = fields_nonempty fs

-- `(v or {}).get(k)`
abbrev pub get_in : Value → String → Outcome Value
get_in (obj fs) k = ok (get k fs)
get_in v k = if truthy v then raise attribute_error else ok null

abbrev pub length_items : Items → ℕ
length_items nil = 0
length_items (cons v rest) = suc (length_items rest)

-- the items of two lists, one behind the other
abbrev pub append_items : Items → Items → Items
append_items nil ys = ys
append_items (cons x xs) ys = cons x (append_items xs ys)

abbrev keys : Fields → Items
keys end = nil
keys (field k v rest) = cons (str k) (keys rest)

abbrev characters : String → Items
characters [] = nil
characters (c ∷ s) = cons (str (c ∷ [])) (characters s)

-- what `for x in (v or [])` goes through
abbrev pub iterate : Value → Outcome Items
iterate (arr xs) = ok xs
iterate (obj fs) = ok (keys fs)
iterate (str s) = ok (characters s)
iterate v = if truthy v then raise type_error else ok nil

-- `msg.get("role") == role`, for a message that is a dict
abbrev pub is_str : String → Value → Bool
is_str s (str t) = t == s
is_str s v = false

-- `v.get(k)` where `v` is a dict, and None where it is not (the callers test that first)
abbrev pub get_of : String → Value → Value
get_of k (obj fields) = get k fields
get_of k v = null

-- `isinstance(msg, dict) and msg.get("role") == role`
abbrev pub has_role : String → Value → Bool
has_role role msg = is_str role (get_of "role" msg)

-- what a conversion returned, or the exception that it raised
abbrev pub ok_or : Exn → Option Float → Outcome Float
ok_or e none = raise e
ok_or e (some x) = ok x

-- `float(v)`; `parse` is `float` of a text, none where it raises
unfoldable pub float_of : (String → Option Float) → Value → Outcome Float
float_of parse (num n) = ok_or overflow_error n.float
float_of parse (str s) = ok_or value_error (parse s)
float_of parse (bool true) = ok one_float
float_of parse (bool false) = ok zero_float
float_of parse null = raise type_error
float_of parse (arr xs) = raise type_error
float_of parse (obj fs) = raise type_error

-- `d[k]`, for the value `get k d` of a dict `d`
abbrev item_or : Bool → Value → Outcome Value
item_or true v = ok v
item_or false v = raise key_error

-- `v[k]` for a text `k`
abbrev pub item : String → Value → Outcome Value
item k (obj fs) = item_or (has_key k fs) (get k fs)
item k v = raise type_error

-- `v[0]`
abbrev pub first_item : Value → Outcome Value
first_item (arr nil) = raise index_error
first_item (arr (cons x xs)) = ok x
first_item (str []) = raise index_error
first_item (str (c ∷ s)) = ok (str (c ∷ []))
first_item (obj fs) = raise key_error
first_item v = raise type_error

abbrev take_items : ℕ → Items → Items
take_items ℕ.zero xs = nil
take_items (suc n) nil = nil
take_items (suc n) (cons x xs) = cons x (take_items n xs)

-- `v[:n]`; a dict raises TypeError, as a slice is no key before Python 3.12
abbrev pub slice : ℕ → Value → Outcome Value
slice n (str s) = ok (str (Text.take n s))
slice n (arr xs) = ok (arr (take_items n xs))
slice n v = raise type_error

-- `(v or {}).get(k)` returns, or `v` has no `get`.
pub get_in_cases :
    (v : Value) (k : String)
    → ((x : Value) × (get_in v k ≡ ok x)) ⊎ (get_in v k ≡ raise attribute_error)
get_in_cases (obj fs) k = inl (get k fs, refl)
get_in_cases null k = inl (null, refl)
get_in_cases (bool true) k = inr refl
get_in_cases (bool false) k = inl (null, refl)
get_in_cases (num n) k = elim (Bool-cases n.nonzero) [
  | inl e ↦ inr (rw e refl)
  | inr e ↦ inl (null, rw e refl)
]
get_in_cases (str []) k = inl (null, refl)
get_in_cases (str (c ∷ s)) k = inr refl
get_in_cases (arr nil) k = inl (null, refl)
get_in_cases (arr (cons x xs)) k = inr refl

pub get-put_self : (k : String) (v : Value) (fs : Fields) → get k (put k v fs) ≡ v
get-put_self k v end = rw (eq_refl k)
get-put_self k v (field j w rest) = ground (arith, eq_refl k, get-put_self k v rest)

pub get-put_ne :
    (k j : String) (v : Value) (fs : Fields) → (k == j) ≡ false → get j (put k v fs) ≡ get j fs
get-put_ne k j v end h = rw h
get-put_ne k j v (field i w rest) h =
    ground (arith, eq_iff i k, eq_iff i j, eq_iff k j, get-put_ne k j v rest h)
