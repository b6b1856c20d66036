-- ===== src/Prelude/Text.antt =====
-- Python's `str` as the native text: slices, substring tests and `join`.
use Prim.Native.Nat.{ℕ, zero, suc, ◌+◌, ◌-◌, ◌≤◌, min}
use Prim.Native.Char.{Char}
use Prim.Native.String.{String, [], ◌∷◌, ◌++◌}
use mathlib.Core.Bool.{Bool, true, false, not, ◌||◌}
use mathlib.Core.List.{List}
use mathlib.Core.Path.{◌≡◌, refl, ap}
use native.Mathlib.Omega.{arith}
use text.Mathlib.Text.{starts_with, ◌==◌}
use text.Mathlib.TextLemmas.{nil-append, cons-append}
use lite_router.Prelude.Tests.{if◌then◌else◌}
pub use text.Mathlib.Text.{starts_with}
pub use Prim.Native.String.{◌++◌}

-- `len(s)`
abbrev pub length : String → ℕ
length [] = 0
length (c ∷ s) = suc (length s)

-- `s[:n]`
abbrev pub take : ℕ → String → String
take zero s = []
take (suc n) [] = []
take (suc n) (c ∷ s) = c ∷ take n s

-- `s[n:]`
abbrev pub drop : ℕ → String → String
drop zero s = s
drop (suc n) [] = []
drop (suc n) (c ∷ s) = drop n s

-- `bool(s)`
abbrev pub nonempty : String → Bool
nonempty [] = false
nonempty (c ∷ s) = true

pub nonempty-false : (s : String) → nonempty s ≡ false → s ≡ []
nonempty-false [] h = refl
nonempty-false (c ∷ s) h = cc

pub nonempty-true : (s : String) → nonempty s ≡ true → ¬ (s ≡ [])
nonempty-true [] h e = cc
nonempty-true (c ∷ s) h e = cc

-- `sub in s`
abbrev pub contains : String → String → Bool
contains sub [] = sub == []
contains sub (c ∷ s) = starts_with (c ∷ s) sub || contains sub s

-- `sep.join(parts)`
abbrev pub join : String → List String → String
join sep List.[] = []
join sep (List.◌∷◌ s List.[]) = s
join sep (List.◌∷◌ s (List.◌∷◌ t rest)) = s ++ (sep ++ join sep (List.◌∷◌ t rest))

-- `"".join(parts)`
abbrev pub concat : List String → String
concat List.[] = []
concat (List.◌∷◌ s rest) = s ++ concat rest

-- `s.lstrip()`, `s.rstrip()` and `s.strip()`, given the test for white space
abbrev pub lstrip : (Char → Bool) → String → String
lstrip sp [] = []
lstrip sp (c ∷ s) = let rest = lstrip sp s in if sp c then rest else c ∷ s

abbrev pub keep_before : (Char → Bool) → Char → String → String
keep_before sp c [] = if sp c then [] else c ∷ []
keep_before sp c (d ∷ s) = c ∷ d ∷ s

abbrev pub rstrip : (Char → Bool) → String → String
rstrip sp [] = []
rstrip sp (c ∷ s) = keep_before sp c (rstrip sp s)

abbrev pub strip : (Char → Bool) → String → String
strip sp s = rstrip sp (lstrip sp s)

-- `s.split()`, given the test for white space: a character joins the word that follows it at once
abbrev begins_word : (Char → Bool) → String → Bool
begins_word sp [] = false
begins_word sp (c ∷ s) = not (sp c)

abbrev onto_word : Char → Bool → List String → List String
onto_word c true (List.◌∷◌ w ws) = List.◌∷◌ (c ∷ w) ws
onto_word c joined ws = List.◌∷◌ (c ∷ []) ws

abbrev pub split : (Char → Bool) → String → List String
split sp [] = List.[]
split sp (c ∷ s) =
    let rest = split sp s in if sp c then rest else onto_word c (begins_word sp s) rest

pub length-take-le : (n : ℕ) (s : String) → length (take n s) ≤ n
length-take-le zero s = omega arith
length-take-le (suc n) [] = omega arith
length-take-le (suc n) (c ∷ s) = omega (arith, length-take-le n s)

pub length-take : (n : ℕ) (s : String) → length (take n s) ≡ min n (length s)
length-take zero s = omega arith
length-take (suc n) [] = omega arith
length-take (suc n) (c ∷ s) = omega (arith, length-take n s)

pub length-append : (s t : String) → length (s ++ t) ≡ length s + length t
length-append [] t = rw nil-append (omega arith)
length-append (c ∷ s) t = rw cons-append (omega (arith, length-append s t))

pub take-nil : (n : ℕ) → take n [] ≡ []
take-nil zero = refl
take-nil (suc n) = refl

zero_sub : (n : ℕ) → zero - n ≡ zero
zero_sub n = omega arith

sub_zero : (n : ℕ) → n - zero ≡ n
sub_zero n = omega arith

suc_sub : (m n : ℕ) → suc m - suc n ≡ m - n
suc_sub m n = omega arith

pub take-append : (n : ℕ) (s t : String) → take n (s ++ t) ≡ take n s ++ take (n - length s) t
take-append n [] t = simp (nil-append, take-nil, sub_zero)
take-append zero (c ∷ s) t = simp (zero_sub, nil-append)
take-append (suc n) (c ∷ s) t = simp (cons-append, suc_sub, take-append n s t)

-- `s[:n][:m]`
pub take-take : (m n : ℕ) (s : String) → m ≤ n → take m (take n s) ≡ take m s
take-take zero n s h = refl
take-take (suc m) zero s h = absurd (omega arith)
take-take (suc m) (suc n) [] h = refl
take-take (suc m) (suc n) (c ∷ s) h = ap (◌∷◌ c) (take-take m n s (omega arith))

pub take_of_length-le : (n : ℕ) (s : String) → length s ≤ n → take n s ≡ s
take_of_length-le zero [] h = refl
take_of_length-le zero (c ∷ s) h = absurd (omega arith)
take_of_length-le (suc n) [] h = refl
take_of_length-le (suc n) (c ∷ s) h = ap (◌∷◌ c) (take_of_length-le n s (omega arith))
