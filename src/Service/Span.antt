-- ===== src/Service/Span.antt =====
-- `text.find("{")`, `text.rfind("}")` and the span between them, of `_extract_json` in backend.py.
use Prim.Native.Char.{code}
use Prim.Native.String.{[], ◌∷◌}
use text.Mathlib.TextLemmas.{nil-append, cons-append}
use lite_router.Prelude.{
  ℕ, suc, ◌+◌, ◌≡◌, refl, ap, ◌∙◌, true, Char, String, Option, none, some, nat_eq, ltb,
  if◌then◌else◌, arith, Option-cases, inl, inr,
}
use lite_router.Prelude.Text
use lite_router.Prelude.Text.{◌++◌}

-- the index of the first character that is `c`, `none` for -1
unfoldable pub find : Char → String → Option ℕ
find c [] = none
find c (d ∷ s) =
    let rest = find c s in
    if nat_eq (code d) (code c) then some 0 else elim rest [ none ↦ none | some i ↦ some (suc i) ]

-- the index of the last one
unfoldable pub rfind : Char → String → Option ℕ
rfind c [] = none
rfind c (d ∷ s) = elim (rfind c s) [
  | some i ↦ some (suc i)
  | none ↦ if nat_eq (code d) (code c) then some 0 else none
]

-- `text[start : end + 1]` where `start != -1 and end > start`
abbrev pub between : Option ℕ → Option ℕ → String → Option String
between (some start) (some end) text =
    if ltb start end then some (Text.drop start (Text.take (suc end) text)) else none
between none end text = none
between (some start) none text = none

unfoldable pub outermost : String → Option String
outermost text = between (find "{" text) (rfind "}" text) text

-- a text that has no character `c`
abbrev pub Lacks : Char → String → Type 0
Lacks c s = find c s ≡ none

rfind_of_Lacks : (c : Char) (s : String) → Lacks c s → rfind c s ≡ none
unfolding find rfind
rfind_of_Lacks c [] h = refl
rfind_of_Lacks c (d ∷ s) h = elim (Option-cases (find c s)) [
  | inl e ↦ rw (rfind_of_Lacks c s e) (ground arith)
  | inr (i, e) ↦ absurd (ground arith)
]

-- The first one behind a text that has none is at that text's end.
find-append :
    (c : Char) (pre rest : String)
    → Lacks c pre
    → find c (pre ++ (c ∷ rest)) ≡ some (Text.length pre)
unfolding find
find-append c [] rest h = rw (nil-append (c ∷ rest)) (ground arith)
find-append c (d ∷ pre) rest h = elim (Option-cases (find c pre)) [
  | inl e ↦ rw (cons-append d pre (c ∷ rest), find-append c pre rest e) (ground arith)
  | inr (i, e) ↦ absurd (ground arith)
]

rfind_at_head : (c : Char) (post : String) → Lacks c post → rfind c (c ∷ post) ≡ some 0
unfolding rfind
rfind_at_head c post h = rw (rfind_of_Lacks c post h) (ground arith)

suc_add : (m n : ℕ) → suc m + n ≡ suc (m + n)
suc_add m n = omega arith

-- The last one is where it is behind another text.
rfind-behind :
    (c : Char) (pre rest : String) (i : ℕ)
    → rfind c rest ≡ some i
    → rfind c (pre ++ rest) ≡ some (Text.length pre + i)
unfolding rfind
rfind-behind c [] rest i h = rw (nil-append rest) (h ∙ ap some (omega arith))
rfind-behind c (d ∷ pre) rest i h =
    rw (cons-append d pre rest, rfind, rfind-behind c pre rest i h, suc_add (Text.length pre) i)
      refl

drop-take-behind :
    (pre rest : String) (n : ℕ)
    → Text.drop (Text.length pre) (Text.take (Text.length pre + n) (pre ++ rest)) ≡ Text.take n rest
drop-take-behind [] rest n = rw (nil-append rest) (ap (λ k. Text.take k rest) (omega arith))
drop-take-behind (c ∷ pre) rest n =
    rw (cons-append c pre rest, suc_add (Text.length pre) n) (drop-take-behind pre rest n)

take-past :
    (mid post : String) (c : Char)
    → Text.take (suc (Text.length mid)) (mid ++ (c ∷ post)) ≡ mid ++ (c ∷ [])
take-past [] post c = rw (nil-append (c ∷ post), nil-append (c ∷ [])) refl
take-past (d ∷ mid) post c =
    rw (cons-append d mid (c ∷ post), cons-append d mid (c ∷ []), take-past mid post c) refl

last_brace :
    (mid post : String)
    → Lacks "}" post
    → rfind "}" ("{" ∷ (mid ++ ("}" ∷ post))) ≡ some (suc (Text.length mid))
unfolding rfind
last_brace mid post h =
    rw (rfind, rfind-behind "}" mid ("}" ∷ post) 0 (rfind_at_head "}" post h))
      (ap some (omega arith))

a_span : (m n : ℕ) → ltb m (m + suc n) ≡ true
a_span m n = ground arith

add_suc : (m n : ℕ) → suc (m + suc n) ≡ m + suc (suc n)
add_suc m n = omega arith

between-some :
    (m n : ℕ) (text : String)
    → between (some m) (some (m + suc n)) text
      ≡ some (Text.drop m (Text.take (m + suc (suc n)) text))
between-some m n text =
    rw (a_span m n) (ap (λ k. some (Text.drop m (Text.take k text))) (add_suc m n))

-- In a text with braces, the span from the first opening one to the last closing one.
pub outermost-braces :
    (pre mid post : String)
    → Lacks "{" pre
    → Lacks "}" post
    → outermost (pre ++ ("{" ∷ (mid ++ ("}" ∷ post)))) ≡ some ("{" ∷ (mid ++ ("}" ∷ [])))
unfolding outermost
outermost-braces pre mid post a b =
    let rest = mid ++ ("}" ∷ post) in
    let n = Text.length mid in
    rw
      (
        find-append "{" pre rest a,
        rfind-behind "}" pre ("{" ∷ rest) (suc n) (last_brace mid post b),
      )
      (between-some (Text.length pre) n (pre ++ ("{" ∷ rest))
        ∙ ap some (
            drop-take-behind pre ("{" ∷ rest) (suc (suc n))
            ∙ ap (◌∷◌ "{") (take-past mid post "}")))
