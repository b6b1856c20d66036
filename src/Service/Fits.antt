-- ===== src/Service/Fits.antt =====
-- `user_prompt` of prompt.py: what the cut at MAX_PROMPT_CHARS leaves of the first message.
use mathlib.Core.List as L
use text.Mathlib.TextLemmas.{nil-append, append_assoc}
use lite_router.Prelude.{
  ℕ, ◌+◌, ◌≤◌, ◌≡◌, refl, sym, ap, ◌∙◌, String, List, [], ◌∷◌, arith, inl, inr, if◌then◌else◌,
  Bool-cases,
}
use lite_router.Prelude.Text
use lite_router.Prelude.Text.{◌++◌}
use lite_router.Outcome.{ok}
use lite_router.Json.{Value, str, end, field}
use lite_router.Service.Prompt.{
  max_prompt_chars, cwd_part, excerpt_part, summary_part, joined, user_prompt,
}

-- the parts before the last one, with a separator after each
abbrev lead : List String → String
lead [] = ""
lead (s ∷ rest) = s ++ ("\n\n" ++ lead rest)

join_last : (xs : List String) (y : String) → Text.join "\n\n" (L.◌++◌ xs (y ∷ [])) ≡ lead xs ++ y
join_last [] y = sym (nil-append y)
join_last (x ∷ []) y = rw (append_assoc x ("\n\n" ++ "") y) refl
join_last (x ∷ (z ∷ xs)) y =
    rw
      (
        join_last (z ∷ xs) y,
        append_assoc x ("\n\n" ++ lead (z ∷ xs)) y,
        append_assoc "\n\n" (lead (z ∷ xs)) y,
      )
      refl

join_grouped :
    (xs ys zs : List String) (y : String)
    → Text.join "\n\n" (L.◌++◌ xs (L.◌++◌ ys (L.◌++◌ zs (y ∷ []))))
      ≡ lead (L.◌++◌ xs (L.◌++◌ ys zs)) ++ y
join_grouped xs ys zs y =
    ap (Text.join "\n\n") (
      ap (L.◌++◌ xs) (sym (L.append_assoc ys zs (y ∷ [])))
      ∙ sym (L.append_assoc xs (L.◌++◌ ys zs) (y ∷ [])))
    ∙ join_last (L.◌++◌ xs (L.◌++◌ ys zs)) y

-- how long a lead gets
abbrev cost : List String → ℕ
cost [] = 0
cost (s ∷ rest) = Text.length s + 2 + cost rest

length-lead : (xs : List String) → Text.length (lead xs) ≡ cost xs
length-lead [] = refl
length-lead (x ∷ xs) = omega (
  arith,
  length-lead xs,
  Text.length-append x ("\n\n" ++ lead xs),
  Text.length-append "\n\n" (lead xs),
)

cost-append : (xs ys : List String) → cost (L.◌++◌ xs ys) ≡ cost xs + cost ys
cost-append [] ys = omega arith
cost-append (x ∷ xs) ys = omega (arith, cost-append xs ys)

module _ (show : Value → String) where
  cwd_part-cost : (cwd : String) → cost (cwd_part show (str cwd)) ≤ Text.length cwd + 21
  cwd_part-cost cwd = elim (Bool-cases (Text.nonempty cwd)) [
    | inl e ↦ rw e (omega (arith, Text.length-append "Working directory: " cwd))
    | inr e ↦ rw e (omega arith)
  ]

  summary_part-cost : (system : String) → cost (summary_part show system) ≤ 1025
  summary_part-cost system = elim (Bool-cases (Text.nonempty system)) [
    | inl e ↦ rw e (
        omega (
          arith,
          Text.length-append "System prompt summary:\n" (Text.take 1000 system),
          Text.length-take-le 1000 system,
        ))
    | inr e ↦ rw e (omega arith)
  ]

  -- the excerpt's part, for an excerpt that is a text
  abbrev excerpt_of : String → List String
  excerpt_of excerpt =
      if Text.nonempty excerpt
      then ("Project context excerpt:\n" ++ Text.take 500 excerpt) ∷ []
      else []

  excerpt_part_text : (excerpt : String) → excerpt_part show (str excerpt) ≡ ok (excerpt_of excerpt)
  excerpt_part_text excerpt = elim (Bool-cases (Text.nonempty excerpt)) [
    | inl e ↦ rw e refl
    | inr e ↦ rw e refl
  ]

  excerpt_of-cost : (excerpt : String) → cost (excerpt_of excerpt) ≤ 527
  excerpt_of-cost excerpt = elim (Bool-cases (Text.nonempty excerpt)) [
    | inl e ↦ rw e (
        omega (
          arith,
          Text.length-append "Project context excerpt:\n" (Text.take 500 excerpt),
          Text.length-take-le 500 excerpt,
        ))
    | inr e ↦ rw e (omega arith)
  ]

  abbrev message : String → String
  message first = "First user message:\n" ++ Text.take 4000 first

  length-message : (first : String) → Text.length (message first) ≤ 4020
  length-message first = omega (
    arith,
    Text.length-append "First user message:\n" (Text.take 4000 first),
    Text.length-take-le 4000 first,
  )

  abbrev parts : String → String → String → List String
  parts cwd excerpt system =
      L.◌++◌ (cwd_part show (str cwd)) (L.◌++◌ (excerpt_of excerpt) (summary_part show system))

  parts-cost :
      (cwd excerpt system : String) → cost (parts cwd excerpt system) ≤ Text.length cwd + 1573
  parts-cost cwd excerpt system = omega (
    arith,
    cwd_part-cost cwd,
    excerpt_of-cost excerpt,
    summary_part-cost system,
    cost-append (cwd_part show (str cwd)) (L.◌++◌ (excerpt_of excerpt) (summary_part show system)),
    cost-append (excerpt_of excerpt) (summary_part show system),
  )

  joined_text :
      (first system cwd excerpt : String)
      → joined show first system (str cwd) (excerpt_of excerpt)
        ≡ lead (parts cwd excerpt system) ++ message first
  joined_text first system cwd excerpt =
      join_grouped (cwd_part show (str cwd)) (excerpt_of excerpt) (summary_part show system)
        (message first)

  prompt-fits :
      (first system cwd excerpt : String)
      → Text.length cwd ≤ 407
      → Text.length (lead (parts cwd excerpt system) ++ message first) ≤ max_prompt_chars
  prompt-fits first system cwd excerpt short = omega (
    arith,
    Text.length-append (lead (parts cwd excerpt system)) (message first),
    length-lead (parts cwd excerpt system),
    parts-cost cwd excerpt system,
    length-message first,
  )

  -- The cut at MAX_PROMPT_CHARS spares the first message: with hints that are texts, and a working
  -- directory of at most 407 characters, the prompt ends in the first 4000 characters of the message,
  -- whatever the excerpt and the summary, and whole it is within the limit.
  pub user_prompt-message :
      (first system cwd excerpt : String)
      → Text.length cwd ≤ 407
      → (front : String) × (user_prompt show first system
            (field "cwd" (str cwd) (field "claude_md_excerpt" (str excerpt) end))
          ≡ ok (front ++ ("First user message:\n" ++ Text.take 4000 first)))
        × (Text.length (front ++ ("First user message:\n" ++ Text.take 4000 first))
            ≤ max_prompt_chars)
  unfolding user_prompt
  user_prompt-message first system cwd excerpt short =
      let front = lead (parts cwd excerpt system) in
      let fits = prompt-fits first system cwd excerpt short in
      (
        front,
        rw (excerpt_part_text excerpt, joined_text first system cwd excerpt)
            (ap ok (Text.take_of_length-le max_prompt_chars (front ++ message first) fits)),
        fits,
      )
