-- ===== src/Overrides.antt =====
-- packages/session-router/src/session_router/overrides.py: repository hints and path overrides. The
-- two regular expressions of the module are fields of `Runtime`.
use lite_router.Prelude.{
  ◌≡◌, refl, Bool, true, false, not, String, Option, none, some, List, [], ◌∷◌, if◌then◌else◌, ◌==◌,
  arith, inl, inr, ◌⊎◌, Bool-cases, Option-cases, All, eq_iff,
}
use lite_router.Prelude.Text
use lite_router.Prelude.Text.{◌++◌}
use lite_router.Runtime.{Runtime, strip}
use lite_router.Policies.{PoliciesConfig}
use lite_router.SessionKey.{Headers, header}

abbrev pub tier_header : String
tier_header = "x-lite-tier"

pub record RepoHints : Type 0 where
  pub cwd : String
  pub claude_md_excerpt : String

abbrev pub no_hints : RepoHints
no_hints = record { cwd = ""; claude_md_excerpt = "" }

-- `excerpt_len` is 1000 at every call.
unfoldable pub extract_repo_hints : Runtime → String → RepoHints
extract_repo_hints py system_text = record {
  cwd = elim (py.find_cwd system_text) [ none ↦ "" | some path ↦ strip py path ];
  claude_md_excerpt = elim (py.find_claude_md system_text) [
    | none ↦ ""
    | some start ↦ Text.take 1000 (Text.drop start system_text)
  ];
}

unfoldable pub header_forces : Runtime → Headers → PoliciesConfig → Bool
header_forces py headers p =
    py.lower (strip py (header tier_header headers)) == p.path_overrides.force_tier

-- the text that the patterns are looked up in
unfoldable pub haystack : Runtime → RepoHints → String
haystack py hints = py.lower (hints.cwd ++ ("\n" ++ hints.claude_md_excerpt))

-- the loop over the patterns
unfoldable pub first_pattern : Runtime → String → List String → Option String
first_pattern py hay [] = none
first_pattern py hay (pattern_ ∷ rest) =
    if Text.contains (py.lower pattern_) hay then some pattern_ else first_pattern py hay rest

unfoldable pub match_path_override : Runtime → RepoHints → Headers → PoliciesConfig → Option String
unfolding first_pattern
match_path_override py hints headers p =
    if header_forces py headers p
    then some "header:x-lite-tier"
    else if not (Text.nonempty (strip py (haystack py hints)))
    then none
    else first_pattern py (haystack py hints) p.path_overrides.patterns

-- The header that asks for a tier, stripped and in lower case.
abbrev pub asked_tier : Runtime → Headers → String
asked_tier py headers = py.lower (strip py (header tier_header headers))

-- The working directory, a line break, and the excerpt, in lower case.
abbrev pub hints_text : Runtime → RepoHints → String
hints_text py hints = py.lower (hints.cwd ++ ("\n" ++ hints.claude_md_excerpt))

-- a pattern that stands in the hints, in lower case on both sides
abbrev pub StandsIn : Runtime → RepoHints → String → Type 0
StandsIn py hints pattern_ = Text.contains (py.lower pattern_) (hints_text py hints) ≡ true

abbrev pub StandsNotIn : Runtime → RepoHints → String → Type 0
StandsNotIn py hints pattern_ = Text.contains (py.lower pattern_) (hints_text py hints) ≡ false

-- `m` is the first listed pattern that stands in the hints.
pub data FirstIn (py : Runtime) (hints : RepoHints) (m : String) : List String → Type 0 where
  first_here : {rest : List String} → StandsIn py hints m → FirstIn py hints m (m ∷ rest)
  first_later :
      {other : String} {rest : List String}
      → StandsNotIn py hints other
      → FirstIn py hints m rest
      → FirstIn py hints m (other ∷ rest)

-- Why a session is forced to the top tier.
pub data Forces (py : Runtime) (hints : RepoHints) (headers : Headers) (p : PoliciesConfig)
    (m : String) : Type 0 where
  by_header :
      asked_tier py headers ≡ p.path_overrides.force_tier
      → m ≡ "header:x-lite-tier"
      → Forces py hints headers p m
  by_pattern :
      ¬ (asked_tier py headers ≡ p.path_overrides.force_tier)
      → ¬ (strip py (hints_text py hints) ≡ "")
      → FirstIn py hints m p.path_overrides.patterns
      → Forces py hints headers p m

first_pattern-FirstIn :
    (py : Runtime) (hints : RepoHints) (l : List String) (m : String)
    → first_pattern py (hints_text py hints) l ≡ some m
    → FirstIn py hints m l
unfolding first_pattern
first_pattern-FirstIn py hints [] m h = cc
first_pattern-FirstIn py hints (s ∷ l) m h =
    elim (Bool-cases (Text.contains (py.lower s) (hints_text py hints))) [
      | inl e ↦ let same : s ≡ m = ground (arith, e) in rw (← same) (first_here e)
      | inr e ↦ first_later e (first_pattern-FirstIn py hints l m (ground (arith, e)))
    ]

first_pattern-none :
    (py : Runtime) (hints : RepoHints) (l : List String)
    → first_pattern py (hints_text py hints) l ≡ none
    → All (StandsNotIn py hints) l
unfolding first_pattern
first_pattern-none py hints [] h = tt
first_pattern-none py hints (s ∷ l) h =
    elim (Bool-cases (Text.contains (py.lower s) (hints_text py hints))) [
      | inl e ↦ absurd (ground (arith, e))
      | inr e ↦ (e, first_pattern-none py hints l (ground (arith, e)))
    ]

header_forces-cases :
    (py : Runtime) (headers : Headers) (p : PoliciesConfig)
    → ((header_forces py headers p ≡ true) × (asked_tier py headers ≡ p.path_overrides.force_tier))
      ⊎ ((header_forces py headers p ≡ false)
          × ¬ (asked_tier py headers ≡ p.path_overrides.force_tier))
unfolding header_forces
header_forces-cases py headers p =
    elim (Bool-cases (asked_tier py headers == p.path_overrides.force_tier)) [
      | inl e ↦ inl (e, (eq_iff _ _).0 e)
      | inr e ↦ inr (e, λ same. absurd (cc (e, (eq_iff _ p.path_overrides.force_tier).1 same)))
    ]

-- The header x-lite-tier, stripped and in lower case, is compared with `force_tier` as it is
-- configured. Where the two are equal, the match is the header's marker. Else it is the first listed
-- pattern that stands, in lower case, in the lower-case text of the working directory, a line break
-- and the excerpt, if that text is not blank. There is no match exactly where the two differ, and that text is blank or has none
-- of the patterns in it.
pub match_path_override_cases :
    (py : Runtime) (hints : RepoHints) (headers : Headers) (p : PoliciesConfig)
    → ((m : String) × (match_path_override py hints headers p ≡ some m)
        × Forces py hints headers p m)
      ⊎ ((match_path_override py hints headers p ≡ none)
          × ¬ (asked_tier py headers ≡ p.path_overrides.force_tier)
          × ((strip py (hints_text py hints) ≡ "")
              ⊎ All (StandsNotIn py hints) p.path_overrides.patterns))
unfolding match_path_override haystack
match_path_override_cases py hints headers p = elim (header_forces-cases py headers p) [
  | inl (e, named) ↦ inl ("header:x-lite-tier", rw e refl, by_header named refl)
  | inr (e, other) ↦ elim (Bool-cases (Text.nonempty (strip py (hints_text py hints)))) [
    | inr blank ↦ inr (rw (e, blank) refl, other, inl (Text.nonempty-false _ blank))
    | inl text ↦
        elim (Option-cases (first_pattern py (hints_text py hints) p.path_overrides.patterns)) [
          | inl missed ↦
              inr (rw (e, text) missed, other, inr (first_pattern-none py hints _ missed))
          | inr (m, hit) ↦ inl (
            m,
            rw (e, text) hit,
            by_pattern other (Text.nonempty-true _ text) (first_pattern-FirstIn py hints _ m hit),
          )
        ]
  ]
]
