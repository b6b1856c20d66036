-- ===== src/Runtime.antt =====
-- What the router takes from outside its own source: the Unicode tables behind `str.lower` and
-- `str.strip`, the regular expressions of `re`, and SHA-256 of `hashlib`. Each is a field, so a
-- theorem holds for any behaviour of them, unless it names what it needs as a hypothesis.
-- `ascii` is one value, for tests and examples.
use Prim.Native.Char.{code}
use Prim.Native.String.{[], ◌∷◌}
use lite_router.Prelude.{
  ℕ, Bool, true, Char, String, Option, none, leb, ◌&&◌, ◌||◌, nat_eq, if◌then◌else◌,
}
use lite_router.Prelude.Text

-- An IEEE double by its bit pattern. The router stores and forwards doubles, and computes with none.
pub record Float : Type 0 where
  pub bits : ℕ

abbrev pub zero_float : Float
zero_float = record { bits = 0 }

abbrev pub one_float : Float
one_float = record { bits = 0x3ff0000000000000 }

pub record Runtime : Type 0 where
  -- `s.lower()`
  pub lower : String → String
  -- the characters that `s.strip()` removes
  pub is_space : Char → Bool
  -- `hashlib.sha256(s.encode("utf-8", errors="replace")).hexdigest()`
  pub sha256 : String → String
  -- whether `re.compile(p, flags)` succeeds; the flag is IGNORECASE
  pub re_compiles : Bool → String → Bool
  -- `re.compile(p, flags).match(s)` and `.search(s)`, as a test
  pub re_match : Bool → String → String → Bool
  pub re_search : Bool → String → String → Bool
  -- the group "path" of the first match of `_CWD_RE`
  pub find_cwd : String → Option String
  -- the start of the first match of `_CLAUDE_MD_RE`
  pub find_claude_md : String → Option ℕ

-- `s.strip()`
abbrev pub strip : Runtime → String → String
strip py s = Text.strip py.is_space s

-- the character of the second text where the first has `c`
abbrev translate : String → String → Char → Char
translate [] to c = c
translate (d ∷ from) [] c = c
translate (d ∷ from) (e ∷ to) c = if nat_eq (code d) (code c) then e else translate from to c

abbrev lower_ascii : String → String
lower_ascii [] = []
lower_ascii (c ∷ s) =
    translate "ABCDEFGHIJKLMNOPQRSTUVWXYZ" "abcdefghijklmnopqrstuvwxyz" c ∷ lower_ascii s

-- ASCII letters and white space; substring search in place of regular expressions; no hashing.
abbrev pub ascii : Runtime
ascii = record {
  lower = lower_ascii;
  is_space = λ c. nat_eq (code c) 32 || (leb 9 (code c) && leb (code c) 13);
  sha256 = λ s. s;
  re_compiles = λ i p. true;
  re_match = λ i p s. Text.starts_with s p;
  re_search = λ i p s. Text.contains p s;
  find_cwd = λ s. none;
  find_claude_md = λ s. none;
}
