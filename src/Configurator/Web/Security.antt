-- ===== src/Configurator/Web/Security.antt =====
-- configurator/web/security.py: the tests of a request. Headers are Latin-1 text, in which `\d` is one
-- of the digits 0 to 9. `urllib.parse.unquote` is a parameter of `safe_path`.
use Prim.Native.Nat.{ℕ}
use Prim.Native.Char.{Char, code}
use yyr4_linux_control.Base.{
  String, Bool, true, false, ◌&&◌, ◌||◌, not, Option, none, some, List, [], ◌∷◌, ◌==◌, string_eq,
  leb, nat_beq, if◌then◌else◌,
}
use yyr4_linux_control.Base.Text.{is_empty}
use yyr4_linux_control.Base.Substring.{lower, occurs_in, starts_with}

abbrev pub max_body_size : ℕ
max_body_size = 262144

abbrev pub is_digit : ℕ → Bool
is_digit c = leb b'0' c && leb c b'9'

-- `\d*$`, in which `$` also matches before a newline at the end
abbrev pub digits_to_end : String → Bool
digits_to_end String.[] = true
digits_to_end (String.◌∷◌ c String.[]) = is_digit (code c) || nat_beq (code c) 10
digits_to_end (String.◌∷◌ c (String.◌∷◌ d s)) = is_digit (code c) && digits_to_end (String.◌∷◌ d s)

-- `\d+$`
abbrev pub is_port : String → Bool
is_port String.[] = false
is_port (String.◌∷◌ c s) = is_digit (code c) && digits_to_end s

-- the prefix, and then a port
abbrev pub with_port : String → String → Bool
with_port String.[] s = is_port s
with_port (String.◌∷◌ c p) String.[] = false
with_port (String.◌∷◌ c p) (String.◌∷◌ d s) = nat_beq (code c) (code d) && with_port p s

-- What a test answers: true, or false with a code.
pub data Verdict : Type 0 where
  fine : Verdict
  rejected : String → Verdict

unfoldable pub validate_origin : Option String → Verdict
validate_origin none = fine
validate_origin (some origin) =
    if with_port "http://127.0.0.1:" origin
    then fine
    else if with_port "http://localhost:" origin
    then fine
    else rejected "forbidden_origin"

unfoldable pub validate_host : Option String → Verdict
validate_host none = fine
validate_host (some host) =
    if with_port "127.0.0.1:" host
    then fine
    else if host == "127.0.0.1" || host == "localhost"
    then fine
    else rejected "forbidden_host"

abbrev pub is_space : ℕ → Bool
is_space c = (leb 9 c && leb c 13) || (leb 28 c && leb c 32) || nat_beq c 133 || nat_beq c 160

-- `strip()`, from the two ends
abbrev pub strip_left : String → String
strip_left String.[] = String.[]
strip_left (String.◌∷◌ c s) =
    let rest = strip_left s in if is_space (code c) then rest else String.◌∷◌ c s

abbrev pub strip_right : String → String
strip_right String.[] = String.[]
strip_right (String.◌∷◌ c s) =
    let rest = strip_right s in
    if is_empty rest && is_space (code c) then String.[] else String.◌∷◌ c rest

abbrev pub strip : String → String
strip s = strip_right (strip_left s)

-- `s.split(sep)` for a separator of one character
unfoldable pub prepend : Char → List String → List String
prepend c [] = String.◌∷◌ c String.[] ∷ []
prepend c (s ∷ rest) = String.◌∷◌ c s ∷ rest

unfoldable pub split : ℕ → String → List String
split sep String.[] = "" ∷ []
split sep (String.◌∷◌ c s) =
    let rest = split sep s in if nat_beq (code c) sep then "" ∷ rest else prepend c rest

-- `s.split(sep)[0]`
abbrev pub head_of : List String → String
head_of [] = ""
head_of (s ∷ rest) = s

unfoldable pub validate_content_type : Option String → String → Verdict
validate_content_type content_type method =
    if not (method == "POST") then fine else elim content_type [
      | none ↦ rejected "invalid_request"
      | some text ↦
          if lower (strip (head_of (split b';' text))) == "application/json"
          then fine
          else rejected "invalid_json"
    ]

unfoldable pub safe_path : (String → String) → String → Bool
safe_path unquote component =
    not (is_empty component)
    && not (occurs_in ".." component)
    && not (occurs_in ".." (unquote component))
    && not (occurs_in ".." (unquote (unquote component)))
    && not (occurs_in "\\" component || occurs_in "\\" (unquote component))
    && not (occurs_in "%5c" (lower component) || occurs_in "%5C" component)
    && not (starts_with "/" (unquote component))

unfoldable pub is_allowed_asset : String → Bool
is_allowed_asset name = name == "editor.css" || name == "editor.js"
