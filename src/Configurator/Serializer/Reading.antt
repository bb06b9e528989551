-- ===== src/Configurator/Serializer/Reading.antt =====
-- A reader of TOML's basic strings, written from TOML 1.0 and not from the program: it gives the
-- code points of the string whose opening quote is behind it, and the text after the closing quote.
use Prim.Native.Char.{code}
use yyr4_linux_control.Base.{
  ℕ, zero, suc, ◌+◌, ◌*◌, ◌-◌, String, Bool, ◌&&◌, ◌||◌, not, Option, none, some, List, [], ◌∷◌,
  ltb, leb, nat_beq, if◌then◌else◌,
}

-- Where the reader is: between characters, behind a backslash, or in `\uXXXX` or `\UXXXXXXXX` with
-- one digit and n more to come and the value of those that came.
pub data ReaderState : Type 0 where
  plain escape : ReaderState
  hex : ℕ → ℕ → ReaderState

abbrev pub ReadResult : Type 0
ReadResult = Option (List ℕ × String)

abbrev pub with_code : ℕ → ReadResult → ReadResult
with_code n none = none
with_code n (some (codes, rest)) = some (n ∷ codes, rest)

abbrev pub hex_value : ℕ → Option ℕ
hex_value c =
    if leb 48 c && leb c 57
    then some (c - 48)
    else if leb 97 c && leb c 102
    then some (c - 87)
    else if leb 65 c && leb c 70
    then some (c - 55)
    else none

-- a Unicode scalar value
abbrev pub is_scalar : ℕ → Bool
is_scalar n = ltb n 55296 || (ltb 57343 n && ltb n 1114112)

-- control characters other than tab must be escaped
abbrev pub is_unescaped : ℕ → Bool
is_unescaped c = not (ltb c 32 && not (nat_beq c 9)) && not (nat_beq c 127)

-- the character, the text after it, and the reading of that from each state
module _ (c : ℕ) (rest : String) (next : ReaderState → ReadResult) where
  abbrev pub read_plain : ReadResult
  read_plain =
      if nat_beq c 34
      then some ([], rest)
      else if nat_beq c 92
      then next escape
      else if is_unescaped c
      then with_code c (next plain)
      else none

  abbrev pub read_escape : ReadResult
  read_escape =
      if nat_beq c b'b'
      then with_code 8 (next plain)
      else if nat_beq c b't'
      then with_code 9 (next plain)
      else if nat_beq c b'n'
      then with_code 10 (next plain)
      else if nat_beq c b'f'
      then with_code 12 (next plain)
      else if nat_beq c b'r'
      then with_code 13 (next plain)
      else if nat_beq c 34
      then with_code 34 (next plain)
      else if nat_beq c 92
      then with_code 92 (next plain)
      else if nat_beq c b'u'
      then next (hex 3 0)
      else if nat_beq c b'U'
      then next (hex 7 0)
      else none

  abbrev pub read_digit : Option ℕ → ℕ → ℕ → ReadResult
  read_digit none n value = none
  read_digit (some d) (suc n) value = next (hex n (value * 16 + d))
  read_digit (some d) zero value =
      if is_scalar (value * 16 + d) then with_code (value * 16 + d) (next plain) else none

  abbrev pub read_in : ReaderState → ReadResult
  read_in plain = read_plain
  read_in escape = read_escape
  read_in (hex n value) = read_digit (hex_value c) n value

unfoldable pub read : String → ReaderState → ReadResult
read String.[] state = none
read (String.◌∷◌ c s) state = read_in (code c) s (read s) state

-- the string at the start of a text
unfoldable pub read_basic_string : String → ReadResult
read_basic_string String.[] = none
read_basic_string (String.◌∷◌ c s) = if nat_beq (code c) 34 then read s plain else none

-- a text's code points
unfoldable pub codes_of : String → List ℕ
codes_of String.[] = []
codes_of (String.◌∷◌ c s) = code c ∷ codes_of s
