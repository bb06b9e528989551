-- ===== src/Configurator/Serializer/Strings.antt =====
-- configurator/serializer.py: `_toml_str` and `_toml_strs`, and a number's decimal text.
use Prim.Native.Nat.{ℕ, zero, suc, ◌/◌, ◌%◌}
use Prim.Native.Char.{Char, code}
use Prim.Native.String.{String}
use yyr4_linux_control.Base.{true, false, ◌||◌, List, map, ltb, nat_beq, if◌then◌else◌}
use yyr4_linux_control.Base.Text.{joined, join, digit}
use yyr4_linux_control.Base.Int.{ℤ, pos, negsuc}
use yyr4_linux_control.Base.Substring.{char_at}

-- a digit of `:x`
abbrev pub hex_digit : ℕ → Char
hex_digit n = char_at "0123456789abcdef" n "0"

abbrev pub single : Char → String
single c = String.◌∷◌ c String.[]

-- `\uXXXX`, for a code below 128
abbrev pub unicode_escape : ℕ → String
unicode_escape n = joined "\\u00" (String.◌∷◌ (hex_digit (n / 16)) (single (hex_digit (n % 16))))

-- what a character adds to `parts`
unfoldable pub escape_char : Char → String
escape_char c =
    if nat_beq (code c) 34
    then "\\\""
    else if nat_beq (code c) 92
    then "\\\\"
    else if nat_beq (code c) 8
    then "\\b"
    else if nat_beq (code c) 9
    then "\\t"
    else if nat_beq (code c) 10
    then "\\n"
    else if nat_beq (code c) 12
    then "\\f"
    else if nat_beq (code c) 13
    then "\\r"
    else if ltb (code c) 32 || nat_beq (code c) 127
    then unicode_escape (code c)
    else single c

unfoldable pub escaped : String → String
escaped String.[] = ""
escaped (String.◌∷◌ c s) = joined (escape_char c) (escaped s)

unfoldable pub toml_str : String → String
toml_str s = joined "\"" (joined (escaped s) "\"")

unfoldable pub toml_strs : List String → String
toml_strs strings = joined "[" (joined (join ", " (map toml_str strings)) "]")

-- `f"{n}"`: n has at most as many digits as it is large, and one for 0.
unfoldable pub digits : ℕ → ℕ → String
digits zero n = ""
digits (suc fuel) n = elim (ltb n 10) [
  | true ↦ digit n
  | false ↦ joined (digits fuel (n / 10)) (digit (n % 10))
]

unfoldable pub decimal_text : ℕ → String
decimal_text n = digits (suc n) n

unfoldable pub int_text : ℤ → String
int_text (pos n) = decimal_text n
int_text (negsuc n) = joined "-" (decimal_text (suc n))
