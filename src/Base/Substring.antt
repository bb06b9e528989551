-- ===== src/Base/Substring.antt =====
-- More of `str`: `lower` on ASCII letters, `zfill(2)` and `in`.
use Prim.Native.Nat.{ℕ, zero, suc, ◌-◌}
use Prim.Native.Char.{Char, code}
use Prim.Native.String.{String}
use mathlib.Core.Bool.{Bool, true, false, ◌&&◌, ◌||◌}
use yyr4_linux_control.Base.Tests.{leb, nat_beq, if◌then◌else◌}
use yyr4_linux_control.Base.Text.{joined}

abbrev pub char_at : String → ℕ → Char → Char
char_at String.[] n default_char = default_char
char_at (String.◌∷◌ c s) zero default_char = c
char_at (String.◌∷◌ c s) (suc n) default_char = char_at s n default_char

abbrev pub lower_char : Char → Char
lower_char c =
    if leb b'A' (code c) && leb (code c) b'Z'
    then char_at "abcdefghijklmnopqrstuvwxyz" (code c - b'A') c
    else c

unfoldable pub lower : String → String
lower String.[] = String.[]
lower (String.◌∷◌ c s) = String.◌∷◌ (lower_char c) (lower s)

-- `zfill` puts the zeros behind a sign.
abbrev pub zfill_2 : String → String
zfill_2 String.[] = "00"
zfill_2 (String.◌∷◌ c String.[]) =
    if nat_beq (code c) b'+' || nat_beq (code c) b'-'
    then String.◌∷◌ c "0"
    else joined "0" (String.◌∷◌ c String.[])
zfill_2 s = s

abbrev pub starts_with : String → String → Bool
starts_with String.[] s = true
starts_with (String.◌∷◌ c t) String.[] = false
starts_with (String.◌∷◌ c t) (String.◌∷◌ d s) = nat_beq (code c) (code d) && starts_with t s

-- `t in s`
unfoldable pub occurs_in : String → String → Bool
occurs_in t String.[] = starts_with t String.[]
occurs_in t (String.◌∷◌ c s) = starts_with t (String.◌∷◌ c s) || occurs_in t s
