-- ===== src/Base/Text.antt =====
-- What the program does with `str`: joining, emptiness, and small decimal numbers.
use Prim.Native.Nat.{ℕ, ◌/◌, ◌%◌}
use Prim.Native.String.{String, ◌++◌ as append}
use mathlib.Core.Bool.{Bool}
use mathlib.Core.Option.{none, some}
use mathlib.Core.List.{List, [], ◌∷◌}
use yyr4_linux_control.Base.Tests.{ltb, if◌then◌else◌}
use yyr4_linux_control.Base.Equality.{◌==◌, string_eq}
use yyr4_linux_control.Base.Lists.{get_elem?}

abbrev pub joined : String → String → String
joined a b = append a b

abbrev pub is_empty : String → Bool
is_empty s = s == ""

-- `sep.join(parts)`
abbrev pub join : String → List String → String
join sep [] = ""
join sep (s ∷ []) = s
join sep (s ∷ t ∷ rest) = joined s (joined sep (join sep (t ∷ rest)))

abbrev pub digit_texts : List String
digit_texts = "0" ∷ "1" ∷ "2" ∷ "3" ∷ "4" ∷ "5" ∷ "6" ∷ "7" ∷ "8" ∷ "9" ∷ []

abbrev pub digit : ℕ → String
digit n = elim (get_elem? digit_texts n) [ none ↦ "" | some s ↦ s ]

-- `f"{n:02d}"` and `f"{n}"`, below 100
abbrev pub two_digits : ℕ → String
two_digits n = joined (digit (n / 10)) (digit (n % 10))

abbrev pub decimal : ℕ → String
decimal n = if ltb n 10 then digit n else two_digits n
