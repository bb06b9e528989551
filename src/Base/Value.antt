-- ===== src/Base/Value.antt =====
-- The values that `tomllib` and `json` make of a text: None, str, int, bool, float, list and dict.
use Prim.Native.Nat.{ℕ, zero}
use Prim.Native.String.{String}
use mathlib.Core.Bool.{Bool, true, false}
use mathlib.Core.Option.{Option, none, some}
use mathlib.Core.List.{List, [], ◌∷◌}
use yyr4_linux_control.Base.Tests.{if◌then◌else◌}
use yyr4_linux_control.Base.Equality.{◌==◌, string_eq, nat_eq}
use yyr4_linux_control.Base.Int.{ℤ, pos}

-- A float is its floor, and whether it has a fraction; a date is `other`, as is a float that is not
-- finite.
mutual
  pub data Value : Type 0 where
    null : Value
    str : String → Value
    int : ℤ → Value
    bool : Bool → Value
    float : ℤ → Bool → Value
    other : Value
    list : Values → Value
    table : Fields → Value

  pub data Values : Type 0 where
    no_items : Values
    item : Value → Values → Values

  -- a dict, in its order
  pub data Fields : Type 0 where
    no_fields : Fields
    field : String → Value → Fields → Fields

-- `data.get(name)`; as in the code, a missing field is None
unfoldable pub get : String → Fields → Value
get name no_fields = null
get name (field k v rest) = let found = get name rest in if name == k then v else found

-- the first key that is none of these
unfoldable pub unknown_field : (String → Bool) → Fields → Option String
unknown_field allowed no_fields = none
unknown_field allowed (field k v rest) =
    let found = unknown_field allowed rest in if allowed k then found else some k

abbrev pub one_of : List String → String → Bool
one_of [] k = false
one_of (s ∷ rest) k = if s == k then true else one_of rest k

-- `isinstance(v, int)`, which holds of a bool too. Python keeps the bool, which equals 0 or 1 but prints
-- as False or True; here it becomes the number.
abbrev pub as_int : Value → Option ℤ
as_int (int n) = some n
as_int (bool true) = some (pos 1)
as_int (bool false) = some (pos 0)
as_int _ = none

-- `not v`
abbrev pub is_falsy : Value → Bool
is_falsy null = true
is_falsy (str s) = s == ""
is_falsy (int (pos zero)) = true
is_falsy (bool false) = true
is_falsy (float (pos zero) false) = true
is_falsy (list no_items) = true
is_falsy (table no_fields) = true
is_falsy _ = false

-- `v == n` for an int
abbrev pub equals_nat : ℕ → Value → Bool
equals_nat n (int (pos m)) = m == n
equals_nat n (bool true) = n == 1
equals_nat n (bool false) = n == 0
equals_nat n (float (pos m) false) = m == n
equals_nat n _ = false

abbrev pub strings : List String → Values
strings [] = no_items
strings (s ∷ rest) = item (str s) (strings rest)

-- where in the input an error is: a name, a field of a place, an item of a list at a place
pub data Place : Type 0 where
  root : String → Place
  at_field : Place → String → Place
  at_item : Place → ℕ → Place
