-- ===== src/Configurator/ActionSpec.antt =====
-- configurator/action_spec.py: actions from and to the values of a JSON text. The types of actions
-- are those of Control/Config/Actions.
pub mod Writing
pub mod RoundTrip
pub mod Bounds
mod Tests
use yyr4_linux_control.Base.{
  ℕ, zero, suc, ◌+◌, String, Bool, true, false, Option, none, some, List, [], ◌∷◌, Result, ok, err,
  raise_if, ◌>>◌, ◌>>=◌, ◌==◌, string_eq, if◌then◌else◌, leb, ⊤,
}
use yyr4_linux_control.Base.Dict.{is_some}
use yyr4_linux_control.Base.Text.{is_empty}
use yyr4_linux_control.Base.Int.{ℤ, pos, negsuc}
use yyr4_linux_control.Base.Value.{
  Value, null, str, int, float, list, table, Values, no_items, item, Fields, no_fields, field, get,
  unknown_field, one_of, as_int, strings, is_falsy, Place, at_field, at_item,
}
use yyr4_linux_control.Control.Actions.{
  Action, Steps, hotkey, text, command, delay, macro, done, step, set_layer, next_layer,
  previous_layer, set_profile, noop, debug_log, hotkey_action, command_action,
}
use yyr4_linux_control.Control.Models.{layer_of, profile_id}
use yyr4_linux_control.Control.Config.Actions.{
  ActionType, hotkey_type, text_type, command_type, delay_type, macro_type, noop_type,
  debug_log_type, set_layer_type, next_layer_type, previous_layer_type, set_profile_type,
  type_value, type_of,
}

-- a ValueError, with its place and the rest of its message
pub record SpecError : Type 0 where
  pub place : Place
  pub message : String

abbrev pub Spec : Type 0 → Type 0
Spec A = Result SpecError A

abbrev pub wrong : {A : Type 0} → Place → String → Spec A
wrong place message = err (record { place = place; message = message })

-- `_ALLOWED_FIELDS`
abbrev pub allowed_fields : ActionType → List String
allowed_fields hotkey_type = "type" ∷ "keys" ∷ []
allowed_fields text_type = "type" ∷ "value" ∷ []
allowed_fields command_type = "type" ∷ "argv" ∷ "timeout_seconds" ∷ []
allowed_fields delay_type = "type" ∷ "milliseconds" ∷ []
allowed_fields macro_type = "type" ∷ "steps" ∷ []
allowed_fields noop_type = "type" ∷ []
allowed_fields debug_log_type = "type" ∷ "message" ∷ []
allowed_fields set_layer_type = "type" ∷ "layer" ∷ []
allowed_fields next_layer_type = "type" ∷ []
allowed_fields previous_layer_type = "type" ∷ []
allowed_fields set_profile_type = "type" ∷ "profile" ∷ []

-- `isinstance(v, (int, float))`: the floor, and whether there is a fraction. NaN and Infinity, which
-- Python's JSON has too, are refused here like any other value; in the code `int` raises on them.
abbrev pub as_number : Value → Option (ℤ × Bool)
as_number (float n fraction) = some (n, fraction)
as_number v = elim (as_int v) [ none ↦ none | some n ↦ some (n, false) ]

-- `int(x)`, which rounds toward 0
abbrev pub truncated : ℤ → Bool → ℤ
truncated (negsuc zero) true = pos 0
truncated (negsuc (suc n)) true = negsuc n
truncated n fraction = n

-- `if x`
abbrev pub is_zero : ℤ → Bool → Bool
is_zero (pos zero) false = true
is_zero _ _ = false

-- a ValueError of an action's class
abbrev pub or_wrong : {A : Type 0} → Place → Result String A → Spec A
or_wrong path (ok a) = ok a
or_wrong path (err message) = wrong path message

-- the items of `keys`
unfoldable pub key_items : Place → ℕ → Values → Spec (List String)
key_items path i no_items = ok []
key_items path i (item (str k) rest) = do
  raise_if (is_empty k) (record { place = at_item path i; message = "must be a non-empty string" })
  keys ← key_items path (i + 1) rest
  ok (k ∷ keys)
key_items path i (item v rest) = wrong (at_item path i) "must be a non-empty string"

-- the items of `argv`
unfoldable pub arg_items : Place → ℕ → Values → Spec (List String)
arg_items path i no_items = ok []
arg_items path i (item (str a) rest) = do argv ← arg_items path (i + 1) rest; ok (a ∷ argv)
arg_items path i (item v rest) = wrong (at_item path i) "must be a string"

-- `_parse_hotkey`
abbrev pub parse_hotkey : Place → Value → Spec Action
parse_hotkey path (list no_items) =
    wrong (at_field path "keys") "must be a non-empty array of strings"
parse_hotkey path (list keys) = do
  texts ← key_items (at_field path "keys") 0 keys
  or_wrong path (hotkey_action texts)
parse_hotkey path v = wrong (at_field path "keys") "must be a non-empty array of strings"

abbrev pub parse_timeout : Place → Value → Spec (Option ℤ)
parse_timeout path null = ok none
parse_timeout path v = elim (as_number v) [
  | none ↦ wrong (at_field path "timeout_seconds") "must be a number"
  | some (n, fraction) ↦ ok (if is_zero n fraction then none else some (truncated n fraction))
]

-- `_parse_command`
abbrev pub parse_command : Place → Value → Value → Spec Action
parse_command path (list no_items) timeout =
    wrong (at_field path "argv") "must be a non-empty array of strings"
parse_command path (list argv) timeout = do
  texts ← arg_items (at_field path "argv") 0 argv
  seconds ← parse_timeout path timeout
  or_wrong path (command_action texts seconds)
parse_command path v timeout = wrong (at_field path "argv") "must be a non-empty array of strings"

abbrev pub delay_of : Place → ℤ → Spec Action
delay_of path (pos n) = ok (delay n)
delay_of path (negsuc n) = wrong (at_field path "milliseconds") "must be non-negative"

-- `_parse_delay`; a fraction of a delay that is not negative is cut off
abbrev pub parse_delay : Place → Value → Spec Action
parse_delay path v = elim (as_number v) [
  | none ↦ wrong (at_field path "milliseconds") "must be a number"
  | some (n, fraction) ↦ delay_of path n
]

-- `_str_field`
abbrev pub str_field : Place → String → Value → Spec String
str_field path name (str s) = ok s
str_field path name v = wrong (at_field path name) "must be a string"

-- `_parse_set_layer`
abbrev pub parse_set_layer : Place → Value → Spec Action
parse_set_layer path v = do
  name ← str_field path "layer" v
  elim (layer_of name) [
    | some l ↦ ok (set_layer name)
    | none ↦ wrong (at_field path "layer") "invalid LayerId"
  ]

-- `_parse_set_profile`
abbrev pub parse_set_profile : Place → Value → Spec Action
parse_set_profile path v = do
  name ← str_field path "profile" v
  elim (profile_id name) [
    | ok pid ↦ ok (set_profile name)
    | err message ↦ wrong (at_field path "profile") "invalid ProfileId"
  ]

abbrev pub text_of : (String → Action) → Spec String → Spec Action
text_of make parsed = do s ← parsed; ok (make s)

-- `_MAX_SPEC_DEPTH`
abbrev pub max_spec_depth : ℕ
max_spec_depth = 10

-- `_parse_macro`, with what its steps give
abbrev pub parse_macro : ℕ → Place → Spec Steps → Spec Action
parse_macro depth path steps =
    if leb max_spec_depth depth
    then wrong path "macro nesting depth exceeded"
    else (do parsed ← steps; ok (macro parsed))

-- `_dispatch`
unfoldable pub dispatch : ℕ → Place → Fields → Spec Steps → ActionType → Spec Action
dispatch depth path value steps hotkey_type = parse_hotkey path (get "keys" value)
dispatch depth path value steps text_type =
    text_of text (str_field path "value" (get "value" value))
dispatch depth path value steps command_type =
    parse_command path (get "argv" value) (get "timeout_seconds" value)
dispatch depth path value steps delay_type = parse_delay path (get "milliseconds" value)
dispatch depth path value steps macro_type = parse_macro depth path steps
dispatch depth path value steps noop_type = ok noop
dispatch depth path value steps debug_log_type =
    text_of debug_log (str_field path "message" (get "message" value))
dispatch depth path value steps set_layer_type = parse_set_layer path (get "layer" value)
dispatch depth path value steps next_layer_type = ok next_layer
dispatch depth path value steps previous_layer_type = ok previous_layer
dispatch depth path value steps set_profile_type = parse_set_profile path (get "profile" value)

-- the check of the fields, and the call of `_dispatch`. A type that is none of these allows no
-- field, not even `type`.
abbrev pub of_type : ℕ → Place → Fields → Spec Steps → Option ActionType → Spec Action
of_type depth path value steps (some t) = elim (unknown_field (one_of (allowed_fields t)) value) [
  | some k ↦ wrong path "unknown field(s)"
  | none ↦ dispatch depth path value steps t
]
of_type depth path value steps none = elim (unknown_field (one_of []) value) [
  | some k ↦ wrong path "unknown field(s)"
  | none ↦ wrong path "unknown action type"
]

abbrev pub parse_object : ℕ → Place → Fields → Spec Steps → Value → Spec Action
parse_object depth path value steps null = wrong path "missing required field 'type'"
parse_object depth path value steps (str atype) = of_type depth path value steps (type_of atype)
parse_object depth path value steps v = wrong (at_field path "type") "must be a string"

-- As in Control/Config/Actions, the steps are parsed on the way to their field, one level deeper.
unfoldable mutual
  -- `parse_spec`
  pub parse_spec : ℕ → Place → Value → Spec Action
  parse_spec depth path (table value) =
      parse_object depth path value (steps_in (depth + 1) path value) (get "type" value)
  parse_spec depth path v = wrong path "must be a JSON object"

  -- `value.get("steps")`, parsed
  pub steps_in : ℕ → Place → Fields → Spec Steps
  steps_in depth path no_fields = wrong (at_field path "steps") "must be an array"
  steps_in depth path (field k v rest) =
      let parsed = parse_step_list depth (at_field path "steps") v in
      let later = steps_in depth path rest in if "steps" == k then parsed else later

  pub parse_step_list : ℕ → Place → Value → Spec Steps
  parse_step_list depth path (list steps) = parse_steps depth path 0 steps
  parse_step_list depth path v = wrong path "must be an array"

  -- the loop over the steps, from number `i` on
  pub parse_steps : ℕ → Place → ℕ → Values → Spec Steps
  parse_steps depth path i no_items = ok done
  parse_steps depth path i (item v rest) = do
    a ← parse_spec depth (at_item path i) v
    as' ← parse_steps depth path (i + 1) rest
    ok (step a as')
