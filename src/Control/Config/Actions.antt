-- ===== src/Control/Config/Actions.antt =====
-- control/config.py, `_parse_action`.
use yyr4_linux_control.Base.{
  ℕ, ◌+◌, String, Option, none, some, List, [], ◌∷◌, Result, ok, err, raise_if, ◌>>◌, ◌>>=◌, ◌==◌,
  string_eq, if◌then◌else◌,
}
use yyr4_linux_control.Base.Int.{ℤ}
use yyr4_linux_control.Base.Value.{
  Value, null, str, list, table, Values, no_items, item, Fields, no_fields, field, get,
  unknown_field, one_of, as_int, is_falsy, Place, at_field, at_item,
}
use yyr4_linux_control.Control.Actions.{
  Action, Steps, text, macro, done, step, set_layer, next_layer, previous_layer, set_profile, noop,
  debug_log, hotkey_action, command_action, delay_action,
}
use yyr4_linux_control.Control.Models.{member_of}

-- The exceptions, each with its place. `untyped_key` is no exception: the code goes on with a key
-- that is no str, which `Action` has no room for.
pub data ConfigError : Type 0 where
  unsupported_schema_version : ConfigError
  config_validation : String → Place → ConfigError
  unknown_control : Place → ConfigError
  unknown_action_type : Place → ConfigError
  invalid_action : String → Place → ConfigError
  untyped_key : Place → ConfigError

pub data SchemaVersion : Type 0 where
  v1 v2 : SchemaVersion

-- the texts that `type` is compared with
pub data ActionType : Type 0 where
  hotkey_type text_type command_type delay_type macro_type noop_type debug_log_type : ActionType
  set_layer_type next_layer_type previous_layer_type set_profile_type : ActionType

abbrev pub type_value : ActionType → String
type_value hotkey_type = "hotkey"
type_value text_type = "text"
type_value command_type = "command"
type_value delay_type = "delay"
type_value macro_type = "macro"
type_value noop_type = "noop"
type_value debug_log_type = "debug_log"
type_value set_layer_type = "set_layer"
type_value next_layer_type = "next_layer"
type_value previous_layer_type = "previous_layer"
type_value set_profile_type = "set_profile"

abbrev pub all_types : List ActionType
all_types =
    hotkey_type ∷ text_type ∷ command_type ∷ delay_type ∷ macro_type ∷ noop_type ∷ debug_log_type
    ∷ set_layer_type ∷ next_layer_type ∷ previous_layer_type ∷ set_profile_type ∷ []

unfoldable pub type_of : String → Option ActionType
unfolding member_of
type_of = member_of type_value all_types

-- `tuple(keys)` of texts; `not k` finds an empty key of any type. The code accepts a key that is no
-- text and is not empty, such as 5, which an action here cannot hold: it is an error of its own.
unfoldable pub key_texts : Place → Values → Result ConfigError (List String)
key_texts path no_items = ok []
key_texts path (item (str s) rest) = do keys ← key_texts path rest; ok (s ∷ keys)
key_texts path (item v rest) = do
  raise_if (is_falsy v) (invalid_action "Hotkey keys cannot be empty" path)
  err (untyped_key path)

-- `tuple(argv)`, whose items `CommandAction` checks
unfoldable pub arg_texts : Place → Values → Result ConfigError (List String)
arg_texts path no_items = ok []
arg_texts path (item (str s) rest) = do argv ← arg_texts path rest; ok (s ∷ argv)
arg_texts path (item v rest) =
    err (invalid_action "CommandAction argv items must be non-empty strings" path)

-- `except ValueError as e: raise InvalidActionError(str(e))`
abbrev pub or_invalid_action : Result String Action → Place → Result ConfigError Action
or_invalid_action (ok a) path = ok a
or_invalid_action (err message) path = err (invalid_action message path)

abbrev pub parse_hotkey : Place → Value → Result ConfigError Action
parse_hotkey path (list keys) = do
  texts ← key_texts path keys
  or_invalid_action (hotkey_action texts) path
parse_hotkey path _ = err (invalid_action "hotkey action requires 'keys' as a list of strings" path)

-- `timeout is not None and not isinstance(timeout, int)`
abbrev pub parse_timeout : Place → Value → Result ConfigError (Option ℤ)
parse_timeout path null = ok none
parse_timeout path v = elim (as_int v) [
  | some n ↦ ok (some n)
  | none ↦ err (invalid_action "timeout_seconds must be an integer" path)
]

abbrev pub parse_command : Place → Value → Value → Result ConfigError Action
parse_command path (list argv) timeout = do
  seconds ← parse_timeout path timeout
  texts ← arg_texts path argv
  or_invalid_action (command_action texts seconds) path
parse_command path _ timeout =
    err (invalid_action "command action requires 'argv' as a list of strings" path)

abbrev pub parse_delay : Place → Value → Result ConfigError Action
parse_delay path v = elim (as_int v) [
  | some n ↦ or_invalid_action (delay_action n) path
  | none ↦ err (invalid_action "delay action requires 'milliseconds' as an integer" path)
]

abbrev pub with_text : (String → Action) → String → Place → Value → Result ConfigError Action
with_text make message path (str s) = ok (make s)
with_text make message path _ = err (invalid_action message path)

-- `if schema_version < 2: raise`
abbrev pub since_v2 :
    SchemaVersion → String → Place → Result ConfigError Action → Result ConfigError Action
since_v2 v1 message path parsed = err (invalid_action message path)
since_v2 v2 message path parsed = parsed

-- the branches over the type; `steps` is what the steps of a macro give
unfoldable pub action_of :
    Place
    → SchemaVersion
    → Fields
    → Result ConfigError Steps
    → ActionType
    → Result ConfigError Action
action_of path version data_ steps hotkey_type = parse_hotkey path (get "keys" data_)
action_of path version data_ steps text_type =
    with_text text "text action requires 'value' as a string" path (get "value" data_)
action_of path version data_ steps command_type =
    parse_command path (get "argv" data_) (get "timeout_seconds" data_)
action_of path version data_ steps delay_type = parse_delay path (get "milliseconds" data_)
action_of path version data_ steps macro_type = do parsed ← steps; ok (macro parsed)
action_of path version data_ steps noop_type = ok noop
action_of path version data_ steps debug_log_type =
    with_text debug_log "debug_log action requires 'message' as a string" path (get "message" data_)
action_of path version data_ steps set_layer_type =
    since_v2 version "set_layer action is only available in schema version 2" path
      (with_text set_layer "set_layer action requires 'layer' as a string" path (get "layer" data_))
action_of path version data_ steps next_layer_type =
    since_v2 version "next_layer action is only available in schema version 2" path (ok next_layer)
action_of path version data_ steps previous_layer_type =
    since_v2 version "previous_layer action is only available in schema version 2" path
      (ok previous_layer)
action_of path version data_ steps set_profile_type =
    since_v2 version "set_profile action is only available in schema version 2" path (
      with_text set_profile "set_profile action requires 'profile' as a string" path
        (get "profile" data_))

abbrev pub action_fields : List String
action_fields =
    "type" ∷ "keys" ∷ "value" ∷ "argv" ∷ "timeout_seconds" ∷ "milliseconds" ∷ "steps" ∷ "message"
    ∷ "layer" ∷ "profile" ∷ []

-- a value that is no text equals none of the types
abbrev pub type_in : Value → Option ActionType
type_in (str s) = type_of s
type_in _ = none

abbrev pub parse_fields :
    Place → SchemaVersion → Fields → Result ConfigError Steps → Result ConfigError Action
parse_fields path version data_ steps = do
  raise_if (is_falsy (get "type" data_)) (config_validation "action missing 'type'" path)
  elim (unknown_field (one_of action_fields) data_) [
    | some key ↦ err (config_validation "Unknown field in action" (at_field path key))
    | none ↦ elim (type_in (get "type" data_)) [
      | none ↦ err (unknown_action_type path)
      | some t ↦ action_of path version data_ steps t
    ]
  ]

-- The recursion needs the field `steps` as a part of the table, so the steps are parsed on the way
-- to it, and used if the type is "macro".
unfoldable mutual
  -- `_parse_action`
  pub parse_action : Place → SchemaVersion → Value → Result ConfigError Action
  parse_action path version (table data_) =
      parse_fields path version data_ (steps_in path version data_)
  parse_action path version v = err (config_validation "action must be a table" path)

  -- `data.get("steps")`, parsed
  pub steps_in : Place → SchemaVersion → Fields → Result ConfigError Steps
  steps_in path version no_fields =
      err (invalid_action "macro action requires 'steps' as a list of actions" path)
  steps_in path version (field k v rest) =
      let here_ = parse_step_list path version v in
      let later = steps_in path version rest in if "steps" == k then here_ else later

  pub parse_step_list : Place → SchemaVersion → Value → Result ConfigError Steps
  parse_step_list path version (list steps) = parse_steps path version 0 steps
  parse_step_list path version v =
      err (invalid_action "macro action requires 'steps' as a list of actions" path)

  -- the loop over the steps, from number `i` on
  pub parse_steps : Place → SchemaVersion → ℕ → Values → Result ConfigError Steps
  parse_steps path version i no_items = ok done
  parse_steps path version i (item v rest) = do
    a ← parse_action (at_item (at_field path "steps") i) version v
    as' ← parse_steps path version (i + 1) rest
    ok (step a as')
