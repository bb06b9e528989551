-- ===== src/Control/Config/Built.antt =====
-- What holds of every action that `_parse_action` returns.
use yyr4_linux_control.Base.{
  ◌≡◌, subst, inl, inr, ℕ, ◌+◌, String, false, Option, List, Result, ok, err, Option-cases, arith,
  ◌==◌, string_eq, Bool-cases, >>=-eq-ok, ok-injective,
}
use yyr4_linux_control.Base.Int.{ℤ}
use yyr4_linux_control.Base.Value.{
  Value, list, table, Values, no_items, item, Fields, no_fields, field, get, Place, at_field,
  at_item, as_int, unknown_field, one_of,
}
use yyr4_linux_control.Control.Actions.{
  Action, Steps, hotkey, command, macro, done, step, set_layer, next_layer, previous_layer,
  set_profile, is_nil, any_empty, hotkey_action, command_action, delay_action,
}
use yyr4_linux_control.Control.Models.{control_eq, layer_eq, profile_eq}
use yyr4_linux_control.Control.Config.Actions.{
  ConfigError, SchemaVersion, v2, ActionType, action_of, parse_fields, parse_action, steps_in,
  parse_step_list, parse_steps, key_texts, arg_texts, type_in, or_invalid_action, parse_hotkey,
  parse_timeout, parse_command, parse_delay, hotkey_type, text_type, command_type, delay_type,
  macro_type, noop_type, debug_log_type, set_layer_type, next_layer_type, previous_layer_type,
  set_profile_type, action_fields,
}

-- The checks of the action's class hold, inside macros too, and the actions on layers and profiles
-- are in schema 2 only.
unfoldable mutual
  pub IsBuilt : SchemaVersion → Action → Type 0
  IsBuilt version (hotkey keys) = (is_nil keys ≡ false) × (any_empty keys ≡ false)
  IsBuilt version (command argv timeout) = (is_nil argv ≡ false) × (any_empty argv ≡ false)
  IsBuilt version (macro steps) = AreBuilt version steps
  IsBuilt version (set_layer l) = version ≡ v2
  IsBuilt version next_layer = version ≡ v2
  IsBuilt version previous_layer = version ≡ v2
  IsBuilt version (set_profile p) = version ≡ v2
  IsBuilt version _ = Unit

  pub AreBuilt : SchemaVersion → Steps → Type 0
  AreBuilt version done = Unit
  AreBuilt version (step a steps) = IsBuilt version a × AreBuilt version steps

module _ (path : Place) (version : SchemaVersion) where
  hotkey_action-IsBuilt :
      (keys : List String) {a : Action} → hotkey_action keys ≡ ok a → IsBuilt version a
  unfolding hotkey_action IsBuilt
  hotkey_action-IsBuilt keys h = ground arith

  command_action-IsBuilt :
      (argv : List String) (timeout : Option ℤ) {a : Action}
      → command_action argv timeout ≡ ok a
      → IsBuilt version a
  unfolding command_action IsBuilt
  command_action-IsBuilt argv timeout h = ground arith

  delay_action-IsBuilt : (n : ℤ) {a : Action} → delay_action n ≡ ok a → IsBuilt version a
  unfolding delay_action IsBuilt
  delay_action-IsBuilt n h = ground arith

  or_invalid_action-ok :
      (r : Result String Action) {a : Action} → or_invalid_action r path ≡ ok a → r ≡ ok a
  or_invalid_action-ok (ok a) h = cc
  or_invalid_action-ok (err m) h = cc

  parse_hotkey-IsBuilt : (v : Value) {a : Action} → parse_hotkey path v ≡ ok a → IsBuilt version a
  parse_hotkey-IsBuilt (list keys) h =
      let (texts, e, h') = >>=-eq-ok (key_texts path keys) _ h in
      hotkey_action-IsBuilt texts (or_invalid_action-ok (hotkey_action texts) h')
  parse_hotkey-IsBuilt v h = cc

  parse_command-IsBuilt :
      (v timeout : Value) {a : Action} → parse_command path v timeout ≡ ok a → IsBuilt version a
  parse_command-IsBuilt (list argv) timeout h =
      let (seconds, e, h1) = >>=-eq-ok (parse_timeout path timeout) _ h in
      let (texts, e', h2) = >>=-eq-ok (arg_texts path argv) _ h1 in
      command_action-IsBuilt texts seconds (or_invalid_action-ok (command_action texts seconds) h2)
  parse_command-IsBuilt v timeout h = cc

  parse_delay-IsBuilt : (v : Value) {a : Action} → parse_delay path v ≡ ok a → IsBuilt version a
  parse_delay-IsBuilt v h = elim (Option-cases (as_int v)) [
    | inl e ↦ ground arith
    | inr (n, e) ↦ delay_action-IsBuilt n (or_invalid_action-ok (delay_action n) (ground arith))
  ]

  action_of-IsBuilt :
      (data_ : Fields) (steps : Result ConfigError Steps) (t : ActionType) {a : Action}
      → ((parsed : Steps) → steps ≡ ok parsed → AreBuilt version parsed)
      → action_of path version data_ steps t ≡ ok a
      → IsBuilt version a
  unfolding action_of IsBuilt
  action_of-IsBuilt data_ steps hotkey_type built h = parse_hotkey-IsBuilt (get "keys" data_) h
  action_of-IsBuilt data_ steps text_type built h = ground arith
  action_of-IsBuilt data_ steps command_type built h =
      parse_command-IsBuilt (get "argv" data_) (get "timeout_seconds" data_) h
  action_of-IsBuilt data_ steps delay_type built h =
      parse_delay-IsBuilt (get "milliseconds" data_) h
  action_of-IsBuilt data_ steps macro_type built h =
      let (parsed, e, h') = >>=-eq-ok steps (λ x. ok (macro x)) h in
      subst (IsBuilt version) (ok-injective h') (built parsed e)
  action_of-IsBuilt data_ steps noop_type built h = ground arith
  action_of-IsBuilt data_ steps debug_log_type built h = ground arith
  action_of-IsBuilt data_ steps set_layer_type built h = ground arith
  action_of-IsBuilt data_ steps next_layer_type built h = ground arith
  action_of-IsBuilt data_ steps previous_layer_type built h = ground arith
  action_of-IsBuilt data_ steps set_profile_type built h = ground arith

  parse_fields-IsBuilt :
      (data_ : Fields) (steps : Result ConfigError Steps) {a : Action}
      → ((parsed : Steps) → steps ≡ ok parsed → AreBuilt version parsed)
      → parse_fields path version data_ steps ≡ ok a
      → IsBuilt version a
  parse_fields-IsBuilt data_ steps built h =
      elim (Option-cases (unknown_field (one_of action_fields) data_)) [
        | inr (key, e) ↦ ground arith
        | inl e ↦ elim (Option-cases (type_in (get "type" data_))) [
          | inl e' ↦ ground arith
          | inr (t, e') ↦ action_of-IsBuilt data_ steps t built (ground arith)
        ]
      ]

mutual
  unfolding parse_action IsBuilt

  pub parse_action-IsBuilt :
      (path : Place) (version : SchemaVersion) (v : Value) {a : Action}
      → parse_action path version v ≡ ok a
      → IsBuilt version a
  parse_action-IsBuilt path version (table data_) h =
      parse_fields-IsBuilt path version data_ (steps_in path version data_)
        (λ parsed. steps_in-AreBuilt path version data_) h
  parse_action-IsBuilt path version v h = cc

  steps_in-AreBuilt :
      (path : Place) (version : SchemaVersion) (data_ : Fields) {steps : Steps}
      → steps_in path version data_ ≡ ok steps
      → AreBuilt version steps
  steps_in-AreBuilt path version no_fields h = cc
  steps_in-AreBuilt path version (field k v rest) h = elim (Bool-cases ("steps" == k)) [
    | inl e ↦ parse_step_list-AreBuilt path version v (ground arith)
    | inr e ↦ steps_in-AreBuilt path version rest (ground arith)
  ]

  parse_step_list-AreBuilt :
      (path : Place) (version : SchemaVersion) (v : Value) {steps : Steps}
      → parse_step_list path version v ≡ ok steps
      → AreBuilt version steps
  parse_step_list-AreBuilt path version (list items) h = parse_steps-AreBuilt path version 0 items h
  parse_step_list-AreBuilt path version v h = cc

  parse_steps-AreBuilt :
      (path : Place) (version : SchemaVersion) (i : ℕ) (items : Values) {steps : Steps}
      → parse_steps path version i items ≡ ok steps
      → AreBuilt version steps
  parse_steps-AreBuilt path version i no_items h = subst (AreBuilt version) (ok-injective h) tt
  parse_steps-AreBuilt path version i (item v rest) h =
      let (a, e, h1) = >>=-eq-ok (parse_action (at_item (at_field path "steps") i) version v) _ h in
      let (as', e', h2) =
        >>=-eq-ok (parse_steps path version (i + 1) rest) (λ x. ok (step a x)) h1 in
      subst (AreBuilt version) (ok-injective h2) (
        parse_action-IsBuilt (at_item (at_field path "steps") i) version v e,
        parse_steps-AreBuilt path version (i + 1) rest e',
      )
