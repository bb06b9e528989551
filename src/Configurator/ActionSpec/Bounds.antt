-- ===== src/Configurator/ActionSpec/Bounds.antt =====
-- What holds of every action that `parse_spec` returns.
use yyr4_linux_control.Base.{
  ℕ, ◌+◌, ◌<◌, ◌≤◌, ◌≡◌, subst, String, Option, none, some, List, Result, ok, err, arith, ◌==◌,
  string_eq, leb, inl, inr, Bool-cases, Option-cases, >>=-eq-ok, ◌>>=◌, ok-injective,
}
use yyr4_linux_control.Base.Int.{ℤ}
use yyr4_linux_control.Base.Value.{
  Value, str, null, list, table, Values, no_items, item, Fields, no_fields, field, get,
  unknown_field, one_of, Place, at_field, at_item,
}
use yyr4_linux_control.Control.Actions.{
  Action, Steps, macro, done, step, hotkey_action, command_action,
}
use yyr4_linux_control.Control.Flatten.Spec.{height, height_steps}
use yyr4_linux_control.Control.Models.{profile_id}
use yyr4_linux_control.Control.Resolver.{default_limits}
use yyr4_linux_control.Control.Config.Actions.{
  ActionType, hotkey_type, text_type, command_type, delay_type, macro_type, noop_type,
  debug_log_type, set_layer_type, next_layer_type, previous_layer_type, set_profile_type, type_of,
}
use yyr4_linux_control.Configurator.ActionSpec.{
  Spec, key_items, arg_items, dispatch, parse_spec, steps_in, parse_step_list, parse_steps,
  max_spec_depth, parse_hotkey, parse_command, parse_timeout, or_wrong, of_type, parse_object,
  allowed_fields,
}
use yyr4_linux_control.Configurator.ActionSpec.Writing.{action_to_spec}
use yyr4_linux_control.Configurator.ActionSpec.RoundTrip.{
  IsReadable, AreReadable, without_zeros, parse_spec-action_to_spec,
}

module _ (depth : ℕ) (path : Place) where
  or_wrong-ok : (r : Result String Action) {a : Action} → or_wrong path r ≡ ok a → r ≡ ok a
  or_wrong-ok (ok a) h = cc
  or_wrong-ok (err m) h = cc

  hotkey_action-IsReadable :
      (keys : List String) {a : Action} → hotkey_action keys ≡ ok a → IsReadable depth a
  unfolding hotkey_action IsReadable
  hotkey_action-IsReadable keys h = ground arith

  command_action-IsReadable :
      (argv : List String) (timeout : Option ℤ) {a : Action}
      → command_action argv timeout ≡ ok a
      → IsReadable depth a
  unfolding command_action IsReadable
  command_action-IsReadable argv timeout h = ground arith

  parse_hotkey-IsReadable :
      (v : Value) {a : Action} → parse_hotkey path v ≡ ok a → IsReadable depth a
  parse_hotkey-IsReadable (list no_items) h = cc
  parse_hotkey-IsReadable (list (item v rest)) h =
      let (texts, e, h') = >>=-eq-ok (key_items (at_field path "keys") 0 (item v rest)) _ h in
      hotkey_action-IsReadable texts (or_wrong-ok (hotkey_action texts) h')
  parse_hotkey-IsReadable v h = cc

  parse_command-IsReadable :
      (v timeout : Value) {a : Action} → parse_command path v timeout ≡ ok a → IsReadable depth a
  parse_command-IsReadable (list no_items) timeout h = cc
  parse_command-IsReadable (list (item v rest)) timeout h =
      let (texts, e, h1) = >>=-eq-ok (arg_items (at_field path "argv") 0 (item v rest)) _ h in
      let (seconds, e', h2) = >>=-eq-ok (parse_timeout path timeout) _ h1 in
      command_action-IsReadable texts seconds (or_wrong-ok (command_action texts seconds) h2)
  parse_command-IsReadable v timeout h = cc

  dispatch-IsReadable :
      (value : Fields) (steps : Spec Steps) (t : ActionType) {a : Action}
      → ((parsed : Steps) → steps ≡ ok parsed → AreReadable (depth + 1) parsed)
      → dispatch depth path value steps t ≡ ok a
      → IsReadable depth a
  unfolding dispatch IsReadable profile_id
  dispatch-IsReadable value steps hotkey_type readable h =
      parse_hotkey-IsReadable (get "keys" value) h
  dispatch-IsReadable value steps text_type readable h = ground arith
  dispatch-IsReadable value steps command_type readable h =
      parse_command-IsReadable (get "argv" value) (get "timeout_seconds" value) h
  dispatch-IsReadable value steps delay_type readable h = ground arith
  dispatch-IsReadable value steps macro_type {a = a} readable h =
      elim (Bool-cases (leb max_spec_depth depth)) [
        | inl e ↦ ground arith
        | inr e ↦
            let h1 : (steps >>= λ x. ok (macro x)) ≡ ok a = ground arith in
            let (parsed, e', h2) = >>=-eq-ok steps (λ x. ok (macro x)) h1 in
            subst (IsReadable depth) (ok-injective h2) (ground arith, readable parsed e')
      ]
  dispatch-IsReadable value steps noop_type readable h = ground arith
  dispatch-IsReadable value steps debug_log_type readable h = ground arith
  dispatch-IsReadable value steps set_layer_type readable h = ground arith
  dispatch-IsReadable value steps next_layer_type readable h = ground arith
  dispatch-IsReadable value steps previous_layer_type readable h = ground arith
  dispatch-IsReadable value steps set_profile_type readable h = ground arith

  of_type-IsReadable :
      (value : Fields) (steps : Spec Steps) (t : Option ActionType) {a : Action}
      → ((parsed : Steps) → steps ≡ ok parsed → AreReadable (depth + 1) parsed)
      → of_type depth path value steps t ≡ ok a
      → IsReadable depth a
  of_type-IsReadable value steps none readable h = ground arith
  of_type-IsReadable value steps (some t) readable h =
      elim (Option-cases (unknown_field (one_of (allowed_fields t)) value)) [
        | inl e ↦ dispatch-IsReadable value steps t readable (ground arith)
        | inr (k, e) ↦ ground arith
      ]

  parse_object-IsReadable :
      (value : Fields) (steps : Spec Steps) (v : Value) {a : Action}
      → ((parsed : Steps) → steps ≡ ok parsed → AreReadable (depth + 1) parsed)
      → parse_object depth path value steps v ≡ ok a
      → IsReadable depth a
  parse_object-IsReadable value steps (str atype) readable h =
      of_type-IsReadable value steps (type_of atype) readable h
  parse_object-IsReadable value steps null readable h = cc
  parse_object-IsReadable value steps v readable h = cc

mutual
  unfolding parse_spec IsReadable

  given :
      (depth : ℕ) (path : Place) (v : Value) {a : Action}
      → parse_spec depth path v ≡ ok a
      → IsReadable depth a
  given depth path (table value) h =
      parse_object-IsReadable depth path value (steps_in (depth + 1) path value) (get "type" value)
        (λ parsed. steps_in-AreReadable (depth + 1) path value) h
  given depth path v h = cc

  steps_in-AreReadable :
      (depth : ℕ) (path : Place) (value : Fields) {steps : Steps}
      → steps_in depth path value ≡ ok steps
      → AreReadable depth steps
  steps_in-AreReadable depth path no_fields h = cc
  steps_in-AreReadable depth path (field k v rest) h = elim (Bool-cases ("steps" == k)) [
    | inl e ↦ parse_step_list-AreReadable depth (at_field path "steps") v (ground arith)
    | inr e ↦ steps_in-AreReadable depth path rest (ground arith)
  ]

  parse_step_list-AreReadable :
      (depth : ℕ) (path : Place) (v : Value) {steps : Steps}
      → parse_step_list depth path v ≡ ok steps
      → AreReadable depth steps
  parse_step_list-AreReadable depth path (list items) h =
      parse_steps-AreReadable depth path 0 items h
  parse_step_list-AreReadable depth path v h = cc

  parse_steps-AreReadable :
      (depth : ℕ) (path : Place) (i : ℕ) (items : Values) {steps : Steps}
      → parse_steps depth path i items ≡ ok steps
      → AreReadable depth steps
  parse_steps-AreReadable depth path i no_items h = subst (AreReadable depth) (ok-injective h) tt
  parse_steps-AreReadable depth path i (item v rest) h =
      let (a, e, h1) = >>=-eq-ok (parse_spec depth (at_item path i) v) _ h in
      let (as', e', h2) = >>=-eq-ok (parse_steps depth path (i + 1) rest) (λ x. ok (step a x)) h1 in
      subst (AreReadable depth) (ok-injective h2)
        (given depth (at_item path i) v e, parse_steps-AreReadable depth path (i + 1) rest e')

mutual
  unfolding IsReadable height

  height_bound :
      (depth : ℕ) (a : Action)
      → depth ≤ max_spec_depth
      → IsReadable depth a
      → height a + depth ≤ max_spec_depth
  height_bound depth (macro steps) low (below, h) = height_steps_bound depth steps below h
  height_bound depth a low h = omega arith

  height_steps_bound :
      (depth : ℕ) (steps : Steps)
      → depth < max_spec_depth
      → AreReadable (depth + 1) steps
      → height_steps steps + depth ≤ max_spec_depth
  height_steps_bound depth done low h = omega arith
  height_steps_bound depth (step a steps) low (h, hs) =
      ground
        (arith, height_bound (depth + 1) a (omega arith) h, height_steps_bound depth steps low hs)

-- An action read from a spec passes the checks of its class, its layers and profiles are well-formed
-- names, and its macros are not nested deeper than the resolver's limit of ten; and its own spec
-- gives the action again, but for timeouts of 0.
pub parse_spec-IsReadable :
    (path : Place) (v : Value) (a : Action)
    → parse_spec 0 path v ≡ ok a
    → IsReadable 0 a
      × (height a ≤ default_limits.max_macro_depth)
      × (parse_spec 0 path (action_to_spec a) ≡ ok (without_zeros a))
parse_spec-IsReadable path v a h =
    let readable = given 0 path v {a = a} h in
    (
      readable,
      omega (arith, height_bound 0 a (omega arith) readable),
      parse_spec-action_to_spec path a readable,
    )
