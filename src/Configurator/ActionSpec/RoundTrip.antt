-- ===== src/Configurator/ActionSpec/RoundTrip.antt =====
-- What `action_to_spec` writes, `parse_spec` reads.
use yyr4_linux_control.Base.{
  ℕ, zero, suc, ◌+◌, ◌<◌, ◌≡◌, refl, String, true, false, Option, none, some, List, [], ◌∷◌, ok,
  arith, string_eq, if◌then◌else◌,
}
use yyr4_linux_control.Base.Dict.{is_some}
use yyr4_linux_control.Base.Int.{ℤ, pos, negsuc}
use yyr4_linux_control.Base.Value.{get, unknown_field, strings, Place, at_field, at_item}
use yyr4_linux_control.Control.Actions.{
  Action, Steps, hotkey, text, command, delay, macro, done, step, set_layer, next_layer,
  previous_layer, set_profile, noop, debug_log, hotkey_action, command_action, is_nil, any_empty,
}
use yyr4_linux_control.Control.Models.{layer_of, profile_id, matches_profile_id, member_of}
use yyr4_linux_control.Control.Config.Actions.{type_of}
use yyr4_linux_control.Configurator.ActionSpec.{
  key_items, arg_items, dispatch, parse_spec, parse_steps, is_zero, max_spec_depth,
}
use yyr4_linux_control.Configurator.ActionSpec.Writing.{action_to_spec, step_specs}

-- An action that `parse_spec` can give at a depth: the checks of its class hold, its layer and its
-- profile are well-formed names, and its macros are nested up to the limit.
unfoldable mutual
  pub IsReadable : ℕ → Action → Type 0
  IsReadable depth (hotkey keys) = (is_nil keys ≡ false) × (any_empty keys ≡ false)
  IsReadable depth (command argv timeout) = (is_nil argv ≡ false) × (any_empty argv ≡ false)
  IsReadable depth (macro steps) = (depth < max_spec_depth) × AreReadable (depth + 1) steps
  IsReadable depth (set_layer l) = is_some (layer_of l) ≡ true
  IsReadable depth (set_profile p) = matches_profile_id p ≡ true
  IsReadable depth _ = Unit

  pub AreReadable : ℕ → Steps → Type 0
  AreReadable depth done = Unit
  AreReadable depth (step a steps) = IsReadable depth a × AreReadable depth steps

-- A timeout of 0 means none.
abbrev pub without_zero : Option ℤ → Option ℤ
without_zero none = none
without_zero (some n) = if is_zero n false then none else some n

unfoldable mutual
  pub without_zeros : Action → Action
  without_zeros (command argv timeout) = command argv (without_zero timeout)
  without_zeros (macro steps) = macro (each_without_zeros steps)
  without_zeros a = a

  pub each_without_zeros : Steps → Steps
  each_without_zeros done = done
  each_without_zeros (step a steps) = step (without_zeros a) (each_without_zeros steps)

key_items-strings :
    (path : Place) (i : ℕ) (keys : List String)
    → any_empty keys ≡ false
    → key_items path i (strings keys) ≡ ok keys
unfolding key_items
key_items-strings path i [] h = refl
key_items-strings path i (k ∷ keys) h = ground (arith, key_items-strings path (i + 1) keys)

arg_items-strings :
    (path : Place) (i : ℕ) (argv : List String) → arg_items path i (strings argv) ≡ ok argv
unfolding arg_items
arg_items-strings path i [] = refl
arg_items-strings path i (a ∷ argv) = ground (arith, arg_items-strings path (i + 1) argv)

mutual
  unfolding IsReadable parse_spec action_to_spec without_zeros dispatch type_of member_of get
      unknown_field hotkey_action command_action profile_id

  read_back :
      (depth : ℕ) (path : Place) (a : Action)
      → IsReadable depth a
      → parse_spec depth path (action_to_spec a) ≡ ok (without_zeros a)
  read_back depth path (hotkey []) h = ground arith
  read_back depth path (hotkey (k ∷ keys)) h =
      ground (arith, key_items-strings (at_field path "keys") 0 (k ∷ keys))
  read_back depth path (text s) h = refl
  read_back depth path (command [] timeout) h = ground arith
  read_back depth path (command (a ∷ argv) none) h =
      ground (arith, arg_items-strings (at_field path "argv") 0 (a ∷ argv))
  read_back depth path (command (a ∷ argv) (some (pos zero))) h =
      ground (arith, arg_items-strings (at_field path "argv") 0 (a ∷ argv))
  read_back depth path (command (a ∷ argv) (some (pos (suc n)))) h =
      ground (arith, arg_items-strings (at_field path "argv") 0 (a ∷ argv))
  read_back depth path (command (a ∷ argv) (some (negsuc n))) h =
      ground (arith, arg_items-strings (at_field path "argv") 0 (a ∷ argv))
  read_back depth path (delay ms) h = refl
  read_back depth path (macro steps) (low, h) =
      ground (arith, read_back_steps (depth + 1) (at_field path "steps") 0 steps h)
  read_back depth path noop h = refl
  read_back depth path (debug_log s) h = refl
  read_back depth path (set_layer l) h = ground arith
  read_back depth path next_layer h = refl
  read_back depth path previous_layer h = refl
  read_back depth path (set_profile p) h = ground arith

  read_back_steps :
      (depth : ℕ) (path : Place) (i : ℕ) (steps : Steps)
      → AreReadable depth steps
      → parse_steps depth path i (step_specs steps) ≡ ok (each_without_zeros steps)
  read_back_steps depth path i done h = refl
  read_back_steps depth path i (step a steps) (h, hs) =
      ground
        (arith, read_back depth (at_item path i) a h, read_back_steps depth path (i + 1) steps hs)

-- An action whose class checks hold, whose layers and profiles are well-formed names and whose
-- macros are nested at most ten deep is read back from its spec as it was, but for timeouts of 0,
-- which become none.
pub parse_spec-action_to_spec :
    (path : Place) (a : Action)
    → IsReadable 0 a
    → parse_spec 0 path (action_to_spec a) ≡ ok (without_zeros a)
parse_spec-action_to_spec path a h = read_back 0 path a h
