-- ===== src/Control/Actions.antt =====
-- The actions of control/actions.py. A delay of less than 0 is refused when an action is built, so
-- its milliseconds are a natural.
use yyr4_linux_control.Base.{
  ℕ, String, Bool, true, false, ◌||◌, Option, List, [], ◌∷◌, Result, ok, err, raise_if, ◌>>◌,
}
use yyr4_linux_control.Base.Int.{ℤ, pos, negsuc}
use yyr4_linux_control.Base.Text.{is_empty}

mutual
  pub data Action : Type 0 where
    hotkey : List String → Action
    text : String → Action
    command : List String → Option ℤ → Action
    delay : ℕ → Action
    macro : Steps → Action
    set_layer : String → Action
    next_layer : Action
    previous_layer : Action
    set_profile : String → Action
    noop : Action
    debug_log : String → Action

  -- the tuple of a macro's steps
  pub data Steps : Type 0 where
    done : Steps
    step : Action → Steps → Steps

abbrev pub any_empty : List String → Bool
any_empty [] = false
any_empty (s ∷ rest) = is_empty s || any_empty rest

abbrev pub is_nil : List String → Bool
is_nil [] = true
is_nil (s ∷ rest) = false

-- `HotkeyAction.__post_init__`
unfoldable pub hotkey_action : List String → Result String Action
hotkey_action keys = do
  raise_if (is_nil keys) "HotkeyAction must have at least one key"
  raise_if (any_empty keys) "Hotkey keys cannot be empty"
  ok (hotkey keys)

-- `CommandAction.__post_init__`
unfoldable pub command_action : List String → Option ℤ → Result String Action
command_action argv timeout_seconds = do
  raise_if (is_nil argv) "CommandAction must have non-empty argv"
  raise_if (any_empty argv) "CommandAction argv items must be non-empty strings"
  ok (command argv timeout_seconds)

-- `DelayAction.__post_init__`
unfoldable pub delay_action : ℤ → Result String Action
delay_action (pos ms) = ok (delay ms)
delay_action (negsuc _) = err "DelayAction milliseconds cannot be negative"

-- `isinstance(action, MacroAction)`
abbrev pub is_macro : Action → Bool
is_macro (macro _) = true
is_macro _ = false
