-- ===== src/Control/Flatten.antt =====
-- `ActionResolver._flatten_action` of control/actions.py: a macro becomes the list of its simple
-- actions, within a limit on the nesting and one on the number of steps.
pub mod Spec
use yyr4_linux_control.Base.{
  ℕ, ◌+◌, Bool, List, [], ◌∷◌, ◌++◌, ltb, length, Result, ok, err, if◌then◌else◌,
}
use yyr4_linux_control.Control.Actions.{
  Action, Steps, hotkey, text, command, delay, macro, set_layer, next_layer, previous_layer,
  set_profile, noop, debug_log, done, step,
}

-- `MacroDepthExceededError` and `MacroStepLimitExceededError`
pub data MacroError : Type 0 where
  depth_exceeded step_limit_exceeded : MacroError

abbrev pub guarded :
    Bool → MacroError → Result MacroError (List Action) → Result MacroError (List Action)
guarded failed e r = if failed then err e else r

module _ (max_macro_depth max_macro_steps : ℕ) where
  -- One round of the loop over the steps: what the step flattens to, the test of the length, and
  -- the rest of the loop.
  abbrev pub extend :
      List Action
      → Result MacroError (List Action)
      → (List Action → Result MacroError (List Action))
      → Result MacroError (List Action)
  extend flat (err e) rest = err e
  extend flat (ok new) rest =
      guarded (ltb max_macro_steps (length (flat ++ new))) step_limit_exceeded (rest (flat ++ new))

  unfoldable mutual
    pub flatten : Action → ℕ → Result MacroError (List Action)
    flatten (macro steps) depth =
        guarded (ltb max_macro_depth depth) depth_exceeded (flatten_steps steps depth [])
    flatten a depth = guarded (ltb max_macro_depth depth) depth_exceeded (ok (a ∷ []))

    pub flatten_steps : Steps → ℕ → List Action → Result MacroError (List Action)
    flatten_steps done depth flat = ok flat
    flatten_steps (step a steps) depth flat =
        extend flat (flatten a (depth + 1)) (λ longer. flatten_steps steps depth longer)
