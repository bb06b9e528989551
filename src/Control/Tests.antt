-- ===== src/Control/Tests.antt =====
-- A configuration with one profile, whose layer 1 and general layer bind different controls.
use yyr4_linux_control.Base.{
  ◌≤◌, ◌≡◌, ◌≢◌, ◌↔◌, refl, true, none, some, [], ◌∷◌, length, ok, string_eq, ap, arith,
}
use yyr4_linux_control.Base.Dict.{lookup}
use yyr4_linux_control.Domain.{down}
use yyr4_linux_control.Control.Actions.{Action, hotkey, text, macro, done, step, noop, is_macro}
use yyr4_linux_control.Control.Flatten.{flatten, flatten_steps}
use yyr4_linux_control.Control.Flatten.Spec.{leaves, height, flatten_iff}
use yyr4_linux_control.Control.Models.{
  a1, a2, control_eq, layer_eq, profile_eq, general, layer_1, layer_2, OfficialControlEvent,
  ProfileId, LayerConfig, ProfileConfig, LayeredControlConfig,
}
use yyr4_linux_control.Control.Resolver.{
  default_limits, ActionPlan, configured, unmapped_plan, resolve, resolve_single, find_action,
  action_in,
}
use yyr4_linux_control.Control.Resolver.Laws.{
  plan_of, resolve_priority, IsRunnable, resolve-IsRunnable,
}

abbrev nested : Action
nested = macro (step (hotkey ("ctrl" ∷ "c" ∷ [])) (step (macro (step (text "x") done)) done))

flatten_iff_example : (flatten 1 10 nested 0 ≡ ok (hotkey ("ctrl" ∷ "c" ∷ []) ∷ text "x" ∷ [])) ↔ (
    ((hotkey ("ctrl" ∷ "c" ∷ []) ∷ text "x" ∷ []) ≡ leaves nested)
    × (height nested ≤ 1)
    × (is_macro nested ≡ true → length (hotkey ("ctrl" ∷ "c" ∷ []) ∷ text "x" ∷ []) ≤ 10))
flatten_iff_example = flatten_iff 1 10 nested (hotkey ("ctrl" ∷ "c" ∷ []) ∷ text "x" ∷ [])

abbrev default_id : ProfileId
default_id = record { value = "default" }

abbrev other_id : ProfileId
other_id = record { value = "other" }

abbrev general_config : LayerConfig
general_config = record { layer_id = general; controls = (a2, nested) ∷ [] }

abbrev layer_1_config : LayerConfig
layer_1_config = record { layer_id = layer_1; controls = (a1, noop) ∷ [] }

abbrev profile : ProfileConfig
profile = record {
  profile_id = default_id;
  layers = (general, general_config) ∷ (layer_1, layer_1_config) ∷ [];
}

abbrev config : LayeredControlConfig
config = record {
  schema_version = 2;
  default_profile = default_id;
  initial_layer = general;
  profiles = (default_id, profile) ∷ [];
}

abbrev press : OfficialControlEvent
press = record { control = a2; phase = down; timestamp_ns = 10 }

resolve_priority_example :
    resolve default_limits config press default_id layer_1 ≡ elim (action_in profile layer_1 a2) [
      | some action ↦ plan_of default_limits a2 action "active_layer"
      | none ↦ elim (action_in profile general a2) [
        | some action ↦ plan_of default_limits a2 action "general_fallback"
        | none ↦ ok (unmapped_plan a2 (some "unmapped"))
      ]
    ]
unfolding lookup
resolve_priority_example =
    resolve_priority default_limits config press default_id layer_1 profile refl refl

abbrev fallback : ActionPlan
fallback = record {
  control = a2;
  resolution_status = configured;
  steps = hotkey ("ctrl" ∷ "c" ∷ []) ∷ text "x" ∷ [];
  mapping_source = some "general_fallback";
}

resolve-IsRunnable_example : IsRunnable default_limits fallback
unfolding resolve resolve_single find_action action_in lookup flatten flatten_steps
resolve-IsRunnable_example =
    resolve-IsRunnable default_limits config press default_id layer_1 {plan = fallback} refl

default_other : default_id ≢ other_id
default_other e =
    ground (arith, (string_eq.beq_iff "default" "other").1 (ap (λ (x : ProfileId). x.value) e))

layers_differ : layer_1 ≢ layer_2
layers_differ h = cc

general_differs : general ≢ layer_2
general_differs h = cc
