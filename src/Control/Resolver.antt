-- ===== src/Control/Resolver.antt =====
-- `ActionResolver.resolve`, `LayeredActionResolver.resolve` and `DryRunExecutor.execute` of
-- control/actions.py.
pub mod Laws
use yyr4_linux_control.Base.{
  ℕ, String, Bool, true, false, ◌&&◌, not, Option, none, some, List, [], ◌∷◌, map, length, ◌==◌,
  Result, ok, err, if◌then◌else◌,
}
use yyr4_linux_control.Base.Int.{ℤ}
use yyr4_linux_control.Base.Dict.{Dict, lookup}
use yyr4_linux_control.Domain.{ControlPhase, down, up}
use yyr4_linux_control.Control.Actions.{
  Action, hotkey, text, command, delay, macro, set_layer, next_layer, previous_layer, set_profile,
  noop, debug_log,
}
use yyr4_linux_control.Control.Models.{
  OfficialControl, control_eq, layer_eq, profile_eq, OfficialControlEvent, LayerId, general,
  ProfileId, LayerConfig, ProfileConfig, LayeredControlConfig,
}
use yyr4_linux_control.Control.Flatten.{MacroError, flatten}

pub data ResolutionStatus : Type 0 where
  unmapped configured : ResolutionStatus

pub record ActionPlan : Type 0 where
  pub control : OfficialControl
  pub resolution_status : ResolutionStatus
  pub steps : List Action
  pub mapping_source : Option String

pub data ResolveError : Type 0 where
  resolution_error : MacroError → ResolveError
  unknown_profile : ProfileId → ResolveError

-- the two limits of a resolver
pub record Limits : Type 0 where
  pub max_macro_depth : ℕ
  pub max_macro_steps : ℕ

-- the defaults of `__init__`
abbrev pub default_limits : Limits
default_limits = record { max_macro_depth = 10; max_macro_steps = 100 }

abbrev pub unmapped_plan : OfficialControl → Option String → ActionPlan
unmapped_plan control source = record {
  control = control;
  resolution_status = unmapped;
  steps = [];
  mapping_source = source;
}

-- the `try` block of `ActionResolver.resolve`
abbrev pub configured_plan :
    OfficialControl → Result MacroError (List Action) → Result ResolveError ActionPlan
configured_plan control (err e) = err (resolution_error e)
configured_plan control (ok steps) = ok (record {
  control = control;
  resolution_status = configured;
  steps = steps;
  mapping_source = none;
})

-- `ActionResolver.resolve`
unfoldable pub resolve_single :
    Limits → Dict OfficialControl Action → OfficialControlEvent → Result ResolveError ActionPlan
resolve_single limits config event = elim event.phase [
  | up ↦ ok (unmapped_plan event.control none)
  | down ↦ elim (lookup event.control config) [
    | none ↦ ok (unmapped_plan event.control none)
    | some action ↦
        configured_plan event.control
          (flatten limits.max_macro_depth limits.max_macro_steps action 0)
  ]
]

-- what the layer binds to the control
unfoldable pub action_in : ProfileConfig → LayerId → OfficialControl → Option Action
action_in profile layer_id control = elim (lookup layer_id profile.layers) [
  | none ↦ none
  | some layer ↦ lookup control layer.controls
]

-- The lookup in the active layer and the fallback to the general one, with the mapping's source.
unfoldable pub find_action : ProfileConfig → LayerId → OfficialControl → Option Action × String
find_action profile layer_id control = elim (action_in profile layer_id control) [
  | some action ↦ (some action, "active_layer")
  | none ↦
      if not (layer_id == general)
      then elim (action_in profile general control) [
        | some action ↦ (some action, "general_fallback")
        | none ↦ (none, "unmapped")
      ]
      else (none, "unmapped")
]

abbrev pub synthetic_config : OfficialControl → Option Action → Dict OfficialControl Action
synthetic_config control none = []
synthetic_config control (some action) = (control, action) ∷ []

-- The plan of the inner resolver, with the mapping's source put in.
abbrev pub with_source : String → Result ResolveError ActionPlan → Result ResolveError ActionPlan
with_source source (err e) = err e
with_source source (ok plan) = ok (record plan {
  mapping_source =
      some (elim plan.resolution_status [ configured ↦ source | unmapped ↦ "unmapped" ]);
})

-- `LayeredActionResolver.resolve`
unfoldable pub resolve :
    Limits
    → LayeredControlConfig
    → OfficialControlEvent
    → ProfileId
    → LayerId
    → Result ResolveError ActionPlan
unfolding resolve_single find_action
resolve limits config event profile_id layer_id = elim event.phase [
  | up ↦ ok (unmapped_plan event.control (some "unmapped"))
  | down ↦ elim (lookup profile_id config.profiles) [
    | none ↦ err (unknown_profile profile_id)
    | some profile ↦
        let (action, source) = find_action profile layer_id event.control in
        with_source source (resolve_single limits (synthetic_config event.control action) event)
  ]
]

-- the dictionaries in `step_logs`
pub data StepLog : Type 0 where
  hotkey_log : List String → StepLog
  text_log : String → StepLog
  command_log : List String → Option ℤ → StepLog
  delay_log : ℕ → StepLog
  noop_log : StepLog
  debug_log_log : String → StepLog
  unknown_log : StepLog

unfoldable pub step_log : Action → StepLog
step_log (hotkey keys) = hotkey_log keys
step_log (text value) = text_log value
step_log (command argv timeout) = command_log argv timeout
step_log (delay ms) = delay_log ms
step_log noop = noop_log
step_log (debug_log message) = debug_log_log message
step_log _ = unknown_log

pub record DryRunExecutionResult : Type 0 where
  pub control : OfficialControl
  pub status : ResolutionStatus
  pub step_count : ℕ
  pub steps : List StepLog

unfoldable pub dry_run : ActionPlan → DryRunExecutionResult
unfolding step_log
dry_run plan =
    let step_logs = map step_log plan.steps in
    record {
      control = plan.control;
      status = plan.resolution_status;
      step_count = length step_logs;
      steps = step_logs;
    }
