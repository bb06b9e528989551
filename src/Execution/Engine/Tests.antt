-- ===== src/Execution/Engine/Tests.antt =====
-- An engine on a world that counts the calls of its backends. The typing backend fails.
use yyr4_linux_control.Base.{
  ℕ, ◌+◌, ◌≡◌, ◌≢◌, refl, true, none, some, Option, [], ◌∷◌, length, ok, err, false,
}
use yyr4_linux_control.Base.Int.{pos}
use yyr4_linux_control.Control.Actions.{hotkey, text, noop}
use yyr4_linux_control.Control.Models.{a1}
use yyr4_linux_control.Control.Resolver.{ActionPlan, configured}
use yyr4_linux_control.Execution.Engine.{
  Backends, desktop_input_error, ActionExecutionResult, execute, run_steps, perform, step_status,
  success, has_part,
}
use yyr4_linux_control.Execution.Engine.Laws.{IsFailFast, IsNumbered, successes, execute-IsFailFast}

abbrev backends : Backends ℕ
backends = record {
  sleep = λ w. (false, w);
  availability = λ w. true;
  send_hotkey = λ keys w. (ok tt, w + 1);
  type_text = λ value w. (err (desktop_input_error "typing failed"), w + 1);
  run_command = λ argv timeout w. (ok (record { code = pos 0; out = []; errors = [] }), w + 1);
  do_delay = λ ms w. (ok tt, w + 1);
  emit = λ message w. (ok tt, w + 1);
  runtime_backend = none;
}

abbrev plan : ActionPlan
plan = record {
  control = a1;
  resolution_status = configured;
  steps = hotkey ("ctrl" ∷ []) ∷ text "x" ∷ noop ∷ [];
  mapping_source = none;
}

abbrev result_of : Option ActionExecutionResult → ActionExecutionResult
result_of (some r) = r
result_of none = record {
  control = a1;
  plan_resolution_status = configured;
  execution_status = success;
  total_steps = 0;
  completed_steps = 0;
  step_results = [];
}

unfoldable result : ActionExecutionResult
unfolding execute run_steps perform step_status has_part
result = result_of (execute backends plan 0).0

ran : execute backends plan 0 ≡ (some result, 2)
unfolding result execute run_steps perform step_status has_part
ran = refl

execute-IsFailFast_example :
    IsNumbered 0 plan.steps result.step_results
    × IsFailFast result.execution_status result.step_results
    × (result.completed_steps ≡ successes result.step_results)
    × (result.total_steps ≡ length plan.steps)
execute-IsFailFast_example = execute-IsFailFast backends plan 0 2 result refl ran

result_failed : result.execution_status ≢ success
unfolding result execute run_steps perform step_status has_part
result_failed h = cc
