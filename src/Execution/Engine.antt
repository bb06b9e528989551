-- ===== src/Execution/Engine.antt =====
-- execution/engine.py and execution/models.py: `ActionExecutionEngine.execute`. The backends are
-- interfaces of the source; here they are a parameter, functions on a world `W` that they may
-- change. The three clock readings of a result (`started_at`, `finished_at`, `duration_seconds`) are
-- left out. A `CancelledError` leaves `execute` at once: `none` beside the world that it left.
pub mod Laws
mod Tests
use yyr4_linux_control.Base.{
  ⊤, ℕ, zero, suc, ◌+◌, String, Bool, true, false, ◌&&◌, ◌||◌, not, Option, none, some, List, [],
  ◌∷◌, ◌++◌, length, nat_beq, if◌then◌else◌, Result, ok, err,
}
use yyr4_linux_control.Base.Int.{ℤ, pos}
use yyr4_linux_control.Control.Actions.{
  Action, hotkey, text, command, delay, macro, set_layer, next_layer, previous_layer, set_profile,
  noop, debug_log,
}
use yyr4_linux_control.Control.Models.{OfficialControl}
use yyr4_linux_control.Control.Resolver.{ActionPlan, ResolutionStatus, unmapped, configured}

pub data ExecutionStatus : Type 0 where
  success failed timed_out cancelled skipped backend_unavailable : ExecutionStatus

-- What a step may raise, with the message that its `except` clause takes from it. For any other
-- exception that is `Unexpected error: ` and the exception's class and text. The message of a
-- command that failed leaves out the digits of its exit code.
pub data Raised : Type 0 where
  cancelled_error : Raised
  backend_unavailable_error desktop_input_error command_rejected_error : String → Raised
  command_timeout_error command_execution_error execution_cancelled_error : String → Raised
  other_error : String → Raised

-- `runtime_backend`, where there is one
pub record RuntimeBackend (W : Type 0) : Type 0 where
  pub do_set_layer : String → W → Result Raised ⊤ × W
  pub do_next_layer : W → Result Raised ⊤ × W
  pub do_previous_layer : W → Result Raised ⊤ × W
  pub do_set_profile : String → W → Result Raised ⊤ × W

-- What `command_runner.run` returns: the exit code and the two outputs.
pub record CommandOutput : Type 0 where
  pub code : ℤ
  pub out : List ℕ
  pub errors : List ℕ

pub record Backends (W : Type 0) : Type 0 where
  -- `asyncio.sleep(0)`: whether the task is cancelled there
  pub sleep : W → Bool × W
  pub availability : W → Bool
  pub send_hotkey : List String → W → Result Raised ⊤ × W
  pub type_text : String → W → Result Raised ⊤ × W
  pub run_command : List String → Option ℤ → W → Result Raised CommandOutput × W
  pub do_delay : ℕ → W → Result Raised ⊤ × W
  pub emit : String → W → Result Raised ⊤ × W
  pub runtime_backend : Option (RuntimeBackend W)

pub record StepExecutionResult : Type 0 where
  pub step_index : ℕ
  pub action_type : String
  pub status : ExecutionStatus
  pub exit_code : Option ℤ
  pub message : Option String
  pub stdout : Option (List ℕ)
  pub stderr : Option (List ℕ)
  pub output_truncated : Bool

-- `type(step).__name__`
abbrev pub action_type_name : Action → String
action_type_name (hotkey _) = "HotkeyAction"
action_type_name (text _) = "TextAction"
action_type_name (command _ _) = "CommandAction"
action_type_name (delay _) = "DelayAction"
action_type_name (macro _) = "MacroAction"
action_type_name (set_layer _) = "SetLayerAction"
action_type_name next_layer = "NextLayerAction"
action_type_name previous_layer = "PreviousLayerAction"
action_type_name (set_profile _) = "SetProfileAction"
action_type_name noop = "NoOpAction"
action_type_name (debug_log _) = "DebugLogAction"

-- `needle in haystack`, of bytes
abbrev pub starts : List ℕ → List ℕ → Bool
starts [] bytes = true
starts (n ∷ ns) [] = false
starts (n ∷ ns) (b ∷ bytes) = nat_beq n b && starts ns bytes

unfoldable pub has_part : List ℕ → List ℕ → Bool
has_part needle [] = starts needle []
has_part needle (b ∷ bytes) = starts needle (b ∷ bytes) || has_part needle bytes

-- `b"[TRUNCATED]"`
abbrev pub truncated_mark : List ℕ
truncated_mark = b'[' ∷ b'T' ∷ b'R' ∷ b'U' ∷ b'N' ∷ b'C' ∷ b'A' ∷ b'T' ∷ b'E' ∷ b'D' ∷ b']' ∷ []

-- How the `try` block of a step ends: the values it assigned, and what it raised.
pub record StepRun : Type 0 where
  pub output : Option CommandOutput
  pub raised : Option Raised

abbrev pub ended : Result Raised ⊤ → StepRun
ended (ok _) = record { output = none; raised = none }
ended (err e) = record { output = none; raised = some e }

abbrev pub ended_in : {W : Type 0} → Result Raised ⊤ × W → StepRun × W
ended_in (r, w) = (ended r, w)

abbrev pub is_zero_code : ℤ → Bool
is_zero_code (pos n) = nat_beq n 0
is_zero_code _ = false

-- a command has run; an exit code other than 0 is raised after its output is kept
abbrev pub ended_command : Result Raised CommandOutput → StepRun
ended_command (err e) = record { output = none; raised = some e }
ended_command (ok o) = record {
  output = some o;
  raised =
      (if is_zero_code o.code
        then none
        else some (command_execution_error "Command exited with non-zero code"));
}

module _ {W : Type 0} where
  abbrev pub on_desktop : Backends W → (W → Result Raised ⊤ × W) → W → StepRun × W
  on_desktop b call w = if b.availability w then ended_in (call w) else (
    record {
      output = none;
      raised = some (backend_unavailable_error "Desktop input backend is unavailable");
    },
    w,
  )

  abbrev pub on_runtime :
      Option (RuntimeBackend W) → (RuntimeBackend W → W → Result Raised ⊤ × W) → W → StepRun × W
  on_runtime none call w = (
    record {
      output = none;
      raised = some (backend_unavailable_error "Runtime backend is unavailable");
    },
    w,
  )
  on_runtime (some r) call w = ended_in (call r w)

  -- the `isinstance` tests of the `try` block, by the class of the step; a macro matches no branch
  abbrev pub run_step : Backends W → Action → W → StepRun × W
  run_step b (hotkey keys) w = on_desktop b (b.send_hotkey keys) w
  run_step b (text value) w = on_desktop b (b.type_text value) w
  run_step b (command argv timeout) w =
      let (r, w') = b.run_command argv timeout w in (ended_command r, w')
  run_step b (delay ms) w = ended_in (b.do_delay ms w)
  run_step b noop w = (ended (ok tt), w)
  run_step b (debug_log message) w = ended_in (b.emit message w)
  run_step b (set_layer layer) w = on_runtime b.runtime_backend (λ r. r.do_set_layer layer) w
  run_step b next_layer w = on_runtime b.runtime_backend (λ r. r.do_next_layer) w
  run_step b previous_layer w = on_runtime b.runtime_backend (λ r. r.do_previous_layer) w
  run_step b (set_profile profile) w =
      on_runtime b.runtime_backend (λ r. r.do_set_profile profile) w
  run_step b (macro steps) w = (ended (ok tt), w)

  -- the `try` block
  unfoldable pub perform : Backends W → Action → W → StepRun × W
  perform b step w =
      let (is_cancelled, w') = b.sleep w in
      if is_cancelled
      then (record { output = none; raised = some cancelled_error }, w')
      else run_step b step w'

-- The `except` clauses: the status of the step, which is also the overall status, and its message.
-- The clause of `CancelledError` raises again, and is taken before.
unfoldable pub step_status : Option Raised → ExecutionStatus
step_status none = success
step_status (some cancelled_error) = cancelled
step_status (some (backend_unavailable_error _)) = backend_unavailable
step_status (some (desktop_input_error _)) = failed
step_status (some (command_rejected_error _)) = failed
step_status (some (command_timeout_error _)) = timed_out
step_status (some (command_execution_error _)) = failed
step_status (some (execution_cancelled_error _)) = cancelled
step_status (some (other_error _)) = failed

abbrev pub step_message : Option Raised → Option String
step_message none = none
step_message (some cancelled_error) = some "Cancelled"
step_message (some (backend_unavailable_error m)) = some m
step_message (some (desktop_input_error m)) = some m
step_message (some (command_rejected_error m)) = some m
step_message (some (command_timeout_error m)) = some m
step_message (some (command_execution_error m)) = some m
step_message (some (execution_cancelled_error m)) = some m
step_message (some (other_error m)) = some m

abbrev pub is_cancellation : Option Raised → Bool
is_cancellation (some cancelled_error) = true
is_cancellation _ = false

abbrev pub is_success : ExecutionStatus → Bool
is_success success = true
is_success _ = false

abbrev pub skipped_result : ℕ → Action → StepExecutionResult
skipped_result i step = record {
  step_index = i;
  action_type = action_type_name step;
  status = skipped;
  exit_code = none;
  message = none;
  stdout = none;
  stderr = none;
  output_truncated = false;
}

abbrev pub with_output : Option CommandOutput → StepExecutionResult → StepExecutionResult
with_output none r = r
with_output (some o) r = record r {
  exit_code = some o.code;
  stdout = some o.out;
  stderr = some o.errors;
  output_truncated = has_part truncated_mark o.out || has_part truncated_mark o.errors;
}

abbrev pub step_result : ℕ → Action → StepRun → StepExecutionResult
step_result i step run = with_output run.output (record (skipped_result i step) {
  status = step_status run.raised;
  message = step_message run.raised;
})

-- The variables of the loop: the overall status, the completed steps and the results.
pub record Progress : Type 0 where
  pub overall_status : ExecutionStatus
  pub completed_steps : ℕ
  pub step_results : List StepExecutionResult

abbrev pub skip_step : ℕ → Action → Progress → Progress
skip_step i step p = record p { step_results = p.step_results ++ skipped_result i step ∷ [] }

abbrev pub add_result : ℕ → Action → StepRun → Progress → Progress
add_result i step run p = record {
  overall_status = step_status run.raised;
  completed_steps =
      (if is_success (step_status run.raised) then p.completed_steps + 1 else p.completed_steps);
  step_results = p.step_results ++ step_result i step run ∷ [];
}

module _ {W : Type 0} (b : Backends W) where
  -- `for i, step in enumerate(plan.steps)`
  unfoldable pub run_steps : ℕ → List Action → Progress → W → Option Progress × W
  run_steps i [] p w = (some p, w)
  run_steps i (step ∷ steps) p w = elim (is_success p.overall_status) [
    | false ↦ run_steps (i + 1) steps (skip_step i step p) w
    | true ↦
        let (run, w') = perform b step w in
        elim (is_cancellation run.raised) [
          | true ↦ (none, w')
          | false ↦ run_steps (i + 1) steps (add_result i step run p) w'
        ]
  ]

pub record ActionExecutionResult : Type 0 where
  pub control : OfficialControl
  pub plan_resolution_status : ResolutionStatus
  pub execution_status : ExecutionStatus
  pub total_steps : ℕ
  pub completed_steps : ℕ
  pub step_results : List StepExecutionResult

abbrev pub initial_status : ResolutionStatus → ExecutionStatus
initial_status unmapped = skipped
initial_status configured = success

abbrev pub start_progress : ResolutionStatus → Progress
start_progress status = record {
  overall_status = initial_status status;
  completed_steps = 0;
  step_results = [];
}

abbrev pub finished : ActionPlan → Progress → ActionExecutionResult
finished plan p = record {
  control = plan.control;
  plan_resolution_status = plan.resolution_status;
  execution_status = p.overall_status;
  total_steps = length plan.steps;
  completed_steps = p.completed_steps;
  step_results = p.step_results;
}

abbrev pub finished_in :
    {W : Type 0} → ActionPlan → Option Progress × W → Option ActionExecutionResult × W
finished_in plan (none, w) = (none, w)
finished_in plan (some p, w) = (some (finished plan p), w)

unfoldable pub execute :
    {W : Type 0} → Backends W → ActionPlan → W → Option ActionExecutionResult × W
execute b plan w =
    finished_in plan (run_steps b 0 plan.steps (start_progress plan.resolution_status) w)
