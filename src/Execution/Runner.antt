-- ===== src/Execution/Runner.antt =====
-- execution/command.py: `AsyncSubprocessCommandRunner.run`. Starting the process, waiting for it
-- within the timeout, and stopping it afterwards are calls of asyncio: a parameter, which is given
-- the arguments and the timeout and answers how that ended. Numbers in messages are left out.
pub mod Laws
mod Tests
use yyr4_linux_control.Base.{
  ℕ, String, Bool, Option, none, some, List, Result, ok, err, not, if◌then◌else◌,
}
use yyr4_linux_control.Base.Int.{ℤ, negsuc}
use yyr4_linux_control.Base.Text.{joined}
use yyr4_linux_control.Execution.Engine.{
  Raised, CommandOutput, cancelled_error, command_rejected_error, command_timeout_error,
  command_execution_error,
}
use yyr4_linux_control.Execution.Command.{Policy, is_allowed, effective_timeout, harvest}

pub data ProcessEnd : Type 0 where
  -- `create_subprocess_exec` raised an `OSError`
  not_started : String → ProcessEnd
  -- the process had to be stopped, after the timeout or since the task was cancelled
  exceeded cancelled_wait : ProcessEnd
  -- its `returncode`, and the chunks that its two streams delivered
  exited : Option ℤ → List (List ℕ) → List (List ℕ) → ProcessEnd

-- `proc.returncode if proc.returncode is not None else -1`
abbrev pub exit_code_of : Option ℤ → ℤ
exit_code_of none = negsuc 0
exit_code_of (some n) = n

abbrev pub outcome : Policy → ProcessEnd → Result Raised CommandOutput
outcome p (not_started e) = err (command_execution_error (joined "Failed to start process: " e))
outcome p exceeded = err (command_timeout_error "Command exceeded its timeout")
outcome p cancelled_wait = err cancelled_error
outcome p (exited returncode out errors) =
    ok (record { code = exit_code_of returncode; out = harvest p out; errors = harvest p errors })

abbrev pub outcome_in : {W : Type 0} → Policy → ProcessEnd × W → Result Raised CommandOutput × W
outcome_in p (e, w) = (outcome p e, w)

unfoldable pub run :
    {W : Type 0}
    → Policy
    → (List String → ℤ → W → ProcessEnd × W)
    → List String
    → Option ℤ
    → W
    → Result Raised CommandOutput × W
run p process argv timeout_seconds w =
    if not (is_allowed p argv)
    then (err (command_rejected_error "Command not allowed or invalid"), w)
    else outcome_in p (process argv (effective_timeout p timeout_seconds) w)
