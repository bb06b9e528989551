-- ===== src/Execution/Runner/Tests.antt =====
-- A runner over a world that counts the processes it started.
use yyr4_linux_control.Base.{
  ℕ, ◌+◌, ◌≤◌, ◌≡◌, refl, String, true, none, some, List, [], ◌∷◌, ok, length,
}
use yyr4_linux_control.Base.Int.{ℤ, pos}
use yyr4_linux_control.Execution.Engine.{CommandOutput}
use yyr4_linux_control.Execution.Command.{
  Policy, default_policy, is_allowed, any_longer, is_forbidden, has_slash, effective_timeout,
  harvest, read_stream, read_chunks,
}
use yyr4_linux_control.Execution.Runner.{ProcessEnd, exited, run}
use yyr4_linux_control.Execution.Runner.Laws.{run_bounded}

abbrev policy : Policy
policy = default_policy ("date" ∷ [])

abbrev process : List String → ℤ → ℕ → ProcessEnd × ℕ
process argv timeout w = (exited (some (pos 0)) ((7 ∷ 8 ∷ []) ∷ []) [], w + 1)

abbrev printed : CommandOutput
printed = record { code = pos 0; out = 7 ∷ 8 ∷ []; errors = [] }

ran : (run policy process ("date" ∷ []) none 0).0 ≡ ok printed
unfolding run is_allowed any_longer is_forbidden has_slash effective_timeout harvest read_stream
    read_chunks
ran = refl

run_bounded_example :
    (is_allowed policy ("date" ∷ []) ≡ true)
    × (length printed.out ≤ policy.max_output_bytes + 12)
    × (length printed.errors ≤ policy.max_output_bytes + 12)
run_bounded_example = run_bounded policy process ("date" ∷ []) none 0 printed ran
