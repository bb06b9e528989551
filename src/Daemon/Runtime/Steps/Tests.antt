-- ===== src/Daemon/Runtime/Steps/Tests.antt =====
-- A daemon with a queue of one place, whose session yields two events.
use yyr4_linux_control.Base.{
  ℕ, ◌+◌, ◌≤◌, ◌≡◌, ◌⊎◌, refl, Bool, true, false, some, [], ◌∷◌, ok, length,
}
use yyr4_linux_control.Base.Dict.{lookup}
use yyr4_linux_control.Domain.{down}
use yyr4_linux_control.Control.Actions.{text}
use yyr4_linux_control.Control.Flatten.{flatten}
use yyr4_linux_control.Control.Models.{
  a2, control_eq, layer_eq, profile_eq, general, OfficialControlEvent, ProfileId,
  LayeredControlConfig,
}
use yyr4_linux_control.Control.Resolver.{resolve, resolve_single, find_action, action_in}
use yyr4_linux_control.Daemon.Queue.{enqueue, dequeue, task_done}
use yyr4_linux_control.Daemon.Context.{new_context, set_config}
use yyr4_linux_control.Daemon.Runtime.{
  Runtime, daemon_runtime, request_stop, finished, stopped, running, in_session, scheduled, planned,
  checking,
}
use yyr4_linux_control.Daemon.Runtime.Executor.{
  returned, executor_poll, executor_take, resolve_at, executor_finish,
}
use yyr4_linux_control.Daemon.Runtime.Main.{
  completed, run_start, main_connect, main_open, main_event, main_session_end, main_cleanup,
  main_finish,
}
use yyr4_linux_control.Daemon.Runtime.Steps.{
  step, Reach, here, next, ask_stop, start, connects, opens, cleans, finishes, receives,
  session_ends, polls, takes, resolves, executes, Label,
}
use yyr4_linux_control.Daemon.Runtime.Steps.Counters.{held}
use yyr4_linux_control.Daemon.Runtime.Steps.Accounting.{runtime_accounts}
use yyr4_linux_control.Daemon.Runtime.Steps.Ending.{
  stage, is_final, rank, main_steps, state_advances, stop_bounds, stop_finishes, is_main,
}
use yyr4_linux_control.Execution.Engine.{success}

abbrev home : ProfileId
home = record { value = "home" }

abbrev config : LayeredControlConfig
config = record {
  schema_version = 2;
  default_profile = home;
  initial_layer = general;
  profiles =
      (
        home,
        record {
          profile_id = home;
          layers = (general, record { layer_id = general; controls = (a2, text "x") ∷ [] }) ∷ [];
        },
      )
      ∷ [];
}

abbrev press : OfficialControlEvent
press = record { control = a2; phase = down; timestamp_ns = 10 }

abbrev never : ℕ → Bool
never n = false

abbrev fresh : Runtime ℕ
fresh = daemon_runtime 1

-- in its session, with one event in the queue and one dropped
abbrev in_use : Runtime ℕ
in_use = record fresh {
  state = running;
  phase = in_session true;
  executor = scheduled;
  reloader = planned;
  queue = record { capacity = 1; items = press ∷ []; unfinished_tasks = 1; dropped_count = 1 };
  context = some (set_config config (new_context home general 100));
  action_resolver = some config;
  started_at = some 100;
  current_session = true;
  config_revision = 1;
  sessions_started = 1;
  successful_sessions = 1;
  events_received = 2;
  plans_enqueued = 1;
}

to_use : Reach never fresh in_use
unfolding step run_start main_connect main_open main_event enqueue
to_use =
    next
      (next (next (next (next here (start (ok config) 100) refl) connects refl) opens refl)
        (receives press) refl)
      (receives press) refl

-- one event executed
abbrev handled : Runtime ℕ
handled = record in_use {
  executor = checking;
  queue = record { capacity = 1; items = []; unfinished_tasks = 0; dropped_count = 1 };
  plans_resolved = 1;
  plans_executed = 1;
  executions_succeeded = 1;
}

to_handled : Reach never in_use handled
unfolding step executor_poll executor_take dequeue resolve_at executor_finish task_done resolve
    resolve_single find_action action_in lookup flatten set_config
to_handled =
    next (next (next (next here polls refl) takes refl) resolves refl) (executes (returned success))
      refl

abbrev under_stop : Runtime ℕ
under_stop = record in_use { stop_event = true }

to_under_stop : Reach never fresh under_stop
unfolding step request_stop
to_under_stop = next to_use ask_stop refl

abbrev at_end : Runtime ℕ
at_end = record under_stop { state = stopped; phase = finished; current_session = false }

to_end : Reach never under_stop at_end
unfolding step main_connect main_session_end main_cleanup main_finish
to_end =
    next (next (next (next here (session_ends completed) refl) connects refl) cleans refl) finishes
      refl

runtime_accounts_example :
    (in_use.events_received ≡ in_use.plans_enqueued + in_use.queue.dropped_count)
    × (in_use.plans_enqueued
        ≡ length in_use.queue.items
          + held in_use.executor
          + in_use.discarded_on_shutdown
          + in_use.unmapped_events
          + in_use.executions_succeeded
          + in_use.executions_failed)
    × (in_use.executions_succeeded ≤ in_use.plans_executed)
    × (in_use.plans_executed ≤ in_use.plans_resolved)
    × (in_use.plans_resolved ≤ in_use.plans_enqueued)
    × (in_use.plans_enqueued ≤ in_use.events_received)
    × (length in_use.queue.items ≤ in_use.queue.capacity)
runtime_accounts_example = runtime_accounts never 1 in_use to_use

state_advances_example :
    (stage in_use.state ≤ stage handled.state)
    × ((in_use.state ≡ handled.state) ⊎ (is_final in_use.state ≡ false))
state_advances_example = state_advances never 1 in_use handled to_use to_handled

stop_bounds_example :
    (main_steps never to_end + rank at_end.phase ≤ rank under_stop.phase)
    × (main_steps never to_end ≤ 7)
stop_bounds_example = stop_bounds never 1 under_stop at_end to_under_stop refl to_end

to_end_of_stop : Reach never (request_stop in_use) at_end
unfolding step request_stop main_connect main_session_end main_cleanup main_finish
to_end_of_stop =
    next (next (next (next here (session_ends completed) refl) connects refl) cleans refl) finishes
      refl

stop_finishes_example :
    (main_steps never to_end_of_stop ≤ 6)
    × (((at_end.phase ≡ finished) × (is_final at_end.state ≡ true))
        ⊎ ((l : Label ℕ) × (t : Runtime ℕ) × (step never l at_end ≡ some t) × (is_main l ≡ 1)))
stop_finishes_example = stop_finishes never 1 in_use at_end to_use refl to_end_of_stop
