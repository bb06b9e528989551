-- ===== src/Daemon/Runtime/Executor.antt =====
-- `DaemonRuntime._executor_loop`. `none`: the executor does not stand there.
use yyr4_linux_control.Base.{
  ◌+◌, Bool, true, false, Option, none, some, List, [], ◌∷◌, length, Result, ok, err, if◌then◌else◌,
}
use yyr4_linux_control.Control.Models.{OfficialControlEvent, LayeredControlConfig}
use yyr4_linux_control.Daemon.Context.{Context}
use yyr4_linux_control.Control.Resolver.{
  ActionPlan, ResolveError, ResolutionStatus, unmapped, configured, default_limits, resolve,
}
use yyr4_linux_control.Daemon.Queue.{EventQueue, dequeue, task_done, get_all_nowait}
use yyr4_linux_control.Daemon.Runtime.{
  Runtime, ExecutorPlace, absent, scheduled, checking, waiting, taken, executing, ended, closing,
}
use yyr4_linux_control.Execution.Engine.{ExecutionStatus, is_success}

-- how `self._action_executor.execute(plan)` ends, unless it is cancelled
pub data ExecutionEnd : Type 0 where
  returned : ExecutionStatus → ExecutionEnd
  raised : ExecutionEnd

module _ {A : Type 0} where
  -- `task_done()`; more calls than items never happen, as the accounting shows
  abbrev pub finish_task : EventQueue A → EventQueue A
  finish_task q = elim (task_done q) [ none ↦ q | some q' ↦ q' ]

  -- `for _ in discarded: task_done()`
  unfoldable pub finish_tasks : List A → EventQueue A → EventQueue A
  finish_tasks [] q = q
  finish_tasks (x ∷ xs) q = finish_tasks xs (finish_task q)

module _ {Time : Type 0} where
  -- the outer `finally`, at the end of the loop or of its cancellation
  unfoldable pub drain_queue : Bool → Runtime Time → Runtime Time
  drain_queue lost r =
      let (discarded, q) = get_all_nowait r.queue in
      record r {
        executor = ended lost;
        queue = finish_tasks discarded q;
        discarded_on_shutdown = r.discarded_on_shutdown + length discarded;
      }

  abbrev pub poll_stop : Runtime Time → Runtime Time
  unfolding drain_queue
  poll_stop r = if r.stop_event then drain_queue false r else record r { executor = waiting }

  -- the test of the loop
  unfoldable pub executor_poll : Runtime Time → Option (Runtime Time)
  unfolding drain_queue
  executor_poll r = elim r.executor [
    | scheduled ↦ some (poll_stop r)
    | checking ↦ some (poll_stop r)
    | _ ↦ none
  ]

  -- `TimeoutError`
  unfoldable pub executor_timeout : Runtime Time → Option (Runtime Time)
  executor_timeout r = elim r.executor [
    | waiting ↦ some (record r { executor = checking })
    | _ ↦ none
  ]

  abbrev pub take_event :
      Runtime Time
      → Option (OfficialControlEvent × EventQueue OfficialControlEvent)
      → Option (Runtime Time)
  take_event r none = none
  take_event r (some (event, q)) = some (record r { executor = taken event; queue = q })

  -- `dequeue` returns
  unfoldable pub executor_take : Runtime Time → Option (Runtime Time)
  executor_take r = elim r.executor [ waiting ↦ take_event r (dequeue r.queue) | _ ↦ none ]

  -- the inner `finally`
  abbrev pub event_done : Runtime Time → Runtime Time
  event_done r = record r { executor = checking; queue = finish_task r.queue }

  -- `except Exception`
  abbrev pub event_failed : Runtime Time → Runtime Time
  event_failed r = event_done (record r { executions_failed = r.executions_failed + 1 })

  abbrev pub after_plan : Runtime Time → ActionPlan → ResolutionStatus → Runtime Time
  after_plan r plan unmapped =
      event_done (record r {
        plans_resolved = r.plans_resolved + 1;
        unmapped_events = r.unmapped_events + 1;
      })
  after_plan r plan configured = record r {
    plans_resolved = r.plans_resolved + 1;
    executor = executing plan;
  }

  abbrev pub after_resolve : Runtime Time → Result ResolveError ActionPlan → Runtime Time
  after_resolve r (err e) = event_failed r
  after_resolve r (ok plan) = after_plan r plan plan.resolution_status

  -- With no context or no resolver the attribute access raises.
  abbrev pub resolve_event :
      Option (Context Time)
      → Option LayeredControlConfig
      → OfficialControlEvent
      → Runtime Time
      → Runtime Time
  resolve_event (some c) (some config) event r =
      after_resolve r (resolve default_limits config event c.selected_profile c.active_layer.id)
  resolve_event (some c) none event r = event_failed r
  resolve_event none resolver event r = event_failed r

  -- from `dequeue` to the execution of the plan
  unfoldable pub resolve_at : ExecutorPlace → Runtime Time → Option (Runtime Time)
  resolve_at (taken event) r = some (resolve_event r.context r.action_resolver event r)
  resolve_at _ r = none

  abbrev pub executor_resolve : Runtime Time → Option (Runtime Time)
  executor_resolve r = resolve_at r.executor r

  abbrev pub after_execute : Runtime Time → ExecutionEnd → Runtime Time
  after_execute r raised = event_failed r
  after_execute r (returned status) =
      let r' : Runtime Time = record r { plans_executed = r.plans_executed + 1 } in
      if is_success status
      then event_done (record r' { executions_succeeded = r.executions_succeeded + 1 })
      else event_failed r'

  unfoldable pub executor_finish : ExecutionEnd → Runtime Time → Option (Runtime Time)
  executor_finish end r = elim r.executor [ executing plan ↦ some (after_execute r end) | _ ↦ none ]

  -- `CancelledError`, after `cancel()` in the cleanup of the main task: the inner `finally` if an
  -- event is in hand, and the outer one; a task that has not run at all never enters them
  abbrev pub cancel_executor : ExecutorPlace → Runtime Time → Option (Runtime Time)
  cancel_executor absent r = none
  cancel_executor scheduled r = some (record r { executor = ended false })
  cancel_executor checking r = some (drain_queue false r)
  cancel_executor waiting r = some (drain_queue false r)
  cancel_executor (taken event) r = some (drain_queue true (event_done r))
  cancel_executor (executing plan) r = some (drain_queue true (event_done r))
  cancel_executor (ended lost) r = none

  unfoldable pub executor_cancelled : Runtime Time → Option (Runtime Time)
  unfolding drain_queue
  executor_cancelled r = elim r.phase [ closing ↦ cancel_executor r.executor r | _ ↦ none ]
