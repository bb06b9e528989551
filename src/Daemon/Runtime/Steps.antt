-- ===== src/Daemon/Runtime/Steps.antt =====
-- The daemon as a whole: its tasks and its callers take steps in any order.
pub mod Counters
pub mod ExecutorCounts
pub mod Accounting
pub mod Lifecycle
pub mod Ending
pub mod Shown
mod Tests
mod ShownTests
use yyr4_linux_control.Base.{ℕ, String, Bool, Option, none, some, Result, ok, err, ◌≡◌}
use yyr4_linux_control.Control.Models.{OfficialControlEvent, LayeredControlConfig}
use yyr4_linux_control.Daemon.Context
use yyr4_linux_control.Daemon.Context.{Context, ContextChangeSource}
use yyr4_linux_control.Daemon.Runtime.{
  Runtime, daemon_runtime, request_stop, request_reload, request_reload_and_wait,
}
use yyr4_linux_control.Daemon.Runtime.Executor.{
  ExecutionEnd, executor_poll, executor_timeout, executor_take, executor_resolve, executor_finish,
  executor_cancelled,
}
use yyr4_linux_control.Daemon.Runtime.Reloader.{
  reloader_poll, reloader_timeout, reloader_take, reloader_cancelled,
}
use yyr4_linux_control.Daemon.Runtime.Main.{
  SessionEnd, run_start, main_connect, main_wake, main_open, main_open_fails, main_event,
  main_session_end, main_cleanup, main_finish,
}

-- the four requests that change the context
pub data ContextRequest : Type 0 where
  to_layer to_profile : String → ContextRequest
  to_next to_previous : ContextRequest

module _ {Time : Type 0} where
  abbrev pub context_after : Result String (Context Time × Bool) → Context Time → Context Time
  context_after (ok (c, changed)) old = c
  context_after (err e) old = old

  -- `set_active_layer`, `next_active_layer`, `previous_active_layer`, `set_selected_profile`
  unfoldable pub answer :
      ContextRequest
      → ContextChangeSource
      → Time
      → Context Time
      → Result String (Context Time × Bool)
  answer (to_layer l) source now c = Context.set_layer l source now c
  answer to_next source now c = ok (Context.next_layer source now c)
  answer to_previous source now c = ok (Context.previous_layer source now c)
  answer (to_profile p) source now c = Context.set_profile p source now c

  unfoldable pub change_context :
      ContextRequest → ContextChangeSource → Time → Runtime Time → Option (Runtime Time)
  change_context q source now r = elim r.context [
    | none ↦ none
    | some c ↦ some (record r { context = some (context_after (answer q source now c) c) })
  ]

abbrev pub of_result : {A : Type 0} → Result String A → Option A
of_result (ok a) = some a
of_result (err e) = none

-- What may happen next, with what the environment chooses.
pub data Label (Time : Type 0) : Type 0 where
  ask_stop : Label Time
  ask_reload ask_reload_and_wait : ℕ → Label Time
  ask_context : ContextRequest → ContextChangeSource → Time → Label Time
  start : Result String LayeredControlConfig → Time → Label Time
  connects wakes opens cleans finishes : Label Time
  receives : OfficialControlEvent → Label Time
  open_fails session_ends : SessionEnd → Label Time
  polls times_out takes resolves cancels : Label Time
  executes : ExecutionEnd → Label Time
  reload_polls reload_times_out reload_cancels : Label Time
  reloads : Result String LayeredControlConfig → Time → Label Time

-- `none`: nothing of the kind can happen now
unfoldable pub step :
    {Time : Type 0} → (ℕ → Bool) → Label Time → Runtime Time → Option (Runtime Time)
step overflows ask_stop r = some (request_stop r)
step overflows (ask_reload future) r = some (request_reload future r)
step overflows (ask_reload_and_wait future) r = some (request_reload_and_wait future r)
step overflows (ask_context q source now) r = change_context q source now r
step overflows (start loaded now) r = of_result (run_start loaded now r)
step overflows connects r = main_connect overflows r
step overflows wakes r = main_wake r
step overflows opens r = main_open r
step overflows cleans r = main_cleanup r
step overflows finishes r = main_finish r
step overflows (receives event) r = main_event event r
step overflows (open_fails end) r = main_open_fails end r
step overflows (session_ends end) r = main_session_end end r
step overflows polls r = executor_poll r
step overflows times_out r = executor_timeout r
step overflows takes r = executor_take r
step overflows resolves r = executor_resolve r
step overflows cancels r = executor_cancelled r
step overflows (executes end) r = executor_finish end r
step overflows reload_polls r = reloader_poll r
step overflows reload_times_out r = reloader_timeout r
step overflows reload_cancels r = reloader_cancelled r
step overflows (reloads loaded now) r = reloader_take loaded now r

-- What a runtime comes to by steps.
pub data Reach {Time : Type 0} (overflows : ℕ → Bool) (r : Runtime Time)
    : Runtime Time → Type 0 where
  here : Reach overflows r r
  next :
      {s t : Runtime Time}
      → Reach overflows r s
      → (l : Label Time) → step overflows l s ≡ some t
      → Reach overflows r t
