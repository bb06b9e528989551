-- ===== src/Daemon/Runtime/Steps/Accounting.antt =====
-- Every event is accounted for, in whatever order the tasks take their steps.
use yyr4_linux_control.Base.{
  ℕ, ◌+◌, ◌≤◌, length, ◌≡◌, refl, some, [], ◌∷◌, Result, ok, err, String, length-append, arith, ◌⊎◌,
  inl, inr, Bool,
}
use yyr4_linux_control.Control.Models.{OfficialControlEvent, LayeredControlConfig}
use yyr4_linux_control.Daemon.Queue.{enqueue}
use yyr4_linux_control.Daemon.Context.{ContextChangeSource}
use yyr4_linux_control.Daemon.Runtime.{
  Runtime, daemon_runtime, request_stop, request_reload, request_reload_and_wait,
}
use yyr4_linux_control.Daemon.Runtime.Executor.{executor_cancelled}
use yyr4_linux_control.Daemon.Runtime.Reloader.{
  reloader_poll, reloader_timeout, reloader_take, reloader_cancelled,
}
use yyr4_linux_control.Daemon.Runtime.Main.{
  SessionEnd, run_start, main_connect, main_wake, main_open, main_open_fails, main_event,
  main_session_end, main_cleanup, main_finish,
}
use yyr4_linux_control.Daemon.Runtime.Steps.{
  Label, step, Reach, here, next, of_result, ContextRequest, change_context, ask_stop, ask_reload,
  ask_reload_and_wait, ask_context, start, connects, wakes, opens, cleans, finishes, receives,
  open_fails, session_ends, polls, times_out, takes, resolves, cancels, executes, reload_polls,
  reload_times_out, reload_cancels, reloads,
}
use yyr4_linux_control.Daemon.Runtime.Steps.Counters.{IsAccounted, held}
use yyr4_linux_control.Daemon.Runtime.Steps.Lifecycle.{
  IsPhased, Reach-IsPhased, daemon_runtime-IsPhased,
}
use yyr4_linux_control.Daemon.Runtime.Steps.ExecutorCounts.{
  some-injective, executor_timeout-IsAccounted, executor_poll-IsAccounted,
  executor_take-IsAccounted, executor_finish-IsAccounted, resolve_at-IsAccounted,
  cancel_executor-IsAccounted,
}

module _ {Time : Type 0} (r s : Runtime Time) (h : IsAccounted r) where
  open h use {received, enqueued, unfinished, resolved, handled, succeeded, sessions, fits}

  executor_cancelled-IsAccounted : executor_cancelled r ≡ some s → IsAccounted s
  unfolding executor_cancelled
  executor_cancelled-IsAccounted e =
      cancel_executor-IsAccounted r h r.executor s refl (ground arith)

  main_event-IsAccounted :
      (event : OfficialControlEvent) → main_event event r ≡ some s → IsAccounted s
  unfolding main_event enqueue
  main_event-IsAccounted event e = ground (arith, length-append r.queue.items (event ∷ []))

  main_session_end-IsAccounted :
      (end : SessionEnd) → main_session_end end r ≡ some s → IsAccounted s
  unfolding main_session_end
  main_session_end-IsAccounted end e = ground arith

  main_open_fails-IsAccounted : (end : SessionEnd) → main_open_fails end r ≡ some s → IsAccounted s
  unfolding main_open_fails
  main_open_fails-IsAccounted end e = ground arith

  main_connect-IsAccounted :
      (overflows : ℕ → Bool) → main_connect overflows r ≡ some s → IsAccounted s
  unfolding main_connect
  main_connect-IsAccounted overflows e = ground arith

  run_start-IsAccounted :
      (loaded : Result String LayeredControlConfig) (now : Time)
      → IsPhased r
      → run_start loaded now r ≡ ok s
      → IsAccounted s
  unfolding run_start
  run_start-IsAccounted loaded now p e = ground arith

  main_rest-IsAccounted :
      (main_wake r ≡ some s)
        ⊎ (main_open r ≡ some s)
        ⊎ (main_cleanup r ≡ some s)
        ⊎ (main_finish r ≡ some s)
      → IsAccounted s
  unfolding main_wake main_open main_cleanup main_finish
  main_rest-IsAccounted e = ground arith

  reloader_poll-IsAccounted : reloader_poll r ≡ some s → IsAccounted s
  unfolding reloader_poll
  reloader_poll-IsAccounted e = ground arith

  reloader_timeout-IsAccounted : reloader_timeout r ≡ some s → IsAccounted s
  unfolding reloader_timeout
  reloader_timeout-IsAccounted e = ground arith

  reloader_take-IsAccounted :
      (loaded : Result String LayeredControlConfig) (now : Time)
      → reloader_take loaded now r ≡ some s
      → IsAccounted s
  unfolding reloader_take
  reloader_take-IsAccounted loaded now e = ground arith

  reloader_cancelled-IsAccounted : reloader_cancelled r ≡ some s → IsAccounted s
  unfolding reloader_cancelled
  reloader_cancelled-IsAccounted e = ground arith

  change_context-IsAccounted :
      (q : ContextRequest) (source : ContextChangeSource) (now : Time)
      → change_context q source now r ≡ some s
      → IsAccounted s
  unfolding change_context
  change_context-IsAccounted q source now e = ground arith

  request_stop-IsAccounted : request_stop r ≡ s → IsAccounted s
  unfolding request_stop
  request_stop-IsAccounted e = ground arith

  request_reload-IsAccounted : (future : ℕ) → request_reload future r ≡ s → IsAccounted s
  unfolding request_reload
  request_reload-IsAccounted future e = ground arith

  request_reload_and_wait-IsAccounted :
      (future : ℕ) → request_reload_and_wait future r ≡ s → IsAccounted s
  unfolding request_reload_and_wait
  request_reload_and_wait-IsAccounted future e = ground arith

daemon_runtime-IsAccounted :
    (Time : Type 0) (capacity : ℕ) → IsAccounted (daemon_runtime {Time = Time} capacity)
daemon_runtime-IsAccounted Time capacity = omega arith

of_result-some : {A : Type 0} (x : Result String A) {a : A} → of_result x ≡ some a → x ≡ ok a
of_result-some (ok a) h = cc
of_result-some (err e) h = cc

module _ {Time : Type 0} (overflows : ℕ → Bool) where
  step-IsAccounted :
      (l : Label Time) (r s : Runtime Time)
      → IsPhased r
      → IsAccounted r
      → step overflows l r ≡ some s
      → IsAccounted s
  unfolding step
  step-IsAccounted ask_stop r s p h e = request_stop-IsAccounted r s h (some-injective e)
  step-IsAccounted (ask_reload future) r s p h e =
      request_reload-IsAccounted r s h future (some-injective e)
  step-IsAccounted (ask_reload_and_wait future) r s p h e =
      request_reload_and_wait-IsAccounted r s h future (some-injective e)
  step-IsAccounted (ask_context q source now) r s p h e =
      change_context-IsAccounted r s h q source now e
  step-IsAccounted (start loaded now) r s p h e =
      run_start-IsAccounted r s h loaded now p (of_result-some (run_start loaded now r) e)
  step-IsAccounted connects r s p h e = main_connect-IsAccounted r s h overflows e
  step-IsAccounted wakes r s p h e = main_rest-IsAccounted r s h (inl e)
  step-IsAccounted opens r s p h e = main_rest-IsAccounted r s h (inr (inl e))
  step-IsAccounted cleans r s p h e = main_rest-IsAccounted r s h (inr (inr (inl e)))
  step-IsAccounted finishes r s p h e = main_rest-IsAccounted r s h (inr (inr (inr e)))
  step-IsAccounted (receives event) r s p h e = main_event-IsAccounted r s h event e
  step-IsAccounted (open_fails end) r s p h e = main_open_fails-IsAccounted r s h end e
  step-IsAccounted (session_ends end) r s p h e = main_session_end-IsAccounted r s h end e
  step-IsAccounted polls r s p h e = executor_poll-IsAccounted r h s e
  step-IsAccounted times_out r s p h e = executor_timeout-IsAccounted r h s e
  step-IsAccounted takes r s p h e = executor_take-IsAccounted r h s e
  step-IsAccounted resolves r s p h e = resolve_at-IsAccounted r h r.executor s refl e
  step-IsAccounted cancels r s p h e = executor_cancelled-IsAccounted r s h e
  step-IsAccounted (executes end) r s p h e = executor_finish-IsAccounted r h end s e
  step-IsAccounted reload_polls r s p h e = reloader_poll-IsAccounted r s h e
  step-IsAccounted reload_times_out r s p h e = reloader_timeout-IsAccounted r s h e
  step-IsAccounted reload_cancels r s p h e = reloader_cancelled-IsAccounted r s h e
  step-IsAccounted (reloads loaded now) r s p h e = reloader_take-IsAccounted r s h loaded now e

  Reach-IsAccounted :
      {r s : Runtime Time} → IsPhased r → IsAccounted r → Reach overflows r s → IsAccounted s
  Reach-IsAccounted p h here = h
  Reach-IsAccounted p h (next {s} {t} reach l e) =
      step-IsAccounted l s t (Reach-IsPhased overflows p reach) (Reach-IsAccounted p h reach) e

  -- Whatever the daemon has come to, from its creation on: every event received was enqueued or
  -- dropped; every event enqueued waits in the queue, is in the executor's hands or was lost when
  -- that was cancelled, was discarded at the end, or counts as unmapped, succeeded or failed; the
  -- counts of successes, executions, resolved plans, enqueued plans and events received each stay
  -- within the next; and the queue is within its capacity.
  pub runtime_accounts :
      (capacity : ℕ) (r : Runtime Time)
      → Reach overflows (daemon_runtime capacity) r
      → (r.events_received ≡ r.plans_enqueued + r.queue.dropped_count)
        × (r.plans_enqueued
            ≡ length r.queue.items
              + held r.executor
              + r.discarded_on_shutdown
              + r.unmapped_events
              + r.executions_succeeded
              + r.executions_failed)
        × (r.executions_succeeded ≤ r.plans_executed)
        × (r.plans_executed ≤ r.plans_resolved)
        × (r.plans_resolved ≤ r.plans_enqueued)
        × (r.plans_enqueued ≤ r.events_received)
        × (length r.queue.items ≤ r.queue.capacity)
  runtime_accounts capacity r reach =
      let h =
        Reach-IsAccounted (daemon_runtime-IsPhased Time capacity)
          (daemon_runtime-IsAccounted Time capacity) reach in
      (h.received, h.enqueued, h.succeeded, omega arith, ground arith, omega arith, h.fits)
