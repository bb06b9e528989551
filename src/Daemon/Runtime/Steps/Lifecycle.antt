-- ===== src/Daemon/Runtime/Steps/Lifecycle.antt =====
-- The states of the daemon and the phases of its main task.
use yyr4_linux_control.Base.{ℕ, ◌≡◌, Bool, true, false, some, ◌⊎◌, arith, inr, refl}
use yyr4_linux_control.Daemon.Runtime.{
  Runtime, DaemonState, created, starting, connecting, running, reconnecting, stopping, stopped,
  failed, is_created, Phase, before_run, loop_head, backoff, opening, leaving, cleaning, closing,
  finished, in_session, ExecutorPlace, absent, ReloaderPlace, unstarted, request_stop,
  request_reload, request_reload_and_wait, daemon_runtime,
}
use yyr4_linux_control.Daemon.Runtime.Executor.{
  executor_poll, executor_timeout, executor_take, resolve_at, executor_finish, executor_cancelled,
}
use yyr4_linux_control.Daemon.Runtime.Reloader.{
  reloader_poll, reloader_timeout, reloader_take, reloader_cancelled,
}
use yyr4_linux_control.Daemon.Runtime.Main.{
  run_start, main_connect, main_wake, main_open, main_open_fails, main_event, main_session_end,
  main_cleanup, main_finish,
}
use yyr4_linux_control.Daemon.Runtime.Steps.{
  Label, step, Reach, here, next, change_context, ask_stop, ask_reload, ask_reload_and_wait,
  ask_context, start, connects, wakes, opens, cleans, finishes, receives, open_fails, session_ends,
  polls, times_out, takes, resolves, cancels, executes, reload_polls, reload_times_out,
  reload_cancels, reloads,
}

-- which states a phase may have
abbrev pub allows : Phase → DaemonState → Bool
allows before_run created = true
allows loop_head starting = true
allows loop_head connecting = true
allows loop_head reconnecting = true
allows loop_head running = true
allows backoff reconnecting = true
allows opening connecting = true
allows opening reconnecting = true
allows (in_session false) connecting = true
allows (in_session false) reconnecting = true
allows (in_session true) running = true
allows leaving running = true
allows cleaning starting = true
allows cleaning connecting = true
allows cleaning reconnecting = true
allows cleaning running = true
allows cleaning failed = true
allows closing stopping = true
allows closing failed = true
allows finished stopped = true
allows finished failed = true
allows _ _ = false

-- the other two tasks have not been created
abbrev pub has_no_tasks : ExecutorPlace → ReloaderPlace → Bool
has_no_tasks absent unstarted = true
has_no_tasks _ _ = false

-- sessions are open exactly while the main task is in one
abbrev pub is_in_session : Phase → Bool
is_in_session (in_session seen) = true
is_in_session leaving = true
is_in_session _ = false

-- The state fits the phase, a session is open exactly in its phase, and before `run` there are no
-- tasks.
abbrev pub IsPhased : {Time : Type 0} → Runtime Time → Type 0
IsPhased r =
    (allows r.phase r.state ≡ true)
    × (r.current_session ≡ is_in_session r.phase)
    × ((is_created r.state ≡ false) ⊎ (has_no_tasks r.executor r.reloader ≡ true))

module _ {Time : Type 0} (overflows : ℕ → Bool) where
  pub step-IsPhased :
      (l : Label Time) (r s : Runtime Time) → IsPhased r → step overflows l r ≡ some s → IsPhased s
  unfolding step request_stop request_reload request_reload_and_wait change_context run_start
      main_connect main_wake main_open main_open_fails main_event main_session_end main_cleanup
      main_finish executor_poll executor_timeout executor_take resolve_at executor_finish
      executor_cancelled reloader_poll reloader_timeout reloader_take reloader_cancelled
  step-IsPhased ask_stop r s p h = ground arith
  step-IsPhased (ask_reload future) r s p h = ground arith
  step-IsPhased (ask_reload_and_wait future) r s p h = ground arith
  step-IsPhased (ask_context q source now) r s p h = ground arith
  step-IsPhased (start loaded now) r s p h = ground arith
  step-IsPhased connects r s p h = ground arith
  step-IsPhased wakes r s p h = ground arith
  step-IsPhased opens r s p h = ground arith
  step-IsPhased cleans r s p h = ground arith
  step-IsPhased finishes r s p h = ground arith
  step-IsPhased (receives event) r s p h = ground arith
  step-IsPhased (open_fails end) r s p h = ground arith
  step-IsPhased (session_ends end) r s p h = ground arith
  step-IsPhased polls r s p h = ground arith
  step-IsPhased times_out r s p h = ground arith
  step-IsPhased takes r s p h = ground arith
  step-IsPhased resolves r s p h = ground arith
  step-IsPhased cancels r s p h = ground arith
  step-IsPhased (executes end) r s p h = ground arith
  step-IsPhased reload_polls r s p h = ground arith
  step-IsPhased reload_times_out r s p h = ground arith
  step-IsPhased reload_cancels r s p h = ground arith
  step-IsPhased (reloads loaded now) r s p h = ground arith

  pub Reach-IsPhased : {r s : Runtime Time} → IsPhased r → Reach overflows r s → IsPhased s
  Reach-IsPhased p here = p
  Reach-IsPhased p (next {s} {t} reach l h) = step-IsPhased l s t (Reach-IsPhased p reach) h

pub daemon_runtime-IsPhased :
    (Time : Type 0) (capacity : ℕ) → IsPhased (daemon_runtime {Time = Time} capacity)
daemon_runtime-IsPhased Time capacity = (refl, refl, inr refl)
