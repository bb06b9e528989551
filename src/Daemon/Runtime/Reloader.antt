-- ===== src/Daemon/Runtime/Reloader.antt =====
-- `DaemonRuntime._try_load_config`, `_handle_reload` and `_reload_loop`. Loading a file is a
-- parameter of a step: what the file holds at that moment, or the message of the failure.
use yyr4_linux_control.Base.{
  ℕ, ◌+◌, String, Option, none, some, List, [], ◌∷◌, ◌++◌, map, Result, ok, err, if◌then◌else◌,
}
use yyr4_linux_control.Control.Models.{LayeredControlConfig}
use yyr4_linux_control.Daemon.Context.{Context, reconcile_after_reload}
use yyr4_linux_control.Daemon.Runtime.{
  Runtime, ReloaderPlace, unstarted, planned, testing, awaiting, done, ReloadAnswer, reloaded,
  refused, closing,
}

-- what a pending request is answered at the end
abbrev pub reject : ℕ → ℕ → ℕ × ReloadAnswer
reject revision future = (future, refused "DAEMON_STOPPING" revision)

module _ {Time : Type 0} where
  abbrev pub reconciled :
      LayeredControlConfig → Time → Option (Context Time) → Option (Context Time)
  reconciled config now none = none
  reconciled config now (some c) = some (reconcile_after_reload config now c).0

  -- A reload is only handled after the start, which leaves a context.
  unfoldable pub handle_reload :
      ℕ → Result String LayeredControlConfig → Time → Runtime Time → Runtime Time
  handle_reload future (err e) now r = record r {
    config_reload_failures = r.config_reload_failures + 1;
    last_error_code = some "RELOAD_FAILED";
    answered = r.answered ++ (future, refused "RELOAD_FAILED" r.config_revision) ∷ [];
  }
  handle_reload future (ok config) now r = record r {
    action_resolver = some config;
    config_revision = r.config_revision + 1;
    config_reload_successes = r.config_reload_successes + 1;
    context = reconciled config now r.context;
    answered =
        r.answered
        ++ (future, reloaded (r.config_revision + 1) (r.config_reload_successes + 1)) ∷ [];
  }

  -- the `finally`
  unfoldable pub reject_reloads : Runtime Time → Runtime Time
  reject_reloads r = record r {
    reloader = done;
    reload_queue = [];
    answered = r.answered ++ map (reject r.config_revision) r.reload_queue;
  }

  abbrev pub poll_reloads : Runtime Time → Runtime Time
  unfolding reject_reloads
  poll_reloads r = if r.stop_event then reject_reloads r else record r { reloader = awaiting }

  -- the test of the loop
  unfoldable pub reloader_poll : Runtime Time → Option (Runtime Time)
  unfolding reject_reloads
  reloader_poll r = elim r.reloader [
    | planned ↦ some (poll_reloads r)
    | testing ↦ some (poll_reloads r)
    | _ ↦ none
  ]

  -- `asyncio.wait` returns with no request
  unfoldable pub reloader_timeout : Runtime Time → Option (Runtime Time)
  reloader_timeout r = elim r.reloader [
    | awaiting ↦ some (record r { reloader = testing })
    | _ ↦ none
  ]

  abbrev pub take_reload :
      Result String LayeredControlConfig → Time → List ℕ → Runtime Time → Option (Runtime Time)
  take_reload loaded now [] r = none
  take_reload loaded now (future ∷ rest) r =
      some (handle_reload future loaded now (record r { reloader = testing; reload_queue = rest }))

  unfoldable pub reloader_take :
      Result String LayeredControlConfig → Time → Runtime Time → Option (Runtime Time)
  unfolding handle_reload
  reloader_take loaded now r = elim r.reloader [
    | awaiting ↦ take_reload loaded now r.reload_queue r
    | _ ↦ none
  ]

  -- A task that has not run at all never enters the `finally`.
  abbrev pub cancel_reloader : ReloaderPlace → Runtime Time → Option (Runtime Time)
  cancel_reloader planned r = some (record r { reloader = done })
  cancel_reloader testing r = some (reject_reloads r)
  cancel_reloader awaiting r = some (reject_reloads r)
  cancel_reloader unstarted r = none
  cancel_reloader done r = none

  unfoldable pub reloader_cancelled : Runtime Time → Option (Runtime Time)
  unfolding reject_reloads
  reloader_cancelled r = elim r.phase [ closing ↦ cancel_reloader r.reloader r | _ ↦ none ]
