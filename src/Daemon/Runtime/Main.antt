-- ===== src/Daemon/Runtime/Main.antt =====
-- `DaemonRuntime.run` and `_run_session`. The delay before a reconnect is a float; what matters of
-- it is whether the power that it is computed from overflows, a parameter.
use yyr4_linux_control.Base.{
  ℕ, ◌+◌, ◌-◌, String, Bool, true, false, Option, none, some, Result, ok, err, leb, if◌then◌else◌,
}
use yyr4_linux_control.Control.Models.{OfficialControlEvent, LayeredControlConfig}
use yyr4_linux_control.Daemon.Queue.{EventQueue, enqueue}
use yyr4_linux_control.Daemon.Context.{new_context, set_config}
use yyr4_linux_control.Daemon.Runtime.{
  Runtime, DaemonState, starting, connecting, running, reconnecting, stopping, stopped, failed,
  is_failed, is_created, loop_head, backoff, opening, cleaning, closing, finished, in_session,
  scheduled, planned, leaving,
}

-- how a session ends: its `observe` returns or is cancelled after a stop, or it raises
pub data SessionEnd : Type 0 where
  completed recoverable fatal unexpected : SessionEnd

module _ {Time : Type 0} where
  abbrev pub fail : String → Runtime Time → Runtime Time
  fail code r = record r { state = failed; last_error_code = some code }

  -- the start of `run`, once the state is STARTING
  abbrev pub load_initial : Result String LayeredControlConfig → Time → Runtime Time → Runtime Time
  load_initial (err e) now r = fail "INITIAL_CONFIG_INVALID" (record r { phase = finished })
  load_initial (ok config) now r = record r {
    action_resolver = some config;
    context =
        some (set_config config (new_context config.default_profile config.initial_layer now));
    config_revision = r.config_revision + 1;
    phase = loop_head;
    executor = scheduled;
    reloader = planned;
  }

  -- `run`, up to its loop; `err` is `InvalidStateTransitionError`
  unfoldable pub run_start :
      Result String LayeredControlConfig → Time → Runtime Time → Result String (Runtime Time)
  run_start loaded now r =
      if is_created r.state
      then ok (load_initial loaded now (record r { state = starting; started_at = some now }))
      else err "Runtime can only run once from CREATED state."

  abbrev pub connect : (ℕ → Bool) → Runtime Time → Runtime Time
  connect overflows r =
      if leb r.reconnect_attempts 0
      then record r { state = connecting; phase = opening }
      else if overflows (r.reconnect_attempts - 1)
      then fail "UNEXPECTED_ERROR" (record r { phase = cleaning })
      else record r { state = reconnecting; phase = backoff }

  -- the head of the loop, up to the sleep or to the session
  unfoldable pub main_connect : (ℕ → Bool) → Runtime Time → Option (Runtime Time)
  main_connect overflows r = elim r.phase [
    | loop_head ↦
        if r.stop_event then some (record r { phase = cleaning }) else some (connect overflows r)
    | _ ↦ none
  ]

  -- the sleep ends, or the stop event is set
  unfoldable pub main_wake : Runtime Time → Option (Runtime Time)
  main_wake r = elim r.phase [
    | backoff ↦ some (record r { phase = (if r.stop_event then cleaning else opening) })
    | _ ↦ none
  ]

  -- `create_session` returns
  unfoldable pub main_open : Runtime Time → Option (Runtime Time)
  main_open r = elim r.phase [
    | opening ↦ some (record r {
      phase = in_session false;
      current_session = true;
      sessions_started = r.sessions_started + 1;
    })
    | _ ↦ none
  ]

  -- what the first event of a session does besides
  abbrev pub first_event : Bool → Runtime Time → Runtime Time
  first_event true r = r
  first_event false r = record r {
    successful_sessions = r.successful_sessions + 1;
    reconnect_attempts = 0;
    state = running;
    phase = in_session true;
  }

  -- `enqueue`, and the `break` if a stop was requested
  abbrev pub enqueued : EventQueue OfficialControlEvent × Bool → Runtime Time → Runtime Time
  enqueued (q, accepted) r = record r {
    phase = (if r.stop_event then leaving else r.phase);
    queue = q;
    events_received = r.events_received + 1;
    plans_enqueued = (if accepted then r.plans_enqueued + 1 else r.plans_enqueued);
  }

  -- one event of `consume_events`
  unfoldable pub main_event : OfficialControlEvent → Runtime Time → Option (Runtime Time)
  main_event event r = elim r.phase [
    | in_session seen ↦ let r' = first_event seen r in some (enqueued (enqueue event r'.queue) r')
    | _ ↦ none
  ]

  -- the `finally` of `_run_session`, and how its caller goes on
  abbrev pub after_session : SessionEnd → Runtime Time → Runtime Time
  after_session completed r = record r {
    phase = loop_head;
    reconnect_attempts = (if r.stop_event then r.reconnect_attempts else r.reconnect_attempts + 1);
  }
  after_session recoverable r = record r {
    phase = loop_head;
    last_error_code = some "SESSION_DISCONNECTED";
    reconnect_attempts = r.reconnect_attempts + 1;
  }
  after_session fatal r = fail "FATAL_ERROR" (record r { phase = cleaning })
  after_session unexpected r = fail "UNEXPECTED_ERROR" (record r { phase = cleaning })

  unfoldable pub main_session_end : SessionEnd → Runtime Time → Option (Runtime Time)
  main_session_end end r = elim r.phase [
    | in_session seen ↦ some (after_session end (record r { current_session = false }))
    | leaving ↦ some (after_session end (record r { current_session = false }))
    | _ ↦ none
  ]

  -- `create_session` raises
  unfoldable pub main_open_fails : SessionEnd → Runtime Time → Option (Runtime Time)
  main_open_fails completed r = none
  main_open_fails end r = elim r.phase [ opening ↦ some (after_session end r) | _ ↦ none ]

  -- `if self._state != FAILED: self._state = s`
  abbrev pub unless_failed : DaemonState → Runtime Time → Runtime Time
  unless_failed s r = record r { state = (if is_failed r.state then r.state else s) }

  -- the cleanup up to the wait for the other tasks, which are cancelled
  unfoldable pub main_cleanup : Runtime Time → Option (Runtime Time)
  main_cleanup r = elim r.phase [
    | cleaning ↦ some (unless_failed stopping (record r { phase = closing }))
    | _ ↦ none
  ]

  -- the wait ends: the tasks have, or the grace period has
  unfoldable pub main_finish : Runtime Time → Option (Runtime Time)
  main_finish r = elim r.phase [
    | closing ↦ some (unless_failed stopped (record r { phase = finished }))
    | _ ↦ none
  ]
