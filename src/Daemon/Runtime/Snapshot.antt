-- ===== src/Daemon/Runtime/Snapshot.antt =====
-- `DaemonRuntime.snapshot` and the record of daemon/models.py that it fills. The execution mode is a
-- setting that is passed on; the uptime is a float, computed by a parameter.
use yyr4_linux_control.Base.{ℕ, String, Bool, Option, none, some}
use mathlib.Core.Option
use yyr4_linux_control.Daemon.Queue.{size}
use yyr4_linux_control.Daemon.Context.{
  Context, ContextChangeSource, startup, control_action, management_cli, config_reload, unchanged,
  layer_attribute,
}
use yyr4_linux_control.Daemon.Runtime.{Runtime, DaemonState, created, starting}

pub record RuntimeSnapshot (Time Seconds : Type 0) : Type 0 where
  pub state : DaemonState
  pub started_at : Option Time
  pub uptime_seconds : Seconds
  pub config_revision : ℕ
  pub selected_profile : String
  pub active_layer : String
  pub context_revision : ℕ
  pub last_context_change_source : String
  pub current_session_active : Bool
  pub sessions_started : ℕ
  pub successful_sessions : ℕ
  pub reconnect_attempts : ℕ
  pub events_received : ℕ
  pub plans_resolved : ℕ
  pub plans_enqueued : ℕ
  pub plans_executed : ℕ
  pub executions_succeeded : ℕ
  pub executions_failed : ℕ
  pub unmapped_events : ℕ
  pub queue_dropped : ℕ
  pub discarded_on_shutdown : ℕ
  pub config_reload_successes : ℕ
  pub config_reload_failures : ℕ
  pub last_error_code : Option String
  pub queue_size : ℕ
  pub queue_capacity : ℕ

abbrev pub source_value : ContextChangeSource → String
source_value startup = "startup"
source_value control_action = "control_action"
source_value management_cli = "management_cli"
source_value config_reload = "config_reload"
source_value unchanged = "unchanged"

-- what is shown of the context; `none` is the AttributeError of a plain layer
pub record ContextPart : Type 0 where
  pub profile : String
  pub layer : String
  pub revision : ℕ
  pub source : String

module _ {Time Seconds : Type 0} (no_time : Seconds) (uptime : Option Time → Time → Seconds) where
  abbrev pub context_part : Option (Context Time) → Option ContextPart
  context_part none = some (record { profile = ""; layer = ""; revision = 0; source = "" })
  context_part (some c) = elim (layer_attribute c.active_layer) [
    | none ↦ none
    | some layer ↦ some (record {
      profile = c.selected_profile.value;
      layer = layer;
      revision = c.revision;
      source = source_value c.last_change_source;
    })
  ]

  abbrev pub uptime_of : DaemonState → Option Time → Time → Seconds
  uptime_of created at now = no_time
  uptime_of starting at now = no_time
  uptime_of s at now = uptime at now

  abbrev pub fill : Runtime Time → Time → ContextPart → RuntimeSnapshot Time Seconds
  fill r now c = record {
    state = r.state;
    started_at = r.started_at;
    uptime_seconds = uptime_of r.state r.started_at now;
    config_revision = r.config_revision;
    selected_profile = c.profile;
    active_layer = c.layer;
    context_revision = c.revision;
    last_context_change_source = c.source;
    current_session_active = r.current_session;
    sessions_started = r.sessions_started;
    successful_sessions = r.successful_sessions;
    reconnect_attempts = r.reconnect_attempts;
    events_received = r.events_received;
    plans_resolved = r.plans_resolved;
    plans_enqueued = r.plans_enqueued;
    plans_executed = r.plans_executed;
    executions_succeeded = r.executions_succeeded;
    executions_failed = r.executions_failed;
    unmapped_events = r.unmapped_events;
    queue_dropped = r.queue.dropped_count;
    discarded_on_shutdown = r.discarded_on_shutdown;
    config_reload_successes = r.config_reload_successes;
    config_reload_failures = r.config_reload_failures;
    last_error_code = r.last_error_code;
    queue_size = size r.queue;
    queue_capacity = r.queue.capacity;
  }

  unfoldable pub snapshot : Time → Runtime Time → Option (RuntimeSnapshot Time Seconds)
  snapshot now r = Option.map (fill r now) (context_part r.context)
