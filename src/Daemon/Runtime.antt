-- ===== src/Daemon/Runtime.antt =====
-- daemon/runtime.py and daemon/models.py: the state of `DaemonRuntime`. Its three tasks (the main
-- one, the executor and the reloader) interleave at their `await`s. A child module has, for each
-- task, what it does between two of them; Runtime/Steps puts these together.
pub mod Executor
pub mod Reloader
pub mod Main
pub mod Steps
pub mod Snapshot
use yyr4_linux_control.Base.{
  ℕ, ◌+◌, String, Bool, true, false, ◌&&◌, ◌||◌, not, Option, none, some, List, [], ◌∷◌, ◌++◌,
  Result, ok, err, leb, raise_if, ◌>>◌, if◌then◌else◌,
}
use yyr4_linux_control.Base.Int.{ℤ, pos, negsuc}
use yyr4_linux_control.Base.Dict.{is_some}
use yyr4_linux_control.Control.Models.{OfficialControlEvent, LayeredControlConfig}
use yyr4_linux_control.Control.Resolver.{ActionPlan}
use yyr4_linux_control.Daemon.Queue.{EventQueue, empty}
use yyr4_linux_control.Daemon.Context.{Context}

pub data DaemonState : Type 0 where
  created starting connecting running reconnecting reloading stopping stopped failed : DaemonState

-- `state in (STOPPING, STOPPED, FAILED)`
abbrev pub is_ending : DaemonState → Bool
is_ending stopping = true
is_ending stopped = true
is_ending failed = true
is_ending _ = false

-- `state != FAILED`
abbrev pub is_failed : DaemonState → Bool
is_failed failed = true
is_failed _ = false

abbrev pub is_created : DaemonState → Bool
is_created created = true
is_created _ = false

-- where the main task stands: before `run`, at the head of its loop, in the sleep of a reconnect,
-- before a session, in one (and whether that had an event), past its `break`, before the cleanup, in
-- it, at the end
pub data Phase : Type 0 where
  before_run loop_head backoff opening leaving cleaning closing finished : Phase
  in_session : Bool → Phase

-- where the executor stands: not created, created, at the test of its loop, in `wait_for`, with an
-- event, with a plan that runs, at the end (and whether it was cancelled with an event in hand)
pub data ExecutorPlace : Type 0 where
  absent scheduled checking waiting : ExecutorPlace
  taken : OfficialControlEvent → ExecutorPlace
  executing : ActionPlan → ExecutorPlace
  ended : Bool → ExecutorPlace

-- likewise for the reloader
pub data ReloaderPlace : Type 0 where
  unstarted planned testing awaiting done : ReloaderPlace

-- the dictionary that a reload's future is set to: success, or an error code; the revision
pub data ReloadAnswer : Type 0 where
  reloaded : ℕ → ℕ → ReloadAnswer
  refused : String → ℕ → ReloadAnswer

-- A future is the number of its request. `answered` has the results set so far, with their futures.
pub record Runtime (Time : Type 0) : Type 0 where
  pub state : DaemonState
  pub phase : Phase
  pub executor : ExecutorPlace
  pub reloader : ReloaderPlace
  pub queue : EventQueue OfficialControlEvent
  pub context : Option (Context Time)
  pub action_resolver : Option LayeredControlConfig
  pub started_at : Option Time
  pub stop_event : Bool
  pub reload_queue : List ℕ
  pub answered : List (ℕ × ReloadAnswer)
  pub current_session : Bool
  pub config_revision : ℕ
  pub sessions_started : ℕ
  pub successful_sessions : ℕ
  pub reconnect_attempts : ℕ
  pub events_received : ℕ
  pub plans_resolved : ℕ
  pub plans_enqueued : ℕ
  pub plans_executed : ℕ
  pub executions_succeeded : ℕ
  pub executions_failed : ℕ
  pub unmapped_events : ℕ
  pub discarded_on_shutdown : ℕ
  pub config_reload_successes : ℕ
  pub config_reload_failures : ℕ
  pub last_error_code : Option String

-- `RuntimeSettings.__post_init__`, on the capacity. The checks on the seconds are on floats.
unfoldable pub check_capacity : ℤ → Result String ℕ
check_capacity (negsuc _) = err "queue_capacity must be between 1 and 10000"
check_capacity (pos n) =
    if leb 1 n && leb n 10000 then ok n else err "queue_capacity must be between 1 and 10000"

-- `DaemonRuntime.__init__`
abbrev pub daemon_runtime : {Time : Type 0} → ℕ → Runtime Time
daemon_runtime queue_capacity = record {
  state = created;
  phase = before_run;
  executor = absent;
  reloader = unstarted;
  queue = empty queue_capacity;
  context = none;
  action_resolver = none;
  started_at = none;
  stop_event = false;
  reload_queue = [];
  answered = [];
  current_session = false;
  config_revision = 0;
  sessions_started = 0;
  successful_sessions = 0;
  reconnect_attempts = 0;
  events_received = 0;
  plans_resolved = 0;
  plans_enqueued = 0;
  plans_executed = 0;
  executions_succeeded = 0;
  executions_failed = 0;
  unmapped_events = 0;
  discarded_on_shutdown = 0;
  config_reload_successes = 0;
  config_reload_failures = 0;
  last_error_code = none;
}

module _ {Time : Type 0} where
  unfoldable pub request_stop : Runtime Time → Runtime Time
  request_stop r = record r { stop_event = true }

  -- The future is not awaited: none is put if the runtime is ending.
  unfoldable pub request_reload : ℕ → Runtime Time → Runtime Time
  request_reload future r =
      if is_ending r.state then r else record r { reload_queue = r.reload_queue ++ future ∷ [] }

  -- up to the `await` of the future; an ending runtime answers at once
  unfoldable pub request_reload_and_wait : ℕ → Runtime Time → Runtime Time
  request_reload_and_wait future r =
      if is_ending r.state
      then record r {
        answered = r.answered ++ (future, refused "DAEMON_STOPPING" r.config_revision) ∷ [];
      }
      else record r { reload_queue = r.reload_queue ++ future ∷ [] }
