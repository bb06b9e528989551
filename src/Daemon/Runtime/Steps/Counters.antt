-- ===== src/Daemon/Runtime/Steps/Counters.antt =====
-- The counters of the runtime, and the sums that they keep.
use yyr4_linux_control.Base.{ℕ, ◌+◌, ◌≤◌, ◌≡◌, true, false, length}
use yyr4_linux_control.Daemon.Runtime.{
  Runtime, Phase, before_run, in_session, ExecutorPlace, taken, executing, ended,
}

-- events in the executor's hands, or lost by its cancellation
abbrev pub held : ExecutorPlace → ℕ
held (taken e) = 1
held (executing plan) = 1
held (ended true) = 1
held _ = 0

-- calls of `task_done` that the executor still makes
abbrev pub busy : ExecutorPlace → ℕ
busy (taken e) = 1
busy (executing plan) = 1
busy _ = 0

abbrev pub in_execution : ExecutorPlace → ℕ
in_execution (executing plan) = 1
in_execution _ = 0

-- a plan that runs, or was cancelled
abbrev pub begun : ExecutorPlace → ℕ
begun (executing plan) = 1
begun (ended true) = 1
begun _ = 0

-- a session without an event
abbrev pub unseen : Phase → ℕ
unseen (in_session false) = 1
unseen _ = 0

abbrev pub is_before_run : Phase → ℕ
is_before_run before_run = 1
is_before_run _ = 0

module _ {Time : Type 0} where
  pub record IsAccounted (r : Runtime Time) : Type 0 where
    -- every event received is enqueued or dropped
    pub received : r.events_received ≡ r.plans_enqueued + r.queue.dropped_count
    -- every event enqueued waits, is in hand or lost, was discarded, or was handled
    pub enqueued :
        r.plans_enqueued
        ≡ length r.queue.items
          + held r.executor
          + r.discarded_on_shutdown
          + r.unmapped_events
          + r.executions_succeeded
          + r.executions_failed
    pub unfinished : r.queue.unfinished_tasks ≡ length r.queue.items + busy r.executor
    pub resolved : r.unmapped_events + r.plans_executed + in_execution r.executor ≤ r.plans_resolved
    pub handled :
        r.plans_resolved
        ≤ r.unmapped_events + r.executions_succeeded + r.executions_failed + begun r.executor
    pub succeeded : r.executions_succeeded ≤ r.plans_executed
    pub sessions : r.successful_sessions + unseen r.phase ≤ r.sessions_started
    pub fits : length r.queue.items ≤ r.queue.capacity
