-- ===== src/Daemon/Runtime/Steps/ExecutorCounts.antt =====
-- The steps of the executor keep the sums.
use yyr4_linux_control.Base.{
  ◌-◌, ◌≡◌, refl, ap, ◌∙◌, subst, Bool, true, false, Option, none, some, List, [], ◌∷◌, Result, ok,
  err, length, arith,
}
use yyr4_linux_control.Control.Models.{OfficialControlEvent, LayeredControlConfig}
use yyr4_linux_control.Control.Resolver.{
  ActionPlan, ResolveError, unmapped, configured, default_limits, resolve, ResolutionStatus,
}
use yyr4_linux_control.Daemon.Queue.{EventQueue, dequeue, task_done}
use yyr4_linux_control.Daemon.Queue.Laws.{get_all_nowait_lem}
use yyr4_linux_control.Daemon.Runtime.{
  Runtime, ExecutorPlace, absent, scheduled, checking, waiting, taken, executing, ended, Context,
}
use yyr4_linux_control.Daemon.Runtime.Executor.{
  ExecutionEnd, finish_task, finish_tasks, drain_queue, executor_poll, executor_timeout,
  executor_take, executor_finish, after_resolve, resolve_event, cancel_executor, event_done,
  after_plan, resolve_at,
}
use yyr4_linux_control.Daemon.Runtime.Steps.Counters.{held, busy, in_execution, begun, IsAccounted}

pub some-injective : {A : Type 0} {a b : A} → ◌≡◌ {A = Option A} (some a) (some b) → a ≡ b
some-injective h = cc

finish_task_lem :
    (q : EventQueue OfficialControlEvent)
    → ((finish_task q).items ≡ q.items)
      × ((finish_task q).dropped_count ≡ q.dropped_count)
      × ((finish_task q).capacity ≡ q.capacity)
      × ((finish_task q).unfinished_tasks ≡ q.unfinished_tasks - 1)
unfolding task_done
finish_task_lem q = (ground arith, ground arith, ground arith, ground arith)

finish_tasks_lem :
    (xs : List OfficialControlEvent) (q : EventQueue OfficialControlEvent)
    → ((finish_tasks xs q).items ≡ q.items)
      × ((finish_tasks xs q).dropped_count ≡ q.dropped_count)
      × ((finish_tasks xs q).capacity ≡ q.capacity)
      × ((finish_tasks xs q).unfinished_tasks ≡ q.unfinished_tasks - length xs)
unfolding finish_tasks
finish_tasks_lem [] q = (refl, refl, refl, omega arith)
finish_tasks_lem (x ∷ xs) q =
    let (i, d, c, u) = finish_tasks_lem xs (finish_task q) in
    let (i', d', c', u') = finish_task_lem q in (i ∙ i', d ∙ d', c ∙ c', omega (arith, u, u'))

module _ {Time : Type 0} where
  module _ (r : Runtime Time) (h : IsAccounted r) where
    open h use {received, enqueued, unfinished, resolved, handled, succeeded, sessions, fits}

    drain_queue-IsAccounted :
        (lost : Bool)
        → held r.executor ≡ held (ended lost)
        → busy r.executor ≡ 0
        → in_execution r.executor ≡ 0
        → begun r.executor ≡ 0
        → IsAccounted (drain_queue lost r)
    unfolding drain_queue
    drain_queue-IsAccounted lost same idle out none_begun =
        let (items, dropped, capacity, unf) =
          finish_tasks_lem r.queue.items (record r.queue { items = [] }) in
        rw (get_all_nowait_lem r.queue) (record {
          received = omega (arith, dropped);
          enqueued = omega (arith, ap length items, same);
          unfinished = omega (arith, ap length items, unf);
          resolved = omega arith;
          handled = omega arith;
          succeeded = succeeded;
          sessions = sessions;
          fits = omega (arith, ap length items);
        })

    pub executor_timeout-IsAccounted :
        (s : Runtime Time) → executor_timeout r ≡ some s → IsAccounted s
    unfolding executor_timeout
    executor_timeout-IsAccounted s e = ground arith

    pub executor_poll-IsAccounted : (s : Runtime Time) → executor_poll r ≡ some s → IsAccounted s
    unfolding executor_poll
    executor_poll-IsAccounted s e = ground (arith, drain_queue-IsAccounted false)

    pub executor_take-IsAccounted : (s : Runtime Time) → executor_take r ≡ some s → IsAccounted s
    unfolding executor_take dequeue
    executor_take-IsAccounted s e = ground arith

    pub executor_finish-IsAccounted :
        (end : ExecutionEnd) (s : Runtime Time) → executor_finish end r ≡ some s → IsAccounted s
    unfolding executor_finish
    executor_finish-IsAccounted end s e = ground (arith, finish_task_lem r.queue)

    after_plan-IsAccounted :
        (event : OfficialControlEvent) (plan : ActionPlan) (status : ResolutionStatus)
        → r.executor ≡ taken event
        → IsAccounted (after_plan r plan status)
    after_plan-IsAccounted event plan unmapped p = ground (arith, finish_task_lem r.queue)
    after_plan-IsAccounted event plan configured p = ground (arith, finish_task_lem r.queue)

    after_resolve-IsAccounted :
        (event : OfficialControlEvent) (x : Result ResolveError ActionPlan)
        → r.executor ≡ taken event
        → IsAccounted (after_resolve r x)
    after_resolve-IsAccounted event (err e) p = ground (arith, finish_task_lem r.queue)
    after_resolve-IsAccounted event (ok plan) p =
        after_plan-IsAccounted event plan plan.resolution_status p

    resolve_event-IsAccounted :
        (c : Option (Context Time)) (resolver : Option LayeredControlConfig)
        (event : OfficialControlEvent)
        → r.executor ≡ taken event
        → IsAccounted (resolve_event c resolver event r)
    resolve_event-IsAccounted (some c) (some config) event p =
        after_resolve-IsAccounted event
          (resolve default_limits config event c.selected_profile c.active_layer.id) p
    resolve_event-IsAccounted (some c) none event p = ground (arith, finish_task_lem r.queue)
    resolve_event-IsAccounted none resolver event p = ground (arith, finish_task_lem r.queue)

    pub resolve_at-IsAccounted :
        (place : ExecutorPlace) (s : Runtime Time)
        → r.executor ≡ place
        → resolve_at place r ≡ some s
        → IsAccounted s
    unfolding resolve_at
    resolve_at-IsAccounted (taken event) s p e =
        subst IsAccounted (some-injective e)
          (resolve_event-IsAccounted r.context r.action_resolver event p)
    resolve_at-IsAccounted place s p e = cc

    event_done-IsAccounted : busy r.executor ≡ 1 → IsAccounted (drain_queue true (event_done r))
    unfolding drain_queue
    event_done-IsAccounted p =
        let (i, d, c, u) = finish_task_lem r.queue in
        let q = finish_task r.queue in
        let (items, dropped, capacity, unf) = finish_tasks_lem q.items (record q { items = [] }) in
        rw (get_all_nowait_lem q) (record {
          received = omega (arith, dropped, d);
          enqueued = ground (arith, ap length items, ap length i);
          unfinished = ground (arith, ap length items, unf, u, ap length i);
          resolved = ground arith;
          handled = ground arith;
          succeeded = succeeded;
          sessions = sessions;
          fits = omega (arith, ap length items);
        })

    pub cancel_executor-IsAccounted :
        (place : ExecutorPlace) (s : Runtime Time)
        → r.executor ≡ place
        → cancel_executor place r ≡ some s
        → IsAccounted s
    cancel_executor-IsAccounted absent s p e = cc
    cancel_executor-IsAccounted scheduled s p e = ground arith
    cancel_executor-IsAccounted checking s p e =
        subst IsAccounted (some-injective e)
          (drain_queue-IsAccounted false (ap held p) (ap busy p) (ap in_execution p) (ap begun p))
    cancel_executor-IsAccounted waiting s p e =
        subst IsAccounted (some-injective e)
          (drain_queue-IsAccounted false (ap held p) (ap busy p) (ap in_execution p) (ap begun p))
    cancel_executor-IsAccounted (taken event) s p e =
        subst IsAccounted (some-injective e) (event_done-IsAccounted (ap busy p))
    cancel_executor-IsAccounted (executing plan) s p e =
        subst IsAccounted (some-injective e) (event_done-IsAccounted (ap busy p))
    cancel_executor-IsAccounted (ended lost) s p e = cc
