-- ===== src/Daemon/Runtime/Steps/Ending.antt =====
-- How the daemon ends: its state only advances, and a stop brings the main task to its end.
use yyr4_linux_control.Base.{
  ℕ, ◌+◌, ◌≤◌, ◌≡◌, refl, Bool, true, false, Option, none, some, ◌⊎◌, inl, inr, arith,
}
use yyr4_linux_control.Base.Dict.{is_some}
use yyr4_linux_control.Daemon.Runtime.{
  Runtime, daemon_runtime, DaemonState, created, starting, stopping, stopped, failed, Phase,
  before_run, loop_head, backoff, opening, leaving, cleaning, closing, finished, in_session,
  request_stop, request_reload, request_reload_and_wait,
}
use yyr4_linux_control.Daemon.Runtime.Executor.{
  executor_poll, executor_timeout, executor_take, resolve_at, executor_finish, executor_cancelled,
}
use yyr4_linux_control.Daemon.Runtime.Reloader.{
  reloader_poll, reloader_timeout, reloader_take, reloader_cancelled,
}
use yyr4_linux_control.Daemon.Runtime.Main.{
  completed, run_start, main_connect, main_wake, main_open, main_open_fails, main_event,
  main_session_end, main_cleanup, main_finish,
}
use yyr4_linux_control.Daemon.Runtime.Steps.{
  Label, step, Reach, here, next, change_context, ask_stop, ask_reload, ask_reload_and_wait,
  ask_context, start, connects, wakes, opens, cleans, finishes, receives, open_fails, session_ends,
  polls, times_out, takes, resolves, cancels, executes, reload_polls, reload_times_out,
  reload_cancels, reloads,
}
use yyr4_linux_control.Daemon.Runtime.Steps.Counters.{is_before_run}
use yyr4_linux_control.Daemon.Runtime.Steps.Lifecycle.{
  IsPhased, step-IsPhased, Reach-IsPhased, daemon_runtime-IsPhased,
}

-- how far a state is
abbrev pub stage : DaemonState → ℕ
stage created = 0
stage starting = 1
stage stopping = 3
stage stopped = 4
stage failed = 4
stage _ = 2

abbrev pub is_final : DaemonState → Bool
is_final stopped = true
is_final failed = true
is_final _ = false

-- the second state may come after the first
abbrev pub Advances : DaemonState → DaemonState → Type 0
Advances a b = (stage a ≤ stage b) × ((a ≡ b) ⊎ (is_final a ≡ false))

-- how many steps the main task has left at most, once a stop is requested
abbrev pub rank : Phase → ℕ
rank before_run = 7
rank loop_head = 3
rank backoff = 3
rank opening = 6
rank (in_session seen) = 5
rank leaving = 4
rank cleaning = 2
rank closing = 1
rank finished = 0

-- the labels of the main task
abbrev pub is_main : {Time : Type 0} → Label Time → ℕ
is_main (start loaded now) = 1
is_main connects = 1
is_main wakes = 1
is_main opens = 1
is_main cleans = 1
is_main finishes = 1
is_main (receives event) = 1
is_main (open_fails end) = 1
is_main (session_ends end) = 1
is_main _ = 0

-- A step advances the state, keeps a stop, and, under one, uses up a step of the main task.
abbrev pub IsOnward : {Time : Type 0} → Label Time → Runtime Time → Runtime Time → Type 0
IsOnward l r s =
    Advances r.state s.state
    × ((r.stop_event ≡ false) ⊎ ((s.stop_event ≡ true) × (is_main l + rank s.phase ≤ rank r.phase)))

Advances-trans : (a b c : DaemonState) → Advances a b → Advances b c → Advances a c
Advances-trans a b c h h' = ground arith

rank_bound : (phase : Phase) → rank phase ≤ 7
rank_bound phase = ground arith

begun_rank : (phase : Phase) → is_before_run phase ≡ 0 → rank phase ≤ 6
begun_rank phase h = ground arith

rank_begun : (phase : Phase) → rank phase ≤ 6 → is_before_run phase ≡ 0
rank_begun phase h = ground arith

some_value : {A : Type 0} (x : Option A) → is_some x ≡ true → (a : A) × (x ≡ some a)
some_value (some a) h = (a, refl)
some_value none h = cc

module _ {Time : Type 0} (overflows : ℕ → Bool) where
  step-IsOnward :
      (l : Label Time) (r s : Runtime Time)
      → IsPhased r
      → step overflows l r ≡ some s
      → IsOnward l r s
  unfolding step request_stop request_reload request_reload_and_wait change_context run_start
      main_connect main_wake main_open main_open_fails main_event main_session_end main_cleanup
      main_finish executor_poll executor_timeout executor_take resolve_at executor_finish
      executor_cancelled reloader_poll reloader_timeout reloader_take reloader_cancelled
  step-IsOnward ask_stop r s p h = ground arith
  step-IsOnward (ask_reload future) r s p h = ground arith
  step-IsOnward (ask_reload_and_wait future) r s p h = ground arith
  step-IsOnward (ask_context q source now) r s p h = ground arith
  step-IsOnward (start loaded now) r s p h = ground arith
  step-IsOnward connects r s p h = ground arith
  step-IsOnward wakes r s p h = ground arith
  step-IsOnward opens r s p h = ground arith
  step-IsOnward cleans r s p h = ground arith
  step-IsOnward finishes r s p h = ground arith
  step-IsOnward (receives event) r s p h = ground arith
  step-IsOnward (open_fails end) r s p h = ground arith
  step-IsOnward (session_ends end) r s p h = ground arith
  step-IsOnward polls r s p h = ground arith
  step-IsOnward times_out r s p h = ground arith
  step-IsOnward takes r s p h = ground arith
  step-IsOnward resolves r s p h = ground arith
  step-IsOnward cancels r s p h = ground arith
  step-IsOnward (executes end) r s p h = ground arith
  step-IsOnward reload_polls r s p h = ground arith
  step-IsOnward reload_times_out r s p h = ground arith
  step-IsOnward reload_cancels r s p h = ground arith
  step-IsOnward (reloads loaded now) r s p h = ground arith

  Reach-Advances :
      {r s : Runtime Time} → IsPhased r → Reach overflows r s → Advances r.state s.state
  Reach-Advances {r} p here = (omega arith, inl refl)
  Reach-Advances {r} p (next {s} {t} reach l e) =
      Advances-trans r.state s.state t.state (Reach-Advances p reach)
        (step-IsOnward l s t (Reach-IsPhased overflows p reach) e).0

  unfoldable pub main_steps : {r s : Runtime Time} → Reach overflows r s → ℕ
  main_steps here = 0
  main_steps (next reach l e) = main_steps reach + is_main l

  under_stop :
      (l : Label Time) (s t : Runtime Time) (n : ℕ) {m : ℕ}
      → s.stop_event ≡ true
      → n + rank s.phase ≤ m
      → (s.stop_event ≡ false) ⊎ ((t.stop_event ≡ true) × (is_main l + rank t.phase ≤ rank s.phase))
      → (t.stop_event ≡ true) × (n + is_main l + rank t.phase ≤ m)
  under_stop l s t n stop bound (inl go) = cc
  under_stop l s t n stop bound (inr (stop', less)) = (stop', omega arith)

  Reach-rank :
      {r s : Runtime Time}
      → IsPhased r
      → r.stop_event ≡ true
      → (reach : Reach overflows r s)
      → (s.stop_event ≡ true) × (main_steps reach + rank s.phase ≤ rank r.phase)
  unfolding main_steps
  Reach-rank p stop here = (stop, omega arith)
  Reach-rank {r} p stop (next {s} {t} reach l e) =
      let (stop', bound) = Reach-rank p stop reach in
      under_stop l s t (main_steps reach) stop' bound
        (step-IsOnward l s t (Reach-IsPhased overflows p reach) e).1

  moves :
      {P : Type 0} (r : Runtime Time) (l : Label Time)
      → is_main l ≡ 1
      → is_some (step overflows l r) ≡ true
      → P
        ⊎ ((l : Label Time) × (s : Runtime Time) × (step overflows l r ≡ some s) × (is_main l ≡ 1))
  moves r l main h = let (s, e) = some_value (step overflows l r) h in inr (l, s, e, main)

  -- Under a stop, the main task can take a step until it has finished.
  main_moves :
      (phase : Phase) (r : Runtime Time)
      → r.phase ≡ phase
      → r.stop_event ≡ true
      → (is_before_run r.phase ≡ 0)
      → (r.phase ≡ finished)
        ⊎ ((l : Label Time) × (s : Runtime Time) × (step overflows l r ≡ some s) × (is_main l ≡ 1))
  unfolding step main_connect main_wake main_open main_session_end main_cleanup main_finish
  main_moves before_run r p stop begun = ground arith
  main_moves loop_head r p stop begun = moves r connects refl (ground arith)
  main_moves backoff r p stop begun = moves r wakes refl (ground arith)
  main_moves opening r p stop begun = moves r opens refl (ground arith)
  main_moves (in_session seen) r p stop begun = moves r (session_ends completed) refl (ground arith)
  main_moves leaving r p stop begun = moves r (session_ends completed) refl (ground arith)
  main_moves cleaning r p stop begun = moves r cleans refl (ground arith)
  main_moves closing r p stop begun = moves r finishes refl (ground arith)
  main_moves finished r p stop begun = inl p

  finished-is_final : (s : Runtime Time) → IsPhased s → s.phase ≡ finished → is_final s.state ≡ true
  finished-is_final s p e = ground arith

  ended_or_moves :
      (s : Runtime Time)
      → IsPhased s
      → s.stop_event ≡ true
      → is_before_run s.phase ≡ 0
      → ((s.phase ≡ finished) × (is_final s.state ≡ true))
        ⊎ ((l : Label Time) × (t : Runtime Time) × (step overflows l s ≡ some t) × (is_main l ≡ 1))
  ended_or_moves s p stop begun = elim (main_moves s.phase s refl stop begun) [
    | inl e ↦ inl (e, finished-is_final s p e)
    | inr move ↦ inr move
  ]

  -- In every course that the daemon can take, its state only advances, from CREATED over STARTING,
  -- the connected and connecting states and STOPPING to STOPPED or FAILED, and it never leaves
  -- these two.
  pub state_advances :
      (capacity : ℕ) (r s : Runtime Time)
      → Reach overflows (daemon_runtime capacity) r
      → Reach overflows r s
      → (stage r.state ≤ stage s.state) × ((r.state ≡ s.state) ⊎ (is_final r.state ≡ false))
  state_advances capacity r s before after =
      Reach-Advances (Reach-IsPhased overflows (daemon_runtime-IsPhased Time capacity) before) after

  -- Once a stop is requested, the main task of a daemon takes at most as many steps as its phase
  -- has left, 7 at the most, whatever the others do and whatever its sessions yield.
  pub stop_bounds :
      (capacity : ℕ) (r s : Runtime Time)
      → Reach overflows (daemon_runtime capacity) r
      → r.stop_event ≡ true
      → (after : Reach overflows r s)
      → (main_steps after + rank s.phase ≤ rank r.phase) × (main_steps after ≤ 7)
  stop_bounds capacity r s before stop after =
      let phased = Reach-IsPhased overflows (daemon_runtime-IsPhased Time capacity) before in
      let (stopped', bound) = Reach-rank phased stop after in
      (bound, omega (arith, rank_bound r.phase))

  -- Once `request_stop` was called in the course of `run`, the main task takes at most six more
  -- steps, whatever the others do and whatever its sessions yield; and at every point after the
  -- call, either `run` has returned, with the state STOPPED or FAILED, or the main task can take a
  -- step.
  pub stop_finishes :
      (capacity : ℕ) (r s : Runtime Time)
      → Reach overflows (daemon_runtime capacity) r
      → is_before_run r.phase ≡ 0
      → (after : Reach overflows (request_stop r) s)
      → (main_steps after ≤ 6)
        × (((s.phase ≡ finished) × (is_final s.state ≡ true))
            ⊎ ((l : Label Time) × (t : Runtime Time) × (step overflows l s ≡ some t)
                × (is_main l ≡ 1)))
  unfolding request_stop step
  stop_finishes capacity r s before begun after =
      let phased =
        step-IsPhased overflows ask_stop r (request_stop r)
          (Reach-IsPhased overflows (daemon_runtime-IsPhased Time capacity) before) refl in
      let (stop, bound) = Reach-rank phased refl after in
      let few = begun_rank r.phase begun in
      (
        omega (arith, bound, few),
        ended_or_moves s (Reach-IsPhased overflows phased after) stop
            (rank_begun s.phase (omega (arith, bound, few))),
      )
