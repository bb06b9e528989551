-- ===== src/Daemon/Runtime/Steps/Shown.antt =====
-- When the daemon can show itself: `snapshot` after any course of steps, with changes of the context
-- by requests and by reloads.
use yyr4_linux_control.Base.{
  ℕ, ◌+◌, ◌≡◌, refl, Bool, true, false, not, Option, none, some, ok, err, ◌⊎◌, inl, inr, arith,
  nat_beq, Option-cases, if◌then◌else◌, ◌∙◌, ap,
}
use yyr4_linux_control.Base.Dict.{is_some}
use yyr4_linux_control.Control.Models.{LayeredControlConfig}
use yyr4_linux_control.Daemon.Context.{
  Context, ContextChangeSource, ActiveLayer, layer_attribute, move_to, set_layer, next_layer,
  previous_layer, set_profile, select_profile, reconcile_after_reload, set_config,
}
use yyr4_linux_control.Daemon.Runtime.{
  Runtime, daemon_runtime, is_created, request_stop, request_reload, request_reload_and_wait,
}
use yyr4_linux_control.Daemon.Runtime.Executor.{
  executor_poll, executor_timeout, executor_take, resolve_at, executor_finish, executor_cancelled,
}
use yyr4_linux_control.Daemon.Runtime.Reloader.{
  reloader_poll, reloader_timeout, reloader_take, reloader_cancelled, reconciled,
}
use yyr4_linux_control.Daemon.Runtime.Main.{
  run_start, main_connect, main_wake, main_open, main_open_fails, main_event, main_session_end,
  main_cleanup, main_finish,
}
use yyr4_linux_control.Daemon.Runtime.Snapshot.{snapshot}
use yyr4_linux_control.Daemon.Runtime.Steps.{
  Label, step, Reach, here, next, change_context, ContextRequest, to_layer, to_profile, to_next,
  to_previous, answer, context_after, ask_stop, ask_reload, ask_reload_and_wait, ask_context, start,
  connects, wakes, opens, cleans, finishes, receives, open_fails, session_ends, polls, times_out,
  takes, resolves, cancels, executes, reload_polls, reload_times_out, reload_cancels, reloads,
}

abbrev pub asks_next : ContextRequest → Bool
asks_next to_next = true
asks_next _ = false

-- the label is a request for the next layer
abbrev pub is_next : {Time : Type 0} → Label Time → Bool
is_next (ask_context q source now) = asks_next q
is_next _ = false

module _ {Time : Type 0} where
  -- the revision that the context has come to
  abbrev pub revision_of : Option (Context Time) → ℕ
  revision_of none = 0
  revision_of (some c) = c.revision

  abbrev pub is_plain : Option (Context Time) → Bool
  is_plain none = false
  is_plain (some c) = not c.active_layer.is_member

  -- A method leaves the revision and the kind of the layer, or it raises the revision by one and
  -- leaves a plain layer exactly if `plain` says so.
  abbrev pub Moves : Bool → Option (Context Time) → Option (Context Time) → Type 0
  Moves plain old new =
      ((revision_of new ≡ revision_of old) × (is_plain new ≡ is_plain old))
      ⊎ ((revision_of new ≡ revision_of old + 1) × (is_plain new ≡ plain))

  move_to-Moves :
      (layer : ActiveLayer) (source : ContextChangeSource) (now : Time) (c : Context Time)
      → Moves (not layer.is_member) (some c) (some (move_to layer source now c).0)
  move_to-Moves layer source now c = ground arith

  answer-Moves :
      (q : ContextRequest) (source : ContextChangeSource) (now : Time) (c : Context Time)
      → Moves (asks_next q) (some c) (some (context_after (answer q source now c) c))
  unfolding answer set_layer next_layer previous_layer set_profile select_profile
  answer-Moves (to_layer l) source now c = ground arith
  answer-Moves (to_profile p) source now c = ground arith
  answer-Moves to_next source now c = ground arith
  answer-Moves to_previous source now c = ground arith

  reconcile-Moves :
      (config : LayeredControlConfig) (now : Time) (c : Context Time)
      → Moves false (some c) (some (reconcile_after_reload config now c).0)
  unfolding reconcile_after_reload
  reconcile-Moves config now c = ground arith

  reconciled-Moves :
      (config : LayeredControlConfig) (now : Time) (old : Option (Context Time))
      → Moves false old (reconciled config now old)
  reconciled-Moves config now none = inl (refl, refl)
  reconciled-Moves config now (some c) = reconcile-Moves config now c

  -- before the start there is no context
  abbrev pub IsUnset : Runtime Time → Type 0
  IsUnset r = (is_created r.state ≡ false) ⊎ (r.context ≡ none)

module _ {Time : Type 0} (overflows : ℕ → Bool) where
  step-Moves :
      (l : Label Time) (r s : Runtime Time)
      → IsUnset r
      → step overflows l r ≡ some s
      → IsUnset s × Moves (is_next l) r.context s.context
  unfolding step request_stop request_reload request_reload_and_wait change_context run_start
      main_connect main_wake main_open main_open_fails main_event main_session_end main_cleanup
      main_finish executor_poll executor_timeout executor_take resolve_at executor_finish
      executor_cancelled reloader_poll reloader_timeout reloader_take reloader_cancelled set_config
  step-Moves (ask_context q source now) r s p h = elim (Option-cases r.context) [
    | inl e ↦ ground arith
    | inr (c, e) ↦ let moves = answer-Moves q source now c in ground arith
  ]
  step-Moves (reloads (err e) now) r s p h = ground arith
  step-Moves (reloads (ok config) now) r s p h =
      let moves = reconciled-Moves config now r.context in ground arith
  step-Moves ask_stop r s p h = ground arith
  step-Moves (ask_reload future) r s p h = ground arith
  step-Moves (ask_reload_and_wait future) r s p h = ground arith
  step-Moves (start loaded now) r s p h = ground arith
  step-Moves connects r s p h = ground arith
  step-Moves wakes r s p h = ground arith
  step-Moves opens r s p h = ground arith
  step-Moves cleans r s p h = ground arith
  step-Moves finishes r s p h = ground arith
  step-Moves (receives event) r s p h = ground arith
  step-Moves (open_fails end) r s p h = ground arith
  step-Moves (session_ends end) r s p h = ground arith
  step-Moves polls r s p h = ground arith
  step-Moves times_out r s p h = ground arith
  step-Moves takes r s p h = ground arith
  step-Moves resolves r s p h = ground arith
  step-Moves cancels r s p h = ground arith
  step-Moves (executes end) r s p h = ground arith
  step-Moves reload_polls r s p h = ground arith
  step-Moves reload_times_out r s p h = ground arith
  step-Moves reload_cancels r s p h = ground arith

  -- whether the latest step that changed the revision of the context was a request for the next layer
  unfoldable pub changed_by_next : {r s : Runtime Time} → Reach overflows r s → Bool
  changed_by_next here = false
  changed_by_next (next {s} {t} reach l e) =
      let before = changed_by_next reach in
      if nat_beq (revision_of t.context) (revision_of s.context) then before else is_next l

  is_plain_after :
      (l : Label Time) (s t : Runtime Time) (before : Bool)
      → Moves (is_next l) s.context t.context
      → is_plain s.context ≡ before
      → is_plain t.context
        ≡ (if nat_beq (revision_of t.context) (revision_of s.context) then before else is_next l)
  is_plain_after l s t before moves known = ground arith

  Reach-is_plain :
      {r s : Runtime Time}
      → IsUnset r
      → is_plain r.context ≡ false
      → (reach : Reach overflows r s) → IsUnset s × (is_plain s.context ≡ changed_by_next reach)
  unfolding changed_by_next
  Reach-is_plain unset member_first here = (unset, member_first)
  Reach-is_plain unset member_first (next {s} {t} reach l e) =
      let (unset', known) = Reach-is_plain unset member_first reach in
      let (unset'', moves) = step-Moves l s t unset' e in
      (unset'', is_plain_after l s t (changed_by_next reach) moves known)

  module _ {Seconds : Type 0} (no_time : Seconds) (uptime : Option Time → Time → Seconds) where
    snapshot-is_plain :
        (now : Time) (r : Runtime Time) (context : Option (Context Time))
        → r.context ≡ context
        → is_some (snapshot no_time uptime now r) ≡ not (is_plain r.context)
    unfolding snapshot layer_attribute
    snapshot-is_plain now r none e = rw e refl
    snapshot-is_plain now r (some c) e = ground arith

    -- In every course of the daemon, with requests and reloads in any order, `snapshot` raises
    -- exactly if some step changed the revision of the context and the latest such step was a request
    -- for the next layer.
    pub snapshot_raises :
        (capacity : ℕ) (s : Runtime Time) (now : Time)
        → (course : Reach overflows (daemon_runtime capacity) s)
        → is_some (snapshot no_time uptime now s) ≡ not (changed_by_next course)
    snapshot_raises capacity s now course =
        snapshot-is_plain now s s.context refl ∙ ap not (Reach-is_plain (inr refl) refl course).1
