-- ===== src/Management/Refinement.antt =====
-- A request of the socket is at most one step of the daemon, and its answer tells what came of it.
use yyr4_linux_control.Base.{ℕ, ◌≡◌, Bool, true, false, some, ◌⊎◌, string_eq}
use yyr4_linux_control.Daemon.Context.{Context, management_cli}
use yyr4_linux_control.Daemon.Context.Changes.{IsTracked}
use yyr4_linux_control.Daemon.Runtime.{Runtime, request_reload_and_wait}
use yyr4_linux_control.Daemon.Runtime.Snapshot.{source_value}
use yyr4_linux_control.Daemon.Runtime.Steps.{Label, step, ask_reload_and_wait, ask_context}
use yyr4_linux_control.Management.Server.{
  Body, context_is, context_changed, Reply, responds, waits_for, raises, layer_text,
}

-- the steps that a request may take
abbrev pub IsRequest : {Time : Type 0} → Label Time → Type 0
IsRequest (ask_reload_and_wait future) = Unit
IsRequest (ask_context q source now) = source ≡ management_cli
IsRequest _ = true ≡ false

module _ {Time : Type 0} where
  -- the runtime has stayed, or has taken one step that requests take
  abbrev pub Performs : (ℕ → Bool) → Runtime Time → Runtime Time → Type 0
  Performs overflows r r' =
      (r' ≡ r) ⊎ ((l : Label Time) × IsRequest l × (step overflows l r ≡ some r'))

module _ {Time : Type 0} (Seconds : Type 0) where
  -- what a reply that shows contexts says of the runtime before and after it
  abbrev pub Shows : Time → Runtime Time → Runtime Time → Body Time Seconds → Type 0
  Shows now r r' (context_is profile layer revision source) =
      (c : Context Time) × (r'.context ≡ some c)
      × (r' ≡ r)
      × (profile ≡ c.selected_profile.value)
      × (layer ≡ layer_text c)
      × (revision ≡ c.revision)
      × (source ≡ source_value c.last_change_source)
  Shows now r r' (context_changed old_profile old_layer profile layer revision changed) =
      (c : Context Time) × (c' : Context Time) × ((r.context ≡ some c)
        × (old_profile ≡ c.selected_profile.value)
        × (old_layer ≡ layer_text c))
      × ((r'.context ≡ some c') × (profile ≡ c'.selected_profile.value) × (layer ≡ layer_text c'))
      × (revision ≡ c'.revision)
      × IsTracked management_cli now c (c', changed)
  Shows now r r' body = r' ≡ r

  abbrev pub Tells : Time → Runtime Time → Runtime Time → Reply Time Seconds → Type 0
  Tells now r r' (responds body) = Shows now r r' body
  Tells now r r' (waits_for future) = r' ≡ request_reload_and_wait future r
  Tells now r r' raises = r' ≡ r

  module _ (overflows : ℕ → Bool) where
    abbrev Refines : Time → Runtime Time → Reply Time Seconds × Runtime Time → Type 0
    Refines now r (reply, r') = Performs overflows r r' × Tells now r r' reply
