-- ===== src/Daemon/Runtime/Steps/ShownTests.antt =====
-- A daemon with two layers, which is asked for the next one, and then for the first by its name.
use yyr4_linux_control.Base.{ℕ, ◌≡◌, refl, Bool, true, false, not, Option, some, [], ◌∷◌, ok}
use yyr4_linux_control.Base.Dict.{is_some, lookup}
use yyr4_linux_control.Control.Models.{
  layer_eq, profile_eq, layer_of, general, layer_1, ProfileId, LayeredControlConfig,
}
use yyr4_linux_control.Daemon.Context.{
  Context, management_cli, new_context, set_config, set_layer, next_layer, available, declared_in,
  declared, next_index, index_of, plain_text, member,
}
use yyr4_linux_control.Daemon.Runtime.{
  Runtime, daemon_runtime, starting, loop_head, scheduled, planned,
}
use yyr4_linux_control.Daemon.Runtime.Main.{run_start}
use yyr4_linux_control.Daemon.Runtime.Snapshot.{snapshot}
use yyr4_linux_control.Daemon.Runtime.Steps.{
  step, Reach, here, next, start, ask_context, to_next, to_layer, change_context, answer,
}
use yyr4_linux_control.Daemon.Runtime.Steps.Shown.{changed_by_next, snapshot_raises}

abbrev home : ProfileId
home = record { value = "home" }

abbrev config : LayeredControlConfig
config = record {
  schema_version = 2;
  default_profile = home;
  initial_layer = general;
  profiles =
      (
        home,
        record {
          profile_id = home;
          layers =
              (general, record { layer_id = general; controls = [] })
              ∷ (layer_1, record { layer_id = layer_1; controls = [] })
              ∷ [];
        },
      )
      ∷ [];
}

abbrev never : ℕ → Bool
never n = false

abbrev context : Context ℕ
context = record (new_context home general 100) { config = some config }

abbrev started : Runtime ℕ
started = record (daemon_runtime 1) {
  state = starting;
  phase = loop_head;
  executor = scheduled;
  reloader = planned;
  context = some context;
  action_resolver = some config;
  started_at = some 100;
  config_revision = 1;
}

abbrev in_next : Runtime ℕ
in_next = record started {
  context = some (record context {
    active_layer = plain_text layer_1;
    revision = 1;
    changed_at = 101;
    last_change_source = management_cli;
  });
}

abbrev in_first : Runtime ℕ
in_first = record started {
  context = some (record context {
    active_layer = member general;
    revision = 2;
    changed_at = 102;
    last_change_source = management_cli;
  });
}

to_in_next : Reach never (daemon_runtime 1) in_next
unfolding step run_start set_config change_context answer next_layer available declared_in declared
    next_index index_of lookup
to_in_next =
    next (next here (start (ok config) 100) refl) (ask_context to_next management_cli 101) refl

to_in_first : Reach never (daemon_runtime 1) in_first
unfolding step change_context answer set_layer layer_of
to_in_first = next to_in_next (ask_context (to_layer "general") management_cli 102) refl

abbrev uptime : Option ℕ → ℕ → ℕ
uptime at now = 0

by_next : changed_by_next never to_in_next ≡ true
unfolding changed_by_next to_in_next
by_next = refl

not_by_next : changed_by_next never to_in_first ≡ false
unfolding changed_by_next to_in_first to_in_next
not_by_next = refl

snapshot_raises_example :
    is_some (snapshot 0 uptime 103 in_next) ≡ not (changed_by_next never to_in_next)
snapshot_raises_example = snapshot_raises never 0 uptime 1 in_next 103 to_in_next
