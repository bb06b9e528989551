-- ===== src/Daemon/Context/Tests.antt =====
-- A configuration with one profile, which declares two numbered layers.
use yyr4_linux_control.Base.{ℕ, ◌≡◌, ◌⊎◌, refl, true, none, some, [], ◌∷◌}
use yyr4_linux_control.Base.Dict.{lookup, has_key}
use yyr4_linux_control.Control.Models.{
  LayerId, general, layer_1, layer_3, layer_eq, ProfileId, profile_eq, LayerConfig, ProfileConfig,
  LayeredControlConfig,
}
use yyr4_linux_control.Daemon.Context.{
  Context, control_action, management_cli, new_context, member, set_layer, set_profile, next_layer,
  previous_layer, available, declared_in, declared, index_of, next_index, reconcile_after_reload,
}
use yyr4_linux_control.Daemon.Context.Cycle.{layer_cycle}
use yyr4_linux_control.Daemon.Context.Changes.{requests-IsTracked, IsTracked, IsTrackedResult}
use yyr4_linux_control.Daemon.Context.Reload.{reload_valid}

abbrev default_id : ProfileId
default_id = record { value = "default" }

abbrev empty_layer : LayerId → LayerConfig
empty_layer l = record { layer_id = l; controls = [] }

abbrev profile : ProfileConfig
profile = record {
  profile_id = default_id;
  layers =
      (general, empty_layer general)
      ∷ (layer_1, empty_layer layer_1)
      ∷ (layer_3, empty_layer layer_3)
      ∷ [];
}

abbrev config : LayeredControlConfig
config = record {
  schema_version = 2;
  default_profile = default_id;
  initial_layer = layer_3;
  profiles = (default_id, profile) ∷ [];
}

abbrev context : Context ℕ
context = record (new_context default_id layer_3 100) { config = some config }

next_wraps : (next_layer control_action 101 context).0.active_layer.id ≡ general
unfolding next_layer available declared_in declared next_index index_of lookup
next_wraps = refl

layer_cycle_example :
    ((previous_layer management_cli 102 (next_layer control_action 101 context).0).0.active_layer.id
      ≡ layer_3)
    × ((next_layer management_cli 102
          (previous_layer control_action 101 context).0).0.active_layer.id
        ≡ layer_3)
unfolding available declared_in declared index_of lookup
layer_cycle_example = layer_cycle control_action management_cli 101 102 context config 2 refl refl

requests-IsTracked_example :
    IsTrackedResult management_cli 101 context (set_layer "layer_2" management_cli 101 context)
    × IsTracked management_cli 101 context (next_layer management_cli 101 context)
    × IsTracked management_cli 101 context (previous_layer management_cli 101 context)
    × IsTrackedResult management_cli 101 context (set_profile "layer_2" management_cli 101 context)
requests-IsTracked_example = requests-IsTracked management_cli 101 "layer_2" context

abbrev gone : Context ℕ
gone = record context {
  selected_profile = record { value = "gone" };
  active_layer = member layer_1;
}

reload_valid_example :
    let (r, moved) = reconcile_after_reload config 103 gone in
    (p : ProfileConfig) × (r.config ≡ some config)
    × (lookup r.selected_profile config.profiles ≡ some p)
    × ((has_key r.active_layer.id p.layers ≡ true) ⊎ (r.active_layer.id ≡ config.initial_layer))
    × ((lookup gone.selected_profile config.profiles ≡ none)
        ⊎ (r.selected_profile ≡ gone.selected_profile))
unfolding lookup
reload_valid_example = reload_valid 103 config gone profile refl
