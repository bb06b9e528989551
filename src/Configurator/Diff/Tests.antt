-- ===== src/Configurator/Diff/Tests.antt =====
-- Runs of the difference.
use yyr4_linux_control.Base.{◌≡◌, refl, [], ◌∷◌}
use yyr4_linux_control.Base.Dict.{Dict, lookup}
use yyr4_linux_control.Control.Actions.{Action, text, noop}
use yyr4_linux_control.Control.Models.{
  OfficialControl, a1, br, general, layer_eq, ProfileId, profile_eq, LayeredControlConfig,
}
use yyr4_linux_control.Configurator.Serializer.Canonical.{Both}
use yyr4_linux_control.Configurator.Diff.{
  diff_configs, profiles_diffs, profile_diffs, layer_diffs, control_diffs,
}
use yyr4_linux_control.Configurator.Diff.Equality.{action_eq}
use yyr4_linux_control.Configurator.Serializer.Order.{sorted_by, insert_sorted, text_ltb}
use yyr4_linux_control.Configurator.Diff.Complete.{IsSameProfile, diff_configs-Both}

abbrev home : ProfileId
home = record { value = "home" }

abbrev with_controls : Dict OfficialControl Action → LayeredControlConfig
with_controls controls = record {
  schema_version = 2;
  default_profile = home;
  initial_layer = general;
  profiles =
      (
        home,
        record {
          profile_id = home;
          layers = (general, record { layer_id = general; controls = controls }) ∷ [];
        },
      )
      ∷ [];
}

abbrev one_order : LayeredControlConfig
one_order = with_controls ((br, noop) ∷ (a1, text "x") ∷ [])

abbrev other_order : LayeredControlConfig
other_order = with_controls ((a1, text "x") ∷ (br, noop) ∷ [])

no_changes : (diff_configs one_order other_order).changes ≡ []
unfolding diff_configs profiles_diffs sorted_by lookup insert_sorted profile_diffs layer_diffs
    text_ltb control_diffs action_eq
no_changes = refl

diff_configs-Both_example :
    (home.value ≡ home.value)
    × (general ≡ general)
    × ((pid : ProfileId)
        → Both IsSameProfile (lookup pid one_order.profiles) (lookup pid other_order.profiles))
diff_configs-Both_example = diff_configs-Both one_order other_order no_changes
