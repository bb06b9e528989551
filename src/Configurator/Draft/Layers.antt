-- ===== src/Configurator/Draft/Layers.antt =====
-- The mutations of `ConfigDraft` on layers and on the actions of controls.
use yyr4_linux_control.Base.{
  String, not, [], length, leb, ◌==◌, string_eq, ok, raise_if, ◌>>=◌, ◌>>◌, if◌then◌else◌,
}
use yyr4_linux_control.Base.Dict.{Dict, lookup, insert, has_key}
use yyr4_linux_control.Base.DictEdits.{without, rename_key}
use yyr4_linux_control.Base.Text.{joined}
use yyr4_linux_control.Control.Actions.{Action}
use yyr4_linux_control.Control.Models.{
  OfficialControl, control_eq, official_control, LayerId, general, layer_of, layer_eq, ProfileId,
  profile_eq, ProfileConfig, LayeredControlConfig,
}
use yyr4_linux_control.Configurator.Draft.{
  ConfigDraft, Edit, refusal, require, try_profile_id, mark_dirty, add_record, refuse_refs,
  put_layers, find_setlayer_refs_to, fix_setlayer_refs, invalid_layer_id, profile_not_found,
  layer_exists, layer_not_found, layer_referenced, invalid_profile_or_layer,
  invalid_profile_layer_or_control, general_layer, last_layer,
}

unfoldable pub add_layer : String → String → ConfigDraft → Edit ConfigDraft
add_layer profile layer d =
    let wc = d.working_config in
    let invalid = refusal invalid_profile_or_layer "add_layer" in
    do
      pid ← require (try_profile_id profile) invalid
      lid ← require (layer_of layer) invalid
      prof ← require (lookup pid wc.profiles) (refusal (profile_not_found profile) "add_layer")
      raise_if (has_key lid prof.layers) (refusal (layer_exists layer profile) "add_layer")
      ok (
          mark_dirty
            (put_layers wc pid (insert lid (record { layer_id = lid; controls = [] }) prof.layers))
            d)

-- the working configuration after a renaming in the profile `prof`
unfoldable pub renamed_layer :
    LayeredControlConfig → ProfileId → ProfileConfig → LayerId → LayerId → LayeredControlConfig
renamed_layer wc pid prof old new =
    let renamed = put_layers wc pid (fix_setlayer_refs (rename_key old new prof.layers) old new) in
    record renamed { initial_layer = (if wc.initial_layer == old then new else wc.initial_layer) }

unfoldable pub rename_layer : String → String → String → ConfigDraft → Edit ConfigDraft
rename_layer profile old_lid new_lid d =
    let wc = d.working_config in
    let invalid = refusal invalid_profile_or_layer "rename_layer" in
    do
      pid ← require (try_profile_id profile) invalid
      old ← require (layer_of old_lid) invalid
      new ← require (layer_of new_lid) invalid
      prof ← require (lookup pid wc.profiles) (refusal (profile_not_found profile) "rename_layer")
      raise_if (not (has_key old prof.layers))
          (refusal (layer_not_found old_lid profile) "rename_layer")
      raise_if (has_key new prof.layers) (refusal (layer_exists new_lid profile) "rename_layer")
      ok (
          mark_dirty (renamed_layer wc pid prof old new) (
            add_record
              (record {
                kind = "layer_renamed";
                path = joined "profiles." (joined profile (joined ".layers." old_lid));
                before = old_lid;
                after = new_lid;
              })
              d))

unfoldable pub remove_layer : String → String → ConfigDraft → Edit ConfigDraft
remove_layer profile layer d =
    let wc = d.working_config in
    let invalid = refusal invalid_profile_or_layer "remove_layer" in
    do
      pid ← require (try_profile_id profile) invalid
      lid ← require (layer_of layer) invalid
      prof ← require (lookup pid wc.profiles) (refusal (profile_not_found profile) "remove_layer")
      raise_if (not (has_key lid prof.layers))
          (refusal (layer_not_found layer profile) "remove_layer")
      raise_if (lid == general) (refusal general_layer "remove_layer")
      raise_if (leb (length prof.layers) 1) (refusal last_layer "remove_layer")
      refuse_refs (find_setlayer_refs_to wc pid lid)
          (λ r. refusal (layer_referenced layer r) "remove_layer")
      ok (mark_dirty (put_layers wc pid (without lid prof.layers)) d)

unfoldable pub set_initial_layer : String → ConfigDraft → Edit ConfigDraft
set_initial_layer layer d =
    let wc = d.working_config in
    do
      lid ← require (layer_of layer) (refusal (invalid_layer_id layer) "set_initial_layer")
      ok (if wc.initial_layer == lid then d else mark_dirty (record wc { initial_layer = lid }) d)

-- `LayerConfig(layer_id=lid, controls=controls)` put at `lid` of the profile
abbrev pub put_controls :
    LayeredControlConfig
    → ProfileId
    → ProfileConfig
    → LayerId
    → Dict OfficialControl Action
    → LayeredControlConfig
put_controls wc pid prof lid controls =
    put_layers wc pid (insert lid (record { layer_id = lid; controls = controls }) prof.layers)

unfoldable pub set_action : String → String → String → Action → ConfigDraft → Edit ConfigDraft
set_action profile layer control action d =
    let wc = d.working_config in
    let invalid = refusal invalid_profile_layer_or_control "set_action" in
    do
      pid ← require (try_profile_id profile) invalid
      lid ← require (layer_of layer) invalid
      oc ← require (official_control control) invalid
      prof ← require (lookup pid wc.profiles) (refusal (profile_not_found profile) "set_action")
      config ←
          require (lookup lid prof.layers) (refusal (layer_not_found layer profile) "set_action")
      ok (mark_dirty (put_controls wc pid prof lid (insert oc action config.controls)) d)

unfoldable pub clear_action : String → String → String → ConfigDraft → Edit ConfigDraft
clear_action profile layer control d =
    let wc = d.working_config in
    let invalid = refusal invalid_profile_layer_or_control "clear_action" in
    do
      pid ← require (try_profile_id profile) invalid
      lid ← require (layer_of layer) invalid
      oc ← require (official_control control) invalid
      prof ← require (lookup pid wc.profiles) (refusal (profile_not_found profile) "clear_action")
      config ←
          require (lookup lid prof.layers) (refusal (layer_not_found layer profile) "clear_action")
      ok (
          if not (has_key oc config.controls)
          then d
          else mark_dirty (put_controls wc pid prof lid (without oc config.controls)) d)
