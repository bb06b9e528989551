-- ===== src/Configurator/Draft/Tests.antt =====
-- Edits of a draft with two profiles.
use yyr4_linux_control.Base.{
  ◌≡◌, refl, true, false, none, some, [], ◌∷◌, ok, err, ◌==◌, if◌then◌else◌,
}
use yyr4_linux_control.Base.Dict.{lookup}
use yyr4_linux_control.Control.Actions.{Action, noop}
use yyr4_linux_control.Control.Models.{
  a1, control_eq, official_control, general, layer_of, layer_eq, ProfileId, profile_eq, profile_id,
  matches_profile_id, matches_tail, ProfileConfig, LayeredControlConfig,
}
use yyr4_linux_control.Configurator.Draft.{
  ConfigDraft, Edit, targets_profile, try_profile_id, find_setprofile_refs_to, find_in_profiles,
  find_in_layers, find_in_controls,
}
use yyr4_linux_control.Configurator.Draft.Profiles
use yyr4_linux_control.Configurator.Draft.Layers
use yyr4_linux_control.Configurator.Draft.Requests.{set_action}
use yyr4_linux_control.Configurator.Draft.Soundness.{IsSound}
use yyr4_linux_control.Configurator.Draft.Invariant.{apply-IsSound}
use yyr4_linux_control.Configurator.Draft.Effects.{action_at, is_here, set_action_lem}
use yyr4_linux_control.Configurator.Draft.Removal.{remove_profile_lem}

abbrev home : ProfileId
home = record { value = "home" }

abbrev work : ProfileId
work = record { value = "work" }

abbrev profile_of : ProfileId → ProfileConfig
profile_of p = record {
  profile_id = p;
  layers = (general, record { layer_id = general; controls = (a1, noop) ∷ [] }) ∷ [];
}

abbrev config : LayeredControlConfig
config = record {
  schema_version = 2;
  default_profile = home;
  initial_layer = general;
  profiles = (home, profile_of home) ∷ (work, profile_of work) ∷ [];
}

abbrev draft : ConfigDraft
draft = record {
  base_config = config;
  working_config = config;
  dirty = false;
  mutation_count = 0;
  mutation_records = [];
}

abbrev left : Edit ConfigDraft → ConfigDraft
left (ok d) = d
left (err e) = draft

unfoldable with_action : ConfigDraft
unfolding Layers.set_action try_profile_id profile_id layer_of official_control lookup
with_action = left (Layers.set_action "work" "general" "A1" noop draft)

set_action_ok : Layers.set_action "work" "general" "A1" noop draft ≡ ok with_action
unfolding with_action Layers.set_action try_profile_id profile_id matches_profile_id matches_tail
    layer_of official_control lookup
set_action_ok = refl

unfoldable cleared : ConfigDraft
unfolding Layers.clear_action try_profile_id profile_id layer_of official_control lookup
cleared = left (Layers.clear_action "work" "general" "A1" draft)

clear_action_ok : Layers.clear_action "work" "general" "A1" draft ≡ ok cleared
unfolding cleared Layers.clear_action try_profile_id profile_id matches_profile_id matches_tail
    layer_of official_control lookup
clear_action_ok = refl

unfoldable without_work : ConfigDraft
unfolding Profiles.remove_profile try_profile_id profile_id lookup
without_work = left (Profiles.remove_profile "work" draft)

remove_profile_ok : Profiles.remove_profile "work" draft ≡ ok without_work
unfolding without_work Profiles.remove_profile try_profile_id profile_id matches_profile_id
    matches_tail lookup find_setprofile_refs_to find_in_profiles find_in_layers find_in_controls
remove_profile_ok = refl

work_id : try_profile_id "work" ≡ some work
unfolding try_profile_id profile_id matches_profile_id matches_tail
work_id = refl

draft-IsSound : IsSound draft.working_config
unfolding lookup
draft-IsSound = (refl, (refl, (refl, tt)))

apply-IsSound_example : IsSound with_action.working_config
apply-IsSound_example =
    apply-IsSound (set_action "work" "general" "A1" noop) draft with_action tt draft-IsSound
      set_action_ok

set_action_lem_example : action_at with_action.working_config work general a1 ≡ (
    if is_here work general a1 work general a1
    then some noop
    else action_at draft.working_config work general a1)
unfolding layer_of official_control
set_action_lem_example =
    set_action_lem work general a1 work general a1 "work" "general" "A1" noop draft with_action
      work_id refl refl set_action_ok

remove_profile_lem_example :
    (lookup home without_work.working_config.profiles
      ≡ (if home == work then none else lookup home draft.working_config.profiles))
    × ¬ (
        (a : Action) × (action_at without_work.working_config home general a1 ≡ some a)
        × (targets_profile work a ≡ true))
remove_profile_lem_example =
    remove_profile_lem "work" work home general a1 draft without_work work_id remove_profile_ok
