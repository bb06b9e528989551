-- ===== src/Configurator/Draft.antt =====
-- configurator/draft.py: `ConfigDraft`, the edits of a configuration before it is saved. A mutation
-- that answers `DraftMutationResult(False, [d])` does so before it changes anything: it is `err d`;
-- one that answers `DraftMutationResult(True)` is `ok` with the draft that it leaves. The texts of
-- the diagnostics are data. `base_source_path` and `base_sha256` are never read here and left out;
-- so is `from_recovery`, which reads files. `validate` is in Validation.
pub mod Requests
pub mod Soundness
pub mod Invariant
pub mod Effects
pub mod Removal
mod Tests
pub mod Profiles
pub mod Layers
use yyr4_linux_control.Base.{
  ℕ, ◌+◌, String, Bool, true, false, ◌&&◌, ◌||◌, not, Option, none, some, List, [], ◌∷◌, ◌++◌,
  length, leb, ltb, ◌==◌, string_eq, Result, ok, err, raise_if, ◌>>=◌, ◌>>◌, if◌then◌else◌, ⊤,
}
use yyr4_linux_control.Base.Dict.{Dict, lookup, insert, has_key, is_some}
use yyr4_linux_control.Base.DictEdits.{map_values, without, rename_key}
use yyr4_linux_control.Base.Text.{joined}
use yyr4_linux_control.Control.Actions.{Action, set_layer, set_profile}
use yyr4_linux_control.Control.Models.{
  OfficialControl, control_eq, official_control, LayerId, general, layer_of, layer_value, layer_eq,
  ProfileId, profile_id, profile_eq, LayerConfig, ProfileConfig, LayeredControlConfig,
}

-- the text `profiles.….layers.….controls.…`
pub record Reference : Type 0 where
  pub in_profile : ProfileId
  pub in_layer : LayerId
  pub at_control : OfficialControl

pub data Message : Type 0 where
  invalid_profile_id invalid_old_profile_id invalid_new_profile_id invalid_layer_id :
      String → Message
  profile_exists profile_missing profile_not_found default_profile_in_use : String → Message
  layer_exists layer_not_found : String → String → Message
  profile_referenced layer_referenced : String → Reference → Message
  invalid_profile_or_layer invalid_profile_layer_or_control : Message
  last_profile general_layer last_layer : Message

pub record DraftDiagnostic : Type 0 where
  pub level : String
  pub message : Message
  pub path : String

pub record MutationRecord : Type 0 where
  pub kind : String
  pub path : String
  pub before : String
  pub after : String

pub record ConfigDraft : Type 0 where
  pub base_config : LayeredControlConfig
  pub working_config : LayeredControlConfig
  pub dirty : Bool
  pub mutation_count : ℕ
  pub mutation_records : List MutationRecord

-- `ConfigDraft.__init__`, on the configuration that the file holds
unfoldable pub config_draft : LayeredControlConfig → Result String ConfigDraft
config_draft config =
    if ltb config.schema_version 2
    then err "Draft editing requires schema version 2"
    else ok (record {
      base_config = config;
      working_config = config;
      dirty = false;
      mutation_count = 0;
      mutation_records = [];
    })

abbrev pub Edit : Type 0 → Type 0
Edit A = Result DraftDiagnostic A

abbrev pub refusal : Message → String → DraftDiagnostic
refusal message path = record { level = "error"; message = message; path = path }

-- a value that must be there
abbrev pub require : {A : Type 0} → Option A → DraftDiagnostic → Edit A
require (some a) d = ok a
require none d = err d

-- `_try_profile_id`
unfoldable pub try_profile_id : String → Option ProfileId
try_profile_id s = elim (profile_id s) [ ok pid ↦ some pid | err m ↦ none ]

-- `_mark_dirty`, after the assignment of the working configuration
abbrev pub mark_dirty : LayeredControlConfig → ConfigDraft → ConfigDraft
mark_dirty config d = record d {
  working_config = config;
  dirty = true;
  mutation_count = d.mutation_count + 1;
}

abbrev pub add_record : MutationRecord → ConfigDraft → ConfigDraft
add_record r d = record d { mutation_records = d.mutation_records ++ r ∷ [] }

-- `ProfileConfig(profile_id=pid, layers=layers)` put at `pid`
abbrev pub put_layers :
    LayeredControlConfig → ProfileId → Dict LayerId LayerConfig → LayeredControlConfig
put_layers wc pid layers = record wc {
  profiles = insert pid (record { profile_id = pid; layers = layers }) wc.profiles;
}

-- `isinstance(action, SetProfileAction) and action.profile == target.value`
abbrev pub targets_profile : ProfileId → Action → Bool
targets_profile target (set_profile p) = p == target.value
targets_profile target _ = false

abbrev pub targets_layer : LayerId → Action → Bool
targets_layer target (set_layer l) = l == layer_value target
targets_layer target _ = false

-- the innermost loop of the two searches for references, and the two around it
module _ (hit : Action → Bool) where
  unfoldable pub find_in_controls :
      ProfileId → LayerId → Dict OfficialControl Action → List Reference
  find_in_controls pid lid [] = []
  find_in_controls pid lid ((ctrl, action) ∷ controls) =
      let rest = find_in_controls pid lid controls in
      if hit action
      then record { in_profile = pid; in_layer = lid; at_control = ctrl } ∷ rest
      else rest

  unfoldable pub find_in_layers : ProfileId → Dict LayerId LayerConfig → List Reference
  find_in_layers pid [] = []
  find_in_layers pid ((lid, layer) ∷ layers) =
      find_in_controls pid lid layer.controls ++ find_in_layers pid layers

  unfoldable pub find_in_profiles : Dict ProfileId ProfileConfig → List Reference
  find_in_profiles [] = []
  find_in_profiles ((pid, prof) ∷ profiles) =
      find_in_layers pid prof.layers ++ find_in_profiles profiles

-- `_find_setprofile_refs_to`
unfoldable pub find_setprofile_refs_to : LayeredControlConfig → ProfileId → List Reference
find_setprofile_refs_to config target = find_in_profiles (targets_profile target) config.profiles

-- `_find_setlayer_refs_to`, which goes over every profile, whichever it is called for
unfoldable pub find_setlayer_refs_to : LayeredControlConfig → ProfileId → LayerId → List Reference
find_setlayer_refs_to config pid target = find_in_profiles (targets_layer target) config.profiles

-- `if refs:` of the two removals
abbrev pub refuse_refs : List Reference → (Reference → DraftDiagnostic) → Edit ⊤
refuse_refs [] d = ok tt
refuse_refs (r ∷ refs) d = err (d r)

-- every action of the layers
abbrev pub map_controls : (Action → Action) → LayerConfig → LayerConfig
map_controls f layer = record layer { controls = map_values f layer.controls }

abbrev pub map_layers : (Action → Action) → ProfileConfig → ProfileConfig
map_layers f prof = record prof { layers = map_values (map_controls f) prof.layers }

abbrev pub retarget_profile : ProfileId → ProfileId → Action → Action
retarget_profile old new action =
    if targets_profile old action then set_profile new.value else action

abbrev pub retarget_layer : LayerId → LayerId → Action → Action
retarget_layer old new action =
    if targets_layer old action then set_layer (layer_value new) else action

-- `_fix_setprofile_refs` and `_fix_setlayer_refs`. They change the layers' dicts in place, which no
-- other configuration shares: the working copy is a deep copy of the base.
unfoldable pub fix_setprofile_refs :
    Dict ProfileId ProfileConfig → ProfileId → ProfileId → Dict ProfileId ProfileConfig
fix_setprofile_refs profiles old new = map_values (map_layers (retarget_profile old new)) profiles

unfoldable pub fix_setlayer_refs :
    Dict LayerId LayerConfig → LayerId → LayerId → Dict LayerId LayerConfig
fix_setlayer_refs layers old new = map_values (map_controls (retarget_layer old new)) layers
