-- ===== src/Control/Config.antt =====
-- control/config.py, after the TOML parser: `_parse_config` with its two schemas. The actions are in
-- Config/Actions.
pub mod Actions
pub mod Built
pub mod Soundness
mod Tests
use yyr4_linux_control.Base.{
  ◌≡◌, String, Bool, true, false, not, Option, none, some, [], ◌∷◌, Result, ok, err, raise_if, ◌>>◌,
  ◌>>=◌, ◌==◌, string_eq, if◌then◌else◌, ⊤,
}
use yyr4_linux_control.Base.Dict.{Dict, insert, has_key}
use yyr4_linux_control.Base.Value.{
  Value, str, table, Fields, no_fields, field, null, get, unknown_field, one_of, equals_nat,
  is_falsy, Place, root, at_field,
}
use yyr4_linux_control.Control.Actions.{Action}
use yyr4_linux_control.Control.Models.{
  OfficialControl, official_control, control_eq, LayerId, general, layer_of, layer_eq, ProfileId,
  profile_id, profile_eq, LayerConfig, ProfileConfig, LayeredControlConfig,
}
use yyr4_linux_control.Control.Config.Actions.{
  ConfigError, config_validation, unsupported_schema_version, unknown_control, SchemaVersion, v1,
  v2, parse_action,
}

abbrev pub Parsed : Type 0 → Type 0
Parsed A = Result ConfigError A

-- an error with a fixed text at a place
abbrev pub invalid : {A : Type 0} → String → Place → Parsed A
invalid text path = err (config_validation text path)

-- `if not isinstance(v, dict): raise`
abbrev pub as_table : Value → String → Place → Parsed Fields
as_table (table found) text path = ok found
as_table _ text path = invalid text path

-- `isinstance(v, str)`
abbrev pub as_text : Value → String → Place → Parsed String
as_text (str s) text path = ok s
as_text _ text path = invalid text path

-- `data.get(name, {})`
unfoldable pub get_table : String → Fields → Value
get_table name no_fields = table no_fields
get_table name (field k v rest) = let found = get_table name rest in if name == k then v else found

-- the loop that looks for unknown fields
abbrev pub check_fields : (String → Bool) → Fields → String → Place → Parsed ⊤
check_fields allowed data_ text path = elim (unknown_field allowed data_) [
  | none ↦ ok tt
  | some key ↦ invalid text (at_field path key)
]

abbrev pub some_or : {A : Type 0} → Option A → ConfigError → Parsed A
some_or (some a) e = ok a
some_or none e = err e

abbrev pub or_invalid : {A : Type 0} → Result String A → Place → Parsed A
or_invalid (ok a) path = ok a
or_invalid (err text) path = invalid text path

-- an entry of a control's table: the action, if it has one; with none, the other fields are not
-- looked at
unfoldable pub parse_binding : Place → SchemaVersion → Value → Fields → Parsed (Option Action)
parse_binding path version null conf = ok none
parse_binding path version action_def conf = do
  action ← parse_action (at_field path "action") version action_def
  check_fields (one_of ("action" ∷ [])) conf "Unknown field in control config" path
  ok (some action)

abbrev pub bind_control :
    OfficialControl → Option Action → Dict OfficialControl Action → Dict OfficialControl Action
bind_control control (some action) result = insert control action result
bind_control control none result = result

-- the loop of `_parse_controls`
unfoldable pub parse_controls :
    Place
    → SchemaVersion
    → Fields
    → Dict OfficialControl Action
    → Parsed (Dict OfficialControl Action)
parse_controls prefix version no_fields result = ok result
parse_controls prefix version (field name conf rest) result = do
  control ← some_or (official_control name) (unknown_control (at_field prefix name))
  entry ← as_table conf "control configuration must be a table" (at_field prefix name)
  action ← parse_binding (at_field prefix name) version (get "action" entry) entry
  parse_controls prefix version rest (bind_control control action result)

unfoldable pub parse_layer : Place → LayerId → Fields → Parsed LayerConfig
parse_layer path layer_id data_ = do
  check_fields (one_of ("controls" ∷ [])) data_ "Unknown field in layer" path
  controls_data ←
      as_table (get_table "controls" data_) "controls must be a table" (at_field path "controls")
  controls ← parse_controls (at_field path "controls") v2 controls_data []
  ok (record { layer_id = layer_id; controls = controls })

-- the loop over the layers of a profile
unfoldable pub parse_layers :
    Place → Fields → Dict LayerId LayerConfig → Parsed (Dict LayerId LayerConfig)
parse_layers path no_fields layers = ok layers
parse_layers path (field name conf rest) layers = do
  layer_data ← as_table conf "layer configuration must be a table" (at_field path name)
  layer_id ← some_or (layer_of name) (config_validation "Unknown LayerId" (at_field path name))
  layer ← parse_layer (at_field path name) layer_id layer_data
  parse_layers path rest (insert layer_id layer layers)

unfoldable pub parse_profile : Place → ProfileId → Fields → Parsed ProfileConfig
parse_profile path pid data_ = do
  check_fields (one_of ("layers" ∷ [])) data_ "Unknown field in profile" path
  layers_data ←
      as_table (get_table "layers" data_) "layers must be a table" (at_field path "layers")
  layers ← parse_layers (at_field path "layers") layers_data []
  raise_if (not (has_key general layers))
      (config_validation "Profile must contain a 'general' layer" (at_field path "layers"))
  ok (record { profile_id = pid; layers = layers })

-- the loop over the profiles
unfoldable pub parse_profiles :
    Fields → Dict ProfileId ProfileConfig → Parsed (Dict ProfileId ProfileConfig)
parse_profiles no_fields profiles = ok profiles
parse_profiles (field name conf rest) profiles = do
  profile_data ←
      as_table conf "profile configuration must be a table" (at_field (root "profiles") name)
  pid ← or_invalid (profile_id name) (at_field (root "profiles") name)
  profile ← parse_profile (at_field (root "profiles") name) pid profile_data
  parse_profiles rest (insert pid profile profiles)

abbrev pub default_id : ProfileId
default_id = record { value = "default" }

-- `_parse_schema_v1`
unfoldable pub parse_schema_v1 : Fields → Parsed LayeredControlConfig
parse_schema_v1 data_ = do
  check_fields (one_of ("schema_version" ∷ "controls" ∷ [])) data_ "Unknown top-level field"
      (root "")
  controls_data ← as_table (get_table "controls" data_) "controls must be a table" (root "controls")
  controls ← parse_controls (root "controls") v1 controls_data []
  ok (record {
    schema_version = 1;
    default_profile = default_id;
    initial_layer = general;
    profiles =
        (
          default_id,
          record {
            profile_id = default_id;
            layers = (general, record { layer_id = general; controls = controls }) ∷ [];
          },
        )
        ∷ [];
  })

-- `_parse_schema_v2`
unfoldable pub parse_schema_v2 : Fields → Parsed LayeredControlConfig
parse_schema_v2 data_ = do
  check_fields (one_of ("schema_version" ∷ "default_profile" ∷ "initial_layer" ∷ "profiles" ∷ []))
      data_ "Unknown top-level field" (root "")
  name ←
      as_text (get "default_profile" data_) "default_profile must be a string"
        (root "default_profile")
  default_profile ← or_invalid (profile_id name) (root "default_profile")
  layer ←
      as_text (get "initial_layer" data_) "initial_layer must be a string" (root "initial_layer")
  initial_layer ←
      some_or (layer_of layer) (config_validation "Unknown LayerId" (root "initial_layer"))
  profiles_data ←
      as_table (get "profiles" data_) "profiles must be a non-empty table" (root "profiles")
  raise_if (is_falsy (table profiles_data))
      (config_validation "profiles must be a non-empty table" (root "profiles"))
  profiles ← parse_profiles profiles_data []
  raise_if (not (has_key default_profile profiles))
      (config_validation "default_profile is not defined in profiles" (root "default_profile"))
  ok (record {
    schema_version = 2;
    default_profile = default_profile;
    initial_layer = initial_layer;
    profiles = profiles;
  })

-- `_parse_config`; `true` and `1.0` equal 1 in Python
unfoldable pub parse_config : Fields → Parsed LayeredControlConfig
parse_config data_ =
    let version = get "schema_version" data_ in
    if equals_nat 1 version
    then parse_schema_v1 data_
    else if equals_nat 2 version
    then parse_schema_v2 data_
    else err unsupported_schema_version
