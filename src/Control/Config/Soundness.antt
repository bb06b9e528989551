-- ===== src/Control/Config/Soundness.antt =====
-- What holds of every configuration that the parser returns.
use yyr4_linux_control.Base.{
  ◌≡◌, subst, inl, inr, refl, Bool, true, not, Option, none, some, [], ok, arith, ◌==◌, string_eq,
  nat_eq, Bool-cases, if◌then◌else◌, >>=-eq-ok, ok-injective, raise_if, ⊤,
}
use yyr4_linux_control.Base.Dict.{Dict, insert, has_key, lookup}
use yyr4_linux_control.Base.DictEdits.{AllValues, AllValues-insert}
use yyr4_linux_control.Base.Value.{
  Value, null, table, Fields, no_fields, field, get, Place, root, at_field, is_falsy, equals_nat,
}
use yyr4_linux_control.Control.Actions.{Action}
use yyr4_linux_control.Control.Models.{
  OfficialControl, official_control, control_eq, LayerId, general, layer_of, layer_eq, ProfileId,
  profile_id, profile_eq, LayerConfig, ProfileConfig, LayeredControlConfig,
}
use yyr4_linux_control.Control.Config.{
  as_table, some_or, or_invalid, check_fields, parse_binding, bind_control, parse_controls,
  parse_layer, parse_layers, parse_profile, parse_profiles, parse_schema_v1, parse_schema_v2,
  parse_config, get_table, as_text,
}
use yyr4_linux_control.Control.Config.Actions.{SchemaVersion, v1, v2, parse_action}
use yyr4_linux_control.Control.Config.Built.{IsBuilt, parse_action-IsBuilt}
use yyr4_linux_control.Configurator.Draft.Soundness.{HasGeneral}

-- every action of the layer is built
abbrev pub IsLayer : SchemaVersion → LayerConfig → Type 0
IsLayer version layer = AllValues (IsBuilt version) layer.controls

abbrev pub IsProfile : SchemaVersion → ProfileConfig → Type 0
IsProfile version prof = HasGeneral prof × AllValues (IsLayer version) prof.layers

-- the version that the keys and their values were read with
abbrev pub version_of : LayeredControlConfig → SchemaVersion
version_of config = if config.schema_version == 1 then v1 else v2

IsSome : (Action → Type 0) → Option Action → Type 0
IsSome P none = Unit
IsSome P (some a) = P a

parse_binding-IsBuilt :
    (path : Place) (version : SchemaVersion) (v : Value) (conf : Fields) {found : Option Action}
    → parse_binding path version v conf ≡ ok found
    → IsSome (IsBuilt version) found
unfolding parse_binding IsSome
parse_binding-IsBuilt path version null conf h =
    subst (IsSome (IsBuilt version)) (ok-injective h) tt
parse_binding-IsBuilt path version v conf h =
    let (a, e, h1) = >>=-eq-ok (parse_action (at_field path "action") version v) _ h in
    let (u, e', h2) = >>=-eq-ok _ (λ _. ok (some a)) h1 in
    subst (IsSome (IsBuilt version)) (ok-injective h2)
      (parse_action-IsBuilt (at_field path "action") version v e)

bind_control-IsBuilt :
    (version : SchemaVersion) (control : OfficialControl) (found : Option Action)
    (result : Dict OfficialControl Action)
    → IsSome (IsBuilt version) found
    → AllValues (IsBuilt version) result
    → AllValues (IsBuilt version) (bind_control control found result)
unfolding IsSome
bind_control-IsBuilt version control none result p h = h
bind_control-IsBuilt version control (some a) result p h =
    AllValues-insert (IsBuilt version) control a result p h

parse_controls-IsBuilt :
    (prefix : Place) (version : SchemaVersion) (data_ : Fields)
    (result : Dict OfficialControl Action) {controls : Dict OfficialControl Action}
    → AllValues (IsBuilt version) result
    → parse_controls prefix version data_ result ≡ ok controls
    → AllValues (IsBuilt version) controls
unfolding parse_controls
parse_controls-IsBuilt prefix version no_fields result p h =
    subst (AllValues (IsBuilt version)) (ok-injective h) p
parse_controls-IsBuilt prefix version (field name conf rest) result p h =
    let (control, e, h1) = >>=-eq-ok (some_or (official_control name) _) _ h in
    let (entry, e1, h2) = >>=-eq-ok (as_table conf _ _) _ h1 in
    let (found, e2, h3) =
      >>=-eq-ok (parse_binding (at_field prefix name) version (get "action" entry) entry) _ h2 in
    parse_controls-IsBuilt prefix version rest (bind_control control found result)
      (bind_control-IsBuilt version control found result
        (parse_binding-IsBuilt (at_field prefix name) version (get "action" entry) entry e2) p)
      h3

raised-not : {E : Type 0} (b : Bool) (e : E) {u : ⊤} → raise_if (not b) e ≡ ok u → b ≡ true
raised-not b e h = ground arith

parse_layer-IsLayer :
    (path : Place) (layer_id : LayerId) (data_ : Fields) {layer : LayerConfig}
    → parse_layer path layer_id data_ ≡ ok layer
    → IsLayer v2 layer
unfolding parse_layer
parse_layer-IsLayer path layer_id data_ h =
    let (u, e, h1) = >>=-eq-ok (check_fields _ data_ _ path) _ h in
    let (found, e1, h2) = >>=-eq-ok (as_table (get_table "controls" data_) _ _) _ h1 in
    let (controls, e2, h3) =
      >>=-eq-ok (parse_controls (at_field path "controls") v2 found []) _ h2 in
    subst (IsLayer v2) (ok-injective h3)
      (parse_controls-IsBuilt (at_field path "controls") v2 found [] tt e2)

parse_layers-IsLayer :
    (path : Place) (data_ : Fields) (layers : Dict LayerId LayerConfig)
    {parsed : Dict LayerId LayerConfig}
    → AllValues (IsLayer v2) layers
    → parse_layers path data_ layers ≡ ok parsed
    → AllValues (IsLayer v2) parsed
unfolding parse_layers
parse_layers-IsLayer path no_fields layers p h = subst (AllValues (IsLayer v2)) (ok-injective h) p
parse_layers-IsLayer path (field name conf rest) layers p h =
    let (entry, e, h1) = >>=-eq-ok (as_table conf _ _) _ h in
    let (layer_id, e1, h2) = >>=-eq-ok (some_or (layer_of name) _) _ h1 in
    let (layer, e2, h3) = >>=-eq-ok (parse_layer (at_field path name) layer_id entry) _ h2 in
    parse_layers-IsLayer path rest (insert layer_id layer layers)
      (AllValues-insert (IsLayer v2) layer_id layer layers
        (parse_layer-IsLayer (at_field path name) layer_id entry e2) p)
      h3

parse_profile-IsProfile :
    (path : Place) (pid : ProfileId) (data_ : Fields) {prof : ProfileConfig}
    → parse_profile path pid data_ ≡ ok prof
    → IsProfile v2 prof
unfolding parse_profile
parse_profile-IsProfile path pid data_ h =
    let (u, e, h1) = >>=-eq-ok (check_fields _ data_ _ path) _ h in
    let (found, e1, h2) = >>=-eq-ok (as_table (get_table "layers" data_) _ _) _ h1 in
    let (layers, e2, h3) = >>=-eq-ok (parse_layers (at_field path "layers") found []) _ h2 in
    let (u', e3, h4) = >>=-eq-ok (raise_if (not (has_key general layers)) _) _ h3 in
    subst (IsProfile v2) (ok-injective h4) (
      raised-not (has_key general layers) _ e3,
      parse_layers-IsLayer (at_field path "layers") found [] tt e2,
    )

parse_profiles-IsProfile :
    (data_ : Fields) (profiles : Dict ProfileId ProfileConfig)
    {parsed : Dict ProfileId ProfileConfig}
    → AllValues (IsProfile v2) profiles
    → parse_profiles data_ profiles ≡ ok parsed
    → AllValues (IsProfile v2) parsed
unfolding parse_profiles
parse_profiles-IsProfile no_fields profiles p h =
    subst (AllValues (IsProfile v2)) (ok-injective h) p
parse_profiles-IsProfile (field name conf rest) profiles p h =
    let path : Place = at_field (root "profiles") name in
    let (entry, e, h1) = >>=-eq-ok (as_table conf _ _) _ h in
    let (pid, e1, h2) = >>=-eq-ok (or_invalid (profile_id name) _) _ h1 in
    let (prof, e2, h3) = >>=-eq-ok (parse_profile path pid entry) _ h2 in
    parse_profiles-IsProfile rest (insert pid prof profiles)
      (AllValues-insert (IsProfile v2) pid prof profiles (parse_profile-IsProfile path pid entry e2)
        p)
      h3

-- what the parser gives
abbrev pub IsLoaded : LayeredControlConfig → Type 0
IsLoaded config =
    (has_key config.default_profile config.profiles ≡ true)
    × AllValues (IsProfile (version_of config)) config.profiles

parse_schema_v1-IsLoaded :
    (data_ : Fields) {config : LayeredControlConfig}
    → parse_schema_v1 data_ ≡ ok config
    → IsLoaded config
unfolding parse_schema_v1 lookup
parse_schema_v1-IsLoaded data_ h =
    let (u, e, h1) = >>=-eq-ok (check_fields _ data_ _ _) _ h in
    let (found, e1, h2) = >>=-eq-ok (as_table (get_table "controls" data_) _ _) _ h1 in
    let (controls, e2, h3) = >>=-eq-ok (parse_controls (root "controls") v1 found []) _ h2 in
    subst IsLoaded (ok-injective h3)
      (refl, ((refl, (parse_controls-IsBuilt (root "controls") v1 found [] tt e2, tt)), tt))

parse_schema_v2-IsLoaded :
    (data_ : Fields) {config : LayeredControlConfig}
    → parse_schema_v2 data_ ≡ ok config
    → IsLoaded config
unfolding parse_schema_v2
parse_schema_v2-IsLoaded data_ h =
    let (u, e, h1) = >>=-eq-ok (check_fields _ data_ _ _) _ h in
    let (name, e1, h2) = >>=-eq-ok (as_text (get "default_profile" data_) _ _) _ h1 in
    let (pid, e2, h3) = >>=-eq-ok (or_invalid (profile_id name) _) _ h2 in
    let (layer, e3, h4) = >>=-eq-ok (as_text (get "initial_layer" data_) _ _) _ h3 in
    let (layer_id, e4, h5) = >>=-eq-ok (some_or (layer_of layer) _) _ h4 in
    let (found, e5, h6) = >>=-eq-ok (as_table (get "profiles" data_) _ _) _ h5 in
    let (u', e6, h7) = >>=-eq-ok (raise_if (is_falsy (table found)) _) _ h6 in
    let (profiles, e7, h8) = >>=-eq-ok (parse_profiles found []) _ h7 in
    let (u'', e8, h9) = >>=-eq-ok (raise_if (not (has_key pid profiles)) _) _ h8 in
    subst IsLoaded (ok-injective h9)
      (raised-not (has_key pid profiles) _ e8, parse_profiles-IsProfile found [] tt e7)

-- A configuration that is loaded has its default profile and, in each profile, the general layer;
-- every action bound in it passes the checks of its class, also inside macros; and actions on layers
-- and profiles occur only if its schema version is not 1.
pub parse_config-IsLoaded :
    (data_ : Fields) (config : LayeredControlConfig)
    → parse_config data_ ≡ ok config
    → (has_key config.default_profile config.profiles ≡ true)
      × AllValues (IsProfile (version_of config)) config.profiles
unfolding parse_config
parse_config-IsLoaded data_ config h =
    let version = get "schema_version" data_ in
    elim (Bool-cases (equals_nat 1 version)) [
      | inl e ↦ parse_schema_v1-IsLoaded data_ {config = config} (ground arith)
      | inr e ↦ elim (Bool-cases (equals_nat 2 version)) [
        | inl e' ↦ parse_schema_v2-IsLoaded data_ {config = config} (ground arith)
        | inr e' ↦ ground arith
      ]
    ]
