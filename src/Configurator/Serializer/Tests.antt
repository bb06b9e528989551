-- ===== src/Configurator/Serializer/Tests.antt =====
-- Runs of the serializer.
use mathlib.Core.List.Permᴰ.{nil, cons, swap}
use yyr4_linux_control.Base.{◌≡◌, refl, String, inl, inr, some, List, [], ◌∷◌, Bool-cases, ◌==◌}
use yyr4_linux_control.Base.Dict.{lookup}
use yyr4_linux_control.Base.Text.{joined}
use yyr4_linux_control.Control.Actions.{text, noop, next_layer}
use yyr4_linux_control.Control.Models.{
  OfficialControl, a1, br, control_eq, LayerId, general, layer_1, layer_eq, ProfileId, profile_eq,
  LayerConfig, LayeredControlConfig,
}
use yyr4_linux_control.Configurator.Serializer.{serialize}
use yyr4_linux_control.Configurator.Serializer.Canonical.{
  IsSameLayer, IsSameProfile, IsSameConfig, Both, serialize-IsSameConfig,
}
use yyr4_linux_control.Configurator.Serializer.Reading.{read_basic_string, codes_of}
use yyr4_linux_control.Configurator.Serializer.Strings.{toml_str, escaped, escape_char}
use yyr4_linux_control.Configurator.Serializer.RoundTrip.{read_basic_string-toml_str}

abbrev quoted_text : String
quoted_text = "say \"hi\"\n"

read_basic_string-toml_str_example :
    read_basic_string (joined (toml_str quoted_text) ", rest")
    ≡ some (codes_of quoted_text, ", rest")
read_basic_string-toml_str_example = read_basic_string-toml_str quoted_text ", rest"

toml_str_example : toml_str quoted_text ≡ "\"say \\\"hi\\\"\\n\""
unfolding toml_str escaped escape_char
toml_str_example = refl

abbrev home : ProfileId
home = record { value = "home" }

abbrev first_layers : List (LayerId × LayerConfig)
first_layers =
    (layer_1, record { layer_id = layer_1; controls = (a1, next_layer) ∷ [] })
    ∷ (general, record { layer_id = general; controls = (br, noop) ∷ (a1, text "x") ∷ [] })
    ∷ []

abbrev second_layers : List (LayerId × LayerConfig)
second_layers =
    (general, record { layer_id = general; controls = (a1, text "x") ∷ (br, noop) ∷ [] })
    ∷ (layer_1, record { layer_id = layer_1; controls = (a1, next_layer) ∷ [] })
    ∷ []

abbrev with_layers : List (LayerId × LayerConfig) → LayeredControlConfig
with_layers layers = record {
  schema_version = 2;
  default_profile = home;
  initial_layer = general;
  profiles = (home, record { profile_id = home; layers = layers }) ∷ [];
}

same_controls :
    (oc : OfficialControl)
    → lookup oc ((br, noop) ∷ (a1, text "x") ∷ []) ≡ lookup oc ((a1, text "x") ∷ (br, noop) ∷ [])
unfolding lookup
same_controls a1 = refl
same_controls _ = refl

same_layers :
    (lid : LayerId) → Both IsSameLayer (lookup lid first_layers) (lookup lid second_layers)
unfolding lookup
same_layers general = same_controls
same_layers layer_1 = λ oc. refl
same_layers _ = tt

same_profiles :
    (pid : ProfileId)
    → Both IsSameProfile
        (lookup pid (with_layers first_layers).profiles)
        (lookup pid (with_layers second_layers).profiles)
unfolding lookup
same_profiles pid = elim (Bool-cases (pid == home)) [
  | inl p ↦ rw p (swap refl refl, same_layers)
  | inr p ↦ rw p tt
]

same_example : IsSameConfig (with_layers first_layers) (with_layers second_layers)
same_example = record {
  same_version = refl;
  same_profile = refl;
  same_layer = refl;
  same_profiles = (cons refl nil, same_profiles);
}

serialize-IsSameConfig_example :
    serialize (with_layers first_layers) ≡ serialize (with_layers second_layers)
serialize-IsSameConfig_example =
    serialize-IsSameConfig (with_layers first_layers) (with_layers second_layers) same_example
