-- ===== src/Configurator/Draft/Soundness.antt =====
-- What every edit of a draft preserves.
use yyr4_linux_control.Base.{
  ◌≡◌, ◌≢◌, sym, ap, ◌∙◌, ◌⊎◌, inl, inr, String, true, false, none, some, arith, Option-cases, ◌==◌,
  ==_refl, ==_sound, if◌then◌else◌, string_eq,
}
use yyr4_linux_control.Base.Dict.{Dict, lookup, insert, has_key, has_key-insert}
use yyr4_linux_control.Base.DictEdits.{
  without, rename_key, AllValues, AllValues-insert, AllValues-rename_key, AllValues-map_values,
  AllValues-lookup, has_key-map_values, has_key-rename_key, lookup-without_ne, map_values,
}
use yyr4_linux_control.Control.Models.{
  LayerId, general, layer_of, layer_eq, ProfileId, profile_eq, control_eq, LayerConfig,
  ProfileConfig, LayeredControlConfig,
}
use yyr4_linux_control.Configurator.Draft.{
  try_profile_id, put_layers, map_layers, map_controls, retarget_profile, retarget_layer,
  fix_setprofile_refs, fix_setlayer_refs,
}
use yyr4_linux_control.Configurator.Draft.Profiles
use yyr4_linux_control.Configurator.Draft.Layers
use yyr4_linux_control.Configurator.Draft.Requests.{Request, rename_layer}

abbrev pub HasGeneral : ProfileConfig → Type 0
HasGeneral prof = has_key general prof.layers ≡ true

-- The default profile exists, and every profile has the general layer.
abbrev pub IsSound : LayeredControlConfig → Type 0
IsSound config =
    (has_key config.default_profile config.profiles ≡ true) × AllValues HasGeneral config.profiles

-- No general layer is renamed.
abbrev pub KeepsGeneral : Request → Type 0
KeepsGeneral (rename_layer p old new) = ¬ (layer_of old ≡ some general)
KeepsGeneral _ = Unit

-- what the mutations look up first
abbrev pub IsAddressed :
    String → String → LayeredControlConfig → ProfileId → LayerId → ProfileConfig → Type 0
IsAddressed p l wc pid lid prof =
    (try_profile_id p ≡ some pid) × (layer_of l ≡ some lid) × (lookup pid wc.profiles ≡ some prof)

abbrev pub IsUnknown : String → String → LayeredControlConfig → Type 0
IsUnknown p l wc =
    (try_profile_id p ≡ none)
    ⊎ ((layer_of l ≡ none)
        ⊎ ((pid : ProfileId) × (try_profile_id p ≡ some pid) × (lookup pid wc.profiles ≡ none)))

pub address-cases :
    (p l : String) (wc : LayeredControlConfig)
    → ((pid : ProfileId) × (lid : LayerId) × (prof : ProfileConfig) × IsAddressed p l wc pid lid
          prof)
      ⊎ IsUnknown p l wc
address-cases p l wc = elim (Option-cases (try_profile_id p)) [
  | inl e ↦ inr (inl e)
  | inr (pid, e) ↦ elim (Option-cases (layer_of l)) [
    | inl f ↦ inr (inr (inl f))
    | inr (lid, f) ↦ elim (Option-cases (lookup pid wc.profiles)) [
      | inl g ↦ inr (inr (inr (pid, e, g)))
      | inr (prof, g) ↦ inl (pid, lid, prof, (e, f, g))
    ]
  ]
]

module _ (wc : LayeredControlConfig) (sound : IsSound wc) where
  -- a configuration with other layers in one profile
  pub put_layers-IsSound :
      (pid : ProfileId) (layers : Dict LayerId LayerConfig)
      → has_key general layers ≡ true
      → IsSound (put_layers wc pid layers)
  put_layers-IsSound pid layers h = (
    ground (
      arith,
      has_key-insert wc.default_profile pid (record { profile_id = pid; layers = layers })
          wc.profiles,
    ),
    AllValues-insert HasGeneral pid (record { profile_id = pid; layers = layers }) wc.profiles h
        sound.1,
  )

  has_general :
      (pid : ProfileId) {prof : ProfileConfig}
      → lookup pid wc.profiles ≡ some prof
      → has_key general prof.layers ≡ true
  has_general pid h = AllValues-lookup HasGeneral pid wc.profiles sound.1 h

  pub insert-IsSound :
      (pid : ProfileId) {prof : ProfileConfig} (lid : LayerId) (layer : LayerConfig)
      → lookup pid wc.profiles ≡ some prof
      → IsSound (put_layers wc pid (insert lid layer prof.layers))
  insert-IsSound pid {prof} lid layer h =
      put_layers-IsSound pid (insert lid layer prof.layers)
        (ground (arith, has_key-insert general lid layer prof.layers, has_general pid h))

  pub without-IsSound :
      (pid : ProfileId) {prof : ProfileConfig} (lid : LayerId)
      → lookup pid wc.profiles ≡ some prof
      → (lid == general) ≡ false
      → IsSound (put_layers wc pid (without lid prof.layers))
  without-IsSound pid {prof} lid h other = put_layers-IsSound pid (without lid prof.layers) (
      let differ : general ≢ lid =
        λ (e : general ≡ lid). ground (arith, ==_refl general, ap (λ x. x == general) e) in
      ground (arith, lookup-without_ne general lid prof.layers differ, has_general pid h))

  pub rename_layer-IsSound :
      (pid : ProfileId) {prof : ProfileConfig} (old new : LayerId)
      → lookup pid wc.profiles ≡ some prof
      → ¬ (old ≡ general)
      → IsSound (Layers.renamed_layer wc pid prof old new)
  unfolding Layers.renamed_layer fix_setlayer_refs
  rename_layer-IsSound pid {prof} old new h other =
      put_layers-IsSound pid
        (map_values (map_controls (retarget_layer old new)) (rename_key old new prof.layers))
        (has_key-map_values (map_controls (retarget_layer old new)) general
            (rename_key old new prof.layers)
          ∙ (ground (
            arith,
            ==_sound general old,
            λ (e : general ≡ old). other (sym e),
            has_key-rename_key old new general prof.layers,
            has_general pid h,
          )))

  pub rename_profile-IsSound : (old new : ProfileId) → IsSound (Profiles.renamed_profile wc old new)
  unfolding Profiles.renamed_profile fix_setprofile_refs
  rename_profile-IsSound old new = (
    has_key-map_values (map_layers (retarget_profile old new))
          (if wc.default_profile == old then new else wc.default_profile)
          (rename_key old new wc.profiles)
        ∙ has_key-rename_key old new wc.default_profile wc.profiles sound.0,
    AllValues-map_values HasGeneral (map_layers (retarget_profile old new))
        (rename_key old new wc.profiles)
        (λ prof g.
          has_key-map_values (map_controls (retarget_profile old new)) general prof.layers ∙ g)
        (AllValues-rename_key HasGeneral old new wc.profiles sound.1),
  )
