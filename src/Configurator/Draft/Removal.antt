-- ===== src/Configurator/Draft/Removal.antt =====
-- The removal of a profile: what it takes away, and that no action refers to it.
use yyr4_linux_control.Base.{
  ◌≡◌, refl, sym, ap, ◌∙◌, inl, inr, ◌⊎◌, String, Bool, true, false, none, some, List, [], ◌∷◌,
  ◌++◌, ok, arith, Option-cases, Bool-cases, ◌==◌, if◌then◌else◌,
}
use yyr4_linux_control.Base.Dict.{Dict, lookup}
use yyr4_linux_control.Base.DictEdits.{without, lookup-without}
use yyr4_linux_control.Control.Actions.{Action}
use yyr4_linux_control.Control.Models.{
  OfficialControl, control_eq, LayerId, layer_eq, ProfileId, profile_eq, LayerConfig, ProfileConfig,
  LayeredControlConfig,
}
use yyr4_linux_control.Configurator.Draft.{
  ConfigDraft, try_profile_id, targets_profile, find_in_controls, find_in_layers, find_in_profiles,
  find_setprofile_refs_to,
}
use yyr4_linux_control.Configurator.Draft.Profiles.{remove_profile}
use yyr4_linux_control.Configurator.Draft.Effects.{action_at}

-- A search that finds nothing: no action that is looked up is a hit.
append_nil_split : {A : Type 0} (xs ys : List A) → xs ++ ys ≡ [] → (xs ≡ []) × (ys ≡ [])
append_nil_split [] ys h = (refl, h)
append_nil_split (x ∷ xs) ys h = cc

List-cases : {A : Type 0} (xs : List A) → (xs ≡ []) ⊎ ((x : A) × (ys : List A) × (xs ≡ x ∷ ys))
List-cases [] = inl refl
List-cases (x ∷ xs) = inr (x, xs, refl)

module _ (hit : Action → Bool) where
  controls_free :
      (pid : ProfileId) (lid : LayerId) (oc : OfficialControl)
      (controls : Dict OfficialControl Action) (a : Action)
      → find_in_controls hit pid lid controls ≡ []
      → lookup oc controls ≡ some a
      → hit a ≡ false
  unfolding find_in_controls lookup
  controls_free pid lid oc [] a h l = cc
  controls_free pid lid oc ((c, b) ∷ controls) a h l =
      ground (arith, controls_free pid lid oc controls a, λ (q : b ≡ a). ap hit q)

  layers_free :
      (pid : ProfileId) (lid : LayerId) (layers : Dict LayerId LayerConfig) (layer : LayerConfig)
      → find_in_layers hit pid layers ≡ []
      → lookup lid layers ≡ some layer
      → (l : LayerId) × (find_in_controls hit pid l layer.controls ≡ [])
  unfolding find_in_layers lookup
  layers_free pid lid [] layer h l = cc
  layers_free pid lid ((j, x) ∷ layers) layer h l =
      let (here, there) =
        append_nil_split (find_in_controls hit pid j x.controls) (find_in_layers hit pid layers)
          h in
      elim (Bool-cases (lid == j)) [
        | inl e ↦
            let same : x ≡ layer = ground arith in
            (j, ap (λ (y : LayerConfig). find_in_controls hit pid j y.controls) (sym same) ∙ here)
        | inr e ↦ layers_free pid lid layers layer there (ground arith)
      ]

  profiles_free :
      (pid : ProfileId) (profiles : Dict ProfileId ProfileConfig) (prof : ProfileConfig)
      → find_in_profiles hit profiles ≡ []
      → lookup pid profiles ≡ some prof
      → (p : ProfileId) × (find_in_layers hit p prof.layers ≡ [])
  unfolding find_in_profiles lookup
  profiles_free pid [] prof h l = cc
  profiles_free pid ((j, x) ∷ profiles) prof h l =
      let (here, there) =
        append_nil_split (find_in_layers hit j x.layers) (find_in_profiles hit profiles) h in
      elim (Bool-cases (pid == j)) [
        | inl e ↦
            let same : x ≡ prof = ground arith in
            (j, ap (λ (y : ProfileConfig). find_in_layers hit j y.layers) (sym same) ∙ here)
        | inr e ↦ profiles_free pid profiles prof there (ground arith)
      ]

  action_free :
      (config : LayeredControlConfig) (pid : ProfileId) (lid : LayerId) (oc : OfficialControl)
      (a : Action)
      → find_in_profiles hit config.profiles ≡ []
      → action_at config pid lid oc ≡ some a
      → hit a ≡ false
  unfolding action_at
  action_free config pid lid oc a h l = elim (Option-cases (lookup pid config.profiles)) [
    | inl e ↦ absurd (ground arith)
    | inr (prof, e) ↦ elim (Option-cases (lookup lid prof.layers)) [
      | inl f ↦ absurd (ground arith)
      | inr (layer, f) ↦
          let (p, hp) = profiles_free pid config.profiles prof h e in
          let (j, hj) = layers_free p lid prof.layers layer hp f in
          controls_free p j oc layer.controls a hj (ground arith)
    ]
  ]

-- `remove_profile` that succeeds takes away that profile and no other one. No control of the
-- configuration that it leaves is bound to a change to that profile; a macro may still hold one.
pub remove_profile_lem :
    (id : String) (pid other : ProfileId) (lid : LayerId) (oc : OfficialControl) (d r : ConfigDraft)
    → try_profile_id id ≡ some pid
    → remove_profile id d ≡ ok r
    → (lookup other r.working_config.profiles
        ≡ (if other == pid then none else lookup other d.working_config.profiles))
      × ¬ (
          (a : Action) × (action_at r.working_config other lid oc ≡ some a)
          × (targets_profile pid a ≡ true))
remove_profile_lem id pid other lid oc d r e h =
    let wc = d.working_config in
    let eq : r.working_config ≡ record wc { profiles = without pid wc.profiles } =
      unfold remove_profile in ground arith in
    let free : find_setprofile_refs_to wc pid ≡ [] =
      unfold remove_profile in ground (arith, List-cases (find_setprofile_refs_to wc pid)) in
    let rest : lookup other r.working_config.profiles
        ≡ (if other == pid then none else lookup other wc.profiles) =
      ap (λ (c : LayeredControlConfig). lookup other c.profiles) eq
      ∙ lookup-without other pid wc.profiles in
    (
      rest,
      λ (a, at, hit).
          let bound : action_at wc other lid oc ≡ some a =
            unfold action_at in ground (arith, rest, at) in
          ground (
            arith,
            action_free (targets_profile pid) wc other lid oc a
                (unfold find_setprofile_refs_to in free) bound,
          ),
    )
