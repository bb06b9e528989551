-- ===== src/Configurator/Draft/Effects.antt =====
-- What the edits of actions change, and what they leave.
use yyr4_linux_control.Base.{
  ◌≡◌, refl, ap, ◌∙◌, inl, inr, String, Bool, ◌&&◌, Option, none, some, ok, arith, Option-cases,
  Bool-cases, ◌==◌, ==_sound, if◌then◌else◌, true, false,
}
use yyr4_linux_control.Base.Dict.{Dict, lookup, insert, has_key, lookup-insert, is_some}
use yyr4_linux_control.Base.DictEdits.{without, lookup-without}
use yyr4_linux_control.Control.Actions.{Action}
use yyr4_linux_control.Control.Models.{
  OfficialControl, control_eq, official_control, LayerId, layer_of, layer_eq, ProfileId, profile_eq,
  LayerConfig, ProfileConfig, LayeredControlConfig,
}
use yyr4_linux_control.Configurator.Draft.{ConfigDraft, try_profile_id}
use yyr4_linux_control.Configurator.Draft.Layers.{put_controls, set_action, clear_action}

-- what a configuration binds to a control in a layer of a profile
unfoldable pub action_at :
    LayeredControlConfig → ProfileId → LayerId → OfficialControl → Option Action
action_at config pid lid oc = elim (lookup pid config.profiles) [
  | none ↦ none
  | some prof ↦ elim (lookup lid prof.layers) [
    | none ↦ none
    | some layer ↦ lookup oc layer.controls
  ]
]

is_some-false : (o : Option Action) → is_some o ≡ false → o ≡ none
is_some-false none h = refl
is_some-false (some a) h = cc

module _ (pid : ProfileId) (lid : LayerId) (oc : OfficialControl) (p' : ProfileId) (l' : LayerId)
    (c' : OfficialControl) where
  -- whether the two places are the same
  abbrev pub is_here : Bool
  is_here = p' == pid && l' == lid && c' == oc

  action_at-put_controls :
      (wc : LayeredControlConfig) (prof : ProfileConfig) (layer : LayerConfig)
      (controls : Dict OfficialControl Action) (new : Option Action)
      → lookup pid wc.profiles ≡ some prof
      → lookup lid prof.layers ≡ some layer
      → lookup c' controls ≡ (if c' == oc then new else lookup c' layer.controls)
      → action_at (put_controls wc pid prof lid controls) p' l' c'
        ≡ (if is_here then new else action_at wc p' l' c')
  unfolding action_at
  action_at-put_controls wc prof layer controls new e f g = ground (
    arith,
    ==_sound p' pid,
    ==_sound l' lid,
    λ (q : p' ≡ pid). ap (λ x. lookup x wc.profiles) q,
    λ (q : l' ≡ lid). ap (λ x. lookup x prof.layers) q,
    lookup-insert p' pid
        (record {
          profile_id = pid;
          layers = insert lid (record { layer_id = lid; controls = controls }) prof.layers;
        })
        wc.profiles,
    lookup-insert l' lid (record { layer_id = lid; controls = controls }) prof.layers,
  )

  if_unchanged : (b : Bool) (x y : Option Action) → (b ≡ true → x ≡ y) → x ≡ (if b then y else x)
  if_unchanged true x y h = h refl
  if_unchanged false x y h = refl

  here_eq : is_here ≡ true → (p' ≡ pid) × (l' ≡ lid) × (c' ≡ oc)
  here_eq h = (
    ==_sound p' pid (ground arith),
    ==_sound l' lid (ground arith),
    ==_sound c' oc (ground arith),
  )

  at_found :
      (wc : LayeredControlConfig) (prof : ProfileConfig) (layer : LayerConfig)
      → lookup pid wc.profiles ≡ some prof
      → lookup lid prof.layers ≡ some layer
      → lookup oc layer.controls ≡ none
      → action_at wc pid lid oc ≡ none
  unfolding action_at
  at_found wc prof layer e f g = ground arith

  at_unbound :
      (wc : LayeredControlConfig) (prof : ProfileConfig) (layer : LayerConfig)
      → lookup pid wc.profiles ≡ some prof
      → lookup lid prof.layers ≡ some layer
      → lookup oc layer.controls ≡ none
      → action_at wc p' l' c' ≡ (if is_here then none else action_at wc p' l' c')
  at_unbound wc prof layer e f g = if_unchanged is_here (action_at wc p' l' c') none (λ here.
      let (ep, el, ec) = here_eq here in
      (λ i. action_at wc (ep i) (el i) (ec i)) ∙ at_found wc prof layer e f g)

  -- `set_action` that succeeds binds the action to the control in that layer of that profile, and
  -- changes no other binding.
  pub set_action_lem :
      (p l c : String) (a : Action) (d r : ConfigDraft)
      → try_profile_id p ≡ some pid
      → layer_of l ≡ some lid
      → official_control c ≡ some oc
      → set_action p l c a d ≡ ok r
      → action_at r.working_config p' l' c'
        ≡ (if is_here then some a else action_at d.working_config p' l' c')
  set_action_lem p l c a d r e f n h =
      let wc = d.working_config in
      elim (Option-cases (lookup pid wc.profiles)) [
        | inl g ↦ absurd (unfold set_action in ground arith)
        | inr (prof, g) ↦ elim (Option-cases (lookup lid prof.layers)) [
          | inl k ↦ absurd (unfold set_action in ground arith)
          | inr (layer, k) ↦
              let eq : r.working_config
                  ≡ put_controls wc pid prof lid (insert oc a layer.controls) =
                unfold set_action in ground arith in
              ap (λ x. action_at x p' l' c') eq
              ∙ action_at-put_controls wc prof layer (insert oc a layer.controls) (some a) g k
                  (lookup-insert c' oc a layer.controls)
        ]
      ]

  -- `clear_action` that succeeds leaves nothing bound to the control in that layer of that profile,
  -- and changes no other binding.
  pub clear_action_lem :
      (p l c : String) (d r : ConfigDraft)
      → try_profile_id p ≡ some pid
      → layer_of l ≡ some lid
      → official_control c ≡ some oc
      → clear_action p l c d ≡ ok r
      → action_at r.working_config p' l' c'
        ≡ (if is_here then none else action_at d.working_config p' l' c')
  clear_action_lem p l c d r e f n h =
      let wc = d.working_config in
      elim (Option-cases (lookup pid wc.profiles)) [
        | inl g ↦ absurd (unfold clear_action in ground arith)
        | inr (prof, g) ↦ elim (Option-cases (lookup lid prof.layers)) [
          | inl k ↦ absurd (unfold clear_action in ground arith)
          | inr (layer, k) ↦ elim (Bool-cases (has_key oc layer.controls)) [
            | inl bound ↦
                let eq : r.working_config
                    ≡ put_controls wc pid prof lid (without oc layer.controls) =
                  unfold clear_action in ground arith in
                ap (λ x. action_at x p' l' c') eq
                ∙ action_at-put_controls wc prof layer (without oc layer.controls) none g k
                    (lookup-without c' oc layer.controls)
            | inr clear ↦
                let eq : r.working_config ≡ wc = unfold clear_action in ground arith in
                ap (λ x. action_at x p' l' c') eq
                ∙ at_unbound wc prof layer g k (is_some-false (lookup oc layer.controls) clear)
          ]
        ]
      ]
