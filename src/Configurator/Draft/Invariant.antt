-- ===== src/Configurator/Draft/Invariant.antt =====
-- The invariant of a draft's configuration, request by request.
use yyr4_linux_control.Base.{
  ◌≡◌, ◌≢◌, sym, ap, subst, inl, inr, String, false, some, [], ◌∷◌, ok, refl, arith, Option-cases,
  Bool-cases, ◌==◌, ==_refl, string_eq,
}
use yyr4_linux_control.Base.Dict.{lookup, insert, has_key, has_key-insert}
use yyr4_linux_control.Base.DictEdits.{
  without, AllValues-insert, AllValues-without, lookup-without_ne,
}
use yyr4_linux_control.Control.Actions.{Action}
use yyr4_linux_control.Control.Models.{
  general, layer_of, layer_eq, profile_eq, control_eq, official_control, LayerConfig, ProfileConfig,
  LayeredControlConfig,
}
use yyr4_linux_control.Configurator.Draft.{ConfigDraft, try_profile_id, put_layers}
use yyr4_linux_control.Configurator.Draft.Profiles
use yyr4_linux_control.Configurator.Draft.Layers
use yyr4_linux_control.Configurator.Draft.Requests.{
  Request, apply, add_profile, remove_profile, set_default_profile, rename_profile,
  set_initial_layer, add_layer, remove_layer, rename_layer, clear_action, set_action,
}
use yyr4_linux_control.Configurator.Draft.Soundness.{
  IsSound, HasGeneral, KeepsGeneral, address-cases, insert-IsSound, without-IsSound,
  rename_layer-IsSound, rename_profile-IsSound,
}

module _ (d r : ConfigDraft) (sound : IsSound d.working_config) where
  abbrev wc : LayeredControlConfig
  wc = d.working_config

  becomes : {c : LayeredControlConfig} → r.working_config ≡ c → IsSound c → IsSound r.working_config
  becomes e h = subst IsSound (sym e) h

  add_layer-IsSound : (p l : String) → Layers.add_layer p l d ≡ ok r → IsSound r.working_config
  add_layer-IsSound p l h = elim (address-cases p l wc) [
    | inr m ↦ absurd (unfold Layers.add_layer in ground (arith, m))
    | inl (pid, lid, prof, (e, f, g)) ↦
        let empty : LayerConfig = record { layer_id = lid; controls = [] } in
        becomes {c = put_layers wc pid (insert lid empty prof.layers)}
          (unfold Layers.add_layer in ground arith) (insert-IsSound wc sound pid lid empty g)
  ]

  remove_layer-IsSound :
      (p l : String) → Layers.remove_layer p l d ≡ ok r → IsSound r.working_config
  remove_layer-IsSound p l h = elim (address-cases p l wc) [
    | inr m ↦ absurd (unfold Layers.remove_layer in ground (arith, m))
    | inl (pid, lid, prof, (e, f, g)) ↦
        becomes {c = put_layers wc pid (without lid prof.layers)}
          (unfold Layers.remove_layer in ground arith)
          (without-IsSound wc sound pid lid g (unfold Layers.remove_layer in ground arith))
  ]

  relabel_layer-IsSound :
      (p old_lid new_lid : String)
      → ¬ (layer_of old_lid ≡ some general)
      → Layers.rename_layer p old_lid new_lid d ≡ ok r
      → IsSound r.working_config
  relabel_layer-IsSound p old_lid new_lid other h = elim (address-cases p old_lid wc) [
    | inr m ↦ absurd (unfold Layers.rename_layer in ground (arith, m))
    | inl (pid, old, prof, (e, f, g)) ↦ elim (Option-cases (layer_of new_lid)) [
      | inl n ↦ absurd (unfold Layers.rename_layer in ground arith)
      | inr (new, n) ↦
          becomes {c = Layers.renamed_layer wc pid prof old new}
            (unfold Layers.rename_layer in ground arith)
            (rename_layer-IsSound wc sound pid old new g
              (λ q. other (subst (λ x. layer_of old_lid ≡ some x) q f)))
    ]
  ]

  set_action-IsSound :
      (p l c : String) (a : Action) → Layers.set_action p l c a d ≡ ok r → IsSound r.working_config
  set_action-IsSound p l c a h = elim (address-cases p l wc) [
    | inr m ↦ absurd (unfold Layers.set_action in ground (arith, m))
    | inl (pid, lid, prof, (e, f, g)) ↦ elim (Option-cases (official_control c)) [
      | inl n ↦ absurd (unfold Layers.set_action in ground arith)
      | inr (oc, n) ↦ elim (Option-cases (lookup lid prof.layers)) [
        | inl k ↦ absurd (unfold Layers.set_action in ground arith)
        | inr (config, k) ↦
            let layer : LayerConfig = record {
              layer_id = lid;
              controls = insert oc a config.controls;
            } in
            becomes {c = put_layers wc pid (insert lid layer prof.layers)}
              (unfold Layers.set_action in ground arith) (insert-IsSound wc sound pid lid layer g)
      ]
    ]
  ]

  clear_action-IsSound :
      (p l c : String) → Layers.clear_action p l c d ≡ ok r → IsSound r.working_config
  clear_action-IsSound p l c h = elim (address-cases p l wc) [
    | inr m ↦ absurd (unfold Layers.clear_action in ground (arith, m))
    | inl (pid, lid, prof, (e, f, g)) ↦ elim (Option-cases (official_control c)) [
      | inl n ↦ absurd (unfold Layers.clear_action in ground arith)
      | inr (oc, n) ↦ elim (Option-cases (lookup lid prof.layers)) [
        | inl k ↦ absurd (unfold Layers.clear_action in ground arith)
        | inr (config, k) ↦ elim (Bool-cases (has_key oc config.controls)) [
          | inr clear ↦ becomes {c = wc} (unfold Layers.clear_action in ground arith) sound
          | inl bound ↦
              let layer : LayerConfig = record {
                layer_id = lid;
                controls = without oc config.controls;
              } in
              becomes {c = put_layers wc pid (insert lid layer prof.layers)}
                (unfold Layers.clear_action in ground arith)
                (insert-IsSound wc sound pid lid layer g)
        ]
      ]
    ]
  ]

  set_initial_layer-IsSound :
      (l : String) → Layers.set_initial_layer l d ≡ ok r → IsSound r.working_config
  set_initial_layer-IsSound l h =
      let same : r.working_config.profiles ≡ wc.profiles =
        unfold Layers.set_initial_layer in ground arith in
      let def : r.working_config.default_profile ≡ wc.default_profile =
        unfold Layers.set_initial_layer in ground arith in
      (rw (same, def) sound.0, rw same sound.1)

  add_profile-IsSound : (p : String) → Profiles.add_profile p d ≡ ok r → IsSound r.working_config
  add_profile-IsSound p h = elim (Option-cases (try_profile_id p)) [
    | inl e ↦ absurd (unfold Profiles.add_profile in ground arith)
    | inr (pid, e) ↦
        let new : ProfileConfig = record {
          profile_id = pid;
          layers = (general, record { layer_id = general; controls = [] }) ∷ [];
        } in
        becomes {c = record wc { profiles = insert pid new wc.profiles }}
          (unfold Profiles.add_profile in ground arith)
          (
            ground (arith, has_key-insert wc.default_profile pid new wc.profiles, sound.0),
            AllValues-insert HasGeneral pid new wc.profiles (unfold lookup in refl) sound.1,
          )
  ]

  set_default_profile-IsSound :
      (p : String) → Profiles.set_default_profile p d ≡ ok r → IsSound r.working_config
  set_default_profile-IsSound p h = elim (Option-cases (try_profile_id p)) [
    | inl e ↦ absurd (unfold Profiles.set_default_profile in ground arith)
    | inr (pid, e) ↦ elim (Bool-cases (wc.default_profile == pid)) [
      | inl same ↦ becomes {c = wc} (unfold Profiles.set_default_profile in ground arith) sound
      | inr other ↦
          becomes {c = record wc { default_profile = pid }}
            (unfold Profiles.set_default_profile in ground arith)
            (unfold Profiles.set_default_profile in ground arith, sound.1)
    ]
  ]

  relabel_profile-IsSound :
      (old_id new_id : String)
      → Profiles.rename_profile old_id new_id d ≡ ok r
      → IsSound r.working_config
  relabel_profile-IsSound old_id new_id h = elim (Option-cases (try_profile_id old_id)) [
    | inl e ↦ absurd (unfold Profiles.rename_profile in ground arith)
    | inr (old, e) ↦ elim (Option-cases (try_profile_id new_id)) [
      | inl f ↦ absurd (unfold Profiles.rename_profile in ground arith)
      | inr (new, f) ↦
          becomes {c = Profiles.renamed_profile wc old new}
            (unfold Profiles.rename_profile in ground arith)
            (rename_profile-IsSound wc sound old new)
    ]
  ]

  remove_profile-IsSound :
      (p : String) → Profiles.remove_profile p d ≡ ok r → IsSound r.working_config
  remove_profile-IsSound p h = elim (Option-cases (try_profile_id p)) [
    | inl e ↦ absurd (unfold Profiles.remove_profile in ground arith)
    | inr (pid, e) ↦
        let other : (pid == wc.default_profile) ≡ false =
          unfold Profiles.remove_profile in ground arith in
        let differ : wc.default_profile ≢ pid =
          λ (q : wc.default_profile ≡ pid). ground (arith, ==_refl pid, ap (λ x. pid == x) q) in
        becomes {c = record wc { profiles = without pid wc.profiles }}
          (unfold Profiles.remove_profile in ground arith)
          (
            ground (arith, lookup-without_ne wc.default_profile pid wc.profiles differ, sound.0),
            AllValues-without HasGeneral pid wc.profiles sound.1,
          )
  ]

-- A mutation that succeeds, and does not rename a general layer, preserves that the default profile
-- exists and that every profile has the general layer.
pub apply-IsSound :
    (request : Request) (d r : ConfigDraft)
    → KeepsGeneral request
    → IsSound d.working_config
    → apply request d ≡ ok r
    → IsSound r.working_config
apply-IsSound (add_profile p) d r k s h = add_profile-IsSound d r s p h
apply-IsSound (remove_profile p) d r k s h = remove_profile-IsSound d r s p h
apply-IsSound (set_default_profile p) d r k s h = set_default_profile-IsSound d r s p h
apply-IsSound (rename_profile old new) d r k s h = relabel_profile-IsSound d r s old new h
apply-IsSound (set_initial_layer l) d r k s h = set_initial_layer-IsSound d r s l h
apply-IsSound (add_layer p l) d r k s h = add_layer-IsSound d r s p l h
apply-IsSound (remove_layer p l) d r k s h = remove_layer-IsSound d r s p l h
apply-IsSound (rename_layer p old new) d r k s h = relabel_layer-IsSound d r s p old new k h
apply-IsSound (clear_action p l c) d r k s h = clear_action-IsSound d r s p l c h
apply-IsSound (set_action p l c a) d r k s h = set_action-IsSound d r s p l c a h
