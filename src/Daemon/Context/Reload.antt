-- ===== src/Daemon/Context/Reload.antt =====
-- What a reload leaves in force.
use yyr4_linux_control.Base.{◌≡◌, true, none, some, arith, Option-cases, inl, inr, ◌⊎◌, ==_sound}
use yyr4_linux_control.Base.Dict.{lookup, has_key}
use yyr4_linux_control.Control.Models.{layer_eq, profile_eq, ProfileConfig, LayeredControlConfig}
use yyr4_linux_control.Daemon.Context.{Context, reconcile_after_reload}

module _ {Time : Type 0} (now : Time) where
  -- After a reload whose default profile exists, the configuration is the new one, the selected
  -- profile exists in it, and the active layer is one that this profile has or the initial layer.
  -- A selected profile that still exists stays
  -- selected.
  pub reload_valid :
      (config : LayeredControlConfig) (c : Context Time) (default_config : ProfileConfig)
      → lookup config.default_profile config.profiles ≡ some default_config
      → let (r, moved) = reconcile_after_reload config now c in
        (profile : ProfileConfig) × (r.config ≡ some config)
        × (lookup r.selected_profile config.profiles ≡ some profile)
        × ((has_key r.active_layer.id profile.layers ≡ true)
            ⊎ (r.active_layer.id ≡ config.initial_layer))
        × ((lookup c.selected_profile config.profiles ≡ none)
            ⊎ (r.selected_profile ≡ c.selected_profile))
  reload_valid config c default_config h =
      elim (Option-cases (lookup c.selected_profile config.profiles)) [
        | inl gone ↦ (
          default_config,
          unfold reconcile_after_reload in ground arith,
          unfold reconcile_after_reload in ground arith,
          inr (unfold reconcile_after_reload in ground arith),
          inl gone,
        )
        | inr (profile, e) ↦ (
          profile,
          unfold reconcile_after_reload in ground arith,
          unfold reconcile_after_reload in ground arith,
          unfold reconcile_after_reload in
              ground (arith, ==_sound c.active_layer.id config.initial_layer),
          inr (unfold reconcile_after_reload in ground arith),
        )
      ]
