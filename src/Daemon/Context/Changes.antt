-- ===== src/Daemon/Context/Changes.antt =====
-- Every method of the context either changes nothing and says so, or records the change.
use mathlib.Core.Bool.{◌&&◌}
use yyr4_linux_control.Base.{
  ◌+◌, ◌≡◌, refl, sym, ap, subst, ==_refl, if◌then◌else◌, String, Bool, true, false, none, some,
  Result, ok, err, arith, Option-cases, inl, inr, Result-cases, ◌==◌, not,
}
use yyr4_linux_control.Base.Dict.{has_key}
use yyr4_linux_control.Control.Models.{
  layer_of, layer_eq, ProfileId, profile_id, profile_eq, LayeredControlConfig,
}
use yyr4_linux_control.Daemon.Context.{
  Context, ContextChangeSource, ActiveLayer, set_layer, next_layer, previous_layer, set_profile,
  select_profile, move_to, available, layer_at, next_index, prev_index, plain_text, member,
}

module _ {Time : Type 0} (source : ContextChangeSource) (now : Time) where
  next_layer-none : (c : Context Time) → c.config ≡ none → next_layer source now c ≡ (c, false)
  unfolding next_layer
  next_layer-none c e = ground arith

  next_layer-some :
      (c : Context Time) (config : LayeredControlConfig)
      → c.config ≡ some config
      → next_layer source now c ≡ (
          let layers = available config c.selected_profile in
          move_to (plain_text (layer_at layers (next_index layers c.active_layer.id))) source now c)
  unfolding next_layer
  next_layer-some c config e = ground arith

  previous_layer-none :
      (c : Context Time) → c.config ≡ none → previous_layer source now c ≡ (c, false)
  unfolding previous_layer
  previous_layer-none c e = ground arith

  previous_layer-some :
      (c : Context Time) (config : LayeredControlConfig)
      → c.config ≡ some config
      → previous_layer source now c ≡ (
          let layers = available config c.selected_profile in
          move_to (member (layer_at layers (prev_index layers c.active_layer.id))) source now c)
  unfolding previous_layer
  previous_layer-some c config e = ground arith

  -- Of a method that leaves `r`: it answers `false` and has changed nothing; or it answers `true`,
  -- the revision has grown by one, the time and the source are those of the call, and the profile
  -- or the layer is another.
  abbrev pub IsTracked : Context Time → Context Time × Bool → Type 0
  IsTracked c (r, false) = r ≡ c
  IsTracked c (r, true) =
      (r.revision ≡ c.revision + 1)
      × (r.changed_at ≡ now)
      × (r.last_change_source ≡ source)
      × (r.config ≡ c.config)
      × ¬ ((r.selected_profile ≡ c.selected_profile) × (r.active_layer.id ≡ c.active_layer.id))

  abbrev pub IsTrackedResult : Context Time → Result String (Context Time × Bool) → Type 0
  IsTrackedResult c (ok r) = IsTracked c r
  IsTrackedResult c (err e) = Unit

  if-IsTracked :
      (c : Context Time) (b : Bool) (x y : Context Time × Bool)
      → (b ≡ true → IsTracked c x)
      → (b ≡ false → IsTracked c y)
      → IsTracked c (if b then x else y)
  if-IsTracked c true x y hx hy = hx refl
  if-IsTracked c false x y hx hy = hy refl

  move_to-IsTracked :
      (layer : ActiveLayer) (c : Context Time) → IsTracked c (move_to layer source now c)
  move_to-IsTracked layer c =
      if-IsTracked c (c.active_layer.id == layer.id) _ _ (λ same. refl)
        (λ other. (
          refl,
          refl,
          refl,
          refl,
          λ (p, l). ground (arith, ==_refl c.active_layer.id, ap (λ x. c.active_layer.id == x) l),
        ))

  next_layer-IsTracked : (c : Context Time) → IsTracked c (next_layer source now c)
  next_layer-IsTracked c = elim (Option-cases c.config) [
    | inl e ↦ subst (IsTracked c) (sym (next_layer-none c e)) refl
    | inr (config, e) ↦
        let layers = available config c.selected_profile in
        subst (IsTracked c) (sym (next_layer-some c config e))
          (move_to-IsTracked (plain_text (layer_at layers (next_index layers c.active_layer.id))) c)
  ]

  previous_layer-IsTracked : (c : Context Time) → IsTracked c (previous_layer source now c)
  previous_layer-IsTracked c = elim (Option-cases c.config) [
    | inl e ↦ subst (IsTracked c) (sym (previous_layer-none c e)) refl
    | inr (config, e) ↦
        let layers = available config c.selected_profile in
        subst (IsTracked c) (sym (previous_layer-some c config e))
          (move_to-IsTracked (member (layer_at layers (prev_index layers c.active_layer.id))) c)
  ]

  eq-IsTrackedResult :
      (c : Context Time) {r s : Result String (Context Time × Bool)}
      → r ≡ s
      → IsTrackedResult c s
      → IsTrackedResult c r
  eq-IsTrackedResult c e h = subst (IsTrackedResult c) (sym e) h

  set_layer-IsTracked :
      (id : String) (c : Context Time) → IsTrackedResult c (set_layer id source now c)
  set_layer-IsTracked id c = elim (Option-cases (layer_of id)) [
    | inl e ↦
        eq-IsTrackedResult c {s = err "is not a valid LayerId"} (unfold set_layer in ground arith)
          tt
    | inr (l, e) ↦
        eq-IsTrackedResult c {s = ok (move_to (member l) source now c)}
          (unfold set_layer in ground arith) (move_to-IsTracked (member l) c)
  ]

  if-IsTrackedResult :
      (c : Context Time) (b : Bool) (x y : Result String (Context Time × Bool))
      → (b ≡ true → IsTrackedResult c x)
      → (b ≡ false → IsTrackedResult c y)
      → IsTrackedResult c (if b then x else y)
  if-IsTrackedResult c true x y hx hy = hx refl
  if-IsTrackedResult c false x y hx hy = hy refl

  select_profile-IsTracked :
      (config : LayeredControlConfig) (pid : ProfileId) (c : Context Time)
      → IsTrackedResult c (select_profile config pid source now c)
  unfolding select_profile
  select_profile-IsTracked config pid c =
      if-IsTrackedResult c (not (has_key pid config.profiles)) _ _ (λ missing. tt)
        (λ there.
          if-IsTrackedResult c
            (c.selected_profile == pid && c.active_layer.id == config.initial_layer) _ _
            (λ same. refl)
            (λ other. (
              refl,
              refl,
              refl,
              refl,
              λ (p, l). ground (
                arith,
                ==_refl pid,
                ==_refl config.initial_layer,
                ap (λ x. x == pid) p,
                ap (λ x. x == config.initial_layer) l,
              ),
            )))

  set_profile-IsTracked :
      (id : String) (c : Context Time) → IsTrackedResult c (set_profile id source now c)
  set_profile-IsTracked id c = elim (Option-cases c.config) [
    | inl e ↦ eq-IsTrackedResult c {s = ok (c, false)} (unfold set_profile in ground arith) refl
    | inr (config, e) ↦ elim (Result-cases (profile_id id)) [
      | inl (pid, v) ↦
          eq-IsTrackedResult c {s = select_profile config pid source now c}
            (unfold set_profile in ground arith) (select_profile-IsTracked config pid c)
      | inr (m, v) ↦ eq-IsTrackedResult c {s = err m} (unfold set_profile in ground arith) tt
    ]
  ]

  -- Each of the four requests to change the context either answers `false` and changes nothing, or
  -- answers `true`, moves to another profile or layer, raises the revision by one, records the time
  -- and the source of the call, and keeps the configuration.
  pub requests-IsTracked :
      (id : String) (c : Context Time)
      → IsTrackedResult c (set_layer id source now c)
        × IsTracked c (next_layer source now c)
        × IsTracked c (previous_layer source now c)
        × IsTrackedResult c (set_profile id source now c)
  requests-IsTracked id c = (
    set_layer-IsTracked id c,
    next_layer-IsTracked c,
    previous_layer-IsTracked c,
    set_profile-IsTracked id c,
  )
