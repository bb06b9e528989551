-- ===== src/Daemon/Context.antt =====
-- daemon/context.py: `RuntimeContextManager`, the profile and the layer in force. Its lock makes each
-- method one step. Times are readings of a clock that is not part of the repository, so their type
-- is a parameter, and a method is given the reading that it would take.
pub mod Cycle
pub mod Changes
pub mod Reload
mod Tests
use mathlib.Core.Option
use yyr4_linux_control.Base.{
  ℕ, zero, suc, ◌+◌, ◌-◌, ◌%◌, String, Bool, true, false, ◌&&◌, ◌||◌, not, Option, none, some, List,
  [], ◌∷◌, ltb, length, get_elem?, ◌==◌, Result, ok, err, if◌then◌else◌,
}
use yyr4_linux_control.Base.Dict.{Dict, lookup, has_key}
use yyr4_linux_control.Control.Models.{
  LayerId, general, layer_1, layer_2, layer_3, layer_4, layer_5, layer_6, layer_7, layer_8,
  layer_value, layer_of, layer_eq, ProfileId, profile_id, profile_eq, LayerConfig, ProfileConfig,
  LayeredControlConfig,
}

pub data ContextChangeSource : Type 0 where
  startup control_action management_cli config_reload unchanged : ContextChangeSource

-- The active layer is a member of `LayerId`, or a plain `str` equal to one (`next_layer` assigns
-- such a one). The two compare and hash alike; only the member has an attribute `value`.
pub record ActiveLayer : Type 0 where
  pub id : LayerId
  pub is_member : Bool

abbrev pub member : LayerId → ActiveLayer
member l = record { id = l; is_member = true }

abbrev pub plain_text : LayerId → ActiveLayer
plain_text l = record { id = l; is_member = false }

-- `active_layer.value`; `none` is an `AttributeError`
unfoldable pub layer_attribute : ActiveLayer → Option String
layer_attribute l = if l.is_member then some (layer_value l.id) else none

pub record Context (Time : Type 0) : Type 0 where
  pub selected_profile : ProfileId
  pub active_layer : ActiveLayer
  pub revision : ℕ
  pub changed_at : Time
  pub last_change_source : ContextChangeSource
  pub config : Option LayeredControlConfig

-- `[l for l in ids if l in layers]`
unfoldable pub declared : List LayerId → Dict LayerId LayerConfig → List LayerId
declared [] layers = []
declared (l ∷ ls) layers =
    let rest = declared ls layers in if has_key l layers then l ∷ rest else rest

abbrev pub numbered_layers : List LayerId
numbered_layers = layer_1 ∷ layer_2 ∷ layer_3 ∷ layer_4 ∷ layer_5 ∷ layer_6 ∷ layer_7 ∷ layer_8 ∷ []

-- the layers of a profile, if the configuration has it
unfoldable pub declared_in : Option ProfileConfig → List LayerId
unfolding declared
declared_in none = []
declared_in (some profile) = declared numbered_layers profile.layers

-- the list `available`: the general layer, and those that the profile declares
unfoldable pub available : LayeredControlConfig → ProfileId → List LayerId
unfolding declared_in
available config profile_id = general ∷ declared_in (lookup profile_id config.profiles)

-- `available.index(l)`, or `none` if `l not in available`
unfoldable pub index_of : LayerId → List LayerId → Option ℕ
index_of l [] = none
index_of l (x ∷ xs) = if l == x then some 0 else Option.map suc (index_of l xs)

unfoldable pub next_index : List LayerId → LayerId → ℕ
next_index layers l = elim (index_of l layers) [
  | some idx ↦ (idx + 1) % length layers
  | none ↦ if ltb 1 (length layers) then 1 else 0
]

-- `(idx - 1) % n`, which Python takes from 0 to `n - 1`
unfoldable pub prev_index : List LayerId → LayerId → ℕ
prev_index layers l = elim (index_of l layers) [
  | some idx ↦ (idx + length layers - 1) % length layers
  | none ↦ length layers - 1
]

-- `available[i]`; the indices above are always in range
abbrev pub layer_at : List LayerId → ℕ → LayerId
layer_at layers i = elim (get_elem? layers i) [ none ↦ general | some l ↦ l ]

-- the test of `reconcile_after_reload` on the active layer, in a profile that is still there
abbrev pub keeps_layer : LayeredControlConfig → ProfileConfig → LayerId → Bool
keeps_layer config profile l = has_key l profile.layers || l == config.initial_layer

module _ {Time : Type 0} where
  -- `__init__`, at a time
  abbrev pub new_context : ProfileId → LayerId → Time → Context Time
  new_context default_profile initial_layer now = record {
    selected_profile = default_profile;
    active_layer = member initial_layer;
    revision = 0;
    changed_at = now;
    last_change_source = startup;
    config = none;
  }

  unfoldable pub set_config : LayeredControlConfig → Context Time → Context Time
  set_config config c = record c { config = some config }

  -- what every change does besides its assignments to the profile and the layer
  abbrev pub changed : ContextChangeSource → Time → Context Time → Context Time
  changed source now c = record c {
    revision = c.revision + 1;
    changed_at = now;
    last_change_source = source;
  }

  -- the assignments of a change of layer, unless it is the layer in force
  abbrev pub move_to : ActiveLayer → ContextChangeSource → Time → Context Time → Context Time × Bool
  move_to layer source now c =
      if c.active_layer.id == layer.id
      then (c, false)
      else (changed source now (record c { active_layer = layer }), true)

  unfoldable pub set_layer :
      String → ContextChangeSource → Time → Context Time → Result String (Context Time × Bool)
  set_layer layer_id source now c = elim (layer_of layer_id) [
    | none ↦ err "is not a valid LayerId"
    | some l ↦ ok (move_to (member l) source now c)
  ]

  unfoldable pub next_layer : ContextChangeSource → Time → Context Time → Context Time × Bool
  next_layer source now c = elim c.config [
    | none ↦ (c, false)
    | some config ↦
        let layers = available config c.selected_profile in
        move_to (plain_text (layer_at layers (next_index layers c.active_layer.id))) source now c
  ]

  unfoldable pub previous_layer : ContextChangeSource → Time → Context Time → Context Time × Bool
  previous_layer source now c = elim c.config [
    | none ↦ (c, false)
    | some config ↦
        let layers = available config c.selected_profile in
        move_to (member (layer_at layers (prev_index layers c.active_layer.id))) source now c
  ]

  -- `set_profile` once the configuration is there and the id is valid
  unfoldable pub select_profile :
      LayeredControlConfig
      → ProfileId
      → ContextChangeSource
      → Time
      → Context Time
      → Result String (Context Time × Bool)
  select_profile config pid source now c =
      if not (has_key pid config.profiles)
      then err "Profile does not exist in configuration"
      else if c.selected_profile == pid && c.active_layer.id == config.initial_layer
      then ok (c, false)
      else ok (
        changed source now
            (record c { selected_profile = pid; active_layer = member config.initial_layer }),
        true,
      )

  unfoldable pub set_profile :
      String → ContextChangeSource → Time → Context Time → Result String (Context Time × Bool)
  unfolding select_profile
  set_profile id source now c = elim c.config [
    | none ↦ ok (c, false)
    | some config ↦ elim (profile_id id) [
      | err m ↦ err m
      | ok pid ↦ select_profile config pid source now c
    ]
  ]

  unfoldable pub reconcile_after_reload :
      LayeredControlConfig → Time → Context Time → Context Time × Bool
  reconcile_after_reload new_config now old =
      let c : Context Time = record old { config = some new_config } in
      elim (lookup c.selected_profile new_config.profiles) [
        | some profile ↦ if keeps_layer new_config profile c.active_layer.id then (c, false) else (
          changed config_reload now (record c { active_layer = member new_config.initial_layer }),
          true,
        )
        | none ↦ (
          changed config_reload now (record c {
            selected_profile = new_config.default_profile;
            active_layer = member new_config.initial_layer;
          }),
          true,
        )
      ]
