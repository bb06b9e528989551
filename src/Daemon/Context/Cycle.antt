-- ===== src/Daemon/Context/Cycle.antt =====
-- `next_layer` and `previous_layer` walk the declared layers in a circle.
use native.Mathlib.Nat.{mod-eq_of_lt, add-mod_right, mod_self}
use native.Mathlib.Decide.{dec_lt}
use yyr4_linux_control.Base.{
  ℕ, zero, suc, ◌+◌, ◌-◌, ◌%◌, ◌<◌, ◌≡◌, refl, ap, ◌∙◌, true, false, Option, none, some, List, [],
  ◌∷◌, length, get_elem?, contains, ==_sound, arith, Option-cases,
}
use yyr4_linux_control.Base.Dict.{Dict, lookup}
use yyr4_linux_control.Control.Models.{
  LayerId, general, layer_eq, ProfileId, profile_eq, LayerConfig, LayeredControlConfig,
  ProfileConfig,
}
use yyr4_linux_control.Daemon.Context.{
  Context, declared_in, ContextChangeSource, next_layer, previous_layer, available, declared,
  numbered_layers, index_of, next_index, prev_index, layer_at, plain_text, member, move_to,
  ActiveLayer,
}

-- no layer is listed twice
abbrev pub IsDistinct : List LayerId → Type 0
IsDistinct [] = Unit
IsDistinct (l ∷ ls) = (contains l ls ≡ false) × IsDistinct ls

contains-declared :
    (l : LayerId) (ids : List LayerId) (layers : Dict LayerId LayerConfig)
    → contains l ids ≡ false
    → contains l (declared ids layers) ≡ false
unfolding declared
contains-declared l [] layers h = refl
contains-declared l (x ∷ xs) layers h = ground (arith, contains-declared l xs layers)

declared-IsDistinct :
    (ids : List LayerId) (layers : Dict LayerId LayerConfig)
    → IsDistinct ids
    → IsDistinct (declared ids layers)
unfolding declared
declared-IsDistinct [] layers h = tt
declared-IsDistinct (x ∷ xs) layers h =
    ground (arith, declared-IsDistinct xs layers h.1, contains-declared x xs layers h.0)

numbered-IsDistinct : IsDistinct numbered_layers
numbered-IsDistinct = (refl, (refl, (refl, (refl, (refl, (refl, (refl, (refl, tt))))))))

declared_in-IsDistinct :
    (profile : Option ProfileConfig)
    → (contains general (declared_in profile) ≡ false) × IsDistinct (declared_in profile)
unfolding declared_in
declared_in-IsDistinct none = (refl, tt)
declared_in-IsDistinct (some profile) = (
  contains-declared general numbered_layers profile.layers refl,
  declared-IsDistinct numbered_layers profile.layers numbered-IsDistinct,
)

available-IsDistinct :
    (config : LayeredControlConfig) (pid : ProfileId) → IsDistinct (available config pid)
unfolding available
available-IsDistinct config pid = declared_in-IsDistinct (lookup pid config.profiles)

get-index_of :
    (l : LayerId) (ls : List LayerId) (i : ℕ)
    → index_of l ls ≡ some i
    → (get_elem? ls i ≡ some l) × (i < length ls)
unfolding index_of
get-index_of l [] i h = cc
get-index_of l (x ∷ xs) zero h = ground (arith, ==_sound l x, Option-cases (index_of l xs))
get-index_of l (x ∷ xs) (suc i) h =
    ground (arith, get-index_of l xs i, Option-cases (index_of l xs))

contains-get :
    (ls : List LayerId) (i : ℕ) (l : LayerId) → get_elem? ls i ≡ some l → contains l ls ≡ true
contains-get [] i l h = cc
contains-get (x ∷ xs) zero l h = ground (arith, layer_eq.beq_iff l x)
contains-get (x ∷ xs) (suc i) l h = ground (arith, contains-get xs i l)

index_of-get :
    (ls : List LayerId) (i : ℕ) (l : LayerId)
    → IsDistinct ls
    → get_elem? ls i ≡ some l
    → index_of l ls ≡ some i
unfolding index_of
index_of-get [] i l d h = cc
index_of-get (x ∷ xs) zero l d h = ground (arith, layer_eq.beq_iff l x)
index_of-get (x ∷ xs) (suc i) l d h =
    ground (arith, ==_sound l x, contains-get xs i l, index_of-get xs i l d.1)

get_elem_below :
    (ls : List LayerId) (i : ℕ) → i < length ls → (l : LayerId) × (get_elem? ls i ≡ some l)
get_elem_below [] i h = absurd (omega arith)
get_elem_below (x ∷ xs) zero h = (x, refl)
get_elem_below (x ∷ xs) (suc i) h = get_elem_below xs i (omega arith)

layer_at-get :
    (ls : List LayerId) (i : ℕ) (l : LayerId) → get_elem? ls i ≡ some l → layer_at ls i ≡ l
layer_at-get ls i l h = ground arith

index_of-layer_at :
    (ls : List LayerId) (i : ℕ)
    → IsDistinct ls
    → i < length ls
    → index_of (layer_at ls i) ls ≡ some i
index_of-layer_at ls i d h =
    let (l, e) = get_elem_below ls i h in
    ap (λ x. index_of x ls) (layer_at-get ls i l e) ∙ index_of-get ls i l d e

layer_at-index_of :
    (ls : List LayerId) (l : LayerId) (i : ℕ) → index_of l ls ≡ some i → layer_at ls i ≡ l
layer_at-index_of ls l i h = layer_at-get ls i l (get-index_of l ls i h).0

wrap : (i n : ℕ) → i < n → (i + n) % n ≡ i
wrap i n h = add-mod_right i n ∙ mod-eq_of_lt h

-- one step forward and one back, among `n` places
step_back : (i n : ℕ) → i < n → ((i + 1) % n + n - 1) % n ≡ i
step_back i n h = elim (dec_lt (i + 1) n) [
  | yes more ↦
      let e = mod-eq_of_lt more in
      ap (λ x. (x + n - 1) % n) e ∙ ap (λ x. x % n) (omega arith) ∙ wrap i n h
  | no last ↦
      let e : i + 1 ≡ n = omega arith in
      ap (λ x. (x % n + n - 1) % n) e
      ∙ ap (λ x. (x + n - 1) % n) (mod_self n)
      ∙ mod-eq_of_lt (omega arith)
      ∙ omega arith
]

step_forth : (i n : ℕ) → i < n → ((i + n - 1) % n + 1) % n ≡ i
step_forth i n h = elim (dec_lt 0 i) [
  | yes more ↦
      let e : i + n - 1 ≡ (i - 1) + n = omega arith in
      ap (λ x. (x % n + 1) % n) e
      ∙ ap (λ x. (x + 1) % n) (wrap (i - 1) n (omega arith))
      ∙ ap (λ x. x % n) (omega arith)
      ∙ mod-eq_of_lt h
  | no first ↦
      let e : i + n - 1 ≡ n - 1 = omega arith in
      ap (λ x. (x % n + 1) % n) e
      ∙ ap (λ x. (x + 1) % n) (mod-eq_of_lt (omega arith))
      ∙ ap (λ x. x % n) (omega arith)
      ∙ mod_self n
      ∙ omega arith
]

next_index-some :
    (ls : List LayerId) (l : LayerId) (i : ℕ)
    → index_of l ls ≡ some i
    → next_index ls l ≡ (i + 1) % length ls
unfolding next_index
next_index-some ls l i h = ground arith

prev_index-some :
    (ls : List LayerId) (l : LayerId) (i : ℕ)
    → index_of l ls ≡ some i
    → prev_index ls l ≡ (i + length ls - 1) % length ls
unfolding prev_index
prev_index-some ls l i h = ground arith

module _ (ls : List LayerId) (l : LayerId) (i : ℕ) (d : IsDistinct ls)
    (h : index_of l ls ≡ some i) where
  prev_next : layer_at ls (prev_index ls (layer_at ls (next_index ls l))) ≡ l
  prev_next =
      let below = (get-index_of l ls i h).1 in
      let j = (i + 1) % length ls in
      let at = index_of-layer_at ls j d (omega arith) in
      ap (λ x. layer_at ls (prev_index ls (layer_at ls x))) (next_index-some ls l i h)
      ∙ ap (layer_at ls) (prev_index-some ls (layer_at ls j) j at ∙ step_back i (length ls) below)
      ∙ layer_at-index_of ls l i h

  next_prev : layer_at ls (next_index ls (layer_at ls (prev_index ls l))) ≡ l
  next_prev =
      let below = (get-index_of l ls i h).1 in
      let j = (i + length ls - 1) % length ls in
      let at = index_of-layer_at ls j d (omega arith) in
      ap (λ x. layer_at ls (next_index ls (layer_at ls x))) (prev_index-some ls l i h)
      ∙ ap (layer_at ls) (next_index-some ls (layer_at ls j) j at ∙ step_forth i (length ls) below)
      ∙ layer_at-index_of ls l i h

module _ {Time : Type 0} (s : ContextChangeSource) (t : Time) where
  -- where a change of layer leads, whether or not anything changes
  move_to_id :
      (layer : ActiveLayer) (c : Context Time)
      → ((move_to layer s t c).0.active_layer.id ≡ layer.id)
        × ((move_to layer s t c).0.config ≡ c.config)
        × ((move_to layer s t c).0.selected_profile ≡ c.selected_profile)
  move_to_id layer c = ground (arith, ==_sound c.active_layer.id layer.id)

  next_layer_id :
      (c : Context Time) (config : LayeredControlConfig)
      → c.config ≡ some config
      → let layers = available config c.selected_profile in
        let r = (next_layer s t c).0 in
        (r.active_layer.id ≡ layer_at layers (next_index layers c.active_layer.id))
        × (r.config ≡ some config)
        × (r.selected_profile ≡ c.selected_profile)
  unfolding next_layer
  next_layer_id c config h =
      let layers = available config c.selected_profile in
      ground
        (arith, move_to_id (plain_text (layer_at layers (next_index layers c.active_layer.id))) c)

  previous_layer_id :
      (c : Context Time) (config : LayeredControlConfig)
      → c.config ≡ some config
      → let layers = available config c.selected_profile in
        let r = (previous_layer s t c).0 in
        (r.active_layer.id ≡ layer_at layers (prev_index layers c.active_layer.id))
        × (r.config ≡ some config)
        × (r.selected_profile ≡ c.selected_profile)
  unfolding previous_layer
  previous_layer_id c config h =
      let layers = available config c.selected_profile in
      ground (arith, move_to_id (member (layer_at layers (prev_index layers c.active_layer.id))) c)

module _ {Time : Type 0} (s s' : ContextChangeSource) (t t' : Time) where
  -- If the active layer is the general one or one that the selected profile declares, then
  -- `previous_layer` undoes `next_layer`, and `next_layer` undoes `previous_layer`.
  pub layer_cycle :
      (c : Context Time) (config : LayeredControlConfig) (i : ℕ)
      → c.config ≡ some config
      → index_of c.active_layer.id (available config c.selected_profile) ≡ some i
      → ((previous_layer s' t' (next_layer s t c).0).0.active_layer.id ≡ c.active_layer.id)
        × ((next_layer s' t' (previous_layer s t c).0).0.active_layer.id ≡ c.active_layer.id)
  layer_cycle c config i h declared =
      let ls = available config c.selected_profile in
      let d = available-IsDistinct config c.selected_profile in
      let l = c.active_layer.id in
      let n = (next_layer s t c).0 in
      let p = (previous_layer s t c).0 in
      let (n_id, n_config, n_profile) = next_layer_id s t c config h in
      let (p_id, p_config, p_profile) = previous_layer_id s t c config h in
      let (np, _, _) = previous_layer_id s' t' n config n_config in
      let (pn, _, _) = next_layer_id s' t' p config p_config in
      let back = λ (pid : ProfileId) (x : LayerId).
        layer_at (available config pid) (prev_index (available config pid) x) in
      let forth = λ (pid : ProfileId) (x : LayerId).
        layer_at (available config pid) (next_index (available config pid) x) in
      (
        np
            ∙ ap (λ pid. back pid n.active_layer.id) n_profile
            ∙ ap (back c.selected_profile) n_id
            ∙ prev_next ls l i d declared,
        pn
            ∙ ap (λ pid. forth pid p.active_layer.id) p_profile
            ∙ ap (forth c.selected_profile) p_id
            ∙ next_prev ls l i d declared,
      )
