-- ===== src/Configurator/Serializer/Canonical.antt =====
-- Configurations that differ in nothing but the order of their dicts, and their texts.
use mathlib.Core.List.{Permᴰ}
use yyr4_linux_control.Base.{
  ◌≡◌, refl, ap, ◌∙◌, String, Option, none, some, List, [], ◌∷◌, map, Eq, ⊤,
}
use yyr4_linux_control.Base.Dict.{Dict, lookup}
use yyr4_linux_control.Base.Text.{joined}
use yyr4_linux_control.Control.Models.{
  OfficialControl, control_eq, all_controls, LayerId, layer_value, layer_of-value, layer_eq,
  ProfileId, profile_eq, LayerConfig, ProfileConfig, LayeredControlConfig,
}
use yyr4_linux_control.Configurator.Serializer.{
  serialize, keys, concat, control_line, layer_lines, layer_part, profile_lines, profile_part,
  document_text, sorted_profiles,
}
use yyr4_linux_control.Configurator.Serializer.Order.{sorted_by, sorted_by-Perm}

-- Both are there and related, or neither is.
abbrev pub Both : {A : Type 0} → (A → A → Type 0) → Option A → Option A → Type 0
Both R none none = ⊤
Both R (some a) (some b) = R a b
Both R _ _ = ⊥

-- the same keys in some order, with related values
abbrev pub IsSameDict : {K V : Type 0} ⦃e : Eq K⦄ → (V → V → Type 0) → Dict K V → Dict K V → Type 0
IsSameDict R d d' = Permᴰ (keys d) (keys d') × ((k : _) → Both R (lookup k d) (lookup k d'))

abbrev pub IsSameLayer : LayerConfig → LayerConfig → Type 0
IsSameLayer l l' = (oc : OfficialControl) → lookup oc l.controls ≡ lookup oc l'.controls

abbrev pub IsSameProfile : ProfileConfig → ProfileConfig → Type 0
IsSameProfile p p' = IsSameDict IsSameLayer p.layers p'.layers

pub record IsSameConfig (c c' : LayeredControlConfig) : Type 0 where
  pub same_version : c.schema_version ≡ c'.schema_version
  pub same_profile : c.default_profile ≡ c'.default_profile
  pub same_layer : c.initial_layer ≡ c'.initial_layer
  pub same_profiles : IsSameDict IsSameProfile c.profiles c'.profiles

map_same : {A B : Type 0} (f g : A → B) → ((a : A) → f a ≡ g a) → (l : List A) → map f l ≡ map g l
map_same f g h [] = refl
map_same f g h (a ∷ l) = cc (h a, map_same f g h l)

layer_value_injective : (a b : LayerId) → layer_value a ≡ layer_value b → a ≡ b
layer_value_injective a b p = cc (layer_of-value a, layer_of-value b, p)

layer_lines_same :
    (prefix : String) (l l' : LayerConfig)
    → IsSameLayer l l'
    → layer_lines prefix l ≡ layer_lines prefix l'
layer_lines_same prefix l l' h =
    ap concat (map_same _ _ (λ oc. ap (control_line prefix oc) (h oc)) all_controls)

layer_part_same :
    (prefix : String) (lid : LayerId) (o o' : Option LayerConfig)
    → Both IsSameLayer o o'
    → layer_part prefix lid o ≡ layer_part prefix lid o'
layer_part_same prefix lid none none h = refl
layer_part_same prefix lid none (some l') h = elim h [ ]
layer_part_same prefix lid (some l) none h = elim h [ ]
layer_part_same prefix lid (some l) (some l') h = layer_lines_same _ l l' h

profile_lines_same :
    (pid : ProfileId) (p p' : ProfileConfig)
    → IsSameProfile p p'
    → profile_lines pid p ≡ profile_lines pid p'
profile_lines_same pid p p' (perm, values) = ap concat (
    map_same _ _
      (λ lid.
        layer_part_same (joined "profiles." pid.value) lid (lookup lid p.layers)
          (lookup lid p'.layers) (values lid))
      (sorted_by layer_value (keys p.layers))
    ∙ ap (map _) (sorted_by-Perm layer_value layer_value_injective perm))

profile_part_same :
    (pid : ProfileId) (o o' : Option ProfileConfig)
    → Both IsSameProfile o o'
    → profile_part pid o ≡ profile_part pid o'
profile_part_same pid none none h = refl
profile_part_same pid none (some p') h = elim h [ ]
profile_part_same pid (some p) none h = elim h [ ]
profile_part_same pid (some p) (some p') h = ap (joined "\n") (profile_lines_same pid p p' h)

-- Two configurations that differ in nothing but the order in which their profiles, layers and
-- controls were added have the same text.
pub serialize-IsSameConfig :
    (c c' : LayeredControlConfig) → IsSameConfig c c' → serialize c ≡ serialize c'
unfolding serialize
serialize-IsSameConfig c c' same =
    let (perm, values) = same.same_profiles in
    let parts =
      map_same _ _
        (λ pid. profile_part_same pid (lookup pid c.profiles) (lookup pid c'.profiles) (values pid))
        (sorted_profiles c)
      ∙ ap (map (λ pid. profile_part pid (lookup pid c'.profiles)))
          (sorted_by-Perm (λ (p : ProfileId). p.value) (λ a b p i. record { value = p i }) perm) in
    λ i. document_text (same.same_version i) (same.same_profile i) (same.same_layer i) (parts i)
