-- ===== src/Configurator/Diff/Complete.antt =====
-- What a difference of two configurations shows.
use yyr4_linux_control.Base.{
  ◌≡◌, ◌⊎◌, subst, if◌then◌else◌, refl, sym, ap, String, Bool, true, false, not, Option, none, some,
  List, [], ◌∷◌, ◌++◌, map, Eq, ◌==◌, ==_sound, string_eq, All, Bool-cases, if-eq, inl, inr, arith,
}
use yyr4_linux_control.Base.Dict.{Dict, lookup, has_key, is_some}
use yyr4_linux_control.Control.Actions.{Action}
use yyr4_linux_control.Control.Models.{
  OfficialControl, control_value, control_eq, LayerId, layer_value, layer_of-value, layer_eq,
  ProfileId, profile_eq, LayerConfig, ProfileConfig, LayeredControlConfig,
}
use yyr4_linux_control.Configurator.Serializer.{keys, concat}
use yyr4_linux_control.Configurator.Serializer.Canonical.{Both, IsSameLayer}
use yyr4_linux_control.Configurator.Serializer.Order.{sorted_by, insert_sorted, text_ltb}
use yyr4_linux_control.Configurator.Diff.{
  Difference, control_diffs, select, flat, missing, common, layer_diffs, layer_path, both_sides,
  profile_diffs, profiles_diffs, pid_value, sub_control_diffs, top_diff, diff_configs,
}
use yyr4_linux_control.Configurator.Diff.Equality.{action_eq, action_eq_sound}

append-nil : {A : Type 0} (l m : List A) → l ++ m ≡ [] → (l ≡ []) × (m ≡ [])
append-nil [] m h = (refl, h)
append-nil (a ∷ l) m h = cc

flat-nil : {A B : Type 0} (f : A → List B) (l : List A) → flat f l ≡ [] → All (λ a. f a ≡ []) l
flat-nil f [] h = tt
flat-nil f (a ∷ l) h = let (p, q) = append-nil (f a) (flat f l) h in (p, flat-nil f l q)

map-nil : {A B : Type 0} (f : A → B) (l : List A) → map f l ≡ [] → All (λ a. ⊥) l
map-nil f [] h = tt
map-nil f (a ∷ l) h = cc

module _ {K : Type 0} (P : K → Type 0) (value : K → String) where
  if-All :
      (b : Bool) (l m : List K)
      → All P (if b then l else m)
      → ((b ≡ true) × All P l) ⊎ ((b ≡ false) × All P m)
  if-All true l m h = inl (refl, h)
  if-All false l m h = inr (refl, h)

  insert_sorted-All : (k : K) (l : List K) → All P (insert_sorted value k l) → P k × All P l
  unfolding insert_sorted
  insert_sorted-All k [] h = h
  insert_sorted-All k (j ∷ l) h =
      elim (if-All (text_ltb (value j) (value k)) (j ∷ insert_sorted value k l) (k ∷ j ∷ l) h) [
        | inl (p, q) ↦ let (r, s) = insert_sorted-All k l (q.1) in (r, (q.0, s))
        | inr (p, q) ↦ q
      ]

  sorted_by-All : (l : List K) → All P (sorted_by value l) → All P l
  unfolding sorted_by
  sorted_by-All [] h = tt
  sorted_by-All (k ∷ l) h =
      let (p, q) = insert_sorted-All k (sorted_by value l) h in (p, sorted_by-All l q)

  select-All :
      (test : K → Bool) (l : List K) → All P (select test l) → All (λ k. test k ≡ true → P k) l
  select-All test [] h = tt
  select-All test (k ∷ l) h = elim (if-All (test k) (k ∷ select test l) (select test l) h) [
    | inl (p, q) ↦ ((λ t. q.0), select-All test l q.1)
    | inr (p, q) ↦ ((λ t. ground (arith, p, t)), select-All test l q)
  ]

module _ {K V : Type 0} ⦃e : Eq K⦄ (P : K → Type 0) where
  -- what holds of the keys of a dict holds of a key that is there
  keys-All : (d : Dict K V) → All P (keys d) → (k : K) → has_key k d ≡ true → P k
  unfolding lookup
  keys-All [] h k there = cc
  keys-All ((j, v) ∷ d) h k there = elim (Bool-cases (k == j)) [
    | inl p ↦ subst P (sym (==_sound k j p)) h.0
    | inr p ↦ keys-All d h.1 k (ground (arith, p, there))
  ]

module _ {K V : Type 0} ⦃e : Eq K⦄ (value : K → String) where
  -- no entry for a key that is on one side only
  map-missing :
      {B : Type 0} (f : K → B) (d d' : Dict K V)
      → map f (sorted_by value (missing d d')) ≡ []
      → (k : K) → has_key k d ≡ true
      → has_key k d' ≡ true
  map-missing f d d' h k there =
      let never =
        select-All (λ j. ⊥) value (λ j. not (has_key j d')) (keys d)
          (sorted_by-All (λ j. ⊥) value (missing d d')
            (map-nil f (sorted_by value (missing d d')) h)) in
      elim (Bool-cases (has_key k d')) [
        | inl p ↦ p
        | inr p ↦
            elim (keys-All (λ j. not (has_key j d') ≡ true → ⊥) d never k there (ap not p)) [ ]
      ]

  flat-common :
      {B : Type 0} (f : K → List B) (d d' : Dict K V)
      → flat f (sorted_by value (common d d')) ≡ []
      → (k : K) → has_key k d ≡ true
      → has_key k d' ≡ true
      → f k ≡ []
  flat-common f d d' h k there there' =
      keys-All (λ j. has_key j d' ≡ true → f j ≡ []) d
        (select-All (λ j. f j ≡ []) value (λ j. has_key j d') (keys d)
          (sorted_by-All (λ j. f j ≡ []) value (common d d')
            (flat-nil f (sorted_by value (common d d')) h)))
        k there there'

  module _ (R : V → V → Type 0) where
    both_sides-Both :
        (diff : V → V → List Difference) (o o' : Option V)
        → ((b d : V) → diff b d ≡ [] → R b d)
        → (is_some o ≡ true → is_some o' ≡ true)
        → (is_some o' ≡ true → is_some o ≡ true)
        → (is_some o ≡ true → is_some o' ≡ true → both_sides diff o o' ≡ [])
        → Both R o o'
    both_sides-Both diff none none r f g h = tt
    both_sides-Both diff none (some d) r f g h = ground (arith, g refl)
    both_sides-Both diff (some b) none r f g h = ground (arith, f refl)
    both_sides-Both diff (some b) (some d) r f g h = r b d (h refl refl)

    -- an empty difference of two dicts
    dict-Both :
        (f g : K → Difference) (diff : K → V → V → List Difference) (d d' : Dict K V)
        → ((k : K) (b c : V) → diff k b c ≡ [] → R b c)
        → map f (sorted_by value (missing d d'))
            ++ map g (sorted_by value (missing d' d))
            ++ flat
                (λ k. both_sides (diff k) (lookup k d) (lookup k d'))
                (sorted_by value (common d d'))
          ≡ []
        → (k : K) → Both R (lookup k d) (lookup k d')
    dict-Both f g diff d d' r h k =
        let (ab, c) = append-nil _ _ h in
        let (a, b) = append-nil _ _ ab in
        both_sides-Both (diff k) (lookup k d) (lookup k d') (r k) (map-missing f d d' a k)
          (map-missing g d' d b k)
          (flat-common (λ j. both_sides (diff j) (lookup j d) (lookup j d')) d d' c k)

control_diffs-nil : (cpath : String) (o o' : Option Action) → control_diffs cpath o o' ≡ [] → o ≡ o'
unfolding control_diffs
control_diffs-nil cpath none none h = refl
control_diffs-nil cpath none (some d) h = cc
control_diffs-nil cpath (some b) none h = cc
control_diffs-nil cpath (some b) (some d) h = elim (if-eq (action_eq b d) h) [
  | inl (p, q) ↦ ap some (action_eq_sound b d p)
  | inr (p, q) ↦ let (r, s) = append-nil (sub_control_diffs cpath b d) _ q in cc s
]

All-map : {A : Type 0} (P Q : A → Type 0) → ((a : A) → P a → Q a) → (l : List A) → All P l → All Q l
All-map P Q f [] h = tt
All-map P Q f (a ∷ l) h = (f a h.0, All-map P Q f l h.1)

All-split : {A : Type 0} (P : A → Type 0) (l m : List A) → All P (l ++ m) → All P l × All P m
All-split P [] m h = (tt, h)
All-split P (a ∷ l) m h = let (p, q) = All-split P l m h.1 in ((h.0, p), q)

-- a control that neither side has, or that is shown
same_if_shown :
    (o o' : Option Action)
    → (is_some o ≡ true → o ≡ o')
    → (is_some o' ≡ true → not (is_some o) ≡ true → o ≡ o')
    → o ≡ o'
same_if_shown none none f g = refl
same_if_shown (some b) o' f g = f refl
same_if_shown none (some d) f g = g refl refl

layer_diffs-nil :
    (lpath : String) (b d : LayerConfig) → layer_diffs lpath b d ≡ [] → IsSameLayer b d
unfolding layer_diffs
layer_diffs-nil lpath b d h oc =
    let P : OfficialControl → Type 0 = λ c. lookup c b.controls ≡ lookup c d.controls in
    let path : OfficialControl → String =
      λ c. concat (lpath ∷ ".controls." ∷ control_value c ∷ []) in
    let shown =
      All-map (λ c. control_diffs (path c) (lookup c b.controls) (lookup c d.controls) ≡ []) P
        (λ c. control_diffs-nil (path c) (lookup c b.controls) (lookup c d.controls))
        (keys b.controls ++ missing d.controls b.controls)
        (sorted_by-All _ control_value _ (flat-nil _ _ h)) in
    let (mine, theirs) = All-split P (keys b.controls) (missing d.controls b.controls) shown in
    let others =
      select-All P control_value (λ c. not (has_key c b.controls)) (keys d.controls) theirs in
    same_if_shown (lookup oc b.controls) (lookup oc d.controls) (keys-All P b.controls mine oc)
      (keys-All (λ c. not (has_key c b.controls) ≡ true → P c) d.controls others oc)

-- the same layers, with the same actions
abbrev pub IsSameProfile : ProfileConfig → ProfileConfig → Type 0
IsSameProfile b d = (lid : LayerId) → Both IsSameLayer (lookup lid b.layers) (lookup lid d.layers)

profile_diffs-nil :
    (pid : ProfileId) (b d : ProfileConfig) → profile_diffs pid b d ≡ [] → IsSameProfile b d
unfolding profile_diffs
profile_diffs-nil pid b d h =
    dict-Both layer_value IsSameLayer _ _ (λ lid. layer_diffs (layer_path pid lid)) b.layers
      d.layers (λ lid. layer_diffs-nil (layer_path pid lid)) h

profiles_diffs-nil :
    (b d : Dict ProfileId ProfileConfig)
    → profiles_diffs b d ≡ []
    → (pid : ProfileId) → Both IsSameProfile (lookup pid b) (lookup pid d)
unfolding profiles_diffs
profiles_diffs-nil b d h =
    dict-Both pid_value IsSameProfile _ _ profile_diffs b d profile_diffs-nil h

top_diff-nil :
    (name kind before after : String) → top_diff name kind before after ≡ [] → before ≡ after
top_diff-nil name kind before after h = elim (if-eq (before == after) h) [
  | inl (p, q) ↦ ==_sound before after p
  | inr (p, q) ↦ cc q
]

-- A difference without changes hides nothing: the two configurations have the same default profile
-- and initial layer, the same profiles, in each the same layers, and in each of these every control
-- has the same action, or none, on both sides.
pub diff_configs-Both :
    (base draft : LayeredControlConfig)
    → (diff_configs base draft).changes ≡ []
    → (base.default_profile.value ≡ draft.default_profile.value)
      × (base.initial_layer ≡ draft.initial_layer)
      × ((pid : ProfileId)
          → Both IsSameProfile (lookup pid base.profiles) (lookup pid draft.profiles))
unfolding diff_configs
diff_configs-Both base draft h =
    let (ab, c) = append-nil _ _ h in
    let (a, b) = append-nil _ _ ab in
    let l = top_diff-nil _ _ (layer_value base.initial_layer) (layer_value draft.initial_layer) a in
    (
      top_diff-nil _ _ base.default_profile.value draft.default_profile.value b,
      cc (layer_of-value base.initial_layer, layer_of-value draft.initial_layer, l),
      profiles_diffs-nil base.profiles draft.profiles c,
    )
