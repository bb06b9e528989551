-- ===== src/Configurator/Diff.antt =====
-- configurator/diff.py: `diff_configs`, and what it calls.
pub mod Equality
pub mod Complete
mod Tests
use yyr4_linux_control.Base.{
  ℕ, zero, suc, ◌+◌, String, Bool, true, false, not, Option, none, some, List, [], ◌∷◌, ◌++◌, map,
  ◌==◌, Eq, string_eq, leb, if◌then◌else◌,
}
use yyr4_linux_control.Base.Dict.{Dict, lookup, has_key}
use yyr4_linux_control.Base.Text.{joined, join}
use yyr4_linux_control.Control.Actions.{
  Action, Steps, hotkey, text, command, delay, macro, done, step, set_layer, next_layer,
  previous_layer, set_profile, noop, debug_log,
}
use yyr4_linux_control.Control.Models.{
  OfficialControl, control_value, control_eq, LayerId, layer_value, layer_eq, ProfileId, profile_eq,
  LayerConfig, ProfileConfig, LayeredControlConfig,
}
use yyr4_linux_control.Configurator.Save.{prefix}
use yyr4_linux_control.Configurator.Serializer.{keys, concat}
use yyr4_linux_control.Configurator.Serializer.Order.{sorted_by}
use yyr4_linux_control.Configurator.Serializer.Strings.{decimal_text}
use yyr4_linux_control.Configurator.Diff.Equality.{action_eq}

-- the labels, by their place in `_RISK_ORDER`
pub data Risk : Type 0 where
  low medium high : Risk

abbrev pub risk_order : Risk → ℕ
risk_order low = 0
risk_order medium = 1
risk_order high = 2

-- `ProfileDiff`, `LayerDiff` and `ControlDiff`, which have the same fields
pub record Difference : Type 0 where
  pub path : String
  pub kind : String
  pub before_summary : String
  pub after_summary : String
  pub risk : Risk

pub record ConfigDiff : Type 0 where
  pub changes : List Difference
  pub default_profile_changed : Option (String × String)
  pub initial_layer_changed : Option (String × String)
  pub risk_summary : Risk

abbrev pub difference : String → String → String → String → Risk → Difference
difference path kind before after risk = record {
  path = path;
  kind = kind;
  before_summary = before;
  after_summary = after;
  risk = risk;
}

abbrev pub count_steps : Steps → ℕ
count_steps done = 0
count_steps (step s rest) = suc (count_steps rest)

-- `argv[0]`, of a list that is not empty
abbrev pub first_arg : List String → String
first_arg [] = ""
first_arg (s ∷ rest) = s

unfoldable pub summarize : Action → String
summarize (hotkey names) = joined "Hotkey: " (join "+" names)
summarize (text value) = joined "Text: " (prefix 40 value)
summarize (command argv timeout_seconds) = joined "Command: " (first_arg argv)
summarize (delay milliseconds) = concat ("Delay: " ∷ decimal_text milliseconds ∷ "ms" ∷ [])
summarize (macro steps) = concat ("Macro: " ∷ decimal_text (count_steps steps) ∷ " steps" ∷ [])
summarize noop = "NoOp"
summarize (debug_log message) = "DebugLog"
summarize (set_layer layer) = joined "SetLayer → " layer
summarize next_layer = "NextLayer"
summarize previous_layer = "PreviousLayer"
summarize (set_profile profile) = joined "SetProfile → " profile

abbrev pub risk_action : Action → Risk
risk_action (command argv timeout_seconds) = high
risk_action (set_profile profile) = medium
risk_action action = low

abbrev pub max_risk : Risk → Risk → Risk
max_risk a b = if leb (risk_order b) (risk_order a) then a else b

abbrev pub step_path : String → ℕ → String
step_path cpath i = concat (cpath ∷ ".steps[" ∷ decimal_text i ∷ "]" ∷ [])

-- the steps that are left on the two sides, from step i on
unfoldable pub step_diffs : String → ℕ → Steps → Steps → List Difference
step_diffs cpath i done done = []
step_diffs cpath i done (step d rest) =
    difference (step_path cpath i) "macro_step_added" "(none)" (summarize d) (risk_action d)
    ∷ step_diffs cpath (i + 1) done rest
step_diffs cpath i (step b rest) done =
    difference (step_path cpath i) "macro_step_removed" (summarize b) "(none)" medium
    ∷ step_diffs cpath (i + 1) rest done
step_diffs cpath i (step b bs) (step d ds) =
    let later = step_diffs cpath (i + 1) bs ds in
    if action_eq b d
    then later
    else difference (step_path cpath i) "macro_step_changed" (summarize b) (summarize d)
        (max_risk (risk_action b) (risk_action d))
      ∷ later

abbrev pub target_diff : String → String → String → String → List Difference
target_diff cpath label before after =
    if before == after
    then []
    else difference cpath "runtime_target_changed" (joined label before) (joined label after) medium
      ∷ []

-- `_sub_control_diffs`
unfoldable pub sub_control_diffs : String → Action → Action → List Difference
sub_control_diffs cpath (macro b) (macro d) = step_diffs cpath 0 b d
sub_control_diffs cpath (set_layer b) (set_layer d) = target_diff cpath "SetLayer → " b d
sub_control_diffs cpath (set_profile b) (set_profile d) = target_diff cpath "SetProfile → " b d
sub_control_diffs cpath b d = []

-- a control of both layers
unfoldable pub control_diffs : String → Option Action → Option Action → List Difference
control_diffs cpath none none = []
control_diffs cpath none (some d) =
    difference cpath "control_mapped" "UNMAPPED" (summarize d) (risk_action d) ∷ []
control_diffs cpath (some b) none =
    difference cpath "control_unmapped" (summarize b) "UNMAPPED" medium ∷ []
control_diffs cpath (some b) (some d) =
    if action_eq b d
    then []
    else sub_control_diffs cpath b d
      ++ difference cpath "control_action_changed" (summarize b) (summarize d)
          (max_risk (risk_action b) (risk_action d))
        ∷ []

abbrev pub select {ℓ} : {A : Type ℓ} → (A → Bool) → List A → List A
select test [] = []
select test (a ∷ rest) = if test a then a ∷ select test rest else select test rest

abbrev pub flat : {A B : Type 0} → (A → List B) → List A → List B
flat f [] = []
flat f (a ∷ rest) = f a ++ flat f rest

module _ {K V : Type 0} ⦃e : Eq K⦄ where
  -- `set(d) - set(d')` and `set(d) & set(d')`
  abbrev pub missing : Dict K V → Dict K V → List K
  missing d d' = select (λ k. not (has_key k d')) (keys d)

  abbrev pub common : Dict K V → Dict K V → List K
  common d d' = select (λ k. has_key k d') (keys d)

-- the loop over the controls of a layer that is on both sides
unfoldable pub layer_diffs : String → LayerConfig → LayerConfig → List Difference
layer_diffs lpath b d =
    flat
      (λ oc.
        control_diffs (concat (lpath ∷ ".controls." ∷ control_value oc ∷ [])) (lookup oc b.controls)
          (lookup oc d.controls))
      (sorted_by control_value (keys b.controls ++ missing d.controls b.controls))

abbrev pub layer_path : ProfileId → LayerId → String
layer_path pid lid = concat ("profiles." ∷ pid.value ∷ ".layers." ∷ layer_value lid ∷ [])

-- the entries of a key on both sides
abbrev pub both_sides :
    {V : Type 0} → (V → V → List Difference) → Option V → Option V → List Difference
both_sides diff (some b) (some d) = diff b d
both_sides diff _ _ = []

unfoldable pub profile_diffs : ProfileId → ProfileConfig → ProfileConfig → List Difference
profile_diffs pid b d =
    map
      (λ lid.
        difference (layer_path pid lid) "layer_removed" (joined "Layer " (layer_value lid))
          "(removed)" high)
      (sorted_by layer_value (missing b.layers d.layers))
    ++ map
        (λ lid.
          difference (layer_path pid lid) "layer_added" "(new)" (joined "Layer " (layer_value lid))
            medium)
        (sorted_by layer_value (missing d.layers b.layers))
    ++ flat
        (λ lid.
          both_sides (layer_diffs (layer_path pid lid)) (lookup lid b.layers) (lookup lid d.layers))
        (sorted_by layer_value (common b.layers d.layers))

abbrev pub pid_value : ProfileId → String
pid_value p = p.value

unfoldable pub profiles_diffs :
    Dict ProfileId ProfileConfig → Dict ProfileId ProfileConfig → List Difference
profiles_diffs b d =
    map
      (λ pid.
        difference (joined "profiles." (pid_value pid)) "profile_removed"
          (joined "Profile " (pid_value pid)) "(removed)" high)
      (sorted_by pid_value (missing b d))
    ++ map
        (λ pid.
          difference (joined "profiles." (pid_value pid)) "profile_added" "(new)"
            (joined "Profile " (pid_value pid)) medium)
        (sorted_by pid_value (missing d b))
    ++ flat (λ pid. both_sides (profile_diffs pid) (lookup pid b) (lookup pid d))
        (sorted_by pid_value (common b d))

-- a field of the top level, whose entry is put before the others
abbrev pub top_diff : String → String → String → String → List Difference
top_diff name kind before after =
    if before == after then [] else difference name kind before after medium ∷ []

abbrev pub changed_pair : String → String → Option (String × String)
changed_pair before after = if before == after then none else some (before, after)

abbrev pub worst : List Difference → Risk
worst [] = low
worst (c ∷ rest) = max_risk c.risk (worst rest)

abbrev pub all_changes : LayeredControlConfig → LayeredControlConfig → List Difference
all_changes base draft =
    top_diff "initial_layer" "initial_layer_changed" (layer_value base.initial_layer)
      (layer_value draft.initial_layer)
    ++ top_diff "default_profile" "default_profile_changed" base.default_profile.value
        draft.default_profile.value
    ++ profiles_diffs base.profiles draft.profiles

unfoldable pub diff_configs : LayeredControlConfig → LayeredControlConfig → ConfigDiff
diff_configs base draft = record {
  changes = all_changes base draft;
  default_profile_changed = changed_pair base.default_profile.value draft.default_profile.value;
  initial_layer_changed =
      changed_pair (layer_value base.initial_layer) (layer_value draft.initial_layer);
  risk_summary = worst (all_changes base draft);
}
