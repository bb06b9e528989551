-- ===== src/Control/Resolver/Laws.antt =====
-- What the layered resolver answers.
use Prim.Native.Nat.{max}
use yyr4_linux_control.Base.{
  ◌≤◌, ◌≡◌, ◌≢◌, refl, ap, ◌∙◌, subst, sym, Result-cases, String, Option, none, some, List, [],
  length, All, ==_refl, ==_sound, Result, ok, err, arith, Bool-cases, inl, inr, Option-cases,
}
use yyr4_linux_control.Base.Dict.{Dict, lookup, insert, lookup-insert_ne, lookup-insert_self}
use yyr4_linux_control.Domain.Validity.{phase-cases}
use yyr4_linux_control.Domain.{down}
use yyr4_linux_control.Control.Actions.{Action, is_macro}
use yyr4_linux_control.Control.Models.{
  OfficialControl, control_eq, layer_eq, profile_eq, OfficialControlEvent, LayerId, general,
  ProfileId, LayerConfig, ProfileConfig, LayeredControlConfig,
}
use yyr4_linux_control.Control.Flatten.{flatten}
use yyr4_linux_control.Control.Flatten.Spec.{leaves_simple, leaves-IsSimple, IsSimple, flatten_iff}
use yyr4_linux_control.Control.Resolver.{
  ActionPlan, unmapped, configured, ResolveError, resolution_error, unmapped_plan, Limits, resolve,
  resolve_single, find_action, action_in, with_source, configured_plan, synthetic_config,
  unknown_profile,
}

-- The plan of an action that is found at a source: its simple actions, or the macro's error.
abbrev pub plan_of : Limits → OfficialControl → Action → String → Result ResolveError ActionPlan
plan_of limits control action source =
    elim (flatten limits.max_macro_depth limits.max_macro_steps action 0) [
      | err e ↦ err (resolution_error e)
      | ok steps ↦ ok (record {
        control = control;
        resolution_status = configured;
        steps = steps;
        mapping_source = some source;
      })
    ]

-- A press in a profile that the configuration has runs what the active layer binds to the control;
-- if that binds nothing, what the general layer binds; and if neither does, nothing.
pub resolve_priority :
    (limits : Limits) (config : LayeredControlConfig) (event : OfficialControlEvent)
    (profile_id : ProfileId) (layer_id : LayerId) (profile : ProfileConfig)
    → event.phase ≡ down
    → lookup profile_id config.profiles ≡ some profile
    → resolve limits config event profile_id layer_id
      ≡ elim (action_in profile layer_id event.control) [
        | some action ↦ plan_of limits event.control action "active_layer"
        | none ↦ elim (action_in profile general event.control) [
          | some action ↦ plan_of limits event.control action "general_fallback"
          | none ↦ ok (unmapped_plan event.control (some "unmapped"))
        ]
      ]
unfolding resolve lookup
resolve_priority limits config event profile_id layer_id profile phase known = ground (
  arith,
  ==_refl event.control,
  ==_sound layer_id general,
  λ (e : layer_id ≡ general). ap (λ l. action_in profile l event.control) e,
)

-- Only simple actions, at most as many as the limit or one, and none if unmapped.
abbrev pub IsRunnable : Limits → ActionPlan → Type 0
IsRunnable limits plan =
    All IsSimple plan.steps
    × (length plan.steps ≤ max 1 limits.max_macro_steps)
    × (plan.resolution_status ≡ unmapped → plan.steps ≡ [])

flatten-IsRunnable :
    (limits : Limits) (a : Action) (l : List Action)
    → flatten limits.max_macro_depth limits.max_macro_steps a 0 ≡ ok l
    → All IsSimple l × (length l ≤ max 1 limits.max_macro_steps)
flatten-IsRunnable limits a l h =
    let (e, d, n) = (flatten_iff limits.max_macro_depth limits.max_macro_steps a l).0 h in
    let count : length l ≤ max 1 limits.max_macro_steps = elim (Bool-cases (is_macro a)) [
      | inl m ↦ omega (arith, n m)
      | inr s ↦ omega (arith, ap length (e ∙ leaves_simple a s))
    ] in
    (rw e (leaves-IsSimple a), count)

abbrev Runs : Limits → Result ResolveError ActionPlan → Type 0
Runs limits (ok plan) = IsRunnable limits plan
Runs limits (err e) = Unit

unmapped-Runs :
    (limits : Limits) (c : OfficialControl) (source : Option String)
    → Runs limits (ok (unmapped_plan c source))
unmapped-Runs limits c source = (tt, omega arith, λ _. refl)

configured-Runs :
    (limits : Limits) (c : OfficialControl) (a : Action)
    → Runs limits (configured_plan c (flatten limits.max_macro_depth limits.max_macro_steps a 0))
configured-Runs limits c a =
    elim (Result-cases (flatten limits.max_macro_depth limits.max_macro_steps a 0)) [
      | inl (l, e) ↦
          let (simple, count) = flatten-IsRunnable limits a l e in rw e (simple, count, λ p. cc)
      | inr (m, e) ↦ rw e tt
    ]

Runs-eq :
    (limits : Limits) {r s : Result ResolveError ActionPlan} → r ≡ s → Runs limits s → Runs limits r
Runs-eq limits e h = subst (Runs limits) (sym e) h

resolve_single-Runs :
    (limits : Limits) (config : Dict OfficialControl Action) (event : OfficialControlEvent)
    → Runs limits (resolve_single limits config event)
resolve_single-Runs limits config event = elim (phase-cases event.phase) [
  | inr p ↦
      Runs-eq limits {s = ok (unmapped_plan event.control none)}
        (unfold resolve_single in ground arith) (unmapped-Runs limits event.control none)
  | inl p ↦ elim (Option-cases (lookup event.control config)) [
    | inl e ↦
        Runs-eq limits {s = ok (unmapped_plan event.control none)}
          (unfold resolve_single in ground arith) (unmapped-Runs limits event.control none)
    | inr (a, e) ↦
        Runs-eq limits
          {s = configured_plan event.control
            (flatten limits.max_macro_depth limits.max_macro_steps a 0)}
          (unfold resolve_single in ground arith) (configured-Runs limits event.control a)
  ]
]

with_source-Runs :
    (limits : Limits) (source : String) (r : Result ResolveError ActionPlan)
    → Runs limits r
    → Runs limits (with_source source r)
with_source-Runs limits source (ok plan) h = h
with_source-Runs limits source (err e) h = tt

-- the part of `resolve` behind the lookup of the profile
resolve_in :
    Limits → ProfileConfig → OfficialControlEvent → LayerId → Result ResolveError ActionPlan
resolve_in limits profile event layer_id =
    let (action, source) = find_action profile layer_id event.control in
    with_source source (resolve_single limits (synthetic_config event.control action) event)

resolve_in-Runs :
    (limits : Limits) (profile : ProfileConfig) (event : OfficialControlEvent) (layer_id : LayerId)
    → Runs limits (resolve_in limits profile event layer_id)
unfolding resolve_in
resolve_in-Runs limits profile event layer_id =
    let (action, source) = find_action profile layer_id event.control in
    with_source-Runs limits source
      (resolve_single limits (synthetic_config event.control action) event)
      (resolve_single-Runs limits (synthetic_config event.control action) event)

resolve-Runs :
    (limits : Limits) (config : LayeredControlConfig) (event : OfficialControlEvent)
    (profile_id : ProfileId) (layer_id : LayerId)
    → Runs limits (resolve limits config event profile_id layer_id)
resolve-Runs limits config event profile_id layer_id = elim (phase-cases event.phase) [
  | inr p ↦
      Runs-eq limits {s = ok (unmapped_plan event.control (some "unmapped"))}
        (unfold resolve in ground arith) (unmapped-Runs limits event.control (some "unmapped"))
  | inl p ↦ elim (Option-cases (lookup profile_id config.profiles)) [
    | inl e ↦
        Runs-eq limits {s = err (unknown_profile profile_id)} (unfold resolve in ground arith) tt
    | inr (profile, e) ↦
        Runs-eq limits {s = resolve_in limits profile event layer_id}
          (unfold resolve resolve_in in ground arith)
          (resolve_in-Runs limits profile event layer_id)
  ]
]

-- Whatever is resolved, the plan's steps are simple actions, as many as the step limit allows or
-- one, and a plan that is unmapped has none.
pub resolve-IsRunnable :
    (limits : Limits) (config : LayeredControlConfig) (event : OfficialControlEvent)
    (profile_id : ProfileId) (layer_id : LayerId) {plan : ActionPlan}
    → resolve limits config event profile_id layer_id ≡ ok plan
    → IsRunnable limits plan
resolve-IsRunnable limits config event profile_id layer_id {plan} h =
    subst (Runs limits) h (resolve-Runs limits config event profile_id layer_id)

-- A change to another profile, whatever it is, changes no resolution.
pub resolve-insert_profile :
    (limits : Limits) (config : LayeredControlConfig) (event : OfficialControlEvent)
    (profile_id other : ProfileId) (layer_id : LayerId) (changed : ProfileConfig)
    → profile_id ≢ other
    → resolve limits
        (record config { profiles = insert other changed config.profiles })
        event
        profile_id
        layer_id
      ≡ resolve limits config event profile_id layer_id
unfolding resolve
resolve-insert_profile limits config event profile_id other layer_id changed h =
    ground (arith, lookup-insert_ne profile_id other changed config.profiles h)

-- A change to a layer that is neither the active one nor the general one changes no resolution.
pub resolve-insert_layer :
    (limits : Limits) (config : LayeredControlConfig) (event : OfficialControlEvent)
    (profile_id : ProfileId) (layer_id other : LayerId) (profile : ProfileConfig)
    (changed : LayerConfig)
    → lookup profile_id config.profiles ≡ some profile
    → layer_id ≢ other
    → general ≢ other
    → resolve limits
        (record config {
          profiles =
              insert profile_id
                (record profile { layers = insert other changed profile.layers })
                config.profiles;
        })
        event
        profile_id
        layer_id
      ≡ resolve limits config event profile_id layer_id
unfolding resolve action_in
resolve-insert_layer limits config event profile_id layer_id other profile changed known h g =
    ground (
      arith,
      lookup-insert_self profile_id
          (record profile { layers = insert other changed profile.layers }) config.profiles,
      lookup-insert_ne layer_id other changed profile.layers h,
      lookup-insert_ne general other changed profile.layers g,
    )
