-- ===== src/Control/Flatten/Spec.antt =====
-- What `flatten` computes: the simple actions of a macro from left to right, exactly when its
-- nesting and its length are within the limits.
use Prim.Native.Nat.{max}
use mathlib.Core.List.{append_assoc, append-nil}
use yyr4_linux_control.Base.{
  ℕ, ◌+◌, ◌≤◌, ◌≡◌, refl, ap, sym, ◌↔◌, ◌∙◌, true, false, List, [], ◌∷◌, ◌++◌, length,
  length-append, All, All-append, Result, ok, err, arith, ltb, ok-injective,
}
use yyr4_linux_control.Control.Actions.{Action, Steps, macro, done, step, is_macro}
use yyr4_linux_control.Control.Flatten.{
  MacroError, depth_exceeded, guarded, extend, flatten, flatten_steps,
}

unfoldable mutual
  pub leaves : Action → List Action
  leaves (macro steps) = leaves_steps steps
  leaves a = a ∷ []

  pub leaves_steps : Steps → List Action
  leaves_steps done = []
  leaves_steps (step a steps) = leaves a ++ leaves_steps steps

-- how deep macros are nested
unfoldable mutual
  pub height : Action → ℕ
  height (macro steps) = height_steps steps
  height a = 0

  pub height_steps : Steps → ℕ
  height_steps done = 0
  height_steps (step a steps) = max (height a + 1) (height_steps steps)

abbrev pub IsSimple : Action → Type 0
IsSimple a = is_macro a ≡ false

mutual
  unfolding leaves leaves_steps

  pub leaves-IsSimple : (a : Action) → All IsSimple (leaves a)
  leaves-IsSimple (macro steps) = leaves_steps-IsSimple steps
  leaves-IsSimple a = (refl, tt)

  leaves_steps-IsSimple : (steps : Steps) → All IsSimple (leaves_steps steps)
  leaves_steps-IsSimple done = tt
  leaves_steps-IsSimple (step a steps) =
      All-append IsSimple (leaves a) (leaves_steps steps) (leaves-IsSimple a)
        (leaves_steps-IsSimple steps)

pub leaves_simple : (a : Action) → is_macro a ≡ false → leaves a ≡ a ∷ []
unfolding leaves
leaves_simple (macro steps) h = cc
leaves_simple a h = refl

module _ (depth_limit step_limit : ℕ) where
  -- `flatten` at these limits
  abbrev run : Action → ℕ → Result MacroError (List Action)
  run = flatten depth_limit step_limit

  abbrev run_steps : Steps → ℕ → List Action → Result MacroError (List Action)
  run_steps = flatten_steps depth_limit step_limit

  within_ok :
      (depth : ℕ) (r : Result MacroError (List Action)) {l : List Action}
      → guarded (ltb depth_limit depth) depth_exceeded r ≡ ok l
      → (depth ≤ depth_limit) × (r ≡ ok l)
  within_ok depth r h = (ground arith, ground arith)

  leaf_ok :
      (a : Action) (depth : ℕ) (l : List Action)
      → guarded (ltb depth_limit depth) depth_exceeded (ok (a ∷ [])) ≡ ok l
      → (l ≡ a ∷ []) × (depth + 0 ≤ depth_limit)
  leaf_ok a depth l h = (ground arith, ground arith)

  extend_ok :
      (flat : List Action) (r : Result MacroError (List Action))
      (rest : List Action → Result MacroError (List Action)) {l : List Action}
      → extend depth_limit step_limit flat r rest ≡ ok l
      → (new : List Action) × (r ≡ ok new)
        × (length (flat ++ new) ≤ step_limit)
        × (rest (flat ++ new) ≡ ok l)
  extend_ok flat (err e) rest h = cc
  extend_ok flat (ok new) rest h = (new, refl, ground arith, ground arith)

  mutual
    unfolding flatten flatten_steps leaves leaves_steps height height_steps

    sound :
        (a : Action) (depth : ℕ) (l : List Action)
        → run a depth ≡ ok l
        → (l ≡ leaves a)
          × (depth + height a ≤ depth_limit)
          × (is_macro a ≡ true → length l ≤ step_limit)
    sound (macro steps) depth l h =
        let (within, h') = within_ok depth (run_steps steps depth []) h in
        let (e, d, len) = sound_steps steps depth [] l within (omega arith) h' in (e, d, λ _. len)
    sound a depth l h = let (e, d) = leaf_ok a depth l h in (e, d, λ p. cc)

    sound_steps :
        (steps : Steps) (depth : ℕ) (flat l : List Action)
        → depth ≤ depth_limit
        → length flat ≤ step_limit
        → run_steps steps depth flat ≡ ok l
        → (l ≡ flat ++ leaves_steps steps)
          × (depth + height_steps steps ≤ depth_limit)
          × (length l ≤ step_limit)
    sound_steps done depth flat l d n h =
        let e : flat ≡ l = ok-injective h in
        (sym e ∙ sym (append-nil flat), omega arith, omega (arith, ap length e))
    sound_steps (step a steps) depth flat l d n h =
        let rest = λ (longer : List Action). run_steps steps depth longer in
        let (new, e, n', h') = extend_ok flat (run a (depth + 1)) rest h in
        let (is_new, da, _) = sound a (depth + 1) new e in
        let (is_l, ds, nl) = sound_steps steps depth (flat ++ new) l d n' h' in
        (
          is_l
              ∙ append_assoc flat new (leaves_steps steps)
              ∙ ap (λ x. flat ++ (x ++ leaves_steps steps)) is_new,
          omega arith,
          nl,
        )

  within_limit :
      (depth : ℕ) (r : Result MacroError (List Action))
      → depth ≤ depth_limit
      → guarded (ltb depth_limit depth) depth_exceeded r ≡ r
  within_limit depth r h = ground arith

  extend_within :
      (flat new : List Action) (rest : List Action → Result MacroError (List Action))
      → length (flat ++ new) ≤ step_limit
      → extend depth_limit step_limit flat (ok new) rest ≡ rest (flat ++ new)
  extend_within flat new rest h = ground arith

  mutual
    unfolding flatten flatten_steps leaves leaves_steps height height_steps

    complete :
        (a : Action) (depth : ℕ)
        → depth + height a ≤ depth_limit
        → (is_macro a ≡ true → length (leaves a) ≤ step_limit)
        → run a depth ≡ ok (leaves a)
    complete (macro steps) depth d n =
        within_limit depth (run_steps steps depth []) (omega arith)
        ∙ complete_steps steps depth [] d (n refl)
    complete a depth d n = within_limit depth (ok (a ∷ [])) (omega arith)

    complete_steps :
        (steps : Steps) (depth : ℕ) (flat : List Action)
        → depth + height_steps steps ≤ depth_limit
        → length (flat ++ leaves_steps steps) ≤ step_limit
        → run_steps steps depth flat ≡ ok (flat ++ leaves_steps steps)
    complete_steps done depth flat d n = ap ok (sym (append-nil flat))
    complete_steps (step a steps) depth flat d n =
        let regroup = append_assoc flat (leaves a) (leaves_steps steps) in
        let total = length-append (flat ++ leaves a) (leaves_steps steps) in
        let part = length-append flat (leaves a) in
        let whole = ap length regroup in
        let rest = λ (longer : List Action). run_steps steps depth longer in
        let head = complete a (depth + 1) (omega arith) (λ p. omega (arith, total, part, whole)) in
        ap (λ r. extend depth_limit step_limit flat r rest) head
        ∙ extend_within flat (leaves a) rest (omega (arith, total, whole))
        ∙ complete_steps steps depth (flat ++ leaves a) (omega arith) (omega (arith, whole))
        ∙ ap ok regroup

  -- `flatten` returns exactly the simple actions of an action from left to right, and returns at all
  -- exactly when the nesting fits the depth limit and, for a macro, their number fits the step
  -- limit.
  pub flatten_iff :
      (a : Action) (l : List Action)
      → (flatten depth_limit step_limit a 0 ≡ ok l)
        ↔ ((l ≡ leaves a) × (height a ≤ depth_limit) × (is_macro a ≡ true → length l ≤ step_limit))
  flatten_iff a l = (
    (λ h. let (e, d, n) = sound a 0 l h in (e, omega arith, n)),
    (λ (e, d, n).
        complete a 0 (omega arith) (λ p. omega (arith, n p, ap length e)) ∙ ap ok (sym e)),
  )
