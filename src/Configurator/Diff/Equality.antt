-- ===== src/Configurator/Diff/Equality.antt =====
-- The equality of actions, which are frozen dataclasses: the class and every field.
use yyr4_linux_control.Base.{
  ◌≡◌, refl, ap, ==_sound, arith, String, Bool, true, false, ◌&&◌, Option, none, some, List, [],
  ◌∷◌, ◌==◌, nat_eq, string_eq, ◌≡◌, ==_sound, arith,
}
use yyr4_linux_control.Base.Int.{ℤ, pos, negsuc}
use yyr4_linux_control.Control.Actions.{
  Action, Steps, hotkey, text, command, delay, macro, done, step, set_layer, next_layer,
  previous_layer, set_profile, noop, debug_log,
}

abbrev pub texts_eq : List String → List String → Bool
texts_eq [] [] = true
texts_eq (s ∷ rest) (t ∷ rest') = s == t && texts_eq rest rest'
texts_eq _ _ = false

abbrev pub timeout_eq : Option ℤ → Option ℤ → Bool
timeout_eq none none = true
timeout_eq (some (pos n)) (some (pos m)) = n == m
timeout_eq (some (negsuc n)) (some (negsuc m)) = n == m
timeout_eq _ _ = false

unfoldable mutual
  pub action_eq : Action → Action → Bool
  action_eq (hotkey s) (hotkey t) = texts_eq s t
  action_eq (text s) (text t) = s == t
  action_eq (command s n) (command t m) = texts_eq s t && timeout_eq n m
  action_eq (delay n) (delay m) = n == m
  action_eq (macro s) (macro t) = steps_eq s t
  action_eq (set_layer s) (set_layer t) = s == t
  action_eq next_layer next_layer = true
  action_eq previous_layer previous_layer = true
  action_eq (set_profile s) (set_profile t) = s == t
  action_eq noop noop = true
  action_eq (debug_log s) (debug_log t) = s == t
  action_eq _ _ = false

  pub steps_eq : Steps → Steps → Bool
  steps_eq done done = true
  steps_eq (step a s) (step b t) = action_eq a b && steps_eq s t
  steps_eq _ _ = false

texts_eq_sound : (s t : List String) → texts_eq s t ≡ true → s ≡ t
texts_eq_sound [] [] h = refl
texts_eq_sound [] (t ∷ rest) h = cc
texts_eq_sound (s ∷ rest) [] h = cc
texts_eq_sound (s ∷ rest) (t ∷ rest') h =
    let p = ==_sound s t (ground arith) in
    let q = texts_eq_sound rest rest' (ground arith) in cc (p, q)

timeout_eq_sound : (a b : Option ℤ) → timeout_eq a b ≡ true → a ≡ b
timeout_eq_sound none none h = refl
timeout_eq_sound (some (pos n)) (some (pos m)) h = cc (==_sound n m h)
timeout_eq_sound (some (negsuc n)) (some (negsuc m)) h = cc (==_sound n m h)
timeout_eq_sound _ _ h = cc

mutual
  unfolding action_eq steps_eq

  pub action_eq_sound : (a b : Action) → action_eq a b ≡ true → a ≡ b
  action_eq_sound (hotkey s) (hotkey t) h = ap hotkey (texts_eq_sound s t h)
  action_eq_sound (text s) (text t) h = ap text (==_sound s t h)
  action_eq_sound (command s n) (command t m) h =
      let p = texts_eq_sound s t (ground arith) in
      let q = timeout_eq_sound n m (ground arith) in cc (p, q)
  action_eq_sound (delay n) (delay m) h = ap delay (==_sound n m h)
  action_eq_sound (macro s) (macro t) h = ap macro (steps_eq_sound s t h)
  action_eq_sound (set_layer s) (set_layer t) h = ap set_layer (==_sound s t h)
  action_eq_sound next_layer next_layer h = refl
  action_eq_sound previous_layer previous_layer h = refl
  action_eq_sound (set_profile s) (set_profile t) h = ap set_profile (==_sound s t h)
  action_eq_sound noop noop h = refl
  action_eq_sound (debug_log s) (debug_log t) h = ap debug_log (==_sound s t h)
  action_eq_sound _ _ h = cc

  steps_eq_sound : (s t : Steps) → steps_eq s t ≡ true → s ≡ t
  steps_eq_sound done done h = refl
  steps_eq_sound (step a s) (step b t) h =
      let p = action_eq_sound a b (ground arith) in
      let q = steps_eq_sound s t (ground arith) in cc (p, q)
  steps_eq_sound _ _ h = cc
