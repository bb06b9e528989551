-- ===== src/Base/Dict.antt =====
-- Python's dict: an association list in insertion order. Assigning to a key that is there keeps
-- its place.
use mathlib.Core.Path.{◌≡◌, refl}
use mathlib.Core.Logic.{◌≢◌, inl, inr}
use mathlib.Core.Bool.{Bool, true, false, ◌||◌}
use mathlib.Core.Option.{Option, none, some}
use mathlib.Core.List.{List, [], ◌∷◌}
use native.Mathlib.Omega.{arith}
use yyr4_linux_control.Base.Tests.{if◌then◌else◌, Bool-cases}
use yyr4_linux_control.Base.Equality.{Eq, ◌==◌, ==_refl, ==_sound}

abbrev pub Dict {ℓ κ} : Type ℓ → Type κ → Type (ℓ ⊔ κ)
Dict K V = List (K × V)

abbrev pub is_some {ℓ} : {A : Type ℓ} → Option A → Bool
is_some none = false
is_some (some _) = true

module _ {ℓ κ} {K : Type ℓ} {V : Type κ} ⦃e : Eq K⦄ where
  -- `d.get(k)`
  unfoldable pub lookup : K → Dict K V → Option V
  lookup k [] = none
  lookup k ((j, v) ∷ d) = if k == j then some v else lookup k d

  -- `k in d`
  abbrev pub has_key : K → Dict K V → Bool
  has_key k d = is_some (lookup k d)

  -- `d[k] = v`
  unfoldable pub insert : K → V → Dict K V → Dict K V
  insert k v [] = (k, v) ∷ []
  insert k v ((j, w) ∷ d) = if k == j then (j, v) ∷ d else (j, w) ∷ insert k v d

  -- `del d[k]`, `d.pop(k)`
  unfoldable pub erase : K → Dict K V → Dict K V
  erase k [] = []
  erase k ((j, w) ∷ d) = if k == j then d else (j, w) ∷ erase k d

  pub lookup-insert_self : (k : K) (v : V) (d : Dict K V) → lookup k (insert k v d) ≡ some v
  unfolding lookup insert
  lookup-insert_self k v [] = ground (arith, ==_refl k)
  lookup-insert_self k v ((j, w) ∷ d) = elim (Bool-cases (k == j)) [
    | inl p ↦ rw (p, p)
    | inr p ↦ rw (p, p) (lookup-insert_self k v d)
  ]

  pub lookup-insert_ne :
      (j k : K) (v : V) (d : Dict K V) → j ≢ k → lookup j (insert k v d) ≡ lookup j d
  unfolding lookup insert
  lookup-insert_ne j k v [] h = ground (arith, ==_sound j k)
  lookup-insert_ne j k v ((i, w) ∷ d) h =
      ground (arith, ==_sound j k, ==_sound k i, ==_sound j i, lookup-insert_ne j k v d h)

  pub lookup-insert :
      (j k : K) (v : V) (d : Dict K V)
      → lookup j (insert k v d) ≡ (if j == k then some v else lookup j d)
  lookup-insert j k v d = elim (Bool-cases (j == k)) [
    | inl p ↦ rw (p, ==_sound j k p) (lookup-insert_self k v d)
    | inr p ↦ rw p (lookup-insert_ne j k v d (λ q. ground (arith, (e.beq_iff j k).1 q)))
  ]

  pub has_key-insert :
      (j k : K) (v : V) (d : Dict K V) → has_key j (insert k v d) ≡ (j == k || has_key j d)
  has_key-insert j k v d = rw lookup-insert (ground arith)

  -- Assigning to a new key changes no other.
  pub lookup-insert_new :
      (j k : K) (v w : V) (d : Dict K V)
      → lookup j d ≡ some v
      → has_key k d ≡ false
      → lookup j (insert k w d) ≡ some v
  lookup-insert_new j k v w d h new =
      ground (arith, lookup-insert j k w d, λ (p : j == k ≡ true). ==_sound j k p)

  pub lookup-erase_ne : (j k : K) (d : Dict K V) → j ≢ k → lookup j (erase k d) ≡ lookup j d
  unfolding lookup erase
  lookup-erase_ne j k [] h = refl
  lookup-erase_ne j k ((i, w) ∷ d) h =
      ground (arith, ==_sound j k, ==_sound k i, ==_sound j i, lookup-erase_ne j k d h)
