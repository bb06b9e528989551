-- ===== src/Base/DictEdits.antt =====
-- Dict comprehensions, on dicts whose keys are all different: filtering out a key, renaming a key,
-- changing every value; and predicates over the values.
use mathlib.Core.Path.{◌≡◌, refl, subst}
use mathlib.Core.Logic.{◌≢◌, inl, inr}
use mathlib.Core.Bool.{true}
use mathlib.Core.Option
use mathlib.Core.Option.{Option, none, some}
use mathlib.Core.List.{[], ◌∷◌}
use native.Mathlib.Omega.{arith}
use yyr4_linux_control.Base.Tests.{if◌then◌else◌, Bool-cases}
use yyr4_linux_control.Base.Equality.{Eq, ◌==◌, ==_refl, ==_sound}
use yyr4_linux_control.Base.Dict.{Dict, lookup, insert, has_key}

module _ {K V : Type 0} where
  -- `{k: f(v) for k, v in d.items()}`
  unfoldable pub map_values : (V → V) → Dict K V → Dict K V
  map_values f [] = []
  map_values f ((k, v) ∷ d) = (k, f v) ∷ map_values f d

  abbrev pub AllValues : (V → Type 0) → Dict K V → Type 0
  AllValues P [] = Unit
  AllValues P ((k, v) ∷ d) = P v × AllValues P d

  pub AllValues-map_values :
      (P : V → Type 0) (f : V → V) (d : Dict K V)
      → ((v : V) → P v → P (f v))
      → AllValues P d
      → AllValues P (map_values f d)
  unfolding map_values
  AllValues-map_values P f [] keeps h = tt
  AllValues-map_values P f ((k, v) ∷ d) keeps (p, ps) =
      (keeps v p, AllValues-map_values P f d keeps ps)

module _ {K V : Type 0} ⦃e : Eq K⦄ where
  -- `{j: v for j, v in d.items() if j != k}`
  unfoldable pub without : K → Dict K V → Dict K V
  without k [] = []
  without k ((j, v) ∷ d) = let rest = without k d in if j == k then rest else (j, v) ∷ rest

  -- `d` with the value of `old` at the key `new`, in its place
  unfoldable pub rename_key : K → K → Dict K V → Dict K V
  rename_key old new [] = []
  rename_key old new ((k, v) ∷ d) = ((if k == old then new else k), v) ∷ rename_key old new d

  pub lookup-map_values :
      (f : V → V) (k : K) (d : Dict K V) → lookup k (map_values f d) ≡ Option.map f (lookup k d)
  unfolding lookup map_values
  lookup-map_values f k [] = refl
  lookup-map_values f k ((j, v) ∷ d) = ground (arith, lookup-map_values f k d)

  pub has_key-map_values :
      (f : V → V) (k : K) (d : Dict K V) → has_key k (map_values f d) ≡ has_key k d
  unfolding lookup map_values
  has_key-map_values f k [] = refl
  has_key-map_values f k ((j, v) ∷ d) = ground (arith, has_key-map_values f k d)

  pub lookup-without_self : (k : K) (d : Dict K V) → lookup k (without k d) ≡ none
  unfolding lookup without
  lookup-without_self k [] = refl
  lookup-without_self k ((j, v) ∷ d) =
      ground (arith, ==_refl k, ==_sound k j, lookup-without_self k d)

  pub lookup-without_ne : (j k : K) (d : Dict K V) → j ≢ k → lookup j (without k d) ≡ lookup j d
  unfolding lookup without
  lookup-without_ne j k [] h = refl
  lookup-without_ne j k ((i, v) ∷ d) h =
      ground (arith, ==_sound j i, ==_sound i k, lookup-without_ne j k d h)

  pub lookup-without :
      (j k : K) (d : Dict K V) → lookup j (without k d) ≡ (if j == k then none else lookup j d)
  lookup-without j k d = ground (
    arith,
    ==_refl k,
    ==_sound j k,
    lookup-without_self k d,
    λ (p : j ≢ k). lookup-without_ne j k d p,
  )

  pub has_key-rename_key :
      (old new j : K) (d : Dict K V)
      → has_key j d ≡ true
      → has_key (if j == old then new else j) (rename_key old new d) ≡ true
  unfolding lookup rename_key
  has_key-rename_key old new j [] h = cc
  has_key-rename_key old new j ((i, v) ∷ d) h = ground (
    arith,
    ==_refl new,
    ==_refl j,
    ==_sound j i,
    ==_sound j old,
    ==_sound i old,
    has_key-rename_key old new j d,
  )

  pub AllValues-insert :
      (P : V → Type 0) (k : K) (v : V) (d : Dict K V)
      → P v
      → AllValues P d
      → AllValues P (insert k v d)
  unfolding insert
  AllValues-insert P k v [] p h = (p, tt)
  AllValues-insert P k v ((j, w) ∷ d) p (q, qs) = elim (Bool-cases (k == j)) [
    | inl e ↦ rw e (p, qs)
    | inr e ↦ rw e (q, AllValues-insert P k v d p qs)
  ]

  pub AllValues-without :
      (P : V → Type 0) (k : K) (d : Dict K V) → AllValues P d → AllValues P (without k d)
  unfolding without
  AllValues-without P k [] h = tt
  AllValues-without P k ((j, w) ∷ d) (q, qs) =
      let rest = AllValues-without P k d qs in
      elim (Bool-cases (j == k)) [ inl e ↦ rw e rest | inr e ↦ rw e (q, rest) ]

  pub AllValues-rename_key :
      (P : V → Type 0) (old new : K) (d : Dict K V)
      → AllValues P d
      → AllValues P (rename_key old new d)
  unfolding rename_key
  AllValues-rename_key P old new [] h = tt
  AllValues-rename_key P old new ((j, w) ∷ d) (q, qs) = (q, AllValues-rename_key P old new d qs)

  pub AllValues-lookup :
      (P : V → Type 0) (k : K) (d : Dict K V) {v : V} → AllValues P d → lookup k d ≡ some v → P v
  unfolding lookup
  AllValues-lookup P k [] h l = cc
  AllValues-lookup P k ((j, w) ∷ d) {v} (q, qs) l = elim (Bool-cases (k == j)) [
    | inl e ↦ let same : w ≡ v = ground arith in subst P same q
    | inr e ↦ AllValues-lookup P k d qs (ground arith)
  ]
