-- ===== src/Configurator/Serializer/Order.antt =====
-- `sorted` by a text. Texts are compared by code points.
use Prim.Native.Char.{code}
use text.Mathlib.TextEquality.{Char-path}
use mathlib.Core.List.{Permᴰ}
use mathlib.Core.List.Permᴰ.{nil, cons, swap, trans}
use yyr4_linux_control.Base.{
  ◌≡◌, refl, sym, ap, ◌∙◌, String, Bool, true, false, ◌&&◌, ◌||◌, inl, inr, List, [], ◌∷◌, ltb,
  nat_beq, if◌then◌else◌, arith, Bool-cases,
}

-- `s < t`
unfoldable pub text_ltb : String → String → Bool
text_ltb String.[] String.[] = false
text_ltb String.[] (String.◌∷◌ d t) = true
text_ltb (String.◌∷◌ c s) String.[] = false
text_ltb (String.◌∷◌ c s) (String.◌∷◌ d t) =
    ltb (code c) (code d) || (nat_beq (code c) (code d) && text_ltb s t)

module _ {K : Type 0} (value : K → String) where
  -- before the first that is not less: equal keys keep their order
  unfoldable pub insert_sorted : K → List K → List K
  insert_sorted k [] = k ∷ []
  insert_sorted k (j ∷ rest) =
      let later = insert_sorted k rest in
      if text_ltb (value j) (value k) then j ∷ later else k ∷ j ∷ rest

  unfoldable pub sorted_by : List K → List K
  sorted_by [] = []
  sorted_by (k ∷ rest) = insert_sorted k (sorted_by rest)

pub text_ltb_trans :
    (a b c : String) → text_ltb a b ≡ true → text_ltb b c ≡ true → text_ltb a c ≡ true
unfolding text_ltb
text_ltb_trans (String.◌∷◌ x a) (String.◌∷◌ y b) (String.◌∷◌ z c) h k =
    ground (arith, text_ltb_trans a b c)
text_ltb_trans String.[] b (String.◌∷◌ z c) h k = refl
text_ltb_trans a String.[] c h k = ground arith
text_ltb_trans a b String.[] h k = ground arith

pub text_ltb_asym : (a b : String) → text_ltb a b ≡ true → text_ltb b a ≡ false
unfolding text_ltb
text_ltb_asym (String.◌∷◌ x a) (String.◌∷◌ y b) h = ground (arith, text_ltb_asym a b)
text_ltb_asym String.[] (String.◌∷◌ y b) h = refl
text_ltb_asym String.[] String.[] h = refl
text_ltb_asym (String.◌∷◌ x a) String.[] h = ground arith

pub text_ltb_total : (a b : String) → text_ltb a b ≡ false → text_ltb b a ≡ false → a ≡ b
unfolding text_ltb
text_ltb_total String.[] String.[] h k = refl
text_ltb_total String.[] (String.◌∷◌ y b) h k = ground arith
text_ltb_total (String.◌∷◌ x a) String.[] h k = ground arith
text_ltb_total (String.◌∷◌ x a) (String.◌∷◌ y b) h k =
    let p : x ≡ y = Char-path x y (ground arith) in
    let q : a ≡ b = text_ltb_total a b (ground arith) (ground arith) in cc (p, q)

module _ {K : Type 0} (value : K → String) (injective : (a b : K) → value a ≡ value b → a ≡ b) where
  insert_sorted_before :
      (a b : K) (l : List K)
      → text_ltb (value a) (value b) ≡ true
      → insert_sorted value a (insert_sorted value b l)
        ≡ insert_sorted value b (insert_sorted value a l)
  unfolding insert_sorted
  insert_sorted_before a b [] h = rw (h, text_ltb_asym (value a) (value b) h) refl
  insert_sorted_before a b (j ∷ l) h =
      let back = text_ltb_asym (value a) (value b) h in
      elim (Bool-cases (text_ltb (value j) (value a))) [
        | inl p ↦
            let q = text_ltb_trans (value j) (value a) (value b) p h in
            rw (p, q, p) (ap (λ r. j ∷ r) (insert_sorted_before a b l h))
        | inr p ↦ elim (Bool-cases (text_ltb (value j) (value b))) [
          | inl q ↦ ground (arith, p, q, h, back)
          | inr q ↦ ground (arith, p, q, h, back)
        ]
      ]

  insert_sorted_comm :
      (a b : K) (l : List K)
      → insert_sorted value a (insert_sorted value b l)
        ≡ insert_sorted value b (insert_sorted value a l)
  insert_sorted_comm a b l = elim (Bool-cases (text_ltb (value a) (value b))) [
    | inl p ↦ insert_sorted_before a b l p
    | inr p ↦ elim (Bool-cases (text_ltb (value b) (value a))) [
      | inl q ↦ sym (insert_sorted_before b a l q)
      | inr q ↦ cc (injective a b (text_ltb_total (value a) (value b) p q))
    ]
  ]

  -- Keys are sorted_by into one order, whichever they come in.
  pub sorted_by-Perm : {l m : List K} → Permᴰ l m → sorted_by value l ≡ sorted_by value m
  unfolding sorted_by
  sorted_by-Perm nil = refl
  sorted_by-Perm (cons e p) = cc (e, sorted_by-Perm p)
  sorted_by-Perm (swap {a = a} {b = b} {l = l} e f) =
      cc (insert_sorted_comm a b (sorted_by value l), e, f)
  sorted_by-Perm (trans p q) = sorted_by-Perm p ∙ sorted_by-Perm q
