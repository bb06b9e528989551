-- ===== src/Execution/Command/Names.antt =====
-- The tests of `is_allowed` on the name of a command, described without the code's helpers.
use Prim.Native.Char.{code}
use text.Mathlib.TextEquality.{Char-path}
use text.Mathlib.TextLemmas.{nil-append, cons-append}
use yyr4_linux_control.Base.{
  ◌≡◌, ◌≢◌, refl, ap, sym, ◌∙◌, ◌↔◌, String, true, false, List, [], ◌∷◌, ◌++◌, ◌==◌, nat_beq,
  nat_beq_iff, contains, string_eq, ==_refl, arith, All, inl, inr, Bool-cases,
}
use yyr4_linux_control.Base.Text.{joined}
use yyr4_linux_control.Execution.Command.{has_slash, is_forbidden}

-- the text contains a slash
abbrev pub HasSlash : String → Type 0
HasSlash s = (front back : String) × (s ≡ joined front (String.◌∷◌ "/" back))

slash-joined : (front back : String) → has_slash (joined front (String.◌∷◌ "/" back)) ≡ true
unfolding has_slash
slash-joined String.[] back = ap has_slash (nil-append (String.◌∷◌ "/" back))
slash-joined (String.◌∷◌ c front) back =
    let rest = slash-joined front back in
    ap has_slash (cons-append c front (String.◌∷◌ "/" back)) ∙ ground arith

slash_splits : (s : String) → has_slash s ≡ true → HasSlash s
unfolding has_slash
slash_splits String.[] h = cc
slash_splits (String.◌∷◌ c s) h = elim (Bool-cases (nat_beq (code c) b'/')) [
  | inl e ↦
      let slash : c ≡ "/" = Char-path c "/" ((nat_beq_iff (code c) b'/').0 e) in
      (String.[], s, ap (λ d. String.◌∷◌ d s) slash ∙ sym (nil-append (String.◌∷◌ "/" s)))
  | inr e ↦
      let (front, back, p) = slash_splits s (ground arith) in
      (
        String.◌∷◌ c front,
        back,
        ap (String.◌∷◌ c) p ∙ sym (cons-append c front (String.◌∷◌ "/" back)),
      )
]

pub has_slash_iff : (s : String) → (has_slash s ≡ false) ↔ (¬ HasSlash s)
has_slash_iff s = (
  (λ h (front, back, e). cc (h, e, slash-joined front back)),
  (λ h. elim (Bool-cases (has_slash s)) [ inl e ↦ absurd (h (slash_splits s e)) | inr e ↦ e ]),
)

contains-append : (a : String) (front back : List String) → contains a (front ++ a ∷ back) ≡ true
contains-append a [] back = ground (arith, ==_refl a)
contains-append a (x ∷ front) back = ground (arith, contains-append a front back)

contains_splits :
    (a : String) (xs : List String)
    → contains a xs ≡ true
    → (front back : List String) × (xs ≡ front ++ a ∷ back)
contains_splits a [] h = cc
contains_splits a (x ∷ xs) h = elim (Bool-cases (a == x)) [
  | inl e ↦ ([], xs, ap (λ y. y ∷ xs) (sym ((string_eq.beq_iff a x).0 e)))
  | inr e ↦
      let (front, back, p) = contains_splits a xs (ground arith) in
      (x ∷ front, back, ap (λ r. x ∷ r) p)
]

pub contains_iff :
    (a : String) (xs : List String)
    → (contains a xs ≡ true) ↔ ((front back : List String) × (xs ≡ front ++ a ∷ back))
contains_iff a xs =
    (contains_splits a xs, λ (front, back, e). ap (contains a) e ∙ contains-append a front back)

differs_iff : (a b : String) → ((a == b) ≡ false) ↔ (a ≢ b)
differs_iff a b = (
  (λ h e. ground (arith, (string_eq.beq_iff a b).1 e)),
  (λ h. ground (arith, (string_eq.beq_iff a b).0)),
)

absent_iff : (a : String) (xs : List String) → (contains a xs ≡ false) ↔ All (λ x. a ≢ x) xs
absent_iff a [] = (λ h. tt, λ h. refl)
absent_iff a (x ∷ xs) =
    let (differs, equal) = differs_iff a x in
    let (others, none_of) = absent_iff a xs in
    (
      (λ h. (differs (ground arith), others (ground arith))),
      (λ (h, hs). ground (arith, equal h, none_of hs)),
    )

-- the shells and the ways to become another user that are refused by name
pub is_forbidden_iff :
    (cmd : String)
    → (is_forbidden cmd ≡ false)
      ↔ All (λ name. cmd ≢ name) ("sh" ∷ "bash" ∷ "dash" ∷ "zsh" ∷ "sudo" ∷ "su" ∷ [])
unfolding is_forbidden
is_forbidden_iff cmd = absent_iff cmd ("sh" ∷ "bash" ∷ "dash" ∷ "zsh" ∷ "sudo" ∷ "su" ∷ [])
