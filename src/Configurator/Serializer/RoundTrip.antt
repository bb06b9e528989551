-- ===== src/Configurator/Serializer/RoundTrip.antt =====
-- `_toml_str` against TOML's basic strings.
use Prim.Native.Nat.{◌/◌, ◌%◌}
use Prim.Native.Char.{Char, code}
use text.Mathlib.TextLemmas.{nil-append, cons-append, append_assoc}
use yyr4_linux_control.Base.{
  ℕ, zero, suc, ◌+◌, ◌*◌, ◌<◌, ◌≡◌, refl, sym, ap, ◌∙◌, String, Bool, true, false, ◌&&◌, ◌||◌, inl,
  inr, Option, none, some, ltb, nat_beq, Bool-cases, arith, nat_beq_iff,
}
use yyr4_linux_control.Base.Text.{joined}
use yyr4_linux_control.Configurator.Serializer.Strings.{
  hex_digit, unicode_escape, single, escape_char, escaped, toml_str,
}
use yyr4_linux_control.Configurator.Serializer.Reading.{
  plain, escape, hex, with_code, hex_value, read, read_basic_string, codes_of,
}

joined-single : (a : Char) (t : String) → joined (single a) t ≡ String.◌∷◌ a t
joined-single a t = cons-append a String.[] t ∙ ap (String.◌∷◌ a) (nil-append t)

joined_two :
    (a b : Char) (t : String) → joined (String.◌∷◌ a (single b)) t ≡ String.◌∷◌ a (String.◌∷◌ b t)
joined_two a b t = cons-append a (single b) t ∙ ap (String.◌∷◌ a) (joined-single b t)

-- an escape of two characters
read_two :
    (c : Char) (t : String)
    → read (joined (String.◌∷◌ "\\" (single c)) t) plain ≡ read (String.◌∷◌ c t) escape
unfolding read
read_two c t = ap (λ x. read x plain) (joined_two "\\" c t)

-- every number below n passes the test
abbrev all_below : (ℕ → Bool) → ℕ → Bool
all_below test zero = true
all_below test (suc n) = test n && all_below test n

all_below_lem : (test : ℕ → Bool) (n i : ℕ) → all_below test n ≡ true → i < n → test i ≡ true
all_below_lem test zero i h l = ground arith
all_below_lem test (suc n) i h l = elim (Bool-cases (nat_beq i n)) [
  | inl p ↦ ground (arith, (nat_beq_iff i n).0 p)
  | inr p ↦ all_below_lem test n i (ground arith) (ground arith)
]

abbrev is_number : ℕ → Option ℕ → Bool
is_number d none = false
is_number d (some v) = nat_beq v d

is_number_lem : (d : ℕ) (o : Option ℕ) → is_number d o ≡ true → o ≡ some d
is_number_lem d none h = ground arith
is_number_lem d (some v) h = ap some ((nat_beq_iff v d).0 h)

hex_value-digit : (d : ℕ) → d < 16 → hex_value (code (hex_digit d)) ≡ some d
hex_value-digit d l =
    is_number_lem d (hex_value (code (hex_digit d)))
      (all_below_lem (λ n. is_number n (hex_value (code (hex_digit n)))) 16 d refl l)

-- the fixed part of a numbered escape
joined_u00 :
    (s : String)
    → joined "\\u00" s ≡ String.◌∷◌ "\\" (String.◌∷◌ "u" (String.◌∷◌ "0" (String.◌∷◌ "0" s)))
joined_u00 s =
    cons-append "\\" "u00" s
    ∙ ap (String.◌∷◌ "\\") (cons-append "u" "00" s)
    ∙ ap (λ x. String.◌∷◌ "\\" (String.◌∷◌ "u" x)) (joined_two "0" "0" s)

read_digits :
    (a b : Char) (x y : ℕ) (t : String)
    → hex_value (code a) ≡ some x
    → hex_value (code b) ≡ some y
    → x * 16 + y < 128
    → read (String.◌∷◌ a (String.◌∷◌ b t)) (hex 1 0) ≡ with_code (x * 16 + y) (read t plain)
unfolding read
read_digits a b x y t ha hb l = rw (ha, hb) (ground arith)

read_four :
    (a b : Char) (x y : ℕ) (t : String)
    → hex_value (code a) ≡ some x
    → hex_value (code b) ≡ some y
    → x * 16 + y < 128
    → read (joined (joined "\\u00" (String.◌∷◌ a (single b))) t) plain
      ≡ with_code (x * 16 + y) (read t plain)
unfolding read
read_four a b x y t ha hb l =
    ap (λ s. read s plain)
      (append_assoc "\\u00" (String.◌∷◌ a (single b)) t
        ∙ joined_u00 (joined (String.◌∷◌ a (single b)) t)
        ∙ ap (λ s. String.◌∷◌ "\\" (String.◌∷◌ "u" (String.◌∷◌ "0" (String.◌∷◌ "0" s))))
            (joined_two a b t))
    ∙ read_digits a b x y t ha hb l

read-unicode_escape :
    (n : ℕ) (t : String)
    → n < 128
    → read (joined (unicode_escape n) t) plain ≡ with_code n (read t plain)
read-unicode_escape n t l =
    let e : n / 16 * 16 + n % 16 ≡ n = omega arith in
    let h =
      read_four (hex_digit (n / 16)) (hex_digit (n % 16)) (n / 16) (n % 16) t
        (hex_value-digit (n / 16) (omega arith)) (hex_value-digit (n % 16) (omega arith))
        (omega arith) in
    h ∙ ap (λ m. with_code m (read t plain)) e

read-one_escape :
    (e : Char) (n : ℕ) (c : Char) (t : String)
    → read (String.◌∷◌ e t) escape ≡ with_code n (read t plain)
    → nat_beq (code c) n ≡ true
    → read (joined (String.◌∷◌ "\\" (single e)) t) plain ≡ with_code (code c) (read t plain)
read-one_escape e n c t h p =
    read_two e t ∙ h ∙ ap (λ m. with_code m (read t plain)) (sym ((nat_beq_iff (code c) n).0 p))

read-unescaped :
    (c : Char) (t : String)
    → nat_beq (code c) 34 ≡ false
    → nat_beq (code c) 92 ≡ false
    → (ltb (code c) 32 || nat_beq (code c) 127) ≡ false
    → read (joined (single c) t) plain ≡ with_code (code c) (read t plain)
unfolding read
read-unescaped c t quote slash q =
    ap (λ s. read s plain) (joined-single c t) ∙ rw (quote, slash) (ground arith)

-- An escape, read, is the character.
read-escape_char :
    (c : Char) (t : String)
    → read (joined (escape_char c) t) plain ≡ with_code (code c) (read t plain)
unfolding escape_char read
read-escape_char c t = elim (Bool-cases (nat_beq (code c) 34)) [
  | inl p34 ↦ rw (p34) (read-one_escape "\"" 34 c t refl p34)
  | inr p34 ↦ elim (Bool-cases (nat_beq (code c) 92)) [
    | inl p92 ↦ rw (p34, p92) (read-one_escape "\\" 92 c t refl p92)
    | inr p92 ↦ elim (Bool-cases (nat_beq (code c) 8)) [
      | inl p8 ↦ rw (p34, p92, p8) (read-one_escape "b" 8 c t refl p8)
      | inr p8 ↦ elim (Bool-cases (nat_beq (code c) 9)) [
        | inl p9 ↦ rw (p34, p92, p8, p9) (read-one_escape "t" 9 c t refl p9)
        | inr p9 ↦ elim (Bool-cases (nat_beq (code c) 10)) [
          | inl p10 ↦ rw (p34, p92, p8, p9, p10) (read-one_escape "n" 10 c t refl p10)
          | inr p10 ↦ elim (Bool-cases (nat_beq (code c) 12)) [
            | inl p12 ↦ rw (p34, p92, p8, p9, p10, p12) (read-one_escape "f" 12 c t refl p12)
            | inr p12 ↦ elim (Bool-cases (nat_beq (code c) 13)) [
              | inl p13 ↦ rw (p34, p92, p8, p9, p10, p12, p13) (read-one_escape "r" 13 c t refl p13)
              | inr p13 ↦ elim (Bool-cases (ltb (code c) 32 || nat_beq (code c) 127)) [
                | inl q ↦
                    rw (p34, p92, p8, p9, p10, p12, p13, q)
                      (read-unicode_escape (code c) t (ground arith))
                | inr q ↦ rw (p34, p92, p8, p9, p10, p12, p13, q) (read-unescaped c t p34 p92 q)
              ]
            ]
          ]
        ]
      ]
    ]
  ]
]

read-escaped :
    (s t : String) → read (joined (escaped s) (String.◌∷◌ "\"" t)) plain ≡ some (codes_of s, t)
unfolding escaped read codes_of
read-escaped String.[] t = ap (λ x. read x plain) (nil-append (String.◌∷◌ "\"" t))
read-escaped (String.◌∷◌ c s) t =
    ap (λ x. read x plain) (append_assoc (escape_char c) (escaped s) (String.◌∷◌ "\"" t))
    ∙ read-escape_char c (joined (escaped s) (String.◌∷◌ "\"" t))
    ∙ ap (with_code (code c)) (read-escaped s t)

-- What `_toml_str` writes, before any other text, is a basic string of TOML: a reader of TOML gives
-- back the code points of the text, and what comes after it.
pub read_basic_string-toml_str :
    (s t : String) → read_basic_string (joined (toml_str s) t) ≡ some (codes_of s, t)
unfolding toml_str read_basic_string
read_basic_string-toml_str s t =
    ap read_basic_string (
      append_assoc "\"" (joined (escaped s) "\"") t
      ∙ joined-single "\"" (joined (joined (escaped s) "\"") t)
      ∙ ap (String.◌∷◌ "\"")
          (append_assoc (escaped s) "\"" t ∙ ap (joined (escaped s)) (joined-single "\"" t)))
    ∙ read-escaped s t
