-- ===== src/Transport/Codebook.antt =====
-- transport/codebook.py.
pub mod Lookup
mod Tests
use text.Mathlib.Text.{starts_with}
use yyr4_linux_control.Base.{
  ⊤, ℕ, suc, ◌+◌, ◌≡◌, refl, String, Bool, true, false, ◌&&◌, ◌||◌, not, Option, none, some, List,
  [], ◌∷◌, ◌++◌, map, arith, Result, ok, err, raise_if, ◌>>=◌, ◌>>◌, Eq, ◌==◌, string_eq, length,
  contains, nat_beq, if◌then◌else◌,
}
use yyr4_linux_control.Base.Int.{pos}
use yyr4_linux_control.Base.Dict.{Dict, lookup, insert, has_key}
use yyr4_linux_control.Base.Text.{joined, join, digit, two_digits, decimal}
use yyr4_linux_control.Domain.{
  TransportCode, PhysicalControl, ControlKind, button, encoder_counterclockwise, encoder_press,
  encoder_clockwise, physical_control,
}

-- `TransportCode.string_repr`
unfoldable pub string_repr : TransportCode → String
string_repr code = elim code.required_modifiers [
  | [] ↦ code.primary_key
  | m ∷ ms ↦ joined (join "+" (m ∷ ms)) (joined "+" code.primary_key)
]

pub record Codebook : Type 0 where
  pub mappings : List (TransportCode × PhysicalControl)
  pub vendor_to_control : Dict String PhysicalControl
  pub id_to_control : Dict String PhysicalControl
  pub id_to_code : Dict String TransportCode
  pub code_to_control : Dict String PhysicalControl

-- The codebook and the set `used_f_keys`, as the loop of `__init__` builds them.
pub record Building : Type 0 where
  pub book : Codebook
  pub used_f_keys : List String

-- one round of the loop
unfoldable pub add_mapping : Building → TransportCode → PhysicalControl → Result String Building
add_mapping b code ctrl =
    let book = b.book in
    do
      raise_if (has_key ctrl.control_id book.id_to_control)
          (joined "Duplicate control_id: " ctrl.control_id)
      raise_if (has_key ctrl.vendor_name book.vendor_to_control)
          (joined "Duplicate vendor_name: " ctrl.vendor_name)
      raise_if (has_key (string_repr code) book.code_to_control)
          (joined "Duplicate transport code: " (string_repr code))
      raise_if (not (starts_with code.primary_key "KEY_F"))
          (joined "Invalid primary key: " code.primary_key)
      ok (record {
        book = record book {
          id_to_control = insert ctrl.control_id ctrl book.id_to_control;
          vendor_to_control = insert ctrl.vendor_name ctrl book.vendor_to_control;
          code_to_control = insert (string_repr code) ctrl book.code_to_control;
          id_to_code = insert ctrl.control_id code book.id_to_code;
        };
        used_f_keys =
            (if contains code.primary_key b.used_f_keys
              then b.used_f_keys
              else code.primary_key ∷ b.used_f_keys);
      })

unfoldable pub add_mappings :
    Building → List (TransportCode × PhysicalControl) → Result String Building
add_mappings b [] = ok b
add_mappings b ((code, ctrl) ∷ rest) = do b' ← add_mapping b code ctrl; add_mappings b' rest

abbrev pub f_key : ℕ → String
f_key n = joined "KEY_F" (decimal n)

-- `range(13, 25)`
abbrev pub expected_f_keys : List String
expected_f_keys = map f_key (13 ∷ 14 ∷ 15 ∷ 16 ∷ 17 ∷ 18 ∷ 19 ∷ 20 ∷ 21 ∷ 22 ∷ 23 ∷ 24 ∷ [])

abbrev pub subset : List String → List String → Bool
subset [] ys = true
subset (x ∷ xs) ys = contains x ys && subset xs ys

-- two sets, each without repetitions, have the same members
abbrev pub same_set : List String → List String → Bool
same_set xs ys = subset xs ys && subset ys xs

abbrev pub empty_book : List (TransportCode × PhysicalControl) → Codebook
empty_book mappings = record {
  mappings = mappings;
  vendor_to_control = [];
  id_to_control = [];
  id_to_code = [];
  code_to_control = [];
}

-- `Codebook.__init__`; the message's count of mappings is left out
unfoldable pub codebook : List (TransportCode × PhysicalControl) → Result String Codebook
unfolding add_mapping add_mappings string_repr
codebook mappings = do
  raise_if (not (nat_beq (length mappings) 24)) "Codebook must have exactly 24 mappings"
  b ← add_mappings (record { book = empty_book mappings; used_f_keys = [] }) mappings
  raise_if (not (same_set b.used_f_keys expected_f_keys)) "F13 to F24 must be completely utilized"
  ok b.book

unfoldable pub get_by_vendor_name : Codebook → String → Option PhysicalControl
get_by_vendor_name book name = lookup name book.vendor_to_control

unfoldable pub get_by_control_id : Codebook → String → Option PhysicalControl
get_by_control_id book id = lookup id book.id_to_control

unfoldable pub get_code_for_control_id : Codebook → String → Option TransportCode
get_code_for_control_id book id = lookup id book.id_to_code

unfoldable pub get_by_transport_code : Codebook → TransportCode → Option PhysicalControl
get_by_transport_code book code = lookup (string_repr code) book.code_to_control

unfoldable pub get_by_primary_key_and_modifiers :
    Codebook → String → List String → Option PhysicalControl
get_by_primary_key_and_modifiers book primary_key modifiers =
    get_by_transport_code book
      (record { primary_key = primary_key; required_modifiers = modifiers })

-- `_build_default_codebook`: twelve buttons, then three controls for each of four encoders
abbrev pub button_mapping : ℕ → Result String (TransportCode × PhysicalControl)
button_mapping i = do
  ctrl ←
      physical_control (joined "button.k" (two_digits i)) (joined "A" (decimal i)) button none
        (some (pos i))
  ok (record { primary_key = f_key (12 + i); required_modifiers = [] }, ctrl)

abbrev pub encoder_mapping :
    ControlKind → String → String → ℕ → ℕ → Result String (TransportCode × PhysicalControl)
encoder_mapping kind suffix name index f = do
  ctrl ←
      physical_control (joined "encoder.e" (joined (two_digits index) suffix)) name kind
        (some (pos index)) none
  ok (record { primary_key = f_key f; required_modifiers = "KEY_LEFTSHIFT" ∷ [] }, ctrl)

abbrev pub encoder_mappings :
    String
    → String
    → String
    → ℕ
    → ℕ
    → ℕ
    → ℕ
    → List (Result String (TransportCode × PhysicalControl))
encoder_mappings l_name p_name r_name index l_f p_f r_f =
    encoder_mapping encoder_counterclockwise ".counterclockwise" l_name index l_f
    ∷ encoder_mapping encoder_press ".press" p_name index p_f
    ∷ encoder_mapping encoder_clockwise ".clockwise" r_name index r_f
    ∷ []

abbrev pub sequence : {A : Type 0} → List (Result String A) → Result String (List A)
sequence [] = ok []
sequence (r ∷ rest) = do a ← r; l ← sequence rest; ok (a ∷ l)

unfoldable pub default_mappings : Result String (List (TransportCode × PhysicalControl))
default_mappings = sequence (
    map button_mapping (1 ∷ 2 ∷ 3 ∷ 4 ∷ 5 ∷ 6 ∷ 7 ∷ 8 ∷ 9 ∷ 10 ∷ 11 ∷ 12 ∷ [])
    ++ (encoder_mappings "AL" "AP" "AR" 1 13 14 15
        ++ (encoder_mappings "BL" "BP" "BR" 2 16 17 18
            ++ (encoder_mappings "CL" "CP" "CR" 3 19 20 21
                ++ encoder_mappings "DL" "DP" "DR" 4 22 23 24))))

-- `DEFAULT_CODEBOOK`
unfoldable pub default_codebook : Result String Codebook
unfolding default_mappings
default_codebook = do mappings ← default_mappings; codebook mappings
