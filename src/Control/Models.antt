-- ===== src/Control/Models.antt =====
-- control/models.py.
use Prim.Native.Char.{code}
use yyr4_linux_control.Base.{
  ℕ, zero, suc, ◌≡◌, refl, String, Bool, true, false, ◌&&◌, ◌||◌, Option, none, some, List, [], ◌∷◌,
  leb, nat_beq, Eq, ◌==◌, string_eq, beq_iff_of_value, if◌then◌else◌, Result, ok, err, ap,
}
use yyr4_linux_control.Base.Dict.{Dict}
use yyr4_linux_control.Domain.{PhysicalControl, ControlEvent, ControlPhase}
use yyr4_linux_control.Control.Actions.{Action}

pub data OfficialControl : Type 0 where
  a1 a2 a3 a4 a5 a6 a7 a8 a9 a10 a11 a12 : OfficialControl
  al ap_ ar bl bp br cl cp cr dl dp dr : OfficialControl

-- the members' values
abbrev pub control_value : OfficialControl → String
control_value a1 = "A1"
control_value a2 = "A2"
control_value a3 = "A3"
control_value a4 = "A4"
control_value a5 = "A5"
control_value a6 = "A6"
control_value a7 = "A7"
control_value a8 = "A8"
control_value a9 = "A9"
control_value a10 = "A10"
control_value a11 = "A11"
control_value a12 = "A12"
control_value al = "AL"
control_value ap_ = "AP"
control_value ar = "AR"
control_value bl = "BL"
control_value bp = "BP"
control_value br = "BR"
control_value cl = "CL"
control_value cp = "CP"
control_value cr = "CR"
control_value dl = "DL"
control_value dp = "DP"
control_value dr = "DR"

-- the members, in the order of the class
abbrev pub all_controls : List OfficialControl
all_controls =
    a1 ∷ a2 ∷ a3 ∷ a4 ∷ a5 ∷ a6 ∷ a7 ∷ a8 ∷ a9 ∷ a10 ∷ a11 ∷ a12 ∷ al ∷ ap_ ∷ ar ∷ bl ∷ bp ∷ br ∷ cl
    ∷ cp ∷ cr ∷ dl ∷ dp ∷ dr ∷ []

-- `cls(value)`: the member with this value
unfoldable pub member_of {ℓ} : {A : Type ℓ} → (A → String) → List A → String → Option A
member_of value [] s = none
member_of value (a ∷ as') s = if value a == s then some a else member_of value as' s

unfoldable pub official_control : String → Option OfficialControl
unfolding member_of
official_control = member_of control_value all_controls

-- `OfficialControl.from_physical_control`
unfoldable pub from_physical_control : PhysicalControl → Result String OfficialControl
from_physical_control ctrl = elim (official_control ctrl.vendor_name) [
  | none ↦ err "Unknown physical control vendor_name"
  | some c ↦ ok c
]

pub record OfficialControlEvent : Type 0 where
  pub control : OfficialControl
  pub phase : ControlPhase
  pub timestamp_ns : ℕ

-- `OfficialControlEvent.from_control_event`
unfoldable pub from_control_event : ControlEvent → Result String OfficialControlEvent
from_control_event e = elim (from_physical_control e.control) [
  | err m ↦ err m
  | ok c ↦ ok (record { control = c; phase = e.phase; timestamp_ns = e.timestamp_ns })
]

pub data LayerId : Type 0 where
  general layer_1 layer_2 layer_3 layer_4 layer_5 layer_6 layer_7 layer_8 : LayerId

abbrev pub layer_value : LayerId → String
layer_value general = "general"
layer_value layer_1 = "layer_1"
layer_value layer_2 = "layer_2"
layer_value layer_3 = "layer_3"
layer_value layer_4 = "layer_4"
layer_value layer_5 = "layer_5"
layer_value layer_6 = "layer_6"
layer_value layer_7 = "layer_7"
layer_value layer_8 = "layer_8"

abbrev pub all_layers : List LayerId
all_layers =
    general ∷ layer_1 ∷ layer_2 ∷ layer_3 ∷ layer_4 ∷ layer_5 ∷ layer_6 ∷ layer_7 ∷ layer_8 ∷ []

unfoldable pub layer_of : String → Option LayerId
unfolding member_of
layer_of = member_of layer_value all_layers

-- Reading a member's value gives the member.
pub official_control-value : (c : OfficialControl) → official_control (control_value c) ≡ some c
unfolding official_control
official_control-value a1 = refl
official_control-value _ = refl

pub layer_of-value : (l : LayerId) → layer_of (layer_value l) ≡ some l
unfolding layer_of
layer_of-value general = refl
layer_of-value _ = refl

-- Both are `str` enumerations, so members are equal if their values are.
instance abbrev pub control_eq : Eq OfficialControl
control_eq = record {
  beq = λ a b. control_value a == control_value b;
  beq_iff = beq_iff_of_value control_value official_control official_control-value;
}

instance abbrev pub layer_eq : Eq LayerId
layer_eq = record {
  beq = λ a b. layer_value a == layer_value b;
  beq_iff = beq_iff_of_value layer_value layer_of layer_of-value;
}

pub record ProfileId : Type 0 where
  pub value : String

instance abbrev pub profile_eq : Eq ProfileId
profile_eq = record {
  beq = λ a b. a.value == b.value;
  beq_iff = λ a b. (
    (λ h. let e = (string_eq.beq_iff a.value b.value).0 h in λ i. record { value = e i }),
    (λ p. (string_eq.beq_iff a.value b.value).1 (ap (λ (x : ProfileId). x.value) p)),
  );
}

abbrev pub is_lower : ℕ → Bool
is_lower c = leb b'a' c && leb c b'z'

-- `[a-z0-9_-]`
abbrev pub is_id_char : ℕ → Bool
is_id_char c = is_lower c || (leb b'0' c && leb c b'9') || nat_beq c b'_' || nat_beq c b'-'

-- `[a-z0-9_-]{0,n}$`: in Python `$` also matches before a newline that ends the text.
unfoldable pub matches_tail : ℕ → String → Bool
matches_tail n String.[] = true
matches_tail zero (String.◌∷◌ c String.[]) = nat_beq (code c) 10
matches_tail zero (String.◌∷◌ c (String.◌∷◌ d s)) = false
matches_tail (suc n) (String.◌∷◌ c String.[]) = nat_beq (code c) 10 || is_id_char (code c)
matches_tail (suc n) (String.◌∷◌ c (String.◌∷◌ d s)) =
    is_id_char (code c) && matches_tail n (String.◌∷◌ d s)

-- `_PROFILE_ID_PATTERN.match`
unfoldable pub matches_profile_id : String → Bool
unfolding matches_tail
matches_profile_id String.[] = false
matches_profile_id (String.◌∷◌ c s) = is_lower (code c) && matches_tail 63 s

-- `ProfileId(s)`
unfoldable pub profile_id : String → Result String ProfileId
profile_id s = if matches_profile_id s then ok (record { value = s }) else err "Invalid ProfileId"

pub record LayerConfig : Type 0 where
  pub layer_id : LayerId
  pub controls : Dict OfficialControl Action

pub record ProfileConfig : Type 0 where
  pub profile_id : ProfileId
  pub layers : Dict LayerId LayerConfig

pub record LayeredControlConfig : Type 0 where
  pub schema_version : ℕ
  pub default_profile : ProfileId
  pub initial_layer : LayerId
  pub profiles : Dict ProfileId ProfileConfig
