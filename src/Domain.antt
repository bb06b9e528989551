-- ===== src/Domain.antt =====
-- domain/controls.py and domain/events.py: what the device can do, and the events that flow from
-- the input adapter to the daemon. A dataclass whose `__post_init__` checks its fields is a record
-- beside a `create` function that makes the same checks in the same order.
pub mod Validity
mod Tests
use yyr4_linux_control.Base.{
  ⊤, ℕ, String, Bool, true, false, ◌||◌, ◌&&◌, not, Option, none, some, Result, ok, err, raise_if,
  ◌>>=◌, ◌>>◌, List, leb,
}
use yyr4_linux_control.Base.Int.{ℤ, pos, negsuc, leb_ℤ}
use yyr4_linux_control.Base.Dict.{is_some}
use yyr4_linux_control.Base.Text.{is_empty}

pub data ControlKind : Type 0 where
  button encoder_counterclockwise encoder_press encoder_clockwise : ControlKind

pub data ControlPhase : Type 0 where
  down up : ControlPhase

pub record PhysicalControl : Type 0 where
  pub control_id : String
  pub vendor_name : String
  pub kind : ControlKind
  pub encoder_index : Option ℤ
  pub button_index : Option ℤ

-- `not (lo <= i <= hi)`
abbrev pub out_of_range : ℕ → ℕ → ℤ → Bool
out_of_range lo hi i = not (leb_ℤ (pos lo) i && leb_ℤ i (pos hi))

-- `PhysicalControl.__post_init__` on the two indices: the one of the control's own kind, then the
-- other
pub check_button : Option ℤ → Option ℤ → Result String ⊤
check_button none encoder_index = err "BUTTON kind must have a button_index"
check_button (some i) encoder_index = do
  raise_if (is_some encoder_index) "BUTTON kind cannot have an encoder_index"
  raise_if (out_of_range 1 12 i) "button_index must be between 1 and 12"

pub check_encoder : Option ℤ → Option ℤ → Result String ⊤
check_encoder none button_index = err "Encoder kind must have an encoder_index"
check_encoder (some i) button_index = do
  raise_if (is_some button_index) "Encoder kind cannot have a button_index"
  raise_if (out_of_range 1 4 i) "encoder_index must be between 1 and 4"

pub check_indices : ControlKind → Option ℤ → Option ℤ → Result String ⊤
unfolding check_button check_encoder
check_indices button encoder_index button_index = check_button button_index encoder_index
check_indices encoder_press encoder_index button_index = check_encoder encoder_index button_index
check_indices encoder_clockwise encoder_index button_index =
    check_encoder encoder_index button_index
check_indices encoder_counterclockwise encoder_index button_index =
    check_encoder encoder_index button_index

unfoldable pub physical_control :
    String → String → ControlKind → Option ℤ → Option ℤ → Result String PhysicalControl
unfolding check_indices
physical_control control_id vendor_name kind encoder_index button_index = do
  raise_if (is_empty control_id || is_empty vendor_name)
      "control_id and vendor_name cannot be empty"
  check_indices kind encoder_index button_index
  ok (record {
    control_id = control_id;
    vendor_name = vendor_name;
    kind = kind;
    encoder_index = encoder_index;
    button_index = button_index;
  })

-- `TransportCode` of transport/codebook.py, which the events carry
pub record TransportCode : Type 0 where
  pub primary_key : String
  pub required_modifiers : List String

-- The checks leave a time of zero or more and a value of 0 (released), 1 (pressed) or 2 (repeated),
-- so both fields are naturals.
pub record RawKeyEvent : Type 0 where
  pub source_id : String
  pub timestamp_ns : ℕ
  pub code : String
  pub value : ℕ

unfoldable pub raw_key_event : String → ℤ → String → ℤ → Result String RawKeyEvent
raw_key_event source_id (negsuc _) code value = do
  raise_if (is_empty source_id) "source_id cannot be empty"
  err "timestamp_ns cannot be negative"
raw_key_event source_id (pos t) code (negsuc _) = do
  raise_if (is_empty source_id) "source_id cannot be empty"
  raise_if (is_empty code) "code cannot be empty"
  err "value must be 0, 1, or 2"
raw_key_event source_id (pos t) code (pos v) = do
  raise_if (is_empty source_id) "source_id cannot be empty"
  raise_if (is_empty code) "code cannot be empty"
  raise_if (not (leb v 2)) "value must be 0, 1, or 2"
  ok (record { source_id = source_id; timestamp_ns = t; code = code; value = v })

pub record ControlEvent : Type 0 where
  pub source_id : String
  pub timestamp_ns : ℕ
  pub control : PhysicalControl
  pub phase : ControlPhase
  pub transport_code : TransportCode
  pub synthetic : Bool
  pub reason : Option String

-- the truth value of `reason`
abbrev pub has_reason : Option String → Bool
has_reason none = false
has_reason (some s) = not (is_empty s)

-- `ControlEvent.__post_init__`. The time is a natural and the transport code has a primary key by
-- their types, so those two checks cannot fail.
unfoldable pub check_event : ControlEvent → Result String ⊤
check_event e = do
  raise_if (is_empty e.source_id) "source_id cannot be empty"
  raise_if (e.synthetic && not (has_reason e.reason)) "synthetic events must have a reason"
  raise_if (not e.synthetic && has_reason e.reason) "non-synthetic events should not have a reason"
