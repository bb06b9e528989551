-- ===== src/Domain/Tests.antt =====
-- Runs of the constructors of domain/.
use yyr4_linux_control.Base.{◌≡◌, refl, none, some, err}
use yyr4_linux_control.Base.Int.{pos, negsuc}
use yyr4_linux_control.Domain.{button, PhysicalControl, physical_control, raw_key_event}

button_without_index :
    physical_control "button.k01" "A1" button none none ≡ err "BUTTON kind must have a button_index"
unfolding physical_control
button_without_index = refl

negative_time :
    raw_key_event "s" (negsuc 0) "KEY_F13" (pos 1) ≡ err "timestamp_ns cannot be negative"
unfolding raw_key_event
negative_time = refl

abbrev k01 : PhysicalControl
k01 = record {
  control_id = "button.k01";
  vendor_name = "A1";
  kind = button;
  encoder_index = none;
  button_index = some (pos 1);
}
