-- ===== src/Device/Discovery/Tests.antt =====
-- One keyboard of two records, and a mouse of another make.
use yyr4_linux_control.Base.{◌≡◌, refl, false, none, some, [], ◌∷◌, ok, List, String}
use yyr4_linux_control.Base.Dict.{lookup, insert}
use yyr4_linux_control.Base.Substring.{lower}
use yyr4_linux_control.Device.Identity.{
  keyboard, mouse, InputInterface, input_interface, Yyr4Identity, yyr4_identity,
}
use yyr4_linux_control.Device.Discovery.{
  UdevInputRecord, classify_layout, classify_input_role, sort_record, survey,
}
use yyr4_linux_control.Device.Discovery.Grouping.{
  scan, judge, judge_groups, identity_of, select_stable_path, DiscoveryDiagnostics, discover_all,
  select_single,
}
use yyr4_linux_control.Device.Discovery.Selection.{IsMadeOf, select_single-IsSelected}

abbrev record_of : String → String → String → String → UdevInputRecord
record_of role node path vendor = record {
  device_node = node;
  syspath = path;
  parent_usb_syspath = "usb";
  properties =
      ("ID_BUS", "usb")
      ∷ ("ID_VENDOR_ID", vendor)
      ∷ ("ID_MODEL_ID", "80F4")
      ∷ ("ID_VENDOR", "YOUYOU_TEC.")
      ∷ ("ID_MODEL", "YOUYOU_Keyb_V2")
      ∷ ("ID_USB_INTERFACE_NUM", "02")
      ∷ (role, "1")
      ∷ [];
  devlinks = [];
  device_name = "YYR4";
}

abbrev records : List UdevInputRecord
records =
    record_of "ID_INPUT_KEYBOARD" "event1" "kb" "239A"
    ∷ record_of "ID_INPUT_MOUSE" "event3" "other" "046d"
    ∷ record_of "ID_INPUT_MOUSE" "event2" "ms" "239a"
    ∷ []

abbrev kb_interface : InputInterface
kb_interface = record {
  role = keyboard;
  device_node = "event1";
  device_name = "YYR4";
  usb_interface_number = "02";
  syspath = "kb";
  parent_usb_syspath = "usb";
  devlinks = [];
  stable_path = none;
}

abbrev device : Yyr4Identity
device = record {
  vendor_id = "239a";
  product_id = "80f4";
  manufacturer = "YOUYOU TEC.";
  product = "YOUYOU Keyb_V2";
  usb_parent_syspath = "usb";
  keyboard = kb_interface;
  mouse = record kb_interface { role = mouse; device_node = "event2"; syspath = "ms" };
  serial_present = false;
  local_identity_hint = some "02";
}

selected : select_single records ≡ ok device
unfolding select_single discover_all judge_groups judge identity_of select_stable_path scan survey
    sort_record classify_layout classify_input_role lower lookup insert input_interface
    yyr4_identity
selected = refl

select_single-IsSelected_example :
    ((kb : UdevInputRecord) × (ms : UdevInputRecord) × IsMadeOf records device kb ms)
    × ((diag : DiscoveryDiagnostics) × (discover_all records ≡ ok (device ∷ [], diag))
        × (diag.ambiguous_groups ≡ 0))
select_single-IsSelected_example = select_single-IsSelected records device selected

abbrev diag : DiscoveryDiagnostics
diag = record {
  enumerated_records = 3;
  matched_records = 2;
  complete_groups = 1;
  incomplete_groups = 0;
  rejected_vendor_product = 1;
  rejected_interface = 0;
  ambiguous_groups = 0;
}

discovered : discover_all records ≡ ok (device ∷ [], diag)
unfolding discover_all judge_groups judge identity_of select_stable_path scan survey sort_record
    classify_layout classify_input_role lower lookup insert input_interface yyr4_identity
discovered = refl
