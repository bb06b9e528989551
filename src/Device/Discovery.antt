-- ===== src/Device/Discovery.antt =====
-- device/discovery.py: `YYR4DeviceDiscovery` on the records that the backend enumerates.
pub mod Grouping
pub mod Candidates
pub mod Selection
pub mod Counts
mod Tests
use yyr4_linux_control.Base.{
  ℕ, ◌+◌, String, Bool, true, false, ◌&&◌, ◌||◌, not, Option, none, some, List, [], ◌∷◌, ◌++◌,
  length, Result, ok, err, ◌>>=◌, ◌==◌, string_eq, ltb, if◌then◌else◌,
}
use yyr4_linux_control.Base.Dict.{Dict, lookup, insert, has_key}
use yyr4_linux_control.Base.Substring.{lower, zfill_2, occurs_in}
use yyr4_linux_control.Device.Identity.{
  InterfaceRole, keyboard, mouse, InputInterface, input_interface, Yyr4Identity, yyr4_identity,
}

pub record UdevInputRecord : Type 0 where
  pub device_node : String
  pub syspath : String
  pub parent_usb_syspath : String
  pub properties : Dict String String
  pub devlinks : List String
  pub device_name : String

-- `properties.get(key, default)`
abbrev pub property_or : String → String → UdevInputRecord → String
property_or key default_value r = elim (lookup key r.properties) [
  | none ↦ default_value
  | some v ↦ v
]

-- whether a text is a name, in one of its two spellings
abbrev pub is_manufacturer : String → Bool
is_manufacturer s = s == "YOUYOU TEC." || s == "YOUYOU_TEC."

abbrev pub is_product : String → Bool
is_product s = s == "YOUYOU Keyb_V2" || s == "YOUYOU_Keyb_V2"

pub data Layout : Type 0 where
  canonical reversed : Layout

-- `_classify_yyr4_descriptor_layout`
unfoldable pub classify_layout : String → String → Option Layout
classify_layout manufacturer product =
    if is_manufacturer manufacturer && is_product product
    then some canonical
    else if is_product manufacturer && is_manufacturer product
    then some reversed
    else none

pub data RecordRole : Type 0 where
  keyboard_role mouse_role ambiguous_role missing_role : RecordRole

-- `record.properties.get(key) == "1"`
abbrev pub is_set : String → UdevInputRecord → Bool
is_set key r = elim (lookup key r.properties) [ none ↦ false | some v ↦ v == "1" ]

-- `_classify_input_role`
unfoldable pub classify_input_role : UdevInputRecord → RecordRole
classify_input_role r =
    let kb = is_set "ID_INPUT_KEYBOARD" r in
    let ms = is_set "ID_INPUT_MOUSE" r in
    if kb && ms
    then ambiguous_role
    else if kb
    then keyboard_role
    else if ms
    then mouse_role
    else missing_role

-- what the first loop makes of a record
pub data Sorting : Type 0 where
  not_usb wrong_product wrong_interface matched : Sorting

abbrev pub vid : UdevInputRecord → String
vid r = lower (property_or "YYR4_NORMALIZED_VID" (property_or "ID_VENDOR_ID" "" r) r)

abbrev pub pid : UdevInputRecord → String
pid r = lower (property_or "YYR4_NORMALIZED_PID" (property_or "ID_MODEL_ID" "" r) r)

abbrev pub mfg : UdevInputRecord → String
mfg r = property_or "YYR4_NORMALIZED_MANUFACTURER" (property_or "ID_VENDOR" "" r) r

abbrev pub prod : UdevInputRecord → String
prod r = property_or "YYR4_NORMALIZED_PRODUCT" (property_or "ID_MODEL" "" r) r

abbrev pub is_usb : UdevInputRecord → Bool
is_usb r = elim (lookup "ID_BUS" r.properties) [ none ↦ false | some bus ↦ bus == "usb" ]

abbrev pub on_interface : UdevInputRecord → Bool
on_interface r = zfill_2 (property_or "ID_USB_INTERFACE_NUM" "" r) == "02"

unfoldable pub sort_record : UdevInputRecord → Sorting
sort_record r =
    if not (is_usb r)
    then not_usb
    else if not (vid r == "239a") || not (pid r == "80f4")
    then wrong_product
    else elim (classify_layout (mfg r) (prod r)) [
      | none ↦ wrong_product
      | some layout ↦ if on_interface r then matched else wrong_interface
    ]

-- the counters of the first loop, and the groups by parent
pub record Survey : Type 0 where
  pub matched_records : ℕ
  pub rejected_vendor_product : ℕ
  pub rejected_interface : ℕ
  pub groups : Dict String (List UdevInputRecord)

-- `append` to the group that is there, or to a new one
abbrev pub append_to :
    Option (List UdevInputRecord)
    → UdevInputRecord
    → Dict String (List UdevInputRecord)
    → Dict String (List UdevInputRecord)
append_to none r groups = insert r.parent_usb_syspath (r ∷ []) groups
append_to (some group) r groups = insert r.parent_usb_syspath (group ++ r ∷ []) groups

-- `groups.setdefault(rec.parent_usb_syspath, []).append(rec)`
abbrev pub add_to_group :
    UdevInputRecord → Dict String (List UdevInputRecord) → Dict String (List UdevInputRecord)
add_to_group r groups = append_to (lookup r.parent_usb_syspath groups) r groups

abbrev pub count_record : Sorting → UdevInputRecord → Survey → Survey
count_record not_usb r s = s
count_record wrong_product r s = record s {
  rejected_vendor_product = s.rejected_vendor_product + 1;
}
count_record wrong_interface r s = record s { rejected_interface = s.rejected_interface + 1 }
count_record matched r s = record s {
  matched_records = s.matched_records + 1;
  groups = add_to_group r s.groups;
}

-- the first loop
unfoldable pub survey : List UdevInputRecord → Survey → Survey
survey [] s = s
survey (r ∷ rs) s = survey rs (count_record (sort_record r) r s)

abbrev pub no_records : Survey
no_records = record {
  matched_records = 0;
  rejected_vendor_product = 0;
  rejected_interface = 0;
  groups = [];
}
