-- ===== src/Device/Identity.antt =====
-- device/identity.py: the two interfaces of a device, and the device, with their checks.
use Prim.Native.Char.{code}
use yyr4_linux_control.Base.{
  ℕ, zero, suc, String, Bool, true, false, ◌&&◌, ◌||◌, not, Option, List, Result, ok, raise_if,
  ◌>>◌, ◌==◌, string_eq, leb, ⊤,
}
use yyr4_linux_control.Base.Text.{is_empty}
use yyr4_linux_control.Base.Substring.{lower, zfill_2}

pub data InterfaceRole : Type 0 where
  keyboard mouse : InterfaceRole

abbrev pub is_keyboard : InterfaceRole → Bool
is_keyboard keyboard = true
is_keyboard mouse = false

pub record InputInterface : Type 0 where
  pub role : InterfaceRole
  pub device_node : String
  pub device_name : String
  pub usb_interface_number : String
  pub syspath : String
  pub parent_usb_syspath : String
  pub devlinks : List String
  pub stable_path : Option String

-- `InputInterface.__post_init__`, on the fields that are given
unfoldable pub input_interface : InputInterface → Result String InputInterface
input_interface i = do
  raise_if (is_empty i.device_node) "device_node cannot be empty"
  raise_if (is_empty i.syspath) "syspath cannot be empty"
  raise_if (is_empty i.parent_usb_syspath) "parent_usb_syspath cannot be empty"
  raise_if (is_empty i.usb_interface_number) "usb_interface_number cannot be empty"
  ok (record i { usb_interface_number = zfill_2 i.usb_interface_number })

pub record Yyr4Identity : Type 0 where
  pub vendor_id : String
  pub product_id : String
  pub manufacturer : String
  pub product : String
  pub usb_parent_syspath : String
  pub keyboard : InputInterface
  pub mouse : InputInterface
  pub serial_present : Bool
  pub local_identity_hint : Option String

-- `c in "0123456789abcdef"`
abbrev pub is_hex : ℕ → Bool
is_hex c = (leb b'0' c && leb c b'9') || (leb b'a' c && leb c b'f')

-- the text has this many characters, all of them hexadecimal
abbrev pub is_hex_text : ℕ → String → Bool
is_hex_text zero String.[] = true
is_hex_text zero (String.◌∷◌ c s) = false
is_hex_text (suc n) String.[] = false
is_hex_text (suc n) (String.◌∷◌ c s) = is_hex (code c) && is_hex_text n s

-- the checks on the two interfaces
abbrev pub check_interfaces : Yyr4Identity → Result String ⊤
check_interfaces d = do
  raise_if (not (d.keyboard.parent_usb_syspath == d.usb_parent_syspath))
      "Keyboard must share the parent_usb_syspath"
  raise_if (not (d.mouse.parent_usb_syspath == d.usb_parent_syspath))
      "Mouse must share the parent_usb_syspath"
  raise_if (not (d.keyboard.usb_interface_number == "02")) "Keyboard must be on interface 02"
  raise_if (not (d.mouse.usb_interface_number == "02")) "Mouse must be on interface 02"
  raise_if
      ((is_keyboard d.keyboard.role && is_keyboard d.mouse.role)
        || (not (is_keyboard d.keyboard.role) && not (is_keyboard d.mouse.role)))
      "Keyboard and mouse cannot have the same role"
  raise_if (d.keyboard.device_node == d.mouse.device_node)
      "Keyboard and mouse cannot have the same device_node"
  raise_if (d.keyboard.syspath == d.mouse.syspath) "Keyboard and mouse cannot have the same syspath"
  ok tt

-- `YYR4Identity.__post_init__`
unfoldable pub yyr4_identity : Yyr4Identity → Result String Yyr4Identity
yyr4_identity d = do
  raise_if (not (is_hex_text 4 (lower d.vendor_id))) "Invalid vendor_id"
  raise_if (not (is_hex_text 4 (lower d.product_id))) "Invalid product_id"
  raise_if (is_empty d.manufacturer) "manufacturer cannot be empty"
  raise_if (is_empty d.product) "product cannot be empty"
  check_interfaces d
  ok (record d { vendor_id = lower d.vendor_id; product_id = lower d.product_id })
