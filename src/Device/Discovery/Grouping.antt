-- ===== src/Device/Discovery/Grouping.antt =====
-- device/discovery.py: the second loop of `discover_all`, over the groups, and `select_single`.
use yyr4_linux_control.Base.{
  ℕ, ◌+◌, String, Bool, true, false, ◌&&◌, not, Option, none, some, List, [], ◌∷◌, ◌++◌, length,
  Result, ok, err, ◌>>=◌, ◌==◌, string_eq, ltb, if◌then◌else◌,
}
use yyr4_linux_control.Base.Dict.{Dict, has_key}
use yyr4_linux_control.Base.Substring.{occurs_in}
use yyr4_linux_control.Device.Identity.{
  InterfaceRole, keyboard, mouse, InputInterface, input_interface, Yyr4Identity, yyr4_identity,
}
use yyr4_linux_control.Device.Discovery.{
  UdevInputRecord, property_or, RecordRole, keyboard_role, mouse_role, ambiguous_role, missing_role,
  classify_input_role, Survey, survey, no_records,
}

-- the variables of the loop over a group
pub record GroupScan : Type 0 where
  pub kb_rec : Option UdevInputRecord
  pub ms_rec : Option UdevInputRecord
  pub group_ambiguous : Bool

-- the first record of a role is kept, a second one makes the group ambiguous
abbrev pub take_keyboard : Option UdevInputRecord → UdevInputRecord → GroupScan → GroupScan
take_keyboard none r g = record g { kb_rec = some r }
take_keyboard (some kb) r g = record g { group_ambiguous = true }

abbrev pub take_mouse : Option UdevInputRecord → UdevInputRecord → GroupScan → GroupScan
take_mouse none r g = record g { ms_rec = some r }
take_mouse (some ms) r g = record g { group_ambiguous = true }

abbrev pub scan_record : RecordRole → UdevInputRecord → GroupScan → GroupScan
scan_record ambiguous_role r g = record g { group_ambiguous = true }
scan_record keyboard_role r g = take_keyboard g.kb_rec r g
scan_record mouse_role r g = take_mouse g.ms_rec r g
scan_record missing_role r g = g

unfoldable pub scan : List UdevInputRecord → GroupScan → GroupScan
scan [] g = g
scan (r ∷ rs) g = scan rs (scan_record (classify_input_role r) r g)

abbrev pub nothing_scanned : GroupScan
nothing_scanned = record { kb_rec = none; ms_rec = none; group_ambiguous = false }

-- the first of the links with a property
abbrev pub first_link : (String → Bool) → List String → Option String
first_link p [] = none
first_link p (l ∷ links) = if p l then some l else first_link p links

abbrev pub or_else : Option String → Option String → Option String
or_else (some l) later = some l
or_else none later = later

unfoldable pub select_stable_path : List String → String → Option String
select_stable_path links suffix =
    or_else (first_link (λ l. occurs_in "by-id" l && occurs_in suffix l) links) (
      or_else (first_link (λ l. occurs_in "by-path" l && occurs_in suffix l) links) (
        first_link
          (λ l.
            occurs_in "by-path" l
            && occurs_in "event" l
            && not (occurs_in "event-kbd" l)
            && not (occurs_in "event-mouse" l))
          links))

abbrev pub interface_of : InterfaceRole → String → UdevInputRecord → InputInterface
interface_of role suffix r = record {
  role = role;
  device_node = r.device_node;
  device_name = r.device_name;
  usb_interface_number = property_or "ID_USB_INTERFACE_NUM" "02" r;
  syspath = r.syspath;
  parent_usb_syspath = r.parent_usb_syspath;
  devlinks = r.devlinks;
  stable_path = select_stable_path r.devlinks suffix;
}

unfoldable pub identity_of : String → UdevInputRecord → UdevInputRecord → Result String Yyr4Identity
identity_of parent kb ms = do
  kb_iface ← input_interface (interface_of keyboard "event-kbd" kb)
  ms_iface ← input_interface (interface_of mouse "event-mouse" ms)
  yyr4_identity (record {
    vendor_id = "239a";
    product_id = "80f4";
    manufacturer = "YOUYOU TEC.";
    product = "YOUYOU Keyb_V2";
    usb_parent_syspath = parent;
    keyboard = kb_iface;
    mouse = ms_iface;
    serial_present = has_key "ID_SERIAL_SHORT" kb.properties;
    local_identity_hint = some (property_or "ID_USB_INTERFACE_NUM" "" kb);
  })

-- the counters of the second loop
pub record Found : Type 0 where
  pub identities : List Yyr4Identity
  pub complete_groups : ℕ
  pub incomplete_groups : ℕ
  pub ambiguous_groups : ℕ

abbrev pub ambiguous : Found → Found
ambiguous f = record f { ambiguous_groups = f.ambiguous_groups + 1 }

abbrev pub incomplete : Found → Found
incomplete f = record f { incomplete_groups = f.incomplete_groups + 1 }

abbrev pub complete : Yyr4Identity → Found → Found
complete d f = record f {
  identities = f.identities ++ d ∷ [];
  complete_groups = f.complete_groups + 1;
}

-- a group whose records are not ambiguous
abbrev pub pair_up :
    String → Option UdevInputRecord → Option UdevInputRecord → Found → Result String Found
pair_up parent none ms f = ok (incomplete f)
pair_up parent (some kb) none f = ok (incomplete f)
pair_up parent (some kb) (some ms) f =
    if kb.device_node == ms.device_node
    then ok (ambiguous f)
    else (do d ← identity_of parent kb ms; ok (complete d f))

unfoldable pub judge : String → GroupScan → Found → Result String Found
judge parent g f =
    if g.group_ambiguous then ok (ambiguous f) else pair_up parent g.kb_rec g.ms_rec f

-- the second loop
unfoldable pub judge_groups : Dict String (List UdevInputRecord) → Found → Result String Found
judge_groups [] f = ok f
judge_groups ((parent, group) ∷ groups) f = do
  f' ← judge parent (scan group nothing_scanned) f
  judge_groups groups f'

abbrev pub nothing_found : Found
nothing_found = record {
  identities = [];
  complete_groups = 0;
  incomplete_groups = 0;
  ambiguous_groups = 0;
}

pub record DiscoveryDiagnostics : Type 0 where
  pub enumerated_records : ℕ
  pub matched_records : ℕ
  pub complete_groups : ℕ
  pub incomplete_groups : ℕ
  pub rejected_vendor_product : ℕ
  pub rejected_interface : ℕ
  pub ambiguous_groups : ℕ

abbrev pub diagnostics : ℕ → Survey → Found → DiscoveryDiagnostics
diagnostics enumerated s f = record {
  enumerated_records = enumerated;
  matched_records = s.matched_records;
  complete_groups = f.complete_groups;
  incomplete_groups = f.incomplete_groups;
  rejected_vendor_product = s.rejected_vendor_product;
  rejected_interface = s.rejected_interface;
  ambiguous_groups = f.ambiguous_groups;
}

-- `discover_all`; a ValueError of an identity goes through
unfoldable pub discover_all :
    List UdevInputRecord → Result String (List Yyr4Identity × DiscoveryDiagnostics)
discover_all records = do
  f ← judge_groups (survey records no_records).groups nothing_found
  ok (f.identities, diagnostics (length records) (survey records no_records) f)

pub data SelectError : Type 0 where
  device_ambiguous device_incomplete device_not_found : SelectError
  value_error : String → SelectError

abbrev pub pick : List Yyr4Identity → DiscoveryDiagnostics → Result SelectError Yyr4Identity
pick [] diag =
    if ltb 0 diag.ambiguous_groups
    then err device_ambiguous
    else if ltb 0 diag.incomplete_groups
    then err device_incomplete
    else err device_not_found
pick (d ∷ []) diag = if ltb 0 diag.ambiguous_groups then err device_ambiguous else ok d
pick (d ∷ e ∷ ds) diag = err device_ambiguous

-- `select_single`
unfoldable pub select_single : List UdevInputRecord → Result SelectError Yyr4Identity
select_single records = elim (discover_all records) [
  | err message ↦ err (value_error message)
  | ok (identities, diag) ↦ pick identities diag
]
