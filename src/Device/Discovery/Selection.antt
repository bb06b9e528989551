-- ===== src/Device/Discovery/Selection.antt =====
-- What the discovery of devices gives.
use yyr4_linux_control.Base.{
  ◌≡◌, refl, ◌∙◌, sym, ap, subst, inl, inr, String, not, Option, none, some, List, [], ◌∷◌, All,
  All-append, ok, arith, ◌==◌, string_eq, Bool-cases, Result-cases, >>=-eq-ok, ok-injective, ◌>>=◌,
  raise_if,
}
use yyr4_linux_control.Base.Dict.{Dict}
use yyr4_linux_control.Device.Identity.{
  Yyr4Identity, InputInterface, keyboard, mouse, input_interface, yyr4_identity, check_interfaces,
  is_hex_text,
}
use yyr4_linux_control.Base.Text.{is_empty}
use yyr4_linux_control.Base.Substring.{lower}
use yyr4_linux_control.Device.Discovery.{
  UdevInputRecord, keyboard_role, mouse_role, classify_input_role, survey, no_records,
}
use yyr4_linux_control.Device.Discovery.Grouping.{
  GroupScan, scan, nothing_scanned, identity_of, interface_of, Found, judge, pair_up, judge_groups,
  nothing_found, DiscoveryDiagnostics, discover_all, select_single, pick, complete, ambiguous,
}
use yyr4_linux_control.Device.Discovery.Candidates.{
  IsAmong, IsCandidate, AreGrouped, survey-AreGrouped, IsRole, scan-IsScanned,
}

-- the device is made of a keyboard record and a mouse record of its parent
abbrev pub IsMadeOf :
    List UdevInputRecord → Yyr4Identity → UdevInputRecord → UdevInputRecord → Type 0
IsMadeOf records d kb ms =
    (IsCandidate records d.usb_parent_syspath kb × (classify_input_role kb ≡ keyboard_role))
    × (IsCandidate records d.usb_parent_syspath ms × (classify_input_role ms ≡ mouse_role))
    × (d.keyboard.device_node ≡ kb.device_node)
    × (d.mouse.device_node ≡ ms.device_node)

abbrev pub IsSelected : List UdevInputRecord → Yyr4Identity → Type 0
IsSelected records d = (kb : UdevInputRecord) × (ms : UdevInputRecord) × IsMadeOf records d kb ms

input_interface-fields :
    (i j : InputInterface) → input_interface i ≡ ok j → j.device_node ≡ i.device_node
unfolding input_interface
input_interface-fields i j h = ground arith

yyr4_identity-fields :
    (d e : Yyr4Identity)
    → yyr4_identity d ≡ ok e
    → (e.usb_parent_syspath ≡ d.usb_parent_syspath)
      × (e.keyboard ≡ d.keyboard)
      × (e.mouse ≡ d.mouse)
unfolding yyr4_identity
yyr4_identity-fields d e h =
    let (u1, e1, h1) = >>=-eq-ok (raise_if (not (is_hex_text 4 (lower d.vendor_id))) _) _ h in
    let (u2, e2, h2) = >>=-eq-ok (raise_if (not (is_hex_text 4 (lower d.product_id))) _) _ h1 in
    let (u3, e3, h3) = >>=-eq-ok (raise_if (is_empty d.manufacturer) _) _ h2 in
    let (u4, e4, h4) = >>=-eq-ok (raise_if (is_empty d.product) _) _ h3 in
    let (u5, e5, h5) = >>=-eq-ok (check_interfaces d) _ h4 in
    let same = sym (ok-injective h5) in
    (
      ap (λ (x : Yyr4Identity). x.usb_parent_syspath) same,
      ap (λ (x : Yyr4Identity). x.keyboard) same,
      ap (λ (x : Yyr4Identity). x.mouse) same,
    )

module _ (records : List UdevInputRecord) where
  identity_of-IsSelected :
      (parent : String) (kb ms : UdevInputRecord) {d : Yyr4Identity}
      → IsCandidate records parent kb × (classify_input_role kb ≡ keyboard_role)
      → IsCandidate records parent ms × (classify_input_role ms ≡ mouse_role)
      → identity_of parent kb ms ≡ ok d
      → IsSelected records d
  unfolding identity_of
  identity_of-IsSelected parent kb ms {d = d} hk hm h =
      let (k, ek, h1) = >>=-eq-ok (input_interface (interface_of keyboard "event-kbd" kb)) _ h in
      let (m, em, h2) = >>=-eq-ok (input_interface (interface_of mouse "event-mouse" ms)) _ h1 in
      let (p, fk, fm) = yyr4_identity-fields _ d h2 in
      (
        kb,
        ms,
        (
          (subst (λ q. IsCandidate records q kb × (classify_input_role kb ≡ keyboard_role)) (sym p)
              hk),
          (subst (λ q. IsCandidate records q ms × (classify_input_role ms ≡ mouse_role)) (sym p)
              hm),
          ap (λ (x : InputInterface). x.device_node) fk ∙ input_interface-fields _ k ek,
          ap (λ (x : InputInterface). x.device_node) fm ∙ input_interface-fields _ m em,
        ),
      )

  pair_up-IsSelected :
      (parent : String) (kb ms : Option UdevInputRecord) (f : Found) {f' : Found}
      → IsRole keyboard_role (IsCandidate records parent) kb
      → IsRole mouse_role (IsCandidate records parent) ms
      → All (IsSelected records) f.identities
      → pair_up parent kb ms f ≡ ok f'
      → All (IsSelected records) f'.identities
  pair_up-IsSelected parent none ms f hk hm hs h =
      subst (λ x. All (IsSelected records) (x.identities)) (ok-injective h) hs
  pair_up-IsSelected parent (some kb) none f hk hm hs h =
      subst (λ x. All (IsSelected records) (x.identities)) (ok-injective h) hs
  pair_up-IsSelected parent (some kb) (some ms) f {f' = f'} hk hm hs h =
      elim (Bool-cases (kb.device_node == ms.device_node)) [
        | inl e ↦
            subst (λ x. All (IsSelected records) (x.identities))
              (ok-injective {E = String} {a = ambiguous f} {b = f'} (ground arith)) hs
        | inr e ↦
            let h1 : (identity_of parent kb ms >>= λ d. ok (complete d f)) ≡ ok f' = ground arith in
            let (d, ed, h2) = >>=-eq-ok (identity_of parent kb ms) _ h1 in
            subst (λ x. All (IsSelected records) (x.identities)) (ok-injective h2)
              (All-append (IsSelected records) f.identities (d ∷ []) hs
                (identity_of-IsSelected parent kb ms hk hm ed, tt))
      ]

  judge-IsSelected :
      (parent : String) (g : GroupScan) (f : Found) {f' : Found}
      → IsRole keyboard_role (IsCandidate records parent) g.kb_rec
      → IsRole mouse_role (IsCandidate records parent) g.ms_rec
      → All (IsSelected records) f.identities
      → judge parent g f ≡ ok f'
      → All (IsSelected records) f'.identities
  unfolding judge
  judge-IsSelected parent g f {f' = f'} hk hm hs h = elim (Bool-cases g.group_ambiguous) [
    | inl e ↦
        subst (λ x. All (IsSelected records) (x.identities))
          (ok-injective {E = String} {a = ambiguous f} {b = f'} (ground arith)) hs
    | inr e ↦ pair_up-IsSelected parent g.kb_rec g.ms_rec f {f' = f'} hk hm hs (ground arith)
  ]

  judge_groups-IsSelected :
      (groups : Dict String (List UdevInputRecord)) (f : Found) {f' : Found}
      → AreGrouped records groups
      → All (IsSelected records) f.identities
      → judge_groups groups f ≡ ok f'
      → All (IsSelected records) f'.identities
  unfolding judge_groups AreGrouped
  judge_groups-IsSelected [] f gs hs h =
      subst (λ x. All (IsSelected records) (x.identities)) (ok-injective h) hs
  judge_groups-IsSelected ((parent, group) ∷ groups) f (g, gs) hs h =
      let (f1, e, h1) = >>=-eq-ok (judge parent (scan group nothing_scanned) f) _ h in
      let (k, m) = scan-IsScanned (IsCandidate records parent) group nothing_scanned g (tt, tt) in
      judge_groups-IsSelected groups f1 gs
        (judge-IsSelected parent (scan group nothing_scanned) f k m hs e) h1

  pick-IsSelected :
      (ds : List Yyr4Identity) (diag : DiscoveryDiagnostics) {d : Yyr4Identity}
      → All (IsSelected records) ds
      → pick ds diag ≡ ok d
      → IsSelected records d × (ds ≡ d ∷ []) × (diag.ambiguous_groups ≡ 0)
  pick-IsSelected [] diag hs h = ground arith
  pick-IsSelected (x ∷ []) diag {d = d} (hx, hs) h =
      let same : x ≡ d = ground arith in
      (subst (IsSelected records) same hx, ap (λ y. y ∷ []) same, ground arith)
  pick-IsSelected (x ∷ y ∷ ds) diag hs h = ground arith

  All-IsAmong :
      (rest : List UdevInputRecord)
      → ((r : UdevInputRecord) → IsAmong r rest → IsAmong r records)
      → All (λ r. IsAmong r records) rest
  All-IsAmong [] h = tt
  All-IsAmong (r ∷ rest) h = (h r (inl refl), All-IsAmong rest (λ x p. h x (inr p)))

-- The device that is selected is made of one keyboard record and one mouse record, both enumerated,
-- both of the product and on its interface, and both below the device's own parent; it is the only
-- device found, and no group was ambiguous.
pub select_single-IsSelected :
    (records : List UdevInputRecord) (d : Yyr4Identity)
    → select_single records ≡ ok d
    → ((kb : UdevInputRecord) × (ms : UdevInputRecord) × IsMadeOf records d kb ms)
      × ((diag : DiscoveryDiagnostics) × (discover_all records ≡ ok (d ∷ [], diag))
          × (diag.ambiguous_groups ≡ 0))
unfolding select_single discover_all AreGrouped
select_single-IsSelected records d h = elim (Result-cases (discover_all records)) [
  | inr (e, p) ↦ ground arith
  | inl ((ds, diag), p) ↦
      let (f, e, h1) =
        >>=-eq-ok (judge_groups (survey records no_records).groups nothing_found) _ p in
      let grouped =
        survey-AreGrouped records records no_records (All-IsAmong records records (λ r q. q)) tt in
      let (selected, only, clear) =
        pick-IsSelected records ds diag
          (subst (λ (x : List Yyr4Identity × DiscoveryDiagnostics). All (IsSelected records) x.0)
            (ok-injective h1)
            (judge_groups-IsSelected records (survey records no_records).groups nothing_found
              grouped tt e))
          (ground arith) in
      (selected, (diag, p ∙ ap (λ (x : List Yyr4Identity). ok (x, diag)) only, clear))
]
