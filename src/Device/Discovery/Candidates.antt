-- ===== src/Device/Discovery/Candidates.antt =====
-- The groups of the discovery have candidates only, and a scan picks those of the two roles.
use yyr4_linux_control.Base.{
  ◌≡◌, refl, sym, subst, ◌⊎◌, inl, inr, String, true, false, Option, none, some, List, [], ◌∷◌,
  ◌++◌, All, All-append, arith, ◌==◌, string_eq, ==_sound, Bool-cases,
}
use yyr4_linux_control.Base.Dict.{Dict, lookup, insert}
use yyr4_linux_control.Device.Discovery.{
  UdevInputRecord, RecordRole, keyboard_role, mouse_role, ambiguous_role, missing_role,
  classify_input_role, Sorting, not_usb, wrong_product, wrong_interface, matched, sort_record,
  Survey, survey, count_record, append_to,
}
use yyr4_linux_control.Device.Discovery.Grouping.{
  GroupScan, scan, scan_record, take_keyboard, take_mouse,
}

-- one of the records
abbrev pub IsAmong : UdevInputRecord → List UdevInputRecord → Type 0
IsAmong r [] = true ≡ false
IsAmong r (x ∷ xs) = (r ≡ x) ⊎ IsAmong r xs

-- a record that was enumerated, is the product's on its interface, and has this parent
abbrev pub IsCandidate : List UdevInputRecord → String → UdevInputRecord → Type 0
IsCandidate records parent r =
    IsAmong r records × (sort_record r ≡ matched) × (r.parent_usb_syspath ≡ parent)

unfoldable pub AreGrouped : List UdevInputRecord → Dict String (List UdevInputRecord) → Type 0
AreGrouped records [] = Unit
AreGrouped records ((parent, group) ∷ groups) =
    All (IsCandidate records parent) group × AreGrouped records groups

module _ (records : List UdevInputRecord) where
  insert-AreGrouped :
      (parent : String) (group : List UdevInputRecord) (groups : Dict String (List UdevInputRecord))
      → All (IsCandidate records parent) group
      → AreGrouped records groups
      → AreGrouped records (insert parent group groups)
  unfolding insert AreGrouped
  insert-AreGrouped parent group [] h hs = (h, tt)
  insert-AreGrouped parent group ((other, old) ∷ groups) h (g, gs) =
      elim (Bool-cases (parent == other)) [
        | inl e ↦
            rw e (subst (λ p. All (IsCandidate records p) group) (==_sound parent other e) h, gs)
        | inr e ↦ rw e (g, insert-AreGrouped parent group groups h gs)
      ]

  lookup-AreGrouped :
      (parent : String) (groups : Dict String (List UdevInputRecord)) {group : List UdevInputRecord}
      → AreGrouped records groups
      → lookup parent groups ≡ some group
      → All (IsCandidate records parent) group
  unfolding lookup AreGrouped
  lookup-AreGrouped parent [] hs e = cc
  lookup-AreGrouped parent ((other, old) ∷ groups) {group = group} (g, gs) e =
      elim (Bool-cases (parent == other)) [
        | inl p ↦
            subst (λ q. All (IsCandidate records q) group) (sym (==_sound parent other p))
              (subst (All (IsCandidate records other)) (ground arith) g)
        | inr p ↦ lookup-AreGrouped parent groups gs (ground arith)
      ]

  append_to-AreGrouped :
      (found : Option (List UdevInputRecord)) (r : UdevInputRecord)
      (groups : Dict String (List UdevInputRecord))
      → IsCandidate records r.parent_usb_syspath r
      → lookup r.parent_usb_syspath groups ≡ found
      → AreGrouped records groups
      → AreGrouped records (append_to found r groups)
  append_to-AreGrouped none r groups new e hs =
      insert-AreGrouped r.parent_usb_syspath (r ∷ []) groups (new, tt) hs
  append_to-AreGrouped (some group) r groups new e hs =
      insert-AreGrouped r.parent_usb_syspath (group ++ r ∷ []) groups
        (All-append (IsCandidate records r.parent_usb_syspath) group (r ∷ [])
          (lookup-AreGrouped r.parent_usb_syspath groups hs e) (new, tt))
        hs

  count_record-AreGrouped :
      (x : Sorting) (r : UdevInputRecord) (s : Survey)
      → sort_record r ≡ x
      → IsAmong r records
      → AreGrouped records s.groups
      → AreGrouped records (count_record x r s).groups
  count_record-AreGrouped not_usb r s e among hs = hs
  count_record-AreGrouped wrong_product r s e among hs = hs
  count_record-AreGrouped wrong_interface r s e among hs = hs
  count_record-AreGrouped matched r s e among hs =
      append_to-AreGrouped (lookup r.parent_usb_syspath s.groups) r s.groups (among, e, refl) refl
        hs

  pub survey-AreGrouped :
      (rest : List UdevInputRecord) (s : Survey)
      → All (λ r. IsAmong r records) rest
      → AreGrouped records s.groups
      → AreGrouped records (survey rest s).groups
  unfolding survey
  survey-AreGrouped [] s among hs = hs
  survey-AreGrouped (r ∷ rest) s (a, among) hs =
      survey-AreGrouped rest (count_record (sort_record r) r s) among
        (count_record-AreGrouped (sort_record r) r s refl a hs)

-- what the scan of a group has found
abbrev pub IsRole : RecordRole → (UdevInputRecord → Type 0) → Option UdevInputRecord → Type 0
IsRole role P none = Unit
IsRole role P (some r) = P r × (classify_input_role r ≡ role)

module _ (P : UdevInputRecord → Type 0) where
  abbrev pub IsScanned : GroupScan → Type 0
  IsScanned g = IsRole keyboard_role P g.kb_rec × IsRole mouse_role P g.ms_rec

  take_keyboard-IsScanned :
      (found : Option UdevInputRecord) (r : UdevInputRecord) (g : GroupScan)
      → P r × (classify_input_role r ≡ keyboard_role)
      → IsScanned g
      → IsScanned (take_keyboard found r g)
  take_keyboard-IsScanned none r g p (k, m) = (p, m)
  take_keyboard-IsScanned (some kb) r g p h = h

  take_mouse-IsScanned :
      (found : Option UdevInputRecord) (r : UdevInputRecord) (g : GroupScan)
      → P r × (classify_input_role r ≡ mouse_role)
      → IsScanned g
      → IsScanned (take_mouse found r g)
  take_mouse-IsScanned none r g p (k, m) = (k, p)
  take_mouse-IsScanned (some ms) r g p h = h

  scan_record-IsScanned :
      (role : RecordRole) (r : UdevInputRecord) (g : GroupScan)
      → classify_input_role r ≡ role
      → P r
      → IsScanned g
      → IsScanned (scan_record role r g)
  scan_record-IsScanned keyboard_role r g e p h = take_keyboard-IsScanned g.kb_rec r g (p, e) h
  scan_record-IsScanned mouse_role r g e p h = take_mouse-IsScanned g.ms_rec r g (p, e) h
  scan_record-IsScanned ambiguous_role r g e p h = h
  scan_record-IsScanned missing_role r g e p h = h

  pub scan-IsScanned :
      (rest : List UdevInputRecord) (g : GroupScan)
      → All P rest
      → IsScanned g
      → IsScanned (scan rest g)
  unfolding scan
  scan-IsScanned [] g ps h = h
  scan-IsScanned (r ∷ rest) g (p, ps) h =
      scan-IsScanned rest (scan_record (classify_input_role r) r g) ps
        (scan_record-IsScanned (classify_input_role r) r g refl p h)
