-- ===== src/Device/Discovery/Counts.antt =====
-- The counters of the discovery.
use yyr4_linux_control.Base.{
  ℕ, ◌+◌, ◌≤◌, ◌≡◌, inl, inr, String, Option, none, some, List, [], ◌∷◌, length, length-append, ok,
  arith, ◌==◌, string_eq, Bool-cases, >>=-eq-ok, ◌>>=◌,
}
use yyr4_linux_control.Base.Dict.{Dict}
use yyr4_linux_control.Device.Identity.{Yyr4Identity}
use yyr4_linux_control.Device.Discovery.{
  UdevInputRecord, Sorting, not_usb, wrong_product, wrong_interface, matched, sort_record, Survey,
  survey, no_records, count_record,
}
use yyr4_linux_control.Device.Discovery.Grouping.{
  GroupScan, scan, nothing_scanned, identity_of, Found, judge, pair_up, judge_groups, nothing_found,
  DiscoveryDiagnostics, discover_all, complete,
}

abbrev sorted : Survey → ℕ
sorted s = s.matched_records + s.rejected_vendor_product + s.rejected_interface

count_record_lem :
    (x : Sorting) (r : UdevInputRecord) (s : Survey) → sorted (count_record x r s) ≤ sorted s + 1
count_record_lem not_usb r s = omega arith
count_record_lem wrong_product r s = omega arith
count_record_lem wrong_interface r s = omega arith
count_record_lem matched r s = omega arith

survey_lem : (rs : List UdevInputRecord) (s : Survey) → sorted (survey rs s) ≤ sorted s + length rs
unfolding survey
survey_lem [] s = omega arith
survey_lem (r ∷ rs) s =
    omega (
      arith,
      survey_lem rs (count_record (sort_record r) r s),
      count_record_lem (sort_record r) r s,
    )

abbrev judged : Found → ℕ
judged f = f.complete_groups + f.incomplete_groups + f.ambiguous_groups

-- one more group
abbrev Counts : Found → Found → Type 0
Counts f f' =
    (judged f' ≡ judged f + 1)
    × (length f'.identities + f.complete_groups ≡ length f.identities + f'.complete_groups)

pair_up-Counts :
    (parent : String) (kb ms : Option UdevInputRecord) (f f' : Found)
    → pair_up parent kb ms f ≡ ok f'
    → Counts f f'
pair_up-Counts parent none ms f f' h = ground arith
pair_up-Counts parent (some kb) none f f' h = ground arith
pair_up-Counts parent (some kb) (some ms) f f' h =
    elim (Bool-cases (kb.device_node == ms.device_node)) [
      | inl e ↦ ground arith
      | inr e ↦
          let h1 : (identity_of parent kb ms >>= λ d. ok (complete d f)) ≡ ok f' = ground arith in
          let (d, ed, h2) = >>=-eq-ok (identity_of parent kb ms) _ h1 in
          ground (arith, length-append f.identities (d ∷ []))
    ]

judge-Counts :
    (parent : String) (g : GroupScan) (f f' : Found) → judge parent g f ≡ ok f' → Counts f f'
unfolding judge
judge-Counts parent g f f' h = elim (Bool-cases g.group_ambiguous) [
  | inl e ↦ ground arith
  | inr e ↦ pair_up-Counts parent g.kb_rec g.ms_rec f f' (ground arith)
]

judge_groups_lem :
    (groups : Dict String (List UdevInputRecord)) (f f' : Found)
    → judge_groups groups f ≡ ok f'
    → (judged f' ≡ judged f + length groups)
      × (length f'.identities + f.complete_groups ≡ length f.identities + f'.complete_groups)
unfolding judge_groups
judge_groups_lem [] f f' h = ground arith
judge_groups_lem ((parent, group) ∷ groups) f f' h =
    let (f1, e, h1) = >>=-eq-ok (judge parent (scan group nothing_scanned) f) _ h in
    let (c, l) = judge-Counts parent (scan group nothing_scanned) f f1 e in
    let (c', l') = judge_groups_lem groups f1 f' h1 in (omega (arith, c, c'), omega (arith, l, l'))

-- The diagnostics of a discovery add up: the records that match or are rejected are at most the
-- enumerated ones, each group of the matching records is complete, incomplete or ambiguous, and the
-- complete ones are as many as the devices found.
pub discover_all-diagnostics :
    (records : List UdevInputRecord) (ds : List Yyr4Identity) (diag : DiscoveryDiagnostics)
    → discover_all records ≡ ok (ds, diag)
    → (diag.matched_records + diag.rejected_vendor_product + diag.rejected_interface
        ≤ diag.enumerated_records)
      × (diag.complete_groups + diag.incomplete_groups + diag.ambiguous_groups
          ≡ length (survey records no_records).groups)
      × (length ds ≡ diag.complete_groups)
unfolding discover_all
discover_all-diagnostics records ds diag h =
    let (f, e, h1) =
      >>=-eq-ok (judge_groups (survey records no_records).groups nothing_found) _ h in
    let (c, l) = judge_groups_lem (survey records no_records).groups nothing_found f e in
    ground (arith, survey_lem records no_records)
