-- ===== src/Transport/Codebook/Lookup.antt =====
-- A codebook that was built reads every mapping back, in all its directions.
use text.Mathlib.Text.{starts_with}
use yyr4_linux_control.Base.{
  ◌≡◌, String, true, some, List, [], ◌∷◌, arith, ok, All, >>=-eq-ok, string_eq, subst, refl,
  ok-injective, raise_if-eq-ok,
}
use yyr4_linux_control.Base.Dict.{
  has_key, lookup-insert_self, lookup-insert_new, has_key-insert, lookup,
}
use yyr4_linux_control.Domain.{TransportCode, PhysicalControl}
use yyr4_linux_control.Transport.Codebook.{
  Codebook, Building, codebook, add_mapping, add_mappings, empty_book, get_by_control_id,
  get_by_vendor_name, get_by_transport_code, get_code_for_control_id, string_repr,
}

-- The four lookups find the mapping, and its key is a function key.
pub record IsRegistered (book : Codebook) (m : TransportCode × PhysicalControl) : Type 0 where
  pub by_id : get_by_control_id book m.1.control_id ≡ some m.1
  pub by_vendor : get_by_vendor_name book m.1.vendor_name ≡ some m.1
  pub by_code : get_by_transport_code book m.0 ≡ some m.1
  pub code_of : get_code_for_control_id book m.1.control_id ≡ some m.0
  pub is_f_key : starts_with m.0.primary_key "KEY_F" ≡ true

-- the two dicts keyed by control id have the same keys
record IsAligned (book : Codebook) : Type 0 where
  at : (id : String) → has_key id book.id_to_code ≡ has_key id book.id_to_control

module _ (b : Building) (code : TransportCode) (ctrl : PhysicalControl) {b' : Building} where
  add_mapping-IsRegistered : add_mapping b code ctrl ≡ ok b' → IsRegistered b'.book (code, ctrl)
  unfolding add_mapping get_by_control_id get_by_vendor_name get_by_transport_code
      get_code_for_control_id
  add_mapping-IsRegistered h = record {
    by_id = ground (arith, lookup-insert_self ctrl.control_id ctrl b.book.id_to_control);
    by_vendor = ground (arith, lookup-insert_self ctrl.vendor_name ctrl b.book.vendor_to_control);
    by_code = ground (arith, lookup-insert_self (string_repr code) ctrl b.book.code_to_control);
    code_of = ground (arith, lookup-insert_self ctrl.control_id code b.book.id_to_code);
    is_f_key = ground arith;
  }

  add_mapping-IsAligned : add_mapping b code ctrl ≡ ok b' → IsAligned b.book → IsAligned b'.book
  unfolding add_mapping
  add_mapping-IsAligned h a = record {
    at = λ id. ground (
      arith,
      a.at id,
      has_key-insert id ctrl.control_id ctrl b.book.id_to_control,
      has_key-insert id ctrl.control_id code b.book.id_to_code,
    );
  }

  add_mapping_keeps :
      (m : TransportCode × PhysicalControl)
      → add_mapping b code ctrl ≡ ok b'
      → IsAligned b.book
      → IsRegistered b.book m
      → IsRegistered b'.book m
  unfolding add_mapping get_by_control_id get_by_vendor_name get_by_transport_code
      get_code_for_control_id
  add_mapping_keeps (c, p) h a r = record {
    by_id = ground (
      arith,
      r.by_id,
      lookup-insert_new p.control_id ctrl.control_id p ctrl b.book.id_to_control,
    );
    by_vendor = ground (
      arith,
      r.by_vendor,
      lookup-insert_new p.vendor_name ctrl.vendor_name p ctrl b.book.vendor_to_control,
    );
    by_code = ground (
      arith,
      r.by_code,
      lookup-insert_new (string_repr c) (string_repr code) p ctrl b.book.code_to_control,
    );
    code_of = ground (
      arith,
      r.code_of,
      a.at ctrl.control_id,
      lookup-insert_new p.control_id ctrl.control_id c code b.book.id_to_code,
    );
    is_f_key = r.is_f_key;
  }

add_mappings_keeps :
    (b : Building) (l : List (TransportCode × PhysicalControl)) {b' : Building}
    (m : TransportCode × PhysicalControl)
    → add_mappings b l ≡ ok b'
    → IsAligned b.book
    → IsRegistered b.book m
    → IsRegistered b'.book m
unfolding add_mappings
add_mappings_keeps b [] m h a r = subst (λ (x : Building). IsRegistered x.book m) (ok-injective h) r
add_mappings_keeps b ((code, ctrl) ∷ l) m h a r =
    let (b1, e, h') = >>=-eq-ok (add_mapping b code ctrl) (λ x. add_mappings x l) h in
    add_mappings_keeps b1 l m h' (add_mapping-IsAligned b code ctrl e a)
      (add_mapping_keeps b code ctrl m e a r)

add_mappings-IsRegistered :
    (b : Building) (l : List (TransportCode × PhysicalControl)) {b' : Building}
    → add_mappings b l ≡ ok b'
    → IsAligned b.book
    → All (IsRegistered b'.book) l
unfolding add_mappings
add_mappings-IsRegistered b [] h a = tt
add_mappings-IsRegistered b ((code, ctrl) ∷ l) h a =
    let (b1, e, h') = >>=-eq-ok (add_mapping b code ctrl) (λ x. add_mappings x l) h in
    let a1 = add_mapping-IsAligned b code ctrl e a in
    (
      add_mappings_keeps b1 l (code, ctrl) h' a1 (add_mapping-IsRegistered b code ctrl e),
      add_mappings-IsRegistered b1 l h' a1,
    )

-- Every mapping of a codebook that `Codebook.__init__` accepts is found by its control id, its
-- vendor name and its transport code, and its code is found by the control id.
pub codebook-IsRegistered :
    (mappings : List (TransportCode × PhysicalControl)) {book : Codebook}
    → codebook mappings ≡ ok book
    → All (IsRegistered book) mappings
unfolding codebook lookup
codebook-IsRegistered mappings h =
    let start : Building = record { book = empty_book mappings; used_f_keys = [] } in
    let h1 = raise_if-eq-ok _ _ _ h in
    let (b, e, h2) = >>=-eq-ok (add_mappings start mappings) _ h1 in
    let h3 = raise_if-eq-ok _ _ _ h2 in
    subst (λ x. All (IsRegistered x) mappings) (ok-injective h3)
      (add_mappings-IsRegistered start mappings e (record { at = λ id. refl }))
