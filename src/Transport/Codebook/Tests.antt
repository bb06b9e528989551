-- ===== src/Transport/Codebook/Tests.antt =====
-- The default codebook builds, and reads back.
use yyr4_linux_control.Base.{
  ◌≡◌, refl, String, Option, none, some, List, [], ◌∷◌, Result, ok, err, All,
}
use yyr4_linux_control.Base.Dict.{lookup, insert}
use yyr4_linux_control.Domain.{TransportCode, PhysicalControl, physical_control}
use yyr4_linux_control.Transport.Codebook.{
  Codebook, codebook, default_codebook, default_mappings, get_by_primary_key_and_modifiers,
  get_by_transport_code, string_repr, empty_book,
}
use yyr4_linux_control.Transport.Codebook.Lookup.{IsRegistered, codebook-IsRegistered}

vendor_of : Result String Codebook → Option String
vendor_of (ok b) = elim (get_by_primary_key_and_modifiers b "KEY_F14" ("KEY_LEFTSHIFT" ∷ [])) [
  | none ↦ none
  | some c ↦ some c.vendor_name
]
vendor_of (err e) = some e

shifted_f14 : vendor_of default_codebook ≡ some "AP"
unfolding vendor_of default_codebook codebook physical_control get_by_primary_key_and_modifiers
    get_by_transport_code string_repr lookup insert
shifted_f14 = refl

abbrev mappings : List (TransportCode × PhysicalControl)
unfolding default_mappings physical_control
mappings = elim default_mappings [ ok m ↦ m | err _ ↦ [] ]

abbrev default_book : Codebook
unfolding default_codebook codebook physical_control string_repr lookup insert
default_book = elim default_codebook [ ok b ↦ b | err _ ↦ empty_book [] ]

codebook-IsRegistered_example : All (IsRegistered default_book) mappings
unfolding default_codebook codebook physical_control string_repr lookup insert
codebook-IsRegistered_example = codebook-IsRegistered mappings refl
