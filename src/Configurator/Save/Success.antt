-- ===== src/Configurator/Save/Success.antt =====
-- What a save that succeeds has replaced.
use yyr4_linux_control.Base.{
  ◌≡◌, refl, sym, ap, String, Bool, true, not, inl, inr, Option, none, some, string_eq, ==_sound,
  ok, err, arith, if-eq, ◌⊎◌, ok-injective, ◌∙◌,
}
use yyr4_linux_control.Configurator.Validation.{DraftValidationResult}
use yyr4_linux_control.Configurator.Save.{
  Node, absent, regular, symlink, directory, special, World, Others, is_symlink, same_sha, put,
  SaveOutcome, compute_sha, back_up, install, verify, write_target, save_draft, replace_at, link_at,
  ConfigSaveResult,
}

same_sha_sound : (a b : Option String) → same_sha a b ≡ true → a ≡ b
same_sha_sound none none h = refl
same_sha_sound none (some b) h = ground arith
same_sha_sound (some a) none h = ground arith
same_sha_sound (some a) (some b) h = ap some (==_sound a b h)

replace_at-eq_ok :
    (node : Node) (text : String) (w : World) {w' : World}
    → replace_at node text w ≡ (ok tt, w')
    → w' ≡ put text w
replace_at-eq_ok directory text w h = cc
replace_at-eq_ok special text w h = cc
replace_at-eq_ok absent text w h = cc
replace_at-eq_ok (regular b) text w h = cc
replace_at-eq_ok (symlink found) text w h = cc

link_at-eq_ok :
    (node : Node) (text : String) (w : World) {w' : World}
    → link_at node text w ≡ (ok tt, w')
    → (node ≡ absent) × (w' ≡ put text w)
link_at-eq_ok absent text w h = (refl, cc)
link_at-eq_ok directory text w h = cc
link_at-eq_ok special text w h = cc
link_at-eq_ok (regular b) text w h = cc
link_at-eq_ok (symlink found) text w h = cc

-- How a save came to its end: the last look at the target saw what was expected, only the one step of
-- the others that no look can follow stands between it and the replacement, and the result tells
-- whether the target has the text in the end.
pub record IsSaved (sha256 : String → String) (v : DraftValidationResult) (expected : Option String)
    (others : Others) (r : ConfigSaveResult) (w' : World) : Type 0 where
  pub seen : World
  pub overwritten : World
  pub was_valid : v.valid ≡ true
  pub was_expected : compute_sha sha256 seen.target ≡ expected
  pub nothing_between :
      (overwritten ≡ others.after_compare seen) ⊎ ((overwritten ≡ seen) × (seen.target ≡ absent))
  pub left : w' ≡ others.before_verify (put v.canonical_text overwritten)
  pub told : r.verified ≡ same_sha (compute_sha sha256 w'.target) (some v.serialized_sha256)

module _ (sha256 : String → String) (v : DraftValidationResult) (others : Others) where
  IsPut : Option String → World → Type 0
  IsPut expected w' =
      (seen : World) × (overwritten : World) × (compute_sha sha256 seen.target ≡ expected)
      × ((overwritten ≡ others.after_compare seen)
          ⊎ ((overwritten ≡ seen) × (seen.target ≡ absent)))
      × (w' ≡ put v.canonical_text overwritten)

  install-eq_ok :
      (current expected : Option String) (w : World) {w' : World}
      → same_sha current expected ≡ true
      → install sha256 v.canonical_text current expected others w ≡ (ok tt, w')
      → IsPut expected w'
  unfolding IsPut compute_sha
  install-eq_ok none expected w q h =
      let (gone, at_end) = link_at-eq_ok w.target v.canonical_text w h in
      let e = same_sha_sound none expected q in (w, w, rw gone e, inr (refl, gone), at_end)
  install-eq_ok (some sha) expected w q h =
      elim (if-eq (same_sha (compute_sha sha256 w.target) expected) h) [
        | inl (s, g) ↦
            let w₁ = others.after_compare w in
            (
              w,
              w₁,
              same_sha_sound (compute_sha sha256 w.target) expected s,
              inl refl,
              replace_at-eq_ok w₁.target v.canonical_text w₁ g,
            )
        | inr (s, g) ↦ cc g
      ]

  verify-eq_ok :
      (expected backup : Option String) (r : ConfigSaveResult) (w' : World)
      (done : SaveOutcome Unit)
      → v.valid ≡ true
      → ((w₁ : World) → done ≡ (ok tt, w₁) → IsPut expected w₁)
      → verify sha256 v backup done others ≡ (ok r, w')
      → IsSaved sha256 v expected others r w'
  unfolding IsPut
  verify-eq_ok expected backup r w' (err e, w) valid put_ h = cc
  verify-eq_ok expected backup r w' (ok u, w) valid put_ h =
      let (seen, overwritten, expected_, between, at_end) = put_ w refl in
      let hw : others.before_verify w ≡ w' = ap (λ o. o.1) h in
      let hr = ok-injective (ap (λ o. o.0) h) in
      record {
        seen = seen;
        overwritten = overwritten;
        was_valid = valid;
        was_expected = expected_;
        nothing_between = between;
        left = sym hw ∙ ap others.before_verify at_end;
        told =
            sym (ap (λ (x : ConfigSaveResult). x.verified) hr)
            ∙ ap (λ (x : World). same_sha (compute_sha sha256 x.target) (some v.serialized_sha256))
                hw;
      }

  write_target-eq_ok :
      (current expected : Option String) (backed_up : SaveOutcome (Option String))
      (r : ConfigSaveResult) (w' : World)
      → v.valid ≡ true
      → same_sha current expected ≡ true
      → write_target sha256 v current expected others backed_up ≡ (ok r, w')
      → IsSaved sha256 v expected others r w'
  write_target-eq_ok current expected (err e, w) r w' valid q h = cc
  write_target-eq_ok current expected (ok backup, w) r w' valid q h =
      let w₁ = others.before_install w in
      verify-eq_ok expected backup r w' (install sha256 v.canonical_text current expected others w₁)
        valid (λ w₂ g. install-eq_ok current expected w₁ q g) h

  -- A save that succeeds loses no update: the last it saw of the target had the expected hash, or no
  -- file was there and none was expected; all that can come between this and its own text is one
  -- step of the others; the draft was valid; and the result tells whether the target then had the
  -- draft's hash.
  pub save_draft-eq_ok :
      (name : String) (dir : Bool) (ts : String) (expected : Option String) (w : World)
      (r : ConfigSaveResult) (w' : World)
      → save_draft sha256 name dir ts v expected others w ≡ (ok r, w')
      → IsSaved sha256 v expected others r w'
  unfolding save_draft
  save_draft-eq_ok name dir ts expected w r w' h = elim (if-eq (is_symlink w.target) h) [
    | inl (q, g) ↦ cc g
    | inr (q, g) ↦ elim (if-eq (not v.valid) g) [
      | inl (q', g') ↦ cc g'
      | inr (q', g') ↦
          let w₁ = others.before_check w in
          let current = compute_sha sha256 w₁.target in
          elim (if-eq (same_sha current expected) g') [
            | inl (s, k) ↦
                write_target-eq_ok current expected (back_up sha256 name dir ts current others w₁) r
                  w' (ground arith) s k
            | inr (s, k) ↦ cc k
          ]
    ]
  ]
