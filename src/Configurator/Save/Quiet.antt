-- ===== src/Configurator/Save/Quiet.antt =====
-- A save that no other process comes into.
use yyr4_linux_control.Base.{
  ◌≡◌, refl, String, Bool, true, false, not, Option, none, some, ◌==◌, string_eq, ==_refl, ==_sound,
  subst, ok, err, if◌then◌else◌, Bool-cases, inl, inr,
}
use yyr4_linux_control.Base.Dict.{Dict, has_key, insert}
use yyr4_linux_control.Configurator.Validation.{DraftValidationResult}
use yyr4_linux_control.Configurator.Save.{
  Node, absent, regular, symlink, directory, special, World, Others, symlink_target,
  concurrent_modification, backup_exists, ConfigSaveResult, put, SaveOutcome, backup_name, back_up,
  compute_sha, save_draft,
}

abbrev pub alone : Others
alone = record {
  before_check = λ w. w;
  before_backup = λ w. w;
  before_install = λ w. w;
  after_compare = λ w. w;
  before_verify = λ w. w;
}

abbrev pub saved : (String → String) → DraftValidationResult → Option String → ConfigSaveResult
saved sha256 v backup = record {
  backup_path = backup;
  saved_sha256 = sha256 v.canonical_text;
  verified = sha256 v.canonical_text == v.serialized_sha256;
}

-- A replacement of the bytes at the target in one step, if they are those that are expected; with a
-- backup of them under a new name.
abbrev pub swap :
    (String → String)
    → String
    → Bool
    → String
    → DraftValidationResult
    → Option String
    → Node
    → World
    → SaveOutcome ConfigSaveResult
swap sha256 name dir ts v expected (symlink found) w = (err symlink_target, w)
swap sha256 name dir ts v expected directory w = (err concurrent_modification, w)
swap sha256 name dir ts v expected special w = (err concurrent_modification, w)
swap sha256 name dir ts v none absent w = (ok (saved sha256 v none), put v.canonical_text w)
swap sha256 name dir ts v (some sha) absent w = (err concurrent_modification, w)
swap sha256 name dir ts v none (regular b) w = (err concurrent_modification, w)
swap sha256 name dir ts v (some sha) (regular b) w =
    let backup = backup_name name ts sha in
    if not (sha256 b == sha)
    then (err concurrent_modification, w)
    else if not dir
    then (ok (saved sha256 v none), put v.canonical_text w)
    else if has_key backup w.backups
    then (err backup_exists, w)
    else (
      ok (saved sha256 v (some backup)),
      put v.canonical_text (record w { backups = insert backup b w.backups }),
    )

module _ (sha256 : String → String) where
  save_draft-regular :
      (name : String) (dir : Bool) (ts : String) (v : DraftValidationResult) (b : String)
      (files : Dict String String)
      → v.valid ≡ true
      → (let w : World = record { target = regular b; backups = files } in
          save_draft sha256 name dir ts v (some (sha256 b)) alone w
          ≡ swap sha256 name dir ts v (some (sha256 b)) (regular b) w)
  unfolding save_draft back_up compute_sha
  save_draft-regular name false ts v b files valid = rw (valid, ==_refl (sha256 b)) refl
  save_draft-regular name true ts v b files valid =
      elim (Bool-cases (has_key (backup_name name ts (sha256 b)) files)) [
        | inl q ↦ rw (valid, ==_refl (sha256 b), q) refl
        | inr q ↦ rw (valid, ==_refl (sha256 b), q, ==_refl (sha256 b)) refl
      ]

  save_draft-at :
      (name : String) (dir : Bool) (ts : String) (v : DraftValidationResult)
      (expected : Option String) (node : Node) (files : Dict String String)
      → v.valid ≡ true
      → (let w : World = record { target = node; backups = files } in
          save_draft sha256 name dir ts v expected alone w
          ≡ swap sha256 name dir ts v expected node w)
  unfolding save_draft back_up compute_sha
  save_draft-at name dir ts v expected (symlink found) files valid = refl
  save_draft-at name dir ts v none directory files valid = rw valid refl
  save_draft-at name dir ts v none special files valid = rw valid refl
  save_draft-at name dir ts v (some sha) directory files valid = rw valid refl
  save_draft-at name dir ts v (some sha) special files valid = rw valid refl
  save_draft-at name dir ts v none absent files valid = rw valid refl
  save_draft-at name dir ts v (some sha) absent files valid = rw valid refl
  save_draft-at name dir ts v none (regular b) files valid = rw valid refl
  save_draft-at name dir ts v (some sha) (regular b) files valid =
      elim (Bool-cases (sha256 b == sha)) [
        | inl p ↦
            subst
              (λ s.
                let w : World = record { target = regular b; backups = files } in
                save_draft sha256 name dir ts v (some s) alone w
                ≡ swap sha256 name dir ts v (some s) (regular b) w)
              (==_sound (sha256 b) sha p) (save_draft-regular name dir ts v b files valid)
        | inr p ↦ rw (valid, p) refl
      ]

  -- A save of a valid draft that no other process comes into is one step: it compares the target's
  -- hash with the expected one, and if they are equal puts the draft's text there, with a backup of
  -- what was there if there is a directory for it.
  pub save_draft-alone :
      (name : String) (dir : Bool) (ts : String) (v : DraftValidationResult)
      (expected : Option String) (w : World)
      → v.valid ≡ true
      → save_draft sha256 name dir ts v expected alone w
        ≡ swap sha256 name dir ts v expected w.target w
  save_draft-alone name dir ts v expected w valid =
      save_draft-at name dir ts v expected w.target w.backups valid
