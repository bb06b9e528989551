-- ===== src/Configurator/Save/Restore/Laws.antt =====
-- A restore of a backup that a save has made.
use yyr4_linux_control.Base.{
  ◌≡◌, refl, ap, ◌∙◌, String, true, false, Option, none, some, string_eq, ==_refl, ok,
}
use yyr4_linux_control.Base.Dict.{Dict, has_key, lookup, insert, lookup-insert_self}
use yyr4_linux_control.Base.Value.{Fields}
use yyr4_linux_control.Control.Models.{LayeredControlConfig}
use yyr4_linux_control.Configurator.Validation.{DraftValidationResult, load_from_string}
use yyr4_linux_control.Configurator.Save.{
  Node, absent, regular, World, put, backup_name, compute_sha, save_draft,
}
use yyr4_linux_control.Configurator.Save.Quiet.{alone, swap, save_draft-alone}
use yyr4_linux_control.Configurator.Save.Restore.{restore_backup}

-- the file of a name
abbrev pub node_of : Option String → Node
node_of none = absent
node_of (some b) = regular b

module _ (sha256 : String → String) (loads : String → Option Fields) where
  restore_backup-regular :
      (name ts b text : String) (config : LayeredControlConfig) (files : Dict String String)
      → load_from_string loads b ≡ ok config
      → (let w : World = record { target = regular text; backups = files } in
          restore_backup sha256 loads name false ts (regular b) (some (sha256 text)) (λ w. w) w
          ≡ (ok tt, put b w))
  unfolding restore_backup compute_sha
  restore_backup-regular name ts b text config files loaded =
      rw (loaded, ==_refl (sha256 text)) refl

  saved_world :
      (name ts b : String) (v : DraftValidationResult) (w : World)
      → w.target ≡ regular b
      → v.valid ≡ true
      → has_key (backup_name name ts (sha256 b)) w.backups ≡ false
      → (save_draft sha256 name true ts v (some (sha256 b)) alone w).1 ≡ record {
        target = regular v.canonical_text;
        backups = insert (backup_name name ts (sha256 b)) b w.backups;
      }
  saved_world name ts b v w t valid fresh =
      ap (λ o. o.1)
        (save_draft-alone sha256 name true ts v (some (sha256 b)) w valid
          ∙ ap (λ node. swap sha256 name true ts v (some (sha256 b)) node w) t)
      ∙ rw (==_refl (sha256 b), fresh) refl

  -- After a save over a file that is a configuration, with a backup directory, a restore of the
  -- backup that the save names puts the bytes of before back in the place of the new text, when no
  -- other process comes between.
  pub restore_backup-save_draft :
      (name ts ts' b : String) (v : DraftValidationResult) (config : LayeredControlConfig)
      (w : World)
      → w.target ≡ regular b
      → v.valid ≡ true
      → has_key (backup_name name ts (sha256 b)) w.backups ≡ false
      → load_from_string loads b ≡ ok config
      → (let saved = (save_draft sha256 name true ts v (some (sha256 b)) alone w).1 in
          let backup = node_of (lookup (backup_name name ts (sha256 b)) saved.backups) in
          (saved.target ≡ regular v.canonical_text)
          × ((restore_backup sha256 loads name false ts' backup
                (some (sha256 v.canonical_text))
                (λ w'. w')
                saved).1.target
              ≡ regular b))
  restore_backup-save_draft name ts ts' b v config w t valid fresh loaded =
      rw
        (
          saved_world name ts b v w t valid fresh,
          lookup-insert_self (backup_name name ts (sha256 b)) b w.backups,
        )
        (
          refl,
          ap (λ o. o.1.target)
              (restore_backup-regular name ts' b v.canonical_text config
                (insert (backup_name name ts (sha256 b)) b w.backups) loaded),
        )
