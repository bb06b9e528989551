-- ===== src/Configurator/Save/Restore.antt =====
-- configurator/save.py: `restore_backup`. The backup is what is at its path, which no one changes
-- meanwhile; other processes may act on the target before it is replaced.
pub mod Laws
use yyr4_linux_control.Base.{
  String, string_eq, Bool, true, false, not, Option, none, some, Result, ok, err, if◌then◌else◌,
}
use yyr4_linux_control.Base.Dict.{insert}
use yyr4_linux_control.Base.Text.{joined}
use yyr4_linux_control.Base.Value.{Fields}
use yyr4_linux_control.Control.Models.{LayeredControlConfig}
use yyr4_linux_control.Configurator.Validation.{LoadError, load_from_string}
use yyr4_linux_control.Configurator.Save.{
  Node, regular, directory, World, is_symlink, bytes, same_sha, prefix, put, compute_sha,
}

pub data RestoreError : Type 0 where
  symlink_target symlink_backup unreadable_backup : RestoreError
  invalid_backup : LoadError → RestoreError
  concurrent_modification not_copied not_replaceable : RestoreError

abbrev pub Restored : Type 0
Restored = Result RestoreError Unit × World

-- the time, and the first eight characters of the hash
abbrev pub pre_restore_name : String → String → Option String → String
pre_restore_name name ts none = joined name (joined ".pre-restore-" (joined ts "-new"))
pre_restore_name name ts (some sha) =
    joined name (joined ".pre-restore-" (joined ts (joined "-" (prefix 8 sha))))

-- `os.replace`
abbrev pub replace_restored : Node → String → World → Restored
replace_restored directory data_ w = (err not_replaceable, w)
replace_restored node data_ w = (ok tt, put data_ w)

abbrev pub replace_with : String → (World → World) → World → Restored
replace_with data_ meanwhile w = let w' = meanwhile w in replace_restored w'.target data_ w'

-- `shutil.copy2`, which writes over a file of that name, and needs the target to be a file
abbrev pub copy_target : Option String → String → World → Result RestoreError World
copy_target none copy w = err not_copied
copy_target (some b) copy w = ok (record w { backups = insert copy b w.backups })

abbrev pub copy_first : Bool → String → String → Option String → World → Result RestoreError World
copy_first false name ts current w = ok w
copy_first true name ts current w =
    copy_target (bytes w.target) (pre_restore_name name ts current) w

abbrev pub replace_copied : String → (World → World) → World → Result RestoreError World → Restored
replace_copied data_ meanwhile w (err e) = (err e, w)
replace_copied data_ meanwhile w (ok w') = replace_with data_ meanwhile w'

module _ (sha256 : String → String) (loads : String → Option Fields) where
  abbrev pub restore_over :
      String → Bool → String → String → Option String → (World → World) → World → Restored
  restore_over name has_dir ts data_ expected meanwhile w =
      let current = compute_sha sha256 w.target in
      if not (same_sha current expected)
      then (err concurrent_modification, w)
      else replace_copied data_ meanwhile w (copy_first has_dir name ts current w)

  abbrev pub restore_loaded :
      Result LoadError LayeredControlConfig
      → String
      → Bool
      → String
      → String
      → Option String
      → (World → World)
      → World
      → Restored
  restore_loaded (err e) name has_dir ts data_ expected meanwhile w = (err (invalid_backup e), w)
  restore_loaded (ok config) name has_dir ts data_ expected meanwhile w =
      restore_over name has_dir ts data_ expected meanwhile w

  -- with the backup's bytes
  abbrev pub restore_bytes :
      String → Bool → String → Option String → Option String → (World → World) → World → Restored
  restore_bytes name has_dir ts none expected meanwhile w = (err unreadable_backup, w)
  restore_bytes name has_dir ts (some data_) expected meanwhile w =
      restore_loaded (load_from_string loads data_) name has_dir ts data_ expected meanwhile w

  unfoldable pub restore_backup :
      String → Bool → String → Node → Option String → (World → World) → World → Restored
  restore_backup name has_dir ts backup expected meanwhile w =
      if is_symlink w.target
      then (err symlink_target, w)
      else if is_symlink backup
      then (err symlink_backup, w)
      else restore_bytes name has_dir ts (bytes backup) expected meanwhile w
