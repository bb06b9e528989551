-- ===== src/Configurator/Save.antt =====
-- configurator/save.py: `save_draft`, over the file at the target path and the files of the backup
-- directory. A file's bytes are the text that they encode. The hash is a parameter. Other processes
-- may act at five points of a save. The temporary file, which no one else knows of, is left out, and
-- so are failures of the disk.
pub mod Restore
pub mod Failure
pub mod Success
pub mod Quiet
mod Tests
use Prim.Native.String.{String}
use yyr4_linux_control.Base.{
  ℕ, zero, suc, Bool, true, false, ◌&&◌, not, Option, none, some, List, [], ◌∷◌, ◌==◌, string_eq,
  Eq, Result, ok, err, if◌then◌else◌,
}
use yyr4_linux_control.Base.Dict.{Dict, lookup, insert, has_key, is_some}
use yyr4_linux_control.Base.Text.{joined}
use yyr4_linux_control.Configurator.Validation.{DraftValidationResult, LoadError}

-- What is at a path: a link has the bytes of the file that it leads to, if it leads to one; `special`
-- is a FIFO, a socket or a device, whose bytes are not read.
pub data Node : Type 0 where
  absent : Node
  regular : String → Node
  symlink : Option String → Node
  directory : Node
  special : Node

pub record World : Type 0 where
  pub target : Node
  pub backups : Dict String String

-- what other processes do at the five points
pub record Others : Type 0 where
  pub before_check : World → World
  pub before_backup : World → World
  pub before_install : World → World
  pub after_compare : World → World
  pub before_verify : World → World

pub data SaveError : Type 0 where
  symlink_target : SaveError
  invalid_draft : List LoadError → SaveError
  concurrent_modification : SaveError
  backup_exists : SaveError
  target_unreadable : SaveError
  not_replaceable : SaveError

pub record ConfigSaveResult : Type 0 where
  pub backup_path : Option String
  pub saved_sha256 : String
  pub verified : Bool

abbrev pub is_symlink : Node → Bool
is_symlink (symlink _) = true
is_symlink _ = false

-- `read_bytes`, and `is_file`
abbrev pub bytes : Node → Option String
bytes (regular b) = some b
bytes (symlink found) = found
bytes _ = none

-- `s[:n]`
abbrev pub prefix : ℕ → String → String
prefix zero s = ""
prefix (suc n) String.[] = ""
prefix (suc n) (String.◌∷◌ c s) = String.◌∷◌ c (prefix n s)

-- `a == b` of two that may be None
abbrev pub same_sha : Option String → Option String → Bool
same_sha none none = true
same_sha (some a) (some b) = a == b
same_sha _ _ = false

-- `os.link` and `os.replace` put the new file in the place of the target.
abbrev pub put : String → World → World
put text w = record w { target = regular text }

abbrev pub SaveOutcome : Type 0 → Type 0
SaveOutcome A = Result SaveError A × World

-- the open file is there when its bytes are read
abbrev pub write_backup : String → Option String → World → SaveOutcome (Option String)
write_backup name none w = (err target_unreadable, record w { backups = insert name "" w.backups })
write_backup name (some b) w = (ok (some name), record w { backups = insert name b w.backups })

-- `O_EXCL`
abbrev pub create_backup : String → World → SaveOutcome (Option String)
create_backup name w =
    if has_key name w.backups then (err backup_exists, w) else write_backup name (bytes w.target) w

-- the target's name, the time and the current hash
abbrev pub backup_name : String → String → String → String
backup_name name ts sha = joined name (joined ".backup-" (joined ts (joined "-" (prefix 8 sha))))

-- `os.replace`, over what is at the target: it fails over a directory only
abbrev pub replace_at : Node → String → World → SaveOutcome Unit
replace_at directory text w = (err not_replaceable, w)
replace_at node text w = (ok tt, put text w)

abbrev pub replace : String → World → SaveOutcome Unit
replace text w = replace_at w.target text w

-- `os.link`
abbrev pub link_at : Node → String → World → SaveOutcome Unit
link_at absent text w = (ok tt, put text w)
link_at node text w = (err concurrent_modification, w)

abbrev pub link : String → World → SaveOutcome Unit
link text w = link_at w.target text w

abbrev pub or_empty : Option String → String
or_empty none = ""
or_empty (some s) = s

module _ (sha256 : String → String) where
  abbrev pub sha_of : Option String → Option String
  sha_of none = none
  sha_of (some b) = some (sha256 b)

  -- `_compute_sha`
  unfoldable pub compute_sha : Node → Option String
  compute_sha node = sha_of (bytes node)

  unfoldable pub back_up :
      String → Bool → String → Option String → Others → World → SaveOutcome (Option String)
  back_up name has_backup_dir ts none others w = (ok none, w)
  back_up name has_backup_dir ts (some sha) others w =
      if has_backup_dir
      then create_backup (backup_name name ts sha) (others.before_backup w)
      else (ok none, w)

  -- the two ways in which the temporary file becomes the target
  abbrev pub install : String → Option String → Option String → Others → World → SaveOutcome Unit
  install text none expected others w = link text w
  install text (some sha) expected others w =
      if same_sha (compute_sha w.target) expected
      then replace text (others.after_compare w)
      else (err concurrent_modification, w)

  -- the end of a save
  abbrev pub verify :
      DraftValidationResult
      → Option String
      → SaveOutcome Unit
      → Others
      → SaveOutcome ConfigSaveResult
  verify v backup (err e, w) others = (err e, w)
  verify v backup (ok _, w) others =
      let w' = others.before_verify w in
      let saved = compute_sha w'.target in
      (
        ok (record {
          backup_path = backup;
          saved_sha256 = or_empty saved;
          verified = same_sha saved (some v.serialized_sha256);
        }),
        w',
      )

  abbrev pub write_target :
      DraftValidationResult
      → Option String
      → Option String
      → Others
      → SaveOutcome (Option String)
      → SaveOutcome ConfigSaveResult
  write_target v current expected others (err e, w) = (err e, w)
  write_target v current expected others (ok backup, w) =
      verify v backup (install v.canonical_text current expected others (others.before_install w))
        others

  -- from the first hash of the target on
  abbrev pub save_over :
      String
      → Bool
      → String
      → DraftValidationResult
      → Option String
      → Others
      → World
      → SaveOutcome ConfigSaveResult
  save_over name has_backup_dir ts v expected others w =
      let current = compute_sha w.target in
      if same_sha current expected
      then write_target v current expected others (back_up name has_backup_dir ts current others w)
      else (err concurrent_modification, w)

  -- with the target's name, whether there is a backup directory, and the time as a text
  unfoldable pub save_draft :
      String
      → Bool
      → String
      → DraftValidationResult
      → Option String
      → Others
      → World
      → SaveOutcome ConfigSaveResult
  save_draft name has_backup_dir ts v expected others w =
      if is_symlink w.target
      then (err symlink_target, w)
      else if not v.valid
      then (err (invalid_draft v.errors), w)
      else save_over name has_backup_dir ts v expected others (others.before_check w)
