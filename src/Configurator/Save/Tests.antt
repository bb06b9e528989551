-- ===== src/Configurator/Save/Tests.antt =====
-- Runs of saving.
use yyr4_linux_control.Base.{
  ◌≡◌, refl, String, true, false, Option, none, some, [], ◌∷◌, ok, err, string_eq,
}
use yyr4_linux_control.Base.Dict.{lookup}
use yyr4_linux_control.Base.Int.{pos}
use yyr4_linux_control.Base.Value.{Fields, field, get, unknown_field, no_fields, int}
use yyr4_linux_control.Control.Config.{
  parse_config, parse_schema_v1, parse_controls, get_table, default_id,
}
use yyr4_linux_control.Control.Models.{general, LayeredControlConfig}
use yyr4_linux_control.Configurator.Validation.{DraftValidationResult, load_from_string}
use yyr4_linux_control.Configurator.Save.{
  Node, regular, World, Others, ConfigSaveResult, concurrent_modification, backup_name, save_draft,
  back_up, compute_sha,
}
use yyr4_linux_control.Configurator.Save.Failure.{IsKept, save_draft-eq_err}
use yyr4_linux_control.Configurator.Save.Success.{IsSaved, save_draft-eq_ok}
use yyr4_linux_control.Configurator.Save.Quiet.{alone, swap, save_draft-alone}
use yyr4_linux_control.Configurator.Save.Restore.{restore_backup}
use yyr4_linux_control.Configurator.Save.Restore.Laws.{node_of, restore_backup-save_draft}

-- a hash that is the text itself
abbrev same_text : String → String
same_text s = s

abbrev checked : DraftValidationResult
checked = record { valid = true; errors = []; canonical_text = "new"; serialized_sha256 = "new" }

abbrev before : World
before = record { target = regular "old"; backups = [] }

-- another process writes just before the last look
abbrev a_writer : Others
a_writer = record {
  before_check = λ w. w;
  before_backup = λ w. w;
  before_install = λ (w : World). record w { target = regular "theirs" };
  after_compare = λ w. w;
  before_verify = λ w. w;
}

-- a file is there
IsFile : Node → Type 0
IsFile node = (b : String) × (node ≡ regular b)

IsFile-IsKept : IsKept IsFile a_writer
unfolding IsFile
IsFile-IsKept = record {
  kept_check = λ w p. p;
  kept_backup = λ w p. p;
  kept_install = λ w p. ("theirs", refl);
  kept_compare = λ w p. p;
}

old-IsFile : IsFile (regular "old")
unfolding IsFile
old-IsFile = ("old", refl)

abbrev theirs : World
theirs = record { target = regular "theirs"; backups = [] }

too_late :
    save_draft same_text "a.toml" false "t" checked (some "old") a_writer before
    ≡ (err concurrent_modification, theirs)
unfolding save_draft back_up compute_sha
too_late = refl

save_draft-eq_err_example : IsFile (regular "theirs")
save_draft-eq_err_example =
    save_draft-eq_err same_text IsFile a_writer IsFile-IsKept "a.toml" false "t" checked
      (some "old") before old-IsFile too_late

abbrev the_result : ConfigSaveResult
the_result = record { backup_path = none; saved_sha256 = "new"; verified = true }

abbrev after : World
after = record { target = regular "new"; backups = [] }

in_time :
    save_draft same_text "a.toml" false "t" checked (some "old") alone before
    ≡ (ok the_result, after)
unfolding save_draft back_up compute_sha
in_time = refl

save_draft-eq_ok_example : IsSaved same_text checked (some "old") alone the_result after
save_draft-eq_ok_example =
    save_draft-eq_ok same_text checked alone "a.toml" false "t" (some "old") before the_result after
      in_time

save_draft-alone_example :
    save_draft same_text "a.toml" true "t" checked (some "old") alone before
    ≡ swap same_text "a.toml" true "t" checked (some "old") (regular "old") before
save_draft-alone_example =
    save_draft-alone same_text "a.toml" true "t" checked (some "old") before refl

-- a reader to which every text is an old configuration without controls
abbrev loads_v1 : String → Option Fields
loads_v1 s = some (field "schema_version" (int (pos 1)) no_fields)

abbrev no_controls : LayeredControlConfig
no_controls = record {
  schema_version = 1;
  default_profile = default_id;
  initial_layer = general;
  profiles =
      (
        default_id,
        record {
          profile_id = default_id;
          layers = (general, record { layer_id = general; controls = [] }) ∷ [];
        },
      )
      ∷ [];
}

old_loads : load_from_string loads_v1 "old" ≡ ok no_controls
unfolding load_from_string parse_config parse_schema_v1 get get_table parse_controls unknown_field
old_loads = refl

restore_backup-save_draft_example :
    (let saved = (save_draft same_text "a.toml" true "t" checked (some "old") alone before).1 in
      let backup = node_of (lookup (backup_name "a.toml" "t" "old") saved.backups) in
      (saved.target ≡ regular "new")
      × ((restore_backup same_text loads_v1 "a.toml" false "u" backup
            (some "new")
            (λ w. w)
            saved).1.target
          ≡ regular "old"))
unfolding lookup
restore_backup-save_draft_example =
    restore_backup-save_draft same_text loads_v1 "a.toml" "t" "u" "old" checked no_controls before
      refl refl refl old_loads
