-- ===== src/Configurator/Validation.antt =====
-- `validate` of configurator/draft.py. `tomllib.loads` and the hash of a text are parameters. No
-- action is of an unknown type, so `serialize` never raises.
use yyr4_linux_control.Base.{
  String, Bool, true, false, Option, none, some, List, [], ◌∷◌, Result, ok, err,
}
use yyr4_linux_control.Base.Value.{Fields}
use yyr4_linux_control.Control.Models.{LayeredControlConfig}
use yyr4_linux_control.Control.Config.{parse_config}
use yyr4_linux_control.Control.Config.Actions.{ConfigError}
use yyr4_linux_control.Configurator.Draft.{ConfigDraft}
use yyr4_linux_control.Configurator.Serializer.{serialize}

-- what the loading of a text raises
pub data LoadError : Type 0 where
  syntax_error : LoadError
  config_error : ConfigError → LoadError

pub record DraftValidationResult : Type 0 where
  pub valid : Bool
  pub errors : List LoadError
  pub canonical_text : String
  pub serialized_sha256 : String

module _ (loads : String → Option Fields) where
  abbrev pub parse_loaded : Option Fields → Result LoadError LayeredControlConfig
  parse_loaded none = err syntax_error
  parse_loaded (some found) = elim (parse_config found) [
    | ok config ↦ ok config
    | err e ↦ err (config_error e)
  ]

  -- `load_control_config_from_string`, and `_load_from_string` of a draft
  unfoldable pub load_from_string : String → Result LoadError LayeredControlConfig
  load_from_string text = parse_loaded (loads text)

  module _ (sha256 : String → String) where
    abbrev pub validated : String → Result LoadError LayeredControlConfig → DraftValidationResult
    validated text (err e) = record {
      valid = false;
      errors = e ∷ [];
      canonical_text = text;
      serialized_sha256 = sha256 text;
    }
    validated text (ok config) = record {
      valid = true;
      errors = [];
      canonical_text = text;
      serialized_sha256 = sha256 text;
    }

    unfoldable pub validate : ConfigDraft → DraftValidationResult
    validate d = let text = serialize d.working_config in validated text (load_from_string text)
