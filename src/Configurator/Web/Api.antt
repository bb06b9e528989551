-- ===== src/Configurator/Web/Api.antt =====
-- configurator/web/api.py: the calls that change a session, with the fields of a request's body. The
-- state that an answer shows is left out. The files of a session are those of Session; the target
-- and its backups are a `World` of Save.
use yyr4_linux_control.Base.{
  ℕ, String, Bool, true, false, not, Option, none, some, List, Result, ok, err, ◌>>=◌, string_eq,
  if◌then◌else◌, ◌==◌,
}
use yyr4_linux_control.Base.Substring.{occurs_in}
use yyr4_linux_control.Base.Value.{
  Value, str, list, table, Values, no_items, item, Fields, get, root,
}
use yyr4_linux_control.Control.Models.{LayeredControlConfig}
use yyr4_linux_control.Management.Protocol.{has_field}
use yyr4_linux_control.Configurator.ActionSpec.{SpecError, parse_spec}
use yyr4_linux_control.Configurator.Draft.{ConfigDraft, DraftDiagnostic, config_draft}
use yyr4_linux_control.Configurator.Draft.Requests.{
  Request, add_profile, remove_profile, set_default_profile, set_initial_layer, rename_profile,
  add_layer, remove_layer, rename_layer, clear_action, set_action, apply,
}
use yyr4_linux_control.Configurator.Serializer.{serialize}
use yyr4_linux_control.Configurator.Validation.{
  LoadError, DraftValidationResult, validate, load_from_string,
}
use yyr4_linux_control.Configurator.Save.{
  Node, absent, symlink, World, Others, SaveError, symlink_target, invalid_draft,
  concurrent_modification, ConfigSaveResult, SaveOutcome, bytes, save_draft,
}
use yyr4_linux_control.Configurator.Web.Session.{
  EditorSession, reviewed, mark_reviewed, touch, write_recovery, discard_recovery, refresh_base,
}

-- what ends a call: an answer of `_err`, the KeyError of a missing field, or another exception
pub data ApiError : Type 0 where
  invalid_action_spec : SpecError → ApiError
  refused : DraftDiagnostic → ApiError
  not_reviewed : ApiError
  invalid_draft_error : List LoadError → ApiError
  symlink_rejected modified : ApiError
  key_error : ApiError
  internal_error : ApiError

-- `_ok` of the state, of a review and of a save
pub data Response : Type 0 where
  state_shown : Response
  review_noted : Response
  saved_as : ConfigSaveResult → Response

abbrev pub Api : Type 0 → Type 0
Api A = Result ApiError A

-- `key in items`
abbrev pub has_item : String → Values → Bool
has_item key no_items = false
has_item key (item (str s) rest) = if key == s then true else has_item key rest
has_item key (item v rest) = has_item key rest

-- `_require`, of whatever the body is
unfoldable pub require_field : Value → String → Api Value
require_field (table found) key = if has_field key found then ok (get key found) else err key_error
require_field (list items) key = if has_item key items then err internal_error else err key_error
require_field (str s) key = if occurs_in key s then err internal_error else err key_error
require_field v key = err internal_error

-- A value that is no text names no profile, layer or control, and neither does the empty text.
abbrev pub name_of : Value → String
name_of (str s) = s
name_of v = ""

abbrev pub require_name : Value → String → Api String
require_name body key = require_field body key >>= λ v. ok (name_of v)

abbrev pub as_action : {A E : Type 0} → (E → ApiError) → Result E A → Api A
as_action make (ok a) = ok a
as_action make (err e) = err (make e)

-- the ten calls that edit the draft
pub data Route : Type 0 where
  control_set_action control_clear_action : Route
  profile_add profile_rename profile_remove profile_set_default : Route
  layer_add layer_rename layer_remove layer_set_initial : Route

-- the part of each of them before the call of the draft
unfoldable pub request_of : Route → Value → Api Request
request_of control_set_action body = do
  profile ← require_name body "profile"
  layer ← require_name body "layer"
  control ← require_name body "control"
  spec ← require_field body "action_spec"
  action ← as_action invalid_action_spec (parse_spec 0 (root "action") spec)
  ok (set_action profile layer control action)
request_of control_clear_action body = do
  profile ← require_name body "profile"
  layer ← require_name body "layer"
  control ← require_name body "control"
  ok (clear_action profile layer control)
request_of profile_add body = do pid ← require_name body "profile_id"; ok (add_profile pid)
request_of profile_rename body = do
  old_id ← require_name body "old_profile_id"
  new_id ← require_name body "new_profile_id"
  ok (rename_profile old_id new_id)
request_of profile_remove body = do pid ← require_name body "profile_id"; ok (remove_profile pid)
request_of profile_set_default body = do
  pid ← require_name body "profile_id"
  ok (set_default_profile pid)
request_of layer_add body = do
  profile ← require_name body "profile"
  layer ← require_name body "layer_id"
  ok (add_layer profile layer)
request_of layer_rename body = do
  profile ← require_name body "profile"
  old_id ← require_name body "old_layer_id"
  new_id ← require_name body "new_layer_id"
  ok (rename_layer profile old_id new_id)
request_of layer_remove body = do
  profile ← require_name body "profile"
  layer ← require_name body "layer_id"
  ok (remove_layer profile layer)
request_of layer_set_initial body = do
  layer ← require_name body "layer_id"
  ok (set_initial_layer layer)

-- `_update_draft`, with the id that a first recovery is given
abbrev pub update_draft : String → EditorSession → EditorSession
update_draft new_id s = write_recovery new_id s

-- the part after it
abbrev pub finish_edit :
    String → ℕ → EditorSession → Result DraftDiagnostic ConfigDraft → Api Response × EditorSession
finish_edit new_id now s (err d) = (err (refused d), s)
finish_edit new_id now s (ok draft) =
    (ok state_shown, touch now (update_draft new_id (record s { draft = draft })))

abbrev pub edit_with : String → ℕ → EditorSession → Api Request → Api Response × EditorSession
edit_with new_id now s (err e) = (err e, s)
edit_with new_id now s (ok request) = finish_edit new_id now s (apply request s.draft)

-- `handle_set_action` to `handle_set_initial_layer`
unfoldable pub handle_edit :
    Route → String → ℕ → Value → EditorSession → Api Response × EditorSession
handle_edit route new_id now body s = edit_with new_id now s (request_of route body)

unfoldable pub handle_review : EditorSession → Api Response × EditorSession
handle_review s = (ok review_noted, mark_reviewed s)

-- the handlers that only show
unfoldable pub handle_validate : ℕ → EditorSession → Api Response × EditorSession
handle_validate now s = (ok state_shown, touch now s)

-- `target_p.exists()`
abbrev pub exists : Node → Bool
exists absent = false
exists (symlink none) = false
exists node = true

abbrev pub expected_of : Bool → String → Option String
expected_of true base_sha256 = some base_sha256
expected_of false base_sha256 = none

-- the `except` clauses; another OSError is not caught
abbrev pub save_error : SaveError → ApiError
save_error (invalid_draft errors) = invalid_draft_error errors
save_error symlink_target = symlink_rejected
save_error concurrent_modification = modified
save_error e = internal_error

-- the target, the backups and the time of a save
pub record SavePlace : Type 0 where
  pub target_name : String
  pub has_backup_dir : Bool
  pub stamp : String

module _ (sha256 : String → String) (loads : String → Option Fields) where
  -- `refresh_base`: the new hash is set before a draft of the old schema is refused
  abbrev pub with_draft :
      String → Result String ConfigDraft → EditorSession → Api Unit × EditorSession
  with_draft sha (err message) s = (err internal_error, record s { base_sha256 = sha })
  with_draft sha (ok draft) s = (ok tt, refresh_base draft sha s)

  abbrev pub refresh_loaded :
      Result LoadError LayeredControlConfig → EditorSession → Api Unit × EditorSession
  refresh_loaded (err e) s = (err internal_error, s)
  refresh_loaded (ok config) s = with_draft (sha256 (serialize config)) (config_draft config) s

  abbrev pub refresh_from : Option String → EditorSession → Api Unit × EditorSession
  refresh_from none s = (err internal_error, s)
  refresh_from (some text) s = refresh_loaded (load_from_string loads text) s

  abbrev pub after_refresh :
      ConfigSaveResult → Api Unit × EditorSession → Api Response × EditorSession
  after_refresh result (err e, s) = (err e, s)
  after_refresh result (ok _, s) = (ok (saved_as result), discard_recovery s)

  abbrev pub after_save :
      SaveOutcome ConfigSaveResult → EditorSession → Api Response × EditorSession × World
  after_save (err e, w) s = (err (save_error e), s, w)
  after_save (ok result, w) s =
      let (answer, s') = after_refresh result (refresh_from (bytes w.target) s) in (answer, s', w)

  abbrev pub save_valid :
      SavePlace
      → DraftValidationResult
      → Others
      → EditorSession
      → World
      → Api Response × EditorSession × World
  save_valid place v others s w =
      if not v.valid
      then (err (invalid_draft_error v.errors), s, w)
      else after_save
          (save_draft sha256 place.target_name place.has_backup_dir place.stamp v
            (expected_of (exists w.target) s.base_sha256) others w)
          s

  abbrev pub save_touched :
      SavePlace → Others → EditorSession → World → Api Response × EditorSession × World
  save_touched place others s w =
      if not (reviewed s)
      then (err not_reviewed, s, w)
      else save_valid place (validate loads sha256 s.draft) others s w

  unfoldable pub handle_save :
      SavePlace → Others → ℕ → EditorSession → World → Api Response × EditorSession × World
  handle_save place others now s w = save_touched place others (touch now s) w
