-- ===== src/Configurator/Web/Bootstrap/Calls.antt =====
-- What a POST does with the link that a session starts with, and with its cookie.
use yyr4_linux_control.Base.{
  ℕ, ◌≡◌, refl, ◌∙◌, String, Bool, true, false, ◌||◌, not, Option, none, some, Result, ok, err,
  ◌==◌, string_eq, if-both,
}
use yyr4_linux_control.Base.Dict.{Dict, lookup}
use yyr4_linux_control.Base.Value.{Value, str, Fields}
use yyr4_linux_control.Control.Models.{LayeredControlConfig}
use yyr4_linux_control.Configurator.Draft.{ConfigDraft, DraftDiagnostic, config_draft}
use yyr4_linux_control.Configurator.Draft.Requests.{Request, apply}
use yyr4_linux_control.Configurator.Serializer.{serialize}
use yyr4_linux_control.Configurator.Validation.{LoadError, validate, load_from_string}
use yyr4_linux_control.Configurator.Save.{
  World, Others, ConfigSaveResult, SaveOutcome, bytes, save_draft,
}
use yyr4_linux_control.Base.Int.{ℤ, pos, ltb_ℤ}
use yyr4_linux_control.Configurator.Web.Security.{
  Verdict, fine, rejected, validate_host, validate_content_type, max_body_size,
}
use yyr4_linux_control.Configurator.Web.Session.{
  EditorSession, reviewed, mark_reviewed, touch, write_recovery, discard_recovery, refresh_base,
}
use yyr4_linux_control.Configurator.Web.Api.{
  Response, Api, key_error, internal_error, invalid_action_spec, refused, not_reviewed,
  invalid_draft_error, symlink_rejected, modified, SavePlace, request_of, edit_with, finish_edit,
  handle_edit, handle_review, handle_save, after_save, after_refresh, refresh_from, refresh_loaded,
  with_draft, expected_of, exists,
}
use yyr4_linux_control.Configurator.Web.Request.{
  WebRequest, Answer, set_cookie, path_parts, check_security, get_session, check_csrf, first_of,
  as_rejection, check_length,
}
use yyr4_linux_control.Configurator.Web.Server.{
  EditorServer, PostRoute, edit, review, save, shutdown, post_routes, api_path, is_page, body_of,
  after_call, discard_if_clean, policy_of, shut_down, post_call, post_body, post_checked,
}

-- The link is used after iff it was before.
abbrev pub IsKept : EditorSession → EditorSession → Type 0
IsKept s s' = s'.bootstrap_used ≡ s.bootstrap_used

finish_edit-IsKept :
    (new_id : String) (now : ℕ) (s : EditorSession) (o : Result DraftDiagnostic ConfigDraft)
    → IsKept s (finish_edit new_id now s o).1
unfolding touch write_recovery
finish_edit-IsKept new_id now s (err d) = refl
finish_edit-IsKept new_id now s (ok draft) = refl

edit_with-IsKept :
    (new_id : String) (now : ℕ) (s : EditorSession) (o : Api Request)
    → IsKept s (edit_with new_id now s o).1
edit_with-IsKept new_id now s (err e) = refl
edit_with-IsKept new_id now s (ok request) = finish_edit-IsKept new_id now s (apply request s.draft)

abbrev pub gives_cookie : Answer → Bool
gives_cookie (set_cookie value) = true
gives_cookie answer = false

-- nor is its cookie given
abbrev pub IsQuiet : EditorSession → Answer × EditorServer → Type 0
IsQuiet s x = IsKept s x.1.session × (gives_cookie x.0 ≡ false)

-- a rejection gives none
abbrev pub NoCookie : Option Answer → Type 0
NoCookie none = Unit
NoCookie (some a) = gives_cookie a ≡ false

first_of-NoCookie : (a b : Option Answer) → NoCookie a → NoCookie b → NoCookie (first_of a b)
first_of-NoCookie none b p q = q
first_of-NoCookie (some a) b p q = p

as_rejection-NoCookie : (v : Verdict) (n : ℕ) → NoCookie (as_rejection v n)
as_rejection-NoCookie fine n = tt
as_rejection-NoCookie (rejected e) n = refl

check_length-NoCookie : (n : Option ℤ) → NoCookie (check_length n)
check_length-NoCookie none = refl
check_length-NoCookie (some n) = if-both NoCookie (ltb_ℤ (pos max_body_size) n) refl tt

pub check_security-NoCookie : (req : WebRequest) → NoCookie (check_security req)
unfolding check_security
check_security-NoCookie req =
    first_of-NoCookie _ _ (as_rejection-NoCookie (validate_host (some req.host)) 403) (
      first_of-NoCookie _ _ (if-both NoCookie (req.method == "GET" || req.method == "POST") tt refl)
        (first_of-NoCookie _ _
          (as_rejection-NoCookie (validate_content_type (some req.content_type) req.method) 400)
          (check_length-NoCookie req.content_length)))

-- a call that ends well, or not
after_call-Quiet :
    (s : EditorSession) (o : Api Response) (next : EditorSession → EditorSession)
    (srv : EditorServer)
    → ((x : EditorSession) → IsKept x (next x))
    → IsKept s srv.session
    → IsQuiet s (after_call o next srv)
after_call-Quiet s (err key_error) next srv kept k = (k, refl)
after_call-Quiet s (err internal_error) next srv kept k = (k, refl)
after_call-Quiet s (err (invalid_action_spec e)) next srv kept k = (kept srv.session ∙ k, refl)
after_call-Quiet s (err (refused d)) next srv kept k = (kept srv.session ∙ k, refl)
after_call-Quiet s (err not_reviewed) next srv kept k = (kept srv.session ∙ k, refl)
after_call-Quiet s (err (invalid_draft_error e)) next srv kept k = (kept srv.session ∙ k, refl)
after_call-Quiet s (err symlink_rejected) next srv kept k = (kept srv.session ∙ k, refl)
after_call-Quiet s (err modified) next srv kept k = (kept srv.session ∙ k, refl)
after_call-Quiet s (ok r) next srv kept k = (kept srv.session ∙ k, refl)

discard_if_clean-IsKept : (b : Bool) (s : EditorSession) → IsKept s (discard_if_clean b s)
unfolding discard_recovery
discard_if_clean-IsKept true s = refl
discard_if_clean-IsKept false s = refl

write_recovery-IsKept : (new_id : String) (s : EditorSession) → IsKept s (write_recovery new_id s)
unfolding write_recovery
write_recovery-IsKept new_id s = refl

shut_down-Quiet : (v : Value) (srv : EditorServer) → IsQuiet srv.session (shut_down v srv)
shut_down-Quiet (str policy) srv =
    let P : Answer × EditorServer → Type 0 = IsQuiet srv.session in
    if-both P (policy == "cancel") (refl, refl)
      (if-both P (policy == "keep_recovery" || policy == "discard") (refl, refl) (refl, refl))
shut_down-Quiet _ srv = (refl, refl)

module _ (sha256 : String → String) (loads : String → Option Fields) where
  with_draft-IsKept :
      (sha : String) (o : Result String ConfigDraft) (s : EditorSession)
      → IsKept s (with_draft sha256 loads sha o s).1
  unfolding refresh_base
  with_draft-IsKept sha (err m) s = refl
  with_draft-IsKept sha (ok d) s = refl

  refresh_loaded-IsKept :
      (o : Result LoadError LayeredControlConfig) (s : EditorSession)
      → IsKept s (refresh_loaded sha256 loads o s).1
  refresh_loaded-IsKept (err e) s = refl
  refresh_loaded-IsKept (ok config) s =
      with_draft-IsKept (sha256 (serialize config)) (config_draft config) s

  refresh_from-IsKept :
      (o : Option String) (s : EditorSession) → IsKept s (refresh_from sha256 loads o s).1
  refresh_from-IsKept none s = refl
  refresh_from-IsKept (some text) s = refresh_loaded-IsKept (load_from_string loads text) s

  after_refresh-IsKept :
      (result : ConfigSaveResult) (o : Api Unit × EditorSession)
      → IsKept o.1 (after_refresh sha256 loads result o).1
  unfolding discard_recovery
  after_refresh-IsKept result (err e, s) = refl
  after_refresh-IsKept result (ok u, s) = refl

  after_save-IsKept :
      (o : SaveOutcome ConfigSaveResult) (s : EditorSession)
      → IsKept s (after_save sha256 loads o s).1
  after_save-IsKept (err e, w) s = refl
  after_save-IsKept (ok result, w) s =
      after_refresh-IsKept result (refresh_from sha256 loads (bytes w.target) s)
      ∙ refresh_from-IsKept (bytes w.target) s

  handle_save-IsKept :
      (place : SavePlace) (others : Others) (now : ℕ) (s : EditorSession) (w : World)
      → IsKept s (handle_save sha256 loads place others now s w).1
  unfolding handle_save touch
  handle_save-IsKept place others now s w =
      let s' = touch now s in
      let v = validate loads sha256 s'.draft in
      let P : Api Response × EditorSession × World → Type 0 = λ o. IsKept s o.1 in
      if-both P (not (reviewed s')) refl (
        if-both P (not v.valid) refl (
          after_save-IsKept
            (save_draft sha256 place.target_name place.has_backup_dir place.stamp v
              (expected_of (exists w.target) s'.base_sha256) others w)
            s'))

  module _ (load_cookie : String → Option (Dict String String)) where
    module _ (new_id : String) (now : ℕ) (place : SavePlace) (others : Others) where
      post_call-Quiet :
          (route : Option PostRoute) (body : Value) (srv : EditorServer)
          → IsQuiet srv.session
              (post_call sha256 loads load_cookie new_id now place others route body srv)
      unfolding handle_edit handle_review mark_reviewed
      post_call-Quiet none body srv = (refl, refl)
      post_call-Quiet (some (edit route)) body srv =
          let o = handle_edit route new_id now body srv.session in
          after_call-Quiet srv.session o.0 (write_recovery new_id) (record srv { session = o.1 })
            (write_recovery-IsKept new_id)
            (edit_with-IsKept new_id now srv.session (request_of route body))
      post_call-Quiet (some review) body srv = (refl, refl)
      post_call-Quiet (some save) body srv =
          let o = handle_save sha256 loads place others now srv.session srv.world in
          after_call-Quiet srv.session o.0 (discard_if_clean o.1.draft.dirty)
            (record srv { session = o.1; world = o.2 }) (discard_if_clean-IsKept o.1.draft.dirty)
            (handle_save-IsKept place others now srv.session srv.world)
      post_call-Quiet (some shutdown) body srv = shut_down-Quiet (policy_of body) srv

      post_body-Quiet :
          (o : Option Value) (route : Option PostRoute) (srv : EditorServer)
          → IsQuiet srv.session
              (post_body sha256 loads load_cookie new_id now place others o route srv)
      post_body-Quiet none route srv = (refl, refl)
      post_body-Quiet (some body) route srv = post_call-Quiet route body srv

      pub post_checked-Quiet :
          (o : Option Answer) (req : WebRequest) (srv : EditorServer)
          → NoCookie o
          → IsQuiet srv.session
              (post_checked sha256 loads load_cookie new_id now place others o req srv)
      unfolding touch
      post_checked-Quiet (some a) req srv rejection = (refl, rejection)
      post_checked-Quiet none req srv rejection =
          let touched : EditorServer = record srv { session = touch now srv.session } in
          let P = IsQuiet srv.session in
          if-both P (is_page (path_parts req.path)) (refl, refl)
            (if-both P (not (get_session load_cookie req srv.session)) (refl, refl)
              (if-both P (not (check_csrf req touched.session)) (refl, refl)
                (post_body-Quiet (body_of req) (lookup (api_path (path_parts req.path)) post_routes)
                  touched)))
