-- ===== src/Configurator/Web/Bootstrap.antt =====
-- The link that a session starts with, over any requests.
mod Calls
use yyr4_linux_control.Base.{
  ℕ, zero, suc, ◌+◌, ◌≤◌, ◌≡◌, refl, ◌∙◌, ◌⊎◌, String, Bool, true, false, ◌&&◌, ◌||◌, not, Option,
  none, some, List, [], ◌∷◌, Result, ok, err, ◌==◌, string_eq, if-both, if-eq, inl, inr, Bool-cases,
  arith, if◌then◌else◌,
}
use yyr4_linux_control.Base.Dict.{Dict, lookup}
use yyr4_linux_control.Base.Text.{is_empty}
use yyr4_linux_control.Base.Value.{Value, str, Fields}
use yyr4_linux_control.Control.Models.{LayeredControlConfig}
use yyr4_linux_control.Configurator.Draft.{ConfigDraft, DraftDiagnostic, config_draft}
use yyr4_linux_control.Configurator.Draft.Requests.{Request, apply}
use yyr4_linux_control.Configurator.Serializer.{serialize}
use yyr4_linux_control.Configurator.Validation.{LoadError, validate, load_from_string}
use yyr4_linux_control.Configurator.Save.{World, Others, ConfigSaveResult, bytes, save_draft}
use yyr4_linux_control.Base.Int.{ℤ, pos, ltb_ℤ}
use yyr4_linux_control.Configurator.Web.Security.{
  Verdict, fine, rejected, validate_host, validate_content_type, is_allowed_asset, max_body_size,
}
use yyr4_linux_control.Configurator.Web.Session.{
  EditorSession, reviewed, mark_reviewed, touch, write_recovery, discard_recovery, refresh_base,
  consume_bootstrap_token,
}
use yyr4_linux_control.Configurator.Web.Api.{
  Response, Api, ApiError, key_error, internal_error, invalid_action_spec, refused, not_reviewed,
  invalid_draft_error, symlink_rejected, modified, SavePlace, request_of, edit_with, finish_edit,
  handle_edit, handle_review, handle_save, after_save, after_refresh, refresh_from, refresh_loaded,
  with_draft, expected_of, exists,
}
use yyr4_linux_control.Configurator.Web.Request.{
  WebRequest, Answer, set_cookie, path_parts, is_bootstrap, check_security, get_session, check_csrf,
  first_of, as_rejection, check_length,
}
use yyr4_linux_control.Configurator.Web.Server.{
  EditorServer, PostRoute, edit, review, save, shutdown, post_routes, api_path, is_page, body_of,
  after_call, discard_if_clean, policy_of, shut_down, call_edit, call_save, post_call, post_body,
  post_found, post_checked, do_post, get_checked, get_below, below, is_legacy, after_token,
  get_bootstrap, do_get, get_asset, get_api, slashed,
}
use yyr4_linux_control.Configurator.Web.Bootstrap.Calls.{
  IsQuiet, NoCookie, gives_cookie, check_security-NoCookie, post_checked-Quiet,
}

get_asset-cookie : (name : String) → gives_cookie (get_asset name) ≡ false
get_asset-cookie name = if-both (λ a. gives_cookie a ≡ false) (is_allowed_asset name) refl refl

get_api-cookie : (path : String) → gives_cookie (get_api path) ≡ false
get_api-cookie path =
    if-both (λ a. gives_cookie a ≡ false)
      (path == "/api/v1/state"
        || path == "/api/v1/validate"
        || path == "/api/v1/diff"
        || path == "/api/v1/diff/unified")
      refl refl

get_below-cookie : (parts : List String) → gives_cookie (get_below parts) ≡ false
get_below-cookie [] = refl
get_below-cookie (a ∷ []) = refl
get_below-cookie (a ∷ b ∷ []) =
    if-both (λ x. gives_cookie x ≡ false) (a == "assets") (get_asset-cookie b) refl
get_below-cookie (a ∷ b ∷ c ∷ rest) =
    let P : Answer → Type 0 = λ x. gives_cookie x ≡ false in
    if-both P (a == "assets") (get_asset-cookie b)
      (if-both P (a == "api") (get_api-cookie (slashed (a ∷ b ∷ c ∷ rest))) refl)

-- Nothing is given, or the link is used now and was not before.
abbrev IsOnce : EditorSession → Answer × EditorServer → Type 0
IsOnce s x = IsQuiet s x ⊎ ((s.bootstrap_used ≡ false) × (x.1.session.bootstrap_used ≡ true))

module _ (load_cookie : String → Option (Dict String String)) where
  get_checked-Quiet :
      (o : Option Answer) (now : ℕ) (req : WebRequest) (srv : EditorServer)
      → NoCookie o
      → IsQuiet srv.session (get_checked load_cookie o now req srv)
  unfolding touch
  get_checked-Quiet (some a) now req srv rejection = (refl, rejection)
  get_checked-Quiet none now req srv rejection =
      let P = IsQuiet srv.session in
      if-both P (is_legacy (path_parts req.path)) (refl, refl)
        (if-both P (not (get_session load_cookie req srv.session)) (refl, refl)
          (refl, get_below-cookie (below (path_parts req.path))))

  after_token-Once :
      (token : String) (now : ℕ) (srv : EditorServer)
      → IsOnce srv.session
          (after_token load_cookie now srv (consume_bootstrap_token token srv.session))
  unfolding consume_bootstrap_token touch
  after_token-Once token now srv =
      let s = srv.session in
      elim (Bool-cases (s.bootstrap_used || is_empty s.bootstrap_token)) [
        | inl p ↦ rw p (inl (refl, refl))
        | inr p ↦ elim (Bool-cases (not (s.bootstrap_token == token))) [
          | inl q ↦ rw (p, q) (inl (refl, refl))
          | inr q ↦ rw (p, q) (inr (ground arith, refl))
        ]
      ]

  get_bootstrap-Once :
      (o : Option String) (now : ℕ) (req : WebRequest) (srv : EditorServer)
      → IsOnce srv.session (get_bootstrap load_cookie o now req srv)
  get_bootstrap-Once none now req srv =
      inl (get_checked-Quiet (check_security req) now req srv (check_security-NoCookie req))
  get_bootstrap-Once (some token) now req srv =
      if-both (IsOnce srv.session) (not (get_session load_cookie req srv.session))
        (inl (refl, refl)) (after_token-Once token now srv)

  do_get-Once :
      (now : ℕ) (req : WebRequest) (srv : EditorServer)
      → IsOnce srv.session (do_get load_cookie now req srv)
  unfolding do_get
  do_get-Once now req srv = get_bootstrap-Once (is_bootstrap (path_parts req.path)) now req srv

-- a request, with what is new for it
pub data Incoming : Type 0 where
  gets : ℕ → WebRequest → Incoming
  posts : String → ℕ → SavePlace → Others → WebRequest → Incoming

module _ (sha256 : String → String) (loads : String → Option Fields)
    (load_cookie : String → Option (Dict String String)) where
  abbrev pub handle : Incoming → EditorServer → Answer × EditorServer
  handle (gets now req) srv = do_get load_cookie now req srv
  handle (posts new_id now place others req) srv =
      do_post sha256 loads load_cookie new_id now place others req srv

  -- how many of the answers give the cookie
  abbrev pub count_cookies : List Incoming → EditorServer → ℕ
  count_cookies [] srv = 0
  count_cookies (i ∷ rest) srv =
      let (answer, srv') = handle i srv in
      let later = count_cookies rest srv' in if gives_cookie answer then suc later else later

  handle-Once : (i : Incoming) (srv : EditorServer) → IsOnce srv.session (handle i srv)
  unfolding do_post
  handle-Once (gets now req) srv = do_get-Once load_cookie now req srv
  handle-Once (posts new_id now place others req) srv = inl (
      post_checked-Quiet sha256 loads load_cookie new_id now place others (check_security req) req
        srv (check_security-NoCookie req))

  -- Whatever requests come, the cookie of a session is given to at most one of them, and to none
  -- when its link is used.
  pub count_cookies_lem :
      (l : List Incoming) (srv : EditorServer)
      → (count_cookies l srv ≤ 1) × (srv.session.bootstrap_used ≡ true → count_cookies l srv ≡ 0)
  count_cookies_lem [] srv = (omega arith, λ u. refl)
  count_cookies_lem (i ∷ rest) srv =
      let (answer, srv') = handle i srv in
      let (bound, used) = count_cookies_lem rest srv' in
      elim (handle-Once i srv) [
        | inl (kept, quiet) ↦ rw quiet (bound, λ u. used (kept ∙ u))
        | inr (fresh, now_used) ↦
            let none_later = used now_used in
            (
              if-both (λ n. n ≤ 1) (gives_cookie answer) (omega arith) (omega arith),
              λ u. ground (arith, fresh, u),
            )
      ]
