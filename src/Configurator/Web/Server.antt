-- ===== src/Configurator/Web/Server.antt =====
-- configurator/web/server.py: the handler of a request. The server's dict holds the one session that
-- `EditorServer.start` adds. What `SimpleCookie` makes of a header is a parameter. `compare_digest`
-- raises of texts that are not ASCII, which ends the request with no effect; here they differ.
use yyr4_linux_control.Base.{
  ℕ, String, Bool, true, false, ◌&&◌, ◌||◌, not, Option, none, some, List, [], ◌∷◌, ◌==◌, string_eq,
  nat_eq, err, if◌then◌else◌,
}
use yyr4_linux_control.Base.Dict.{Dict, lookup}
use yyr4_linux_control.Base.Int.{pos, ltb_ℤ}
use yyr4_linux_control.Base.Text.{joined, join}
use yyr4_linux_control.Base.Value.{Value, str, table, Fields, no_fields, get}
use yyr4_linux_control.Management.Protocol.{has_field}
use yyr4_linux_control.Configurator.Save.{World, Others}
use yyr4_linux_control.Configurator.Web.Security.{is_allowed_asset}
use yyr4_linux_control.Configurator.Web.Request.{
  Answer, WebRequest, check_csrf, check_security, get_session, is_bootstrap, path_parts, send_asset,
  send_error, send_json, send_page, send_state, set_cookie, shutdown_cancelled, shutting_down,
}
use yyr4_linux_control.Configurator.Web.Session.{
  EditorSession, consume_bootstrap_token, touch, write_recovery, discard_recovery,
}
use yyr4_linux_control.Configurator.Web.Api.{
  Api, key_error, internal_error, Response, Route, control_set_action, control_clear_action,
  profile_add, profile_rename, profile_remove, profile_set_default, layer_add, layer_rename,
  layer_remove, layer_set_initial, SavePlace, handle_edit, handle_review, handle_save,
}

pub record EditorServer : Type 0 where
  pub session : EditorSession
  pub world : World
  pub shutdown_flag : Bool

-- what a POST calls
pub data PostRoute : Type 0 where
  edit : Route → PostRoute
  review save shutdown : PostRoute

abbrev pub post_routes : Dict String PostRoute
post_routes =
    ("/api/v1/control/set-action", edit control_set_action)
    ∷ ("/api/v1/control/clear-action", edit control_clear_action)
    ∷ ("/api/v1/profile/add", edit profile_add)
    ∷ ("/api/v1/profile/rename", edit profile_rename)
    ∷ ("/api/v1/profile/remove", edit profile_remove)
    ∷ ("/api/v1/profile/set-default", edit profile_set_default)
    ∷ ("/api/v1/layer/add", edit layer_add)
    ∷ ("/api/v1/layer/rename", edit layer_rename)
    ∷ ("/api/v1/layer/remove", edit layer_remove)
    ∷ ("/api/v1/layer/set-initial", edit layer_set_initial)
    ∷ ("/api/v1/review", review)
    ∷ ("/api/v1/save", save)
    ∷ ("/api/v1/shutdown", shutdown)
    ∷ []

abbrev pub slashed : List String → String
slashed [] = "/"
slashed (s ∷ rest) = joined "/" (join "/" (s ∷ rest))

unfoldable pub api_path : List String → String
api_path (a ∷ b ∷ rest) = if a == "api" then slashed (a ∷ b ∷ rest) else slashed rest
api_path parts = "/"

-- the homepage and the assets of `_route_parts`
abbrev pub is_page : List String → Bool
is_page (a ∷ b ∷ []) = a == "session"
is_page (a ∷ b ∷ c ∷ d ∷ rest) = a == "session" && c == "assets"
is_page parts = false

-- the exceptions of a call, and what follows one that answers
abbrev pub after_call :
    Api Response → (EditorSession → EditorSession) → EditorServer → Answer × EditorServer
after_call (err key_error) next srv = (send_error "invalid_request" 400, srv)
after_call (err internal_error) next srv = (send_error "internal_error" 500, srv)
after_call answer next srv = (send_json answer, record srv { session = next srv.session })

-- `if not session.dirty: session.discard_recovery()`
abbrev pub discard_if_clean : Bool → EditorSession → EditorSession
discard_if_clean true s = s
discard_if_clean false s = discard_recovery s

-- `body.get("dirty_policy", "keep_recovery")`
abbrev pub policy_of : Value → Value
policy_of (table found) =
    if has_field "dirty_policy" found then get "dirty_policy" found else str "keep_recovery"
policy_of v = str "keep_recovery"

abbrev pub shut_down : Value → EditorServer → Answer × EditorServer
shut_down (str policy) srv =
    if policy == "cancel"
    then (shutdown_cancelled, srv)
    else if policy == "keep_recovery" || policy == "discard"
    then (
      shutting_down policy,
      record srv { session = record srv.session { dirty_policy = policy }; shutdown_flag = true },
    )
    else (send_error "invalid_request" 400, srv)
shut_down policy srv = (send_error "invalid_request" 400, srv)

-- no body is read if the length is not positive
abbrev pub body_of : WebRequest → Option Value
body_of req = elim req.content_length [
  | none ↦ some (table no_fields)
  | some n ↦ if ltb_ℤ (pos 0) n then req.body else some (table no_fields)
]

module _ (sha256 : String → String) (loads : String → Option Fields)
    (load_cookie : String → Option (Dict String String)) where
  module _ (new_id : String) (now : ℕ) (place : SavePlace) (others : Others) where
    abbrev pub call_edit : Api Response × EditorSession → EditorServer → Answer × EditorServer
    call_edit (answer, s) srv =
        after_call answer (write_recovery new_id) (record srv { session = s })

    abbrev pub call_save :
        Api Response × EditorSession × World → EditorServer → Answer × EditorServer
    call_save (answer, s, w) srv =
        after_call answer (discard_if_clean s.draft.dirty) (record srv { session = s; world = w })

    abbrev pub post_call : Option PostRoute → Value → EditorServer → Answer × EditorServer
    post_call none body srv = (send_error "invalid_request" 404, srv)
    post_call (some (edit route)) body srv =
        call_edit (handle_edit route new_id now body srv.session) srv
    post_call (some review) body srv =
        let (answer, s) = handle_review srv.session in
        (send_json answer, record srv { session = s })
    post_call (some save) body srv =
        call_save (handle_save sha256 loads place others now srv.session srv.world) srv
    post_call (some shutdown) body srv = shut_down (policy_of body) srv

    abbrev pub post_body : Option Value → Option PostRoute → EditorServer → Answer × EditorServer
    post_body none route srv = (send_error "invalid_json" 400, srv)
    post_body (some body) route srv = post_call route body srv

    -- with the session
    abbrev pub post_found : WebRequest → EditorServer → Answer × EditorServer
    post_found req srv =
        if not (check_csrf req srv.session)
        then (send_error "unauthorized" 401, srv)
        else post_body (body_of req) (lookup (api_path (path_parts req.path)) post_routes) srv

    abbrev pub post_checked : Option Answer → WebRequest → EditorServer → Answer × EditorServer
    post_checked (some rejection) req srv = (rejection, srv)
    post_checked none req srv =
        if is_page (path_parts req.path)
        then (send_error "invalid_request" 405, srv)
        else if not (get_session load_cookie req srv.session)
        then (send_error "unauthorized" 401, srv)
        else post_found req (record srv { session = touch now srv.session })

    unfoldable pub do_post : WebRequest → EditorServer → Answer × EditorServer
    do_post req srv = post_checked (check_security req) req srv

-- below `/s/<id>/`: the pages, the assets and the four calls that only show. A path below `api`
-- that is too short leaves `api_path` unbound, which is an internal error, as is any other path.
abbrev pub get_asset : String → Answer
get_asset name = if is_allowed_asset name then send_asset else send_error "invalid_request" 404

abbrev pub get_api : String → Answer
get_api path =
    if path == "/api/v1/state"
      || path == "/api/v1/validate"
      || path == "/api/v1/diff"
      || path == "/api/v1/diff/unified"
    then send_state
    else send_error "invalid_request" 404

abbrev pub get_below : List String → Answer
get_below [] = send_page
get_below (a ∷ b ∷ []) = if a == "assets" then get_asset b else send_error "internal_error" 500
get_below (a ∷ b ∷ c ∷ rest) =
    if a == "assets"
    then get_asset b
    else if a == "api"
    then get_api (slashed (a ∷ b ∷ c ∷ rest))
    else send_error "internal_error" 500
get_below parts = send_error "internal_error" 500

-- `bp[2:]`
abbrev pub below : List String → List String
below (a ∷ b ∷ rest) = rest
below parts = []

-- `/session/...`, the route of before
abbrev pub is_legacy : List String → Bool
is_legacy (a ∷ b ∷ rest) = a == "session"
is_legacy parts = false

module _ (load_cookie : String → Option (Dict String String)) where
  abbrev pub get_checked : Option Answer → ℕ → WebRequest → EditorServer → Answer × EditorServer
  get_checked (some rejection) now req srv = (rejection, srv)
  get_checked none now req srv =
      if is_legacy (path_parts req.path)
      then (send_error "invalid_request" 404, srv)
      else if not (get_session load_cookie req srv.session)
      then (send_error "unauthorized" 401, srv)
      else (get_below (below (path_parts req.path)), record srv { session = touch now srv.session })

  -- the answer of `consume_bootstrap_token`
  abbrev pub after_token : ℕ → EditorServer → Bool × EditorSession → Answer × EditorServer
  after_token now srv (false, s) = (send_error "unauthorized" 401, record srv { session = s })
  after_token now srv (true, s) =
      (set_cookie s.session_cookie, record srv { session = touch now s })

  abbrev pub get_bootstrap : Option String → ℕ → WebRequest → EditorServer → Answer × EditorServer
  get_bootstrap none now req srv = get_checked (check_security req) now req srv
  get_bootstrap (some token) now req srv =
      if not (get_session load_cookie req srv.session)
      then (send_error "unauthorized" 401, srv)
      else after_token now srv (consume_bootstrap_token token srv.session)

  unfoldable pub do_get : ℕ → WebRequest → EditorServer → Answer × EditorServer
  do_get now req srv = get_bootstrap (is_bootstrap (path_parts req.path)) now req srv
