-- ===== src/Configurator/Web/Request.antt =====
-- configurator/web/server.py: what the handler asks of a request before it is routed. What
-- `SimpleCookie` makes of a header is a parameter.
use yyr4_linux_control.Base.{
  ℕ, suc, String, Bool, false, ◌&&◌, ◌||◌, not, Option, none, some, List, [], ◌∷◌, ltb, ◌==◌,
  string_eq, nat_eq, if◌then◌else◌,
}
use yyr4_linux_control.Base.Dict.{Dict, lookup}
use yyr4_linux_control.Base.Int.{ℤ, pos, ltb_ℤ}
use yyr4_linux_control.Base.Substring.{occurs_in}
use yyr4_linux_control.Base.Text.{joined, is_empty}
use yyr4_linux_control.Base.Value.{Value}
use yyr4_linux_control.Configurator.Web.Security.{
  Verdict, fine, rejected, validate_host, validate_content_type, split, strip, head_of,
  max_body_size,
}
use yyr4_linux_control.Configurator.Web.Session.{EditorSession}
use yyr4_linux_control.Configurator.Web.Api.{Api, Response}

-- the headers with the defaults that the code gives them; the length is none if `int` refuses it,
-- and the body if it is no JSON
pub record WebRequest : Type 0 where
  pub method : String
  pub path : String
  pub host : String
  pub content_type : String
  pub content_length : Option ℤ
  pub cookie_header : String
  pub csrf_header : String
  pub body : Option Value

-- an error with its status, the answer of a call, or another answer
pub data Answer : Type 0 where
  send_error : String → ℕ → Answer
  send_json : Api Response → Answer
  send_state send_page send_asset send_nothing : Answer
  set_cookie : String → Answer
  shutting_down : String → Answer
  shutdown_cancelled : Answer

-- `[p for p in path.split("/") if p]`
abbrev pub not_empty : List String → List String
not_empty [] = []
not_empty (s ∷ rest) = if is_empty s then not_empty rest else s ∷ not_empty rest

unfoldable pub path_parts : String → List String
path_parts path = not_empty (split b'/' (head_of (split b'?' path)))

abbrev pub as_rejection : Verdict → ℕ → Option Answer
as_rejection fine status = none
as_rejection (rejected error) status = some (send_error error status)

-- the first of two rejections
abbrev pub first_of : Option Answer → Option Answer → Option Answer
first_of none later = later
first_of (some a) later = some a

abbrev pub check_length : Option ℤ → Option Answer
check_length none = some (send_error "invalid_request" 400)
check_length (some n) =
    if ltb_ℤ (pos max_body_size) n then some (send_error "payload_too_large" 413) else none

-- `_check_security`: the rejection, if there is one
unfoldable pub check_security : WebRequest → Option Answer
check_security req = first_of (as_rejection (validate_host (some req.host)) 403) (
    first_of
      (if req.method == "GET" || req.method == "POST"
        then none
        else some (send_error "invalid_request" 405))
      (first_of (as_rejection (validate_content_type (some req.content_type) req.method) 400)
        (check_length req.content_length)))

-- the entry of a session
abbrev pub cookie_name : EditorSession → String
cookie_name s = joined "yyr4_session_" s.public_session_id

-- how often a header sets a cookie of this name
abbrev pub count_name : String → List String → ℕ
count_name name [] = 0
count_name name (p ∷ rest) =
    if occurs_in "=" p && strip (head_of (split b'=' p)) == name
    then suc (count_name name rest)
    else count_name name rest

abbrev pub is_bootstrap : List String → Option String
is_bootstrap (a ∷ token ∷ []) = if a == "bootstrap" then some token else none
is_bootstrap parts = none

-- `/s/<public_session_id>/...`
abbrev pub names_session : List String → EditorSession → Bool
names_session (a ∷ id ∷ rest) s = a == "s" && id == s.public_session_id
names_session parts s = false

module _ (load_cookie : String → Option (Dict String String)) where
  abbrev pub by_cookie : Option String → EditorSession → Bool
  by_cookie none s = false
  by_cookie (some value) s = not (is_empty s.session_cookie) && s.session_cookie == value

  abbrev pub by_cookies : Option (Dict String String) → WebRequest → EditorSession → Bool
  by_cookies none req s = false
  by_cookies (some cookies) req s =
      not (ltb 1 (count_name (cookie_name s) (split b';' req.cookie_header)))
      && names_session (path_parts req.path) s
      && by_cookie (lookup (cookie_name s) cookies) s

  abbrev pub bootstraps : String → EditorSession → Bool
  bootstraps token s =
      not (is_empty s.bootstrap_token) && s.bootstrap_token == token && not s.bootstrap_used

  -- for a bootstrap path, and for another
  abbrev pub found_by : Option String → WebRequest → EditorSession → Bool
  found_by (some token) req s = bootstraps token s
  found_by none req s =
      not (is_empty req.cookie_header) && by_cookies (load_cookie req.cookie_header) req s

  -- `_get_session`: whether the session is found
  unfoldable pub get_session : WebRequest → EditorSession → Bool
  get_session req s = found_by (is_bootstrap (path_parts req.path)) req s

unfoldable pub check_csrf : WebRequest → EditorSession → Bool
check_csrf req s =
    not (req.method == "POST") || (not (is_empty s.csrf_token) && s.csrf_token == req.csrf_header)
