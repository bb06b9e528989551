-- ===== src/Configurator/Web/Access.antt =====
-- Who may change a session.
use yyr4_linux_control.Base.{
  ℕ, ◌≡◌, refl, ◌⊎◌, inl, inr, String, Bool, true, false, ◌&&◌, not, Option, none, some, List, [],
  ◌∷◌, ◌==◌, string_eq, ==_sound, if-eq, Bool-cases, arith, ap, sym, if-both, ◌||◌,
}
use yyr4_linux_control.Base.Dict.{Dict, lookup}
use yyr4_linux_control.Base.Text.{is_empty}
use yyr4_linux_control.Base.Value.{Value, Fields}
use yyr4_linux_control.Configurator.Save.{Others}
use yyr4_linux_control.Configurator.Web.Security.{Verdict, fine, rejected, validate_host}
use yyr4_linux_control.Configurator.Web.Session.{EditorSession, touch}
use yyr4_linux_control.Configurator.Web.Api.{SavePlace}
use yyr4_linux_control.Configurator.Web.Request.{
  WebRequest, Answer, path_parts, is_bootstrap, cookie_name, check_security, get_session,
  by_cookies, by_cookie, check_csrf, first_of, as_rejection, found_by,
}
use yyr4_linux_control.Configurator.Web.Server.{
  EditorServer, PostRoute, post_routes, api_path, is_page, body_of, post_body, post_found,
  post_checked, do_post,
}

-- The request has the host of the machine, the session's cookie and its CSRF token, none of which
-- is empty.
pub record IsAuthorized (load_cookie : String → Option (Dict String String)) (req : WebRequest)
    (s : EditorSession) : Type 0 where
  pub local_host : validate_host (some req.host) ≡ fine
  pub cookies : Dict String String
  pub read : load_cookie req.cookie_header ≡ some cookies
  pub cookie : lookup (cookie_name s) cookies ≡ some s.session_cookie
  pub is_cookie : is_empty s.session_cookie ≡ false
  pub token : s.csrf_token ≡ req.csrf_header
  pub is_token : is_empty s.csrf_token ≡ false

-- nothing but the time of the last request is new
abbrev pub IsTouched : ℕ → EditorServer → EditorServer → Type 0
IsTouched now srv srv' = (srv' ≡ srv) ⊎ (srv' ≡ record srv { session = touch now srv.session })

-- a path with a bootstrap token is that of no call
is_bootstrap-api_path :
    (parts : List String) (token : String)
    → is_bootstrap parts ≡ some token
    → lookup (api_path parts) post_routes ≡ none
unfolding api_path lookup
is_bootstrap-api_path (a ∷ t ∷ []) token h = elim (if-eq (a == "bootstrap") h) [
  | inl (q, k) ↦ rw (==_sound a "bootstrap" q) refl
  | inr (q, k) ↦ cc k
]
is_bootstrap-api_path [] token h = cc
is_bootstrap-api_path (a ∷ []) token h = cc
is_bootstrap-api_path (a ∷ b ∷ c ∷ rest) token h = cc

as_rejection-eq_none : (v : Verdict) (n : ℕ) → as_rejection v n ≡ none → v ≡ fine
as_rejection-eq_none fine n h = refl
as_rejection-eq_none (rejected e) n h = cc

first_of-eq_none : (a b : Option Answer) → first_of a b ≡ none → a ≡ none
first_of-eq_none none b h = refl
first_of-eq_none (some a) b h = cc

check_security-host :
    (req : WebRequest) → check_security req ≡ none → validate_host (some req.host) ≡ fine
unfolding check_security
check_security-host req h =
    as_rejection-eq_none (validate_host (some req.host)) 403 (first_of-eq_none _ _ h)

module _ (load_cookie : String → Option (Dict String String)) where
  by_cookie-eq_true :
      (o : Option String) (s : EditorSession)
      → by_cookie load_cookie o s ≡ true
      → (o ≡ some s.session_cookie) × (is_empty s.session_cookie ≡ false)
  by_cookie-eq_true none s h = cc
  by_cookie-eq_true (some value) s h =
      let e = ==_sound s.session_cookie value (ground arith) in (ap some (sym e), ground arith)

  -- what a session that is found by its cookie says of the request
  by_cookies-eq_true :
      (o : Option (Dict String String)) (req : WebRequest) (s : EditorSession)
      → by_cookies load_cookie o req s ≡ true
      → (cookies : Dict String String) × (o ≡ some cookies)
        × (lookup (cookie_name s) cookies ≡ some s.session_cookie)
        × (is_empty s.session_cookie ≡ false)
  by_cookies-eq_true none req s h = cc
  by_cookies-eq_true (some cookies) req s h =
      let e = by_cookie-eq_true (lookup (cookie_name s) cookies) s (ground arith) in
      (cookies, refl, e.0, e.1)

  token-of_csrf :
      (b : Bool) (s : EditorSession) (req : WebRequest)
      → b ≡ true
      → (not b || (not (is_empty s.csrf_token) && s.csrf_token == req.csrf_header)) ≡ true
      → (is_empty s.csrf_token ≡ false) × (s.csrf_token ≡ req.csrf_header)
  token-of_csrf b s req p h =
      (ground (arith, p), ==_sound s.csrf_token req.csrf_header (ground (arith, p)))

  authorized :
      (req : WebRequest) (s : EditorSession)
      → req.method ≡ "POST"
      → check_security req ≡ none
      → found_by load_cookie none req s ≡ true
      → check_csrf req s ≡ true
      → IsAuthorized load_cookie req s
  unfolding check_csrf
  authorized req s post secure found csrf =
      let (cookies, read, cookie, is_cookie) =
        by_cookies-eq_true (load_cookie req.cookie_header) req s (ground arith) in
      let p : (req.method == "POST") ≡ true = (string_eq.beq_iff req.method "POST").1 post in
      let (is_token, token) = token-of_csrf (req.method == "POST") s req p csrf in
      record {
        local_host = check_security-host req secure;
        cookies = cookies;
        read = read;
        cookie = cookie;
        is_cookie = is_cookie;
        token = token;
        is_token = is_token;
      }

  module _ (sha256 : String → String) (loads : String → Option Fields) (new_id : String) (now : ℕ)
      (place : SavePlace) (others : Others) where
    IsAllowed : WebRequest → EditorServer → EditorServer → Type 0
    IsAllowed req srv srv' = IsTouched now srv srv' ⊎ IsAuthorized load_cookie req srv.session

    post_body-none :
        (o : Option Value) (route : Option PostRoute) (srv : EditorServer)
        → route ≡ none
        → (post_body sha256 loads load_cookie new_id now place others o route srv).1 ≡ srv
    post_body-none none route srv e = refl
    post_body-none (some body) none srv e = refl
    post_body-none (some body) (some r) srv e = cc

    post_found-IsAllowed :
        (o : Option String) (req : WebRequest) (srv : EditorServer)
        → is_bootstrap (path_parts req.path) ≡ o
        → req.method ≡ "POST"
        → check_security req ≡ none
        → found_by load_cookie o req srv.session ≡ true
        → (let touched : EditorServer = record srv { session = touch now srv.session } in
            IsAllowed req srv
              (post_found sha256 loads load_cookie new_id now place others req touched).1)
    unfolding IsAllowed touch check_csrf
    post_found-IsAllowed (some token) req srv e post secure found =
        let touched : EditorServer = record srv { session = touch now srv.session } in
        inl (
          inr (
            if-both (λ (x : Answer × EditorServer). x.1 ≡ touched)
              (not (check_csrf req touched.session)) refl
              (post_body-none (body_of req) (lookup (api_path (path_parts req.path)) post_routes)
                touched (is_bootstrap-api_path (path_parts req.path) token e))))
    post_found-IsAllowed none req srv e post secure found =
        elim (Bool-cases (check_csrf req srv.session)) [
          | inl csrf ↦ inr (authorized req srv.session post secure found csrf)
          | inr csrf ↦ inl (inr (rw csrf refl))
        ]

    post_checked-IsAllowed :
        (o : Option Answer) (req : WebRequest) (srv : EditorServer)
        → req.method ≡ "POST"
        → check_security req ≡ o
        → IsAllowed req srv
            (post_checked sha256 loads load_cookie new_id now place others o req srv).1
    unfolding IsAllowed get_session
    post_checked-IsAllowed (some rejection) req srv post e = inl (inl refl)
    post_checked-IsAllowed none req srv post e =
        if-both (λ (x : Answer × EditorServer). IsAllowed req srv x.1)
          (is_page (path_parts req.path)) (inl (inl refl))
          (elim (Bool-cases (get_session load_cookie req srv.session)) [
            | inl found ↦ rw found (
                post_found-IsAllowed (is_bootstrap (path_parts req.path)) req srv refl post e found)
            | inr lost ↦ rw lost (inl (inl refl))
          ])

    -- A POST leaves the editor as it was, but for the time of the session's last request, unless the
    -- request has the machine's own host, the session's cookie and its CSRF token, and the cookie
    -- and the token are not empty.
    pub do_post-IsAuthorized :
        (req : WebRequest) (srv : EditorServer)
        → req.method ≡ "POST"
        → (let srv' = (do_post sha256 loads load_cookie new_id now place others req srv).1 in
            IsTouched now srv srv' ⊎ IsAuthorized load_cookie req srv.session)
    unfolding do_post IsAllowed
    do_post-IsAuthorized req srv post =
        post_checked-IsAllowed (check_security req) req srv post refl
