-- ===== src/Configurator/Web/Tests.antt =====
-- Runs of the editor.
use yyr4_linux_control.Base.{
  ◌≡◌, ◌≤◌, ◌⊎◌, refl, String, true, false, Option, none, some, [], ◌∷◌, ok, string_eq,
}
use yyr4_linux_control.Base.Int.{pos}
use yyr4_linux_control.Base.Value.{Fields, get, unknown_field, field, no_fields, int, table, str}
use yyr4_linux_control.Base.Dict.{insert, lookup}
use yyr4_linux_control.Control.Config.{
  parse_config, parse_schema_v2, parse_profiles, parse_profile, get_table, parse_layers,
  parse_layer, parse_controls,
}
use yyr4_linux_control.Control.Models.{
  ProfileId, profile_id, matches_profile_id, matches_tail, member_of, layer_of, general,
  LayeredControlConfig,
}
use yyr4_linux_control.Configurator.Draft.{ConfigDraft, config_draft}
use yyr4_linux_control.Configurator.Serializer.{serialize}
use yyr4_linux_control.Configurator.Validation.{validate, load_from_string}
use yyr4_linux_control.Configurator.Save.{
  back_up, compute_sha, save_draft, regular, World, ConfigSaveResult,
}
use yyr4_linux_control.Configurator.Save.Success.{IsSaved}
use yyr4_linux_control.Configurator.Save.Quiet.{alone}
use yyr4_linux_control.Configurator.Web.Session.{
  EditorSession, Tokens, create_session, mark_reviewed, reviewed, touch, discard_recovery,
  refresh_base,
}
use yyr4_linux_control.Configurator.Web.Api.{SavePlace, handle_save, handle_review, saved_as}
use yyr4_linux_control.Base.Dict.{Dict}
use yyr4_linux_control.Base.Substring.{lower, occurs_in}
use yyr4_linux_control.Configurator.Web.Security.{
  validate_host, validate_content_type, split, prepend,
}
use yyr4_linux_control.Configurator.Web.Request.{
  check_security, path_parts, get_session, check_csrf, WebRequest,
}
use yyr4_linux_control.Configurator.Web.Server.{api_path, EditorServer, do_post}
use yyr4_linux_control.Configurator.Web.Access.{IsTouched, IsAuthorized, do_post-IsAuthorized}
use yyr4_linux_control.Configurator.Web.Bootstrap.{gets, count_cookies, count_cookies_lem}
use yyr4_linux_control.Configurator.Web.Reviewed.{reviews, calls, handle_save-Reviewed}

abbrev home : ProfileId
home = record { value = "home" }

abbrev home_config : LayeredControlConfig
home_config = record {
  schema_version = 2;
  default_profile = home;
  initial_layer = general;
  profiles =
      (
        home,
        record {
          profile_id = home;
          layers = (general, record { layer_id = general; controls = [] }) ∷ [];
        },
      )
      ∷ [];
}

-- a reader to which every text is that configuration
abbrev loads_home : String → Option Fields
loads_home s = some (
    field "schema_version" (int (pos 2)) (
      field "default_profile" (str "home") (
        field "initial_layer" (str "general") (
          field "profiles"
            (table (
              field "home"
                (table
                  (field "layers" (table (field "general" (table no_fields) no_fields)) no_fields))
                no_fields))
            no_fields))))

abbrev one_hash : String → String
one_hash s = "hash"

abbrev home_draft : ConfigDraft
home_draft = record {
  base_config = home_config;
  working_config = home_config;
  dirty = false;
  mutation_count = 0;
  mutation_records = [];
}

abbrev some_tokens : Tokens
some_tokens = record { id = "i"; public_id = "p"; bootstrap = "b"; cookie = "k"; csrf = "c" }

abbrev new_session : EditorSession
new_session = create_session some_tokens home_draft "hash" 0

abbrev reviewed_session : EditorSession
reviewed_session = record new_session { reviewed_mutation = pos 0 }

abbrev at_path : SavePlace
at_path = record { target_name = "a.toml"; has_backup_dir = false; stamp = "t" }

abbrev old_world : World
old_world = record { target = regular "old"; backups = [] }

abbrev new_world : World
new_world = record { target = regular (serialize home_config); backups = [] }

abbrev the_result : ConfigSaveResult
the_result = record { backup_path = none; saved_sha256 = "hash"; verified = true }

abbrev next_session : EditorSession
next_session = record new_session { last_activity = 9 }

reached :
    calls one_hash loads_home (reviews ∷ []) (none, new_session, old_world)
    ≡ (some home_config, reviewed_session, old_world)
unfolding handle_review mark_reviewed
reached = refl

saves_here :
    handle_save one_hash loads_home at_path alone 9 reviewed_session old_world
    ≡ (ok (saved_as the_result), next_session, new_world)
unfolding handle_save reviewed touch validate load_from_string parse_config get parse_schema_v2
    unknown_field profile_id matches_profile_id layer_of parse_profiles parse_profile get_table
    parse_layers parse_layer parse_controls insert lookup config_draft back_up compute_sha
    save_draft discard_recovery refresh_base matches_tail member_of
saves_here = refl

handle_save-Reviewed_example :
    (config : LayeredControlConfig) × (some home_config ≡ some config)
    × ((validate loads_home one_hash home_draft).canonical_text ≡ serialize config)
    × IsSaved one_hash
        (validate loads_home one_hash home_draft)
        (some "hash")
        alone
        the_result
        new_world
handle_save-Reviewed_example =
    handle_save-Reviewed one_hash loads_home (reviews ∷ []) some_tokens home_draft "hash" 0
      old_world (some home_config) reviewed_session old_world at_path alone 9 next_session
      the_result new_world reached saves_here

-- a cookie header with one cookie, of this value
abbrev cookies_of : String → Option (Dict String String)
cookies_of header = some (("yyr4_session_p", header) ∷ [])

abbrev link_request : WebRequest
link_request = record {
  method = "GET";
  path = "/bootstrap/b";
  host = "127.0.0.1";
  content_type = "";
  content_length = some (pos 0);
  cookie_header = "";
  csrf_header = "";
  body = none;
}

abbrev review_request : WebRequest
review_request = record link_request {
  method = "POST";
  path = "/s/p/api/v1/review";
  content_type = "application/json";
  cookie_header = "k";
  csrf_header = "c";
}

abbrev server : EditorServer
server = record { session = new_session; world = old_world; shutdown_flag = false }

do_post-IsAuthorized_example :
    IsTouched 5 server
      (do_post one_hash loads_home cookies_of "r" 5 at_path alone review_request server).1
    ⊎ IsAuthorized cookies_of review_request new_session
do_post-IsAuthorized_example =
    do_post-IsAuthorized cookies_of one_hash loads_home "r" 5 at_path alone review_request server
      refl

count_cookies_lem_example :
    (let l = gets 1 link_request ∷ gets 2 link_request ∷ [] in
      (count_cookies one_hash loads_home cookies_of l server ≤ 1)
      × (false ≡ true → count_cookies one_hash loads_home cookies_of l server ≡ 0))
count_cookies_lem_example =
    count_cookies_lem one_hash loads_home cookies_of
      (gets 1 link_request ∷ gets 2 link_request ∷ []) server

-- The review is noted for the holder of the cookie and the token.
review_is_noted :
    (do_post one_hash loads_home cookies_of "r" 5 at_path alone review_request server).1.session
    ≡ record reviewed_session { last_activity = 5 }
unfolding do_post check_security validate_host validate_content_type lower split prepend path_parts
    get_session occurs_in lookup check_csrf touch api_path handle_review mark_reviewed
review_is_noted = refl
