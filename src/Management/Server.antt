-- ===== src/Management/Server.antt =====
-- management/server.py: `_process_request` and `_handle_client`, on the state of the runtime. A result
-- or an error is data in place of a dict. A request for a reload waits for its future.
use yyr4_linux_control.Base.{
  ℕ, String, Bool, true, false, not, Option, none, some, Result, ok, err, ◌==◌, string_eq,
  if◌then◌else◌,
}
use yyr4_linux_control.Base.Value.{Value, str, Fields, get}
use yyr4_linux_control.Base.Text.{is_empty}
use yyr4_linux_control.Control.Models.{layer_value}
use yyr4_linux_control.Daemon.Context.{Context, management_cli}
use yyr4_linux_control.Daemon.Runtime.{
  Runtime, is_ending, request_reload_and_wait, ReloadAnswer, reloaded, refused,
}
use yyr4_linux_control.Daemon.Runtime.Snapshot.{RuntimeSnapshot, snapshot, source_value}
use yyr4_linux_control.Daemon.Runtime.Steps.{
  ContextRequest, to_layer, to_profile, to_next, to_previous, answer,
}
use yyr4_linux_control.Management.Protocol.{ProtocolRequest, ProtocolError, parse_request}

-- the `result` or the `error` of a response
pub data Body (Time Seconds : Type 0) : Type 0 where
  pong : Body Time Seconds
  status_is : RuntimeSnapshot Time Seconds → Body Time Seconds
  reload_done : ℕ → ℕ → Body Time Seconds
  context_is : String → String → ℕ → String → Body Time Seconds
  context_changed : String → String → String → String → ℕ → Bool → Body Time Seconds
  failed_with : String → String → Body Time Seconds
  reload_failed : String → ℕ → Body Time Seconds

-- `ok`
abbrev pub is_ok : {Time Seconds : Type 0} → Body Time Seconds → Bool
is_ok (failed_with code message) = false
is_ok (reload_failed code revision) = false
is_ok _ = true

-- A request is answered, or waits for a future, or raises, which closes the connection.
pub data Reply (Time Seconds : Type 0) : Type 0 where
  responds : Body Time Seconds → Reply Time Seconds
  waits_for : ℕ → Reply Time Seconds
  raises : Reply Time Seconds

-- the four commands that change the context
pub data Change : Type 0 where
  set_layer_command next_layer_command previous_layer_command set_profile_command : Change

-- `not v or not isinstance(v, str)`
abbrev pub named : (String → ContextRequest) → Value → String → Result String ContextRequest
named make (str s) message = if is_empty s then err message else ok (make s)
named make v message = err message

abbrev pub context_request : Change → Fields → Result String ContextRequest
context_request set_layer_command params =
    named to_layer (get "layer" params) "Missing or invalid 'layer' parameter"
context_request next_layer_command params = ok to_next
context_request previous_layer_command params = ok to_previous
context_request set_profile_command params =
    named to_profile (get "profile" params) "Missing or invalid 'profile' parameter"

-- `active_layer.value`, or the plain text itself
abbrev pub layer_text : {Time : Type 0} → Context Time → String
layer_text c = layer_value c.active_layer.id

module _ {Time Seconds : Type 0} where
  abbrev pub context_body : Option (Context Time) → Body Time Seconds
  context_body none = failed_with "RUNTIME_NOT_AVAILABLE" "Runtime context not available yet"
  context_body (some c) =
      context_is c.selected_profile.value (layer_text c) c.revision
        (source_value c.last_change_source)

  -- the call of the runtime has returned or raised a ValueError
  abbrev pub after_change :
      Runtime Time
      → Context Time
      → Result String (Context Time × Bool)
      → Reply Time Seconds × Runtime Time
  after_change r old (err message) = (responds (failed_with "INVALID_PARAM" message), r)
  after_change r old (ok (c, changed)) = (
    responds (
        context_changed old.selected_profile.value (layer_text old) c.selected_profile.value
          (layer_text c) c.revision changed),
    record r { context = some c },
  )

  abbrev pub change_with :
      Result String ContextRequest
      → Time
      → Context Time
      → Runtime Time
      → Reply Time Seconds × Runtime Time
  change_with (err message) now c r = (responds (failed_with "INVALID_PARAM" message), r)
  change_with (ok q) now c r = after_change r c (answer q management_cli now c)

  -- with the context of before
  abbrev pub change_from :
      Option (Context Time)
      → Change
      → Fields
      → Time
      → Runtime Time
      → Reply Time Seconds × Runtime Time
  change_from none change params now r =
      (responds (failed_with "RUNTIME_NOT_AVAILABLE" "Runtime context not available yet"), r)
  change_from (some c) change params now r = change_with (context_request change params) now c r

  unfoldable pub change_command :
      Change → Fields → Time → Runtime Time → Reply Time Seconds × Runtime Time
  change_command change params now r =
      if is_ending r.state
      then (responds (failed_with "RUNTIME_NOT_AVAILABLE" "Daemon state"), r)
      else change_from r.context change params now r

  abbrev pub reload_body : ReloadAnswer → Body Time Seconds
  reload_body (reloaded revision successes) = reload_done revision successes
  reload_body (refused code revision) = reload_failed code revision

  abbrev pub status_reply : Option (RuntimeSnapshot Time Seconds) → Reply Time Seconds
  status_reply none = raises
  status_reply (some snap) = responds (status_is snap)

  module _ (no_time : Seconds) (uptime : Option Time → Time → Seconds) where
    -- `future` is a new one, for a reload.
    unfoldable pub process_request :
        ℕ → Time → ProtocolRequest → Runtime Time → Reply Time Seconds × Runtime Time
    process_request future now req r =
        if req.command == "ping"
        then (responds pong, r)
        else if req.command == "status"
        then (status_reply (snapshot no_time uptime now r), r)
        else if req.command == "reload"
        then (waits_for future, request_reload_and_wait future r)
        else if req.command == "get-context"
        then (responds (context_body r.context), r)
        else if req.command == "set-layer"
        then change_command set_layer_command req.params now r
        else if req.command == "next-layer"
        then change_command next_layer_command req.params now r
        else if req.command == "previous-layer"
        then change_command previous_layer_command req.params now r
        else if req.command == "set-profile"
        then change_command set_profile_command req.params now r
        else (responds (failed_with "UNKNOWN_COMMAND" "Unknown command"), r)

    -- a client's line: `none` if its user is another, or nothing came
    abbrev pub handle_parsed :
        ℕ
        → Time
        → Result ProtocolError ProtocolRequest
        → Runtime Time
        → Reply Time Seconds × Runtime Time
    handle_parsed future now (err e) r = (responds (failed_with e.code e.message), r)
    handle_parsed future now (ok req) r = process_request future now req r

    unfoldable pub handle_client :
        ℕ
        → Time
        → Bool
        → Option (Option Value)
        → Runtime Time
        → Option (Reply Time Seconds) × Runtime Time
    handle_client future now same_user none r = (none, r)
    handle_client future now same_user (some line) r =
        if not same_user
        then (none, r)
        else (let (reply, r') = handle_parsed future now (parse_request line) r in (some reply, r'))
