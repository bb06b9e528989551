-- ===== src/Management/Tests.antt =====
-- A request to change the layer, of a daemon with a context.
use yyr4_linux_control.Base.{ℕ, ◌≡◌, refl, true, some, Option, ok}
use yyr4_linux_control.Base.Int.{pos}
use yyr4_linux_control.Base.Value.{Value, int, str, table, field, no_fields, get, unknown_field}
use yyr4_linux_control.Control.Config.{get_table}
use yyr4_linux_control.Control.Models.{general, member_of, layer_of, ProfileId}
use yyr4_linux_control.Daemon.Context.{new_context, set_layer}
use yyr4_linux_control.Daemon.Runtime.{Runtime, daemon_runtime, running}
use yyr4_linux_control.Daemon.Runtime.Steps.{answer}
use yyr4_linux_control.Management.Protocol.{ProtocolRequest, parse_request, has_field}
use yyr4_linux_control.Management.Server.{
  process_request, change_command, responds, context_changed,
}

abbrev home : ProfileId
home = record { value = "home" }

abbrev daemon : Runtime ℕ
daemon = record (daemon_runtime 4) { state = running; context = some (new_context home general 10) }

abbrev line : Value
line = table (
    field "protocol_version" (int (pos 1)) (
      field "request_id" (str "a") (
        field "command" (str "set-layer")
          (field "params" (table (field "layer" (str "layer_1") no_fields)) no_fields))))

abbrev request : ProtocolRequest
request = record {
  protocol_version = int (pos 1);
  request_id = "a";
  command = "set-layer";
  params = field "layer" (str "layer_1") no_fields;
}

line_parsed : parse_request (some line) ≡ ok request
unfolding parse_request has_field get get_table unknown_field
line_parsed = refl

abbrev no_uptime : Option ℕ → ℕ → ℕ
no_uptime started now = 0

layer_changed :
    (process_request 0 no_uptime 0 20 request daemon).0
    ≡ responds (context_changed "home" "general" "home" "layer_1" 1 true)
unfolding process_request change_command get answer set_layer layer_of member_of
layer_changed = refl
