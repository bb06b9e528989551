-- ===== src/Observation.antt =====
-- observation/pipeline.py: `ObservationPipeline`, from the raw key events of a stream to control
-- events. A run of `observe` is a function of how its set-up goes, the raw events that the stream
-- delivers, how the stream ends, and whether closing it fails.
pub mod Loop
pub mod Releases
mod Tests
use yyr4_linux_control.Base.{
  ℕ, ◌+◌, String, Bool, true, false, not, Option, none, some, List, [], ◌∷◌, ◌++◌, length, ◌==◌,
  string_eq, ltb, if◌then◌else◌, Result, ok, err, raise_if, ◌>>◌,
}
use yyr4_linux_control.Base.Text.{is_empty}
use yyr4_linux_control.Domain.{RawKeyEvent, ControlEvent}
use yyr4_linux_control.Transport.Parser.{Parser, feed, reset}
use yyr4_linux_control.Observation.Loop.{
  Counters, all_zero, StreamEnd, Raised, Reading, read_events, end_reading, state_error,
  discovery_error, configuration_error, close_error,
}

pub data ObservationState : Type 0 where
  created running closing closed : ObservationState

pub record Pipeline : Type 0 where
  pub transport_source_id : String
  pub state : ObservationState
  pub counters : Counters

-- `__init__`
unfoldable pub observation_pipeline : String → Result String Pipeline
observation_pipeline source = do
  raise_if (is_empty source) "transport_source_id cannot be empty"
  ok (record { transport_source_id = source; state = created; counters = all_zero })

-- `close`, up to the closing of the stream
abbrev pub closed_from : ObservationState → ObservationState
closed_from created = closed
closed_from running = closing
closed_from s = s

unfoldable pub close : Pipeline → Pipeline
close p = record p {
  state = closed_from p.state;
  counters = record p.counters { close_calls = p.counters.close_calls + 1 };
}

-- what the three factories give: the last is the parser
pub data Setup : Type 0 where
  no_device no_stream no_parser : Setup
  ready : Parser → Setup

-- the events that `observe` yields, what it raises in the end, and the pipeline
pub record Outcome : Type 0 where
  pub yielded : List ControlEvent
  pub raised : Option Raised
  pub pipeline : Pipeline

-- the `finally`: an error of closing the stream counts only if there is no other
abbrev pub after_close : Bool → Option Raised → Option Raised
after_close fails (some e) = some e
after_close true none = some close_error
after_close false none = none

abbrev pub finish :
    Bool → List ControlEvent → Counters × List ControlEvent × Option Raised → Pipeline → Outcome
finish close_fails out (c, last, raised) p = record {
  yielded = out ++ last;
  raised = after_close close_fails raised;
  pipeline = record p { state = closed; counters = c };
}

abbrev pub reading : Parser → Counters → Reading
reading parser c = record {
  parser = parser;
  last_raw_timestamp_ns = 0;
  last_parser_timestamp_ns = 0;
  counters = c;
}

abbrev pub run_stream : Parser → List RawKeyEvent → StreamEnd → Bool → Counters → Pipeline → Outcome
run_stream parser raws end close_fails c p =
    let (r, out) = read_events p.transport_source_id raws (reading parser c) in
    finish close_fails out (end_reading end r) p

abbrev pub refuse : Raised → Counters → Pipeline → Outcome
refuse e c p = record {
  yielded = [];
  raised = some e;
  pipeline = record p { state = closed; counters = c };
}

abbrev pub attempted : Counters → Counters
attempted c = record c { discovery_attempts = c.discovery_attempts + 1 }

abbrev pub identified : Counters → Counters
identified c = record c { identities_selected = c.identities_selected + 1 }

abbrev pub streaming : Counters → Counters
streaming c = record c { streams_created = c.streams_created + 1 }

abbrev pub discovery_failed : Counters → Counters
discovery_failed c = record c { discovery_errors = c.discovery_errors + 1 }

abbrev pub set_up : Setup → List RawKeyEvent → StreamEnd → Bool → Pipeline → Outcome
set_up no_device raws end close_fails p =
    refuse discovery_error (discovery_failed (attempted p.counters)) p
set_up no_stream raws end close_fails p =
    refuse discovery_error (discovery_failed (identified (attempted p.counters))) p
set_up no_parser raws end close_fails p =
    refuse configuration_error (streaming (identified (attempted p.counters))) p
set_up (ready parser) raws end close_fails p =
    run_stream parser raws end close_fails (streaming (identified (attempted p.counters))) p

-- `observe`
unfoldable pub observe : Setup → List RawKeyEvent → StreamEnd → Bool → Pipeline → Outcome
observe setup raws end close_fails p = elim p.state [
  | created ↦ set_up setup raws end close_fails p
  | _ ↦ record { yielded = []; raised = some state_error; pipeline = p }
]
