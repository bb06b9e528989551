-- ===== src/Observation/Loop.antt =====
-- observation/pipeline.py: the reading of a stream in `observe`, and what its end does.
use yyr4_linux_control.Base.{
  ℕ, ◌+◌, String, Option, none, some, List, [], ◌∷◌, ◌++◌, length, ◌==◌, string_eq, ltb,
  if◌then◌else◌,
}
use yyr4_linux_control.Domain.{RawKeyEvent, ControlEvent}
use yyr4_linux_control.Transport.Parser.{Parser, feed, reset}

pub record Counters : Type 0 where
  pub discovery_attempts : ℕ
  pub identities_selected : ℕ
  pub streams_created : ℕ
  pub raw_events_seen : ℕ
  pub transport_source_events : ℕ
  pub ignored_source_events : ℕ
  pub control_events_emitted : ℕ
  pub synthetic_releases_emitted : ℕ
  pub normal_completions : ℕ
  pub discovery_errors : ℕ
  pub input_errors : ℕ
  pub parser_errors : ℕ
  pub cancellation_count : ℕ
  pub reset_on_cancel_count : ℕ
  pub dropped_synthetic_releases_on_cancel : ℕ
  pub close_calls : ℕ

abbrev pub all_zero : Counters
all_zero = record {
  discovery_attempts = 0;
  identities_selected = 0;
  streams_created = 0;
  raw_events_seen = 0;
  transport_source_events = 0;
  ignored_source_events = 0;
  control_events_emitted = 0;
  synthetic_releases_emitted = 0;
  normal_completions = 0;
  discovery_errors = 0;
  input_errors = 0;
  parser_errors = 0;
  cancellation_count = 0;
  reset_on_cancel_count = 0;
  dropped_synthetic_releases_on_cancel = 0;
  close_calls = 0;
}

-- how the reading ends: the stream is at its end, raises an InputAdapterError, the task is cancelled,
-- the generator is closed, or something else is raised
pub data StreamEnd : Type 0 where
  at_eof input_failed cancelled generator_exit failed : StreamEnd

-- what `observe` raises
pub data Raised : Type 0 where
  state_error discovery_error configuration_error input_error close_error : Raised
  cancelled_error exit_error : Raised

-- the local variables of the loop
pub record Reading : Type 0 where
  pub parser : Parser
  pub last_raw_timestamp_ns : ℕ
  pub last_parser_timestamp_ns : ℕ
  pub counters : Counters

abbrev pub max_of : ℕ → ℕ → ℕ
max_of a b = if ltb a b then b else a

-- the events that a raw event gives are emitted
unfoldable pub emit : List ControlEvent → Reading → Reading
emit [] r = r
emit (ce ∷ ces) r = emit ces (record r {
  last_parser_timestamp_ns = max_of r.last_parser_timestamp_ns ce.timestamp_ns;
  counters = record r.counters { control_events_emitted = r.counters.control_events_emitted + 1 };
})

abbrev pub seen : RawKeyEvent → Reading → Reading
seen raw r = record r {
  last_raw_timestamp_ns = raw.timestamp_ns;
  counters = record r.counters { raw_events_seen = r.counters.raw_events_seen + 1 };
}

abbrev pub ignored : Reading → Reading
ignored r = record r {
  counters = record r.counters { ignored_source_events = r.counters.ignored_source_events + 1 };
}

abbrev pub accepted : Reading → Reading
accepted r = record r {
  counters = record r.counters { transport_source_events = r.counters.transport_source_events + 1 };
}

-- `parser.feed`, which raises nothing, and its events
abbrev pub fed : Parser × List ControlEvent → Reading → Reading × List ControlEvent
fed (p, out) r = (emit out (record r { parser = p }), out)

-- one round of the loop
unfoldable pub read_event : String → RawKeyEvent → Reading → Reading × List ControlEvent
read_event source raw r =
    if raw.source_id == source
    then fed (feed raw r.parser) (accepted (seen raw r))
    else (ignored (seen raw r), [])

-- the loop
unfoldable pub read_events : String → List RawKeyEvent → Reading → Reading × List ControlEvent
read_events source [] r = (r, [])
read_events source (raw ∷ raws) r =
    let (r', out) = read_event source raw r in
    let (q, rest) = read_events source raws r' in (q, out ++ rest)

abbrev pub reset_time : Reading → ℕ
reset_time r = max_of (r.last_parser_timestamp_ns + 1) (r.last_raw_timestamp_ns + 1)

-- the synthetic releases of a reset are emitted
abbrev pub released : List ControlEvent → Counters → Counters
released out c = record c {
  control_events_emitted = c.control_events_emitted + length out;
  synthetic_releases_emitted = c.synthetic_releases_emitted + length out;
}

-- they are dropped; a reset without a time is one with the time 0
abbrev pub dropped : List ControlEvent → Counters → Counters
dropped out c = record c {
  reset_on_cancel_count = c.reset_on_cancel_count + 1;
  dropped_synthetic_releases_on_cancel = c.dropped_synthetic_releases_on_cancel + length out;
}

-- the counters at the end, the events emitted there, and what is raised
unfoldable pub end_reading : StreamEnd → Reading → Counters × List ControlEvent × Option Raised
end_reading at_eof r =
    let out = (reset (reset_time r) r.parser).1 in
    let c = released out r.counters in
    (record c { normal_completions = c.normal_completions + 1 }, out, none)
end_reading input_failed r =
    let out = (reset (reset_time r) r.parser).1 in
    let c = released out r.counters in
    (record c { input_errors = c.input_errors + 1 }, out, some input_error)
end_reading cancelled r =
    let c = dropped (reset 0 r.parser).1 r.counters in
    (record c { cancellation_count = c.cancellation_count + 1 }, [], some cancelled_error)
end_reading generator_exit r = (dropped (reset 0 r.parser).1 r.counters, [], some exit_error)
end_reading failed r = (
  record r.counters { parser_errors = r.counters.parser_errors + 1 },
  [],
  some configuration_error,
)
