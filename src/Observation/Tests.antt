-- ===== src/Observation/Tests.antt =====
-- A stream with one event of the device, a key that stays down, and one of another source.
use yyr4_linux_control.Base.{
  ℕ, ◌+◌, ◌≡◌, refl, String, false, none, some, inl, [], ◌∷◌, List, length,
}
use yyr4_linux_control.Base.Int.{pos}
use yyr4_linux_control.Base.Dict.{lookup, insert}
use yyr4_linux_control.Domain.{PhysicalControl, button, RawKeyEvent, up, down}
use yyr4_linux_control.Transport.Codebook.{
  Codebook, empty_book, get_by_primary_key_and_modifiers, get_by_transport_code, string_repr,
}
use yyr4_linux_control.Transport.Parser.{Parser, parser, feed, feed_key, press, advance_time, reset}
use yyr4_linux_control.Transport.Parser.Balance.{tally}
use yyr4_linux_control.Observation.Loop.{
  all_zero, at_eof, read_events, read_event, emit, end_reading,
}
use yyr4_linux_control.Observation.{Pipeline, created, closed, ready, observe, Outcome}
use yyr4_linux_control.Observation.Releases.{observe-releases}

abbrev f13 : PhysicalControl
f13 = record {
  control_id = "button.k01";
  vendor_name = "A1";
  kind = button;
  encoder_index = none;
  button_index = some (pos 1);
}

abbrev book : Codebook
book = record (empty_book []) { code_to_control = ("KEY_F13", f13) ∷ [] }

abbrev kbd : Parser
kbd = record {
  source_id = "kbd";
  modifier_timeout_ms = 100;
  codebook = book;
  shift_active = false;
  shift_timestamp_ns = 0;
  active_f_keys = [];
  error_count = 0;
  repeat_count = 0;
  orphan_releases = 0;
  modifier_timeouts = 0;
  duplicate_downs = 0;
  timestamp_regressions = 0;
  last_timestamp_ns = 0;
}

abbrev key : String → ℕ → RawKeyEvent
key source t = record { source_id = source; timestamp_ns = t; code = "KEY_F13"; value = 1 }

abbrev raws : List RawKeyEvent
raws = key "kbd" 10 ∷ key "mouse" 20 ∷ []

abbrev pipeline : Pipeline
pipeline = record { transport_source_id = "kbd"; state = created; counters = all_zero }

unfoldable outcome : Outcome
unfolding observe
outcome = observe (ready kbd) raws at_eof false pipeline

two_events : length outcome.yielded ≡ 2
unfolding outcome read_events read_event feed feed_key press advance_time emit end_reading reset
    get_by_primary_key_and_modifiers get_by_transport_code string_repr lookup insert
two_events = refl

observe-releases_example :
    (tally down "button.k01" outcome.yielded ≡ tally up "button.k01" outcome.yielded)
    × (outcome.pipeline.counters.control_events_emitted ≡ 0 + length outcome.yielded)
    × (outcome.pipeline.counters.raw_events_seen ≡ 0 + length raws)
    × (outcome.pipeline.state ≡ closed)
unfolding parser outcome
observe-releases_example =
    observe-releases "kbd" 100 book kbd raws at_eof false pipeline "button.k01" refl refl (inl refl)
