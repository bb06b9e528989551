-- ===== src/Transport/Parser/Tests.antt =====
-- Runs of the parser.
use yyr4_linux_control.Base.{
  ℕ, ◌≤◌, ◌≡◌, ◌≢◌, refl, String, false, none, some, List, [], ◌∷◌, ◌++◌, arith, string_eq,
}
use yyr4_linux_control.Base.Dict.{lookup, insert}
use yyr4_linux_control.Domain.{
  PhysicalControl, button, encoder_press, ControlEvent, RawKeyEvent, down, up,
}
use yyr4_linux_control.Base.Int.{pos}
use yyr4_linux_control.Transport.Codebook.{
  Codebook, empty_book, get_by_primary_key_and_modifiers, get_by_transport_code, string_repr,
}
use yyr4_linux_control.Transport.Parser.{
  Parser, parser, feed, feed_all, feed_key, feed_shift, press, advance_time, reset,
}
use yyr4_linux_control.Transport.Parser.Balance.{tally, presses_released}
use yyr4_linux_control.Transport.Parser.Timing.{IsOrdered, feed_all-IsOrdered}
use yyr4_linux_control.Transport.Parser.Hold.{after, release_matches_press}
use yyr4_linux_control.Transport.Parser.Shift.{IsLedger, feed_all-IsLedger}

abbrev a1 : PhysicalControl
a1 = record {
  control_id = "button.k01";
  vendor_name = "A1";
  kind = button;
  encoder_index = none;
  button_index = some (pos 1);
}

abbrev al : PhysicalControl
al = record {
  control_id = "encoder.e01.press";
  vendor_name = "AP";
  kind = encoder_press;
  encoder_index = some (pos 1);
  button_index = none;
}

abbrev book : Codebook
book = record (empty_book []) {
  code_to_control = ("KEY_F13", a1) ∷ ("KEY_LEFTSHIFT+KEY_F14", al) ∷ [];
}

abbrev start : Parser
start = record {
  source_id = "kbd";
  modifier_timeout_ms = 100;
  codebook = book;
  shift_active = false;
  shift_timestamp_ns = 0;
  active_f_keys = [];
  error_count = 0;
  repeat_count = 0;
  orphan_releases = 0;
  modifier_timeouts = 0;
  duplicate_downs = 0;
  timestamp_regressions = 0;
  last_timestamp_ns = 0;
}

abbrev key : ℕ → String → ℕ → RawKeyEvent
key t code v = record { source_id = "kbd"; timestamp_ns = t; code = code; value = v }

abbrev shifted_press : List RawKeyEvent
shifted_press =
    key 10 "KEY_LEFTSHIFT" 1
    ∷ key 20 "KEY_F14" 1
    ∷ key 30 "KEY_LEFTSHIFT" 0
    ∷ key 40 "KEY_F14" 2
    ∷ []

shifted_press_holds : (feed_all shifted_press start).0.active_f_keys ≡ ("KEY_F14", al) ∷ []
unfolding feed_all feed feed_key feed_shift press advance_time get_by_primary_key_and_modifiers
    get_by_transport_code string_repr lookup insert
shifted_press_holds = refl

presses_released_example :
    let (q, out) = feed_all shifted_press start in
    let (r, rest) = reset 50 q in
    (tally up "encoder.e01.press" out ≤ tally down "encoder.e01.press" out)
    × (tally down "encoder.e01.press" (out ++ rest) ≡ tally up "encoder.e01.press" (out ++ rest))
    × (r.active_f_keys ≡ [])
unfolding parser
presses_released_example =
    presses_released "kbd" 100 book shifted_press 50 "encoder.e01.press" {p = start} refl

kbd_named : start.source_id ≢ ""
kbd_named e = ground (arith, (string_eq.beq_iff "kbd" "").1 e)

feed_all-IsOrdered_example : IsOrdered start (feed_all shifted_press start)
feed_all-IsOrdered_example = feed_all-IsOrdered shifted_press start kbd_named

feed_all-IsLedger_example : IsLedger (feed_all shifted_press start).0
feed_all-IsLedger_example = feed_all-IsLedger shifted_press start (omega arith)

abbrev a1_down : ControlEvent
a1_down = record {
  source_id = "kbd";
  timestamp_ns = 10;
  control = a1;
  phase = down;
  transport_code = record { primary_key = "KEY_F13"; required_modifiers = [] };
  synthetic = false;
  reason = none;
}

shift_is_other : ◌≢◌ {A = String} "KEY_F13" "KEY_LEFTSHIFT"
shift_is_other e = ground (arith, (string_eq.beq_iff "KEY_F13" "KEY_LEFTSHIFT").1 e)

release_matches_press_example :
    (u : ControlEvent) × ((feed
        (key 30 "KEY_F13" 0)
        (after (key 10 "KEY_F13" 1) (key 20 "KEY_LEFTSHIFT" 1 ∷ []) start)).1
      ≡ u ∷ [])
    × (u.control ≡ a1)
    × (u.phase ≡ up)
unfolding feed_all feed feed_key feed_shift press advance_time get_by_primary_key_and_modifiers
    get_by_transport_code string_repr lookup insert
release_matches_press_example =
    release_matches_press (key 10 "KEY_F13" 1) (key 20 "KEY_LEFTSHIFT" 1 ∷ []) (key 30 "KEY_F13" 0)
      start a1_down refl refl (shift_is_other, tt) refl refl refl refl (omega arith)
