-- ===== src/Transport/Parser/Shift.antt =====
-- Which presses count as shifted, and the error counters.
use text.Mathlib.Text.{starts_with}
use yyr4_linux_control.Base.{
  ℕ, ◌+◌, ◌*◌, ◌≤◌, ◌≡◌, String, Bool, true, ◌&&◌, ◌||◌, not, none, some, List, [], ◌∷◌, ◌∙◌, arith,
  leb, string_eq, if◌then◌else◌, Option-cases, inl, inr,
}
use yyr4_linux_control.Base.Dict.{lookup}
use yyr4_linux_control.Domain.{ControlEvent, RawKeyEvent, down}
use yyr4_linux_control.Transport.Codebook.{Codebook, get_by_primary_key_and_modifiers}
use yyr4_linux_control.Transport.Parser.{
  Parser, feed, feed_key, feed_shift, press, release, advance_time, feed_all, modifiers,
  control_event, is_nil,
}
use yyr4_linux_control.Transport.Parser.Balance.{active-advance_time}
use yyr4_linux_control.Transport.Parser.Hold.{not_shift, ==_iff_true, not_before}

-- Shift counts at time `t` if it is down and has not expired: it expires only while no function
-- key is down, after the timeout.
abbrev pub is_shifted : Parser → ℕ → Bool
is_shifted p t =
    p.shift_active
    && (not (is_nil p.active_f_keys)
        || leb t (p.shift_timestamp_ns + p.modifier_timeout_ms * 1000000))

abbrev pub shift_modifiers : Bool → List String
shift_modifiers shifted = if shifted then "KEY_LEFTSHIFT" ∷ [] else []

-- what a press of `code` emits, given the modifiers in force
abbrev pub pressed : Parser → ℕ → String → List String → List ControlEvent
pressed p t code mods = elim (get_by_primary_key_and_modifiers p.codebook code mods) [
  | none ↦ []
  | some c ↦
      control_event p t c down (record { primary_key = code; required_modifiers = mods }) ∷ []
]

modifiers-advance_time :
    (t : ℕ) (p : Parser) → modifiers (advance_time t p) ≡ shift_modifiers (is_shifted p t)
unfolding advance_time
modifiers-advance_time t p = ground arith

same-advance_time :
    (t : ℕ) (p : Parser)
    → ((advance_time t p).source_id ≡ p.source_id) × ((advance_time t p).codebook ≡ p.codebook)
unfolding advance_time
same-advance_time t p = ground arith

press_out :
    (event : RawKeyEvent) (p : Parser)
    → lookup event.code p.active_f_keys ≡ none
    → (press event p).1 ≡ pressed p event.timestamp_ns event.code (modifiers p)
unfolding press
press_out event p new =
    elim (Option-cases (get_by_primary_key_and_modifiers p.codebook event.code (modifiers p))) [
      | inl unknown ↦ ground arith
      | inr (c, e) ↦ ground arith
    ]

feed_key_press :
    (event : RawKeyEvent) (p : Parser)
    → event.value ≡ 1
    → starts_with event.code "KEY_F" ≡ true
    → lookup event.code p.active_f_keys ≡ none
    → (feed_key event p).1 ≡ pressed p event.timestamp_ns event.code (modifiers p)
unfolding feed_key
feed_key_press event p one f new = ground (arith, not_shift event.code f, press_out event p new)

pressed_same :
    (p q : Parser) (t : ℕ) (code : String) {ms ns : List String}
    → p.source_id ≡ q.source_id
    → p.codebook ≡ q.codebook
    → ms ≡ ns
    → pressed p t code ms ≡ pressed q t code ns
pressed_same p q t code {ms} {ns} s b m = λ i. pressed_as (s i) (b i) (m i)
  where
    pressed_as : String → Codebook → List String → List ControlEvent
    pressed_as s b m = pressed (record q { source_id = s; codebook = b }) t code m

-- A press of a function key that is up (of this source, not before the parser's clock) reports the
-- codebook's control for the key with the modifiers in force, or nothing if there is none.
pub feed_press :
    (event : RawKeyEvent) (p : Parser)
    → event.source_id ≡ p.source_id
    → p.last_timestamp_ns ≤ event.timestamp_ns
    → event.value ≡ 1
    → starts_with event.code "KEY_F" ≡ true
    → lookup event.code p.active_f_keys ≡ none
    → (feed event p).1
      ≡ pressed p event.timestamp_ns event.code (shift_modifiers (is_shifted p event.timestamp_ns))
feed_press event p mine later one f new =
    let t = event.timestamp_ns in
    let p0 : Parser = record p { last_timestamp_ns = t } in
    let p1 = advance_time t p0 in
    let (same_source, same_book) = same-advance_time t p0 in
    let step = feed_key_press event p1 one f (rw (active-advance_time t p0) new) in
    unfold feed in
    rw ((==_iff_true event.source_id p.source_id mine), (not_before t p.last_timestamp_ns later))
      (step ∙ pressed_same p1 p t event.code same_source same_book (modifiers-advance_time t p0))

-- the counters of particular errors against the count of all errors
abbrev pub IsLedger : Parser → Type 0
IsLedger p =
    p.timestamp_regressions + p.modifier_timeouts + p.duplicate_downs + p.orphan_releases
    ≤ p.error_count

advance_time-IsLedger : (t : ℕ) (p : Parser) → IsLedger p → IsLedger (advance_time t p)
unfolding advance_time
advance_time-IsLedger t p h = ground arith

feed_key-IsLedger : (event : RawKeyEvent) (p : Parser) → IsLedger p → IsLedger (feed_key event p).0
unfolding feed_key feed_shift press release
feed_key-IsLedger event p h = ground arith

feed-IsLedger : (event : RawKeyEvent) (p : Parser) → IsLedger p → IsLedger (feed event p).0
unfolding feed
feed-IsLedger event p h =
    let p0 : Parser = record p { last_timestamp_ns = event.timestamp_ns } in
    ground (
      arith,
      advance_time-IsLedger event.timestamp_ns p0,
      feed_key-IsLedger event (advance_time event.timestamp_ns p0),
    )

-- After any events the four counters of particular errors stay within the count of all errors.
pub feed_all-IsLedger :
    (events : List RawKeyEvent) (p : Parser) → IsLedger p → IsLedger (feed_all events p).0
unfolding feed_all
feed_all-IsLedger [] p h = h
feed_all-IsLedger (event ∷ events) p h =
    feed_all-IsLedger events (feed event p).0 (feed-IsLedger event p h)
