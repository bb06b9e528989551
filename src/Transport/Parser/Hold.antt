-- ===== src/Transport/Parser/Hold.antt =====
-- A key that is down keeps the control that it resolved to, whatever the shift key does meanwhile.
use text.Mathlib.Text.{starts_with}
use yyr4_linux_control.Base.{
  ◌∙◌, ℕ, ◌≤◌, ◌≡◌, ◌≢◌, refl, String, true, false, List, [], ◌∷◌, arith, ltb, ◌==◌, ==_ne,
  string_eq, All, some, Option-cases, inl, inr, ap,
}
use yyr4_linux_control.Base.Dict.{lookup, lookup-insert_ne, lookup-insert_self, lookup-erase_ne}
use yyr4_linux_control.Domain.{PhysicalControl, ControlEvent, RawKeyEvent, up, down}
use yyr4_linux_control.Transport.Codebook.{get_by_primary_key_and_modifiers}
use yyr4_linux_control.Transport.Parser.{
  Parser, feed, feed_key, feed_shift, press, release, advance_time, feed_all, modifiers,
  release_event,
}
use yyr4_linux_control.Transport.Parser.Balance.{active-advance_time}

pub ==_iff_true : (a b : String) → a ≡ b → (a == b) ≡ true
==_iff_true a b e = ground (arith, (string_eq.beq_iff a b).1 e)

pub not_before : (t last : ℕ) → last ≤ t → ltb t last ≡ false
not_before t last h = ground arith

-- The event does not concern the key.
abbrev pub IsOther : String → RawKeyEvent → Type 0
IsOther code e = code ≢ e.code

module _ (code : String) (event : RawKeyEvent) (p : Parser) (other : IsOther code event) where
  held_feed_key : lookup code (feed_key event p).0.active_f_keys ≡ lookup code p.active_f_keys
  unfolding feed_key feed_shift press release
  held_feed_key = elim (Option-cases (lookup event.code p.active_f_keys)) [
    | inl new ↦
        elim (Option-cases (get_by_primary_key_and_modifiers p.codebook event.code (modifiers p))) [
          | inl unknown ↦ ground arith
          | inr (c, e) ↦ ground (arith, lookup-insert_ne code event.code c p.active_f_keys other)
        ]
    | inr (c, e) ↦ ground (arith, lookup-erase_ne code event.code p.active_f_keys other)
  ]

held_feed :
    (code : String) (event : RawKeyEvent) (p : Parser)
    → IsOther code event
    → lookup code (feed event p).0.active_f_keys ≡ lookup code p.active_f_keys
unfolding feed
held_feed code event p other =
    let t = event.timestamp_ns in
    let p0 : Parser = record p { last_timestamp_ns = t } in
    ground (
      arith,
      held_feed_key code event (advance_time t p0) other,
      ap (lookup code) (active-advance_time t p0),
    )

-- Events on other keys, the shift key among them, leave the key with its control.
held_feed_all :
    (code : String) (events : List RawKeyEvent) (p : Parser)
    → All (IsOther code) events
    → lookup code (feed_all events p).0.active_f_keys ≡ lookup code p.active_f_keys
unfolding feed_all
held_feed_all code [] p h = refl
held_feed_all code (event ∷ events) p h =
    held_feed_all code events (feed event p).0 h.1 ∙ held_feed code event p h.0

-- a press that is emitted leaves the key down, with the control of the press
down_feed_key :
    (event : RawKeyEvent) (p : Parser) (d : ControlEvent)
    → (feed_key event p).1 ≡ d ∷ []
    → d.phase ≡ down
    → lookup event.code (feed_key event p).0.active_f_keys ≡ some d.control
unfolding feed_key feed_shift press release
down_feed_key event p d = elim (Option-cases (lookup event.code p.active_f_keys)) [
  | inl new ↦
      elim (Option-cases (get_by_primary_key_and_modifiers p.codebook event.code (modifiers p))) [
        | inl unknown ↦ ground arith
        | inr (c, e) ↦ ground (arith, lookup-insert_self event.code c p.active_f_keys)
      ]
  | inr (c, e) ↦ ground arith
]

down_feed :
    (event : RawKeyEvent) (p : Parser) (d : ControlEvent)
    → (feed event p).1 ≡ d ∷ []
    → d.phase ≡ down
    → lookup event.code (feed event p).0.active_f_keys ≡ some d.control
unfolding feed
down_feed event p d =
    let t = event.timestamp_ns in
    let p0 : Parser = record p { last_timestamp_ns = t } in
    ground (arith, down_feed_key event (advance_time t p0) d)

pub not_shift :
    (code : String) → starts_with code "KEY_F" ≡ true → (code == "KEY_LEFTSHIFT") ≡ false
not_shift code f = ==_ne code "KEY_LEFTSHIFT" (λ e. cc (ap (λ c. starts_with c "KEY_F") e))

release_feed_key :
    (event : RawKeyEvent) (p : Parser) (c : PhysicalControl)
    → starts_with event.code "KEY_F" ≡ true
    → event.value ≡ 0
    → lookup event.code p.active_f_keys ≡ some c
    → (feed_key event p).1 ≡ release_event p event c ∷ []
unfolding feed_key feed_shift release
release_feed_key event p c f zero_value h = ground (arith, not_shift event.code f)

abbrev pub after : RawKeyEvent → List RawKeyEvent → Parser → Parser
after event events p = (feed_all events (feed event p).0).0

-- Suppose that an event made the parser report that a control was pressed. Then whatever events on
-- other keys follow, the shift key's among them, the next release of that key (of this source, and
-- not before the parser's clock) makes it report exactly one release, of the same control.
pub release_matches_press :
    (press_event : RawKeyEvent) (between : List RawKeyEvent) (event : RawKeyEvent) (p : Parser)
    (d : ControlEvent)
    → (feed press_event p).1 ≡ d ∷ []
    → d.phase ≡ down
    → All (IsOther press_event.code) between
    → event.code ≡ press_event.code
    → starts_with event.code "KEY_F" ≡ true
    → event.value ≡ 0
    → event.source_id ≡ (after press_event between p).source_id
    → (after press_event between p).last_timestamp_ns ≤ event.timestamp_ns
    → (u : ControlEvent) × ((feed event (after press_event between p)).1 ≡ u ∷ [])
      × (u.control ≡ d.control)
      × (u.phase ≡ up)
release_matches_press press_event between event p d emitted pressed others same f zero_value mine
      later =
    let q = after press_event between p in
    let p0 : Parser = record q { last_timestamp_ns = event.timestamp_ns } in
    let p1 = advance_time event.timestamp_ns p0 in
    let is_down = active-advance_time event.timestamp_ns p0 in
    let held_here : lookup event.code p1.active_f_keys ≡ some d.control =
      rw (is_down, same)
        (held_feed_all press_event.code between (feed press_event p).0 others
          ∙ down_feed press_event p d emitted pressed) in
    let step = release_feed_key event p1 d.control f zero_value held_here in
    (
      release_event p1 event d.control,
      unfold feed in
          rw
            (
              (==_iff_true event.source_id q.source_id mine),
              not_before event.timestamp_ns q.last_timestamp_ns later,
            )
            step,
      refl,
      refl,
    )
