-- ===== src/Transport/Parser.antt =====
-- transport/parser.py: `TransportParser`, from raw key events to presses and releases of controls.
-- A method takes the parser and returns the new one. `(t - t0) / 1_000_000 > timeout_ms` is written
-- without the division: the float quotient compares as the exact one while the timeout stays below
-- 2 ^ 32 milliseconds.
mod Tests
pub mod Balance
pub mod Timing
pub mod Hold
pub mod Shift
use text.Mathlib.Text.{starts_with}
use yyr4_linux_control.Base.{
  ℕ, suc, ◌+◌, ◌*◌, String, Bool, true, false, ◌&&◌, not, Option, none, some, List, [], ◌∷◌, ◌++◌,
  map, ltb, leb, ◌==◌, string_eq, nat_eq, if◌then◌else◌, Result, ok, err,
}
use yyr4_linux_control.Base.Dict.{Dict, lookup, insert, erase}
use yyr4_linux_control.Domain.{
  PhysicalControl, ControlEvent, RawKeyEvent, TransportCode, ControlPhase, down, up,
}
use yyr4_linux_control.Transport.Codebook.{
  Codebook, get_by_primary_key_and_modifiers, get_code_for_control_id,
}

pub record Parser : Type 0 where
  pub source_id : String
  pub modifier_timeout_ms : ℕ
  pub codebook : Codebook
  pub shift_active : Bool
  pub shift_timestamp_ns : ℕ
  -- which control each function key that is down resolved to
  pub active_f_keys : Dict String PhysicalControl
  pub error_count : ℕ
  pub repeat_count : ℕ
  pub orphan_releases : ℕ
  pub modifier_timeouts : ℕ
  pub duplicate_downs : ℕ
  pub timestamp_regressions : ℕ
  pub last_timestamp_ns : ℕ

-- `TransportParser.__init__`
unfoldable pub parser : String → ℕ → Codebook → Result String Parser
parser source_id modifier_timeout_ms codebook =
    if leb modifier_timeout_ms 0
    then err "modifier_timeout_ms must be positive"
    else ok (record {
      source_id = source_id;
      modifier_timeout_ms = modifier_timeout_ms;
      codebook = codebook;
      shift_active = false;
      shift_timestamp_ns = 0;
      active_f_keys = [];
      error_count = 0;
      repeat_count = 0;
      orphan_releases = 0;
      modifier_timeouts = 0;
      duplicate_downs = 0;
      timestamp_regressions = 0;
      last_timestamp_ns = 0;
    })

abbrev pub is_nil {ℓ} : {A : Type ℓ} → List A → Bool
is_nil [] = true
is_nil (x ∷ xs) = false

unfoldable pub advance_time : ℕ → Parser → Parser
advance_time timestamp_ns p =
    if p.shift_active && is_nil p.active_f_keys
    then (if ltb (p.shift_timestamp_ns + p.modifier_timeout_ms * 1000000) timestamp_ns
        then record p {
          shift_active = false;
          modifier_timeouts = p.modifier_timeouts + 1;
          error_count = p.error_count + 1;
        }
        else p)
    else p

abbrev pub modifiers : Parser → List String
modifiers p = if p.shift_active then "KEY_LEFTSHIFT" ∷ [] else []

abbrev pub or_else {ℓ} : {A : Type ℓ} → Option A → A → A
or_else none d = d
or_else (some a) d = a

-- the event of a press or of a release
abbrev pub control_event :
    Parser → ℕ → PhysicalControl → ControlPhase → TransportCode → ControlEvent
control_event p timestamp_ns ctrl phase code = record {
  source_id = p.source_id;
  timestamp_ns = timestamp_ns;
  control = ctrl;
  phase = phase;
  transport_code = code;
  synthetic = false;
  reason = none;
}

-- the shift key, with a value of 0 or 1
unfoldable pub feed_shift : RawKeyEvent → Parser → Parser × List ControlEvent
feed_shift event p =
    if event.value == 1
    then (record p { shift_active = true; shift_timestamp_ns = event.timestamp_ns }, [])
    else if event.value == 0
    then (record p { shift_active = false }, [])
    else (p, [])

-- a function key goes down
unfoldable pub press : RawKeyEvent → Parser → Parser × List ControlEvent
press event p = elim (lookup event.code p.active_f_keys) [
  | some _ ↦
      (record p { duplicate_downs = p.duplicate_downs + 1; error_count = p.error_count + 1 }, [])
  | none ↦ elim (get_by_primary_key_and_modifiers p.codebook event.code (modifiers p)) [
    | none ↦ (record p { error_count = p.error_count + 1 }, [])
    | some ctrl ↦ (
      record p { active_f_keys = insert event.code ctrl p.active_f_keys },
      control_event p event.timestamp_ns ctrl down
            (record { primary_key = event.code; required_modifiers = modifiers p })
          ∷ [],
    )
  ]
]

abbrev pub release_event : Parser → RawKeyEvent → PhysicalControl → ControlEvent
release_event p event ctrl = control_event p event.timestamp_ns ctrl up (
    or_else (get_code_for_control_id p.codebook ctrl.control_id)
      (record { primary_key = event.code; required_modifiers = [] }))

-- a function key comes up
unfoldable pub release : RawKeyEvent → Parser → Parser × List ControlEvent
release event p = elim (lookup event.code p.active_f_keys) [
  | none ↦
      (record p { orphan_releases = p.orphan_releases + 1; error_count = p.error_count + 1 }, [])
  | some ctrl ↦ (
    record p { active_f_keys = erase event.code p.active_f_keys },
    release_event p event ctrl ∷ [],
  )
]

-- `feed` after its checks of the source and of the time
unfoldable pub feed_key : RawKeyEvent → Parser → Parser × List ControlEvent
feed_key event p =
    if event.value == 2
    then (record p { repeat_count = p.repeat_count + 1 }, [])
    else if event.code == "KEY_LEFTSHIFT"
    then feed_shift event p
    else if starts_with event.code "KEY_F"
    then (if event.value == 1
        then press event p
        else if event.value == 0
        then release event p
        else (p, []))
    else (p, [])

unfoldable pub feed : RawKeyEvent → Parser → Parser × List ControlEvent
feed event p =
    if not (event.source_id == p.source_id)
    then (p, [])
    else if ltb event.timestamp_ns p.last_timestamp_ns
    then (
      record p {
        timestamp_regressions = p.timestamp_regressions + 1;
        error_count = p.error_count + 1;
      },
      [],
    )
    else feed_key event
        (advance_time event.timestamp_ns (record p { last_timestamp_ns = event.timestamp_ns }))

-- the synthetic release of a key that is down
abbrev pub reset_event : Parser → ℕ → String × PhysicalControl → ControlEvent
reset_event p timestamp_ns (f_key, ctrl) = record {
  source_id = p.source_id;
  timestamp_ns = timestamp_ns;
  control = ctrl;
  phase = up;
  transport_code =
      or_else (get_code_for_control_id p.codebook ctrl.control_id)
        (record { primary_key = "UNKNOWN"; required_modifiers = [] });
  synthetic = true;
  reason = some "reset";
}

-- A time of 0 stands for the default argument.
unfoldable pub reset : ℕ → Parser → Parser × List ControlEvent
reset timestamp_ns p = (
  record p {
    last_timestamp_ns =
        (if not (timestamp_ns == 0) && ltb p.last_timestamp_ns timestamp_ns
          then timestamp_ns
          else p.last_timestamp_ns);
    shift_active = false;
    shift_timestamp_ns = 0;
    active_f_keys = [];
  },
  map (reset_event p timestamp_ns) p.active_f_keys,
)

-- a stream of raw events, with all that it makes the parser emit
unfoldable pub feed_all : List RawKeyEvent → Parser → Parser × List ControlEvent
feed_all [] p = (p, [])
feed_all (event ∷ events) p =
    let (p', out) = feed event p in let (q, rest) = feed_all events p' in (q, out ++ rest)
