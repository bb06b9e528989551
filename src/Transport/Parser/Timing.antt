-- ===== src/Transport/Parser/Timing.antt =====
-- The order of what the parser emits, and that every event it emits passes the event's own checks.
use yyr4_linux_control.Base.{
  ◌∙◌, ℕ, ◌≤◌, ◌≡◌, ◌≢◌, refl, String, List, [], ◌∷◌, ◌++◌, arith, ltb, ◌==◌, ==_ne, string_eq, ok,
  All, All-append, Option-cases, inl, inr, Bool-cases, subst,
}
use yyr4_linux_control.Base.Dict.{lookup}
use yyr4_linux_control.Domain.{ControlEvent, RawKeyEvent, check_event}
use yyr4_linux_control.Transport.Codebook.{get_by_primary_key_and_modifiers}
use yyr4_linux_control.Transport.Parser.{
  Parser, feed, feed_key, feed_shift, press, release, advance_time, feed_all, modifiers,
}

-- The times rise from `lo` to `hi`.
abbrev pub IsTimed : ℕ → List ControlEvent → ℕ → Type 0
IsTimed lo [] hi = lo ≤ hi
IsTimed lo (e ∷ es) hi = (lo ≤ e.timestamp_ns) × IsTimed e.timestamp_ns es hi

IsTimed-append :
    (lo mid hi : ℕ) (xs ys : List ControlEvent)
    → IsTimed lo xs mid
    → IsTimed mid ys hi
    → IsTimed lo (xs ++ ys) hi
IsTimed-append lo mid hi [] [] hx hy = omega arith
IsTimed-append lo mid hi [] (y ∷ ys) hx hy = (omega arith, hy.1)
IsTimed-append lo mid hi (x ∷ xs) ys hx hy =
    (hx.0, IsTimed-append x.timestamp_ns mid hi xs ys hx.1 hy)

-- An event of this source and time that `ControlEvent.__post_init__` lets through.
abbrev pub IsEventAt : String → ℕ → ControlEvent → Type 0
IsEventAt source_id t e = (e.source_id ≡ source_id) × (e.timestamp_ns ≡ t) × (check_event e ≡ ok tt)

IsTimed-of_same :
    (source_id : String) (t : ℕ) (es : List ControlEvent)
    → All (IsEventAt source_id t) es
    → IsTimed t es t
IsTimed-of_same source_id t [] h = omega arith
IsTimed-of_same source_id t (e ∷ es) h =
    (omega (arith, h.0.1), rw h.0.1 (IsTimed-of_same source_id t es h.1))

-- What a step of the parser does to its identity and its clock, and what it emits.
abbrev Emits : Parser → ℕ → Parser × List ControlEvent → Type 0
Emits p t (q, out) =
    (q.source_id ≡ p.source_id)
    × (q.last_timestamp_ns ≡ p.last_timestamp_ns)
    × All (IsEventAt p.source_id t) out

module _ (event : RawKeyEvent) (p : Parser) (named : p.source_id ≢ "") where
  press-Emits : Emits p event.timestamp_ns (press event p)
  unfolding press check_event
  press-Emits = elim (Option-cases (lookup event.code p.active_f_keys)) [
    | inl new ↦
        elim (Option-cases (get_by_primary_key_and_modifiers p.codebook event.code (modifiers p))) [
          | inl unknown ↦ ground arith
          | inr (c, e) ↦ ground (arith, ==_ne p.source_id "" named)
        ]
    | inr (c, e) ↦ ground arith
  ]

  release-Emits : Emits p event.timestamp_ns (release event p)
  unfolding release check_event
  release-Emits = elim (Option-cases (lookup event.code p.active_f_keys)) [
    | inl orphan ↦ ground arith
    | inr (c, e) ↦ ground (arith, ==_ne p.source_id "" named)
  ]

  feed_key-Emits : Emits p event.timestamp_ns (feed_key event p)
  unfolding feed_key feed_shift
  feed_key-Emits = ground (arith, press-Emits, release-Emits)

-- A checked event of this source.
abbrev pub IsFrom : String → ControlEvent → Type 0
IsFrom source_id e = (e.source_id ≡ source_id) × (check_event e ≡ ok tt)

IsFrom-of_at :
    (source_id : String) (t : ℕ) (es : List ControlEvent)
    → All (IsEventAt source_id t) es
    → All (IsFrom source_id) es
IsFrom-of_at source_id t [] h = tt
IsFrom-of_at source_id t (e ∷ es) h = ((h.0.0, h.0.2), IsFrom-of_at source_id t es h.1)

-- The stream of a parser at `p` that leaves it at `q`.
abbrev pub IsOrdered : Parser → Parser × List ControlEvent → Type 0
IsOrdered p (q, out) =
    (q.source_id ≡ p.source_id)
    × IsTimed p.last_timestamp_ns out q.last_timestamp_ns
    × All (IsFrom p.source_id) out

advance_time_keeps :
    (t : ℕ) (p : Parser)
    → ((advance_time t p).source_id ≡ p.source_id)
      × ((advance_time t p).last_timestamp_ns ≡ p.last_timestamp_ns)
unfolding advance_time
advance_time_keeps t p = (ground arith, ground arith)

IsTimed-earlier :
    (lo mid hi : ℕ) (es : List ControlEvent) → lo ≤ mid → IsTimed mid es hi → IsTimed lo es hi
IsTimed-earlier lo mid hi [] h t = omega arith
IsTimed-earlier lo mid hi (e ∷ es) h t = (omega arith, t.1)

-- the step on an event that is not refused
accepted-IsOrdered :
    (event : RawKeyEvent) (p : Parser)
    → p.source_id ≢ ""
    → p.last_timestamp_ns ≤ event.timestamp_ns
    → IsOrdered p (
        feed_key event
          (advance_time event.timestamp_ns (record p { last_timestamp_ns = event.timestamp_ns })))
accepted-IsOrdered event p named later =
    let t = event.timestamp_ns in
    let p0 : Parser = record p { last_timestamp_ns = t } in
    let p1 = advance_time t p0 in
    let (same_source, same_clock) = advance_time_keeps t p0 in
    let (s, c, es) = feed_key-Emits event p1 (rw same_source named) in
    let out = (feed_key event p1).1 in
    let here : All (IsEventAt p.source_id t) out =
      subst (λ x. All (IsEventAt x t) out) same_source es in
    (
      s ∙ same_source,
      rw (c ∙ same_clock) (
          IsTimed-earlier p.last_timestamp_ns t t out later
            (IsTimed-of_same p.source_id t out here)),
      IsFrom-of_at p.source_id t out here,
    )

feed-IsOrdered : (event : RawKeyEvent) (p : Parser) → p.source_id ≢ "" → IsOrdered p (feed event p)
feed-IsOrdered event p named = elim (Bool-cases (event.source_id == p.source_id)) [
  | inl mine ↦ elim (Bool-cases (ltb event.timestamp_ns p.last_timestamp_ns)) [
    | inl old ↦ unfold feed in rw (mine, old) (refl, omega arith, tt)
    | inr fresh ↦ unfold feed in rw (mine, fresh) (accepted-IsOrdered event p named (ground arith))
  ]
  | inr other ↦ unfold feed in rw other (refl, omega arith, tt)
]

-- After any events the emitted stream rises in time from the parser's first clock to its last, and
-- every event in it bears the parser's source and passes `ControlEvent.__post_init__`.
pub feed_all-IsOrdered :
    (events : List RawKeyEvent) (p : Parser) → p.source_id ≢ "" → IsOrdered p (feed_all events p)
unfolding feed_all
feed_all-IsOrdered [] p named = (refl, omega arith, tt)
feed_all-IsOrdered (event ∷ events) p named =
    let (p', out) = feed event p in
    let (q, rest) = feed_all events p' in
    let (s, timed, checked) = feed-IsOrdered event p named in
    let (s', timed', checked') = feed_all-IsOrdered events p' (rw s named) in
    (
      s' ∙ s,
      IsTimed-append p.last_timestamp_ns p'.last_timestamp_ns q.last_timestamp_ns out rest timed
          timed',
      All-append (IsFrom p.source_id) out rest checked
          (subst (λ x. All (IsFrom x) rest) s checked'),
    )
