-- ===== src/Transport/Parser/Balance.antt =====
-- Presses against releases. What the parser emits for a control differs only by the keys of that
-- control that are still down.
use yyr4_linux_control.Base.{
  ℕ, ◌+◌, ◌≤◌, ◌≡◌, refl, String, Bool, true, false, ◌&&◌, none, some, List, [], ◌∷◌, ◌++◌, map,
  arith, ◌==◌, string_eq, nat_eq, ok, Option-cases, inl, inr, ap,
}
use yyr4_linux_control.Base.Dict.{Dict, lookup, insert, erase}
use yyr4_linux_control.Domain.{PhysicalControl, ControlEvent, RawKeyEvent, ControlPhase, down, up}
use yyr4_linux_control.Transport.Codebook.{Codebook, get_by_primary_key_and_modifiers}
use yyr4_linux_control.Transport.Parser.{
  Parser, parser, feed, feed_key, feed_shift, press, release, advance_time, reset, reset_event,
  feed_all, modifiers,
}

abbrev pub same_phase : ControlPhase → ControlPhase → Bool
same_phase down down = true
same_phase up up = true
same_phase _ _ = false

abbrev pub one_if : Bool → ℕ
one_if true = 1
one_if false = 0

pub active-advance_time : (t : ℕ) (p : Parser) → (advance_time t p).active_f_keys ≡ p.active_f_keys
unfolding advance_time
active-advance_time t p = ground arith

-- how many events of this phase a control has
pub tally : ControlPhase → String → List ControlEvent → ℕ
tally phase id [] = 0
tally phase id (e ∷ es) =
    one_if (same_phase phase e.phase && e.control.control_id == id) + tally phase id es

-- how many keys of a control are down
pub held : String → Dict String PhysicalControl → ℕ
held id [] = 0
held id ((k, ctrl) ∷ d) = one_if (ctrl.control_id == id) + held id d

pub tally-append :
    (phase : ControlPhase) (id : String) (xs ys : List ControlEvent)
    → tally phase id (xs ++ ys) ≡ tally phase id xs + tally phase id ys
unfolding tally
tally-append phase id [] ys = omega arith
tally-append phase id (x ∷ xs) ys = omega (arith, tally-append phase id xs ys)

module _ (id : String) where
  held-insert :
      (k : String) (c : PhysicalControl) (d : Dict String PhysicalControl)
      → lookup k d ≡ none
      → held id (insert k c d) ≡ held id d + one_if (c.control_id == id)
  unfolding held lookup insert
  held-insert k c [] h = omega arith
  held-insert k c ((j, x) ∷ d) h = ground (arith, held-insert k c d)

  held-erase :
      (k : String) (c : PhysicalControl) (d : Dict String PhysicalControl)
      → lookup k d ≡ some c
      → held id (erase k d) + one_if (c.control_id == id) ≡ held id d
  unfolding held lookup erase
  held-erase k c [] h = cc
  held-erase k c ((j, x) ∷ d) h = ground (arith, held-erase k c d)

  -- The presses and the keys down before equal the releases and the keys down after.
  abbrev pub IsBalanced : Parser → Parser × List ControlEvent → Type 0
  IsBalanced p (q, out) =
      tally down id out + held id p.active_f_keys ≡ tally up id out + held id q.active_f_keys

  press-IsBalanced : (event : RawKeyEvent) (p : Parser) → IsBalanced p (press event p)
  unfolding press tally
  press-IsBalanced event p = elim (Option-cases (lookup event.code p.active_f_keys)) [
    | inl new ↦
        elim (Option-cases (get_by_primary_key_and_modifiers p.codebook event.code (modifiers p))) [
          | inl unknown ↦ ground arith
          | inr (c, e) ↦ ground (arith, held-insert event.code c p.active_f_keys)
        ]
    | inr (c, e) ↦ ground arith
  ]

  release-IsBalanced : (event : RawKeyEvent) (p : Parser) → IsBalanced p (release event p)
  unfolding release tally
  release-IsBalanced event p = elim (Option-cases (lookup event.code p.active_f_keys)) [
    | inl orphan ↦ ground arith
    | inr (c, e) ↦ ground (arith, held-erase event.code c p.active_f_keys)
  ]

  feed_key-IsBalanced : (event : RawKeyEvent) (p : Parser) → IsBalanced p (feed_key event p)
  unfolding feed_key feed_shift tally
  feed_key-IsBalanced event p = ground (arith, press-IsBalanced event p, release-IsBalanced event p)

  feed-IsBalanced : (event : RawKeyEvent) (p : Parser) → IsBalanced p (feed event p)
  unfolding feed tally
  feed-IsBalanced event p =
      let p' : Parser = record p { last_timestamp_ns = event.timestamp_ns } in
      let t = event.timestamp_ns in
      ground (
        arith,
        feed_key-IsBalanced event (advance_time t p'),
        ap (held id) (active-advance_time t p'),
      )

  feed_all-IsBalanced : (events : List RawKeyEvent) (p : Parser) → IsBalanced p (feed_all events p)
  unfolding feed_all tally
  feed_all-IsBalanced [] p = refl
  feed_all-IsBalanced (event ∷ events) p =
      let (p', out) = feed event p in
      let (q, rest) = feed_all events p' in
      omega (
        arith,
        feed-IsBalanced event p,
        feed_all-IsBalanced events p',
        tally-append down id out rest,
        tally-append up id out rest,
      )

  tally-reset_event :
      (p : Parser) (t : ℕ) (d : Dict String PhysicalControl)
      → (tally down id (map (reset_event p t) d) ≡ 0)
        × (tally up id (map (reset_event p t) d) ≡ held id d)
  unfolding tally held
  tally-reset_event p t [] = (refl, refl)
  tally-reset_event p t ((k, c) ∷ d) = ground (arith, tally-reset_event p t d)

  reset-IsBalanced : (t : ℕ) (p : Parser) → IsBalanced p (reset t p)
  unfolding reset held
  reset-IsBalanced t p = omega (arith, tally-reset_event p t p.active_f_keys)

-- a new parser has no key down
held_new :
    (source_id : String) (timeout : ℕ) (book : Codebook) (id : String) {p : Parser}
    → parser source_id timeout book ≡ ok p
    → held id p.active_f_keys ≡ 0
unfolding parser held
held_new source_id timeout book id {p} h =
    let e : p.active_f_keys ≡ [] = ground arith in ap (held id) e

held-nil : (id : String) → held id [] ≡ 0
unfolding held
held-nil id = refl

-- From a new parser, after any events every control has been released at most as often as it was
-- pressed; and once the parser is reset, exactly as often, with no key left down.
pub presses_released :
    (source_id : String) (timeout : ℕ) (book : Codebook) (events : List RawKeyEvent) (t : ℕ)
    (id : String) {p : Parser}
    → parser source_id timeout book ≡ ok p
    → let (q, out) = feed_all events p in
      let (r, rest) = reset t q in
      (tally up id out ≤ tally down id out)
      × (tally down id (out ++ rest) ≡ tally up id (out ++ rest))
      × (r.active_f_keys ≡ [])
presses_released source_id timeout book events t id {p} h =
    let (q, out) = feed_all events p in
    let (r, rest) = reset t q in
    let start = held_new source_id timeout book id h in
    let all = feed_all-IsBalanced id events p in
    let none_down : r.active_f_keys ≡ [] = unfold reset in refl in
    let last = reset-IsBalanced id t q in
    (
      omega (arith, start, all),
      omega (
        arith,
        start,
        all,
        last,
        ap (held id) none_down,
        held-nil id,
        tally-append down id out rest,
        tally-append up id out rest,
      ),
      unfold reset in refl,
    )
