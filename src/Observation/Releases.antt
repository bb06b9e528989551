-- ===== src/Observation/Releases.antt =====
-- What a run of `observe` yields.
use yyr4_linux_control.Base.{
  ℕ, ◌+◌, ◌≡◌, refl, ap, ◌∙◌, sym, subst, ◌⊎◌, inl, inr, String, Bool, List, [], ◌∷◌, ◌++◌, length,
  length-append, arith, ◌==◌, string_eq, Bool-cases, if◌then◌else◌, ok,
}
use yyr4_linux_control.Domain.{RawKeyEvent, ControlEvent, up, down}
use yyr4_linux_control.Transport.Codebook.{Codebook}
use yyr4_linux_control.Transport.Parser.{Parser, parser, feed, feed_all, reset}
use yyr4_linux_control.Transport.Parser.Balance.{tally, presses_released}
use yyr4_linux_control.Observation.Loop.{
  StreamEnd, at_eof, input_failed, Reading, emit, read_event, read_events, reset_time, end_reading,
  cancelled, generator_exit, failed, accepted, seen, ignored,
}
use yyr4_linux_control.Observation.{
  Pipeline, created, closed, ready, reading, observe, streaming, identified, attempted, set_up,
  Outcome,
}

emit_lem :
    (out : List ControlEvent) (r : Reading)
    → ((emit out r).parser ≡ r.parser)
      × ((emit out r).counters.control_events_emitted
          ≡ r.counters.control_events_emitted + length out)
      × ((emit out r).counters.raw_events_seen ≡ r.counters.raw_events_seen)
unfolding emit
emit_lem [] r = (refl, omega arith, refl)
emit_lem (ce ∷ ces) r = let (p, n, s) = emit_lem ces _ in (p, omega (arith, n), s)

-- the events of the source
unfoldable own : String → List RawKeyEvent → List RawKeyEvent
own source [] = []
own source (raw ∷ raws) =
    let rest = own source raws in if raw.source_id == source then raw ∷ rest else rest

-- a reading is a feeding of the events of the source
abbrev IsFed : List RawKeyEvent → ℕ → Reading → Reading × List ControlEvent → Type 0
IsFed raws n r (q, out) =
    (q.parser ≡ (feed_all raws r.parser).0)
    × (out ≡ (feed_all raws r.parser).1)
    × (q.counters.control_events_emitted ≡ r.counters.control_events_emitted + length out)
    × (q.counters.raw_events_seen ≡ r.counters.raw_events_seen + n)

read_events-IsFed :
    (source : String) (raws : List RawKeyEvent) (r : Reading)
    → IsFed (own source raws) (length raws) r (read_events source raws r)
unfolding read_events read_event own feed_all
read_events-IsFed source [] r = (refl, refl, omega arith, omega arith)
read_events-IsFed source (raw ∷ raws) r = elim (Bool-cases (raw.source_id == source)) [
  | inr e ↦
      let (a, b, c, d) = read_events-IsFed source raws (ignored (seen raw r)) in
      rw e (a, b, c, omega (arith, d))
  | inl e ↦
      let (p, o) = feed raw r.parser in
      let before : Reading = record (accepted (seen raw r)) { parser = p } in
      let (same, n, s) = emit_lem o before in
      let (a, b, c, d) = read_events-IsFed source raws (emit o before) in
      let more = (read_events source raws (emit o before)).1 in
      rw e (
        a ∙ ap (λ y. (feed_all (own source raws) y).0) same,
        ap (λ y. o ++ y) (b ∙ ap (λ y. (feed_all (own source raws) y).1) same),
        omega (arith, c, n, length-append o more),
        omega (arith, d, s),
      )
]

end_reading_lem :
    (end : StreamEnd) (r : Reading)
    → (end ≡ at_eof) ⊎ (end ≡ input_failed)
    → ((end_reading end r).1 ≡ (reset (reset_time r) r.parser).1)
      × ((end_reading end r).0.control_events_emitted
          ≡ r.counters.control_events_emitted + length (end_reading end r).1)
      × ((end_reading end r).0.raw_events_seen ≡ r.counters.raw_events_seen)
unfolding end_reading
end_reading_lem at_eof r e = (refl, refl, refl)
end_reading_lem input_failed r e = (refl, refl, refl)
end_reading_lem cancelled r e = ground arith
end_reading_lem generator_exit r e = ground arith
end_reading_lem failed r e = ground arith

observe_lem :
    (p : Parser) (raws : List RawKeyEvent) (end : StreamEnd) (close_fails : Bool)
    (pipeline : Pipeline)
    → pipeline.state ≡ created
    → observe (ready p) raws end close_fails pipeline
      ≡ set_up (ready p) raws end close_fails pipeline
unfolding observe
observe_lem p raws end close_fails pipeline c = ground arith

-- what is stated of a run
abbrev IsReleased : String → ℕ → Pipeline → Outcome → Type 0
IsReleased id n pipeline o =
    (tally down id o.yielded ≡ tally up id o.yielded)
    × (o.pipeline.counters.control_events_emitted
        ≡ pipeline.counters.control_events_emitted + length o.yielded)
    × (o.pipeline.counters.raw_events_seen ≡ pipeline.counters.raw_events_seen + n)
    × (o.pipeline.state ≡ closed)

-- A run that starts from a new parser and ends with the stream, or with an error of the input,
-- yields a release for every press of a control, counts every event it yields and every raw event it
-- reads, and leaves the pipeline closed.
pub observe-releases :
    (source_id : String) (timeout : ℕ) (book : Codebook) (p : Parser) (raws : List RawKeyEvent)
    (end : StreamEnd) (close_fails : Bool) (pipeline : Pipeline) (id : String)
    → parser source_id timeout book ≡ ok p
    → pipeline.state ≡ created
    → (end ≡ at_eof) ⊎ (end ≡ input_failed)
    → let o = observe (ready p) raws end close_fails pipeline in
      (tally down id o.yielded ≡ tally up id o.yielded)
      × (o.pipeline.counters.control_events_emitted
          ≡ pipeline.counters.control_events_emitted + length o.yielded)
      × (o.pipeline.counters.raw_events_seen ≡ pipeline.counters.raw_events_seen + length raws)
      × (o.pipeline.state ≡ closed)
observe-releases source_id timeout book p raws end close_fails pipeline id h c e =
    let source = pipeline.transport_source_id in
    let start = reading p (streaming (identified (attempted pipeline.counters))) in
    let (q, out) = read_events source raws start in
    let (a, b, n, s) = read_events-IsFed source raws start in
    let (last, m, t) = end_reading_lem end q e in
    let (below, released_all, none_down) =
      presses_released source_id timeout book (own source raws) (reset_time q) id h in
    let same =
      ap (λ y. y ++ (end_reading end q).1) b
      ∙ ap (λ y. (feed_all (own source raws) p).1 ++ y)
          (last ∙ ap (λ y. (reset (reset_time q) y).1) a) in
    subst (IsReleased id (length raws) pipeline)
      (sym (observe_lem p raws end close_fails pipeline c))
      (
        subst (λ y. tally down id y ≡ tally up id y) (sym same) released_all,
        omega (arith, n, m, length-append out (end_reading end q).1),
        omega (arith, s, t),
        refl,
      )
