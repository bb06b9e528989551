-- ===== src/Execution/Runner/Laws.antt =====
-- What a command that ran was, and how much of its output comes back.
use yyr4_linux_control.Base.{
  ℕ, zero, suc, ◌+◌, ◌≤◌, ◌≡◌, refl, ap, ◌∙◌, subst, String, Bool, true, false, ◌⊎◌, inl, inr,
  Option, List, [], ◌∷◌, ◌++◌, Result, ok, err, length, length-append, take, ltb, arith, Bool-cases,
  if◌then◌else◌,
}
use yyr4_linux_control.Base.Int.{ℤ}
use yyr4_linux_control.Execution.Engine.{Raised, CommandOutput}
use yyr4_linux_control.Execution.Command.{
  Policy, is_allowed, effective_timeout, harvest, truncation_marker, read_stream,
}
use yyr4_linux_control.Execution.Command.Laws.{read_stream_lem, stream_bytes}
use yyr4_linux_control.Execution.Runner.{
  ProcessEnd, not_started, exceeded, cancelled_wait, exited, outcome, run,
}

length-take : {A : Type 0} (n : ℕ) (xs : List A) → length (take n xs) ≤ n
length-take zero xs = omega arith
length-take (suc n) [] = omega arith
length-take (suc n) (x ∷ xs) = omega (arith, length-take n xs)

marked : List ℕ × Bool → List ℕ
marked (bytes, true) = bytes ++ truncation_marker
marked (bytes, false) = bytes

marked_if : (x : List ℕ × Bool) → (if x.1 then x.0 ++ truncation_marker else x.0) ≡ marked x
unfolding marked
marked_if (bytes, true) = refl
marked_if (bytes, false) = refl

harvest_eq :
    (p : Policy) (chunks : List (List ℕ))
    → harvest p chunks
      ≡ marked (
        take p.max_output_bytes (stream_bytes chunks),
        ltb p.max_output_bytes (length (stream_bytes chunks)),
      )
unfolding harvest
harvest_eq p chunks =
    marked_if (read_stream chunks p.max_output_bytes)
    ∙ ap marked (read_stream_lem chunks p.max_output_bytes)

length-marked : (n : ℕ) (xs : List ℕ) (b : Bool) → length (marked (take n xs, b)) ≤ n + 12
unfolding marked
length-marked n xs true =
    omega (arith, length-append (take n xs) truncation_marker, length-take n xs)
length-marked n xs false = omega (arith, length-take n xs)

length-harvest :
    (p : Policy) (chunks : List (List ℕ)) → length (harvest p chunks) ≤ p.max_output_bytes + 12
length-harvest p chunks = omega (
  arith,
  ap length (harvest_eq p chunks),
  length-marked p.max_output_bytes (stream_bytes chunks)
      (ltb p.max_output_bytes (length (stream_bytes chunks))),
)

-- The process was given these arguments, and each output is within the policy's limit and the
-- marker behind it.
abbrev IsBounded : Policy → Result Raised CommandOutput → Type 0
IsBounded p (ok o) =
    (length o.out ≤ p.max_output_bytes + 12) × (length o.errors ≤ p.max_output_bytes + 12)
IsBounded p (err e) = Unit

outcome-IsBounded : (p : Policy) (e : ProcessEnd) → IsBounded p (outcome p e)
outcome-IsBounded p (not_started m) = tt
outcome-IsBounded p exceeded = tt
outcome-IsBounded p cancelled_wait = tt
outcome-IsBounded p (exited n out errors) = (length-harvest p out, length-harvest p errors)

module _ {W : Type 0} (p : Policy) (process : List String → ℤ → W → ProcessEnd × W) where
  -- A command either is not allowed, and then no process is started and the world stays as it is; or
  -- it is allowed, and one process is started, with the bounded timeout.
  pub run_guarded :
      (argv : List String) (t : Option ℤ) (w : W)
      → ((is_allowed p argv ≡ false) × ((run p process argv t w).1 ≡ w))
        ⊎ ((is_allowed p argv ≡ true)
            × ((run p process argv t w).1 ≡ (process argv (effective_timeout p t) w).1))
  unfolding run
  run_guarded argv t w = elim (Bool-cases (is_allowed p argv)) [
    | inl e ↦ inr (e, rw e)
    | inr e ↦ inl (e, rw e)
  ]

  -- A command whose output comes back was allowed by the policy, and each of its two outputs is
  -- at most the policy's limit and the twelve bytes of the truncation marker long.
  pub run_bounded :
      (argv : List String) (t : Option ℤ) (w : W) (o : CommandOutput)
      → (run p process argv t w).0 ≡ ok o
      → (is_allowed p argv ≡ true)
        × (length o.out ≤ p.max_output_bytes + 12)
        × (length o.errors ≤ p.max_output_bytes + 12)
  unfolding run
  run_bounded argv t w o h = elim (Bool-cases (is_allowed p argv)) [
    | inr e ↦ absurd (ground arith)
    | inl e ↦
        let eq : outcome p (process argv (effective_timeout p t) w).0 ≡ ok o = ground arith in
        let (out, errors) =
          subst (IsBounded p) eq (outcome-IsBounded p (process argv (effective_timeout p t) w).0) in
        (e, out, errors)
  ]
