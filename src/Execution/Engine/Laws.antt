-- ===== src/Execution/Engine/Laws.antt =====
-- The engine stops at the first step that fails, and its result says which that was.
use mathlib.Core.List.{append_assoc, append-nil}
use native.Mathlib.Nat.{add-zero}
use yyr4_linux_control.Base.{
  ℕ, ◌+◌, ◌≡◌, ◌≢◌, refl, ap, sym, subst, ◌∙◌, true, false, Option, none, some, List, [], ◌∷◌, ◌++◌,
  length, arith, All, Bool-cases, inl, inr, ◌⊎◌, if◌then◌else◌,
}
use yyr4_linux_control.Control.Actions.{Action}
use yyr4_linux_control.Control.Resolver.{ActionPlan, configured}
use yyr4_linux_control.Execution.Engine.{
  ExecutionStatus, success, skipped, StepRun, StepExecutionResult, Progress, Backends, perform,
  run_steps, is_success, is_cancellation, skip_step, add_result, step_status, step_result,
  skipped_result, action_type_name, execute, initial_status, finished, finished_in, start_progress,
  ActionExecutionResult,
}

-- The statuses of the steps' results: successes as long as all goes well; then, unless the whole
-- succeeded, one with the overall status, and behind it skipped steps only.
abbrev pub IsFailFast : ExecutionStatus → List StepExecutionResult → Type 0
IsFailFast overall [] = overall ≡ success
IsFailFast overall (r ∷ rs) =
    ((r.status ≡ success) × IsFailFast overall rs)
    ⊎ ((overall ≢ success) × (r.status ≡ overall) × All (λ x. x.status ≡ skipped) rs)

-- The results are those of the steps, numbered from `i`.
abbrev pub IsNumbered : ℕ → List Action → List StepExecutionResult → Type 0
IsNumbered i [] [] = Unit
IsNumbered i (s ∷ ss) (r ∷ rs) =
    (r.step_index ≡ i) × (r.action_type ≡ action_type_name s) × IsNumbered (i + 1) ss rs
IsNumbered i _ _ = ⊥

pub successes : List StepExecutionResult → ℕ
successes [] = 0
successes (r ∷ rs) = (if is_success r.status then 1 else 0) + successes rs

skipped_all : ℕ → List Action → List StepExecutionResult
skipped_all i [] = []
skipped_all i (s ∷ ss) = skipped_result i s ∷ skipped_all (i + 1) ss

skipped_all_lem :
    (i : ℕ) (ss : List Action)
    → IsNumbered i ss (skipped_all i ss)
      × All (λ x. x.status ≡ skipped) (skipped_all i ss)
      × (successes (skipped_all i ss) ≡ 0)
unfolding skipped_all successes
skipped_all_lem i [] = (tt, tt, refl)
skipped_all_lem i (s ∷ ss) =
    let (n, a, z) = skipped_all_lem (i + 1) ss in ((refl, refl, n), (refl, a), omega (arith, z))

step_result_lem :
    (i : ℕ) (s : Action) (run : StepRun)
    → ((step_result i s run).step_index ≡ i)
      × ((step_result i s run).action_type ≡ action_type_name s)
      × ((step_result i s run).status ≡ step_status run.raised)
step_result_lem i s run = ground arith

some_fst :
    {W : Type 0} {p q : Progress} {w w' : W}
    → ◌≡◌ {A = Option Progress × W} (some p, w) (some q, w')
    → p ≡ q
some_fst h = cc

some_snd :
    {W : Type 0} {p q : Progress} {w w' : W}
    → ◌≡◌ {A = Option Progress × W} (some p, w) (some q, w')
    → w ≡ w'
some_snd h = cc

not_success : (s : ExecutionStatus) → s ≢ success → is_success s ≡ false
not_success success h = absurd (h refl)
not_success _ h = refl

no_successes : (n : ℕ) → n ≡ n + successes []
unfolding successes
no_successes n = omega arith

is_success→eq : (s : ExecutionStatus) → is_success s ≡ true → s ≡ success
is_success→eq s h = ground arith

module _ {W : Type 0} (b : Backends W) where
  run_skip :
      (i : ℕ) (s : Action) (ss : List Action) (p : Progress) (w : W)
      → is_success p.overall_status ≡ false
      → run_steps b i (s ∷ ss) p w ≡ run_steps b (i + 1) ss (skip_step i s p) w
  unfolding run_steps
  run_skip i s ss p w h = rw (h, run_steps)

  run_next :
      (i : ℕ) (s : Action) (ss : List Action) (p : Progress) (w : W)
      → is_success p.overall_status ≡ true
      → is_cancellation (perform b s w).0.raised ≡ false
      → run_steps b i (s ∷ ss) p w
        ≡ run_steps b (i + 1) ss (add_result i s (perform b s w).0 p) (perform b s w).1
  unfolding run_steps
  run_next i s ss p w h c = ground arith

  run_cancel :
      (i : ℕ) (s : Action) (ss : List Action) (p : Progress) (w : W)
      → is_success p.overall_status ≡ true
      → is_cancellation (perform b s w).0.raised ≡ true
      → run_steps b i (s ∷ ss) p w ≡ (none, (perform b s w).1)
  unfolding run_steps
  run_cancel i s ss p w h c = ground arith

  -- once a step has failed, the others are skipped, and nothing runs
  run_skips :
      (ss : List Action) (i : ℕ) (p : Progress) (w : W)
      → is_success p.overall_status ≡ false
      → run_steps b i ss p w
        ≡ (some (record p { step_results = p.step_results ++ skipped_all i ss }), w)
  unfolding skipped_all
  run_skips [] i p w h =
      unfold run_steps in
      ap (λ x. (some (record p { step_results = x }), w)) (sym (append-nil p.step_results))
  run_skips (s ∷ ss) i p w h =
      run_skip i s ss p w h
      ∙ run_skips ss (i + 1) (skip_step i s p) w h
      ∙ ap (λ x. (some (record p { step_results = x }), w))
          (append_assoc p.step_results (skipped_result i s ∷ []) (skipped_all (i + 1) ss))

  -- What the loop adds to its variables.
  abbrev IsRun : ℕ → List Action → Progress → Progress → Type 0
  IsRun i ss p q =
      (tail : List StepExecutionResult) × (q.step_results ≡ p.step_results ++ tail)
      × IsNumbered i ss tail
      × (q.completed_steps ≡ p.completed_steps + successes tail)
      × IsFailFast q.overall_status tail

  add_failed :
      (i : ℕ) (s : Action) (ss : List Action) (p : Progress) (run : StepRun)
      → is_success (step_status run.raised) ≡ false
      → IsRun i (s ∷ ss) p (record (add_result i s run p) {
        step_results = (add_result i s run p).step_results ++ skipped_all (i + 1) ss;
      })
  unfolding successes
  add_failed i s ss p run failed =
      let (numbered, all_skipped, zero_more) = skipped_all_lem (i + 1) ss in
      let (index, name, status) = step_result_lem i s run in
      (
        step_result i s run ∷ skipped_all (i + 1) ss,
        append_assoc p.step_results (step_result i s run ∷ []) (skipped_all (i + 1) ss),
        (index, name, numbered),
        ground (arith, failed, status, zero_more),
        inr ((λ e. cc), status, all_skipped),
      )

  add_succeeded :
      (i : ℕ) (s : Action) (ss : List Action) (p q : Progress) (run : StepRun)
      → is_success (step_status run.raised) ≡ true
      → IsRun (i + 1) ss (add_result i s run p) q
      → IsRun i (s ∷ ss) p q
  unfolding successes
  add_succeeded i s ss p q run good (tail, results, numbered, count, shape) =
      let (index, name, status) = step_result_lem i s run in
      (
        step_result i s run ∷ tail,
        results ∙ append_assoc p.step_results (step_result i s run ∷ []) tail,
        (index, name, numbered),
        ground (arith, good, status, count),
        inl (status ∙ is_success→eq (step_status run.raised) good, shape),
      )

  run_steps-IsRun :
      (ss : List Action) (i : ℕ) (p q : Progress) (w w' : W)
      → is_success p.overall_status ≡ true
      → run_steps b i ss p w ≡ (some q, w')
      → IsRun i ss p q
  run_steps-IsRun [] i p q w w' good h =
      let h' : ◌≡◌ {A = Option Progress × W} (some p, w) (some q, w') = unfold run_steps in h in
      let e = some_fst h' in
      subst (IsRun i [] p) e (
        [],
        sym (append-nil p.step_results),
        tt,
        no_successes p.completed_steps,
        is_success→eq p.overall_status good,
      )
  run_steps-IsRun (s ∷ ss) i p q w w' good h =
      let (run, w1) = perform b s w in
      elim (Bool-cases (is_cancellation run.raised)) [
        | inl stop ↦ cc (sym (run_cancel i s ss p w good stop) ∙ h)
        | inr on ↦
            let h1 = sym (run_next i s ss p w good on) ∙ h in
            elim (Bool-cases (is_success (step_status run.raised))) [
              | inl fine ↦
                  add_succeeded i s ss p q run fine
                    (run_steps-IsRun ss (i + 1) (add_result i s run p) q w1 w' fine h1)
              | inr bad ↦
                  subst (IsRun i (s ∷ ss) p)
                    (some_fst (sym (run_skips ss (i + 1) (add_result i s run p) w1 bad) ∙ h1))
                    (add_failed i s ss p run bad)
            ]
      ]

  finished_in_eq :
      (plan : ActionPlan) (x : Option Progress × W) (w' : W) (r : ActionExecutionResult)
      → finished_in plan x ≡ (some r, w')
      → (q : Progress) × (x ≡ (some q, w')) × (finished plan q ≡ r)
  finished_in_eq plan (none, w) w' r h = cc
  finished_in_eq plan (some q, w) w' r h = (q, cc, cc)

  run_steps-append :
      (xs ys : List Action) (i : ℕ) (p q : Progress) (w w' : W)
      → run_steps b i xs p w ≡ (some q, w')
      → run_steps b i (xs ++ ys) p w ≡ run_steps b (i + length xs) ys q w'
  run_steps-append [] ys i p q w w' h =
      let h' : ◌≡◌ {A = Option Progress × W} (some p, w) (some q, w') = unfold run_steps in h in
      λ k. run_steps b (sym (add-zero i) k) ys (some_fst h' k) (some_snd h' k)
  run_steps-append (x ∷ xs) ys i p q w w' h = elim (Bool-cases (is_success p.overall_status)) [
    | inr bad ↦
        run_skip i x (xs ++ ys) p w bad
        ∙ run_steps-append xs ys (i + 1) (skip_step i x p) q w w'
            (sym (run_skip i x xs p w bad) ∙ h)
        ∙ ap (λ n. run_steps b n ys q w') (omega arith)
    | inl good ↦
        let (run, w1) = perform b x w in
        elim (Bool-cases (is_cancellation run.raised)) [
          | inl stop ↦ cc (sym (run_cancel i x xs p w good stop) ∙ h)
          | inr on ↦
              run_next i x (xs ++ ys) p w good on
              ∙ run_steps-append xs ys (i + 1) (add_result i x run p) q w1 w'
                  (sym (run_next i x xs p w good on) ∙ h)
              ∙ ap (λ n. run_steps b n ys q w') (omega arith)
        ]
  ]

  -- A plan that runs to its end without success leaves the world as it would with any further
  -- steps behind it, with the same status and the same count of completed steps: no backend is
  -- called after a failure, nor for an unmapped plan.
  pub execute_stops :
      (plan : ActionPlan) (more : List Action) (w w' : W) (r : ActionExecutionResult)
      → execute b plan w ≡ (some r, w')
      → r.execution_status ≢ success
      → (r' : ActionExecutionResult) × (execute b (record plan { steps = plan.steps ++ more }) w
          ≡ (some r', w'))
        × (r'.execution_status ≡ r.execution_status)
        × (r'.completed_steps ≡ r.completed_steps)
  execute_stops plan more w w' r h bad =
      let start = start_progress plan.resolution_status in
      let (q, run, e) =
        finished_in_eq plan (run_steps b 0 plan.steps start w) w' r (unfold execute in h) in
      let plan' : ActionPlan = record plan { steps = plan.steps ++ more } in
      let fails : is_success q.overall_status ≡ false =
        not_success q.overall_status (λ s. bad (sym (ap (λ x. x.execution_status) e) ∙ s)) in
      let all =
        run_steps-append plan.steps more 0 start q w w' run
        ∙ run_skips more (0 + length plan.steps) q w' fails in
      (
        finished plan' (record q {
          step_results = q.step_results ++ skipped_all (0 + length plan.steps) more;
        }),
        unfold execute in ap (finished_in plan') all,
        ap (λ x. x.execution_status) e,
        ap (λ x. x.completed_steps) e,
      )

  -- A configured plan that runs to its end has a result for each step, in order. These are
  -- successes up to the first step that fails; the overall status is that step's, and the steps
  -- behind it are skipped. `completed_steps` counts the successes.
  pub execute-IsFailFast :
      (plan : ActionPlan) (w w' : W) (r : ActionExecutionResult)
      → plan.resolution_status ≡ configured
      → execute b plan w ≡ (some r, w')
      → IsNumbered 0 plan.steps r.step_results
        × IsFailFast r.execution_status r.step_results
        × (r.completed_steps ≡ successes r.step_results)
        × (r.total_steps ≡ length plan.steps)
  execute-IsFailFast plan w w' r c h =
      let start = start_progress plan.resolution_status in
      let (q, run, e) =
        finished_in_eq plan (run_steps b 0 plan.steps start w) w' r (unfold execute in h) in
      let (tail, results, numbered, count, shape) =
        run_steps-IsRun plan.steps 0 start q w w' (ap (λ s. is_success (initial_status s)) c) run in
      let all : tail ≡ r.step_results = sym results ∙ ap (λ x. x.step_results) e in
      (
        subst (IsNumbered 0 plan.steps) all numbered,
        subst (λ o. IsFailFast o r.step_results) (ap (λ x. x.execution_status) e)
            (subst (IsFailFast q.overall_status) all shape),
        omega (
          arith,
          count,
          ap successes all,
          ap (λ (x : ActionExecutionResult). x.completed_steps) e,
        ),
        sym (ap (λ (x : ActionExecutionResult). x.total_steps) e),
      )
