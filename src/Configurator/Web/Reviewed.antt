-- ===== src/Configurator/Web/Reviewed.antt =====
-- What is saved, and what was reviewed.
use yyr4_linux_control.Base.{
  ℕ, nat_eq, subst, ==_sound, ◌≤◌, ◌≡◌, refl, sym, ap, String, true, not, inl, inr, Option, none,
  some, List, [], ◌∷◌, Result, ok, err, if-eq, arith, subst, if-both, ==_sound,
}
use yyr4_linux_control.Base.Int.{ℤ, pos, negsuc}
use yyr4_linux_control.Base.Value.{Value, Fields}
use yyr4_linux_control.Control.Models.{LayeredControlConfig}
use yyr4_linux_control.Configurator.Draft.{ConfigDraft, DraftDiagnostic, config_draft}
use yyr4_linux_control.Configurator.Draft.Requests.{Request, apply, IsCounted, apply-IsCounted}
use yyr4_linux_control.Configurator.Serializer.{serialize}
use yyr4_linux_control.Configurator.Validation.{LoadError, validate, validated, load_from_string}
use yyr4_linux_control.Configurator.Save.{
  World, Others, ConfigSaveResult, SaveOutcome, bytes, save_draft,
}
use yyr4_linux_control.Configurator.Save.Success.{IsSaved, save_draft-eq_ok}
use yyr4_linux_control.Configurator.Web.Session.{
  EditorSession, Tokens, create_session, is_nat, reviewed, mark_reviewed, touch, write_recovery,
  discard_recovery, refresh_base,
}
use yyr4_linux_control.Configurator.Web.Api.{
  Response, saved_as, Api, Route, request_of, edit_with, finish_edit, handle_edit, handle_review,
  handle_validate, handle_save, SavePlace, after_save, after_refresh, refresh_from, refresh_loaded,
  with_draft, expected_of, exists,
}

-- a call of the API
pub data Call : Type 0 where
  edits : Route → String → ℕ → Value → Call
  reviews : Call
  shows : ℕ → Call
  saves : SavePlace → Others → ℕ → Call

-- the configuration of the latest review, the session and the files
abbrev pub State : Type 0
State = Option LayeredControlConfig × EditorSession × World

-- The review is of this draft if the session says so, and it is not of a later one.
abbrev pub IsFollowed : ℤ → ConfigDraft → Option LayeredControlConfig → Type 0
IsFollowed (negsuc n) d g = Unit
IsFollowed (pos n) d g = (n ≤ d.mutation_count) × (n ≡ d.mutation_count → g ≡ some d.working_config)

abbrev pub Follows : EditorSession → Option LayeredControlConfig → Type 0
Follows s g = IsFollowed s.reviewed_mutation s.draft g

module _ (sha256 : String → String) (loads : String → Option Fields) where
  abbrev pub call : Call → State → State
  call (edits route new_id now body) (g, s, w) = (g, (handle_edit route new_id now body s).1, w)
  call reviews (g, s, w) = (some s.draft.working_config, (handle_review s).1, w)
  call (shows now) (g, s, w) = (g, (handle_validate now s).1, w)
  call (saves place others now) (g, s, w) =
      let (answer, s', w') = handle_save sha256 loads place others now s w in (g, s', w')

  abbrev pub calls : List Call → State → State
  calls [] state = state
  calls (c ∷ rest) state = calls rest (call c state)

  edited :
      (n : ℤ) (d r : ConfigDraft) (g : Option LayeredControlConfig)
      → IsCounted d r
      → IsFollowed n d g
      → IsFollowed n r g
  edited (negsuc n) d r g counted f = tt
  edited (pos n) d r g (inl e) f = subst (λ x. IsFollowed (pos n) x g) (sym e) f
  edited (pos n) d r g (inr (dirty, count, base)) (behind, noted) = (omega arith, λ e. ground arith)

  finish_edit-Follows :
      (new_id : String) (now : ℕ) (s : EditorSession) (request : Request)
      (o : Result DraftDiagnostic ConfigDraft) (g : Option LayeredControlConfig)
      → apply request s.draft ≡ o
      → Follows s g
      → Follows (finish_edit new_id now s o).1 g
  unfolding touch write_recovery
  finish_edit-Follows new_id now s request (err d) g e f = f
  finish_edit-Follows new_id now s request (ok draft) g e f =
      edited s.reviewed_mutation s.draft draft g (apply-IsCounted request s.draft draft e) f

  edit_with-Follows :
      (new_id : String) (now : ℕ) (s : EditorSession) (o : Api Request)
      (g : Option LayeredControlConfig)
      → Follows s g
      → Follows (edit_with new_id now s o).1 g
  edit_with-Follows new_id now s (err e) g f = f
  edit_with-Follows new_id now s (ok request) g f =
      finish_edit-Follows new_id now s request (apply request s.draft) g refl f

  with_draft-Follows :
      (sha : String) (o : Result String ConfigDraft) (s : EditorSession)
      (g : Option LayeredControlConfig)
      → Follows s g
      → Follows (with_draft sha256 loads sha o s).1 g
  unfolding refresh_base
  with_draft-Follows sha (err m) s g f = f
  with_draft-Follows sha (ok d) s g f = tt

  refresh_loaded-Follows :
      (o : Result LoadError LayeredControlConfig) (s : EditorSession)
      (g : Option LayeredControlConfig)
      → Follows s g
      → Follows (refresh_loaded sha256 loads o s).1 g
  refresh_loaded-Follows (err e) s g f = f
  refresh_loaded-Follows (ok config) s g f =
      with_draft-Follows (sha256 (serialize config)) (config_draft config) s g f

  refresh_from-Follows :
      (o : Option String) (s : EditorSession) (g : Option LayeredControlConfig)
      → Follows s g
      → Follows (refresh_from sha256 loads o s).1 g
  refresh_from-Follows none s g f = f
  refresh_from-Follows (some text) s g f =
      refresh_loaded-Follows (load_from_string loads text) s g f

  after_refresh-Follows :
      (result : ConfigSaveResult) (o : Api Unit × EditorSession) (g : Option LayeredControlConfig)
      → Follows o.1 g
      → Follows (after_refresh sha256 loads result o).1 g
  unfolding discard_recovery
  after_refresh-Follows result (err e, s) g f = f
  after_refresh-Follows result (ok u, s) g f = f

  after_save-Follows :
      (o : SaveOutcome ConfigSaveResult) (s : EditorSession) (g : Option LayeredControlConfig)
      → Follows s g
      → Follows (after_save sha256 loads o s).1 g
  after_save-Follows (err e, w) s g f = f
  after_save-Follows (ok result, w) s g f =
      after_refresh-Follows result (refresh_from sha256 loads (bytes w.target) s) g
        (refresh_from-Follows (bytes w.target) s g f)

  handle_save-Follows :
      (place : SavePlace) (others : Others) (now : ℕ) (s : EditorSession) (w : World)
      (g : Option LayeredControlConfig)
      → Follows s g
      → Follows (handle_save sha256 loads place others now s w).1 g
  unfolding handle_save touch
  handle_save-Follows place others now s w g f =
      let s' = touch now s in
      let v = validate loads sha256 s'.draft in
      let P : Api Response × EditorSession × World → Type 0 = λ o. Follows o.1 g in
      if-both P (not (reviewed s')) f (
        if-both P (not v.valid) f (
          after_save-Follows
            (save_draft sha256 place.target_name place.has_backup_dir place.stamp v
              (expected_of (exists w.target) s'.base_sha256) others w)
            s' g f))

  call-Follows :
      (c : Call) (g : Option LayeredControlConfig) (s : EditorSession) (w : World)
      → Follows s g
      → (let state = call c (g, s, w) in Follows state.1 state.0)
  unfolding handle_edit handle_review mark_reviewed handle_validate touch
  call-Follows (edits route new_id now body) g s w f =
      edit_with-Follows new_id now s (request_of route body) g f
  call-Follows reviews g s w f = (omega arith, λ e. refl)
  call-Follows (shows now) g s w f = f
  call-Follows (saves place others now) g s w f = handle_save-Follows place others now s w g f

  calls-Follows :
      (l : List Call) (state : State)
      → Follows state.1 state.0
      → (let state' = calls l state in Follows state'.1 state'.0)
  calls-Follows [] state f = f
  calls-Follows (c ∷ rest) (g, s, w) f =
      calls-Follows rest (call c (g, s, w)) (call-Follows c g s w f)

  is_nat-Follows :
      (n : ℤ) (d : ConfigDraft) (g : Option LayeredControlConfig)
      → IsFollowed n d g
      → is_nat n d.mutation_count ≡ true
      → g ≡ some d.working_config
  is_nat-Follows (negsuc n) d g f h = ground arith
  is_nat-Follows (pos n) d g f h = f.1 (==_sound n d.mutation_count h)

  validated-text :
      (text : String) (o : Result LoadError LayeredControlConfig)
      → (validated loads sha256 text o).canonical_text ≡ text
  validated-text text (err e) = refl
  validated-text text (ok config) = refl

  validate-text :
      (d : ConfigDraft) → (validate loads sha256 d).canonical_text ≡ serialize d.working_config
  unfolding validate
  validate-text d =
      let text = serialize d.working_config in validated-text text (load_from_string loads text)

  after_refresh-eq_ok :
      (result r : ConfigSaveResult) (o : Api Unit × EditorSession) (s' : EditorSession)
      → after_refresh sha256 loads result o ≡ (ok (saved_as r), s')
      → result ≡ r
  after_refresh-eq_ok result r (err e, s) s' h = cc
  after_refresh-eq_ok result r (ok u, s) s' h = cc

  after_save-eq_ok :
      (o : SaveOutcome ConfigSaveResult) (s s' : EditorSession) (r : ConfigSaveResult) (w' : World)
      → after_save sha256 loads o s ≡ (ok (saved_as r), s', w')
      → o ≡ (ok r, w')
  after_save-eq_ok (err e, w) s s' r w' h = cc
  after_save-eq_ok (ok result, w) s s' r w' h =
      let o = refresh_from sha256 loads (bytes w.target) s in
      let e = after_refresh-eq_ok result r o s' (ap (λ x. (x.0, x.1)) h) in cc (e, h)

  -- a save that is accepted, from its two tests on
  accepted_save :
      (place : SavePlace) (others : Others) (now : ℕ) (s s' : EditorSession) (w w' : World)
      (r : ConfigSaveResult)
      → handle_save sha256 loads place others now s w ≡ (ok (saved_as r), s', w')
      → (reviewed s ≡ true)
        × IsSaved sha256
            (validate loads sha256 s.draft)
            (expected_of (exists w.target) s.base_sha256)
            others
            r
            w'
  unfolding handle_save touch reviewed
  accepted_save place others now s s' w w' r h = elim (if-eq (not (reviewed s)) h) [
    | inl (q, k) ↦ cc k
    | inr (q, k) ↦
        let v = validate loads sha256 s.draft in
        elim (if-eq (not v.valid) k) [
          | inl (q', k') ↦ cc k'
          | inr (q', k') ↦
              let expected_sha = expected_of (exists w.target) s.base_sha256 in
              let o =
                save_draft sha256 place.target_name place.has_backup_dir place.stamp v expected_sha
                  others w in
              (
                ground arith,
                save_draft-eq_ok sha256 v others place.target_name place.has_backup_dir place.stamp
                    expected_sha w r w' (after_save-eq_ok o (touch now s) s' r w' k'),
              )
        ]
  ]

  -- After any calls of the API on a new session, a save that is accepted puts at the target the text
  -- of exactly the configuration that the draft had at the latest review, and loses no update of the
  -- target.
  pub handle_save-Reviewed :
      (l : List Call) (tokens : Tokens) (draft : ConfigDraft) (base_sha256 : String) (start : ℕ)
      (w₀ : World) (g : Option LayeredControlConfig) (s : EditorSession) (w : World)
      (place : SavePlace) (others : Others) (now : ℕ) (s' : EditorSession) (r : ConfigSaveResult)
      (w' : World)
      → calls l (none, create_session tokens draft base_sha256 start, w₀) ≡ (g, s, w)
      → handle_save sha256 loads place others now s w ≡ (ok (saved_as r), s', w')
      → (config : LayeredControlConfig) × (g ≡ some config)
        × ((validate loads sha256 s.draft).canonical_text ≡ serialize config)
        × IsSaved sha256
            (validate loads sha256 s.draft)
            (expected_of (exists w.target) s.base_sha256)
            others
            r
            w'
  unfolding reviewed
  handle_save-Reviewed l tokens draft base_sha256 start w₀ g s w place others now s' r w' reached
        h =
      let first = create_session tokens draft base_sha256 start in
      let f : Follows s g =
        subst (λ (x : State). Follows x.1 x.0) reached (calls-Follows l (none, first, w₀) tt) in
      let (q, saved) = accepted_save place others now s s' w w' r h in
      (
        s.draft.working_config,
        is_nat-Follows s.reviewed_mutation s.draft g f q,
        validate-text s.draft,
        saved,
      )
