-- ===== src/Configurator/Save/Failure.antt =====
-- What a save that fails leaves at the target path, whatever other processes do meanwhile.
use yyr4_linux_control.Base.{
  ◌≡◌, refl, sym, subst, String, Bool, true, false, not, inl, inr, Option, none, some, string_eq,
  ok, err, Bool-cases, if-eq,
}
use yyr4_linux_control.Base.Dict.{has_key}
use yyr4_linux_control.Configurator.Validation.{DraftValidationResult}
use yyr4_linux_control.Configurator.Save.{
  Node, absent, regular, symlink, directory, special, World, Others, SaveError, is_symlink, bytes,
  same_sha, SaveOutcome, compute_sha, write_backup, create_backup, backup_name, back_up, install,
  verify, write_target, save_over, save_draft, replace_at, link_at, ConfigSaveResult,
}

-- The steps of the others keep a property of the target.
pub record IsKept (P : Node → Type 0) (others : Others) : Type 0 where
  pub kept_check : (w : World) → P w.target → P (others.before_check w).target
  pub kept_backup : (w : World) → P w.target → P (others.before_backup w).target
  pub kept_install : (w : World) → P w.target → P (others.before_install w).target
  pub kept_compare : (w : World) → P w.target → P (others.after_compare w).target

write_backup-target :
    (name : String) (found : Option String) (w : World)
    → (write_backup name found w).1.target ≡ w.target
write_backup-target name none w = refl
write_backup-target name (some b) w = refl

create_backup-target : (name : String) (w : World) → (create_backup name w).1.target ≡ w.target
create_backup-target name w = elim (Bool-cases (has_key name w.backups)) [
  | inl p ↦ rw p refl
  | inr p ↦ rw p (write_backup-target name (bytes w.target) w)
]

replace_at-eq_err :
    (node : Node) (text : String) (w : World) {e : SaveError} {w' : World}
    → replace_at node text w ≡ (err e, w')
    → w' ≡ w
replace_at-eq_err directory text w h = cc
replace_at-eq_err special text w h = cc
replace_at-eq_err absent text w h = cc
replace_at-eq_err (regular b) text w h = cc
replace_at-eq_err (symlink found) text w h = cc

link_at-eq_err :
    (node : Node) (text : String) (w : World) {e : SaveError} {w' : World}
    → link_at node text w ≡ (err e, w')
    → w' ≡ w
link_at-eq_err absent text w h = cc
link_at-eq_err directory text w h = cc
link_at-eq_err special text w h = cc
link_at-eq_err (regular b) text w h = cc
link_at-eq_err (symlink found) text w h = cc

module _ (sha256 : String → String) where
  module _ (P : Node → Type 0) (others : Others) (kept : IsKept P others) where
    back_up-kept :
        (name : String) (dir : Bool) (ts : String) (current : Option String) (w : World)
        → P w.target
        → P (back_up sha256 name dir ts current others w).1.target
    unfolding back_up
    back_up-kept name dir ts none w p = p
    back_up-kept name false ts (some sha) w p = p
    back_up-kept name true ts (some sha) w p =
        subst P (sym (create_backup-target (backup_name name ts sha) (others.before_backup w)))
          (kept.kept_backup w p)

    install-eq_err :
        (text : String) (current expected : Option String) (w : World) {e : SaveError} {w' : World}
        → P w.target
        → install sha256 text current expected others w ≡ (err e, w')
        → P w'.target
    install-eq_err text none expected w p h =
        subst (λ (x : World). P x.target) (sym (link_at-eq_err w.target text w h)) p
    install-eq_err text (some sha) expected w p h =
        elim (if-eq (same_sha (compute_sha sha256 w.target) expected) h) [
          | inl (q, g) ↦
              let w₁ = others.after_compare w in
              subst (λ (x : World). P x.target) (sym (replace_at-eq_err w₁.target text w₁ g))
                (kept.kept_compare w p)
          | inr (q, g) ↦ subst (λ (o : SaveOutcome Unit). P o.1.target) g p
        ]

    verify-eq_err :
        (v : DraftValidationResult) (backup : Option String) (done : SaveOutcome Unit)
        {e : SaveError} {w' : World}
        → verify sha256 v backup done others ≡ (err e, w')
        → done ≡ (err e, w')
    verify-eq_err v backup (err e, w) h = cc
    verify-eq_err v backup (ok u, w) h = cc

    write_target-eq_err :
        (v : DraftValidationResult) (current expected : Option String)
        (backed_up : SaveOutcome (Option String)) {e : SaveError} {w' : World}
        → P backed_up.1.target
        → write_target sha256 v current expected others backed_up ≡ (err e, w')
        → P w'.target
    write_target-eq_err v current expected (err e, w) p h =
        subst (λ (o : SaveOutcome ConfigSaveResult). P o.1.target) h p
    write_target-eq_err v current expected (ok backup, w) p h =
        install-eq_err v.canonical_text current expected (others.before_install w)
          (kept.kept_install w p)
          (verify-eq_err v backup
            (install sha256 v.canonical_text current expected others (others.before_install w)) h)

    save_over-eq_err :
        (name : String) (dir : Bool) (ts : String) (v : DraftValidationResult)
        (expected : Option String) (w : World) {e : SaveError} {w' : World}
        → P w.target
        → save_over sha256 name dir ts v expected others w ≡ (err e, w')
        → P w'.target
    save_over-eq_err name dir ts v expected w p h =
        let current = compute_sha sha256 w.target in
        elim (if-eq (same_sha current expected) h) [
          | inl (q, g) ↦
              write_target-eq_err v current expected (back_up sha256 name dir ts current others w)
                (back_up-kept name dir ts current w p) g
          | inr (q, g) ↦ subst (λ (o : SaveOutcome ConfigSaveResult). P o.1.target) g p
        ]

    -- A save that fails leaves at the target path what it found there: whatever the other processes
    -- keep true of the target, the save keeps true of it too.
    pub save_draft-eq_err :
        (name : String) (dir : Bool) (ts : String) (v : DraftValidationResult)
        (expected : Option String) (w : World) {e : SaveError} {w' : World}
        → P w.target
        → save_draft sha256 name dir ts v expected others w ≡ (err e, w')
        → P w'.target
    unfolding save_draft
    save_draft-eq_err name dir ts v expected w p h = elim (if-eq (is_symlink w.target) h) [
      | inl (q, g) ↦ subst (λ (o : SaveOutcome ConfigSaveResult). P o.1.target) g p
      | inr (q, g) ↦ elim (if-eq (not v.valid) g) [
        | inl (q', g') ↦ subst (λ (o : SaveOutcome ConfigSaveResult). P o.1.target) g' p
        | inr (q', g') ↦
            save_over-eq_err name dir ts v expected (others.before_check w) (kept.kept_check w p) g'
      ]
    ]
