-- ===== src/Configurator/Draft/Profiles.antt =====
-- The mutations of `ConfigDraft` on profiles.
use yyr4_linux_control.Base.{
  String, not, [], ◌∷◌, length, leb, ◌==◌, string_eq, ok, raise_if, ◌>>=◌, ◌>>◌, if◌then◌else◌,
}
use yyr4_linux_control.Base.Dict.{insert, has_key}
use yyr4_linux_control.Base.DictEdits.{without, rename_key}
use yyr4_linux_control.Base.Text.{joined}
use yyr4_linux_control.Control.Models.{
  general, layer_eq, ProfileId, profile_eq, LayeredControlConfig,
}
use yyr4_linux_control.Configurator.Draft.{
  ConfigDraft, Edit, refusal, require, try_profile_id, mark_dirty, add_record, refuse_refs,
  find_setprofile_refs_to, fix_setprofile_refs, invalid_profile_id, invalid_old_profile_id,
  invalid_new_profile_id, profile_exists, profile_missing, last_profile, default_profile_in_use,
  profile_referenced,
}

unfoldable pub add_profile : String → ConfigDraft → Edit ConfigDraft
add_profile id d =
    let wc = d.working_config in
    do
      pid ← require (try_profile_id id) (refusal (invalid_profile_id id) "add_profile")
      raise_if (has_key pid wc.profiles) (refusal (profile_exists id) "add_profile")
      ok (
          mark_dirty
            (record wc {
              profiles =
                  insert pid
                    (record {
                      profile_id = pid;
                      layers = (general, record { layer_id = general; controls = [] }) ∷ [];
                    })
                    wc.profiles;
            })
            d)

-- the working configuration after a renaming
unfoldable pub renamed_profile : LayeredControlConfig → ProfileId → ProfileId → LayeredControlConfig
renamed_profile wc old new = record wc {
  default_profile = (if wc.default_profile == old then new else wc.default_profile);
  profiles = fix_setprofile_refs (rename_key old new wc.profiles) old new;
}

unfoldable pub rename_profile : String → String → ConfigDraft → Edit ConfigDraft
rename_profile old_id new_id d =
    let wc = d.working_config in
    do
      old ←
          require (try_profile_id old_id) (refusal (invalid_old_profile_id old_id) "rename_profile")
      new ←
          require (try_profile_id new_id) (refusal (invalid_new_profile_id new_id) "rename_profile")
      raise_if (not (has_key old wc.profiles)) (refusal (profile_missing old_id) "rename_profile")
      raise_if (has_key new wc.profiles) (refusal (profile_exists new_id) "rename_profile")
      ok (
          mark_dirty (renamed_profile wc old new) (
            add_record
              (record {
                kind = "profile_renamed";
                path = joined "profiles." old_id;
                before = old_id;
                after = new_id;
              })
              d))

unfoldable pub remove_profile : String → ConfigDraft → Edit ConfigDraft
remove_profile id d =
    let wc = d.working_config in
    do
      pid ← require (try_profile_id id) (refusal (invalid_profile_id id) "remove_profile")
      raise_if (not (has_key pid wc.profiles)) (refusal (profile_missing id) "remove_profile")
      raise_if (leb (length wc.profiles) 1) (refusal last_profile "remove_profile")
      raise_if (pid == wc.default_profile) (refusal (default_profile_in_use id) "remove_profile")
      refuse_refs (find_setprofile_refs_to wc pid)
          (λ r. refusal (profile_referenced id r) "remove_profile")
      ok (mark_dirty (record wc { profiles = without pid wc.profiles }) d)

unfoldable pub set_default_profile : String → ConfigDraft → Edit ConfigDraft
set_default_profile id d =
    let wc = d.working_config in
    do
      pid ← require (try_profile_id id) (refusal (invalid_profile_id id) "set_default_profile")
      raise_if (not (has_key pid wc.profiles)) (refusal (profile_missing id) "set_default_profile")
      ok (
          if wc.default_profile == pid
          then d
          else mark_dirty (record wc { default_profile = pid }) d)
