-- ===== src/Configurator/Draft/Requests.antt =====
-- The mutations of a draft as requests, and how each of them ends.
use yyr4_linux_control.Base.{arith, ◌+◌, ◌≡◌, String, true, ok, ◌⊎◌}
use yyr4_linux_control.Control.Actions.{Action}
use yyr4_linux_control.Configurator.Draft.{ConfigDraft, Edit}
use yyr4_linux_control.Configurator.Draft.Profiles
use yyr4_linux_control.Configurator.Draft.Layers

-- the calls of the mutation methods
pub data Request : Type 0 where
  add_profile remove_profile set_default_profile set_initial_layer : String → Request
  rename_profile add_layer remove_layer : String → String → Request
  rename_layer clear_action : String → String → String → Request
  set_action : String → String → String → Action → Request

abbrev pub apply : Request → ConfigDraft → Edit ConfigDraft
apply (add_profile p) d = Profiles.add_profile p d
apply (remove_profile p) d = Profiles.remove_profile p d
apply (set_default_profile p) d = Profiles.set_default_profile p d
apply (rename_profile old new) d = Profiles.rename_profile old new d
apply (set_initial_layer l) d = Layers.set_initial_layer l d
apply (add_layer p l) d = Layers.add_layer p l d
apply (remove_layer p l) d = Layers.remove_layer p l d
apply (rename_layer p old new) d = Layers.rename_layer p old new d
apply (clear_action p l c) d = Layers.clear_action p l c d
apply (set_action p l c a) d = Layers.set_action p l c a d

-- The draft is unchanged; or it is dirty, counts one mutation more, and keeps its base.
abbrev pub IsCounted : ConfigDraft → ConfigDraft → Type 0
IsCounted d r =
    (r ≡ d)
    ⊎ ((r.dirty ≡ true)
        × (r.mutation_count ≡ d.mutation_count + 1)
        × (r.base_config ≡ d.base_config))

-- A mutation that succeeds leaves the draft as it was, or dirty with one mutation more and the same
-- base.
pub apply-IsCounted :
    (request : Request) (d r : ConfigDraft) → apply request d ≡ ok r → IsCounted d r
unfolding Profiles.add_profile Profiles.remove_profile Profiles.set_default_profile
    Profiles.rename_profile Layers.set_initial_layer Layers.add_layer Layers.remove_layer
    Layers.rename_layer Layers.clear_action Layers.set_action
apply-IsCounted (add_profile p) d r h = ground arith
apply-IsCounted (remove_profile p) d r h = ground arith
apply-IsCounted (set_default_profile p) d r h = ground arith
apply-IsCounted (rename_profile old new) d r h = ground arith
apply-IsCounted (set_initial_layer l) d r h = ground arith
apply-IsCounted (add_layer p l) d r h = ground arith
apply-IsCounted (remove_layer p l) d r h = ground arith
apply-IsCounted (rename_layer p old new) d r h = ground arith
apply-IsCounted (clear_action p l c) d r h = ground arith
apply-IsCounted (set_action p l c a) d r h = ground arith
