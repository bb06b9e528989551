-- ===== src/Configurator/Web/Session.antt =====
-- configurator/web/session.py: `EditorSession`, the state of an editing session. Its files are left
-- out: the recovery directory is its id, which a new one is given for, and the registry and the
-- control socket have no part in what is stated.
use yyr4_linux_control.Base.{
  ℕ, zero, suc, ◌+◌, String, Bool, true, false, ◌&&◌, ◌||◌, not, Option, none, some, ◌==◌,
  string_eq, nat_eq, ltb, if◌then◌else◌,
}
use yyr4_linux_control.Base.Text.{is_empty}
use yyr4_linux_control.Base.Int.{ℤ, pos, negsuc}
use yyr4_linux_control.Configurator.Draft.{ConfigDraft}

pub record EditorSession : Type 0 where
  pub session_id : String
  pub public_session_id : String
  pub bootstrap_token : String
  pub bootstrap_used : Bool
  pub session_cookie : String
  pub csrf_token : String
  pub dirty_policy : String
  pub draft : ConfigDraft
  pub base_sha256 : String
  pub reviewed_mutation : ℤ
  pub recovery_id : Option String
  pub last_activity : ℕ
  pub is_shut_down : Bool

-- the four secrets of a new session
pub record Tokens : Type 0 where
  pub id : String
  pub public_id : String
  pub bootstrap : String
  pub cookie : String
  pub csrf : String

-- `create_session`, with the draft of the source and the hash of its configuration
abbrev pub create_session : Tokens → ConfigDraft → String → ℕ → EditorSession
create_session tokens draft base_sha256 now = record {
  session_id = tokens.id;
  public_session_id = tokens.public_id;
  bootstrap_token = tokens.bootstrap;
  bootstrap_used = false;
  session_cookie = tokens.cookie;
  csrf_token = tokens.csrf;
  dirty_policy = "keep_recovery";
  draft = draft;
  base_sha256 = base_sha256;
  reviewed_mutation = negsuc 0;
  recovery_id = none;
  last_activity = now;
  is_shut_down = false;
}

-- `n == m` of an int and a natural
abbrev pub is_nat : ℤ → ℕ → Bool
is_nat (pos n) m = n == m
is_nat (negsuc n) m = false

unfoldable pub reviewed : EditorSession → Bool
reviewed s = is_nat s.reviewed_mutation s.draft.mutation_count

unfoldable pub mark_reviewed : EditorSession → EditorSession
mark_reviewed s = record s { reviewed_mutation = pos s.draft.mutation_count }

-- `n - 1`
abbrev pub one_less : ℕ → ℤ
one_less zero = negsuc 0
one_less (suc n) = pos n

unfoldable pub restore_review_state : ℕ → EditorSession → EditorSession
restore_review_state draft_mutation_count s = record s {
  reviewed_mutation = one_less draft_mutation_count;
}

-- `compare_digest` is true of equal texts. It raises if a text is not ASCII, which ends the request
-- with no answer and no effect; here such a text is another than the token.
unfoldable pub consume_bootstrap_token : String → EditorSession → Bool × EditorSession
consume_bootstrap_token candidate s =
    if s.bootstrap_used || is_empty s.bootstrap_token
    then (false, s)
    else if not (s.bootstrap_token == candidate)
    then (false, s)
    else (true, record s { bootstrap_used = true })

unfoldable pub touch : ℕ → EditorSession → EditorSession
touch now s = record s { last_activity = now }

unfoldable pub is_expired : ℕ → ℕ → EditorSession → Bool
is_expired idle_timeout now s = ltb (s.last_activity + idle_timeout) now

abbrev pub id_or : Option String → String → String
id_or (some id) new = id
id_or none new = new

-- the id after `write_recovery`, which writes only a dirty draft
abbrev pub written_id : Bool → Option String → String → Option String
written_id false found new = found
written_id true found new = some (id_or found new)

-- `write_recovery`, with a new id for the first time
unfoldable pub write_recovery : String → EditorSession → EditorSession
write_recovery new_id s = record s { recovery_id = written_id s.draft.dirty s.recovery_id new_id }

unfoldable pub discard_recovery : EditorSession → EditorSession
discard_recovery s = record s { recovery_id = none }

unfoldable pub shutdown : String → String → EditorSession → EditorSession
unfolding write_recovery discard_recovery
shutdown policy new_id s =
    if s.is_shut_down
    then s
    else (let s' : EditorSession = record s { is_shut_down = true } in
        if policy == "keep_recovery" && s.draft.dirty
        then write_recovery new_id s'
        else if policy == "discard"
        then discard_recovery s'
        else s')

-- `refresh_base`: the draft of the target, and the hash of its configuration
unfoldable pub refresh_base : ConfigDraft → String → EditorSession → EditorSession
unfolding discard_recovery
refresh_base draft sha256 s =
    discard_recovery
      (record s { draft = draft; base_sha256 = sha256; reviewed_mutation = negsuc 0 })
