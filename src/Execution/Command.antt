-- ===== src/Execution/Command.antt =====
-- execution/command.py: `CommandExecutionPolicy`, the bounded reading of a process's output, and the
-- timeout. The method `run`, which puts these together, is in Execution/Runner.
mod Names
pub mod Laws
mod Tests
use Prim.Native.Char.{code}
use Prim.Native.String.{count}
use yyr4_linux_control.Base.{
  ℕ, suc, ◌+◌, ◌-◌, String, Bool, true, false, ◌&&◌, ◌||◌, not, Option, none, some, List, [], ◌∷◌,
  ◌++◌, ltb, leb, length, take, nat_beq, contains, ◌==◌, string_eq, if◌then◌else◌,
}
use yyr4_linux_control.Base.Int.{ℤ, pos, ltb_ℤ}

pub record Policy : Type 0 where
  pub allow_commands : List String
  pub max_timeout_seconds : ℤ
  pub max_output_bytes : ℕ
  pub max_argv_items : ℕ
  pub max_argv_item_length : ℕ

-- the defaults of the dataclass
abbrev pub default_policy : List String → Policy
default_policy allow_commands = record {
  allow_commands = allow_commands;
  max_timeout_seconds = pos 10;
  max_output_bytes = 65536;
  max_argv_items = 50;
  max_argv_item_length = 4096;
}

abbrev pub forbidden_shells : List String
forbidden_shells = "sh" ∷ "bash" ∷ "dash" ∷ "zsh" ∷ "sudo" ∷ "su" ∷ []

-- `any(len(arg) > n for arg in argv)`
unfoldable pub any_longer : ℕ → List String → Bool
any_longer n [] = false
any_longer n (arg ∷ rest) = ltb n (count arg) || any_longer n rest

-- `"/" in s`
unfoldable pub has_slash : String → Bool
has_slash String.[] = false
has_slash (String.◌∷◌ c s) = nat_beq (code c) b'/' || has_slash s

-- `cmd in forbidden_shells`
unfoldable pub is_forbidden : String → Bool
is_forbidden cmd = contains cmd forbidden_shells

unfoldable pub is_allowed : Policy → List String → Bool
is_allowed p [] = false
is_allowed p (cmd ∷ args) =
    if ltb p.max_argv_items (length (cmd ∷ args))
    then false
    else if any_longer p.max_argv_item_length (cmd ∷ args)
    then false
    else if is_forbidden cmd
    then false
    else if has_slash cmd
    then false
    else if cmd == ".." || cmd == "."
    then false
    else if not (contains cmd p.allow_commands)
    then false
    else true

-- The timeout of `run`: the one asked for, or the policy's, cut at the policy's.
unfoldable pub effective_timeout : Policy → Option ℤ → ℤ
effective_timeout p none = p.max_timeout_seconds
effective_timeout p (some t) = if ltb_ℤ p.max_timeout_seconds t then p.max_timeout_seconds else t

abbrev pub is_nil : List ℕ → Bool
is_nil [] = true
is_nil (b ∷ bs) = false

-- The loop of `_read_stream`: the chunks still to come, and what was kept so far (`b"".join(chunks)`,
-- whose length is `total_bytes`). An empty chunk ends the stream; so does the end of the list, which
-- stands for a read that raises.
unfoldable pub read_chunks : List (List ℕ) → ℕ → List ℕ → List ℕ × Bool
read_chunks [] limit kept = (kept, false)
read_chunks (chunk ∷ rest) limit kept =
    let next = read_chunks rest limit (kept ++ chunk) in
    if is_nil chunk
    then (kept, false)
    else if ltb limit (length kept + length chunk)
    then (kept ++ take (limit - length kept) chunk, true)
    else next

unfoldable pub read_stream : List (List ℕ) → ℕ → List ℕ × Bool
unfolding read_chunks
read_stream chunks limit = read_chunks chunks limit []

-- `b"\n[TRUNCATED]"`
abbrev pub truncation_marker : List ℕ
truncation_marker =
    10 ∷ b'[' ∷ b'T' ∷ b'R' ∷ b'U' ∷ b'N' ∷ b'C' ∷ b'A' ∷ b'T' ∷ b'E' ∷ b'D' ∷ b']' ∷ []

-- what `run` hands back of a stream
unfoldable pub harvest : Policy → List (List ℕ) → List ℕ
unfolding read_stream
harvest p chunks =
    let (bytes, truncated) = read_stream chunks p.max_output_bytes in
    if truncated then bytes ++ truncation_marker else bytes
