-- ===== src/Execution/Command/Tests.antt =====
-- A policy that allows one command.
use yyr4_linux_control.Base.{
  ◌++◌, ℕ, ◌+◌, ◌≤◌, ◌≡◌, ◌≢◌, ◌↔◌, refl, String, true, false, List, [], ◌∷◌, All, length, take,
  ltb, string_eq,
}
use Prim.Native.String.{count}
use yyr4_linux_control.Base.Text.{joined}
use yyr4_linux_control.Execution.Command.{
  Policy, default_policy, is_allowed, is_forbidden, has_slash, any_longer, read_stream, read_chunks,
  harvest,
}
use yyr4_linux_control.Execution.Command.Laws.{is_allowed_iff, stream_bytes, read_stream_lem}

abbrev policy : Policy
policy = default_policy ("notify-send" ∷ [])

allowed : is_allowed policy ("notify-send" ∷ "hello" ∷ []) ≡ true
unfolding is_allowed any_longer is_forbidden has_slash
allowed = refl

refused : is_allowed (default_policy ("bash" ∷ [])) ("bash" ∷ "-c" ∷ "ls" ∷ []) ≡ false
unfolding is_allowed any_longer is_forbidden has_slash
refused = refl

is_allowed_iff_example : (is_allowed policy ("notify-send" ∷ "hello" ∷ []) ≡ true) ↔ (
    (length {A = String} ("hello" ∷ []) + 1 ≤ policy.max_argv_items)
    × All (λ arg. count arg ≤ policy.max_argv_item_length) ("notify-send" ∷ "hello" ∷ [])
    × All
        (λ name. ◌≢◌ {A = String} "notify-send" name)
        ("sh" ∷ "bash" ∷ "dash" ∷ "zsh" ∷ "sudo" ∷ "su" ∷ [])
    × (¬ ((front back : String) × ("notify-send" ≡ joined front (String.◌∷◌ "/" back))))
    × (◌≢◌ {A = String} "notify-send" "..")
    × (◌≢◌ {A = String} "notify-send" ".")
    × ((front back : List String) × (policy.allow_commands ≡ front ++ "notify-send" ∷ back)))
is_allowed_iff_example = is_allowed_iff policy "notify-send" ("hello" ∷ [])

abbrev chunks : List (List ℕ)
chunks = (1 ∷ 2 ∷ []) ∷ (3 ∷ 4 ∷ []) ∷ [] ∷ []

cut_at_three : harvest (record policy { max_output_bytes = 3 }) ((1 ∷ 2 ∷ []) ∷ []) ≡ 1 ∷ 2 ∷ []
unfolding harvest read_stream read_chunks
cut_at_three = refl

read_stream_lem_example :
    read_stream chunks 3 ≡ (take 3 (stream_bytes chunks), ltb 3 (length (stream_bytes chunks)))
read_stream_lem_example = read_stream_lem chunks 3
