-- ===== src/Execution/Command/Laws.antt =====
-- Which commands run, for how long at most, and how much of their output is kept.
use mathlib.Core.List.{append_assoc, append-nil}
use Prim.Native.String.{count}
use yyr4_linux_control.Base.{
  ℕ, zero, suc, ◌+◌, ◌-◌, ◌≤◌, ◌<◌, ◌≡◌, refl, ap, sym, ◌∙◌, ◌↔◌, ◌⊎◌, String, Bool, true, false,
  none, some, List, [], ◌∷◌, ◌++◌, ltb, lt→ltb, length, length-append, take, string_eq, arith, All,
  ◌≢◌, Bool-cases, inl, inr, if◌then◌else◌,
}
use yyr4_linux_control.Base.Text.{joined}
use yyr4_linux_control.Execution.Command.Names.{has_slash_iff, contains_iff, is_forbidden_iff}
use yyr4_linux_control.Base.Int.{ℤ, pos_part, neg_part}
use yyr4_linux_control.Execution.Command.{
  Policy, is_allowed, any_longer, effective_timeout, read_chunks, read_stream, is_nil,
}

-- `a ≤ b`
abbrev pub ◌≤ℤ◌ : ℤ → ℤ → Type 0
◌≤ℤ◌ a b = pos_part a + neg_part b ≤ pos_part b + neg_part a

-- The timeout never exceeds the policy's, and is the one asked for if that is within it.
pub effective_timeout_bound :
    (p : Policy) (t : ℤ)
    → ◌≤ℤ◌ (effective_timeout p none) p.max_timeout_seconds
      × ◌≤ℤ◌ (effective_timeout p (some t)) p.max_timeout_seconds
      × ((◌≤ℤ◌ t p.max_timeout_seconds × (effective_timeout p (some t) ≡ t))
          ⊎ (effective_timeout p (some t) ≡ p.max_timeout_seconds))
unfolding effective_timeout
effective_timeout_bound p t = ground arith

any_longer_iff :
    (n : ℕ) (args : List String) → (any_longer n args ≡ false) ↔ All (λ arg. count arg ≤ n) args
unfolding any_longer
any_longer_iff n [] = (λ h. tt, λ h. refl)
any_longer_iff n (arg ∷ args) = (
  λ h. (ground arith, (any_longer_iff n args).0 (ground arith)),
  λ h. ground (arith, (any_longer_iff n args).1 h.1),
)

-- A command is allowed exactly when its name is on the allow list, is none of sh, bash, dash, zsh,
-- sudo and su, has no slash and is neither `.` nor `..`, and its arguments, the name included, are
-- within the limits on their number and length.
pub is_allowed_iff :
    (p : Policy) (cmd : String) (args : List String)
    → (is_allowed p (cmd ∷ args) ≡ true) ↔ (
        (length args + 1 ≤ p.max_argv_items)
        × All (λ arg. count arg ≤ p.max_argv_item_length) (cmd ∷ args)
        × All (λ name. cmd ≢ name) ("sh" ∷ "bash" ∷ "dash" ∷ "zsh" ∷ "sudo" ∷ "su" ∷ [])
        × (¬ ((front back : String) × (cmd ≡ joined front (String.◌∷◌ "/" back))))
        × (cmd ≢ "..")
        × (cmd ≢ ".")
        × ((front back : List String) × (p.allow_commands ≡ front ++ cmd ∷ back)))
unfolding is_allowed
is_allowed_iff p cmd args =
    let (short, all_short) = any_longer_iff p.max_argv_item_length (cmd ∷ args) in
    let (unforbidden, forbidden) = is_forbidden_iff cmd in
    let (plain, slashed) = has_slash_iff cmd in
    let (listed, in_list) = contains_iff cmd p.allow_commands in
    (
      (λ h. (
        ground arith,
        short (ground arith),
        unforbidden (ground arith),
        plain (ground arith),
        (λ e. ground (arith, (string_eq.beq_iff cmd "..").1 e)),
        (λ e. ground (arith, (string_eq.beq_iff cmd ".").1 e)),
        listed (ground arith),
      )),
      (λ (n, l, f, s, dots, dot, a).
          let forbidden' = forbidden f in
          let slashed' = slashed s in
          let listed' = in_list a in
          ground
            (arith, all_short l, (string_eq.beq_iff cmd "..").0, (string_eq.beq_iff cmd ".").0)),
    )

-- the bytes of a stream, up to an empty chunk
pub stream_bytes : List (List ℕ) → List ℕ
stream_bytes [] = []
stream_bytes (chunk ∷ rest) =
    let more = stream_bytes rest in if is_nil chunk then [] else chunk ++ more

take_all : (n : ℕ) (xs : List ℕ) → length xs ≤ n → take n xs ≡ xs
take_all zero [] h = refl
take_all (suc n) [] h = refl
take_all zero (x ∷ xs) h = absurd (omega arith)
take_all (suc n) (x ∷ xs) h = ap (λ r. x ∷ r) (take_all n xs (omega arith))

take_over :
    (n : ℕ) (xs ys : List ℕ) → length xs ≤ n → take n (xs ++ ys) ≡ xs ++ take (n - length xs) ys
take_over n [] ys h = ap (λ m. take m ys) (omega arith)
take_over zero (x ∷ xs) ys h = absurd (omega arith)
take_over (suc n) (x ∷ xs) ys h =
    ap (λ r. x ∷ r) (take_over n xs ys (omega arith) ∙ ap (λ m. xs ++ take m ys) (omega arith))

take_within : (n : ℕ) (xs ys : List ℕ) → n ≤ length xs → take n (xs ++ ys) ≡ take n xs
take_within zero xs ys h = refl
take_within (suc n) [] ys h = absurd (omega arith)
take_within (suc n) (x ∷ xs) ys h = ap (λ r. x ∷ r) (take_within n xs ys (omega arith))

-- what is kept of a stream within the limit, and whether that is less than the stream
abbrev pub bounded : ℕ → List ℕ → List ℕ × Bool
bounded limit bytes = (take limit bytes, ltb limit (length bytes))

bounded_all :
    (limit : ℕ) (kept : List ℕ) → length kept ≤ limit → (kept, false) ≡ bounded limit (kept ++ [])
bounded_all limit kept h =
    ap (λ x. (x, false)) (sym (take_all limit kept h))
    ∙ ap (λ b. (take limit kept, b)) (ground arith)
    ∙ ap (bounded limit) (sym (append-nil kept))

bounded_cut :
    (limit : ℕ) (kept chunk more : List ℕ)
    → length kept ≤ limit
    → limit < length kept + length chunk
    → (kept ++ take (limit - length kept) chunk, true) ≡ bounded limit (kept ++ (chunk ++ more))
bounded_cut limit kept chunk more h over =
    let cut = take_over limit kept (chunk ++ more) h in
    let inside = take_within (limit - length kept) chunk more (omega arith) in
    let len1 = length-append kept (chunk ++ more) in
    let len2 = length-append chunk more in
    let long : true ≡ ltb limit (length (kept ++ (chunk ++ more))) =
      sym (lt→ltb limit (length (kept ++ (chunk ++ more))) (omega (arith, len1, len2))) in
    λ i. (sym (cut ∙ ap (λ x. kept ++ x) inside) i, long i)

read_chunks_lem :
    (chunks : List (List ℕ)) (limit : ℕ) (kept : List ℕ)
    → length kept ≤ limit
    → read_chunks chunks limit kept ≡ bounded limit (kept ++ stream_bytes chunks)
unfolding read_chunks stream_bytes
read_chunks_lem [] limit kept h = bounded_all limit kept h
read_chunks_lem ([] ∷ rest) limit kept h = bounded_all limit kept h
read_chunks_lem ((b ∷ bs) ∷ rest) limit kept h =
    let chunk = b ∷ bs in
    let longer = length-append kept chunk in
    elim (Bool-cases (ltb limit (length kept + length chunk))) [
      | inl over ↦ rw over (bounded_cut limit kept chunk (stream_bytes rest) h (ground arith))
      | inr fits ↦ rw fits (
          read_chunks_lem rest limit (kept ++ chunk) (ground arith)
          ∙ ap (bounded limit) (append_assoc kept chunk (stream_bytes rest)))
    ]

-- Of a stream, however it is cut into chunks, exactly its first bytes up to the limit are kept, and
-- it counts as truncated exactly if it has more.
pub read_stream_lem :
    (chunks : List (List ℕ)) (limit : ℕ)
    → read_stream chunks limit
      ≡ (take limit (stream_bytes chunks), ltb limit (length (stream_bytes chunks)))
unfolding read_stream
read_stream_lem chunks limit = read_chunks_lem chunks limit [] (omega arith)
