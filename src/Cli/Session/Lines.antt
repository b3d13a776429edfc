-- ===== src/Cli/Session/Lines.antt =====
-- Where a session ends: at a line that ends it, or at a blank line.
use replicated_splinterdb.Base.{
  pos, ◌≡◌, ◌⊎◌, inl, inr, refl, sym, ◌∙◌, true, false, ◌≤◌, ◌<◌, List, [], ◌∷◌, ◌++◌, length, ℤ,
  ltb, undefined, pure, lift, ◌>>=◌, All, ltb, bind_assoc, bind_ext, bind_same, bind_pure, arith,
}
use replicated_splinterdb.Nuraft.{Bytes}
use replicated_splinterdb.SplinterDb.Keys.{bytes_eq}
use replicated_splinterdb.ReadPolicy.{Chance}
use replicated_splinterdb.Client.{Net, Run}
use replicated_splinterdb.Cli.{tokenize, handle_command, emit, tokenize_from}
use replicated_splinterdb.Cli.Session.{exit_word, retcode, on_tokens, interact}

-- A line of blanks.
abbrev pub IsBlank : Bytes → Type 0
IsBlank line = All (λ c. c ≡ 32) line

-- A line that ends the session: too long for the buffer, or with `exit` for its first word.
abbrev pub IsEnd : Bytes → Type 0
IsEnd line =
    (999 < length line)
    ⊎ ((length line ≤ 999)
        × (word : Bytes) × (words : List Bytes) × (tokenize 32 line ≡ word ∷ words)
        × (bytes_eq word exit_word ≡ true))

-- A line with a command: short enough, with a first word that is not `exit`.
abbrev pub IsCommand : Bytes → Type 0
IsCommand line =
    (length line ≤ 999)
    × (word : Bytes) × (words : List Bytes) × (tokenize 32 line ≡ word ∷ words)
    × (bytes_eq word exit_word ≡ false)

tokenize_from-blank : (line : Bytes) → IsBlank line → tokenize_from 32 [] line ≡ []
unfolding tokenize_from emit
tokenize_from-blank [] h = refl
tokenize_from-blank (c ∷ line) h = rw (h.0) (tokenize_from-blank line h.1)

pub tokenize-blank : (line : Bytes) → IsBlank line → tokenize 32 line ≡ []
unfolding tokenize
tokenize-blank = tokenize_from-blank

module _ (net : Net) (chance : Chance) where
  open chance use {Rng}

  interact-command :
      (line : Bytes) (lines : List Bytes) (ret : ℤ) (s : Run net Rng) (c : IsCommand line)
      → interact net chance (line ∷ lines) ret s
        ≡ (handle_command net chance (c.1 ∷ c.2) >>= λ done.
              interact net chance lines (retcode done))
            s
  unfolding interact on_tokens
  interact-command line lines ret s c =
      let (short, word, words, split, other) = c in
      let within : ltb 999 (length line) ≡ false = ground arith in rw (within, split, other)

  pub interact-append :
      (before lines : List Bytes) (ret : ℤ) (s : Run net Rng)
      → All IsCommand before
      → interact net chance (before ++ lines) ret s
        ≡ (interact net chance before ret >>= interact net chance lines) s
  unfolding interact
  interact-append [] lines ret s h = refl
  interact-append (line ∷ before) lines ret s h =
      interact-command line (before ++ lines) ret s h.0
      ∙ bind_ext (handle_command net chance (h.0.1 ∷ h.0.2))
          (λ done. interact net chance (before ++ lines) (retcode done))
          (λ done. interact net chance before (retcode done) >>= interact net chance lines) s
          (λ done t. interact-append before lines (retcode done) t h.1)
      ∙ sym (
          bind_assoc (handle_command net chance (h.0.1 ∷ h.0.2))
            (λ done. interact net chance before (retcode done)) (interact net chance lines) s)
      ∙ bind_same
          (handle_command net chance (h.0.1 ∷ h.0.2) >>= λ done.
            interact net chance before (retcode done))
          (interact net chance (line ∷ before) ret) (interact net chance lines) s
          (sym (interact-command line before ret s h.0))

  interact-end :
      (line : Bytes) (lines : List Bytes) (ret : ℤ) (s : Run net Rng)
      → IsEnd line
      → interact net chance (line ∷ lines) ret s ≡ pure ret s
  unfolding interact on_tokens
  interact-end line lines ret s (inl long) =
      let above : ltb 999 (length line) ≡ true = ground arith in rw above
  interact-end line lines ret s (inr (short, word, words, split, exits)) =
      let within : ltb 999 (length line) ≡ false = ground arith in rw (within, split, exits)

  interact-blank :
      (line : Bytes) (lines : List Bytes) (ret : ℤ) (s : Run net Rng)
      → length line ≤ 999
      → IsBlank line
      → interact net chance (line ∷ lines) ret s ≡ (undefined, s)
  unfolding interact on_tokens
  interact-blank line lines ret s short blank =
      let within : ltb 999 (length line) ≡ false = ground arith in
      rw (within, tokenize-blank line blank)

  -- A session that has only read lines with a command, and then reads a line of more than 999
  -- characters or one whose first word is `exit`, is the session of the lines before: the same
  -- calls and the same return code, whatever lines follow.
  pub session_ends :
      (before after : List Bytes) (line : Bytes) (s : Run net Rng)
      → All IsCommand before
      → IsEnd line
      → interact net chance (before ++ line ∷ after) (pos 0) s
        ≡ interact net chance before (pos 0) s
  session_ends before after line s h ends =
      interact-append before (line ∷ after) (pos 0) s h
      ∙ bind_ext (interact net chance before (pos 0)) (interact net chance (line ∷ after)) pure s
          (λ ret t. interact-end line after ret t ends)
      ∙ bind_pure (interact net chance before (pos 0)) s

  -- A session that has only read lines with a command (at most 999 characters, with a first word
  -- other than `exit`) and then reads an empty line, or one of at most 999 blanks, is undefined
  -- once the commands before have returned; up to there it is the session of the lines before.
  pub session_blank :
      (before after : List Bytes) (line : Bytes) (s : Run net Rng)
      → All IsCommand before
      → length line ≤ 999
      → IsBlank line
      → interact net chance (before ++ line ∷ after) (pos 0) s
        ≡ (interact net chance before (pos 0) >>= λ ret. lift undefined) s
  session_blank before after line s h short blank =
      interact-append before (line ∷ after) (pos 0) s h
      ∙ bind_ext (interact net chance before (pos 0)) (interact net chance (line ∷ after))
          (λ ret. lift undefined) s (λ ret t. interact-blank line after ret t short blank)
