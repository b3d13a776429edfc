-- ===== src/Cli/Tokens.antt =====
-- The words that `tokenize` finds in a command line.
use replicated_splinterdb.Base.{
  ℕ, ◌≡◌, ◌≢◌, refl, sym, ap, ◌∙◌, false, List, [], ◌∷◌, ◌++◌, append-nil, append_assoc, ◌==◌,
  ==_refl, All, arith,
}
use replicated_splinterdb.Nuraft.{Bytes}
use replicated_splinterdb.Cli.{emit, tokenize_from, tokenize}

-- A character that belongs to a word; a word.
abbrev pub IsLetter : ℕ → ℕ → Type 0
IsLetter delim c = (c ≢ 0) × (c ≢ delim)

abbrev pub IsWord : ℕ → Bytes → Type 0
IsWord delim w = (w ≢ []) × All (IsLetter delim) w

-- The words behind one another, with the delimiter behind each.
abbrev pub unwords : ℕ → List Bytes → Bytes
unwords delim [] = []
unwords delim (w ∷ ws) = w ++ delim ∷ unwords delim ws

tokenize_word :
    (delim : ℕ) (token w rest : Bytes)
    → All (IsLetter delim) w
    → tokenize_from delim token (w ++ rest) ≡ tokenize_from delim (token ++ w) rest
unfolding tokenize_from
tokenize_word delim token [] rest h = ap (λ t. tokenize_from delim t rest) (sym (append-nil token))
tokenize_word delim token (c ∷ w) rest h =
    let p : (c == 0) ≡ false = ground (arith, h.0.0) in
    let q : (c == delim) ≡ false = ground (arith, h.0.1) in
    rw (p, q)
      (tokenize_word delim (token ++ c ∷ []) w rest h.1
        ∙ ap (λ t. tokenize_from delim t rest) (append_assoc token (c ∷ []) w))

emit_word : (w : Bytes) (ws : List Bytes) → w ≢ [] → emit w ws ≡ w ∷ ws
unfolding emit
emit_word [] ws h = absurd (h refl)
emit_word (c ∷ w) ws h = refl

-- Words that are not empty and hold neither the delimiter nor a zero byte, with the delimiter
-- behind each, are found again by `tokenize`, in order, for a delimiter that is not zero.
pub tokenize-unwords :
    (delim : ℕ) (ws : List Bytes)
    → delim ≢ 0
    → All (IsWord delim) ws
    → tokenize delim (unwords delim ws) ≡ ws
unfolding tokenize tokenize_from
tokenize-unwords delim [] h words = unfold emit in refl
tokenize-unwords delim (w ∷ ws) h words =
    let p : (delim == 0) ≡ false = ground (arith, h) in
    tokenize_word delim [] w (delim ∷ unwords delim ws) words.0.1
    ∙ rw (p, ==_refl delim)
        (emit_word w _ words.0.0 ∙ ap (◌∷◌ w) (tokenize-unwords delim ws h words.1))
