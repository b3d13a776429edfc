-- ===== src/Cli/Split.antt =====
-- What `tokenize` finds, described by a split at every delimiter.
use replicated_splinterdb.Base.{
  ℕ, ◌≡◌, refl, sym, ap, ◌∙◌, Bool-cases, inl, inr, List, [], ◌∷◌, ◌++◌, append-nil, append_assoc,
  ◌==◌, if◌then◌else◌,
}
use replicated_splinterdb.Nuraft.{Bytes}
use replicated_splinterdb.Cli.{emit, tokenize_from, tokenize}

-- The characters of a string up to its first zero byte.
abbrev pub c_string : Bytes → Bytes
c_string [] = []
c_string (c ∷ str) = if c == 0 then [] else c ∷ c_string str

-- A prefix of the first piece.
abbrev pub prepend : Bytes → List Bytes → List Bytes
prepend token [] = token ∷ []
prepend token (w ∷ ws) = (token ++ w) ∷ ws

-- The pieces between the delimiters, empty ones too.
abbrev pub pieces : ℕ → Bytes → List Bytes
pieces delim [] = [] ∷ []
pieces delim (c ∷ str) =
    if c == delim then [] ∷ pieces delim str else prepend (c ∷ []) (pieces delim str)

abbrev pub keep_words : List Bytes → List Bytes
keep_words [] = []
keep_words ([] ∷ ws) = keep_words ws
keep_words ((c ∷ w) ∷ ws) = (c ∷ w) ∷ keep_words ws

emit-keep_words :
    (token : Bytes) (ws : List Bytes) → emit token (keep_words ws) ≡ keep_words (token ∷ ws)
unfolding emit
emit-keep_words [] ws = refl
emit-keep_words (c ∷ token) ws = refl

prepend-prepend : (s t : Bytes) (ws : List Bytes) → prepend s (prepend t ws) ≡ prepend (s ++ t) ws
prepend-prepend s t [] = refl
prepend-prepend s t (w ∷ ws) = ap (λ x. x ∷ ws) (sym (append_assoc s t w))

prepend-nil : (delim : ℕ) (str : Bytes) → prepend [] (pieces delim str) ≡ pieces delim str
prepend-nil delim [] = refl
prepend-nil delim (c ∷ str) = elim (Bool-cases (c == delim)) [
  | inl split ↦ rw split
  | inr letter ↦ rw letter (prepend-prepend [] (c ∷ []) (pieces delim str))
]

tokenize_from_lem :
    (delim : ℕ) (token str : Bytes)
    → tokenize_from delim token str ≡ keep_words (prepend token (pieces delim (c_string str)))
unfolding tokenize_from
tokenize_from_lem delim token [] =
    emit-keep_words token [] ∙ ap (λ t. keep_words (t ∷ [])) (sym (append-nil token))
tokenize_from_lem delim token (c ∷ str) = elim (Bool-cases (c == 0)) [
  | inl ends ↦
      rw ends (emit-keep_words token [] ∙ ap (λ t. keep_words (t ∷ [])) (sym (append-nil token)))
  | inr more ↦ elim (Bool-cases (c == delim)) [
    | inl split ↦
        rw (more, split)
          (ap (emit token)
              (tokenize_from_lem delim [] str ∙ ap keep_words (prepend-nil delim (c_string str)))
            ∙ emit-keep_words token (pieces delim (c_string str))
            ∙ ap (λ t. keep_words (t ∷ pieces delim (c_string str))) (sym (append-nil token)))
    | inr letter ↦
        rw (more, letter)
          (tokenize_from_lem delim (token ++ c ∷ []) str
            ∙ ap keep_words (sym (prepend-prepend token (c ∷ []) (pieces delim (c_string str)))))
  ]
]

-- For every string and delimiter, `tokenize` gives the pieces between the delimiters of the string
-- up to its first zero byte, in order and without the empty ones.
pub tokenize_lem :
    (delim : ℕ) (str : Bytes) → tokenize delim str ≡ keep_words (pieces delim (c_string str))
unfolding tokenize
tokenize_lem delim str =
    tokenize_from_lem delim [] str ∙ ap keep_words (prepend-nil delim (c_string str))
