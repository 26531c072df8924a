-- ===== src/Text/Tokens.antt =====
-- makeargv.
use os.Base.{
  ℕ, Bool, true, false, none, some, [], ◌∷◌, ◌++◌, ◌≡◌, ◌≢◌, refl, ap, ◌∙◌, All, append_assoc,
  append-nil,
}
use os.Text.Defs.{Text, contains, add_token, skip_delimiters, strtok_all, makeargv}

-- makeargv fails on no string, only on a null pointer.
pub makeargv-ne-none : (s delimiters : Text) → makeargv (some s) delimiters ≢ none
unfolding makeargv
makeargv-ne-none s delimiters e = cc

-- No byte of the text is one of the delimiters.
abbrev pub IsFree : Text → Text → Type 0
IsFree delimiters t = All (λ c. contains delimiters c ≡ false) t

strtok_all-step :
    (delimiters token cs : Text) (c : ℕ) (b : Bool)
    → contains delimiters c ≡ b
    → strtok_all delimiters token (c ∷ cs) ≡ (elim b [
      | true ↦ add_token token (strtok_all delimiters [] cs)
      | false ↦ strtok_all delimiters (token ++ c ∷ []) cs
    ])
unfolding strtok_all
strtok_all-step delimiters token cs c b e =
    ap
      (λ (z : Bool). elim z [
        | true ↦ add_token token (strtok_all delimiters [] cs)
        | false ↦ strtok_all delimiters (token ++ c ∷ []) cs
      ])
      e

-- The next token, up to a delimiter.
pub strtok_all-token :
    (delimiters token t rest : Text) (c : ℕ)
    → IsFree delimiters t
    → contains delimiters c ≡ true
    → strtok_all delimiters token (t ++ c ∷ rest)
      ≡ add_token (token ++ t) (strtok_all delimiters [] rest)
strtok_all-token delimiters token [] rest c h e =
    strtok_all-step delimiters token rest c true e ∙ rw (append-nil token) refl
strtok_all-token delimiters token (d ∷ ds) rest c (h, hs) e =
    strtok_all-step delimiters token (ds ++ c ∷ rest) d false h
    ∙ strtok_all-token delimiters (token ++ d ∷ []) ds rest c hs e
    ∙ rw (append_assoc token (d ∷ []) ds) refl

-- The last token, up to the end.
pub strtok_all-free :
    (delimiters token t : Text)
    → IsFree delimiters t
    → strtok_all delimiters token t ≡ add_token (token ++ t) []
strtok_all-free delimiters token [] h = unfold strtok_all in rw (append-nil token) refl
strtok_all-free delimiters token (d ∷ ds) (h, hs) =
    strtok_all-step delimiters token ds d false h
    ∙ strtok_all-free delimiters (token ++ d ∷ []) ds hs
    ∙ rw (append_assoc token (d ∷ []) ds) refl

-- A first byte that is no delimiter.
pub skip_delimiters-free :
    (delimiters t : Text) → IsFree delimiters t → skip_delimiters delimiters t ≡ t
unfolding skip_delimiters
skip_delimiters-free delimiters [] h = refl
skip_delimiters-free delimiters (c ∷ cs) (h, hs) = rw h refl
