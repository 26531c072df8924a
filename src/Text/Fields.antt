-- ===== src/Text/Fields.antt =====
-- makeargv reads back fields that were joined by a delimiter.
use os.Base.{ℕ, true, some, List, [], ◌∷◌, ◌++◌, ◌≡◌, ◌≢◌, refl, ap, ◌∙◌, All, All-append, arith}
use os.Text.Defs.{Text, contains, skip_delimiters, add_token, strtok_all, makeargv}
use os.Text.Tokens.{IsFree, strtok_all-token, strtok_all-free, skip_delimiters-free}

-- The fields with a delimiter between them.
abbrev pub join : ℕ → List Text → Text
join d [] = []
join d (t ∷ []) = t
join d (t ∷ u ∷ us) = t ++ d ∷ join d (u ∷ us)

-- A field has a byte, and none that is the delimiter.
abbrev pub IsField : ℕ → Text → Type 0
IsField d t = IsFree (d ∷ []) t × (t ≢ [])

add_token-field : (t : Text) (ts : List Text) → t ≢ [] → add_token t ts ≡ t ∷ ts
add_token-field [] ts h = absurd (h refl)
add_token-field (c ∷ cs) ts h = refl

contains_self : (d : ℕ) → contains (d ∷ []) d ≡ true
unfolding contains
contains_self d = ground arith

strtok_all-join :
    (d : ℕ) (ts : List Text) → All (IsField d) ts → strtok_all (d ∷ []) [] (join d ts) ≡ ts
strtok_all-join d [] h = unfold strtok_all in refl
strtok_all-join d (t ∷ []) ((f, n), h) = strtok_all-free (d ∷ []) [] t f ∙ add_token-field t [] n
strtok_all-join d (t ∷ u ∷ us) ((f, n), h) =
    strtok_all-token (d ∷ []) [] t (join d (u ∷ us)) d f (contains_self d)
    ∙ rw (strtok_all-join d (u ∷ us) h) (add_token-field t (u ∷ us) n)

skip_delimiters-join :
    (d : ℕ) (ts : List Text) → All (IsField d) ts → skip_delimiters (d ∷ []) (join d ts) ≡ join d ts
skip_delimiters-join d [] h = unfold skip_delimiters in refl
skip_delimiters-join d (t ∷ []) ((f, n), h) = skip_delimiters-free (d ∷ []) t f
skip_delimiters-join d ([] ∷ u ∷ us) ((f, n), h) = absurd (n refl)
skip_delimiters-join d ((c ∷ cs) ∷ u ∷ us) (((f, _), n), h) = unfold skip_delimiters in rw f refl

-- Fields joined by a delimiter are the tokens of the joined text.
pub makeargv-join :
    (d : ℕ) (ts : List Text) → All (IsField d) ts → makeargv (some (join d ts)) (d ∷ []) ≡ some ts
unfolding makeargv
makeargv-join d ts h = rw (skip_delimiters-join d ts h) (ap some (strtok_all-join d ts h))

pub join-All : (P : ℕ → Type 0) (d : ℕ) (ts : List Text) → P d → All (All P) ts → All P (join d ts)
join-All P d [] p h = tt
join-All P d (t ∷ []) p (h, hs) = h
join-All P d (t ∷ u ∷ us) p (h, hs) =
    All-append P t (d ∷ join d (u ∷ us)) h (p, join-All P d (u ∷ us) p hs)
