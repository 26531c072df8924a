-- ===== src/Client/Pairs.antt =====
-- What stands in the pairs of a table, and how the server splits them.
use os.Base.{ℕ, some, List, [], ◌∷◌, map, ◌≡◌, ◌≢◌, refl, All, All-append, All-weaken}
use os.Text.{codes, contains, makeargv, show_int}
use os.Text.Tokens.{IsFree}
use os.Text.Numbers.{show_int-ne-nil}
use os.Text.Plain.{IsPlain, show_int-IsFree, show_int-IsPlain, append-ne-nil}
use os.Text.Fields.{join, IsField, makeargv-join, join-All}
use os.Client.{Row}
use os.Client.Rows.{IsCandidateByte, IsCandidate, AreCandidates, row_text}

row_text-All :
    (P : ℕ → Type 0) (r : Row)
    → All P r.name
    → P b':'
    → All P (show_int r.votes)
    → All P (row_text r)
row_text-All P r h p k = All-append P r.name (b':' ∷ show_int r.votes) h (p, k)

rows-All :
    (P : ℕ → Type 0) (rs : List Row)
    → ((c : ℕ) → IsCandidateByte c → P c)
    → P b':'
    → ((v : ℕ) → All P (show_int v))
    → AreCandidates rs
    → All (All P) (map row_text rs)
rows-All P [] k p q h = tt
rows-All P (r ∷ rs) k p q ((n, h), hs) =
    (row_text-All P r (All-weaken r.name k h) p (q r.votes), rows-All P rs k p q hs)

-- Neither blanks nor semicolons stand in the pairs.
pub rows-IsPlain : (rs : List Row) → AreCandidates rs → IsPlain (join b',' (map row_text rs))
rows-IsPlain rs h =
    join-All _ b',' (map row_text rs) refl (rows-All _ rs (λ c q. q.0) refl show_int-IsPlain h)

pub rows-IsFree :
    (rs : List Row) → AreCandidates rs → IsFree (codes ";") (join b',' (map row_text rs))
rows-IsFree rs h = join-All _ b',' (map row_text rs) (unfold contains in refl) (
    rows-All _ rs (λ c q. q.3) (unfold contains in refl)
      (λ v. show_int-IsFree b';' v refl (unfold contains in refl)) h)

pub rows-IsField : (rs : List Row) → AreCandidates rs → All (IsField b',') (map row_text rs)
rows-IsField [] h = tt
rows-IsField (r ∷ rs) ((n, h), hs) = (
  (
    row_text-All _ r (All-weaken r.name (λ c q. q.1) h) (unfold contains in refl)
        (show_int-IsFree b',' r.votes refl (unfold contains in refl)),
    append-ne-nil r.name (b':' ∷ show_int r.votes) n,
  ),
  rows-IsField rs hs,
)

-- A pair is read as its name and its count.
pub makeargv-row :
    (r : Row)
    → IsCandidate r.name
    → makeargv (some (row_text r)) (codes ":") ≡ some (r.name ∷ show_int r.votes ∷ [])
makeargv-row r (n, h) = makeargv-join b':' (r.name ∷ show_int r.votes ∷ []) (
  (All-weaken r.name (λ c q. q.2) h, n),
  ((show_int-IsFree b':' r.votes refl (unfold contains in refl), show_int-ne-nil r.votes), tt),
)

pub rows-ne-nil :
    (r : Row) (rs : List Row) → AreCandidates (r ∷ rs) → join b',' (map row_text (r ∷ rs)) ≢ []
rows-ne-nil r [] h = append-ne-nil r.name (b':' ∷ show_int r.votes) h.0.0
rows-ne-nil r (s ∷ rs) h =
    append-ne-nil (row_text r) (b',' ∷ join b',' (map row_text (s ∷ rs)))
      (append-ne-nil r.name (b':' ∷ show_int r.votes) h.0.0)
