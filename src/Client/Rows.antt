-- ===== src/Client/Rows.antt =====
-- The table of votes as it stands in a request: pairs `name:votes` with commas between them.
use os.Base.{
  subst, ℕ, suc, ◌+◌, ◌<◌, false, List, [], ◌∷◌, ◌++◌, length, map, ◌≡◌, ◌≢◌, refl, sym, ap, ◌∙◌,
  inl, inr, arith, All, All-weaken, append_assoc, Bool-cases, replicate, done, ◌==◌,
}
use os.Text.{Text, codes, text_eq, is_space, contains, trim_in_place, show_int}
use os.Text.Fields.{join}
use os.Client.{
  Row, Client, count_name, count_vote, leafcounter, votes_text, cap_req, drop_last, longer,
  clear_votes, clear_name, cap_votes, print_file_into_data,
}
use os.Client.Tally.{AreFilled, count_name-AreFilled}

-- A byte of a candidate's name: no blank and none of the three delimiters.
abbrev pub IsCandidateByte : ℕ → Type 0
IsCandidateByte c =
    (is_space c ≡ false)
    × (contains (codes ",") c ≡ false)
    × (contains (codes ":") c ≡ false)
    × (contains (codes ";") c ≡ false)

abbrev pub IsCandidate : Text → Type 0
IsCandidate t = (t ≢ []) × All IsCandidateByte t

abbrev pub AreCandidates : List Row → Type 0
AreCandidates rs = All (λ r. IsCandidate r.name) rs

-- The lines of a file of votes, each with a name on it.
abbrev pub AreVotes : List Text → Type 0
AreVotes lines = All (λ t. IsCandidate (trim_in_place t)) lines

count_name-AreCandidates :
    (name : Text) (rs : List Row)
    → IsCandidate name
    → AreCandidates rs
    → AreCandidates (count_name name rs)
unfolding count_name
count_name-AreCandidates name [] n h = (n, tt)
count_name-AreCandidates name (r ∷ rs) n (h, hs) = elim (Bool-cases (r.votes == 0)) [
  | inl free ↦ rw free (n, hs)
  | inr taken ↦ elim (Bool-cases (text_eq r.name name)) [
    | inl same ↦ rw (taken, same) (h, hs)
    | inr other ↦ rw (taken, other) (h, count_name-AreCandidates name rs n hs)
  ]
]

pub leafcounter-AreCandidates :
    (lines : List Text) (rs : List Row)
    → AreVotes lines
    → AreCandidates rs
    → AreCandidates (leafcounter lines rs)
unfolding leafcounter
leafcounter-AreCandidates [] rs h k = k
leafcounter-AreCandidates (t ∷ ts) rs (h, hs) k =
    leafcounter-AreCandidates ts (count_vote t rs) hs
      (count_name-AreCandidates (trim_in_place t) rs h k)

pub leafcounter-Filled :
    (m : ℕ) (lines : List Text) (rs : List Row)
    → m + length lines < 4294967296
    → AreFilled m rs
    → AreFilled (m + length lines) (leafcounter lines rs)
unfolding leafcounter
leafcounter-Filled m [] rs b h = All-weaken rs (λ r p. (p.0, omega (arith, p.1))) h
leafcounter-Filled m (t ∷ ts) rs b h =
    All-weaken (leafcounter ts (count_vote t rs)) (λ r p. (p.0, omega (arith, p.1)))
      (leafcounter-Filled (suc m) ts (count_vote t rs) (omega arith)
        (count_name-AreFilled m (trim_in_place t) rs (omega arith) h))

-- The table of a file.
pub table-AreFilled :
    (lines : List Text)
    → length lines < 4294967296
    → AreFilled (length lines) (leafcounter lines [])
table-AreFilled lines b =
    subst (λ m. AreFilled m (leafcounter lines [])) (zero_add (length lines))
      (leafcounter-Filled 0 lines [] (omega arith) tt)
  where
    zero_add : (m : ℕ) → 0 + m ≡ m
    zero_add m = omega arith

count_name-ne-nil : (name : Text) (rs : List Row) → count_name name rs ≢ []
unfolding count_name
count_name-ne-nil name [] e = cc
count_name-ne-nil name (r ∷ rs) e = ground arith

leafcounter-keeps : (lines : List Text) (rs : List Row) → rs ≢ [] → leafcounter lines rs ≢ []
unfolding leafcounter
leafcounter-keeps [] rs h = h
leafcounter-keeps (t ∷ ts) rs h =
    leafcounter-keeps ts (count_vote t rs) (count_name-ne-nil (trim_in_place t) rs)

pub leafcounter-ne-nil : (lines : List Text) → lines ≢ [] → leafcounter lines [] ≢ []
unfolding leafcounter
leafcounter-ne-nil [] h = absurd (h refl)
leafcounter-ne-nil (t ∷ ts) h =
    leafcounter-keeps ts (count_vote t []) (count_name-ne-nil (trim_in_place t) [])

abbrev pub row_text : Row → Text
row_text r = r.name ++ b':' ∷ show_int r.votes

drop_last-append : (t : Text) (c : ℕ) → drop_last (t ++ c ∷ []) ≡ t
drop_last-append [] c = refl
drop_last-append (d ∷ []) c = refl
drop_last-append (d ∷ e ∷ es) c = ap (λ u. d ∷ u) (drop_last-append (e ∷ es) c)

votes_text-cons :
    (r : Row) (rs : List Row)
    → 0 < r.votes
    → votes_text (r ∷ rs) ≡ row_text r ++ b',' ∷ votes_text rs
unfolding votes_text
votes_text-cons r rs h = rw (filled r.votes h) refl
  where
    filled : (v : ℕ) → 0 < v → (v == 0) ≡ false
    filled v p = ground arith

-- Each row in the text has a comma behind it.
pub votes_text-join :
    (m : ℕ) (r : Row) (rs : List Row)
    → AreFilled m (r ∷ rs)
    → votes_text (r ∷ rs) ≡ join b',' (map row_text (r ∷ rs)) ++ b',' ∷ []
votes_text-join m r [] (h, hs) = votes_text-cons r [] h.0 ∙ unfold votes_text in refl
votes_text-join m r (s ∷ rs) (h, hs) =
    votes_text-cons r (s ∷ rs) h.0
    ∙ ap (λ t. row_text r ++ b',' ∷ t) (votes_text-join m s rs hs)
    ∙ sym (append_assoc (row_text r) (b',' ∷ join b',' (map row_text (s ∷ rs))) (b',' ∷ []))

without_comma : (code t : Text) → drop_last (code ++ (t ++ b',' ∷ [])) ≡ code ++ t
without_comma code t =
    ap drop_last (sym (append_assoc code t (b',' ∷ []))) ∙ drop_last-append (code ++ t) b','

append_ne_nil : (t : Text) (c : ℕ) → t ++ c ∷ [] ≢ []
append_ne_nil [] c e = cc
append_ne_nil (d ∷ ds) c e = cc

-- The request that goes out for the text of a table.
cap_votes-some :
    (code : Text) (c : Client) (t : Text)
    → t ≢ []
    → (c' : Client) × (blanks : ℕ) × (cap_votes code c t
        ≡ done (c', drop_last (code ++ t) ++ 32 ∷ replicate blanks 32))
unfolding cap_req
cap_votes-some code c [] n = absurd (n refl)
cap_votes-some code c (d ∷ ds) n =
    let full = drop_last (code ++ d ∷ ds) ++ codes "      " in
    let max_data = longer c.max_data (length full) in
    let c' : Client = record { rows = clear_name (clear_votes 1024 c.rows); max_data = max_data } in
    (
      c',
      suc (suc (suc (suc (suc max_data)))),
      ap (λ u. done (c', u))
          (append_assoc (drop_last (code ++ d ∷ ds)) (codes "      ") (replicate max_data 32)),
    )

pub print_file_into_data-join :
    (m : ℕ) (code : Text) (c : Client)
    → c.rows ≢ []
    → AreFilled m c.rows
    → (c' : Client) × (blanks : ℕ) × (print_file_into_data code c
        ≡ done (c', (code ++ join b',' (map row_text c.rows)) ++ 32 ∷ replicate blanks 32))
print_file_into_data-join m code c n h = of_rows c.rows refl n h
  where
    of_rows :
        (rs : List Row)
        → c.rows ≡ rs
        → rs ≢ []
        → AreFilled m rs
        → (c' : Client) × (blanks : ℕ) × (print_file_into_data code c
            ≡ done (c', (code ++ join b',' (map row_text rs)) ++ 32 ∷ replicate blanks 32))
    of_rows [] e n h = absurd (n refl)
    of_rows (r ∷ rs) e n h =
        let t = join b',' (map row_text (r ∷ rs)) in
        let (c', blanks, q) = cap_votes-some code c (t ++ b',' ∷ []) (append_ne_nil t b',') in
        (
          c',
          blanks,
          unfold print_file_into_data in
              ap (λ l. cap_votes code c (votes_text l)) e
              ∙ ap (λ t. cap_votes code c t) (votes_text-join m r rs h)
              ∙ q
              ∙ ap (λ u. done (c', u ++ 32 ∷ replicate blanks 32)) (without_comma code t),
        )
