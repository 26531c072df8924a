-- ===== src/VoteCounter/Files/Merge.antt =====
-- One level of aggregate: the votes of a leaf's lines, and the parent's file with them added.
use os.Base.{
  ℕ, suc, ◌≤◌, ◌<◌, false, Option, none, some, List, [], ◌∷◌, ◌++◌, length, map, ◌==◌,
  if◌then◌else◌, done, ◌≡◌, ◌≢◌, refl, ◌∙◌, All, arith, append-nil, length-append, Bool-cases, inl,
  inr,
}
use os.Base.Word.{modulus, add_int}
use os.Text.{Text, codes, text_eq, makeargv, show_int, trimlastenter, contains}
use os.Text.Trim.{trimlastenter-append}
use os.Text.Fields.{IsField, makeargv-join}
use os.Text.Numbers.{atoi-numeral, show_int-ne-nil}
use os.Text.Plain.{show_int-IsFree}
use os.Server.State.Find.{text_eq_iff}
use os.VoteCounter.Files.{
  Candidate, has_candidate, count_if_named, count_letter, count_lines, count_line, increment_of,
  updated, merged_lines,
}

-- What aggregate makes of a counter of the parent's file.
abbrev pub raised : List Candidate → Candidate → Candidate
raised ks k = record k { count = add_int k.count (increment_of k.name ks) }

abbrev pub merged : List Candidate → Option (List Candidate) → List Candidate
merged ks none = ks
merged ks (some old) = map (raised ks) old

-- The lines of a file of counters, if there is a file.
abbrev pub shown : Option (List Candidate) → Option (List Text)
shown none = none
shown (some old) = some (map count_line old)

-- The counters of a file that can be read back.
abbrev pub AreLines : Option (List Candidate) → Type 0
AreLines none = Unit {0}
AreLines (some old) = All (λ k. IsField b':' k.name × (k.count < modulus)) old

trimlastenter-count_line :
    (k : Candidate) → trimlastenter (count_line k) ≡ k.name ++ b':' ∷ show_int k.count
unfolding trimlastenter
trimlastenter-count_line k =
    trimlastenter-append (k.name ++ b':' ∷ show_int k.count) [] 10 ∙ append-nil _

-- A line that was written is read as its name and its numeral.
pub makeargv-count_line :
    (k : Candidate)
    → IsField b':' k.name
    → makeargv (some (trimlastenter (count_line k))) (codes ":")
      ≡ some (k.name ∷ show_int k.count ∷ [])
makeargv-count_line k f = rw (trimlastenter-count_line k) (
    makeargv-join b':' (k.name ∷ show_int k.count ∷ []) (
      f,
      ((show_int-IsFree b':' k.count refl (unfold contains in refl), show_int-ne-nil k.count), tt),
    ))

updated-lines :
    (ks old : List Candidate)
    → AreLines (some old)
    → updated ks (map count_line old) ≡ done (map (raised ks) old)
unfolding updated
updated-lines ks [] h = refl
updated-lines ks (k ∷ old) ((f, b), hs) =
    rw (makeargv-count_line k f, atoi-numeral k.count b, updated-lines ks old hs) refl

pub merged_lines_lem :
    (ks : List Candidate) (old : Option (List Candidate))
    → AreLines old
    → merged_lines ks (shown old) ≡ done (map count_line (merged ks old))
merged_lines_lem ks none h = refl
merged_lines_lem ks (some old) h = rw (updated-lines ks old h) refl

-- A line of counts has more than two bytes, so it is no vote.
count_line-length : (k : Candidate) → (length (count_line k) == 2) ≡ false
count_line-length k = ground (
  arith,
  length-append (k.name ++ b':' ∷ show_int k.count) (10 ∷ []),
  length-append k.name (b':' ∷ show_int k.count),
  positive (show_int k.count) (show_int-ne-nil k.count),
)
  where
    positive : (t : Text) → t ≢ [] → 0 < length t
    positive [] h = absurd (h refl)
    positive (c ∷ cs) h = omega arith

pub count_lines-counted : (cs ks : List Candidate) → count_lines (map count_line cs) ks ≡ ks
unfolding count_lines
count_lines-counted [] ks = refl
count_lines-counted (c ∷ cs) ks = rw (count_line-length c) (count_lines-counted cs ks)

-- The lines that vote for a candidate.
unfoldable pub votes_for : Text → List Text → ℕ
votes_for name [] = 0
votes_for name (l ∷ ls) =
    let rest = votes_for name ls in
    if length l == 2 then (if text_eq (trimlastenter l) name then suc rest else rest) else rest

increment_of-absent :
    (name : Text) (ks : List Candidate) → has_candidate name ks ≡ false → increment_of name ks ≡ 0
unfolding has_candidate increment_of
increment_of-absent name [] h = refl
increment_of-absent name (k ∷ ks) h = ground (arith, increment_of-absent name ks)

increment_of-map :
    (name vote : Text) (ks : List Candidate)
    → increment_of name (map (count_if_named vote) ks) ≡ (
        if has_candidate name ks
        then (if text_eq vote name then add_int (increment_of name ks) 1 else increment_of name ks)
        else 0)
unfolding has_candidate increment_of
increment_of-map name vote [] = refl
increment_of-map name vote (k ∷ ks) = ground (
  arith,
  text_eq_iff k.name name,
  text_eq_iff k.name vote,
  text_eq_iff vote name,
  increment_of-map name vote ks,
)

increment_of-append :
    (name vote : Text) (ks : List Candidate)
    → has_candidate vote ks ≡ false
    → increment_of name (ks ++ record { name = vote; count = 1 } ∷ [])
      ≡ (if text_eq vote name then 1 else increment_of name ks)
unfolding has_candidate increment_of
increment_of-append name vote [] h = refl
increment_of-append name vote (k ∷ ks) h = ground (
  arith,
  text_eq_iff k.name name,
  text_eq_iff k.name vote,
  text_eq_iff vote name,
  increment_of-append name vote ks,
)

increment_of-count_letter :
    (name vote : Text) (ks : List Candidate)
    → increment_of name (count_letter vote ks)
      ≡ (if text_eq vote name then add_int (increment_of name ks) 1 else increment_of name ks)
increment_of-count_letter name vote ks = elim (Bool-cases (has_candidate vote ks)) [
  | inl old ↦ rw old (
      ground
        (arith, increment_of-map name vote ks, increment_of-absent name ks, text_eq_iff vote name))
  | inr fresh ↦ rw fresh (
      ground (
        arith,
        increment_of-append name vote ks fresh,
        increment_of-absent name ks,
        text_eq_iff vote name,
      ))
]

-- The counters of a leaf hold its votes, as ints.
pub increment_of-count_lines :
    (name : Text) (lines : List Text) (ks : List Candidate)
    → increment_of name ks < modulus
    → increment_of name (count_lines lines ks)
      ≡ add_int (increment_of name ks) (votes_for name lines)
unfolding count_lines votes_for
increment_of-count_lines name [] ks h = omega arith
increment_of-count_lines name (l ∷ ls) ks h = ground (
  arith,
  increment_of-count_lines name ls ks h,
  increment_of-count_lines name ls (count_letter (trimlastenter l) ks),
  increment_of-count_letter name (trimlastenter l) ks,
)

votes_for-le : (name : Text) (lines : List Text) → votes_for name lines ≤ length lines
unfolding votes_for
votes_for-le name [] = omega arith
votes_for-le name (l ∷ ls) = ground (arith, votes_for-le name ls)

pub increment_of-leaf :
    (name : Text) (lines : List Text)
    → length lines < modulus
    → increment_of name (count_lines lines []) ≡ votes_for name lines
unfolding increment_of
increment_of-leaf name lines h =
    increment_of-count_lines name lines [] (omega arith) ∙ omega (arith, votes_for-le name lines)
