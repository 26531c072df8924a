-- ===== src/Client/Tally.antt =====
-- count_vote and leafcounter: the table that a file of votes leaves.
use os.Base.{
  ℕ, suc, ◌+◌, ◌<◌, ◌≤◌, false, List, [], ◌∷◌, length, ◌≡◌, refl, ◌==◌, arith, All, All-weaken,
  if◌then◌else◌, ◌∙◌, inl, inr, Bool-cases,
}
use os.Base.Word.{add_int}
use os.Text.{Text, text_eq, trim_in_place}
use os.Server.State.Find.{text_eq_iff}
use os.Client.{Row, count_name, count_vote, leafcounter}

-- The votes of a name: the number of lines that give it.
unfoldable pub occurrences : Text → List Text → ℕ
occurrences c [] = 0
occurrences c (t ∷ ts) = (if text_eq (trim_in_place t) c then 1 else 0) + occurrences c ts

-- The votes that the table holds for a name.
unfoldable pub votes_for : Text → List Row → ℕ
votes_for c [] = 0
votes_for c (r ∷ rs) = (if text_eq r.name c then r.votes else 0) + votes_for c rs

-- The rows of a table of at most `m` votes each: none of them is empty.
abbrev pub AreFilled : ℕ → List Row → Type 0
AreFilled m rs = All (λ r. (0 < r.votes) × (r.votes ≤ m)) rs

pub count_name-AreFilled :
    (m : ℕ) (name : Text) (rs : List Row)
    → suc m < 4294967296
    → AreFilled m rs
    → AreFilled (suc m) (count_name name rs)
unfolding count_name
count_name-AreFilled m name [] b h = ((omega arith, omega arith), tt)
count_name-AreFilled m name (r ∷ rs) b (h, hs) =
    rw (filled r.votes h.0) (elim (Bool-cases (text_eq r.name name)) [
      | inl same ↦ rw same (
        (omega (arith, bumped r.votes h.1), omega (arith, bumped r.votes h.1)),
        All-weaken rs (λ s. wider s.votes) hs,
      )
      | inr other ↦ rw other (wider r.votes h, count_name-AreFilled m name rs b hs)
    ])
  where
    filled : (v : ℕ) → 0 < v → (v == 0) ≡ false
    filled v p = ground arith

    bumped : (v : ℕ) → v ≤ m → add_int v 1 ≡ v + 1
    bumped v p = omega arith

    wider : (v : ℕ) → (0 < v) × (v ≤ m) → (0 < v) × (v ≤ suc m)
    wider v p = (p.0, omega (arith, p.1))

count_name-votes_for :
    (c name : Text) (m : ℕ) (rs : List Row)
    → suc m < 4294967296
    → AreFilled m rs
    → votes_for c (count_name name rs) ≡ (if text_eq name c then 1 else 0) + votes_for c rs
unfolding count_name votes_for
count_name-votes_for c name m [] b h = refl
count_name-votes_for c name m (r ∷ rs) b (h, hs) =
    ground (arith, count_name-votes_for c name m rs b hs, text_eq_iff r.name name)

leafcounter-AreFilled :
    (c : Text) (m : ℕ) (lines : List Text) (rs : List Row)
    → m + length lines < 4294967296
    → AreFilled m rs
    → votes_for c (leafcounter lines rs) ≡ occurrences c lines + votes_for c rs
unfolding leafcounter occurrences
leafcounter-AreFilled c m [] rs b h = omega arith
leafcounter-AreFilled c m (t ∷ ts) rs b h = omega (
  arith,
  leafcounter-AreFilled c (suc m) ts (count_vote t rs) (omega arith)
      (count_name-AreFilled m (trim_in_place t) rs (omega arith) h),
  count_name-votes_for c (trim_in_place t) m rs (omega arith) h,
)

-- A file of fewer than 2^32 votes, counted into an empty table, leaves for each name as many votes
-- as lines of the file give it.
pub leafcounter_lem :
    (c : Text) (lines : List Text)
    → length lines < 4294967296
    → votes_for c (leafcounter lines []) ≡ occurrences c lines
leafcounter_lem c lines b =
    leafcounter-AreFilled c 0 lines [] (omega (arith, b)) tt ∙ unfold votes_for in omega arith
