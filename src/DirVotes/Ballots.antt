-- ===== src/DirVotes/Ballots.antt =====
-- The votes in a tree of directories, and the chain of one file of them.
use os.Base.{
  ℕ, ◌+◌, ◌<◌, Bool, true, false, Option, none, some, List, [], ◌∷◌, ◌≡◌, ◌≢◌, refl, ◌⊎◌, inl, inr,
  arith, All, if◌then◌else◌,
}
use os.Base.Word.{add_int}
use os.Base.Shuffle.{sum_by}
use os.Text.{Text, codes, text_eq, trimwhitespace}
use os.Server.State.{Counter}
use os.Server.Count.Tally.{total}
use os.Server.Count.Merge.{total-lt}
use os.DirVotes.{
  Directory, directory, Entries, no_entry, sub_dir, has_sub_dir, canidate_counter, count_ballots,
  root_node, add_named,
}
use os.DirVotes.Chain.{
  AreDistinct, total-add_named, canidate_counter-add_named, AreDistinct-add_named, All-add_named,
  add_named-ne-nil,
}
use os.DirVotes.Line.{IsName, AreEntries, add_all}

-- A line of votes.txt with a name on it.
abbrev pub IsBallot : Text → Type 0
IsBallot buf =
    IsName (trimwhitespace buf) × (text_eq (trimwhitespace buf) (codes "ROOT_NODE") ≡ false)

-- The lines that vote for a candidate.
abbrev pub votes_for : Text → Text → ℕ
votes_for c t = if text_eq (trimwhitespace t) c then 1 else 0

abbrev pub ballots : Text → List Text → ℕ
ballots c lines = sum_by (votes_for c) lines

abbrev pub ballots_of : Text → Option (List Text) → ℕ
ballots_of c none = 0
ballots_of c (some lines) = ballots c lines

-- All votes for a candidate in a directory: its own, or those of its sub-directories.
unfoldable mutual
  pub votes_in : Text → Directory → ℕ
  votes_in c (directory votes es) = if has_sub_dir es then votes_below c es else ballots_of c votes

  pub votes_below : Text → Entries → ℕ
  votes_below c no_entry = 0
  votes_below c (sub_dir d es) = votes_in c d + votes_below c es

abbrev pub BoxOf : Bool → Option (List Text) → Type 0 → Type 0
BoxOf true votes below = below
BoxOf false votes below =
    (lines : List Text) × (votes ≡ some lines) × (lines ≢ []) × All IsBallot lines

-- Every directory without sub-directories has a file of votes, with at least one.
unfoldable mutual
  pub IsBox : Directory → Type 0
  IsBox (directory votes es) = BoxOf (has_sub_dir es) votes (AreBoxes es)

  pub AreBoxes : Entries → Type 0
  AreBoxes no_entry = Unit
  AreBoxes (sub_dir d es) = IsBox d × AreBoxes es

-- A chain with names that a line can hold, each of them once.
abbrev pub IsChain : List Counter → Type 0
IsChain ks = AreEntries ks × AreDistinct ks

pub IsChain-add_named :
    (name : Text) (votes : ℕ) (ks : List Counter)
    → IsName name
    → votes < 4294967296
    → IsChain ks
    → IsChain (add_named name votes ks)
IsChain-add_named name votes ks n b (h, d) =
    (All-add_named IsName name votes ks n b h, AreDistinct-add_named name votes ks d)

pub IsChain-add_all :
    (ks acc : List Counter) → AreEntries ks → IsChain acc → IsChain (add_all ks acc)
unfolding add_all
IsChain-add_all [] acc h g = g
IsChain-add_all (k ∷ ks) acc ((n, b), hs) g =
    IsChain-add_all ks (add_named k.name k.count acc) hs
      (IsChain-add_named k.name k.count acc n b g)

pub total-add_all :
    (c : Text) (ks acc : List Counter)
    → total c (add_all ks acc) ≡ add_int (total c acc) (total c ks)
unfolding add_all total
total-add_all c [] acc = omega (arith, total-lt c acc)
total-add_all c (k ∷ ks) acc = ground (
  arith,
  total-add_all c ks (add_named k.name k.count acc),
  total-add_named c k.name k.count acc,
  total-lt c acc,
  total-lt c ks,
)

pub add_all-ne-nil : (ks acc : List Counter) → acc ≢ [] → add_all ks acc ≢ []
unfolding add_all
add_all-ne-nil [] acc h = h
add_all-ne-nil (k ∷ ks) acc h =
    add_all-ne-nil ks (add_named k.name k.count acc) (add_named-ne-nil k.name k.count acc)

-- The chain behind ROOT_NODE after a file of votes.
unfoldable pub tallied : List Text → List Counter → List Counter
tallied [] ks = ks
tallied (t ∷ ts) ks = tallied ts (add_named (trimwhitespace t) 1 ks)

pub count_ballots-tallied :
    (lines : List Text) (ks : List Counter)
    → All IsBallot lines
    → count_ballots lines (root_node ∷ ks) ≡ root_node ∷ tallied lines ks
unfolding count_ballots tallied canidate_counter
count_ballots-tallied [] ks h = refl
count_ballots-tallied (t ∷ ts) ks ((n, r), hs) =
    rw (r, canidate_counter-add_named (trimwhitespace t) ks)
      (count_ballots-tallied ts (add_named (trimwhitespace t) 1 ks) hs)

pub total-tallied :
    (c : Text) (lines : List Text) (ks : List Counter)
    → total c (tallied lines ks) ≡ add_int (total c ks) (ballots c lines)
unfolding tallied sum_by
total-tallied c [] ks = omega (arith, total-lt c ks)
total-tallied c (t ∷ ts) ks = ground (
  arith,
  total-tallied c ts (add_named (trimwhitespace t) 1 ks),
  total-add_named c (trimwhitespace t) 1 ks,
)

pub IsChain-tallied :
    (lines : List Text) (ks : List Counter)
    → All IsBallot lines
    → IsChain ks
    → IsChain (tallied lines ks)
unfolding tallied
IsChain-tallied [] ks h g = g
IsChain-tallied (t ∷ ts) ks ((n, r), hs) g =
    IsChain-tallied ts (add_named (trimwhitespace t) 1 ks) hs
      (IsChain-add_named (trimwhitespace t) 1 ks n (omega arith) g)

pub tallied-ne-nil :
    (lines : List Text) (ks : List Counter) → (lines ≢ []) ⊎ (ks ≢ []) → tallied lines ks ≢ []
unfolding tallied
tallied-ne-nil [] ks (inl h) = absurd (h refl)
tallied-ne-nil [] ks (inr h) = h
tallied-ne-nil (t ∷ ts) ks h =
    tallied-ne-nil ts (add_named (trimwhitespace t) 1 ks)
      (inr (add_named-ne-nil (trimwhitespace t) 1 ks))
