-- ===== src/DirVotes/Sums.antt =====
-- The counts that the programs write are the votes in the directories.
use os.Base.{
  ℕ, ◌+◌, ◌%◌, Bool, true, false, Option, some, List, [], ◌∷◌, ◌≡◌, ◌≢◌, refl, ap, ◌∙◌, ◌⊎◌, inl,
  inr, arith, All, Run, done, ◌>>=◌, if◌then◌else◌,
}
use os.Base.Shuffle.{Shuffle, Shuffle-All, Shuffle-ne-nil, Shuffle-sum_by}
use os.Text.{Text}
use os.Server.State.{Counter}
use os.Server.Count.Tally.{total}
use os.Server.Count.Merge.{total-lt}
use os.DirVotes.{
  Directory, directory, Entries, no_entry, sub_dir, has_sub_dir, behind_root, add_named,
  print_results, write_counts, read_result, file_of, leaf_file, choose_file, result_file, aggr,
}
use os.DirVotes.Chain.{add_named-ne-nil}
use os.DirVotes.Line.{add_all, read_result-line}
use os.DirVotes.Ballots.{
  IsBallot, votes_for, ballots, ballots_of, votes_in, votes_below, BoxOf, IsBox, AreBoxes, IsChain,
  IsChain-add_all, total-add_all, add_all-ne-nil, tallied, count_ballots-tallied, total-tallied,
  IsChain-tallied, tallied-ne-nil,
}

-- A result file with the counts of the votes that `votes` gives for each name.
abbrev pub Counts : (Text → ℕ) → Option Text → Type 0
Counts votes o =
    (k : Counter) × (ks : List Counter) × (o ≡ some (print_results (k ∷ ks)))
    × IsChain (k ∷ ks)
    × ((c : Text) → total c (k ∷ ks) ≡ votes c % 4294967296)

-- The chain after the sub-directories of a list of entries.
abbrev Gathers : (Text → ℕ) → Bool → List Counter → Run (List Counter) → Type 0
Gathers votes found acc r =
    (ks : List Counter) × (r ≡ done ks)
    × IsChain ks
    × ((c : Text) → total c ks ≡ (total c acc + votes c) % 4294967296)
    × ((found ≡ true) ⊎ (acc ≢ []) → ks ≢ [])

leaf_file-Counts :
    (sort : List Text → List Text) (lines : List Text)
    → Shuffle (sort lines) lines
    → lines ≢ []
    → All IsBallot lines
    → Counts (λ c. ballots c lines) (leaf_file sort (some lines))
leaf_file-Counts sort lines p n h =
    cons_of (tallied (sort lines) []) (tallied-ne-nil (sort lines) [] (inl (Shuffle-ne-nil p n)))
      (ap (λ ks. some (print_results (behind_root ks)))
        (count_ballots-tallied (sort lines) [] (Shuffle-All IsBallot p h)))
      (IsChain-tallied (sort lines) [] (Shuffle-All IsBallot p h) (tt, tt))
      (λ c.
        total-tallied c (sort lines) []
        ∙ unfold total in omega (arith, Shuffle-sum_by (votes_for c) p))
  where
    cons_of :
        (ks : List Counter)
        → ks ≢ []
        → leaf_file sort (some lines) ≡ some (print_results ks)
        → IsChain ks
        → ((c : Text) → total c ks ≡ ballots c lines % 4294967296)
        → Counts (λ c. ballots c lines) (leaf_file sort (some lines))
    cons_of [] n e g t = absurd (n refl)
    cons_of (k ∷ ks) n e g t = (k, ks, e, g, t)

-- The chain of a directory with sub-directories, written out.
written-Counts :
    (votes : Text → ℕ) (counted : Run (List Counter))
    → Gathers votes true [] counted
    → Counts votes (file_of (counted >>= write_counts))
written-Counts votes counted (ks, e, g, t, n) = rw e (cons_of ks (n (inl refl)) g t)
  where
    cons_of :
        (ks : List Counter)
        → ks ≢ []
        → IsChain ks
        → ((c : Text) → total c ks ≡ (total c [] + votes c) % 4294967296)
        → Counts votes (file_of (write_counts ks))
    cons_of [] n g t = absurd (n refl)
    cons_of (k ∷ ks) n g t =
        (k, ks, unfold print_results in refl, g, λ c. t c ∙ unfold total in omega arith)

false_ne : {A : Type 0} → false ≡ true → A
false_ne e = cc

-- One sub-directory more.
sub_dir-Gathers :
    (own below : Text → ℕ) (found : Bool) (acc : List Counter) (o : Option Text)
    (next : List Counter → Run (List Counter))
    → IsChain acc
    → Counts own o
    → ((ks : List Counter) → IsChain ks → Gathers below found ks (next ks))
    → Gathers (λ c. own c + below c) true acc (read_result o acc >>= next)
sub_dir-Gathers own below found acc o next g (k, ks, e, h, t) rest =
    let sum = add_all (k ∷ ks) acc in
    let (out, q, g', t', n) = rest sum (IsChain-add_all (k ∷ ks) acc h.0 g) in
    (
      out,
      rw (e, read_result-line k ks acc h.0) q,
      g',
      (λ c. omega (arith, t' c, t c, total-add_all c (k ∷ ks) acc)),
      λ _. n (inr (filled)),
    )
  where
    filled : add_all (k ∷ ks) acc ≢ []
    filled =
        unfold add_all in
        add_all-ne-nil ks (add_named k.name k.count acc) (add_named-ne-nil k.name k.count acc)

-- The program that the exec picks.
choose_file-Counts :
    (sort : List Text → List Text)
    → ((ls : List Text) → Shuffle (sort ls) ls)
    → (found : Bool) (votes : Option (List Text)) (below : Text → ℕ) (Below : Type 0)
    → (counted : Run (List Counter)) → BoxOf found votes Below
    → (Below → Gathers below found [] counted)
    → Counts
        (λ c. if found then below c else ballots_of c votes)
        (choose_file sort found votes counted)
choose_file-Counts sort reorders true votes below Below counted h gathers =
    written-Counts below counted (gathers h)
choose_file-Counts sort reorders false votes below Below counted (lines, e, n, h) gathers =
    rw e (leaf_file-Counts sort lines (reorders lines) n h)

-- The programs count right, on every tree of directories.
module _ (sort : List Text → List Text) (reorders : (ls : List Text) → Shuffle (sort ls) ls) where
  mutual
    unfolding result_file aggr votes_in votes_below IsBox AreBoxes

    result_file-Counts : (d : Directory) → IsBox d → Counts (λ c. votes_in c d) (result_file sort d)
    result_file-Counts (directory votes es) h =
        choose_file-Counts sort reorders (has_sub_dir es) votes (λ c. votes_below c es)
          (AreBoxes es) (aggr sort es []) h (λ boxes. aggr-Gathers es [] boxes (tt, tt))

    aggr-Gathers :
        (es : Entries) (acc : List Counter)
        → AreBoxes es
        → IsChain acc
        → Gathers (λ c. votes_below c es) (has_sub_dir es) acc (aggr sort es acc)
    aggr-Gathers no_entry acc h g = (
      acc,
      refl,
      g,
      (λ c. omega (arith, total-lt c acc)),
      λ x. elim x [ inl e ↦ absurd (false_ne e) | inr n ↦ n ],
    )
    aggr-Gathers (sub_dir d es) acc (h, hs) g =
        sub_dir-Gathers (λ c. votes_in c d) (λ c. votes_below c es) (has_sub_dir es) acc
          (result_file sort d) (aggr sort es) g (result_file-Counts d h)
          (λ ks g'. aggr-Gathers es ks hs g')

-- On every tree of directories whose leaves hold votes, the file that the programs write for it has
-- for each name the number of its votes in the leaves, as an int that has wrapped around, and has
-- each of its names once.
pub result_file_lem :
    (sort : List Text → List Text)
    → ((ls : List Text) → Shuffle (sort ls) ls)
    → (d : Directory) → IsBox d
    → Counts (λ c. votes_in c d) (result_file sort d)
result_file_lem sort reorders d h = result_file-Counts sort reorders d h
