-- ===== src/VoteCounter/Files/Winner.antt =====
-- findwinner picks a candidate of the root's file that no other one has more votes than.
use os.Base.{
  ℕ, suc, ◌≤◌, ◌<◌, some, List, [], ◌∷◌, ◌++◌, map, get_elem?, done, ◌≡◌, ◌≢◌, ◌⊎◌, inl, inr, refl,
  ap, All, arith, Returns, Bool-cases, subst, sym, All-weaken,
}
use os.Base.Word.{sign_bit, lt_int}
use os.Text.{Text, codes}
use os.Text.Fields.{IsField}
use os.Text.Numbers.{atoi-numeral}
use os.VoteCounter.Paths.{DirNode}
use os.VoteCounter.Files.{Candidate, OutFile, open_file, count_line, better, winner_of, findwinner}
use os.VoteCounter.Files.Merge.{makeargv-count_line}
use os.VoteCounter.Files.Climb.{open_file-write_self, open_file-write_other}

champion : Candidate → List Candidate → Candidate
champion best [] = best
champion best (k ∷ ks) = champion (better best k.name k.count) ks

-- Lines that the programs write, with counts that are not negative.
abbrev pub AreCounts : List Candidate → Type 0
AreCounts ks = All (λ k. IsField b':' k.name × (k.count < sign_bit)) ks

winner_of-lines :
    (best : Candidate) (ks : List Candidate)
    → AreCounts ks
    → winner_of best (map count_line ks) ≡ done (champion best ks)
unfolding winner_of champion
winner_of-lines best [] h = refl
winner_of-lines best (k ∷ ks) ((f, b), hs) =
    rw (makeargv-count_line k f, atoi-numeral k.count (omega arith))
      (winner_of-lines (better best k.name k.count) ks hs)

-- A positive count that none exceeds, or nobody where all are zero.
abbrev pub IsWinner : List Candidate → Text → Type 0
IsWinner ks name =
    ((i : ℕ) × (k : Candidate) × (get_elem? ks i ≡ some k)
      × (k.name ≡ name)
      × (0 < k.count)
      × All (λ c. c.count ≤ k.count) ks)
    ⊎ ((name ≡ []) × All (λ c. c.count ≡ 0) ks)

abbrev Champion : Candidate → List Candidate → Candidate → Type 0
Champion best ks w =
    (best.count ≤ w.count)
    × (w.count < sign_bit)
    × All (λ c. c.count ≤ w.count) ks
    × ((w ≡ best) ⊎ ((i : ℕ) × (get_elem? ks i ≡ some w) × (best.count < w.count)))

better-cases :
    (best k : Candidate)
    → best.count < sign_bit
    → k.count < sign_bit
    → ((better best k.name k.count ≡ k) × (best.count < k.count))
      ⊎ ((better best k.name k.count ≡ best) × (k.count ≤ best.count))
better-cases best k b c = elim (Bool-cases (lt_int best.count k.count)) [
  | inl less ↦ inl (rw less refl, ground arith)
  | inr not_less ↦ inr (rw not_less refl, ground arith)
]

champion-Champion :
    (best : Candidate) (ks : List Candidate)
    → best.count < sign_bit
    → AreCounts ks
    → Champion best ks (champion best ks)
unfolding champion
champion-Champion best [] b h = (omega arith, b, tt, inl refl)
champion-Champion best (k ∷ ks) b ((f, c), hs) =
    by_case (champion-Champion k ks c hs) (champion-Champion best ks b hs) (better-cases best k b c)
  where
    from_here :
        (w : Candidate)
        → best.count < k.count
        → (w ≡ k) ⊎ ((i : ℕ) × (get_elem? ks i ≡ some w) × (k.count < w.count))
        → (i : ℕ) × (get_elem? (k ∷ ks) i ≡ some w) × (best.count < w.count)
    from_here w l (inl e) = (0, cc, subst (λ v. best.count < v.count) (sym e) l)
    from_here w l (inr (i, g, m)) = (suc i, g, omega (arith, l, m))

    from_best :
        (w : Candidate)
        → (w ≡ best) ⊎ ((i : ℕ) × (get_elem? ks i ≡ some w) × (best.count < w.count))
        → (w ≡ best) ⊎ ((i : ℕ) × (get_elem? (k ∷ ks) i ≡ some w) × (best.count < w.count))
    from_best w (inl e) = inl e
    from_best w (inr (i, g, m)) = inr (suc i, g, m)

    by_case :
        Champion k ks (champion k ks)
        → Champion best ks (champion best ks)
        → ((better best k.name k.count ≡ k) × (best.count < k.count))
          ⊎ ((better best k.name k.count ≡ best) × (k.count ≤ best.count))
        → Champion best (k ∷ ks) (champion (better best k.name k.count) ks)
    by_case r s (inl (e, l)) =
        subst (λ v. Champion best (k ∷ ks) (champion v ks)) (sym e)
          (omega (arith, r.0, l), r.1, (r.0, r.2), inr (from_here (champion k ks) l r.3))
    by_case r s (inr (e, l)) =
        subst (λ v. Champion best (k ∷ ks) (champion v ks)) (sym e)
          (s.0, s.1, (omega (arith, s.0, l), s.2), from_best (champion best ks) s.3)

abbrev nobody : Candidate
nobody = record { name = []; count = 0 }

Champion-IsWinner :
    (ks : List Candidate) (w : Candidate) → Champion nobody ks w → IsWinner ks w.name
Champion-IsWinner ks w (a, b, most, inl e) =
    inr (ap (λ v. v.name) e, All-weaken ks (λ c l. omega (arith, ap (λ v. v.count) e)) most)
Champion-IsWinner ks w (a, b, most, inr (i, g, l)) = inl (i, w, g, refl, l, most)

abbrev pub file_of : DirNode → Text
file_of root = root.path ++ b'/' ∷ root.name ++ codes ".txt"

-- Where the root's file holds counters, each with a name that has no colon and a count below 2^31,
-- findwinner returns, the file gets one more line, WINNER: and the name of a counter with a positive
-- count that no other one exceeds, or no name if all counts are zero, and no other file changes.
pub findwinner_lem :
    (root : DirNode) (ks : List Candidate) (fs : List OutFile) (other : Text)
    → open_file (file_of root) fs ≡ some (map count_line ks)
    → AreCounts ks
    → file_of root ≢ other
    → Returns
        (λ fs'.
          ((name : Text) × IsWinner ks name
            × (open_file (file_of root) fs'
                ≡ some (map count_line ks ++ (codes "WINNER:" ++ name ++ 10 ∷ []) ∷ [])))
          × (open_file other fs' ≡ open_file other fs))
        (findwinner root fs)
unfolding findwinner
findwinner_lem root ks fs other o h ne =
    let w = champion nobody ks in
    let lines = map count_line ks ++ (codes "WINNER:" ++ w.name ++ 10 ∷ []) ∷ [] in
    rw (o, winner_of-lines nobody ks h)
      (
        (
          w.name,
          Champion-IsWinner ks w (champion-Champion nobody ks (omega arith) h),
          open_file-write_self (file_of root) lines fs,
        ),
        open_file-write_other (file_of root) other lines fs ne,
      )
