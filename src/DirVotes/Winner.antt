-- ===== src/DirVotes/Winner.antt =====
-- Vote_Counter on the line that the programs below it have written: it prints a candidate with the
-- most votes.
use os.Base.{
  ℕ, ◌<◌, ◌≤◌, true, false, some, List, [], ◌∷◌, ◌++◌, map, ◌≡◌, ◌≢◌, refl, sym, ap, subst, ◌∙◌,
  inl, inr, arith, All, All-append, All-weaken, append_assoc, append-nil, Bool-cases, done, ◌>>=◌,
}
use os.Base.Shuffle.{Shuffle}
use os.Text.{Text, codes, trim_end, trimwhitespace, makeargv, show_int}
use os.Text.Numbers.{atoi-show_int}
use os.Text.Plain.{IsPlain, trimwhitespace-IsPlain, show_int-IsPlain, append-ne-nil}
use os.Text.Fields.{join, IsField, makeargv-join}
use os.Server.State.{Counter}
use os.Server.Count.Tally.{total}
use os.DirVotes.{
  Directory, name_and_count, rest_of_line, print_results, take_front, parse_top_tokens, find_winner,
  find_winner_parsed, starts_with, strstr, cycle_mark, parse_line, read_file, counted_lines,
  vote_counter,
}
use os.DirVotes.Line.{IsName, AreEntries, name_and_count-IsField, makeargv-part, nil-Stops}
use os.DirVotes.Ballots.{votes_in, IsBox, IsChain}
use os.DirVotes.Sums.{result_file_lem}
use os.DirVotes.Front.{front, IsFront, front-IsFront, total-CountsAre, total-le, counts-lt}

starts_with-IsPlain : (s t : Text) → starts_with s t ≡ true → IsPlain t → IsPlain s
unfolding starts_with
starts_with-IsPlain [] t e h = tt
starts_with-IsPlain (c ∷ cs) [] e h = cc
starts_with-IsPlain (c ∷ cs) (d ∷ ds) e (h, hs) = ground (arith, starts_with-IsPlain cs ds)

strstr-plain : (t : Text) → IsPlain t → strstr cycle_mark t ≡ false
unfolding strstr
strstr-plain [] h = unfold starts_with in refl
strstr-plain (c ∷ cs) (h, hs) = elim (Bool-cases (starts_with cycle_mark (c ∷ cs))) [
  | inl found ↦
      let blank : true ≡ false =
        (starts_with-IsPlain cycle_mark (c ∷ cs) found (h, hs)).1.1.1.1.1.0 in
      cc
  | inr missing ↦ rw missing (strstr-plain cs hs)
]

-- The line without its newline, and its parts between commas.
joined-line :
    (k : Counter) (ks : List Counter)
    → name_and_count k ++ rest_of_line ks ≡ join b',' (map name_and_count (k ∷ ks))
unfolding rest_of_line
joined-line k [] = append-nil (name_and_count k)
joined-line k (l ∷ ls) = ap (λ t. name_and_count k ++ b',' ∷ t) (joined-line l ls)

name_and_count-IsPlain : (k : Counter) → IsName k.name → IsPlain (name_and_count k)
name_and_count-IsPlain k (n, h) =
    All-append _ k.name (b':' ∷ show_int k.count) (All-weaken k.name (λ c q. q.0) h)
      (refl, show_int-IsPlain k.count)

rest_of_line-IsPlain : (ks : List Counter) → AreEntries ks → IsPlain (rest_of_line ks)
unfolding rest_of_line
rest_of_line-IsPlain [] h = tt
rest_of_line-IsPlain (k ∷ ks) ((n, b), hs) = (
  refl,
  All-append _ (name_and_count k) (rest_of_line ks) (name_and_count-IsPlain k n)
      (rest_of_line-IsPlain ks hs),
)

parts-IsField : (ks : List Counter) → AreEntries ks → All (IsField b',') (map name_and_count ks)
parts-IsField [] h = tt
parts-IsField (k ∷ ks) ((n, b), hs) = (
  subst (IsField b',') (append-nil (name_and_count k)) (name_and_count-IsField k [] n tt),
  parts-IsField ks hs,
)

part-read :
    (k : Counter)
    → IsName k.name
    → k.count < 4294967296
    → (best : Text × ℕ)
    → parse_top_tokens best (makeargv (some (name_and_count k)) (codes ":"))
      ≡ done (take_front best k.name k.count)
part-read k n b best =
    rw (makeargv-part k n)
      (ap (λ v. done (take_front best k.name v)) (atoi-show_int k.count [] b nil-Stops))

find_winner-front :
    (ks : List Counter) (best : Text × ℕ)
    → AreEntries ks
    → find_winner (map name_and_count ks) best ≡ done (front ks best)
unfolding find_winner front
find_winner-front [] best h = refl
find_winner-front (k ∷ ks) best ((n, b), hs) =
    rw (part-read k n b best) (find_winner-front ks (take_front best k.name k.count) hs)

line-IsPlain :
    (k : Counter) (ks : List Counter)
    → AreEntries (k ∷ ks)
    → IsPlain (name_and_count k ++ rest_of_line ks)
line-IsPlain k ks ((n, b), hs) =
    All-append _ (name_and_count k) (rest_of_line ks) (name_and_count-IsPlain k n)
      (rest_of_line-IsPlain ks hs)

parse_line-line :
    (k : Counter) (ks : List Counter) (best : Text × ℕ)
    → AreEntries (k ∷ ks)
    → parse_line (name_and_count k ++ rest_of_line ks) best ≡ done (front (k ∷ ks) best)
unfolding parse_line
parse_line-line k ks best h =
    rw (strstr-plain (name_and_count k ++ rest_of_line ks) (line-IsPlain k ks h)) (
      ap (λ t. find_winner_parsed (makeargv (some t) (codes ",")) best) (joined-line k ks)
      ∙ ap (λ o. find_winner_parsed o best)
          (makeargv-join b',' (map name_and_count (k ∷ ks)) (parts-IsField (k ∷ ks) h))
      ∙ find_winner-front (k ∷ ks) best h)

read_file-line :
    (k : Counter) (ks : List Counter)
    → AreEntries (k ∷ ks)
    → read_file (print_results (k ∷ ks) ∷ []) ([], 0) ≡ done (front (k ∷ ks) ([], 0))
unfolding print_results read_file
read_file-line k ks h =
    ap (λ t. parse_line t ([], 0) >>= λ best. done best)
      (ap trimwhitespace (sym (append_assoc (name_and_count k) (rest_of_line ks) (10 ∷ [])))
        ∙ trimwhitespace-IsPlain (name_and_count k ++ rest_of_line ks) (10 ∷ [])
            (append-ne-nil (name_and_count k) (rest_of_line ks)
              (append-ne-nil k.name (b':' ∷ show_int k.count) h.0.0.0))
            (line-IsPlain k ks h) newline)
    ∙ rw (parse_line-line k ks ([], 0) h) refl
  where
    newline : trim_end (10 ∷ []) ≡ []
    newline = unfold trim_end in refl

counted_lines-some : (t : Text) → t ≢ [] → counted_lines (some t) ≡ done (t ∷ [])
counted_lines-some [] n = absurd (n refl)
counted_lines-some (c ∷ cs) n = refl

print_results-ne-nil : (k : Counter) (ks : List Counter) → k.name ≢ [] → print_results (k ∷ ks) ≢ []
unfolding print_results
print_results-ne-nil k ks n =
    append-ne-nil (name_and_count k) (rest_of_line ks ++ 10 ∷ [])
      (append-ne-nil k.name (b':' ∷ show_int k.count) n)

-- No total is above the one of the front runner.
IsFront-total :
    (c : Text) (ks : List Counter) (out : Text × ℕ)
    → IsChain ks
    → IsFront ks ([], 0) out
    → total c ks ≤ total out.0 ks
unfolding IsFront
IsFront-total c ks out g (ge, all, inl e) =
    omega (arith, total-le c ks out.1 g all, ap (λ p. p.1) e)
IsFront-total c ks out g (ge, all, inr there) =
    omega (arith, total-le c ks out.1 g all, total-CountsAre ks out.0 out.1 g there)

-- Vote_Counter prints a candidate that no other one has more votes than, on every tree of
-- directories whose leaves hold votes and where no candidate has 2 ^ 31 of them.
pub vote_counter_lem :
    (sort : List Text → List Text)
    → ((ls : List Text) → Shuffle (sort ls) ls)
    → (d : Directory) → IsBox d
    → ((c : Text) → votes_in c d < 2147483648)
    → (winner : Text) × (vote_counter sort d ≡ done (codes "Winner:" ++ winner ++ 10 ∷ []))
      × ((c : Text) → votes_in c d ≤ votes_in winner d)
unfolding vote_counter
vote_counter_lem sort reorders d h few =
    let (k, ks, e, g, t) = result_file_lem sort reorders d h in
    let out = front (k ∷ ks) ([], 0) in
    let few' = counts-lt (k ∷ ks) g (λ c. omega (arith, t c, few c)) in
    let top = λ (c : Text).
      IsFront-total c (k ∷ ks) out g (front-IsFront (k ∷ ks) ([], 0) (omega arith) few') in
    (
      out.0,
      rw
          (
            e,
            counted_lines-some (print_results (k ∷ ks)) (print_results-ne-nil k ks g.0.0.0.0),
            read_file-line k ks g.0,
          )
          refl,
      λ c. omega (arith, top c, t c, t out.0, few c, few out.0),
    )
