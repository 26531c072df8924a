-- ===== src/Client/Withdraw.antt =====
-- A file of votes from the client's table taken away from the counters of the server.
use os.Base.{
  ℕ, suc, ◌%◌, ◌+◌, ◌<◌, Bool, true, false, not, ◌||◌, Option, some, List, [], ◌∷◌, ◌++◌, length,
  map, ◌≡◌, ◌≢◌, refl, sym, ap, subst, ◌∙◌, ◌⊎◌, inl, inr, arith, All, Bool-cases, replicate, Run,
  Returns, Returns-weaken, if◌then◌else◌, ◌==◌,
}
use os.Base.Word.{add_int}
use os.Text.{Text, codes, text_eq, contains, trimwhitespace, trim_in_place, makeargv}
use os.Text.Tokens.{IsFree}
use os.Text.Numbers.{atoi-numeral}
use os.Text.Fields.{join}
use os.Server.State.{Node, Server, find_node, say, Counter}
use os.Server.Count.Tally.{total}
use os.Server.Votes.{is_leaf, join_comma, store_counters, remove_parsed, remove_at, remove_votes}
use os.Server.Votes.Add.{requested}
use os.Server.Votes.Remove.{pairs_of, shorts, AreDistinct, RemoveOutcome, remove_parsed-Outcome}
use os.Server.Dispatch.{handler_of, handle, dispatch}
use os.Client.{Row, count_name, count_vote, leafcounter, padded, remove_votes_request}
use os.Client.Tally.{occurrences, AreFilled, count_name-AreFilled, leafcounter_lem}
use os.Client.Requests.{padded-trimwhitespace}
use os.Client.Rows.{
  AreCandidates, AreVotes, leafcounter-AreCandidates, leafcounter-ne-nil, table-AreFilled, row_text,
  print_file_into_data-join,
}
use os.Client.Pairs.{makeargv-row}
use os.Client.Voting.{
  pairs_text, requested-rows, rows-ArePairs, request-dispatch, pairs-makeargv, request_assoc,
}
use os.Client.Deliver.{Accepts}

-- A name and its votes.
abbrev pub row_pair : Row → Text × ℕ
row_pair r = (r.name, r.votes)

pairs_of-rows :
    (m : ℕ) (rs : List Row)
    → m < 4294967296
    → AreCandidates rs
    → AreFilled m rs
    → pairs_of (map row_text rs) ≡ map row_pair rs
pairs_of-rows m [] b h k = refl
pairs_of-rows m (r ∷ rs) b (h, hs) (k, ks) =
    rw (makeargv-row r h, atoi-numeral r.votes (omega arith), pairs_of-rows m rs b hs ks) refl

-- No name stands twice in a table.
abbrev AreUnlike : List Row → Type 0
AreUnlike rs = AreDistinct (map row_pair rs)

abbrev IsOther : Text → List Row → Type 0
IsOther name rs = All (λ q. text_eq name q.0 ≡ false) (map row_pair rs)

count_name-IsOther :
    (m : ℕ) (other name : Text) (rs : List Row)
    → text_eq other name ≡ false
    → AreFilled m rs
    → IsOther other rs
    → IsOther other (count_name name rs)
unfolding count_name
count_name-IsOther m other name [] e f h = (e, tt)
count_name-IsOther m other name (r ∷ rs) e (f, fs) (h, hs) = elim (Bool-cases (r.votes == 0)) [
  | inl free ↦ rw free (e, hs)
  | inr taken ↦ elim (Bool-cases (text_eq r.name name)) [
    | inl same ↦ rw (taken, same) (h, hs)
    | inr new ↦ rw (taken, new) (h, count_name-IsOther m other name rs e fs hs)
  ]
]

count_name-AreUnlike :
    (m : ℕ) (name : Text) (rs : List Row)
    → AreFilled m rs
    → AreUnlike rs
    → AreUnlike (count_name name rs)
unfolding count_name
count_name-AreUnlike m name [] f h = (tt, tt)
count_name-AreUnlike m name (r ∷ rs) (f, fs) (h, hs) =
    rw (filled r.votes f.0) (elim (Bool-cases (text_eq r.name name)) [
      | inl same ↦ rw same (h, hs)
      | inr new ↦
          rw new
            (count_name-IsOther m r.name name rs new fs h, count_name-AreUnlike m name rs fs hs)
    ])
  where
    filled : (v : ℕ) → 0 < v → (v == 0) ≡ false
    filled v p = ground arith

leafcounter-AreUnlike :
    (m : ℕ) (lines : List Text) (rs : List Row)
    → m + length lines < 4294967296
    → AreFilled m rs
    → AreUnlike rs
    → AreUnlike (leafcounter lines rs)
unfolding leafcounter
leafcounter-AreUnlike m [] rs b f h = h
leafcounter-AreUnlike m (t ∷ ts) rs b f h =
    leafcounter-AreUnlike (suc m) ts (count_vote t rs) (omega arith)
      (count_name-AreFilled m (trim_in_place t) rs (omega arith) f)
      (count_name-AreUnlike m (trim_in_place t) rs f h)

-- The answer, and what is left in the region: with a candidate that is short, only the answer IS.
abbrev pub Withdrawn : Text → List Row → ℕ → ℕ → Node → Server → Server → Type 0
Withdrawn c rs votes i n s s' =
    ((short : Text) × (more : List Text) × (shorts n.counters (map row_pair rs) ≡ short ∷ more)
      × (s' ≡ say (codes "IS;" ++ join_comma (short ∷ more)) s))
    ⊎ ((ks : List Counter) × (shorts n.counters (map row_pair rs) ≡ [])
        × (s' ≡ say (codes "SC;") (store_counters i n ks s))
        × (add_int (total c ks) votes ≡ total c n.counters))

Withdrawn-of_outcome :
    (c : Text) (ts : List Text) (rs : List Row) (votes i : ℕ) (n : Node) (s s' : Server)
    → pairs_of ts ≡ map row_pair rs
    → requested c ts ≡ votes % 4294967296
    → RemoveOutcome c ts i n s s'
    → Withdrawn c rs votes i n s s'
Withdrawn-of_outcome c ts rs votes i n s s' e r (inl (short, more, h, a)) =
    inl (short, more, ap (shorts n.counters) (sym e) ∙ h, a)
Withdrawn-of_outcome c ts rs votes i n s s' e r (inr (ks, h, a, t)) =
    inr (ks, ap (shorts n.counters) (sym e) ∙ h, a, omega (arith, t, r))

-- The way of Remove_Votes to an open leaf.
remove_votes-Accepts :
    (name tail : Text) (ts : List Text) (s : Server) (i : ℕ) (n : Node)
    → makeargv (some (trimwhitespace tail)) (codes ",") ≡ some ts
    → Accepts s name i n
    → remove_votes (codes "RV" ∷ padded name ∷ tail ∷ []) s ≡ remove_parsed i n s (some ts)
unfolding remove_votes
remove_votes-Accepts name tail ts s i n e (f, leaf, open_, closed) =
    ap (λ o. remove_at (trimwhitespace tail) (padded name) o s)
      (ap (λ t. find_node t s.nodes) (padded-trimwhitespace name) ∙ f)
    ∙ accepted (is_leaf n) (not n.open_ || n.closed) leaf (rw (open_, closed) refl) _ _ _
    ∙ ap (remove_parsed i n s) e
  where
    accepted :
        (whole shut : Bool)
        → whole ≡ true
        → shut ≡ false
        → (x y z : Run Server) → (if not whole then x else if shut then y else z) ≡ z
    accepted true false p q x y z = refl
    accepted true true p q x y z = cc
    accepted false shut p q x y z = cc

remove_request-dispatch :
    (name : Text) (rs : List Row) (blanks : ℕ) (s : Server)
    → IsFree (codes ";") name
    → AreCandidates rs
    → dispatch (b'R' ∷ b'V' ∷ b';' ∷ padded name ++ b';' ∷ pairs_text rs blanks) s
      ≡ remove_votes (codes "RV" ∷ padded name ∷ pairs_text rs blanks ∷ []) s
unfolding handler_of handle
remove_request-dispatch name rs blanks s h k =
    request-dispatch b'R' b'V' name rs blanks s (unfold contains in refl) (unfold contains in refl)
      h k

-- The client's Remove_Votes from an empty table, for a file of fewer than 2^32 lines with at least
-- one and a candidate's name on each, and for a region whose name has no semicolon, makes a request
-- that a server with that region as an open leaf answers. If candidates of the file have no counter
-- or fewer votes than it has lines for them, the answer is IS with their names and nothing changes.
-- Else it is SC, and for each candidate the votes left and the lines that name him make up the votes
-- that were there.
pub remove_votes_request_lem :
    (lines_of : Text → Option (List Text)) (c name file : Text) (lines : List Text) (max_data : ℕ)
    (s : Server) (i : ℕ) (n : Node)
    → lines_of file ≡ some lines
    → lines ≢ []
    → length lines < 4294967296
    → AreVotes lines
    → IsFree (codes ";") name
    → Accepts s name i n
    → Returns
        (λ (client, request).
          Returns
            (Withdrawn c (leafcounter lines []) (occurrences c lines) i n s)
            (dispatch request s))
        (remove_votes_request lines_of name file (record { rows = []; max_data = max_data }))
unfolding remove_votes_request
remove_votes_request_lem lines_of c name file lines max_data s i n e ne few h free ok =
    let rows = leafcounter lines [] in
    let filled = table-AreFilled lines few in
    let names = leafcounter-AreCandidates lines [] h tt in
    let unlike = leafcounter-AreUnlike 0 lines [] (omega arith) tt tt in
    let ts = map row_text rows in
    let pairs = pairs_of-rows (length lines) rows few names filled in
    let (c', blanks, q) =
      print_file_into_data-join (length lines) (codes "RV;" ++ padded name ++ codes ";")
        (record { rows = rows; max_data = max_data }) (leafcounter-ne-nil lines ne) filled in
    let total_of =
      requested-rows c (length lines) rows few names filled
      ∙ ap (λ v. v % 4294967296) (leafcounter_lem c lines few) in
    let answer =
      remove_request-dispatch name rows blanks s free names
      ∙ remove_votes-Accepts name (pairs_text rows blanks) ts s i n
          (pairs-makeargv rows blanks (leafcounter-ne-nil lines ne) names) ok in
    rw (e, q)
      (subst (λ t. Returns (Withdrawn c rows (occurrences c lines) i n s) (dispatch t s))
        (sym
          (request_assoc b'R' b'V' name (join b',' (map row_text rows)) (32 ∷ replicate blanks 32)))
        (subst (λ m. Returns (Withdrawn c rows (occurrences c lines) i n s) m) (sym answer)
          (Returns-weaken _ _ (remove_parsed i n s (some ts))
            (remove_parsed-Outcome c ts i n s (rows-ArePairs rows names)
              (subst AreDistinct (sym pairs) unlike))
            (λ s' out.
              Withdrawn-of_outcome c ts rows (occurrences c lines) i n s s' pairs total_of out))))
