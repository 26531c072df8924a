-- ===== src/Client/Deliver.antt =====
-- A file of votes from the client's table to the counters of the server.
use os.Base.{
  ℕ, ◌%◌, ◌<◌, Bool, true, false, Option, some, List, [], ◌∷◌, ◌++◌, length, map, ◌≡◌, ◌≢◌, refl,
  sym, ap, subst, ◌∙◌, arith, replicate, set, Returns, Returns-bind, Returns-weaken, not, ◌||◌,
  if◌then◌else◌,
}
use os.Base.Word.{add_int}
use os.Text.{Text, codes, contains, trimwhitespace, makeargv}
use os.Text.Tokens.{IsFree}
use os.Text.Fields.{join}
use os.Server.State.{Counter, Node, Server, find_node, say}
use os.Server.Count.Tally.{total}
use os.Server.Votes.{success, is_leaf, add_votes}
use os.Server.Votes.Add.{requested, ArePairs, AddOutcome, parts, add_votes_lem}
use os.Server.Dispatch.{handler_of, handle, dispatch, dispatch_add}
use os.Client.{Row, leafcounter, padded, add_votes_request}
use os.Client.Tally.{occurrences, leafcounter_lem}
use os.Client.Requests.{padded-trimwhitespace}
use os.Client.Rows.{
  AreCandidates, AreVotes, leafcounter-AreCandidates, leafcounter-ne-nil, table-AreFilled, row_text,
  print_file_into_data-join,
}
use os.Client.Voting.{
  pairs_text, requested-rows, rows-ArePairs, request-dispatch, pairs-makeargv, request_assoc,
}

-- A region that Add_Votes accepts votes for.
abbrev pub Accepts : Server → Text → ℕ → Node → Type 0
Accepts s name i n =
    (find_node (trimwhitespace name) s.nodes ≡ some (i, n))
    × (is_leaf n ≡ true)
    × (n.open_ ≡ true)
    × (n.closed ≡ false)

-- One answer SC, and in the region the votes of a candidate on top of those that were there.
abbrev pub Delivered : Text → ℕ → Server → ℕ → Node → Server → Type 0
Delivered c votes s i n s' =
    (ks : List Counter) × (s'
      ≡ say (codes "SC;")
          (record s { nodes = set s.nodes i (record n { hasdata = true; counters = ks }) }))
    × (total c ks ≡ add_int (total c n.counters) votes)

pick :
    (A B C : Type 0) (leaf shut : Bool)
    → leaf ≡ true
    → shut ≡ false
    → (if not leaf then A else if shut then B else C)
    → C
pick A B C true false e f h = h
pick A B C true true e f h = cc
pick A B C false shut e f h = cc

-- What Add_Votes leaves where it accepts.
accepted :
    (c name tail : Text) (ts : List Text) (s : Server) (i : ℕ) (n : Node)
    → makeargv (some (trimwhitespace tail)) (codes ",") ≡ some ts
    → ArePairs ts
    → Accepts s name i n
    → Returns
        (λ (code, ns').
          (code ≡ success)
          × ((ks : List Counter) × (ns'
                ≡ set s.nodes i (record n { hasdata = true; counters = ks }))
              × (total c ks ≡ add_int (total c n.counters) (requested c ts))))
        (add_votes (codes "AV" ∷ padded name ∷ tail ∷ []) s.nodes)
accepted c name tail ts s i n e h (f, leaf, open_, closed) =
    let argvp = codes "AV" ∷ padded name ∷ tail ∷ [] in
    let found = ap (λ t. find_node t s.nodes) (padded-trimwhitespace name) ∙ f in
    Returns-weaken _ _ (add_votes argvp s.nodes)
      (add_votes_lem c argvp s.nodes (padded name) tail refl refl
        (subst (λ o. ArePairs (parts o)) (sym e) h))
      (λ r out. pick _ _ _ (is_leaf n) (not n.open_ || n.closed) leaf (rw (open_, closed) refl) (
        subst (λ o. AddOutcome c (parts o) s.nodes (some (i, n)) r) e
          (subst
            (λ o.
              AddOutcome c (parts (makeargv (some (trimwhitespace tail)) (codes ","))) s.nodes o r)
            found out)))

dispatch_add-Delivered :
    (c name tail : Text) (votes : ℕ) (ts : List Text) (s : Server) (i : ℕ) (n : Node)
    → makeargv (some (trimwhitespace tail)) (codes ",") ≡ some ts
    → ArePairs ts
    → requested c ts ≡ votes % 4294967296
    → Accepts s name i n
    → Returns (Delivered c votes s i n) (dispatch_add (codes "AV" ∷ padded name ∷ tail ∷ []) s)
unfolding dispatch_add
dispatch_add-Delivered c name tail votes ts s i n e h r ok =
    Returns-bind _ _ (add_votes (codes "AV" ∷ padded name ∷ tail ∷ []) s.nodes) _
      (accepted c name tail ts s i n e h ok)
      (λ (code, ns') (e1, (ks, e2, t)). (ks, rw (e1, e2) refl, omega (arith, t, r)))

add_request-dispatch :
    (name : Text) (rs : List Row) (blanks : ℕ) (s : Server)
    → IsFree (codes ";") name
    → AreCandidates rs
    → dispatch (b'A' ∷ b'V' ∷ b';' ∷ padded name ++ b';' ∷ pairs_text rs blanks) s
      ≡ dispatch_add (codes "AV" ∷ padded name ∷ pairs_text rs blanks ∷ []) s
unfolding handler_of handle
add_request-dispatch name rs blanks s h k =
    request-dispatch b'A' b'V' name rs blanks s (unfold contains in refl) (unfold contains in refl)
      h k

-- The client's Add_Votes from an empty table, for a file of fewer than 2^32 lines with at least one
-- and a candidate's name on each, and for a region whose name has no semicolon, makes a request
-- that a server with that region as an open leaf answers with SC, adding for each candidate the
-- number of lines that name him to the counters of the region, and changing no other region.
pub add_votes_request_lem :
    (lines_of : Text → Option (List Text)) (c name file : Text) (lines : List Text) (max_data : ℕ)
    (s : Server) (i : ℕ) (n : Node)
    → lines_of file ≡ some lines
    → lines ≢ []
    → length lines < 4294967296
    → AreVotes lines
    → IsFree (codes ";") name
    → Accepts s name i n
    → Returns
        (λ (client, request).
          Returns (Delivered c (occurrences c lines) s i n) (dispatch request s))
        (add_votes_request lines_of name file (record { rows = []; max_data = max_data }))
unfolding add_votes_request
add_votes_request_lem lines_of c name file lines max_data s i n e ne few h free ok =
    let rows = leafcounter lines [] in
    let filled = table-AreFilled lines few in
    let names = leafcounter-AreCandidates lines [] h tt in
    let code = codes "AV;" ++ padded name ++ codes ";" in
    let (c', blanks, q) =
      print_file_into_data-join (length lines) code (record { rows = rows; max_data = max_data })
        (leafcounter-ne-nil lines ne) filled in
    let total_of =
      requested-rows c (length lines) rows few names filled
      ∙ ap (λ v. v % 4294967296) (leafcounter_lem c lines few) in
    rw (e, q)
      (subst (λ t. Returns (Delivered c (occurrences c lines) s i n) (dispatch t s))
        (sym
          (request_assoc b'A' b'V' name (join b',' (map row_text rows)) (32 ∷ replicate blanks 32)))
        (subst (λ m. Returns (Delivered c (occurrences c lines) s i n) m)
          (sym (add_request-dispatch name rows blanks s free names))
          (dispatch_add-Delivered c name (pairs_text rows blanks) (occurrences c lines)
            (map row_text rows) s i n
            (pairs-makeargv rows blanks (leafcounter-ne-nil lines ne) names)
            (rows-ArePairs rows names) total_of ok)))
