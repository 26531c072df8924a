-- ===== src/Server/Dispatch/Ballots.antt =====
-- Add_Votes under the laws of a request: any argument ends in a fault or an answer.
use os.Base.{
  inl, ℕ, Bool, true, false, not, ◌||◌, Option, none, some, List, [], ◌∷◌, ◌≡◌, ◌≢◌, refl, arith,
  set, get_elem?, Pairs-set, Run, done, Ends, Ends-bind, if◌then◌else◌,
}
use os.Text.{Text, codes, trimwhitespace, makeargv, arg, atoi}
use os.Text.Tokens.{makeargv-ne-none}
use os.Server.State.{Counter, Node, Server, find_node, say}
use os.Server.State.Find.{find_node-get}
use os.Server.Invariant.{IsOrdered}
use os.Server.Votes.{
  AddCode, is_leaf, Cursor, chain, seek_add, add_entry, add_entries, add_parsed, add_found,
  add_votes,
}
use os.Server.Dispatch.{add_reply, dispatch_add}
use os.Server.Dispatch.Turns.{Turns, Turns-refl}
use os.Server.Dispatch.Safe.{Answers, say-Answers, Turns-Answers, use_ptr-Ends}

-- The region at `i` turned into another one.
pub set-Answers :
    (m : Text) (s : Server) (i : ℕ) (n n' : Node)
    → IsOrdered s.nodes
    → get_elem? s.nodes i ≡ some n
    → Turns n n'
    → Answers s (say m (record s { nodes = set s.nodes i n' }))
set-Answers m s i n n' h e t =
    Turns-Answers m s (set s.nodes i n') h (Pairs-set Turns s.nodes i n' Turns-refl e t)

filled-Turns : (n : Node) (ks : List Counter) → Turns n (record n { hasdata = true; counters = ks })
filled-Turns n ks = record {
  trims_name = inl refl;
  same_children = refl;
  onward = omega arith;
  keeps_legal = λ h. h;
  keeps_law = λ h d. cc;
}

pub counters-Turns :
    (n : Node) (ks : List Counter)
    → (n.counters ≡ [] → ks ≡ [])
    → Turns n (record n { counters = ks })
counters-Turns n ks k = record {
  trims_name = inl refl;
  same_children = refl;
  onward = omega arith;
  keeps_legal = λ h. h;
  keeps_law = λ h d. k (h d);
}

add_entry-Ends :
    (next : Text → ℕ → Run (Bool × Cursor)) (cur : Cursor) (o : Option (List Text))
    → o ≢ none
    → ((name : Text) (votes : ℕ) → Ends (λ r. r.0 ≡ true) (next name votes))
    → Ends (λ r. r.0 ≡ true) (add_entry next cur o)
add_entry-Ends next cur none f h = absurd (f refl)
add_entry-Ends next cur (some []) f h = tt
add_entry-Ends next cur (some (name ∷ [])) f h = tt
add_entry-Ends next cur (some (name ∷ votes ∷ more)) f h = h name (atoi votes)

add_entries-Ends : (ts : List Text) (cur : Cursor) → Ends (λ r. r.0 ≡ true) (add_entries ts cur)
unfolding add_entries
add_entries-Ends [] cur = refl
add_entries-Ends (t ∷ ts) cur =
    add_entry-Ends _ cur (makeargv (some t) (codes ":")) (makeargv-ne-none t (codes ":"))
      (λ name votes. add_entries-Ends ts (seek_add name votes cur.before cur.behind))

-- What Add_Votes leaves: any answer may follow it.
abbrev AddsSafely : Server → AddCode × List Node → Type 0
AddsSafely s r = (m : Text) → Answers s (say m (record s { nodes = r.1 }))

add_parsed-Ends :
    (s : Server) (i : ℕ) (n : Node) (o : Option (List Text))
    → IsOrdered s.nodes
    → get_elem? s.nodes i ≡ some n
    → o ≢ none
    → Ends (AddsSafely s) (add_parsed i n s.nodes o)
add_parsed-Ends s i n none h e f = absurd (f refl)
add_parsed-Ends s i n (some ts) h e f =
    Ends-bind (λ r. r.0 ≡ true) _ (add_entries ts (record { before = []; behind = n.counters })) _
      (add_entries-Ends ts _)
      (λ (ok, cur) o. rw o (λ m. set-Answers m s i n _ h e (filled-Turns n (chain cur))))

add_found-Ends :
    (s : Server) (input name : Text) (o : Option (ℕ × Node))
    → IsOrdered s.nodes
    → find_node name s.nodes ≡ o
    → Ends (AddsSafely s) (add_found input s.nodes o)
add_found-Ends s input name none h f = λ m. say-Answers m s h
add_found-Ends s input name (some (i, n)) h f = by_flags (not (is_leaf n)) (not n.open_ || n.closed)
  where
    by_flags :
        (inner shut : Bool)
        → Ends (AddsSafely s) (
            if inner
            then done (AddCode.not_leaf, s.nodes)
            else if shut
            then done (AddCode.region_closed, s.nodes)
            else add_parsed i n s.nodes (makeargv (some input) (codes ",")))
    by_flags true shut = λ m. say-Answers m s h
    by_flags false true = λ m. say-Answers m s h
    by_flags false false =
        add_parsed-Ends s i n (makeargv (some input) (codes ",")) h
          ((find_node-get name s.nodes i n f).0) (makeargv-ne-none input (codes ","))

add_votes-Ends :
    (argvp : List Text) (s : Server)
    → IsOrdered s.nodes
    → Ends (AddsSafely s) (add_votes argvp s.nodes)
unfolding add_votes
add_votes-Ends argvp s h = use_ptr-Ends _ (arg argvp 2) _ (λ input.
    use_ptr-Ends _ (arg argvp 1) _
      (λ name. add_found-Ends s (trimwhitespace input) (trimwhitespace name) _ h refl))

pub dispatch_add-Answers :
    (argvp : List Text) (s : Server) → IsOrdered s.nodes → Ends (Answers s) (dispatch_add argvp s)
unfolding dispatch_add
dispatch_add-Answers argvp s h =
    Ends-bind (AddsSafely s) _ (add_votes argvp s.nodes) _ (add_votes-Ends argvp s h)
      (λ r q. use_ptr-Ends _ (arg argvp 1) _ (λ name. q (add_reply (trimwhitespace name) r.0)))
