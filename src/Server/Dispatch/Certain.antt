-- ===== src/Server/Dispatch/Certain.antt =====
-- The requests that are answered for certain: their parts are there, and votes come in pairs.
use os.Base.{
  ℕ, Bool, true, false, not, ◌||◌, Option, none, some, List, [], ◌∷◌, ◌++◌, ◌≡◌, refl, get_elem?,
  Run, done, fault, exit, loops, Ends, Returns, Returns-bind, ◌>>=◌, if◌then◌else◌,
}
use os.Base.Word.{lt_int}
use os.Text.{Text, codes, trimwhitespace, trimlastenter, makeargv, arg, atoi}
use os.Text.Tokens.{makeargv-ne-none}
use os.Server.State.{Counter, Node, Server, find_node, say, deref}
use os.Server.State.Find.{find_node-get}
use os.Server.Invariant.{IsOrdered}
use os.Server.Polls.{open_polls, close_polls}
use os.Server.Polls.Open.{open_polls_lem}
use os.Server.Polls.Close.{close_polls_lem}
use os.Server.Votes.{
  is_leaf, add_votes, reached_count, subtract, Removed, remove_entries, remove_checked,
  remove_parsed, remove_at, remove_votes,
}
use os.Server.Votes.Add.{ArePairs, parts, add_votes_lem}
use os.Server.Votes.Remove.{shorts, pairs_of, check_entries-shorts}
use os.Server.Count.{
  aggregate, count_at, count_found, count_votes, is_closed, all_closed, winner_at, winner_found,
  return_winner,
}
use os.Server.Count.Reports.{aggregate-Absorbs}
use os.Server.Region.{region_found, add_region}
use os.Server.Dispatch.{
  byte_at, handler_of, Handler, handle, dispatch, invalid_code, dispatch_open, dispatch_close,
  dispatch_add,
}
use os.Server.Dispatch.Safe.{Answers}
use os.Server.Dispatch.Answer.{handle-Answers}

abbrev Defined : Option Text → Type 0
Defined o = (t : Text) × (o ≡ some t)

abbrev HasPairs : List Text → Type 0
HasPairs argvp =
    (name : Text) × (input : Text) × (arg argvp 1 ≡ some name)
    × (arg argvp 2 ≡ some input)
    × ArePairs (parts (makeargv (some (trimwhitespace input)) (codes ",")))

-- The parts that a request of each kind is made of.
abbrev pub IsWhole : Handler → List Text → Type 0
IsWhole Handler.winner argvp = Unit
IsWhole Handler.remove argvp = HasPairs argvp
IsWhole Handler.count argvp = Defined (arg argvp 1)
IsWhole Handler.close argvp = Defined (arg argvp 1)
IsWhole Handler.open_ argvp = Defined (arg argvp 1)
IsWhole Handler.add argvp = HasPairs argvp
IsWhole Handler.region argvp = Defined (arg argvp 1) × Defined (arg argvp 2)
IsWhole Handler.invalid argvp = Defined (arg argvp 0)

-- The run ends with a value.
abbrev Completes : Run Server → Type 0
Completes m = Returns (λ s. Unit {0}) m

Ends→Returns : (P : Server → Type 0) (m : Run Server) → Ends P m → Completes m → Returns P m
Ends→Returns P (done s) e r = e
Ends→Returns P fault e r = absurd r
Ends→Returns P exit e r = absurd r
Ends→Returns P loops e r = absurd r

remove_entries-Returns :
    (ts : List Text) (ks : List Counter)
    → ArePairs ts
    → Returns (λ r. Unit {0}) (remove_entries ts ks)
unfolding remove_entries
remove_entries-Returns [] ks h = tt
remove_entries-Returns (t ∷ ts) ks ((name, votes, more, e), h) = rw e (
    by_test (lt_int (reached_count name ks) (atoi votes))
      (remove_entries-Returns ts (subtract name (atoi votes) ks) h))
  where
    by_test :
        (b : Bool)
        → Returns (λ r. Unit {0}) (remove_entries ts (subtract name (atoi votes) ks))
        → Returns
            (λ r. Unit {0})
            (if b
              then done (Removed.short_of name ks)
              else remove_entries ts (subtract name (atoi votes) ks))
    by_test true k = tt
    by_test false k = k

remove_parsed-Completes :
    (s : Server) (i : ℕ) (n : Node) (ts : List Text)
    → ArePairs ts
    → Completes (remove_parsed i n s (some ts))
remove_parsed-Completes s i n ts h =
    rw (check_entries-shorts ts n.counters h) (checked (shorts n.counters (pairs_of ts)))
  where
    checked : (l : List Text) → Completes (remove_checked ts i n s (some l))
    checked [] =
        Returns-bind _ _ (remove_entries ts n.counters) _ (remove_entries-Returns ts n.counters h)
          (λ r k. tt)
    checked (name ∷ more) = tt

remove_votes-Completes :
    (argvp : List Text) (s : Server) → HasPairs argvp → Completes (remove_votes argvp s)
unfolding remove_votes
remove_votes-Completes argvp s (name, input, a, b, h) =
    rw (a, b) (found (find_node (trimwhitespace name) s.nodes))
  where
    pairs :
        (o : Option (List Text))
        → (o ≡ none → ⊥)
        → ArePairs (parts o)
        → (i : ℕ) (n : Node) → Completes (remove_parsed i n s o)
    pairs none f k i n = tt
    pairs (some ts) f k i n = remove_parsed-Completes s i n ts k

    by_flags :
        (i : ℕ) (n : Node) (inner shut : Bool)
        → Completes (
            if inner
            then done (say (codes "NL;" ++ n.name) s)
            else if shut
            then done (say (codes "RC;" ++ trimwhitespace name) s)
            else remove_parsed i n s (makeargv (some (trimwhitespace input)) (codes ",")))
    by_flags i n true shut = tt
    by_flags i n false true = tt
    by_flags i n false false = pairs _ (makeargv-ne-none (trimwhitespace input) (codes ",")) h i n

    found : (o : Option (ℕ × Node)) → Completes (remove_at (trimwhitespace input) name o s)
    found none = tt
    found (some (i, n)) = by_flags i n (not (is_leaf n)) (not n.open_ || n.closed)

-- aggregate at a region, and an answer made from what it leaves there.
aggregated-Completes :
    (s : Server) (i : ℕ) (n : Node) (reply : Node → Text)
    → IsOrdered s.nodes
    → get_elem? s.nodes i ≡ some n
    → Completes (
        aggregate i s.nodes >>= λ ns.
        deref ns i >>= λ n'. done (say (reply n') (record s { nodes = ns })))
aggregated-Completes s i n reply h e =
    Returns-bind _ _ (aggregate i s.nodes) _ (aggregate-Absorbs s.nodes i n h e)
      (λ ns (a, (n', e')). rw e' tt)

count_votes-Completes :
    (argvp : List Text) (s : Server)
    → IsOrdered s.nodes
    → Defined (arg argvp 1)
    → Completes (count_votes argvp s)
unfolding count_votes count_at
count_votes-Completes argvp s h (name, a) = rw a (found _ refl)
  where
    at_ :
        (i : ℕ) (n : Node) (b : Bool)
        → get_elem? s.nodes i ≡ some n
        → n.hasdata ≡ b
        → Completes (count_at i n s)
    at_ i n true e d = rw d tt
    at_ i n false e d = rw d (aggregated-Completes s i n _ h e)

    found :
        (o : Option (ℕ × Node))
        → find_node (trimwhitespace name) s.nodes ≡ o
        → Completes (count_found name o s)
    found none f = tt
    found (some (i, n)) f = at_ i n n.hasdata ((find_node-get _ s.nodes i n f).0) refl

return_winner-Completes :
    (s : Server) (first : Node)
    → IsOrdered s.nodes
    → get_elem? s.nodes 0 ≡ some first
    → Completes (return_winner s)
unfolding return_winner winner_at
return_winner-Completes s first h z = rw z (found _ refl)
  where
    at_ :
        (i : ℕ) (n : Node) (b : Bool)
        → get_elem? s.nodes i ≡ some n
        → (not (is_closed n) || not (all_closed s.nodes)) ≡ b
        → Completes (winner_at i n s)
    at_ i n true e d = rw d tt
    at_ i n false e d = rw d (aggregated-Completes s i n _ h e)

    found :
        (o : Option (ℕ × Node))
        → find_node first.name s.nodes ≡ o
        → Completes (winner_found first.name o s)
    found none f = tt
    found (some (i, n)) f = at_ i n _ ((find_node-get _ s.nodes i n f).0) refl

handle-Completes :
    (c : Handler) (argvp : List Text) (s : Server) (first : Node)
    → IsOrdered s.nodes
    → get_elem? s.nodes 0 ≡ some first
    → IsWhole c argvp
    → Completes (handle c argvp s)
unfolding handle invalid_code dispatch_open dispatch_close dispatch_add add_region
handle-Completes Handler.winner argvp s first h z w = return_winner-Completes s first h z
handle-Completes Handler.remove argvp s first h z w = remove_votes-Completes argvp s w
handle-Completes Handler.count argvp s first h z w = count_votes-Completes argvp s h w
handle-Completes Handler.close argvp s first h z (name, a) =
    rw a
      (Returns-bind _ _ (close_polls name s.nodes) _ (close_polls_lem name s.nodes h) (λ r q. tt))
handle-Completes Handler.open_ argvp s first h z (name, a) =
    rw a (Returns-bind _ _ (open_polls name s.nodes) _ (open_polls_lem name s.nodes h) (λ r q. tt))
handle-Completes Handler.add argvp s first h z (name, input, a, b, p) =
    Returns-bind _ _ (add_votes argvp s.nodes) _ (add_votes_lem [] argvp s.nodes name input a b p)
      (λ r q. rw a tt)
handle-Completes Handler.region argvp s first h z ((parent, a), (child, b)) =
    rw (a, b) (found (find_node (trimwhitespace parent) s.nodes))
  where
    found :
        (o : Option (ℕ × Node))
        → Completes (region_found (trimwhitespace parent) (trimwhitespace child) o s)
    found none = tt
    found (some (i, n)) = tt
handle-Completes Handler.invalid argvp s first h z (code, a) = rw a tt

-- A request whose parts are there is answered for certain: dispatchCode returns, with exactly
-- one answer sent, where there is a region and the children of each one stand behind it. They still
-- do afterwards, and each region is in its place with its name, which may have lost blanks at its end, and no polls have
-- gone back. The parts are: for OP, CP and CV a name, for AR two names, for AV and RV a name and
-- votes in pairs, for RW none, for another code the code.
pub dispatch-Returns :
    (request : Text) (s : Server) (first : Node)
    → IsOrdered s.nodes
    → get_elem? s.nodes 0 ≡ some first
    → IsWhole
        (handler_of (byte_at (trimlastenter request) 0) (byte_at (trimlastenter request) 1))
        (parts (makeargv (some (trimlastenter request)) (codes ";")))
    → Returns (Answers s) (dispatch request s)
unfolding dispatch
dispatch-Returns request s first h z w =
    tokens (makeargv (some (trimlastenter request)) (codes ";"))
      (makeargv-ne-none (trimlastenter request) (codes ";"))
      (handler_of (byte_at (trimlastenter request) 0) (byte_at (trimlastenter request) 1)) w
  where
    tokens :
        (o : Option (List Text))
        → (o ≡ none → ⊥)
        → (c : Handler) → IsWhole c (parts o)
        → Returns (Answers s) (elim o [ none ↦ done s | some argvp ↦ handle c argvp s ])
    tokens none f c w = absurd (f refl)
    tokens (some argvp) f c w =
        Ends→Returns _ (handle c argvp s) (handle-Answers c argvp s h)
          (handle-Completes c argvp s first h z w)
