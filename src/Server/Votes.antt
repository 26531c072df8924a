-- ===== src/Server/Votes.antt =====
-- Add_Votes and Remove_Votes: the counters of a leaf region.
pub mod Add
pub mod Remove
use os.Base.{
  ℕ, zero, suc, Bool, true, false, not, ◌&&◌, ◌||◌, Option, none, some, List, [], ◌∷◌, ◌++◌, set,
  if◌then◌else◌, Run, done, fault, ◌>>=◌, use_ptr,
}
use os.Base.Word.{add_int, sub_int, lt_int}
use os.Text.{Text, codes, text_eq, trimwhitespace, makeargv, arg, atoi}
use os.Server.State.{Counter, Node, Server, find_node, say}

pub data AddCode : Type 0 where
  success region_closed parse_failed no_region not_leaf : AddCode

abbrev pub is_leaf : Node → Bool
is_leaf n = elim n.children [ [] ↦ true | _ ∷ _ ↦ false ]

-- The chain as `temp_counter` sees it: the counters up to and with it, and those behind it.
pub record Cursor : Type 0 where
  pub before : List Counter
  pub behind : List Counter

abbrev pub chain : Cursor → List Counter
chain c = c.before ++ c.behind

-- The inner loop of Add_Votes with the append behind it. `temp_counter` stays where it ends.
unfoldable pub seek_add : Text → ℕ → List Counter → List Counter → Cursor
seek_add name votes before [] = record {
  before = before ++ record { name = name; count = votes } ∷ [];
  behind = [];
}
seek_add name votes before (k ∷ ks) =
    let rest = seek_add name votes (before ++ k ∷ []) ks in
    if text_eq k.name name
    then record { before = before ++ record k { count = add_int k.count votes } ∷ []; behind = ks }
    else rest

-- A pair `name:votes`; res[0] and res[1] are used without a check.
abbrev pub entry_of : List Text → Run (Text × ℕ)
entry_of res = do name ← use_ptr (arg res 0); votes ← use_ptr (arg res 1); done (name, atoi votes)

-- One round of the loop over the pairs, with the rest of the loop as `next`. The flag is false where
-- makeargv fails.
abbrev pub add_entry :
    (Text → ℕ → Run (Bool × Cursor)) → Cursor → Option (List Text) → Run (Bool × Cursor)
add_entry next c none = done (false, c)
add_entry next c (some res) = do (name, votes) ← entry_of res; next name votes

unfoldable pub add_entries : List Text → Cursor → Run (Bool × Cursor)
add_entries [] c = done (true, c)
add_entries (t ∷ ts) c =
    add_entry (λ name votes. add_entries ts (seek_add name votes c.before c.behind)) c
      (makeargv (some t) (codes ":"))

-- temp_node->hasdata = 1 is passed over by the early return.
abbrev pub store_entries : ℕ → Node → List Node → Bool × Cursor → AddCode × List Node
store_entries i n ns (true, c) =
    (success, set ns i (record n { hasdata = true; counters = chain c }))
store_entries i n ns (false, c) = (parse_failed, set ns i (record n { counters = chain c }))

abbrev pub add_parsed : ℕ → Node → List Node → Option (List Text) → Run (AddCode × List Node)
add_parsed i n ns none = done (parse_failed, ns)
add_parsed i n ns (some res_temp) = do
  result ← add_entries res_temp (record { before = []; behind = n.counters })
  done (store_entries i n ns result)

abbrev pub add_found : Text → List Node → Option (ℕ × Node) → Run (AddCode × List Node)
add_found input ns none = done (no_region, ns)
add_found input ns (some (i, n)) =
    if not (is_leaf n)
    then done (not_leaf, ns)
    else if not n.open_ || n.closed
    then done (region_closed, ns)
    else add_parsed i n ns (makeargv (some input) (codes ","))

unfoldable pub add_votes : List Text → List Node → Run (AddCode × List Node)
add_votes argvp ns = do
  input ← use_ptr (arg argvp 2)
  name ← use_ptr (arg argvp 1)
  add_found (trimwhitespace input) ns (find_node (trimwhitespace name) ns)

-- strcmp from the first counter on; with no counter res[0] is not read.
unfoldable pub find_counter : Text → List Counter → Option ℕ
find_counter name [] = none
find_counter name (k ∷ ks) = if text_eq k.name name then some k.count else find_counter name ks

-- The count where the search loop of Remove_Votes stops: at the name, or else at the last counter.
unfoldable pub reached_count : Text → List Counter → ℕ
reached_count name [] = 0
reached_count name (k ∷ []) = k.count
reached_count name (k ∷ l ∷ ks) =
    if text_eq k.name name then k.count else reached_count name (l ∷ ks)

-- temp_counter->count = temp_counter->count - votes, at the same counter
unfoldable pub subtract : Text → ℕ → List Counter → List Counter
subtract name votes [] = []
subtract name votes (k ∷ []) = record k { count = sub_int k.count votes } ∷ []
subtract name votes (k ∷ l ∷ ks) =
    if text_eq k.name name
    then record k { count = sub_int k.count votes } ∷ l ∷ ks
    else k ∷ subtract name votes (l ∷ ks)

-- `(found2 == 0) || (temp_counter->count < atoi(res[1]))`
abbrev pub insufficient : Option ℕ → Option Text → Run Bool
insufficient none votes = done true
insufficient (some count) votes = do v ← use_ptr votes; done (lt_int count (atoi v))

-- The first loop: `none` where makeargv fails, else the names that are short of votes.
abbrev pub note_short : Bool → Text → Option (List Text) → Option (List Text)
note_short short name none = none
note_short true name (some l) = some (name ∷ l)
note_short false name (some l) = some l

abbrev pub check_entry :
    Run (Option (List Text)) → List Counter → Option (List Text) → Run (Option (List Text))
check_entry next ks none = done none
check_entry next ks (some res) = do
  name ← use_ptr (arg res 0)
  short ← insufficient (find_counter name ks) (arg res 1)
  names ← next
  done (note_short short name names)

unfoldable pub check_entries : List Text → List Counter → Run (Option (List Text))
check_entries [] ks = done (some [])
check_entries (t ∷ ts) ks = check_entry (check_entries ts ks) ks (makeargv (some t) (codes ":"))

-- How the second loop ends: done, by the return at a name that is short, or where makeargv fails.
pub data Removed : Type 0 where
  all_removed : List Counter → Removed
  short_of : Text → List Counter → Removed
  removal_failed : List Counter → Removed

-- The second loop. It leaves `found2` at 1, where the first loop's last round has set it: a round
-- with `found2 == 0` sets `is`, and then the second loop is not reached.
abbrev pub remove_entry :
    (List Counter → Run Removed) → List Counter → Option (List Text) → Run Removed
remove_entry next ks none = done (removal_failed ks)
remove_entry next ks (some res) = do
  (name, votes) ← entry_of res
  if lt_int (reached_count name ks) votes
      then done (short_of name ks)
      else next (subtract name votes ks)

unfoldable pub remove_entries : List Text → List Counter → Run Removed
remove_entries [] ks = done (all_removed ks)
remove_entries (t ∷ ts) ks =
    remove_entry (λ l. remove_entries ts l) ks (makeargv (some t) (codes ":"))

abbrev pub join_comma : List Text → Text
join_comma [] = []
join_comma (t ∷ []) = t
join_comma (t ∷ u ∷ us) = t ++ b',' ∷ join_comma (u ∷ us)

abbrev pub store_counters : ℕ → Node → List Counter → Server → Server
store_counters i n ks s = record s { nodes = set s.nodes i (record n { counters = ks }) }

abbrev pub after_removal : ℕ → Node → Removed → Server → Server
after_removal i n (all_removed ks) s = say (codes "SC;") (store_counters i n ks s)
after_removal i n (short_of name ks) s = say (codes "IS;" ++ name) (store_counters i n ks s)
after_removal i n (removal_failed ks) s = say (codes "UE;") (store_counters i n ks s)

-- What the first loop leaves to do; the comma behind the last name is cut off.
abbrev pub remove_checked : List Text → ℕ → Node → Server → Option (List Text) → Run Server
remove_checked res_temp i n s none = done (say (codes "UE;") s)
remove_checked res_temp i n s (some []) = do
  removed ← remove_entries res_temp n.counters
  done (after_removal i n removed s)
remove_checked res_temp i n s (some (name ∷ more)) =
    done (say (codes "IS;" ++ join_comma (name ∷ more)) s)

abbrev pub remove_parsed : ℕ → Node → Server → Option (List Text) → Run Server
remove_parsed i n s none = done (say (codes "UE;") s)
remove_parsed i n s (some res_temp) = do
  names ← check_entries res_temp n.counters
  remove_checked res_temp i n s names

abbrev pub remove_at : Text → Text → Option (ℕ × Node) → Server → Run Server
remove_at input name none s = done (say (codes "NR;" ++ trimwhitespace name) s)
remove_at input name (some (i, n)) s =
    if not (is_leaf n)
    then done (say (codes "NL;" ++ n.name) s)
    else if not n.open_ || n.closed
    then done (say (codes "RC;" ++ trimwhitespace name) s)
    else remove_parsed i n s (makeargv (some input) (codes ","))

unfoldable pub remove_votes : List Text → Server → Run Server
remove_votes argvp s = do
  input ← use_ptr (arg argvp 2)
  name ← use_ptr (arg argvp 1)
  remove_at (trimwhitespace input) name (find_node (trimwhitespace name) s.nodes) s
