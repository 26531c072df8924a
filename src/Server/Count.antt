-- ===== src/Server/Count.antt =====
-- aggregate, Count_Votes and Return_Winner.
pub mod Tally
pub mod Merge
pub mod Below
pub mod Aggregate
pub mod Reports
use os.Base.{
  ℕ, zero, suc, Bool, true, false, not, ◌&&◌, ◌||◌, Option, none, some, List, [], ◌∷◌, ◌++◌, length,
  set, if◌then◌else◌, Run, done, loops, ◌>>=◌, use_ptr,
}
use os.Base.Word.{add_int, lt_int}
use os.Text.{Text, codes, text_eq, trimwhitespace, arg, show_int}
use os.Server.State.{Counter, Node, Server, find_node, deref, say}
use os.Server.Votes.{is_leaf, join_comma}

-- The search of a child's candidate among the parent's counters, and the sum or the append.
unfoldable pub add_count : Counter → List Counter → List Counter
add_count child [] = child ∷ []
add_count child (k ∷ ks) =
    if text_eq k.name child.name
    then record k { count = add_int k.count child.count } ∷ ks
    else k ∷ add_count child ks

-- One round of `while (child_counter->next != NULL)`. Without data the parent's chain is not
-- searched, and the new counter is written behind its head.
unfoldable pub absorb : Counter → Node → Node
absorb child root =
    if root.hasdata
    then record root { counters = add_count child root.counters }
    else record root { hasdata = true; counters = child ∷ [] }

unfoldable pub absorb_all : List Counter → Node → Node
absorb_all [] root = root
absorb_all (k ∷ ks) root = absorb_all ks (absorb k root)

unfoldable pub merge_child : ℕ → ℕ → List Node → Run (List Node)
merge_child i c ns = do
  root ← deref ns i
  child ← deref ns c
  done (set ns i (absorb_all child.counters root))

-- The body of the loop over the children, by whether the child has data and is a leaf; `call` is
-- the recursive call of aggregate.
abbrev pub visit_child :
    (ℕ → List Node → Run (List Node)) → ℕ → ℕ → List Node → Bool → Bool → Run (List Node)
visit_child call i c ns true leaf = merge_child i c ns
visit_child call i c ns false true = done ns
visit_child call i c ns false false = do called ← call c ns; merge_child i c called

unfoldable pub merge_children :
    (ℕ → List Node → Run (List Node)) → ℕ → List ℕ → List Node → Run (List Node)
merge_children call i [] ns = done ns
merge_children call i (c ∷ cs) ns = do
  child ← deref ns c
  ns' ← visit_child call i c ns child.hasdata (is_leaf child)
  merge_children call i cs ns'

-- Fuel bounds the depth of the recursion.
unfoldable pub aggregate_from : ℕ → ℕ → List Node → Run (List Node)
aggregate_from zero i ns = loops
aggregate_from (suc fuel) i ns = do
  n ← deref ns i
  merge_children (aggregate_from fuel) i n.children ns

-- A child stands behind its parent in the list, so the number of regions bounds the depth.
unfoldable pub aggregate : ℕ → List Node → Run (List Node)
aggregate i ns = aggregate_from (suc (length ns)) i ns

abbrev pub show_counter : Counter → Text
show_counter k = k.name ++ b':' ∷ show_int k.count

unfoldable pub show_counters : List Counter → List Text
show_counters [] = []
show_counters (k ∷ ks) = show_counter k ∷ show_counters ks

abbrev pub count_reply : Node → Text
count_reply n = codes "SC;" ++ join_comma (show_counters n.counters)

unfoldable pub count_at : ℕ → Node → Server → Run Server
count_at i n s = if n.hasdata then done (say (count_reply n) s) else do
  ns ← aggregate i s.nodes
  n' ← deref ns i
  done (say (if n'.hasdata then count_reply n' else codes "SC;No votes.") (record s { nodes = ns }))

abbrev pub count_found : Text → Option (ℕ × Node) → Server → Run Server
count_found name none s = done (say (codes "NR;" ++ trimwhitespace name) s)
count_found name (some (i, n)) s = count_at i n s

unfoldable pub count_votes : List Text → Server → Run Server
count_votes argvp s = do
  name ← use_ptr (arg argvp 1)
  count_found name (find_node (trimwhitespace name) s.nodes) s

abbrev pub is_closed : Node → Bool
is_closed n = not n.open_ && n.closed

-- The loop that sets `allclose`.
unfoldable pub all_closed : List Node → Bool
all_closed [] = true
all_closed (n ∷ ns) = (not (is_leaf n) || is_closed n) && all_closed ns

-- The loop that fills `buf_name` and `buf_count`.
unfoldable pub best : Text × ℕ → List Counter → Text × ℕ
best buf [] = buf
best buf (k ∷ ks) = best (if lt_int buf.1 k.count then (k.name, k.count) else buf) ks

abbrev pub winner_reply : Node → Text
winner_reply n =
    if n.hasdata then codes "SC;Winner:" ++ (best ([], 0) n.counters).0 else codes "SC;No votes."

unfoldable pub winner_at : ℕ → Node → Server → Run Server
winner_at i n s =
    if not (is_closed n) || not (all_closed s.nodes)
    then done (say (codes "RO;" ++ n.name ++ codes "\n") s)
    else do
      ns ← aggregate i s.nodes
      n' ← deref ns i
      done (say (winner_reply n') (record s { nodes = ns }))

abbrev pub winner_found : Text → Option (ℕ × Node) → Server → Run Server
winner_found name none s = done (say (codes "NR;" ++ trimwhitespace name) s)
winner_found name (some (i, n)) s = winner_at i n s

-- The name that is looked up is that of the first region.
unfoldable pub return_winner : Server → Run Server
return_winner s = do
  first ← deref s.nodes 0
  winner_found first.name (find_node first.name s.nodes) s
