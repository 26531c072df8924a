-- ===== src/Server/Polls.antt =====
-- Open_Polls and Close_Polls: recursion by name through the children of a region.
pub mod Sweep
pub mod Visit
pub mod Open
pub mod Close
use os.Base.{
  ℕ, zero, suc, Bool, true, false, not, Option, none, some, List, [], ◌∷◌, length, set,
  if◌then◌else◌, Run, done, loops, ◌>>=◌,
}
use os.Text.{Text, trimwhitespace, trim_in_place}
use os.Server.State.{Node, find_node, deref}

-- The results 1, 0, -1 and -2.
pub data Code : Type 0 where
  success already refused not_found : Code

-- What `trimwhitespace(name)`, the first step of a call, leaves of the string that it is given: the
-- name that is stored in a region.
abbrev pub trim_name : Node → Node
trim_name n = record n { name = trim_in_place n.name }

-- The loop `f = call(children[i]->name)`; the results are dropped. The call trims its argument in
-- place, and that is the child's own name; the write is set down here, in front of the rest of the
-- call.
unfoldable pub each_child :
    (Text → List Node → Run (Code × List Node)) → List ℕ → List Node → Run (List Node)
each_child call [] ns = done ns
each_child call (c ∷ cs) ns = do
  child ← deref ns c
  (_, ns') ← call child.name (set ns c (trim_name child))
  each_child call cs ns'

-- The branches behind the search loop. `check` is the early return of a region that cannot change,
-- `act` the writes to its flags, and `call` the recursive call.
abbrev pub visit_node :
    (Text → List Node → Run (Code × List Node))
    → (Node → Node)
    → ℕ
    → Node
    → List Node
    → Option Code
    → Run (Code × List Node)
visit_node call act i n ns (some code) = done (code, ns)
visit_node call act i n ns none = do
  ns' ← each_child call n.children (set ns i (act n))
  done (success, ns')

abbrev pub visit_found :
    (Text → List Node → Run (Code × List Node))
    → (Node → Option Code)
    → (Node → Node)
    → List Node
    → Option (ℕ × Node)
    → Run (Code × List Node)
visit_found call check act ns none = done (not_found, ns)
visit_found call check act ns (some (i, n)) = visit_node call act i n ns (check n)

-- What Open_Polls and Close_Polls have in common. Fuel bounds the depth of the recursion.
unfoldable pub sweep :
    (Node → Option Code) → (Node → Node) → ℕ → Text → List Node → Run (Code × List Node)
sweep check act zero name ns = loops
sweep check act (suc fuel) name ns =
    visit_found (sweep check act fuel) check act ns (find_node (trimwhitespace name) ns)

unfoldable pub open_check : Node → Option Code
open_check n = if n.open_ then some already else if n.closed then some refused else none

unfoldable pub open_node : Node → Node
open_node n = record n { open_ = true }

unfoldable pub close_check : Node → Option Code
close_check n = if n.closed then some already else if not n.open_ then some refused else none

unfoldable pub close_node : Node → Node
close_node n = record n { closed = true; open_ = false }

-- Each level of the recursion changes a region of its own, so the number of regions bounds it.
unfoldable pub open_polls : Text → List Node → Run (Code × List Node)
open_polls name ns = sweep open_check open_node (suc (length ns)) name ns

unfoldable pub close_polls : Text → List Node → Run (Code × List Node)
close_polls name ns = sweep close_check close_node (suc (length ns)) name ns
