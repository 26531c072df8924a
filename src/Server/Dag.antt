-- ===== src/Server/Dag.antt =====
-- createDAG and the start of main: the regions that a DAG file declares.
pub mod Forest
use os.Base.{
  ℕ, zero, suc, ◌+◌, Bool, true, false, Option, none, some, List, [], ◌∷◌, ◌++◌, ◌==◌, length, set,
  if◌then◌else◌, Run, done, fault, exit, ◌>>=◌, ◌>>◌, use_ptr,
}
use os.Text.{Text, codes, trimlastenter, makeargv}
use os.Server.State.{Node, create, find_node, shift_found}

-- The new regions of one line and their places in the children array, which count up from `i`.
unfoldable pub create_all : List Text → List Node
create_all [] = []
create_all (t ∷ ts) = create (trimlastenter t) ∷ create_all ts

unfoldable pub count_up : ℕ → List Text → List ℕ
count_up i [] = []
count_up i (t ∷ ts) = i ∷ count_up (suc i) ts

-- The loop over argvp[1 ..]: a region for each name at the end of the list, and the new children
-- array of the region at `at_`.
unfoldable pub add_children : ℕ → Node → List Text → List Node → List Node
add_children at_ n names nodes =
    set nodes at_ (record n { children = count_up (length nodes) names }) ++ create_all names

-- strcmp with the line's first token is only reached in a list with a second region.
abbrev pub find_parent : Option Text → List Node → Run (Option (ℕ × Node))
find_parent name [] = done none
find_parent none (n ∷ ns) = fault
find_parent (some name) (n ∷ ns) = done (find_node name (n ∷ ns))

abbrev pub later_line : List Text → List Node → Run (List Node)
later_line argvp [] = fault
later_line [] (root ∷ ns) = do _ ← find_parent none ns; exit
later_line (name ∷ names) (root ∷ ns) = do
  found ← find_parent (some name) ns
  (i, n) ← elim found [ none ↦ exit | some p ↦ done p ]
  done (add_children (suc i) n names (root ∷ ns))

abbrev pub first_line : List Text → List Node → Run (List Node)
first_line argvp [] = fault
first_line [] (root ∷ ns) = fault
first_line (name ∷ names) (root ∷ ns) =
    done (add_children 0 (record root { name = name }) names (root ∷ ns))

abbrev pub is_comment : Text → Bool
is_comment [] = false
is_comment (c ∷ cs) = c == b'#'

-- One round of the getline loop.
unfoldable pub read_line : ℕ → Text → List Node → Run (List Node)
read_line linecounter buf nodes =
    if is_comment buf then done nodes else elim (makeargv (some buf) (codes ":")) [
      | none ↦ fault
      | some argvp ↦ if linecounter == 0 then first_line argvp nodes else later_line argvp nodes
    ]

unfoldable pub read_lines : ℕ → List Text → List Node → Run (List Node)
read_lines linecounter [] nodes = done nodes
read_lines linecounter (l ∷ ls) nodes = do
  nodes' ← read_line linecounter l nodes
  read_lines (linecounter + 1) ls nodes'

-- The lines of the file, each with its newline.
unfoldable pub create_dag : List Text → Run (List Node)
create_dag lines = read_lines 0 lines (create [] ∷ [])
