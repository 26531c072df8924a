-- ===== src/VoteCounter/Paths.antt =====
-- The directories of the tree: createDAG, makepath, getPath, getparentname and trimlastslash.
pub mod Tree
use os.Base.{
  ◌-◌, Bool, Option, none, some, List, [], ◌∷◌, ◌++◌, length, leb, ◌==◌, if◌then◌else◌, Run, done,
  fault, exit, ◌>>=◌, use_ptr,
}
use os.Text.{Text, codes, text_eq, makeargv, arg, trimlastenter}
use os.Server.Dag.{is_comment}

-- struct dir, without its links: publicroot and the list behind it are one list.
pub record DirNode : Type 0 where
  pub name : Text
  pub path : Text

unfoldable pub trimlastslash : Text → Text
trimlastslash [] = []
trimlastslash (c ∷ []) = if c == b'/' then [] else c ∷ []
trimlastslash (c ∷ d ∷ ds) = c ∷ trimlastslash (d ∷ ds)

unfoldable pub makepath : Text → Text → Text
makepath oldpath filename = oldpath ++ b'/' ∷ filename

-- The loops that create the nodes for the tokens behind the first.
unfoldable pub create_dirs : Text → List Text → List DirNode
create_dirs path [] = []
create_dirs path (t ∷ ts) =
    record { name = trimlastenter t; path = makepath path (trimlastenter t) } ∷ create_dirs path ts

-- The path of the last node of that name.
unfoldable pub find_path : Text → List DirNode → Option Text
find_path name [] = none
find_path name (d ∷ ds) = elim (find_path name ds) [
  | some path ↦ some path
  | none ↦ if text_eq d.name name then some d.path else none
]

-- A line: the first one makes the root; in another the parent is looked for behind the root.
abbrev pub attach : List Text → List DirNode → Option Text → Run (List DirNode)
attach names ds none = exit
attach names ds (some path) = done (ds ++ create_dirs path names)

abbrev pub dag_tokens : Text → List DirNode → Option (List Text) → Run (List DirNode)
dag_tokens output_dir ds none = done ds
dag_tokens output_dir [] (some []) = fault
dag_tokens output_dir (root ∷ []) (some []) = exit
dag_tokens output_dir (root ∷ d ∷ ds) (some []) = fault
dag_tokens output_dir [] (some (name ∷ names)) =
    let path = makepath output_dir name in
    done (record { name = name; path = path } ∷ create_dirs path names)
dag_tokens output_dir (root ∷ ds) (some (name ∷ names)) =
    attach names (root ∷ ds) (find_path name ds)

unfoldable pub dag_lines : Text → List Text → List DirNode → Run (List DirNode)
dag_lines output_dir [] ds = done ds
dag_lines output_dir (buf ∷ more) ds = elim (is_comment buf) [
  | Bool.true ↦ dag_lines output_dir more ds
  | Bool.false ↦ do
    ds' ← dag_tokens output_dir ds (makeargv (some buf) (codes ":"))
    dag_lines output_dir more ds'
]

-- The root is allocated in front of the loop and written by the first line that is no comment. Where
-- there is no such line, mkdir reads the path of a root that nothing was written to: a fault.
abbrev pub written_root : List DirNode → Run (List DirNode)
written_root [] = fault
written_root (root ∷ ds) = done (root ∷ ds)

-- createDAG; the directories that it makes in the end are those at `made_paths`.
unfoldable pub create_dirs_of : Text → List Text → Run (List DirNode)
create_dirs_of output_dir lines = do ds ← dag_lines output_dir lines []; written_root ds

-- The paths that are given to mkdir in the end, in order.
unfoldable pub made_paths : List DirNode → List Text
made_paths [] = []
made_paths (d ∷ ds) = d.path ∷ made_paths ds

abbrev pub file_in : Text → Option Text → Option Text
file_in filename none = none
file_in filename (some path) = some (path ++ b'/' ∷ filename ++ codes ".txt")

-- The output file of a node; `none` is the result -1.
unfoldable pub get_path : Text → List DirNode → Option Text
get_path filename ds = file_in filename (find_path filename ds)

-- argvp[numtokens - 3], where a shorter path reads in front of the array.
abbrev pub third_last : List Text → Run Text
third_last argvp = if leb 3 (length argvp) then use_ptr (arg argvp (length argvp - 3)) else fault

abbrev pub parent_in : Option (List Text) → Run Text
parent_in none = fault
parent_in (some argvp) = third_last argvp

unfoldable pub getparentname : Text → Run Text
getparentname currentpath = parent_in (makeargv (some currentpath) (codes "/"))
