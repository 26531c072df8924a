-- ===== src/VoteCounter/Paths/Tree.antt =====
-- The directories that createDAG of the vote counter makes.
use os.Base.{
  Bool, true, false, Option, none, some, List, [], ◌∷◌, ◌++◌, ◌≡◌, refl, ◌⊎◌, inl, inr, All,
  All-weaken, All-append, Ends, Ends-bind, ◌>>=◌, if◌then◌else◌, ◌∙◌,
}
use os.Text.{Text, codes, text_eq, makeargv}
use os.Server.Dag.{is_comment}
use os.Server.State.Find.{text_eq_iff}
use os.VoteCounter.Paths.{
  DirNode, makepath, create_dirs, find_path, attach, dag_tokens, dag_lines, create_dirs_of,
  written_root,
}

-- A node that stands in the list.
abbrev pub IsIn : DirNode → List DirNode → Type 0
IsIn p [] = ⊥
IsIn p (d ∷ ds) = (d ≡ p) ⊎ IsIn p ds

-- The path of a node is that of a node of the list, and its own name.
abbrev pub HasParent : List DirNode → DirNode → Type 0
HasParent ds d = (p : DirNode) × IsIn p ds × (d.path ≡ makepath p.path d.name)

-- The root stands below the output directory, and each other node below a node.
abbrev pub IsTree : Text → List DirNode → Type 0
IsTree output_dir [] = Unit
IsTree output_dir (root ∷ ds) =
    (root.path ≡ makepath output_dir root.name) × All (HasParent (root ∷ ds)) ds

IsIn-append : (p : DirNode) (ds es : List DirNode) → IsIn p ds → IsIn p (ds ++ es)
IsIn-append p [] es h = absurd h
IsIn-append p (d ∷ ds) es (inl e) = inl e
IsIn-append p (d ∷ ds) es (inr h) = inr (IsIn-append p ds es h)

find_path-IsIn :
    (name : Text) (ds : List DirNode) (path : Text)
    → find_path name ds ≡ some path
    → (p : DirNode) × IsIn p ds × (p.name ≡ name) × (p.path ≡ path)
unfolding find_path
find_path-IsIn name [] path e = cc
find_path-IsIn name (d ∷ ds) path e = behind (find_path name ds) e (find_path-IsIn name ds)
  where
    here :
        (z : Bool)
        → text_eq d.name name ≡ z
        → (if z then some d.path else none) ≡ some path
        → (p : DirNode) × IsIn p (d ∷ ds) × (p.name ≡ name) × (p.path ≡ path)
    here true t e = (d, inl refl, (text_eq_iff d.name name).0 t, cc)
    here false t e = cc

    behind :
        (o : Option Text)
        → (elim o [
          | some path ↦ some path
          | none ↦ if text_eq d.name name then some d.path else none
        ])
          ≡ some path
        → ((q : Text) → o ≡ some q → (p : DirNode) × IsIn p ds × (p.name ≡ name) × (p.path ≡ q))
        → (p : DirNode) × IsIn p (d ∷ ds) × (p.name ≡ name) × (p.path ≡ path)
    behind none e k = here (text_eq d.name name) refl e
    behind (some q) e k = let (p, i, a, b) = k q refl in (p, inr i, a, b ∙ cc)

create_dirs-HasParent :
    (p : DirNode) (all : List DirNode) (path : Text) (names : List Text)
    → IsIn p all
    → p.path ≡ path
    → All (HasParent all) (create_dirs path names)
unfolding create_dirs
create_dirs-HasParent p all path [] i e = tt
create_dirs-HasParent p all path (t ∷ ts) i e =
    ((p, i, rw e refl), create_dirs-HasParent p all path ts i e)

dag_tokens-Ends :
    (output_dir : Text) (ds : List DirNode) (o : Option (List Text))
    → IsTree output_dir ds
    → Ends (IsTree output_dir) (dag_tokens output_dir ds o)
dag_tokens-Ends output_dir ds none h = h
dag_tokens-Ends output_dir [] (some []) h = tt
dag_tokens-Ends output_dir (root ∷ []) (some []) h = tt
dag_tokens-Ends output_dir (root ∷ d ∷ ds) (some []) h = tt
dag_tokens-Ends output_dir [] (some (name ∷ names)) h =
    let root : DirNode = record { name = name; path = makepath output_dir name } in
    (
      refl,
      create_dirs-HasParent root (root ∷ create_dirs (makepath output_dir name) names)
          (makepath output_dir name) names (inl refl) refl,
    )
dag_tokens-Ends output_dir (root ∷ ds) (some (name ∷ names)) (r, h) = found (find_path name ds) refl
  where
    found :
        (o : Option Text)
        → find_path name ds ≡ o
        → Ends (IsTree output_dir) (attach names (root ∷ ds) o)
    found none e = tt
    found (some path) e =
        let (p, i, a, b) = find_path-IsIn name ds path e in
        (
          r,
          All-append (HasParent ((root ∷ ds) ++ create_dirs path names)) ds (create_dirs path names)
              (All-weaken ds
                (λ d (q, j, c). (q, IsIn-append q (root ∷ ds) (create_dirs path names) j, c)) h)
              (create_dirs-HasParent p ((root ∷ ds) ++ create_dirs path names) path names
                (IsIn-append p (root ∷ ds) (create_dirs path names) (inr i)) b),
        )

read_one-Ends :
    (output_dir : Text) (buf : Text) (more : List Text) (ds : List DirNode) (comment : Bool)
    → IsTree output_dir ds
    → ((es : List DirNode)
        → IsTree output_dir es
        → Ends (IsTree output_dir) (dag_lines output_dir more es))
    → Ends (IsTree output_dir) (elim comment [
      | Bool.true ↦ dag_lines output_dir more ds
      | Bool.false ↦ do
        ds' ← dag_tokens output_dir ds (makeargv (some buf) (codes ":"))
        dag_lines output_dir more ds'
    ])
read_one-Ends output_dir buf more ds true h k = k ds h
read_one-Ends output_dir buf more ds false h k =
    Ends-bind _ _ (dag_tokens output_dir ds (makeargv (some buf) (codes ":"))) _
      (dag_tokens-Ends output_dir ds (makeargv (some buf) (codes ":")) h) k

dag_lines-Ends :
    (output_dir : Text) (lines : List Text) (ds : List DirNode)
    → IsTree output_dir ds
    → Ends (IsTree output_dir) (dag_lines output_dir lines ds)
unfolding dag_lines
dag_lines-Ends output_dir [] ds h = h
dag_lines-Ends output_dir (buf ∷ more) ds h =
    read_one-Ends output_dir buf more ds (is_comment buf) h
      (λ es k. dag_lines-Ends output_dir more es k)

-- createDAG of the vote counter ends on every file. If it returns, its nodes are a tree of
-- directories: the first one lies in the output directory under its own name, and the path of each
-- other node is the path of a node and its own name.
pub create_dirs_of-IsTree :
    (output_dir : Text) (lines : List Text)
    → Ends (IsTree output_dir) (create_dirs_of output_dir lines)
unfolding create_dirs_of
create_dirs_of-IsTree output_dir lines =
    Ends-bind _ _ (dag_lines output_dir lines []) _ (dag_lines-Ends output_dir lines [] tt)
      (λ ds h. root_written ds h)
  where
    root_written :
        (ds : List DirNode) → IsTree output_dir ds → Ends (IsTree output_dir) (written_root ds)
    root_written [] h = tt
    root_written (root ∷ ds) h = h
