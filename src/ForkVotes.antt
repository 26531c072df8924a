-- ===== src/ForkVotes.antt =====
-- The vote counter of CSCI4061_asn1 (votecounter.c), which reads a DAG of regions and runs one
-- program for each of them. The array of nodes is the list of those that are in use, for calls with
-- their number as numofnodes, and a region's children are taken to be no more than the ten that a node
-- has room for. parseInput, which passes an unset numofnodes on, is not modelled.
pub mod Descendants
pub mod Exec
pub mod Links
pub mod Order
pub mod Prepend
use os.Base.{
  ℕ, zero, suc, Bool, true, false, ◌||◌, ◌&&◌, Option, none, some, List, [], ◌∷◌, ◌++◌, length, map,
  get_elem?, set, ltb, ◌==◌, if◌then◌else◌, Run, done, exit, loops, ◌>>=◌, use_ptr,
}
use os.Base.Word.{add_int, lt_int}
use os.Text.{Text, codes, text_eq, is_digit, trimwhitespace, trim_in_place, makeargv, show_int}

-- struct node, without the fields that nothing reads. `status` is whether the descendants are counted.
pub record Region : Type 0 where
  pub name : Text
  pub children : List ℕ
  pub num_descendant : ℕ
  pub status : Bool

-- num_can, can_names, visited behind its first entry, and the nodes.
pub record Input : Type 0 where
  pub num_can : Text
  pub can_names : List Text
  pub visited : List Text
  pub nodes : List Region

abbrev pub no_input : Input
no_input = record { num_can = []; can_names = []; visited = []; nodes = [] }

-- makeNodes and changeNodeName for one name.
abbrev pub make_node : Text → Region
make_node name_i = record {
  name = trimwhitespace name_i;
  children = [];
  num_descendant = 0;
  status = false;
}

abbrev pub find_region_from : Text → ℕ → List Region → Option ℕ
find_region_from name i [] = none
find_region_from name i (n ∷ ns) =
    let rest = find_region_from name (suc i) ns in if text_eq n.name name then some i else rest

-- The first node of that name.
abbrev pub find_region : Text → List Region → Option ℕ
find_region name ns = find_region_from name 0 ns

abbrev pub add_child : Option ℕ → Option Region → Option ℕ → List Region → List Region
add_child (some i) (some father) (some j) ns =
    set ns i (record father { children = father.children ++ j ∷ [] })
add_child _ _ _ ns = ns

abbrev pub region_at : List Region → Option ℕ → Option Region
region_at ns none = none
region_at ns (some i) = get_elem? ns i

unfoldable pub creat_tree : Text → Text → List Region → List Region
creat_tree fathername childname ns =
    let father = find_region fathername ns in
    add_child father (region_at ns father) (find_region childname ns) ns

-- The tokens behind the second one of a line of children. The pointer in visited sees what
-- trimwhitespace writes.
unfoldable pub attach_children : Text → List Text → Input → Input
attach_children father [] s = s
attach_children father (t ∷ ts) s = attach_children father ts (record s {
  visited = s.visited ++ trim_in_place t ∷ [];
  nodes = creat_tree (trimwhitespace father) (trimwhitespace t) s.nodes;
})

abbrev pub spaced : List Text → Text
spaced [] = []
spaced (t ∷ ts) = t ++ 32 ∷ spaced ts

abbrev pub tokens_in : Option (List Text) → List Text
tokens_in none = []
tokens_in (some ts) = ts

abbrev pub candidates_line : Text → List Text → Input → Run Input
candidates_line [] argvp s = exit
candidates_line (c ∷ cs) [] s = exit
candidates_line (c ∷ cs) (number ∷ names) s =
    if is_digit c
    then done (record s {
      num_can = number;
      can_names = tokens_in (makeargv (some (spaced names)) (codes " "));
    })
    else exit

-- `!strcmp(visited[i], visited[ii]) && i != ii`
unfoldable pub repeated_at : Text → ℕ → ℕ → List Text → Bool
repeated_at t i ii [] = false
repeated_at t i ii (v ∷ vs) =
    if text_eq t v && (if i == ii then false else true) then true else repeated_at t i (suc ii) vs

unfoldable pub repeated_from : ℕ → List Text → List Text → Bool
repeated_from i [] visited = false
repeated_from i (t ∷ ts) visited =
    if repeated_at t i 0 visited then true else repeated_from (suc i) ts visited

-- findDAG_Loop
unfoldable pub find_dag_loop : List Text → Bool
find_dag_loop visited = repeated_from 0 visited visited

abbrev pub init_descendants : Region → Region
init_descendants n = record n { num_descendant = length n.children }
