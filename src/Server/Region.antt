-- ===== src/Server/Region.antt =====
-- Add_Region.
use os.Base.{ℕ, Option, none, some, List, [], ◌∷◌, ◌++◌, length, set, Run, done, ◌>>=◌, use_ptr}
use os.Text.{Text, codes, trimwhitespace, arg}
use os.Server.State.{Node, Server, create, find_node, say}

-- The new region at the end of the list, and its place at the end of the parent's array.
unfoldable pub append_region : ℕ → Node → Text → List Node → List Node
append_region i parent child ns =
    set ns i (record parent { children = parent.children ++ length ns ∷ [] }) ++ create child ∷ []

abbrev pub region_found : Text → Text → Option (ℕ × Node) → Server → Run Server
region_found parent child none s = done (say (codes "NR;" ++ parent) s)
region_found parent child (some (i, n)) s = done (
    say (codes "SC;" ++ child ++ codes "\n") (record s { nodes = append_region i n child s.nodes }))

unfoldable pub add_region : List Text → Server → Run Server
add_region argvp s = do
  parent ← use_ptr (arg argvp 1)
  child ← use_ptr (arg argvp 2)
  region_found (trimwhitespace parent) (trimwhitespace child)
      (find_node (trimwhitespace parent) s.nodes) s
