-- ===== src/ForkVotes/Descendants.antt =====
-- NumOfDescendant and findRoot.
use os.Base.{
  ℕ, zero, suc, true, Option, none, some, List, [], ◌∷◌, length, get_elem?, set, if◌then◌else◌, Run,
  done, loops, ◌>>=◌, use_ptr,
}
use os.Base.Word.{add_int, lt_int}
use os.ForkVotes.{Region}

-- NumOfDescendant for one child, with its own recursive call as `count`.
abbrev pub child_descendants :
    (ℕ → List Region → Run (List Region × ℕ)) → ℕ → Region → List Region → Run (List Region × ℕ)
child_descendants count j child ns =
    if child.status then done (ns, child.num_descendant) else count j ns

unfoldable pub add_descendants :
    (ℕ → List Region → Run (List Region × ℕ)) → ℕ → List ℕ → List Region → Run (List Region)
add_descendants count num [] ns = done ns
add_descendants count num (j ∷ js) ns = do
  child ← use_ptr (get_elem? ns j)
  (ns', d) ← child_descendants count j child ns
  n ← use_ptr (get_elem? ns' num)
  add_descendants count num js
      (set ns' num (record n { num_descendant = add_int n.num_descendant d }))

unfoldable pub num_of_descendant : ℕ → ℕ → List Region → Run (List Region × ℕ)
num_of_descendant zero num ns = loops
num_of_descendant (suc fuel) num ns = do
  n ← use_ptr (get_elem? ns num)
  ns' ← add_descendants (num_of_descendant fuel) num n.children ns
  counted ← use_ptr (get_elem? ns' num)
  done (set ns' num (record counted { status = true }), counted.num_descendant)

-- The loop of findRoot, over `rounds` nodes from `i` on; `none` is -1.
unfoldable pub find_root_from : ℕ → ℕ → ℕ → Option ℕ → ℕ → List Region → Run (Option ℕ)
find_root_from fuel zero i root most ns = done root
find_root_from fuel (suc rounds) i root most ns = do
  (ns', n) ← num_of_descendant fuel i ns
  if lt_int most n
      then find_root_from fuel rounds (suc i) (some i) n ns'
      else find_root_from fuel rounds (suc i) root most ns'

unfoldable pub find_root : ℕ → List Region → Run (Option ℕ)
find_root fuel ns = find_root_from fuel (length ns) 0 none 0 ns
