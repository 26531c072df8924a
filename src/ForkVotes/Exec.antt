-- ===== src/ForkVotes/Exec.antt =====
-- execNodes: the commands that the processes become.
use os.Base.{
  ℕ, zero, suc, Bool, true, false, List, [], ◌∷◌, ◌++◌, length, get_elem?, set, if◌then◌else◌, Run,
  done, loops, ◌>>=◌, use_ptr,
}
use os.Text.{Text, codes, text_eq, show_int}
use os.ForkVotes.{Region}

-- What a process becomes.
pub data Program : Type 0 where
  run_leafcounter : Program
  run_aggregate_votes : Program
  run_find_winner : Program

pub record Command : Type 0 where
  pub program : Program
  pub inputs : List Text
  pub output : Text

abbrev pub output_of : Text → Text
output_of name = codes "Output_" ++ name

abbrev pub leaf_command : Region → Command
leaf_command n = record {
  program = run_leafcounter;
  inputs = n.name ∷ [];
  output = output_of n.name;
}

-- prepend(firstnode[id].name, "Output_") for each child: it writes to the name in the node.
unfoldable pub prepend_all : List ℕ → List Region → Run (List Region)
prepend_all [] ns = done ns
prepend_all (j ∷ js) ns = do
  child ← use_ptr (get_elem? ns j)
  prepend_all js (set ns j (record child { name = output_of child.name }))

-- What the arguments are when the program starts: each points to the name in a node.
unfoldable pub outputs_of : List ℕ → List Region → Run (List Text)
outputs_of [] ns = done []
outputs_of (j ∷ js) ns = do
  child ← use_ptr (get_elem? ns j)
  rest ← outputs_of js ns
  done (child.name ∷ rest)

abbrev pub program_of : Text → Program
program_of output =
    if text_eq output (codes "Output_Who_Won") then run_find_winner else run_aggregate_votes

abbrev pub own_command : Region → List Text → Command
own_command n inputs = record {
  program = program_of (output_of n.name);
  inputs = inputs;
  output = output_of n.name;
}

abbrev pub is_leaf_region : Region → Bool
is_leaf_region n = elim n.children [ [] ↦ true | _ ∷ _ ↦ false ]

-- The processes for the children, one after another; each is waited for. `call` is the recursive call.
unfoldable pub exec_children : (ℕ → Run (List Command)) → List ℕ → List Region → Run (List Command)
exec_children call [] ns = done []
exec_children call (j ∷ js) ns = do
  child ← use_ptr (get_elem? ns j)
  cmds ← if is_leaf_region child then done (leaf_command child ∷ []) else call j
  rest ← exec_children call js ns
  done (cmds ++ rest)

-- The commands in the order in which they run. Each process has nodes of its own: the names that
-- prepend_all writes are those of the process that becomes the region's program.
unfoldable pub exec_nodes : ℕ → ℕ → List Region → Run (List Command)
exec_nodes zero root_id ns = loops
exec_nodes (suc fuel) root_id ns = do
  n ← use_ptr (get_elem? ns root_id)
  cmds ← exec_children (λ j. exec_nodes fuel j ns) n.children ns
  renamed ← prepend_all n.children ns
  inputs ← outputs_of n.children renamed
  m ← use_ptr (get_elem? renamed root_id)
  done (cmds ++ own_command m inputs ∷ [])

-- The arguments that a command is run with.
unfoldable pub argarr : Command → Text → List Text → List Text
argarr c num_can can_names = elim c.program [
  | run_leafcounter ↦ codes "leafcounter" ∷ (c.inputs ++ (c.output ∷ num_can ∷ can_names))
  | run_aggregate_votes ↦
      codes "aggregate_votes"
      ∷ show_int (length c.inputs)
      ∷ (c.inputs ++ (c.output ∷ num_can ∷ can_names))
  | run_find_winner ↦
      codes "aggregate_votes"
      ∷ show_int (length c.inputs)
      ∷ (c.inputs ++ (c.output ∷ num_can ∷ can_names))
]
