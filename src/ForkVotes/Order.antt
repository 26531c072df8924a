-- ===== src/ForkVotes/Order.antt =====
-- The order in which the programs run: no program reads a file that is not yet written.
use os.Base.{
  ℕ, zero, suc, ◌<◌, Bool, true, false, some, List, [], ◌∷◌, ◌++◌, length, get_elem?, ◌≡◌, refl,
  sym, subst, ap, ◌∙◌, ◌⊎◌, inl, inr, arith, All, All-weaken, Run, done, ◌>>=◌, use_ptr, Returns,
  Returns-bind, Returns-weaken, if◌then◌else◌, get_elem?-of_lt,
}
use os.Text.{Text, codes, text_eq}
use os.ForkVotes.{Region}
use os.ForkVotes.Exec.{
  run_leafcounter, run_aggregate_votes, run_find_winner, Command, output_of, leaf_command,
  prepend_all, outputs_of, own_command, is_leaf_region, exec_children, exec_nodes,
}
use os.ForkVotes.Prepend.{Distinct, with_output, prepend_all-Prepended}

abbrev pub Among : Text → List Text → Type 0
Among f [] = ⊥
Among f (o ∷ os) = (o ≡ f) ⊎ Among f os

-- The files that a command reads and another one writes: run_leafcounter reads votes.
abbrev pub waits_for : Command → List Text
waits_for c = elim c.program [
  | run_leafcounter ↦ []
  | run_aggregate_votes ↦ c.inputs
  | run_find_winner ↦ c.inputs
]

-- Every file that a command waits for is there, or an earlier command has written it.
abbrev pub AreReady : List Text → List Command → Type 0
AreReady there [] = Unit
AreReady there (c ∷ cs) = All (λ f. Among f there) (waits_for c) × AreReady (c.output ∷ there) cs

abbrev pub written : List Command → List Text → List Text
written [] there = there
written (c ∷ cs) there = written cs (c.output ∷ there)

Among-written :
    (f : Text) (cs : List Command) (there : List Text) → Among f there → Among f (written cs there)
Among-written f [] there h = h
Among-written f (c ∷ cs) there h = Among-written f cs (c.output ∷ there) (inr h)

written-append :
    (xs ys : List Command) (there : List Text)
    → written (xs ++ ys) there ≡ written ys (written xs there)
written-append [] ys there = refl
written-append (c ∷ cs) ys there = written-append cs ys (c.output ∷ there)

AreReady-append :
    (xs ys : List Command) (there : List Text)
    → AreReady there xs
    → AreReady (written xs there) ys
    → AreReady there (xs ++ ys)
AreReady-append [] ys there h k = k
AreReady-append (c ∷ cs) ys there (h, hs) k = (h, AreReady-append cs ys (c.output ∷ there) hs k)

-- The commands can run whatever is there, and the file is written then.
abbrev Produces : Text → List Command → Type 0
Produces f cs = (there : List Text) → AreReady there cs × Among f (written cs there)

-- A rank that falls from a region to its children: what a DAG has.
abbrev pub IsRanked : (ℕ → ℕ) → List Region → Type 0
IsRanked rank ns =
    (i : ℕ) (n : Region)
    → get_elem? ns i ≡ some n
    → All (λ j. (j < length ns) × (rank j < rank i)) n.children

abbrev pub OutputAt : List Region → List Command → ℕ → Type 0
OutputAt ns cs j =
    (child : Region) → get_elem? ns j ≡ some child → Produces (output_of child.name) cs

-- The children's files can all be written.
abbrev ProducesAll : List Region → List ℕ → List Command → Type 0
ProducesAll ns js cs =
    (there : List Text)
    → AreReady there cs
      × All
          (λ j.
            (child : Region)
            → get_elem? ns j ≡ some child
            → Among (output_of child.name) (written cs there))
          js

outputs_of-Returns :
    (ns ns' : List Region) (js : List ℕ)
    → All (λ j. j < length ns) js
    → All (λ k. (n : Region) → get_elem? ns k ≡ some n → get_elem? ns' k ≡ some (with_output n)) js
    → Returns
        (λ fs.
          (there : List Text)
          → All
              (λ j.
                (child : Region) → get_elem? ns j ≡ some child → Among (output_of child.name) there)
              js
          → All (λ f. Among f there) fs)
        (outputs_of js ns')
unfolding outputs_of
outputs_of-Returns ns ns' [] h r = λ there k. tt
outputs_of-Returns ns ns' (j ∷ js) (h, hs) (r, rs) =
    let (child, e) = get_elem?-of_lt ns j h in
    rw (r child e) (
      Returns-bind _ _ (outputs_of js ns') _ (outputs_of-Returns ns ns' js hs rs)
        (λ fs k. λ there (a, rest). (a child e, k there rest)))

-- The commands of one child, and behind them those of the others.
ProducesAll-cons :
    (ns : List Region) (j : ℕ) (js : List ℕ) (child : Region) (cmds rest : List Command)
    → get_elem? ns j ≡ some child
    → Produces (output_of child.name) cmds
    → ProducesAll ns js rest
    → ProducesAll ns (j ∷ js) (cmds ++ rest)
ProducesAll-cons ns j js child cmds rest e p q there =
    let (ready, own) = p there in
    let (ready', all) = q (written cmds there) in
    (
      AreReady-append cmds rest there ready ready',
      subst
          (λ l.
            All
              (λ j. (child : Region) → get_elem? ns j ≡ some child → Among (output_of child.name) l)
              (j ∷ js))
          (sym (written-append cmds rest there))
          (
            (λ other e'.
                let same : child ≡ other = cc in
                subst (λ n. Among (output_of n.name) (written rest (written cmds there))) same
                  (Among-written (output_of child.name) rest (written cmds there) own)),
            all,
          ),
    )

one_child :
    (child : Region) (call : Run (List Command))
    → Returns (Produces (output_of child.name)) call
    → Returns
        (Produces (output_of child.name))
        (if is_leaf_region child then done (leaf_command child ∷ []) else call)
one_child child call k = by_flag (is_leaf_region child)
  where
    by_flag :
        (z : Bool)
        → Returns
            (Produces (output_of child.name))
            (if z then done (leaf_command child ∷ []) else call)
    by_flag true = λ there. ((tt, tt), inl refl)
    by_flag false = k

exec_children-ProducesAll :
    (ns : List Region) (call : ℕ → Run (List Command)) (js : List ℕ)
    → All (λ j. j < length ns) js
    → All
        (λ j.
          (child : Region)
          → get_elem? ns j ≡ some child
          → Returns (Produces (output_of child.name)) (call j))
        js
    → Returns (ProducesAll ns js) (exec_children call js ns)
unfolding exec_children
exec_children-ProducesAll ns call [] h k = λ there. (tt, tt)
exec_children-ProducesAll ns call (j ∷ js) (h, hs) (k, ks) =
    let (child, e) = get_elem?-of_lt ns j h in
    let others = exec_children-ProducesAll ns call js hs ks in
    rw e (
      Returns-bind _ _ (if is_leaf_region child then done (leaf_command child ∷ []) else call j) _
        (one_child child (call j) (k child e))
        (λ cmds p.
          Returns-bind _ _ (exec_children call js ns) _ others
            (λ rest q. ProducesAll-cons ns j js child cmds rest e p q)))

waits_for-own : (n : Region) (inputs : List Text) → waits_for (own_command n inputs) ≡ inputs
waits_for-own n inputs = by_flag (text_eq (output_of n.name) (codes "Output_Who_Won"))
  where
    by_flag :
        (z : Bool)
        → (elim (if z then run_find_winner else run_aggregate_votes) [
          | run_leafcounter ↦ []
          | run_aggregate_votes ↦ inputs
          | run_find_winner ↦ inputs
        ])
          ≡ inputs
    by_flag true = refl
    by_flag false = refl

-- The region's own command behind those of its children.
Produces-own :
    (ns : List Region) (n : Region) (cmds : List Command) (inputs : List Text)
    → ProducesAll ns n.children cmds
    → ((there : List Text)
        → All
            (λ j.
              (child : Region) → get_elem? ns j ≡ some child → Among (output_of child.name) there)
            n.children
        → All (λ f. Among f there) inputs)
    → Produces (output_of n.name) (cmds ++ own_command n inputs ∷ [])
Produces-own ns n cmds inputs p q there =
    let (ready, all) = p there in
    (
      AreReady-append cmds (own_command n inputs ∷ []) there ready (
        subst (λ l. All (λ f. Among f (written cmds there)) l) (sym (waits_for-own n inputs))
            (q (written cmds there) all),
        tt,
      ),
      subst (λ l. Among (output_of n.name) l)
          (sym (written-append cmds (own_command n inputs ∷ []) there)) (inl refl),
    )

run_own :
    (ns' : List Region) (i : ℕ) (n : Region) (cmds : List Command) (inputs : List Text)
    → get_elem? ns' i ≡ some n
    → Produces (output_of n.name) (cmds ++ own_command n inputs ∷ [])
    → Returns
        (Produces (output_of n.name))
        (use_ptr (get_elem? ns' i) >>= λ m. done (cmds ++ own_command m inputs ∷ []))
run_own ns' i n cmds inputs e h = rw e h

-- No region has the same child twice.
abbrev pub ChildrenDistinct : List Region → Type 0
ChildrenDistinct ns = (i : ℕ) (n : Region) → get_elem? ns i ≡ some n → Distinct n.children

exec_nodes-Produces :
    (rank : ℕ → ℕ) (ns : List Region)
    → IsRanked rank ns
    → ChildrenDistinct ns
    → (fuel i : ℕ) (n : Region) → rank i < fuel
    → get_elem? ns i ≡ some n
    → Returns (Produces (output_of n.name)) (exec_nodes fuel i ns)
unfolding exec_nodes
exec_nodes-Produces rank ns r d zero i n b e = absurd (omega arith)
exec_nodes-Produces rank ns r d (suc fuel) i n b e =
    let inside = All-weaken n.children (λ j q. q.0) (r i n e) in
    let apart =
      All-weaken n.children (λ j q. λ (same : i ≡ j). omega (arith, q.1, ap rank same)) (r i n e) in
    let later =
      All-weaken n.children
        (λ j q. λ (child : Region) (e' : get_elem? ns j ≡ some child).
          exec_nodes-Produces rank ns r d fuel j child (omega (arith, q.1)) e')
        (r i n e) in
    rw e (
      Returns-bind _ _ (exec_children (λ j. exec_nodes fuel j ns) n.children ns) _
        (exec_children-ProducesAll ns (λ j. exec_nodes fuel j ns) n.children inside later)
        (λ cmds p.
          Returns-bind _ _ (prepend_all n.children ns) _
            (prepend_all-Prepended n.children ns inside (d i n e))
            (λ ns' (keep, new).
              Returns-bind _ _ (outputs_of n.children ns') _
                (outputs_of-Returns ns ns' n.children inside new)
                (λ inputs q.
                  run_own ns' i n cmds inputs (keep i apart ∙ e)
                    (Produces-own ns n cmds inputs p q)))))

-- Where the regions have a rank that falls from each region to its children, and no region has the
-- same child twice, execNodes comes to an end from every region with as much fuel as its rank and one
-- more. No command then reads an output file that no earlier command has written, and the region's
-- own output file is written.
pub exec_nodes_lem :
    (rank : ℕ → ℕ) (ns : List Region) (i : ℕ) (n : Region)
    → IsRanked rank ns
    → ChildrenDistinct ns
    → get_elem? ns i ≡ some n
    → Returns
        (λ cs. AreReady [] cs × Among (output_of n.name) (written cs []))
        (exec_nodes (suc (rank i)) i ns)
exec_nodes_lem rank ns i n r d e =
    Returns-weaken _ _ (exec_nodes (suc (rank i)) i ns)
      (exec_nodes-Produces rank ns r d (suc (rank i)) i n (omega arith) e) (λ cs p. p [])
