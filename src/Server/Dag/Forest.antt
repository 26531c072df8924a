-- ===== src/Server/Dag/Forest.antt =====
-- The regions that createDAG leaves.
use os.Base.{
  ℕ, suc, ◌+◌, ◌<◌, Bool, true, false, Option, none, some, List, [], ◌∷◌, ◌++◌, length, set,
  get_elem?, ◌≡◌, refl, ap, arith, ◌==◌, if◌then◌else◌, All, AllFrom, AllFrom-get, AllFrom-set,
  AllFrom-append, AllFrom-weaken, All-weaken, get_elem?-lt_length, length-append, length-set, done,
  fault, exit, Ends, Ends-bind, ◌>>=◌,
}
use os.Text.{Text, codes, makeargv, trimlastenter}
use os.Text.Tokens.{makeargv-ne-none}
use os.Server.State.{Node, create, find_node}
use os.Server.State.Find.{find_node-get}
use os.Server.Invariant.{IsNode, IsOrdered}
use os.Server.Dag.{
  create_all, count_up, add_children, later_line, first_line, is_comment, read_line, read_lines,
  create_dag,
}

length-create_all : (names : List Text) → length (create_all names) ≡ length names
unfolding create_all
length-create_all [] = refl
length-create_all (t ∷ ts) = ap suc (length-create_all ts)

create-IsNode : (k i : ℕ) (name : Text) → IsNode k i (create name)
create-IsNode k i name = unfold create in record { below = tt; legal = refl; data_law = λ d. refl }

create_all-AllFrom : (k i : ℕ) (names : List Text) → AllFrom (IsNode k) i (create_all names)
unfolding create_all
create_all-AllFrom k i [] = tt
create_all-AllFrom k i (t ∷ ts) =
    (create-IsNode k i (trimlastenter t), create_all-AllFrom k (suc i) ts)

count_up-All :
    (i j k : ℕ) (names : List Text)
    → i < j
    → j + length names ≡ k
    → All (λ c. (i < c) × (c < k)) (count_up j names)
unfolding count_up
count_up-All i j k [] h e = tt
count_up-All i j k (t ∷ ts) h e =
    ((h, omega (arith, e)), count_up-All i (suc j) k ts (omega arith) (omega (arith, e)))

-- Children behind all regions, for a region that keeps its laws.
add_children-IsOrdered :
    (at_ : ℕ) (n m : Node) (names : List Text) (nodes : List Node)
    → get_elem? nodes at_ ≡ some m
    → n.open_ ≡ m.open_
    → n.closed ≡ m.closed
    → n.hasdata ≡ m.hasdata
    → n.counters ≡ m.counters
    → IsOrdered nodes
    → IsOrdered (add_children at_ n names nodes)
unfolding add_children
add_children-IsOrdered at_ n m names nodes e o c d l h = rw grown (
    AllFrom-append (IsNode k) 0 (set nodes at_ parent) (create_all names)
      (AllFrom-set (IsNode k) 0 nodes at_ parent (AllFrom-weaken 0 nodes widen h) parent_node)
      (λ j q. create_all-AllFrom k j names))
  where
    k : ℕ
    k = length nodes + length names

    parent : Node
    parent = record n { children = count_up (length nodes) names }

    widen : (i : ℕ) (x : Node) → IsNode (length nodes) i x → IsNode k i x
    widen i x p = record {
      below = All-weaken x.children (λ b q. (q.0, omega (arith, q.1))) p.below;
      legal = p.legal;
      data_law = p.data_law;
    }

    grown : length (set nodes at_ parent ++ create_all names) ≡ k
    grown = omega (
      arith,
      length-append {0} (set nodes at_ parent) (create_all names),
      length-set {0} nodes at_ parent,
      length-create_all names,
    )

    old_node : IsNode (length nodes) at_ m
    old_node = AllFrom-get (IsNode (length nodes)) 0 nodes at_ at_ h e (omega arith)

    parent_node : (j : ℕ) → j ≡ 0 + at_ → IsNode k j parent
    parent_node j q =
        let same : j ≡ at_ = omega arith in
        rw same (record {
          below = count_up-All at_ (length nodes) k names (get_elem?-lt_length nodes at_ e) refl;
          legal = rw (o, c) old_node.legal;
          data_law = rw (d, l) old_node.data_law;
        })

later_line-Ends :
    (argvp : List Text) (nodes : List Node)
    → IsOrdered nodes
    → Ends IsOrdered (later_line argvp nodes)
later_line-Ends argvp [] h = tt
later_line-Ends [] (root ∷ []) h = tt
later_line-Ends [] (root ∷ n ∷ ns) h = tt
later_line-Ends (name ∷ names) (root ∷ []) h = tt
later_line-Ends (name ∷ names) (root ∷ n ∷ ns) h = found (find_node name (n ∷ ns)) refl
  where
    found :
        (o : Option (ℕ × Node))
        → find_node name (n ∷ ns) ≡ o
        → Ends IsOrdered (
            (elim o [ none ↦ exit | some p ↦ done p ]) >>= λ (i, m).
            done (add_children (suc i) m names (root ∷ n ∷ ns)))
    found none f = tt
    found (some (i, m)) f =
        add_children-IsOrdered (suc i) m m names (root ∷ n ∷ ns)
          ((find_node-get name (n ∷ ns) i m f).0) refl refl refl refl h

first_line-Ends :
    (argvp : List Text) (nodes : List Node)
    → IsOrdered nodes
    → Ends IsOrdered (first_line argvp nodes)
first_line-Ends argvp [] h = tt
first_line-Ends [] (root ∷ ns) h = tt
first_line-Ends (name ∷ names) (root ∷ ns) h =
    add_children-IsOrdered 0 (record root { name = name }) root names (root ∷ ns) refl refl refl
      refl refl h

read_line-Ends :
    (linecounter : ℕ) (buf : Text) (nodes : List Node)
    → IsOrdered nodes
    → Ends IsOrdered (read_line linecounter buf nodes)
unfolding read_line
read_line-Ends linecounter buf nodes h =
    by_flags (is_comment buf) (linecounter == 0) (makeargv (some buf) (codes ":"))
  where
    by_flags :
        (comment first : Bool) (o : Option (List Text))
        → Ends IsOrdered (
            if comment then done nodes else elim o [
              | none ↦ fault
              | some argvp ↦ if first then first_line argvp nodes else later_line argvp nodes
            ])
    by_flags true first o = h
    by_flags false first none = tt
    by_flags false true (some argvp) = first_line-Ends argvp nodes h
    by_flags false false (some argvp) = later_line-Ends argvp nodes h

read_lines-Ends :
    (linecounter : ℕ) (lines : List Text) (nodes : List Node)
    → IsOrdered nodes
    → Ends IsOrdered (read_lines linecounter lines nodes)
unfolding read_lines
read_lines-Ends linecounter [] nodes h = h
read_lines-Ends linecounter (l ∷ ls) nodes h =
    Ends-bind _ _ (read_line linecounter l nodes) _ (read_line-Ends linecounter l nodes h)
      (λ ns k. read_lines-Ends (linecounter + 1) ls ns k)

-- createDAG ends on every file. If it returns, each child stands behind its parent and in the list,
-- no polls are open and closed at once, and a region without data has no counters. It is not said
-- that no two regions share a child.
pub create_dag-IsOrdered : (lines : List Text) → Ends IsOrdered (create_dag lines)
unfolding create_dag
create_dag-IsOrdered lines = read_lines-Ends 0 lines (create [] ∷ []) (create-IsNode 1 0 [], tt)

later_line-rootless : (argvp : List Text) (root : Node) → later_line argvp (root ∷ []) ≡ exit
later_line-rootless [] root = refl
later_line-rootless (name ∷ names) root = refl

read_lines-commented :
    (linecounter : ℕ) (comments : List Text) (l : Text) (more : List Text) (root : Node)
    → 0 < linecounter
    → All (λ c. is_comment c ≡ true) comments
    → is_comment l ≡ false
    → read_lines linecounter (comments ++ l ∷ more) (root ∷ []) ≡ exit
unfolding read_lines read_line
read_lines-commented linecounter [] l more root p h e = rw e (
    parsed (makeargv (some l) (codes ":")) (makeargv-ne-none l (codes ":")) (linecounter == 0)
      (counted linecounter p))
  where
    counted : (i : ℕ) → 0 < i → (i == 0) ≡ false
    counted i p = ground arith

    parsed :
        (o : Option (List Text))
        → (o ≡ none → ⊥)
        → (first : Bool) → first ≡ false
        → ((elim o [
          | none ↦ fault
          | some argvp ↦
              if first then first_line argvp (root ∷ []) else later_line argvp (root ∷ [])
        ])
            >>= λ ns. read_lines (linecounter + 1) more ns)
          ≡ exit
    parsed none f first z = absurd (f refl)
    parsed (some argvp) f first z = rw z (rw (later_line-rootless argvp root) refl)
read_lines-commented linecounter (c ∷ cs) l more root p (h, hs) e =
    rw h (read_lines-commented (linecounter + 1) cs l more root (omega arith) hs e)

-- createDAG counts the comment lines: a file that begins with a comment makes it exit at the first
-- line that is none.
pub create_dag-commented :
    (comment : Text) (comments : List Text) (l : Text) (more : List Text)
    → is_comment comment ≡ true
    → All (λ c. is_comment c ≡ true) comments
    → is_comment l ≡ false
    → create_dag (comment ∷ comments ++ l ∷ more) ≡ exit
unfolding create_dag read_lines read_line
create_dag-commented comment comments l more h hs e =
    rw h (read_lines-commented 1 comments l more (create []) (omega arith) hs e)
