-- ===== src/Server/Polls/Close.antt =====
-- Close_Polls.
use os.Base.{
  ℕ, suc, Bool, true, false, not, ◌&&◌, Option, none, some, List, [], ◌≡◌, ◌≢◌, refl, ◌⊎◌, inl, inr,
  arith, length, get_elem?, All, Pairs, Pairs-weaken, All-weaken, Returns, Returns-weaken,
  if◌then◌else◌,
}
use os.Text.{Text, leading_space, trimwhitespace}
use os.Text.InPlace.{Trims}
use os.Server.State.{Node, find_node}
use os.Server.Invariant.{IsOrdered, IsOrdered-InRange}
use os.Server.Polls.{
  Code, success, already, refused, not_found, close_check, close_node, close_polls,
}
use os.Server.Polls.Visit.{sweep-Outcome}
use os.Server.Polls.Sweep.{
  is_some, IsAction, Handled, ChildrenHandled, Swept, NodeOutcome, Outcome, ready_count-le_length,
}

-- Some region with this name takes no votes now.
abbrev pub ShutSome : Text → List Node → Type 0
ShutSome name ns =
    (j : ℕ) × (m : Node) × (get_elem? ns j ≡ some m)
    × (m.name ≡ name)
    × ((m.open_ && not m.closed) ≡ false)

-- So does one with the name of each child, unless that name starts with a blank.
abbrev pub ChildrenShut : List ℕ → List Node → Type 0
ChildrenShut cs ns =
    All
      (λ c.
        (child : Node) × (get_elem? ns c ≡ some child)
        × ((leading_space child.name ≢ []) ⊎ ShutSome (trimwhitespace child.name) ns))
      cs

-- A region before and after: its name may have been trimmed in place, and it is the same otherwise,
-- or closed while it was open, with its children.
abbrev pub Closes : List Node → Node → Node → Type 0
Closes final n n' =
    Trims n.name n'.name
    × ((n' ≡ record n { name = n'.name })
        ⊎ ((n.open_ ≡ true)
            × (n.closed ≡ false)
            × (n' ≡ record n { name = n'.name; closed = true; open_ = false })
            × ChildrenShut n.children final))

-- The result, and the regions afterwards, for the region that the name stands for.
abbrev pub CloseOutcome : List Node → Option (ℕ × Node) → Code × List Node → Type 0
CloseOutcome ns none (code, ns') = (code ≡ not_found) × (ns' ≡ ns)
CloseOutcome ns (some (i, n)) (code, ns') =
    if n.closed
    then (code ≡ already) × (ns' ≡ ns)
    else if not n.open_
    then (code ≡ refused) × (ns' ≡ ns)
    else (code ≡ success)
      × Pairs (Closes ns') ns ns'
      × (get_elem? ns' i ≡ some (record n { closed = true; open_ = false }))

pub close-IsAction : IsAction close_check close_node
unfolding close_check close_node
close-IsAction = record {
  once = λ n e. ground arith;
  same_name = λ n. refl;
  same_children = λ n. refl;
  check-rename = λ n t. refl;
  act-rename = λ n t. refl;
}

was_shut : (m : Node) → is_some (close_check m) ≡ true → (m.open_ && not m.closed) ≡ false
unfolding close_check
was_shut m h = ground arith

Swept→Closes :
    (final : List Node) (n n' : Node) → Swept close_check close_node final n n' → Closes final n n'
unfolding close_check close_node
Swept→Closes final n n' (t, inl e) = (t, inl e)
Swept→Closes final n n' (t, inr (a, b, c)) =
    (t, inr ((was_open a).0, (was_open a).1, b, children c))
  where
    was_open : close_check n ≡ none → (n.open_ ≡ true) × (n.closed ≡ false)
    was_open a = ground arith

    shut :
        (t : Text)
        → (leading_space t ≢ []) ⊎ Handled close_check close_node (trimwhitespace t) final
        → (leading_space t ≢ []) ⊎ ShutSome (trimwhitespace t) final
    shut t (inl blank) = inl blank
    shut t (inr (j, m, e, named, d)) = inr (j, m, e, named, was_shut m d)

    children :
        ChildrenHandled close_check close_node n.children final → ChildrenShut n.children final
    children = All-weaken n.children (λ k (child, e, h). (child, e, shut child.name h))

NodeOutcome→CloseOutcome :
    (i : ℕ) (n : Node) (ns : List Node) (r : Code × List Node) (a b : Bool)
    → NodeOutcome close_check close_node i n ns
        (if a then some already else if b then some refused else none)
        r
    → let (code, ns') = r in
      (if a
        then (code ≡ already) × (ns' ≡ ns)
        else if b
        then (code ≡ refused) × (ns' ≡ ns)
        else (code ≡ success)
          × Pairs (Closes ns') ns ns'
          × (get_elem? ns' i ≡ some (record n { closed = true; open_ = false })))
unfolding close_node
NodeOutcome→CloseOutcome i n ns r true b h = h
NodeOutcome→CloseOutcome i n ns r false true h = h
NodeOutcome→CloseOutcome i n ns (code, ns') false false (e, h, k) =
    (e, Pairs-weaken ns ns' (Swept→Closes ns') h, k)

Outcome→CloseOutcome :
    (ns : List Node) (o : Option (ℕ × Node)) (r : Code × List Node)
    → Outcome close_check close_node ns o r
    → CloseOutcome ns o r
unfolding close_check
Outcome→CloseOutcome ns none r h = h
Outcome→CloseOutcome ns (some (i, n)) r h =
    NodeOutcome→CloseOutcome i n ns r n.closed (not n.open_) h

-- Close_Polls ends on every list of regions in which the children of a region stand behind it. It
-- reports -2 for a name that no region has, 0 for a closed region and -1 for one that was never
-- opened, and changes nothing then. Else it reports 1 and the region is closed. A region changes only
-- by losing the blanks at the end of its name and from open to closed; for each child of a region
-- that is closed, some region with the child's trimmed name takes no votes in the end, unless the
-- child's name starts with a blank.
pub close_polls_lem :
    (name : Text) (ns : List Node)
    → IsOrdered ns
    → Returns (CloseOutcome ns (find_node (trimwhitespace name) ns)) (close_polls name ns)
unfolding close_polls
close_polls_lem name ns h =
    Returns-weaken _ _ (close_polls name ns)
      (sweep-Outcome close_check close_node close-IsAction (suc (length ns)) name ns
        (IsOrdered-InRange ns h) (omega (arith, ready_count-le_length close_check close_node ns)))
      (Outcome→CloseOutcome ns (find_node (trimwhitespace name) ns))
