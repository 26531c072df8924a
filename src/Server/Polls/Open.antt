-- ===== src/Server/Polls/Open.antt =====
-- Open_Polls.
use os.Base.{
  ℕ, suc, Bool, true, false, ◌||◌, Option, none, some, List, [], ◌≡◌, ◌≢◌, refl, ◌⊎◌, inl, inr,
  arith, length, get_elem?, All, Pairs, Pairs-weaken, All-weaken, Returns, Returns-weaken,
  if◌then◌else◌,
}
use os.Text.{Text, leading_space, trimwhitespace}
use os.Text.InPlace.{Trims}
use os.Server.State.{Node, find_node}
use os.Server.Invariant.{IsOrdered, IsOrdered-InRange}
use os.Server.Polls.{Code, success, already, refused, not_found, open_check, open_node, open_polls}
use os.Server.Polls.Visit.{sweep-Outcome}
use os.Server.Polls.Sweep.{
  is_some, IsAction, Handled, ChildrenHandled, Swept, NodeOutcome, Outcome, ready_count-le_length,
}

-- Some region with this name has been opened.
abbrev pub OpenedSome : Text → List Node → Type 0
OpenedSome name ns =
    (j : ℕ) × (m : Node) × (get_elem? ns j ≡ some m)
    × (m.name ≡ name)
    × ((m.open_ || m.closed) ≡ true)

-- So has one with the name of each child, unless that name starts with a blank.
abbrev pub ChildrenOpened : List ℕ → List Node → Type 0
ChildrenOpened cs ns =
    All
      (λ c.
        (child : Node) × (get_elem? ns c ≡ some child)
        × ((leading_space child.name ≢ []) ⊎ OpenedSome (trimwhitespace child.name) ns))
      cs

-- A region before and after: its name may have been trimmed in place, and it is the same otherwise,
-- or opened for the first time, with its children.
abbrev pub Opens : List Node → Node → Node → Type 0
Opens final n n' =
    Trims n.name n'.name
    × ((n' ≡ record n { name = n'.name })
        ⊎ ((n.open_ ≡ false)
            × (n.closed ≡ false)
            × (n' ≡ record n { name = n'.name; open_ = true })
            × ChildrenOpened n.children final))

-- The result, and the regions afterwards, for the region that the name stands for.
abbrev pub OpenOutcome : List Node → Option (ℕ × Node) → Code × List Node → Type 0
OpenOutcome ns none (code, ns') = (code ≡ not_found) × (ns' ≡ ns)
OpenOutcome ns (some (i, n)) (code, ns') =
    if n.open_
    then (code ≡ already) × (ns' ≡ ns)
    else if n.closed
    then (code ≡ refused) × (ns' ≡ ns)
    else (code ≡ success)
      × Pairs (Opens ns') ns ns'
      × (get_elem? ns' i ≡ some (record n { open_ = true }))

pub open-IsAction : IsAction open_check open_node
unfolding open_check open_node
open-IsAction = record {
  once = λ n e. ground arith;
  same_name = λ n. refl;
  same_children = λ n. refl;
  check-rename = λ n t. refl;
  act-rename = λ n t. refl;
}

was_opened : (m : Node) → is_some (open_check m) ≡ true → (m.open_ || m.closed) ≡ true
unfolding open_check
was_opened m h = ground arith

Swept→Opens :
    (final : List Node) (n n' : Node) → Swept open_check open_node final n n' → Opens final n n'
unfolding open_check open_node
Swept→Opens final n n' (t, inl e) = (t, inl e)
Swept→Opens final n n' (t, inr (a, b, c)) = (t, inr ((was_idle a).0, (was_idle a).1, b, children c))
  where
    was_idle : open_check n ≡ none → (n.open_ ≡ false) × (n.closed ≡ false)
    was_idle a = ground arith

    opened :
        (t : Text)
        → (leading_space t ≢ []) ⊎ Handled open_check open_node (trimwhitespace t) final
        → (leading_space t ≢ []) ⊎ OpenedSome (trimwhitespace t) final
    opened t (inl blank) = inl blank
    opened t (inr (j, m, e, named, d)) = inr (j, m, e, named, was_opened m d)

    children :
        ChildrenHandled open_check open_node n.children final → ChildrenOpened n.children final
    children = All-weaken n.children (λ k (child, e, h). (child, e, opened child.name h))

NodeOutcome→OpenOutcome :
    (i : ℕ) (n : Node) (ns : List Node) (r : Code × List Node) (a b : Bool)
    → NodeOutcome open_check open_node i n ns
        (if a then some already else if b then some refused else none)
        r
    → let (code, ns') = r in
      (if a
        then (code ≡ already) × (ns' ≡ ns)
        else if b
        then (code ≡ refused) × (ns' ≡ ns)
        else (code ≡ success)
          × Pairs (Opens ns') ns ns'
          × (get_elem? ns' i ≡ some (record n { open_ = true })))
unfolding open_node
NodeOutcome→OpenOutcome i n ns r true b h = h
NodeOutcome→OpenOutcome i n ns r false true h = h
NodeOutcome→OpenOutcome i n ns (code, ns') false false (e, h, k) =
    (e, Pairs-weaken ns ns' (Swept→Opens ns') h, k)

Outcome→OpenOutcome :
    (ns : List Node) (o : Option (ℕ × Node)) (r : Code × List Node)
    → Outcome open_check open_node ns o r
    → OpenOutcome ns o r
unfolding open_check
Outcome→OpenOutcome ns none r h = h
Outcome→OpenOutcome ns (some (i, n)) r h = NodeOutcome→OpenOutcome i n ns r n.open_ n.closed h

-- Open_Polls ends on every list of regions in which the children of a region stand behind it. It
-- reports -2 for a name that no region has, 0 for an open region and -1 for a closed one, and
-- changes nothing then. Else it reports 1 and the region is open. A region changes only by losing
-- the blanks at the end of its name and by being opened for the first time; for each child of a
-- region that is opened, some region with the child's trimmed name has been opened in the end, unless
-- the child's name starts with a blank.
pub open_polls_lem :
    (name : Text) (ns : List Node)
    → IsOrdered ns
    → Returns (OpenOutcome ns (find_node (trimwhitespace name) ns)) (open_polls name ns)
unfolding open_polls
open_polls_lem name ns h =
    Returns-weaken _ _ (open_polls name ns)
      (sweep-Outcome open_check open_node open-IsAction (suc (length ns)) name ns
        (IsOrdered-InRange ns h) (omega (arith, ready_count-le_length open_check open_node ns)))
      (Outcome→OpenOutcome ns (find_node (trimwhitespace name) ns))
