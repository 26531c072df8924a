-- ===== src/Server/Polls/Sweep.antt =====
-- What a sweep of Open_Polls or Close_Polls does to the list of regions, for any early return
-- `check` and any write `act` that a second visit returns from.
use os.Base.{
  ℕ, suc, ◌≤◌, ◌<◌, Bool, true, false, Option, none, some, List, [], ◌∷◌, ◌≡◌, ◌≢◌, ◌⊎◌, inl, inr,
  arith, length, get_elem?, All, Pairs,
}
use os.Text.{Text, leading_space, trimwhitespace}
use os.Text.InPlace.{Trims}
use os.Server.State.{Node, find_node}
use os.Server.Polls.{Code, success, not_found}

abbrev pub is_some : Option Code → Bool
is_some none = false
is_some (some c) = true

-- The children of every region stand in a list of `k` regions.
abbrev pub InRange : ℕ → List Node → Type 0
InRange k ns = All (λ n. All (λ c. c < k) n.children) ns

abbrev pub rename : Node → Text → Node
rename n t = record n { name = t }

module _ (check : Node → Option Code) (act : Node → Node) where
  -- `act` is done at most once to a region, writes neither its name nor its children, and neither
  -- `act` nor `check` reads the name.
  pub record IsAction : Type 0 where
    pub once : (n : Node) → check n ≡ none → check (act n) ≢ none
    pub same_name : (n : Node) → (act n).name ≡ n.name
    pub same_children : (n : Node) → (act n).children ≡ n.children
    pub check-rename : (n : Node) (t : Text) → check (rename n t) ≡ check n
    pub act-rename : (n : Node) (t : Text) → act (rename n t) ≡ rename (act n) t

  -- Some region with this name is one that a visit returns from early.
  abbrev pub Handled : Text → List Node → Type 0
  Handled name ns =
      (j : ℕ) × (m : Node) × (get_elem? ns j ≡ some m)
      × (m.name ≡ name)
      × (is_some (check m) ≡ true)

  -- So is one with the name of each child, unless that name starts with a blank.
  abbrev pub ChildrenHandled : List ℕ → List Node → Type 0
  ChildrenHandled cs ns =
      All
        (λ c.
          (child : Node) × (get_elem? ns c ≡ some child)
          × ((leading_space child.name ≢ []) ⊎ Handled (trimwhitespace child.name) ns))
        cs

  -- A region before and after, but for its name: the same, or changed once, and then its children
  -- are handled in the list `final`.
  abbrev pub Writes : List Node → Node → Node → Type 0
  Writes final n n' =
      (n' ≡ rename n n'.name)
      ⊎ ((check n ≡ none) × (n' ≡ rename (act n) n'.name) × ChildrenHandled n.children final)

  abbrev pub Swept : List Node → Node → Node → Type 0
  Swept final n n' = Trims n.name n'.name × Writes final n n'

  abbrev pub Changed : Node → Node → Type 0
  Changed n n' =
      Trims n.name n'.name
      × ((n' ≡ rename n n'.name) ⊎ ((check n ≡ none) × (n' ≡ rename (act n) n'.name)))

  pub Swept→Changed : (final : List Node) (n n' : Node) → Swept final n n' → Changed n n'
  Swept→Changed final n n' (t, inl e) = (t, inl e)
  Swept→Changed final n n' (t, inr (a, b, c)) = (t, inr (a, b))

  -- How many regions can still change: it bounds the depth of the recursion.
  unfoldable pub ready_count : List Node → ℕ
  ready_count [] = 0
  ready_count (n ∷ ns) = elim (check n) [ none ↦ suc (ready_count ns) | some c ↦ ready_count ns ]

  pub ready_count-le_length : (ns : List Node) → ready_count ns ≤ length ns
  unfolding ready_count
  ready_count-le_length [] = omega arith
  ready_count-le_length (n ∷ ns) = ground (arith, ready_count-le_length ns)

  abbrev pub Sweeps : List Node → List Node → Type 0
  Sweeps ns ns' = Pairs (Swept ns') ns ns'

  -- The result and the named region afterwards, by what its early return is.
  abbrev pub NodeOutcome : ℕ → Node → List Node → Option Code → Code × List Node → Type 0
  NodeOutcome i n ns (some early) (code, ns') = (code ≡ early) × (ns' ≡ ns)
  NodeOutcome i n ns none (code, ns') =
      (code ≡ success) × Sweeps ns ns' × (get_elem? ns' i ≡ some (act n))

  abbrev pub Outcome : List Node → Option (ℕ × Node) → Code × List Node → Type 0
  Outcome ns none (code, ns') = (code ≡ not_found) × (ns' ≡ ns)
  Outcome ns (some (i, n)) r = NodeOutcome i n ns (check n) r

  -- What a call by name promises of its results.
  abbrev pub Visited : Text → List Node → Code × List Node → Type 0
  Visited name ns (code, ns') =
      Sweeps ns ns'
      × ((find_node (trimwhitespace name) ns ≡ none) ⊎ Handled (trimwhitespace name) ns')
