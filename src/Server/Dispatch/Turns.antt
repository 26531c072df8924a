-- ===== src/Server/Dispatch/Turns.antt =====
-- What a request can do to a region, and to the list of regions.
use os.Base.{
  ℕ, zero, suc, ◌+◌, ◌≤◌, true, false, ◌&&◌, List, [], ◌∷◌, ◌++◌, ◌≡◌, refl, sym, subst, inl, inr,
  some, arith, length, get_elem?, set, Pairs, Pairs-length, AllFrom-Pairs, AllFrom-get, AllFrom-set,
  AllFrom-append, AllFrom-weaken, All-weaken, All-append, get_elem?-lt_length, length-append,
  length-set, if◌then◌else◌,
}
use os.Text.{Text}
use os.Text.InPlace.{Trims, Trims-trans}
use os.Server.State.{Node, create}
use os.Server.Invariant.{IsNode, IsOrdered}
use os.Server.Polls.Open.{Opens}
use os.Server.Polls.Close.{Closes}
use os.Server.Count.Merge.{Absorbs}
use os.Server.Region.{append_region}

-- 0 before the polls, 1 while they are open, 2 when they are closed.
abbrev pub phase : Node → ℕ
phase n = if n.closed then 2 else if n.open_ then 1 else 0

-- A region keeps its name, but for blanks at its end, and its children, its polls do not go back,
-- and its laws hold on.
pub record Turns (n n' : Node) : Type 0 where
  pub trims_name : Trims n.name n'.name
  pub same_children : n'.children ≡ n.children
  pub onward : phase n ≤ phase n'
  pub keeps_legal : (n.open_ && n.closed) ≡ false → (n'.open_ && n'.closed) ≡ false
  pub keeps_law : (n.hasdata ≡ false → n.counters ≡ []) → n'.hasdata ≡ false → n'.counters ≡ []

pub Turns-refl : (n : Node) → Turns n n
Turns-refl n = record {
  trims_name = inl refl;
  same_children = refl;
  onward = omega arith;
  keeps_legal = λ h. h;
  keeps_law = λ h. h;
}

Turns-rename : (n : Node) (t : Text) → Trims n.name t → Turns n (record n { name = t })
Turns-rename n t h = record {
  trims_name = h;
  same_children = refl;
  onward = omega arith;
  keeps_legal = λ h. h;
  keeps_law = λ h. h;
}

pub Opens-Turns : (final : List Node) (n n' : Node) → Opens final n n' → Turns n n'
Opens-Turns final n n' (h, inl e) = subst (Turns n) (sym e) (Turns-rename n n'.name h)
Opens-Turns final n n' (h, inr (o, c, e, _)) = subst (Turns n) (sym e) (opened n'.name h o c)
  where
    opened :
        (t : Text)
        → Trims n.name t
        → n.open_ ≡ false
        → n.closed ≡ false
        → Turns n (record n { name = t; open_ = true })
    opened t h o c = record {
      trims_name = h;
      same_children = refl;
      onward = ground arith;
      keeps_legal = λ h. ground arith;
      keeps_law = λ h. h;
    }

pub Closes-Turns : (final : List Node) (n n' : Node) → Closes final n n' → Turns n n'
Closes-Turns final n n' (h, inl e) = subst (Turns n) (sym e) (Turns-rename n n'.name h)
Closes-Turns final n n' (h, inr (o, c, e, _)) = subst (Turns n) (sym e) (shut n'.name h o c)
  where
    shut :
        (t : Text)
        → Trims n.name t
        → n.open_ ≡ true
        → n.closed ≡ false
        → Turns n (record n { name = t; closed = true; open_ = false })
    shut t h o c = record {
      trims_name = h;
      same_children = refl;
      onward = ground arith;
      keeps_legal = λ h. refl;
      keeps_law = λ h. h;
    }

pub Absorbs-Turns : (n n' : Node) → Absorbs n n' → Turns n n'
Absorbs-Turns n n' a = record {
  trims_name = inl a.same_name;
  same_children = a.same_children;
  onward = rw (a.same_open, a.same_closed) (omega arith);
  keeps_legal = λ h. rw (a.same_open, a.same_closed) h;
  keeps_law = a.keeps_law;
}

Turns-IsNode : (k i : ℕ) (n n' : Node) → Turns n n' → IsNode k i n → IsNode k i n'
Turns-IsNode k i n n' t h = record {
  below = rw (t.same_children) h.below;
  legal = t.keeps_legal h.legal;
  data_law = t.keeps_law h.data_law;
}

pub Turns-IsOrdered : (ns ns' : List Node) → Pairs Turns ns ns' → IsOrdered ns → IsOrdered ns'
Turns-IsOrdered ns ns' t h =
    rw (Pairs-length Turns ns ns' t) (AllFrom-Pairs 0 ns ns' (Turns-IsNode (length ns)) t h)

-- The old regions stand where they stood, under their names, which may have lost blanks at their
-- ends, with polls that have not gone back; behind them there may be new ones.
abbrev pub Onward : List Node → List Node → Type 0
Onward [] ns' = Unit
Onward (n ∷ ns) [] = ⊥
Onward (n ∷ ns) (n' ∷ ns') = Trims n.name n'.name × (phase n ≤ phase n') × Onward ns ns'

pub Turns-Onward : (ns ns' : List Node) → Pairs Turns ns ns' → Onward ns ns'
Turns-Onward [] ns' t = tt
Turns-Onward (n ∷ ns) [] t = absurd t
Turns-Onward (n ∷ ns) (n' ∷ ns') t = (t.0.trims_name, t.0.onward, Turns-Onward ns ns' t.1)

pub Onward-refl : (ns : List Node) → Onward ns ns
Onward-refl [] = tt
Onward-refl (n ∷ ns) = (inl refl, omega arith, Onward-refl ns)

pub Onward-trans : (ns ms os : List Node) → Onward ns ms → Onward ms os → Onward ns os
Onward-trans [] ms os h k = tt
Onward-trans (n ∷ ns) [] os h k = absurd h
Onward-trans (n ∷ ns) (m ∷ ms) [] h k = absurd k
Onward-trans (n ∷ ns) (m ∷ ms) (o ∷ os) h k = (
  Trims-trans n.name m.name o.name h.0 k.0,
  omega (arith, h.1, k.1),
  Onward-trans ns ms os h.2 k.2,
)

Onward-append_region :
    (i : ℕ) (ns rest : List Node) (n m : Node)
    → get_elem? ns i ≡ some n
    → Trims n.name m.name
    → phase n ≤ phase m
    → Onward ns (set ns i m ++ rest)
Onward-append_region i [] rest n m e a b = tt
Onward-append_region zero (x ∷ ns) rest n m e a b =
    let same : x ≡ n = cc in rw same (a, b, Onward-append ns rest)
  where
    Onward-append : (ns rest : List Node) → Onward ns (ns ++ rest)
    Onward-append [] rest = tt
    Onward-append (x ∷ ns) rest = (inl refl, omega arith, Onward-append ns rest)
Onward-append_region (suc i) (x ∷ ns) rest n m e a b =
    (inl refl, omega arith, Onward-append_region i ns rest n m e a b)

pub IsNode-grow : (k i : ℕ) (n : Node) → IsNode k i n → IsNode (suc k) i n
IsNode-grow k i n h = record {
  below = All-weaken n.children (λ c p. (p.0, omega (arith, p.1))) h.below;
  legal = h.legal;
  data_law = h.data_law;
}

-- A new region behind all others, and its place in its parent's array.
pub append_region_lem :
    (i : ℕ) (n : Node) (child : Text) (ns : List Node)
    → get_elem? ns i ≡ some n
    → IsOrdered ns
    → IsOrdered (append_region i n child ns) × Onward ns (append_region i n child ns)
unfolding append_region
append_region_lem i n child ns e h = (
  rw grown (
      AllFrom-append (IsNode (suc (length ns))) 0 (set ns i parent) (create child ∷ [])
        (AllFrom-set (IsNode (suc (length ns))) 0 ns i parent
          (AllFrom-weaken 0 ns (IsNode-grow (length ns)) h) parent_node)
        (λ j q. (new_node j, tt))),
  Onward-append_region i ns (create child ∷ []) n parent e (inl refl) (omega arith),
)
  where
    parent : Node
    parent = record n { children = n.children ++ length ns ∷ [] }

    grown : length (set ns i parent ++ create child ∷ []) ≡ suc (length ns)
    grown =
        omega (
          arith,
          length-append {0} (set ns i parent) (create child ∷ []),
          length-set {0} ns i parent,
        )

    old_node : IsNode (length ns) i n
    old_node = AllFrom-get (IsNode (length ns)) 0 ns i i h e (omega arith)

    parent_node : (k : ℕ) → k ≡ 0 + i → IsNode (suc (length ns)) k parent
    parent_node k q =
        let same : k ≡ i = omega arith in
        rw same (record {
          below =
              All-append _ n.children (length ns ∷ []) (IsNode-grow _ i n old_node).below
                ((get_elem?-lt_length ns i e, omega arith), tt);
          legal = old_node.legal;
          data_law = old_node.data_law;
        })

    new_node : (j : ℕ) → IsNode (suc (length ns)) j (create child)
    new_node j = unfold create in record { below = tt; legal = refl; data_law = λ d. refl }
