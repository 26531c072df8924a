-- ===== src/Server/Count/Aggregate.antt =====
-- aggregate.
use os.Base.{
  ℕ, zero, suc, ◌+◌, ◌<◌, Bool, true, false, some, List, [], ◌∷◌, ◌≡◌, refl, sym, ap, ◌∙◌, arith,
  length, get_elem?, All, Pairs, Pairs-refl, Pairs-trans, Pairs-set, Pairs-length, Pairs-get,
  AllFrom-Pairs, AllFrom-get, All-weaken, get_elem?-of_lt, get_elem?-lt_length, get_elem?-set_self,
  Returns, Returns-bind, Returns-weaken, if◌then◌else◌,
}
use os.Base.Word.{add_int}
use os.Text.{Text}
use os.Server.State.{Node}
use os.Server.Invariant.{IsNode, IsOrdered}
use os.Server.Votes.{is_leaf}
use os.Server.Count.{absorb_all, merge_child, visit_child, merge_children, aggregate_from}
use os.Server.Count.Tally.{total, tally, sum_tally, tally_lem}
use os.Server.Count.Merge.{
  Absorbs, Absorbs-refl, Absorbs-trans, absorb_all-Absorbs, total-absorb_all, total-lt, total-nil,
}
use os.Server.Count.Below.{
  Below, Below-refl, Below-trans, Below-set, Below-weaken, Below-get, Below-sum_tally,
}

Absorbs-IsNode : (k i : ℕ) (n n' : Node) → Absorbs n n' → IsNode k i n → IsNode k i n'
Absorbs-IsNode k i n n' a h = record {
  below = rw (a.same_children) h.below;
  legal = rw (a.same_open, a.same_closed) h.legal;
  data_law = a.keeps_law h.data_law;
}

pub Absorbs-IsOrdered : (ns ns' : List Node) → Pairs Absorbs ns ns' → IsOrdered ns → IsOrdered ns'
Absorbs-IsOrdered ns ns' a h =
    rw (Pairs-length Absorbs ns ns' a) (AllFrom-Pairs 0 ns ns' (Absorbs-IsNode (length ns)) a h)

module _ (c : Text) where
  sum_tally-lt : (ns : List Node) (js : List ℕ) → sum_tally c ns js < 4294967296
  unfolding sum_tally
  sum_tally-lt ns [] = omega arith
  sum_tally-lt ns (j ∷ js) = omega arith

  -- From `ns` to `ns'` the region at `p`, which was `n`, has gained `votes`; the regions before it
  -- are the same, those behind it keep their tallies, and none has lost its place in the tree.
  abbrev pub Gains : ℕ → ℕ → Node → List Node → List Node → Type 0
  Gains votes p n ns ns' =
      Pairs Absorbs ns ns'
      × Below c 0 p ns ns'
      × ((n' : Node) × (get_elem? ns' p ≡ some n')
          × (total c n'.counters ≡ add_int (total c n.counters) votes))

  merge_child-Gains :
      (p j : ℕ) (ns : List Node) (root child : Node)
      → IsOrdered ns
      → get_elem? ns p ≡ some root
      → get_elem? ns j ≡ some child
      → Returns (Gains (total c child.counters) p root ns) (merge_child p j ns)
  unfolding merge_child
  merge_child-Gains p j ns root child h e f =
      let law = (AllFrom-get (IsNode (length ns)) 0 ns p p h e (omega arith)).data_law in
      let root' = absorb_all child.counters root in
      rw (e, f)
        (
          Pairs-set Absorbs ns p root' Absorbs-refl e (absorb_all-Absorbs child.counters root),
          Below-set c 0 p ns root',
          (
            root',
            get_elem?-set_self ns p root' (get_elem?-lt_length ns p e),
            total-absorb_all c child.counters root law,
          ),
        )

  -- After the call for a child without data, the child's counters are its tally, and no tally of
  -- the list has changed.
  pub called_tally :
      (j : ℕ) (ns ns' : List Node) (child : Node)
      → IsOrdered ns
      → IsOrdered ns'
      → get_elem? ns j ≡ some child
      → child.hasdata ≡ false
      → (g : Gains (sum_tally c ns child.children) j child ns ns')
      → (total c g.2.0.counters ≡ tally c ns j) × (tally c ns' j ≡ tally c ns j)
  called_tally j ns ns' child h h' e d (a, b, (child', e', t)) = (counted, same)
    where
      node : IsNode (length ns) j child
      node = AllFrom-get (IsNode (length ns)) 0 ns j j h e (omega arith)

      before : tally c ns j ≡ sum_tally c ns child.children
      before = tally_lem c ns j child h e ∙ rw d

      counted : total c child'.counters ≡ tally c ns j
      counted =
          rw (before, t, node.data_law d)
            (omega (arith, total-nil c, sum_tally-lt ns child.children))

      place : (x : Node) × (get_elem? ns' j ≡ some x) × Absorbs child x
      place = Pairs-get Absorbs ns ns' j a e

      children : child'.children ≡ child.children
      children =
          let (x, q, r) = place in
          let s : x ≡ child' = cc in ap (λ (m : Node). m.children) (sym s) ∙ r.same_children

      below : sum_tally c ns' child.children ≡ sum_tally c ns child.children
      below =
          Below-sum_tally c j child.children ns ns'
            (All-weaken child.children (λ k q. q.0) node.below) b

      same_at :
          (x : Bool)
          → child'.hasdata ≡ x
          → (if x then total c child'.counters else sum_tally c ns' child'.children) ≡ tally c ns j
      same_at true q = counted
      same_at false q = rw children (below ∙ sym before)

      same : tally c ns' j ≡ tally c ns j
      same = tally_lem c ns' j child' h' e' ∙ same_at child'.hasdata refl

  is_leaf-children : (n : Node) → is_leaf n ≡ true → n.children ≡ []
  is_leaf-children n h = none_left n.children h
    where
      none_left :
          (cs : List ℕ) → (elim cs as (λ _. Bool) [ [] ↦ true | _ ∷ _ ↦ false ]) ≡ true → cs ≡ []
      none_left [] h = refl
      none_left (c ∷ cs) h = cc

  module _ (fuel : ℕ)
      (visit : (j : ℕ) (ns : List Node) (child : Node)
        → IsOrdered ns
        → get_elem? ns j ≡ some child
        → length ns < fuel + j
        → Returns
            (Gains (sum_tally c ns child.children) j child ns)
            (aggregate_from fuel j ns)) where
    -- A round of the loop adds the child's tally.
    visit_child-Gains :
        (p j : ℕ) (ns : List Node) (root child : Node) (hasdata leaf : Bool)
        → p < j
        → length ns < fuel + j
        → IsOrdered ns
        → get_elem? ns p ≡ some root
        → get_elem? ns j ≡ some child
        → child.hasdata ≡ hasdata
        → is_leaf child ≡ leaf
        → Returns
            (Gains (tally c ns j) p root ns)
            (visit_child (aggregate_from fuel) p j ns hasdata leaf)
    visit_child-Gains p j ns root child true leaf l f h e e' d q =
        let t : tally c ns j ≡ total c child.counters = tally_lem c ns j child h e' ∙ rw d in
        rw t (merge_child-Gains p j ns root child h e e')
    visit_child-Gains p j ns root child false true l f h e e' d q =
        let none_left : tally c ns j ≡ 0 =
          tally_lem c ns j child h e'
          ∙ rw (d, is_leaf-children child q) (unfold sum_tally in refl) in
        (
          Pairs-refl Absorbs ns Absorbs-refl,
          Below-refl c 0 p ns,
          (root, e, omega (arith, none_left, total-lt c root.counters)),
        )
    visit_child-Gains p j ns root child false false l f h e e' d q =
        Returns-bind (Gains (sum_tally c ns child.children) j child ns) _ (aggregate_from fuel j ns)
          _ (visit j ns child h e' f)
          (λ called g.
            let h' = Absorbs-IsOrdered ns called g.0 h in
            let (counted, same) = called_tally j ns called child h h' e' d g in
            let e1 = Below-get c 0 j p ns called l g.1 ∙ e in
            Returns-weaken _ _ (merge_child p j called)
              (merge_child-Gains p j called root g.2.0 h' e1 g.2.1)
              (λ ns' (a, b, m). (
                Pairs-trans ns called ns' Absorbs-trans g.0 a,
                Below-trans c 0 p ns called ns'
                    (Below-weaken c 0 p j ns called l g.1 (unfold tally in same)) b,
                (m.0, m.1, rw counted at m.2),
              )))

    merge_children-Gains :
        (p : ℕ) (js : List ℕ) (ns : List Node) (root : Node)
        → All (λ j. (p < j) × (j < length ns)) js
        → length ns < suc fuel + p
        → IsOrdered ns
        → get_elem? ns p ≡ some root
        → Returns
            (Gains (sum_tally c ns js) p root ns)
            (merge_children (aggregate_from fuel) p js ns)
    unfolding merge_children sum_tally
    merge_children-Gains p [] ns root b f h e = (
      Pairs-refl Absorbs ns Absorbs-refl,
      Below-refl c 0 p ns,
      (root, e, omega (arith, total-lt c root.counters)),
    )
    merge_children-Gains p (j ∷ js) ns root b f h e =
        let (child, e') = get_elem?-of_lt ns j b.0.1 in
        rw e' (
          Returns-bind (Gains (tally c ns j) p root ns) _
            (visit_child (aggregate_from fuel) p j ns child.hasdata (is_leaf child)) _
            (visit_child-Gains p j ns root child child.hasdata (is_leaf child) b.0.0
              (omega (arith, b.0.0)) h e e' refl refl)
            (λ ns1 (a, k, (root1, e1, t)).
              let same = Pairs-length Absorbs ns ns1 a in
              Returns-weaken _ _ (merge_children (aggregate_from fuel) p js ns1)
                (merge_children-Gains p js ns1 root1 (rw same b.1) (rw same f)
                  (Absorbs-IsOrdered ns ns1 a h) e1)
                (λ ns' (a', k', (root', e2, t')). (
                  Pairs-trans ns ns1 ns' Absorbs-trans a a',
                  Below-trans c 0 p ns ns1 ns' k k',
                  (
                    root',
                    e2,
                    rw (Below-sum_tally c p js ns ns1 (All-weaken js (λ i q. q.0) b.1) k, t) at t'
                        ∙ omega arith,
                  ),
                ))))

  pub aggregate_from-Gains :
      (fuel p : ℕ) (ns : List Node) (n : Node)
      → IsOrdered ns
      → get_elem? ns p ≡ some n
      → length ns < fuel + p
      → Returns (Gains (sum_tally c ns n.children) p n ns) (aggregate_from fuel p ns)
  unfolding aggregate_from
  aggregate_from-Gains zero p ns n h e f = absurd (omega (arith, get_elem?-lt_length ns p e))
  aggregate_from-Gains (suc fuel) p ns n h e f = rw e (
      merge_children-Gains fuel (aggregate_from-Gains fuel) p n.children ns n
        ((AllFrom-get (IsNode (length ns)) 0 ns p p h e (omega arith)).below) f h e)
