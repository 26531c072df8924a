-- ===== src/Server/Polls/Visit.antt =====
-- The induction over the recursion of a sweep: it ends, and keeps its promise.
use os.Base.{
  ℕ, zero, suc, ◌≤◌, ◌<◌, true, Option, none, some, List, [], ◌∷◌, ◌≡◌, ◌≢◌, ◌⊎◌, refl, sym, subst,
  ◌∙◌, inl, inr, arith, length, get_elem?, set, All, Pairs, Pairs-refl, Pairs-weaken, Pairs-trans,
  Pairs-length, Pairs-get, Pairs-set, All-Pairs, All-set, All-get, get_elem?-of_lt, length-set,
  get_elem?-set_self, get_elem?-lt_length, Returns, Returns-bind, Returns-weaken, ap,
}
use os.Text.{Text, leading_space, trimwhitespace}
use os.Text.InPlace.{
  Trims, Trims-trans, Trims-trimwhitespace, Trims-leading_space, Trims-trimmed,
  trim_in_place-no_blank,
}
use os.Server.State.{Node, find_node}
use os.Server.State.Find.{find_node-get, find_node-found}
use os.Server.Polls.{Code, each_child, trim_name, visit_node, visit_found, sweep}
use os.Server.Polls.Sweep.{
  is_some, InRange, rename, IsAction, Handled, ChildrenHandled, Writes, Swept, Changed,
  Swept→Changed, ready_count, Sweeps, NodeOutcome, Outcome, Visited,
}

module _ (check : Node → Option Code) (act : Node → Node) (law : IsAction check act) where
  open law use {once, same_name, same_children, check-rename, act-rename}

  same-check : (n m : Node) (t : Text) → m ≡ rename n t → check m ≡ check n
  same-check n m t e = ap check e ∙ check-rename n t

  acted-check :
      (n m : Node) (t : Text) → check n ≡ none → m ≡ rename (act n) t → is_some (check m) ≡ true
  acted-check n m t a e = is_some-of _ (λ z. once n a (sym (same-check (act n) m t e) ∙ z))
    where
      is_some-of : (o : Option Code) → o ≢ none → is_some o ≡ true
      is_some-of none h = absurd (h refl)
      is_some-of (some c) h = refl

  Changed-children : (n n' : Node) → Changed check act n n' → n'.children ≡ n.children
  Changed-children n n' (t, inl e) = ap (λ (m : Node). m.children) e
  Changed-children n n' (t, inr (a, e)) = ap (λ (m : Node). m.children) e ∙ same_children n

  Changed-check :
      (n n' : Node) → Changed check act n n' → is_some (check n) ≡ true → is_some (check n') ≡ true
  Changed-check n n' (t, inl e) h = ap is_some (same-check n n' n'.name e) ∙ h
  Changed-check n n' (t, inr (a, e)) h = acted-check n n' n'.name a e

  -- A trimmed name stays, and so does what its region is.
  Handled-later :
      (name : Text) (ns ns' : List Node)
      → Pairs (Changed check act) ns ns'
      → Handled check act (trimwhitespace name) ns
      → Handled check act (trimwhitespace name) ns'
  Handled-later name ns ns' h (j, m, e, same, d) =
      let (m', e', r) = Pairs-get (Changed check act) ns ns' j h e in
      (
        j,
        m',
        e',
        Trims-trimwhitespace name m'.name (subst (λ t. Trims t m'.name) same r.0),
        Changed-check m m' r d,
      )

  -- What is known of a name holds of the name that later calls have trimmed.
  child-later :
      (s t : Text) (ns : List Node)
      → Trims s t
      → (leading_space s ≢ []) ⊎ Handled check act (trimwhitespace s) ns
      → (leading_space t ≢ []) ⊎ Handled check act (trimwhitespace t) ns
  child-later s t ns h (inl blank) = inl (λ e. blank (sym (Trims-leading_space s t h) ∙ e))
  child-later s t ns h (inr d) =
      inr (subst (λ u. Handled check act u ns) (sym (Trims-trimmed s t h)) d)

  ChildrenHandled-later :
      (cs : List ℕ) (ns ns' : List Node)
      → Pairs (Changed check act) ns ns'
      → ChildrenHandled check act cs ns
      → ChildrenHandled check act cs ns'
  ChildrenHandled-later [] ns ns' h k = tt
  ChildrenHandled-later (c ∷ cs) ns ns' h ((child, e, d), k) =
      let (child', e', r) = Pairs-get (Changed check act) ns ns' c h e in
      (
        (child', e', child-later child.name child'.name ns' r.0 (later d)),
        ChildrenHandled-later cs ns ns' h k,
      )
    where
      later :
          (leading_space child.name ≢ []) ⊎ Handled check act (trimwhitespace child.name) ns
          → (leading_space child.name ≢ []) ⊎ Handled check act (trimwhitespace child.name) ns'
      later (inl blank) = inl blank
      later (inr d) = inr (Handled-later child.name ns ns' h d)

  Swept-refl : (final : List Node) (n : Node) → Swept check act final n n
  Swept-refl final n = (inl refl, inl refl)

  Swept-later :
      (ns ns' : List Node) (n n' : Node)
      → Pairs (Changed check act) ns ns'
      → Swept check act ns n n'
      → Swept check act ns' n n'
  Swept-later ns ns' n n' h (t, inl e) = (t, inl e)
  Swept-later ns ns' n n' h (t, inr (a, b, c)) = (t, inr (a, b, ChildrenHandled-later _ ns ns' h c))

  Writes-trans :
      (final : List Node) (n m o : Node)
      → Writes check act final n m
      → Writes check act final m o
      → Writes check act final n o
  Writes-trans final n m o (inl e) (inl e') = inl (e' ∙ ap (λ k. rename k o.name) e)
  Writes-trans final n m o (inr (a, b, c)) (inl e') = inr (a, e' ∙ ap (λ k. rename k o.name) b, c)
  Writes-trans final n m o (inl e) (inr (a, b, c)) = inr (
    sym (same-check n m m.name e) ∙ a,
    b ∙ ap (λ k. rename (act k) o.name) e ∙ ap (λ k. rename k o.name) (act-rename n m.name),
    subst (λ cs. ChildrenHandled check act cs final) (ap (λ (k : Node). k.children) e) c,
  )
  Writes-trans final n m o (inr (a, b, c)) (inr (a', b', c')) =
      absurd (once n a (sym (same-check (act n) m m.name b) ∙ a'))

  Swept-trans :
      (final : List Node) (n m o : Node)
      → Swept check act final n m
      → Swept check act final m o
      → Swept check act final n o
  Swept-trans final n m o (t, w) (t', w') =
      (Trims-trans n.name m.name o.name t t', Writes-trans final n m o w w')

  -- The write to a region whose children are handled in the end.
  Swept-after_act :
      (final ns ns' : List Node) (i : ℕ) (n : Node)
      → get_elem? ns i ≡ some n
      → check n ≡ none
      → ChildrenHandled check act n.children final
      → Pairs (Swept check act final) (set ns i (act n)) ns'
      → Pairs (Swept check act final) ns ns'
  Swept-after_act final ns ns' i n e a c h =
      Pairs-trans ns (set ns i (act n)) ns' (Swept-trans final)
        (Pairs-set (Swept check act final) ns i (act n) (Swept-refl final) e
          (inl (same_name n), inr (a, refl, c)))
        h

  ready_count-Changed :
      (ns ns' : List Node)
      → Pairs (Changed check act) ns ns'
      → ready_count check act ns' ≤ ready_count check act ns
  unfolding ready_count
  ready_count-Changed [] [] h = omega arith
  ready_count-Changed [] (n' ∷ ns') h = absurd h
  ready_count-Changed (n ∷ ns) [] h = absurd h
  ready_count-Changed (n ∷ ns) (n' ∷ ns') h =
      ground (arith, ready_count-Changed ns ns' h.1, Changed-check n n' h.0)

  ready_count-act :
      (ns : List Node) (i : ℕ) (n : Node)
      → get_elem? ns i ≡ some n
      → check n ≡ none
      → ready_count check act (set ns i (act n)) < ready_count check act ns
  unfolding ready_count
  ready_count-act [] i n e a = cc
  ready_count-act (m ∷ ns) zero n e a = ground (arith, once n a)
  ready_count-act (m ∷ ns) (suc i) n e a = ground (arith, ready_count-act ns i n e a)

  InRange-Changed :
      (k : ℕ) (ns ns' : List Node) → Pairs (Changed check act) ns ns' → InRange k ns → InRange k ns'
  InRange-Changed k ns ns' = All-Pairs ns ns' (λ n n' r h. rw (Changed-children n n' r) h)

  Sweeps→Changed : (ns ns' : List Node) → Sweeps check act ns ns' → Pairs (Changed check act) ns ns'
  Sweeps→Changed ns ns' = Pairs-weaken ns ns' (Swept→Changed check act ns')

  Sweeps-trans :
      (ns ns1 ns' : List Node)
      → Sweeps check act ns ns1
      → Sweeps check act ns1 ns'
      → Sweeps check act ns ns'
  Sweeps-trans ns ns1 ns' h k =
      Pairs-trans ns ns1 ns' (Swept-trans ns')
        (Pairs-weaken ns ns1 (λ n m. Swept-later ns1 ns' n m (Sweeps→Changed ns1 ns' k)) h) k

  -- The call trims the name of the child.
  Sweeps-trim_name :
      (ns : List Node) (c : ℕ) (child : Node)
      → get_elem? ns c ≡ some child
      → Sweeps check act ns (set ns c (trim_name child))
  Sweeps-trim_name ns c child e =
      Pairs-set (Swept check act (set ns c (trim_name child))) ns c (trim_name child) (Swept-refl _)
        e (inr refl, inl refl)

  -- Its own name is trimmed already, so the region stays as the write has left it.
  act_stays :
      (final ns ns' : List Node) (name : Text) (i : ℕ) (n : Node)
      → get_elem? ns i ≡ some n
      → trimwhitespace name ≡ n.name
      → check n ≡ none
      → Pairs (Swept check act final) (set ns i (act n)) ns'
      → get_elem? ns' i ≡ some (act n)
  act_stays final ns ns' name i n e named a h =
      let there = get_elem?-set_self ns i (act n) (get_elem?-lt_length ns i e) in
      let (n', e', (t, w)) = Pairs-get (Swept check act final) _ ns' i h there in
      elim w [
        | inl same ↦ e' ∙ ap some (same ∙ ap (rename (act n)) (kept n' t))
        | inr (a', _, _) ↦ absurd (once n a a')
      ]
    where
      kept : (n' : Node) → Trims (act n).name n'.name → n'.name ≡ (act n).name
      kept n' t =
          let trimmed : (act n).name ≡ trimwhitespace name = same_name n ∙ sym named in
          Trims-trimwhitespace name n'.name (subst (λ u. Trims u n'.name) trimmed t) ∙ sym trimmed

  -- The child after its call: it is named by what its name was trimmed to.
  child-Handled :
      (c : ℕ) (child : Node) (ns ns1 : List Node)
      → get_elem? ns c ≡ some (trim_name child)
      → Pairs (Changed check act) ns ns1
      → (find_node (trimwhitespace child.name) ns ≡ none)
        ⊎ Handled check act (trimwhitespace child.name) ns1
      → ChildrenHandled check act (c ∷ []) ns1
  child-Handled c child ns ns1 e ch d =
      let (child1, e1, r) = Pairs-get (Changed check act) ns ns1 c ch e in
      let trims = Trims-trans child.name _ child1.name (inr refl) r.0 in
      ((child1, e1, child-later child.name child1.name ns1 trims (known d)), tt)
    where
      known :
          (find_node (trimwhitespace child.name) ns ≡ none)
            ⊎ Handled check act (trimwhitespace child.name) ns1
          → (leading_space child.name ≢ []) ⊎ Handled check act (trimwhitespace child.name) ns1
      known (inr d) = inr d
      known (inl missing) = inl (λ h.
          find_node-found (trimwhitespace child.name) ns c (trim_name child) e
            (trim_in_place-no_blank child.name h) missing)

  module _ (fuel : ℕ)
      (visit : (name : Text) (ns : List Node)
        → InRange (length ns) ns
        → ready_count check act ns < fuel
        → Returns (Visited check act name ns) (sweep check act fuel name ns)) where
    each_child-Sweeps :
        (cs : List ℕ) (ns : List Node)
        → All (λ c. c < length ns) cs
        → InRange (length ns) ns
        → ready_count check act ns < fuel
        → Returns
            (λ ns'. Sweeps check act ns ns' × ChildrenHandled check act cs ns')
            (each_child (sweep check act fuel) cs ns)
    unfolding each_child
    each_child-Sweeps [] ns b r f = (Pairs-refl _ ns (Swept-refl ns), tt)
    each_child-Sweeps (c ∷ cs) ns b r f =
        let (child, e) = get_elem?-of_lt ns c b.0 in
        let ns0 = set ns c (trim_name child) in
        let trimmed = Sweeps-trim_name ns c child e in
        let ch0 = Sweeps→Changed ns ns0 trimmed in
        let same0 = Pairs-length (Changed check act) ns ns0 ch0 in
        let r0 : InRange (length ns0) ns0 = rw same0 (InRange-Changed (length ns) ns ns0 ch0 r) in
        rw e (
          Returns-bind (Visited check act child.name ns0) _ (sweep check act fuel child.name ns0) _
            (visit child.name ns0 r0 (omega (arith, f, ready_count-Changed ns ns0 ch0)))
            (λ (code, ns1) (h, d).
              let ch = Sweeps→Changed ns0 ns1 h in
              let same = Pairs-length (Changed check act) ns0 ns1 ch in
              let k =
                child-Handled c child ns0 ns1 (get_elem?-set_self ns c (trim_name child) b.0) ch
                  d in
              Returns-weaken _ _ (each_child (sweep check act fuel) cs ns1)
                (each_child-Sweeps cs ns1 (rw same (rw same0 b.1))
                  (rw same (InRange-Changed (length ns0) ns0 ns1 ch r0))
                  (omega
                    (arith, f, ready_count-Changed ns ns0 ch0, ready_count-Changed ns0 ns1 ch)))
                (λ ns' (h', k'). (
                  Sweeps-trans ns ns0 ns' trimmed (Sweeps-trans ns0 ns1 ns' h h'),
                  ((ChildrenHandled-later (c ∷ []) ns1 ns' (Sweeps→Changed ns1 ns' h') k).0, k'),
                ))))

  module _ (fuel : ℕ)
      (visit : (name : Text) (ns : List Node)
        → InRange (length ns) ns
        → ready_count check act ns < fuel
        → Returns (Visited check act name ns) (sweep check act fuel name ns)) where
    visit_node-Visited :
        (name : Text) (ns : List Node) (i : ℕ) (n : Node) (o : Option Code)
        → InRange (length ns) ns
        → ready_count check act ns < suc fuel
        → find_node (trimwhitespace name) ns ≡ some (i, n)
        → check n ≡ o
        → Returns
            (λ r. Visited check act name ns r × NodeOutcome check act i n ns o r)
            (visit_node (sweep check act fuel) act i n ns o)
    visit_node-Visited name ns i n (some code) r f e o =
        let (at_, named) = find_node-get _ ns i n e in
        ((Pairs-refl _ ns (Swept-refl ns), inr (i, n, at_, sym named, rw o refl)), (refl, refl))
    visit_node-Visited name ns i n none r f e o =
        let (at_, named) = find_node-get _ ns i n e in
        let ns1 = set ns i (act n) in
        let same = length-set ns i (act n) in
        let children = All-get (λ m. All (λ c. c < length ns) m.children) ns i r at_ in
        let in_range : InRange (length ns1) ns1 =
          rw same (All-set _ ns i (act n) r (rw (same_children n) children)) in
        Returns-bind (λ ns'. Sweeps check act ns1 ns' × ChildrenHandled check act n.children ns') _
          (each_child (sweep check act fuel) n.children ns1) _
          (each_child-Sweeps fuel visit n.children ns1 (rw same children) in_range
            (omega (arith, ready_count-act ns i n at_ o)))
          (λ ns' (h, k).
            let swept = Swept-after_act ns' ns ns' i n at_ o k h in
            let stays = act_stays ns' ns ns' name i n at_ named o h in
            let handled : Handled check act (trimwhitespace name) ns' = (
              i,
              act n,
              stays,
              same_name n ∙ sym named,
              acted-check n (act n) (act n).name o refl,
            ) in
            ((swept, inr handled), (refl, swept, stays)))

    visit_found-Visited :
        (name : Text) (ns : List Node) (o : Option (ℕ × Node))
        → InRange (length ns) ns
        → ready_count check act ns < suc fuel
        → find_node (trimwhitespace name) ns ≡ o
        → Returns
            (λ r. Visited check act name ns r × Outcome check act ns o r)
            (visit_found (sweep check act fuel) check act ns o)
    visit_found-Visited name ns none r f e =
        ((Pairs-refl _ ns (Swept-refl ns), inl e), (refl, refl))
    visit_found-Visited name ns (some (i, n)) r f e =
        visit_node-Visited name ns i n (check n) r f e refl

  -- With more fuel than regions that can change, a sweep ends; every region that it changed has its
  -- children handled, and so is the named region.
  pub sweep-Visited :
      (fuel : ℕ) (name : Text) (ns : List Node)
      → InRange (length ns) ns
      → ready_count check act ns < fuel
      → Returns (Visited check act name ns) (sweep check act fuel name ns)
  unfolding sweep
  sweep-Visited zero name ns r f = elim f [ ]
  sweep-Visited (suc fuel) name ns r f =
      Returns-weaken _ _ (sweep check act (suc fuel) name ns)
        (visit_found-Visited fuel (sweep-Visited fuel) name ns (find_node (trimwhitespace name) ns)
          r f refl)
        (λ _ h. h.0)

  pub sweep-Outcome :
      (fuel : ℕ) (name : Text) (ns : List Node)
      → InRange (length ns) ns
      → ready_count check act ns < fuel
      → Returns
          (Outcome check act ns (find_node (trimwhitespace name) ns))
          (sweep check act fuel name ns)
  unfolding sweep
  sweep-Outcome zero name ns r f = elim f [ ]
  sweep-Outcome (suc fuel) name ns r f =
      Returns-weaken _ _ (sweep check act (suc fuel) name ns)
        (visit_found-Visited fuel (sweep-Visited fuel) name ns (find_node (trimwhitespace name) ns)
          r f refl)
        (λ _ h. h.1)
