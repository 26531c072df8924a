-- ===== src/Server/Count/Reports.antt =====
-- What Count_Votes and Return_Winner report.
use os.Base.{
  ℕ, suc, Bool, true, false, some, List, [], ◌∷◌, ◌++◌, ◌≡◌, refl, sym, ap, ◌∙◌, ◌⊎◌, inl, inr,
  arith, length, get_elem?, All, Pairs, Returns, Returns-bind, Returns-weaken, if◌then◌else◌,
}
use os.Base.Word.{add_int, lt_int}
use os.Text.{Text, codes, trimwhitespace, arg}
use os.Server.State.{Counter, Node, Server, find_node}
use os.Server.State.Find.{find_node-get}
use os.Server.Invariant.{IsOrdered}
use os.Server.Count.{
  aggregate, best, count_reply, count_at, count_votes, is_closed, all_closed, winner_reply,
  winner_at,
}
use os.Server.Count.Tally.{total, tallies, tally, sum_tally, tally_lem}
use os.Server.Count.Merge.{Absorbs}
use os.Server.Count.Below.{Below-tallies}
use os.Server.Count.Aggregate.{Absorbs-IsOrdered, aggregate_from-Gains, called_tally}

-- aggregate ends on every list of regions in which the children of a region stand behind it, and
-- they do so afterwards. In the region that it is called for, each candidate's votes have grown by
-- the sum of the children's tallies: on top of what it held, so a region that has data already
-- counts its children twice.
pub aggregate-total :
    (c : Text) (ns : List Node) (p : ℕ) (n : Node)
    → IsOrdered ns
    → get_elem? ns p ≡ some n
    → Returns
        (λ ns'.
          IsOrdered ns'
          × ((n' : Node) × (get_elem? ns' p ≡ some n')
              × (total c n'.counters ≡ add_int (total c n.counters) (sum_tally c ns n.children))))
        (aggregate p ns)
unfolding aggregate
aggregate-total c ns p n h e =
    Returns-weaken _ _ (aggregate p ns)
      (aggregate_from-Gains c (suc (length ns)) p ns n h e (omega arith))
      (λ ns' g. (Absorbs-IsOrdered ns ns' g.0 h, g.2))

-- For a region without data, aggregate fills its counters with exactly its tally, and changes the
-- tally of no region.
pub aggregate-tally :
    (c : Text) (ns : List Node) (p : ℕ) (n : Node)
    → IsOrdered ns
    → get_elem? ns p ≡ some n
    → n.hasdata ≡ false
    → Returns
        (λ ns'.
          IsOrdered ns'
          × (tallies c 0 ns' ≡ tallies c 0 ns)
          × ((n' : Node) × (get_elem? ns' p ≡ some n') × (total c n'.counters ≡ tally c ns p)))
        (aggregate p ns)
unfolding aggregate
aggregate-tally c ns p n h e d =
    Returns-weaken _ _ (aggregate p ns)
      (aggregate_from-Gains c (suc (length ns)) p ns n h e (omega arith))
      (λ ns' g.
        let h' = Absorbs-IsOrdered ns ns' g.0 h in
        let (counted, same) = called_tally c p ns ns' n h h' e d g in
        (h', Below-tallies c 0 p ns ns' g.1 (unfold tally in same), (g.2.0, g.2.1, counted)))

-- The answer that Count_Votes gives for a region as it then stands.
abbrev pub counted_reply : Node → Text
counted_reply n = if n.hasdata then count_reply n else codes "SC;No votes."

-- One answer was sent, and it lists counters in which the candidate `c` has the tally of region
-- `p`; no tally has changed.
abbrev pub Reports : Text → ℕ → Server → Server → Type 0
Reports c p s s' =
    IsOrdered s'.nodes
    × (tallies c 0 s'.nodes ≡ tallies c 0 s.nodes)
    × ((n : Node) × (get_elem? s'.nodes p ≡ some n)
        × (s'.sent ≡ s.sent ++ counted_reply n ∷ [])
        × (total c n.counters ≡ tally c s.nodes p))

count_at-Reports :
    (c : Text) (s : Server) (p : ℕ) (n : Node) (b : Bool)
    → IsOrdered s.nodes
    → get_elem? s.nodes p ≡ some n
    → n.hasdata ≡ b
    → Returns (Reports c p s) (count_at p n s)
unfolding count_at
count_at-Reports c s p n true h e d =
    rw d (h, refl, (n, e, rw d, sym (tally_lem c s.nodes p n h e ∙ rw d)))
count_at-Reports c s p n false h e d = rw d (
    Returns-bind _ _ (aggregate p s.nodes) _ (aggregate-tally c s.nodes p n h e d)
      (λ ns' (h', same, (n', e', t)). rw e' (h', same, (n', e', refl, t))))

-- Count_Votes of a region that exists ends and sends one answer, which lists the region's counters;
-- for every candidate they hold the region's tally. No region's tally changes.
pub count_votes-Reports :
    (c : Text) (argvp : List Text) (name : Text) (s : Server) (p : ℕ) (n : Node)
    → IsOrdered s.nodes
    → arg argvp 1 ≡ some name
    → find_node (trimwhitespace name) s.nodes ≡ some (p, n)
    → Returns (Reports c p s) (count_votes argvp s)
unfolding count_votes
count_votes-Reports c argvp name s p n h a f =
    rw a (rw f (count_at-Reports c s p n n.hasdata h ((find_node-get _ s.nodes p n f).0) refl))

-- No counter of a list has more votes than the count, in the order of `int`.
abbrev pub AtMost : ℕ → List Counter → Type 0
AtMost count ks = All (λ k. lt_int count k.count ≡ false) ks

-- Where the pair came from: it is what the loop began with, or one of the counters.
abbrev pub IsAmong : Text × ℕ → List Counter → Type 0
IsAmong r [] = ⊥
IsAmong r (k ∷ ks) = (r ≡ (k.name, k.count)) ⊎ IsAmong r ks

-- What the winner loop promises of its result.
abbrev pub IsBest : Text × ℕ → List Counter → Text × ℕ → Type 0
IsBest buf ks r = AtMost r.1 ks × (lt_int r.1 buf.1 ≡ false) × ((r ≡ buf) ⊎ IsAmong r ks)

IsBest-step :
    (buf : Text × ℕ) (k : Counter) (ks : List Counter) (r : Text × ℕ) (b : Bool)
    → lt_int buf.1 k.count ≡ b
    → IsBest (if b then (k.name, k.count) else buf) ks r
    → IsBest buf (k ∷ ks) r
IsBest-step buf k ks r true e (a, l, inl o) = ((l, a), ground (arith, l, e), inr (inl o))
IsBest-step buf k ks r true e (a, l, inr o) = ((l, a), ground (arith, l, e), inr (inr o))
IsBest-step buf k ks r false e (a, l, inl o) = ((ground (arith, l, e), a), l, inl o)
IsBest-step buf k ks r false e (a, l, inr o) = ((ground (arith, l, e), a), l, inr (inr o))

best_lem : (buf : Text × ℕ) (ks : List Counter) → IsBest buf ks (best buf ks)
unfolding best
best_lem buf [] = (tt, ground arith, inl refl)
best_lem buf (k ∷ ks) =
    IsBest-step buf k ks _ (lt_int buf.1 k.count) refl
      (best_lem (if lt_int buf.1 k.count then (k.name, k.count) else buf) ks)

-- The polls are over: the first region is closed, and so is every region without children.
abbrev pub IsOver : Node → Server → Type 0
IsOver n s = (is_closed n ≡ true) × (all_closed s.nodes ≡ true)

-- The answer names a counter of the region that no other exceeds; no name where no counter has
-- a positive count.
abbrev pub Wins : Text → Node → Type 0
Wins reply n =
    (name : Text) × (count : ℕ) × AtMost count n.counters
    × (((name ≡ []) × (count ≡ 0)) ⊎ IsAmong (name, count) n.counters)
    × (reply ≡ (if n.hasdata then codes "SC;Winner:" ++ name else codes "SC;No votes."))

winner_reply-Wins : (n : Node) → Wins (winner_reply n) n
winner_reply-Wins n =
    let r = best ([], 0) n.counters in
    let (most, _, from) = best_lem ([], 0) n.counters in (r.0, r.1, most, origin r from, refl)
  where
    origin :
        (r : Text × ℕ)
        → (r ≡ ([], 0)) ⊎ IsAmong r n.counters
        → ((r.0 ≡ []) × (r.1 ≡ 0)) ⊎ IsAmong (r.0, r.1) n.counters
    origin r (inl e) = inl (ap (λ (x : Text × ℕ). x.0) e, ap (λ (x : Text × ℕ). x.1) e)
    origin r (inr h) = inr h

-- Return_Winner of a region after the polls are over ends with one answer. If the region has data
-- then, the answer names a counter of it that no other exceeds, or nobody, and then no counter is
-- positive. Afterwards the votes of each candidate in the region are those held before and the
-- sum of the children's tallies.
pub winner_at_lem :
    (c : Text) (s : Server) (p : ℕ) (n : Node)
    → IsOrdered s.nodes
    → get_elem? s.nodes p ≡ some n
    → IsOver n s
    → Returns
        (λ s'.
          IsOrdered s'.nodes
          × ((n' : Node) × (reply : Text) × (get_elem? s'.nodes p ≡ some n')
              × (s'.sent ≡ s.sent ++ reply ∷ [])
              × Wins reply n'
              × (total c n'.counters
                  ≡ add_int (total c n.counters) (sum_tally c s.nodes n.children))))
        (winner_at p n s)
unfolding winner_at
winner_at_lem c s p n h e (closed, all) =
    rw (closed, all)
      (Returns-bind _ _ (aggregate p s.nodes) _ (aggregate-total c s.nodes p n h e)
        (λ ns' (h', (n', e', t)).
          rw e' (h', (n', winner_reply n', e', refl, winner_reply-Wins n', t))))

-- aggregate ends, and leaves names, flags and children alone.
pub aggregate-Absorbs :
    (ns : List Node) (p : ℕ) (n : Node)
    → IsOrdered ns
    → get_elem? ns p ≡ some n
    → Returns
        (λ ns'. Pairs Absorbs ns ns' × ((n' : Node) × (get_elem? ns' p ≡ some n')))
        (aggregate p ns)
unfolding aggregate
aggregate-Absorbs ns p n h e =
    Returns-weaken _ _ (aggregate p ns)
      (aggregate_from-Gains [] (suc (length ns)) p ns n h e (omega arith))
      (λ ns' g. (g.0, (g.2.0, g.2.1)))
