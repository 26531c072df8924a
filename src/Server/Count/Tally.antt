-- ===== src/Server/Count/Tally.antt =====
-- What the server promises to count: the votes of a candidate in each region, as sums over the
-- children, read from the list from its end on.
use native.Mathlib.Nat.{sub-zero}
use os.Base.{
  ℕ, zero, suc, ◌-◌, ◌<◌, some, List, [], ◌∷◌, ◌≡◌, refl, arith, length, get_elem?, get_or, All,
  AllFrom, All-weaken, if◌then◌else◌,
}
use os.Base.Word.{add_int}
use os.Text.{Text, text_eq}
use os.Server.State.{Counter, Node}
use os.Server.Invariant.{IsNode, IsOrdered}

-- All votes for a candidate in a chain, duplicates of the name included.
unfoldable pub total : Text → List Counter → ℕ
total c [] = 0
total c (k ∷ ks) = let rest = total c ks in if text_eq k.name c then add_int k.count rest else rest

-- Over children whose positions count from `i`, in a table of the regions from `i` on.
unfoldable pub sum_children : List ℕ → ℕ → List ℕ → ℕ
sum_children table i [] = 0
sum_children table i (j ∷ js) = add_int (get_or table (j - i) 0) (sum_children table i js)

-- The votes in the regions from position `i` on: its own counters for a region with data, and else
-- the sum over its children.
unfoldable pub tallies : Text → ℕ → List Node → List ℕ
tallies c i [] = []
tallies c i (n ∷ ns) =
    let rest = tallies c (suc i) ns in
    (if n.hasdata then total c n.counters else sum_children rest (suc i) n.children) ∷ rest

unfoldable pub tally : Text → List Node → ℕ → ℕ
tally c ns j = get_or (tallies c 0 ns) j 0

unfoldable pub sum_tally : Text → List Node → List ℕ → ℕ
sum_tally c ns [] = 0
sum_tally c ns (j ∷ js) = add_int (tally c ns j) (sum_tally c ns js)

get_or-shift :
    (v : ℕ) (rest : List ℕ) (i j : ℕ)
    → i < j
    → get_or (v ∷ rest) (j - i) 0 ≡ get_or rest (j - suc i) 0
get_or-shift v rest i j h = let e : j - i ≡ suc (j - suc i) = omega arith in rw e

sum_children-shift :
    (v : ℕ) (rest : List ℕ) (i : ℕ) (js : List ℕ)
    → All (λ j. i < j) js
    → sum_children (v ∷ rest) i js ≡ sum_children rest (suc i) js
unfolding sum_children
sum_children-shift v rest i [] h = refl
sum_children-shift v rest i (j ∷ js) h =
    rw (get_or-shift v rest i j h.0, sum_children-shift v rest i js h.1)

tallies-get :
    (c : Text) (k i : ℕ) (ns : List Node) (p : ℕ) (n : Node)
    → AllFrom (IsNode k) i ns
    → get_elem? ns p ≡ some n
    → All (λ j. i < j) n.children
      × (get_or (tallies c i ns) p 0
          ≡ (if n.hasdata then total c n.counters else sum_children (tallies c i ns) i n.children))
unfolding tallies
tallies-get c k i [] p n h e = cc
tallies-get c k i (m ∷ ns) zero n h e =
    let same : m ≡ n = cc in
    let behind = All-weaken m.children (λ j q. q.0) h.0.below in
    rw (← same) (behind, rw (sum_children-shift _ _ i m.children behind))
tallies-get c k i (m ∷ ns) (suc p) n h e =
    let (behind, q) = tallies-get c k (suc i) ns p n h.1 e in
    let behind' = All-weaken n.children (λ j (b : suc i < j). omega arith) behind in
    (behind', rw (sum_children-shift _ _ i n.children behind') q)

sum_children-sum_tally :
    (c : Text) (ns : List Node) (js : List ℕ)
    → sum_children (tallies c 0 ns) 0 js ≡ sum_tally c ns js
unfolding sum_children sum_tally tally
sum_children-sum_tally c ns [] = refl
sum_children-sum_tally c ns (j ∷ js) = rw (sub-zero, sum_children-sum_tally c ns js)

-- The tally of a region in a list that is in order: its own counters, or the sum of its children's tallies.
pub tally_lem :
    (c : Text) (ns : List Node) (p : ℕ) (n : Node)
    → IsOrdered ns
    → get_elem? ns p ≡ some n
    → tally c ns p ≡ (if n.hasdata then total c n.counters else sum_tally c ns n.children)
unfolding tally
tally_lem c ns p n h e =
    rw (← sum_children-sum_tally c ns n.children) ((tallies-get c (length ns) 0 ns p n h e).1)
