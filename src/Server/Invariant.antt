-- ===== src/Server/Invariant.antt =====
-- What holds of the list of regions from createDAG on.
use os.Base.{ℕ, ◌<◌, false, ◌&&◌, List, [], ◌≡◌, length, All, AllFrom, All-weaken, AllFrom→All}
use os.Server.State.{Node}
use os.Server.Polls.Sweep.{InRange}

-- The region at position `i` of `k`: its children stand behind it in the list, it is not both open
-- and closed, and it has counters only where it has data.
pub record IsNode (k i : ℕ) (n : Node) : Type 0 where
  pub below : All (λ c. (i < c) × (c < k)) n.children
  pub legal : (n.open_ && n.closed) ≡ false
  pub data_law : n.hasdata ≡ false → n.counters ≡ []

abbrev pub IsOrdered : List Node → Type 0
IsOrdered ns = AllFrom (IsNode (length ns)) 0 ns

pub IsOrdered-InRange : (ns : List Node) → IsOrdered ns → InRange (length ns) ns
IsOrdered-InRange ns h = AllFrom→All 0 ns (λ j n g. All-weaken n.children (λ c p. p.1) g.below) h
