-- ===== src/Samples/ForkRuns.antt =====
-- The theorems on the vote counter of CSCI4061_asn1 at a sample DAG.
use os.Base.{
  ℕ, zero, suc, ◌<◌, false, some, List, [], ◌∷◌, ◌≡◌, ◌↔◌, refl, arith, AllFrom, Returns, All,
  length, subst,
}
use os.Text.{Text, codes}
use os.ForkVotes.{Region, find_dag_loop}
use os.ForkVotes.Exec.{output_of, exec_nodes}
use os.ForkVotes.Links.{StandsOnce, find_dag_loop_lem}
use os.ForkVotes.Order.{IsRanked, ChildrenDistinct, Among, AreReady, written, exec_nodes_lem}
use os.ForkVotes.Prepend.{Distinct}

abbrev seen : List Text
seen = codes "Who_Won" ∷ codes "Region_1" ∷ codes "County_1" ∷ []

find_dag_loop_lem_example : (find_dag_loop seen ≡ false) ↔ AllFrom (StandsOnce seen) 0 seen
find_dag_loop_lem_example = find_dag_loop_lem seen

abbrev site : Text → List ℕ → Region
site name children = record { name = name; children = children; num_descendant = 0; status = false }

abbrev sites : List Region
sites =
    site (codes "Who_Won") (1 ∷ 2 ∷ [])
    ∷ site (codes "Region_1") (2 ∷ [])
    ∷ site (codes "County_1") []
    ∷ []

abbrev height : ℕ → ℕ
height zero = 2
height (suc zero) = 1
height (suc (suc i)) = 0

of_same : (P : List ℕ → Type 0) (m n : Region) → some m ≡ some n → P m.children → P n.children
of_same P m n e h = let same : m ≡ n = cc in subst (λ k. P k.children) same h

abbrev Ranked : ℕ → List ℕ → Type 0
Ranked i js = All (λ j. (j < length sites) × (height j < height i)) js

sites-IsRanked : IsRanked height sites
sites-IsRanked zero n e =
    of_same (Ranked 0) (site (codes "Who_Won") (1 ∷ 2 ∷ [])) n e
      ((omega arith, omega arith), ((omega arith, omega arith), tt))
sites-IsRanked (suc zero) n e =
    of_same (Ranked 1) (site (codes "Region_1") (2 ∷ [])) n e ((omega arith, omega arith), tt)
sites-IsRanked (suc (suc zero)) n e = of_same (Ranked 2) (site (codes "County_1") []) n e tt
sites-IsRanked (suc (suc (suc i))) n e = cc

sites-ChildrenDistinct : ChildrenDistinct sites
sites-ChildrenDistinct zero n e =
    of_same Distinct (site (codes "Who_Won") (1 ∷ 2 ∷ [])) n e
      (((λ q. omega (arith, q)), tt), (tt, tt))
sites-ChildrenDistinct (suc zero) n e =
    of_same Distinct (site (codes "Region_1") (2 ∷ [])) n e (tt, tt)
sites-ChildrenDistinct (suc (suc zero)) n e = of_same Distinct (site (codes "County_1") []) n e tt
sites-ChildrenDistinct (suc (suc (suc i))) n e = cc

exec_nodes_lem_example :
    Returns
      (λ cs. AreReady [] cs × Among (output_of (codes "Who_Won")) (written cs []))
      (exec_nodes 3 0 sites)
exec_nodes_lem_example =
    exec_nodes_lem height sites 0 (site (codes "Who_Won") (1 ∷ 2 ∷ [])) sites-IsRanked
      sites-ChildrenDistinct refl
