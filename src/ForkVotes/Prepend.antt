-- ===== src/ForkVotes/Prepend.antt =====
-- prepend on the names of the children in execNodes.
use os.Base.{
  ℕ, ◌<◌, some, List, [], ◌∷◌, length, get_elem?, set, ◌≡◌, ◌≢◌, refl, sym, ◌∙◌, subst, All,
  Returns, Returns-weaken, get_elem?-of_lt, get_elem?-set_self, get_elem?-set_ne, length-set,
}
use os.ForkVotes.{Region}
use os.ForkVotes.Exec.{output_of, prepend_all}

-- No position stands in the list twice.
abbrev pub Distinct : List ℕ → Type 0
Distinct [] = Unit
Distinct (j ∷ js) = All (λ k. j ≢ k) js × Distinct js

abbrev pub with_output : Region → Region
with_output n = record n { name = output_of n.name }

-- The nodes in the list have new names, and the others are as they were.
abbrev pub Prepended : List ℕ → List Region → List Region → Type 0
Prepended js ns ns' =
    ((i : ℕ) → All (λ k. i ≢ k) js → get_elem? ns' i ≡ get_elem? ns i)
    × All (λ k. (n : Region) → get_elem? ns k ≡ some n → get_elem? ns' k ≡ some (with_output n)) js

All-later :
    (j : ℕ) (x : Region) (ns ns' : List Region) (js : List ℕ)
    → All (λ k. j ≢ k) js
    → All
        (λ k.
          (n : Region) → get_elem? (set ns j x) k ≡ some n → get_elem? ns' k ≡ some (with_output n))
        js
    → All (λ k. (n : Region) → get_elem? ns k ≡ some n → get_elem? ns' k ≡ some (with_output n)) js
All-later j x ns ns' [] h r = tt
All-later j x ns ns' (k ∷ ks) (h, hs) (r, rs) =
    ((λ n e. r n (get_elem?-set_ne ns x h ∙ e)), All-later j x ns ns' ks hs rs)

pub prepend_all-Prepended :
    (js : List ℕ) (ns : List Region)
    → All (λ j. j < length ns) js
    → Distinct js
    → Returns (Prepended js ns) (prepend_all js ns)
unfolding prepend_all
prepend_all-Prepended [] ns b d = ((λ i h. refl), tt)
prepend_all-Prepended (j ∷ js) ns (b, bs) (d, ds) =
    let (child, e) = get_elem?-of_lt ns j b in
    let ns1 = set ns j (with_output child) in
    rw e (
      Returns-weaken (Prepended js ns1) (Prepended (j ∷ js) ns) (prepend_all js ns1)
        (prepend_all-Prepended js ns1 (rw (length-set ns j (with_output child)) bs) ds)
        (λ ns' (keep, new). (
          (λ i h. keep i h.1 ∙ get_elem?-set_ne ns (with_output child) (λ q. h.0 (sym q))),
          (
            (λ n e'.
                let same : child ≡ n = cc in
                subst (λ m. get_elem? ns' j ≡ some (with_output m)) same
                  (keep j d ∙ get_elem?-set_self ns j (with_output child) b)),
            All-later j (with_output child) ns ns' js d new,
          ),
        )))
