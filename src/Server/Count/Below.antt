-- ===== src/Server/Count/Below.antt =====
-- Two lists of regions that agree before a position, and in the tallies behind it.
use os.Base.{
  ℕ, zero, suc, ◌<◌, some, List, [], ◌∷◌, ◌≡◌, refl, ap, ◌∙◌, arith, get_elem?, get_or, set, All,
}
use os.Text.{Text}
use os.Server.State.{Node}
use os.Server.Count.Tally.{tallies, tally, sum_tally}

module _ (c : Text) where
  -- The regions before position `p` are the same; those behind it have the same tallies.
  abbrev pub Below : ℕ → ℕ → List Node → List Node → Type 0
  Below i p [] [] = Unit
  Below i p [] (n' ∷ ns') = ⊥
  Below i p (n ∷ ns) [] = ⊥
  Below i zero (n ∷ ns) (n' ∷ ns') = tallies c (suc i) ns' ≡ tallies c (suc i) ns
  Below i (suc p) (n ∷ ns) (n' ∷ ns') = (n' ≡ n) × Below (suc i) p ns ns'

  pub Below-refl : (i p : ℕ) (ns : List Node) → Below i p ns ns
  Below-refl i p [] = tt
  Below-refl i zero (n ∷ ns) = refl
  Below-refl i (suc p) (n ∷ ns) = (refl, Below-refl (suc i) p ns)

  pub Below-trans :
      (i p : ℕ) (ns ms os : List Node) → Below i p ns ms → Below i p ms os → Below i p ns os
  Below-trans i p [] [] [] h k = tt
  Below-trans i p [] [] (o ∷ os) h k = absurd k
  Below-trans i p [] (m ∷ ms) os h k = absurd h
  Below-trans i p (n ∷ ns) [] os h k = absurd h
  Below-trans i p (n ∷ ns) (m ∷ ms) [] h k = absurd k
  Below-trans i zero (n ∷ ns) (m ∷ ms) (o ∷ os) h k = k ∙ h
  Below-trans i (suc p) (n ∷ ns) (m ∷ ms) (o ∷ os) h k =
      (k.0 ∙ h.0, Below-trans (suc i) p ns ms os h.1 k.1)

  pub Below-set : (i p : ℕ) (ns : List Node) (x : Node) → Below i p ns (set ns p x)
  Below-set i p [] x = tt
  Below-set i zero (n ∷ ns) x = refl
  Below-set i (suc p) (n ∷ ns) x = (refl, Below-set (suc i) p ns x)

  -- With the same tally at the position, all tallies are the same.
  pub Below-tallies :
      (i p : ℕ) (ns ns' : List Node)
      → Below i p ns ns'
      → get_or (tallies c i ns') p 0 ≡ get_or (tallies c i ns) p 0
      → tallies c i ns' ≡ tallies c i ns
  unfolding tallies
  Below-tallies i p [] [] h e = refl
  Below-tallies i p [] (n' ∷ ns') h e = absurd h
  Below-tallies i p (n ∷ ns) [] h e = absurd h
  Below-tallies i zero (n ∷ ns) (n' ∷ ns') h e = cc
  Below-tallies i (suc p) (n ∷ ns) (n' ∷ ns') h e = rw (h.0, Below-tallies (suc i) p ns ns' h.1 e)

  -- So the lists also agree at an earlier position.
  pub Below-weaken :
      (i p q : ℕ) (ns ns' : List Node)
      → p < q
      → Below i q ns ns'
      → get_or (tallies c i ns') q 0 ≡ get_or (tallies c i ns) q 0
      → Below i p ns ns'
  unfolding tallies
  Below-weaken i p q [] [] l h e = tt
  Below-weaken i p q [] (n' ∷ ns') l h e = absurd h
  Below-weaken i p q (n ∷ ns) [] l h e = absurd h
  Below-weaken i p zero (n ∷ ns) (n' ∷ ns') l h e = elim l [ ]
  Below-weaken i zero (suc q) (n ∷ ns) (n' ∷ ns') l h e = Below-tallies (suc i) q ns ns' h.1 e
  Below-weaken i (suc p) (suc q) (n ∷ ns) (n' ∷ ns') l h e =
      (h.0, Below-weaken (suc i) p q ns ns' (omega arith) h.1 e)

  pub Below-get :
      (i p j : ℕ) (ns ns' : List Node) → j < p → Below i p ns ns' → get_elem? ns' j ≡ get_elem? ns j
  Below-get i p j [] [] l h = refl
  Below-get i p j [] (n' ∷ ns') l h = absurd h
  Below-get i p j (n ∷ ns) [] l h = absurd h
  Below-get i zero j (n ∷ ns) (n' ∷ ns') l h = elim l [ ]
  Below-get i (suc p) zero (n ∷ ns) (n' ∷ ns') l h = ap some h.0
  Below-get i (suc p) (suc j) (n ∷ ns) (n' ∷ ns') l h =
      Below-get (suc i) p j ns ns' (omega arith) h.1

  Below-get_or :
      (i p j : ℕ) (ns ns' : List Node)
      → p < j
      → Below i p ns ns'
      → get_or (tallies c i ns') j 0 ≡ get_or (tallies c i ns) j 0
  unfolding tallies
  Below-get_or i p j [] [] l h = refl
  Below-get_or i p j [] (n' ∷ ns') l h = absurd h
  Below-get_or i p j (n ∷ ns) [] l h = absurd h
  Below-get_or i p zero (n ∷ ns) (n' ∷ ns') l h = elim l [ ]
  Below-get_or i zero (suc j) (n ∷ ns) (n' ∷ ns') l h = rw h
  Below-get_or i (suc p) (suc j) (n ∷ ns) (n' ∷ ns') l h =
      Below-get_or (suc i) p j ns ns' (omega arith) h.1

  pub Below-tally :
      (p j : ℕ) (ns ns' : List Node) → p < j → Below 0 p ns ns' → tally c ns' j ≡ tally c ns j
  unfolding tally
  Below-tally p j ns ns' = Below-get_or 0 p j ns ns'

  pub Below-sum_tally :
      (p : ℕ) (js : List ℕ) (ns ns' : List Node)
      → All (λ j. p < j) js
      → Below 0 p ns ns'
      → sum_tally c ns' js ≡ sum_tally c ns js
  unfolding sum_tally
  Below-sum_tally p [] ns ns' l h = refl
  Below-sum_tally p (j ∷ js) ns ns' l h =
      rw (Below-tally p j ns ns' l.0 h, Below-sum_tally p js ns ns' l.1 h)
