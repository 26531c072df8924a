-- ===== src/DirVotes/Front.antt =====
-- The front runner of a chain of candidates, and a candidate's total in a chain without doubles.
use os.Base.{
  ℕ, ◌<◌, ◌≤◌, true, false, List, [], ◌∷◌, ◌≡◌, refl, sym, ap, subst, ◌∙◌, ◌⊎◌, inl, inr, arith,
  All,
}
use os.Text.{Text, text_eq}
use os.Server.State.{Counter}
use os.Server.State.Find.{text_eq_iff}
use os.Server.Count.Tally.{total}
use os.DirVotes.{take_front}
use os.DirVotes.Chain.{text_eq_comm, IsNew, AreDistinct, CountsAre, total-IsNew}
use os.DirVotes.Ballots.{IsChain}

-- The front runner behind the nodes of a chain.
unfoldable pub front : List Counter → Text × ℕ → Text × ℕ
front [] best = best
front (k ∷ ks) best = front ks (take_front best k.name k.count)

-- The front runner is a node of the chain, or the one before it, and no node has more votes.
unfoldable pub IsFront : List Counter → Text × ℕ → Text × ℕ → Type 0
IsFront ks best out =
    (best.1 ≤ out.1) × All (λ k. k.count ≤ out.1) ks × ((out ≡ best) ⊎ CountsAre ks out.0 out.1)

take_front-cases :
    (best : Text × ℕ) (k : Counter)
    → best.1 < 2147483648
    → k.count < 2147483648
    → ((take_front best k.name k.count ≡ (k.name, k.count)) × (best.1 ≤ k.count))
      ⊎ ((take_front best k.name k.count ≡ best) × (k.count ≤ best.1))
take_front-cases best k b h = ground arith

IsFront-taken :
    (k : Counter) (ks : List Counter) (best out : Text × ℕ)
    → best.1 ≤ k.count
    → IsFront ks (k.name, k.count) out
    → IsFront (k ∷ ks) best out
unfolding IsFront
IsFront-taken k ks best out le (ge, all, inl e) =
    (omega (arith, le, ge), (ge, all), inr (inl (ap (λ p. p.0) (sym e), ap (λ p. p.1) (sym e))))
IsFront-taken k ks best out le (ge, all, inr there) =
    (omega (arith, le, ge), (ge, all), inr (inr there))

IsFront-kept :
    (k : Counter) (ks : List Counter) (best out : Text × ℕ)
    → k.count ≤ best.1
    → IsFront ks best out
    → IsFront (k ∷ ks) best out
unfolding IsFront
IsFront-kept k ks best out le (ge, all, inl e) = (ge, (omega (arith, le, ge), all), inl e)
IsFront-kept k ks best out le (ge, all, inr there) =
    (ge, (omega (arith, le, ge), all), inr (inr there))

pub front-IsFront :
    (ks : List Counter) (best : Text × ℕ)
    → best.1 < 2147483648
    → All (λ k. k.count < 2147483648) ks
    → IsFront ks best (front ks best)
unfolding front
front-IsFront [] best b h = unfold IsFront in (omega arith, tt, inl refl)
front-IsFront (k ∷ ks) best b (h, hs) = elim (take_front-cases best k b h) [
  | inl (e, le) ↦
      subst (λ n. IsFront (k ∷ ks) best (front ks n)) (sym e)
        (IsFront-taken k ks best (front ks (k.name, k.count)) le
          (front-IsFront ks (k.name, k.count) h hs))
  | inr (e, le) ↦
      subst (λ n. IsFront (k ∷ ks) best (front ks n)) (sym e)
        (IsFront-kept k ks best (front ks best) le (front-IsFront ks best b hs))
]

-- A candidate's total over the other nodes, where it has the first one.
total-behind :
    (c : Text) (k : Counter) (ks : List Counter)
    → AreDistinct (k ∷ ks)
    → text_eq k.name c ≡ true
    → total c ks ≡ 0
total-behind c k ks (d, ds) e =
    total-IsNew c ks (subst (λ n. IsNew n ks) ((text_eq_iff k.name c).0 e) d)

total-tail :
    (c : Text) (k : Counter) (ks : List Counter)
    → AreDistinct (k ∷ ks)
    → total c ks ≤ total c (k ∷ ks)
unfolding total
total-tail c k ks d = ground (arith, total-behind c k ks d)

total-head :
    (c : Text) (k : Counter) (ks : List Counter)
    → k.count < 4294967296
    → AreDistinct (k ∷ ks)
    → text_eq k.name c ≡ true
    → total c (k ∷ ks) ≡ k.count
unfolding total
total-head c k ks b d e = rw e (omega (arith, total-behind c k ks d e))

CountsAre-IsNew :
    (other name : Text) (count : ℕ) (ks : List Counter)
    → IsNew other ks
    → CountsAre ks name count
    → text_eq name other ≡ false
CountsAre-IsNew other name count [] h e = absurd e
CountsAre-IsNew other name count (k ∷ ks) (h, hs) (inl (same, e)) =
    subst (λ n. text_eq n other ≡ false) same h
CountsAre-IsNew other name count (k ∷ ks) (h, hs) (inr e) = CountsAre-IsNew other name count ks hs e

-- Where no name stands twice, the count of a node is its name's total.
pub total-CountsAre :
    (ks : List Counter) (name : Text) (count : ℕ)
    → IsChain ks
    → CountsAre ks name count
    → total name ks ≡ count
unfolding total
total-CountsAre [] name count h e = absurd e
total-CountsAre (k ∷ ks) name count ((h, hs), d) (inl (same, e)) =
    total-head name k ks h.1 d ((text_eq_iff k.name name).1 same) ∙ e
total-CountsAre (k ∷ ks) name count ((h, hs), (d, ds)) (inr e) =
    rw (text_eq_comm k.name name, CountsAre-IsNew k.name name count ks d e)
      (total-CountsAre ks name count (hs, ds) e)

pub total-le :
    (c : Text) (ks : List Counter) (bound : ℕ)
    → IsChain ks
    → All (λ k. k.count ≤ bound) ks
    → total c ks ≤ bound
unfolding total
total-le c [] bound d h = omega arith
total-le c (k ∷ ks) bound ((n, ns), d) (h, hs) =
    ground (arith, total-head c k ks n.1 d, total-le c ks bound (ns, d.1) hs)

pub counts-lt :
    (ks : List Counter)
    → IsChain ks
    → ((c : Text) → total c ks < 2147483648)
    → All (λ k. k.count < 2147483648) ks
counts-lt [] h t = tt
counts-lt (k ∷ ks) ((n, ns), d) t = (
  omega (arith, t k.name, total-head k.name k ks n.1 d ((text_eq_iff k.name k.name).1 refl)),
  counts-lt ks (ns, d.1) (λ c. omega (arith, t c, total-tail c k ks d)),
)
