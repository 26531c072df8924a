-- ===== src/Server/Count/Merge.antt =====
-- One child's counters added to those of its parent.
use os.Base.{false, List, [], ◌∷◌, ◌≡◌, refl, ◌∙◌, arith, ◌<◌, All}
use os.Base.Word.{add_int}
use os.Text.{Text}
use os.Server.State.{Counter, Node}
use os.Server.State.Find.{text_eq_iff}
use os.Server.Count.{add_count, absorb, absorb_all}
use os.Server.Count.Tally.{total}

-- Counts are values of an `int`.
abbrev pub IsCounted : List Counter → Type 0
IsCounted ks = All (λ k. k.count < 4294967296) ks

pub total-lt : (c : Text) (ks : List Counter) → total c ks < 4294967296
unfolding total
total-lt c [] = omega arith
total-lt c (k ∷ ks) = ground (arith, total-lt c ks)

pub total-add_count :
    (c : Text) (child : Counter) (ks : List Counter)
    → total c (add_count child ks) ≡ add_int (total c (child ∷ [])) (total c ks)
unfolding total add_count
total-add_count c child [] = ground arith
total-add_count c child (k ∷ ks) = ground (
  arith,
  total-add_count c child ks,
  text_eq_iff k.name child.name,
  text_eq_iff k.name c,
  text_eq_iff child.name c,
  total-lt c ks,
)

-- Nothing else of the parent changes.
pub record Absorbs (n n' : Node) : Type 0 where
  pub same_name : n'.name ≡ n.name
  pub same_open : n'.open_ ≡ n.open_
  pub same_closed : n'.closed ≡ n.closed
  pub same_children : n'.children ≡ n.children
  pub keeps_law : (n.hasdata ≡ false → n.counters ≡ []) → n'.hasdata ≡ false → n'.counters ≡ []

pub Absorbs-refl : (n : Node) → Absorbs n n
Absorbs-refl n = record {
  same_name = refl;
  same_open = refl;
  same_closed = refl;
  same_children = refl;
  keeps_law = λ h. h;
}

pub Absorbs-trans : (n m o : Node) → Absorbs n m → Absorbs m o → Absorbs n o
Absorbs-trans n m o p q = record {
  same_name = q.same_name ∙ p.same_name;
  same_open = q.same_open ∙ p.same_open;
  same_closed = q.same_closed ∙ p.same_closed;
  same_children = q.same_children ∙ p.same_children;
  keeps_law = λ h. q.keeps_law (p.keeps_law h);
}

absorb-Absorbs : (k : Counter) (n : Node) → Absorbs n (absorb k n)
unfolding absorb
absorb-Absorbs k n = ground arith

pub absorb_all-Absorbs : (ks : List Counter) (n : Node) → Absorbs n (absorb_all ks n)
unfolding absorb_all
absorb_all-Absorbs [] n = Absorbs-refl n
absorb_all-Absorbs (k ∷ ks) n =
    Absorbs-trans n (absorb k n) _ (absorb-Absorbs k n) (absorb_all-Absorbs ks (absorb k n))

pub total-nil : (c : Text) → total c [] ≡ 0
unfolding total
total-nil c = refl

total-cons :
    (c : Text) (k : Counter) (ks : List Counter)
    → total c (k ∷ ks) ≡ add_int (total c (k ∷ [])) (total c ks)
unfolding total
total-cons c k ks = ground (arith, total-lt c ks)

total-absorb :
    (c : Text) (child : Counter) (n : Node)
    → (n.hasdata ≡ false → n.counters ≡ [])
    → total c (absorb child n).counters ≡ add_int (total c (child ∷ [])) (total c n.counters)
unfolding absorb
total-absorb c child n law =
    ground (arith, law, total-add_count c child n.counters, total-cons c child n.counters)

-- The parent's votes grow by the child's.
pub total-absorb_all :
    (c : Text) (ks : List Counter) (n : Node)
    → (n.hasdata ≡ false → n.counters ≡ [])
    → total c (absorb_all ks n).counters ≡ add_int (total c n.counters) (total c ks)
unfolding absorb_all
total-absorb_all c [] n law = omega (arith, total-lt c n.counters, total-nil c)
total-absorb_all c (k ∷ ks) n law = omega (
  arith,
  total-absorb_all c ks (absorb k n) ((absorb-Absorbs k n).keeps_law law),
  total-absorb c k n law,
  total-cons c k ks,
)
