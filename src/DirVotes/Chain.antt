-- ===== src/DirVotes/Chain.antt =====
-- The chain of candidates: what the two searches do to the totals, and that no name stands twice.
use os.Base.{
  ℕ, ◌<◌, false, List, [], ◌∷◌, ◌≡◌, ◌≢◌, refl, ◌∙◌, ◌⊎◌, inl, inr, arith, All, Bool-cases,
}
use os.Base.Word.{add_int}
use os.Text.{Text, text_eq}
use os.Server.State.{Counter}
use os.Server.State.Find.{text_eq_iff}
use os.Server.Count.Tally.{total}
use os.Server.Count.Merge.{total-lt}
use os.Server.Votes.Add.{given}
use os.DirVotes.{canidate_counter, add_named}

-- The name stands nowhere in the chain.
abbrev pub IsNew : Text → List Counter → Type 0
IsNew name ks = All (λ k. text_eq k.name name ≡ false) ks

abbrev pub AreDistinct : List Counter → Type 0
AreDistinct [] = Unit
AreDistinct (k ∷ ks) = IsNew k.name ks × AreDistinct ks

pub text_eq_comm : (s t : Text) → text_eq s t ≡ text_eq t s
text_eq_comm s t = ground (arith, text_eq_iff s t, text_eq_iff t s)

pub total-add_named :
    (c name : Text) (votes : ℕ) (ks : List Counter)
    → total c (add_named name votes ks) ≡ add_int (total c ks) (given c name votes)
unfolding total add_named
total-add_named c name votes [] = ground arith
total-add_named c name votes (k ∷ ks) =
    ground (arith, total-add_named c name votes ks, text_eq_iff k.name name, total-lt c ks)

pub total-canidate_counter :
    (c vote : Text) (ks : List Counter)
    → total c (canidate_counter vote ks) ≡ add_int (total c ks) (given c vote 1)
unfolding total canidate_counter
total-canidate_counter c vote [] = ground arith
total-canidate_counter c vote (k ∷ ks) =
    ground (arith, total-canidate_counter c vote ks, text_eq_iff vote k.name, total-lt c ks)

-- The search for a vote is the search for a name with one vote.
pub canidate_counter-add_named :
    (vote : Text) (ks : List Counter) → canidate_counter vote ks ≡ add_named vote 1 ks
unfolding canidate_counter add_named
canidate_counter-add_named vote [] = refl
canidate_counter-add_named vote (k ∷ ks) =
    rw (text_eq_comm vote k.name, canidate_counter-add_named vote ks) refl

IsNew-add_named :
    (other name : Text) (votes : ℕ) (ks : List Counter)
    → text_eq name other ≡ false
    → IsNew other ks
    → IsNew other (add_named name votes ks)
unfolding add_named
IsNew-add_named other name votes [] e h = (e, tt)
IsNew-add_named other name votes (k ∷ ks) e (h, hs) = elim (Bool-cases (text_eq k.name name)) [
  | inl same ↦ rw same (h, hs)
  | inr new ↦ rw new (h, IsNew-add_named other name votes ks e hs)
]

pub AreDistinct-add_named :
    (name : Text) (votes : ℕ) (ks : List Counter)
    → AreDistinct ks
    → AreDistinct (add_named name votes ks)
unfolding add_named
AreDistinct-add_named name votes [] h = (tt, tt)
AreDistinct-add_named name votes (k ∷ ks) (h, hs) = elim (Bool-cases (text_eq k.name name)) [
  | inl same ↦ rw same (h, hs)
  | inr new ↦ rw new (
    IsNew-add_named k.name name votes ks (text_eq_comm name k.name ∙ new) h,
    AreDistinct-add_named name votes ks hs,
  )
]

-- A property of names and of counts that wrap around.
pub All-add_named :
    (P : Text → Type 0) (name : Text) (votes : ℕ) (ks : List Counter)
    → P name
    → votes < 4294967296
    → All (λ k. P k.name × (k.count < 4294967296)) ks
    → All (λ k. P k.name × (k.count < 4294967296)) (add_named name votes ks)
unfolding add_named
All-add_named P name votes [] p b h = ((p, b), tt)
All-add_named P name votes (k ∷ ks) p b (h, hs) = elim (Bool-cases (text_eq k.name name)) [
  | inl same ↦ rw same ((h.0, omega arith), hs)
  | inr new ↦ rw new (h, All-add_named P name votes ks p b hs)
]

pub add_named-ne-nil : (name : Text) (votes : ℕ) (ks : List Counter) → add_named name votes ks ≢ []
unfolding add_named
add_named-ne-nil name votes [] e = cc
add_named-ne-nil name votes (k ∷ ks) e = ground arith

pub total-IsNew : (c : Text) (ks : List Counter) → IsNew c ks → total c ks ≡ 0
unfolding total
total-IsNew c [] h = refl
total-IsNew c (k ∷ ks) (h, hs) = rw h (total-IsNew c ks hs)

-- Where no name stands twice, a candidate's total is the count of its one node.
abbrev pub CountsAre : List Counter → Text → ℕ → Type 0
CountsAre [] name count = ⊥
CountsAre (k ∷ ks) name count = ((k.name ≡ name) × (k.count ≡ count)) ⊎ CountsAre ks name count
