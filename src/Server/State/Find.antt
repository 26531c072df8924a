-- ===== src/Server/State/Find.antt =====
-- Laws of the search for a region by its name.
use os.Base.{ℕ, zero, suc, true, none, some, List, [], ◌∷◌, get_elem?, ◌≡◌, arith, ◌↔◌, ◌≢◌, sym}
use os.Text.{Text, text_eq}
use os.Server.State.{Node, find_node}

pub text_eq_iff : (s t : Text) → (text_eq s t ≡ true) ↔ (s ≡ t)
unfolding text_eq
text_eq_iff (a ∷ s) (b ∷ t) = ground (arith, text_eq_iff s t)
text_eq_iff _ _ = ground arith

-- What is found stands in the list, and has the name.
pub find_node-get :
    (name : Text) (ns : List Node) (i : ℕ) (n : Node)
    → find_node name ns ≡ some (i, n)
    → (get_elem? ns i ≡ some n) × (name ≡ n.name)
unfolding find_node
find_node-get name [] i n e = cc
find_node-get name (m ∷ ns) zero n e = ground (arith, text_eq_iff name m.name)
find_node-get name (m ∷ ns) (suc i) n e = ground (arith, find_node-get name ns i n)

-- A region with the name is enough for the search to find one.
pub find_node-found :
    (name : Text) (ns : List Node) (i : ℕ) (n : Node)
    → get_elem? ns i ≡ some n
    → n.name ≡ name
    → find_node name ns ≢ none
unfolding find_node
find_node-found name [] i n e h = absurd (some-neq-none (sym e))
  where
    some-neq-none : some n ≢ none
    some-neq-none q = cc
find_node-found name (m ∷ ns) zero n e h = ground (arith, text_eq_iff name m.name)
find_node-found name (m ∷ ns) (suc i) n e h = ground (arith, find_node-found name ns i n e h)
