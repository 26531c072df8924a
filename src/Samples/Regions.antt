-- ===== src/Samples/Regions.antt =====
-- Lists of regions for the tests: before, during and after the polls.
use os.Base.{ℕ, Bool, true, false, List, [], ◌∷◌, refl, arith}
use os.Text.{Text, codes}
use os.Server.State.{Counter, Node, Server}
use os.Server.Invariant.{IsOrdered}

abbrev pub region : Text → Bool → Bool → List ℕ → List Counter → Node
region name open_ closed children counters = record {
  name = name;
  open_ = open_;
  closed = closed;
  hasdata = has_counter counters;
  children = children;
  counters = counters;
}
  where
    has_counter : List Counter → Bool
    has_counter [] = false
    has_counter (k ∷ ks) = true

abbrev pub votes : Text → ℕ → Counter
votes name count = record { name = name; count = count }

abbrev pub county_votes : List Counter
county_votes = votes (codes "A") 2 ∷ votes (codes "B") 5 ∷ []

abbrev pub county : Bool → Bool → Node
county open_ closed = region (codes "County") open_ closed [] county_votes

-- The last one was declared with blanks behind its name.
abbrev pub idle : List Node
idle =
    region (codes "Country") false false (1 ∷ 2 ∷ []) []
    ∷ region (codes "Region") false false [] []
    ∷ region (codes "County  ") false false [] []
    ∷ []

abbrev pub opened : List Node
opened =
    region (codes "Country") true false (1 ∷ 2 ∷ []) []
    ∷ region (codes "Region") true false [] []
    ∷ region (codes "County") true false [] []
    ∷ []

abbrev pub running : List Node
running =
    region (codes "Country") true false (1 ∷ 2 ∷ []) []
    ∷ region (codes "Region") true false [] []
    ∷ county true false
    ∷ []

abbrev pub over : List Node
over =
    region (codes "Country") false true (1 ∷ 2 ∷ []) []
    ∷ region (codes "Region") false true [] []
    ∷ county false true
    ∷ []

pub idle-IsOrdered : IsOrdered idle
idle-IsOrdered = (
  record {
    below = ((omega arith, omega arith), ((omega arith, omega arith), tt));
    legal = refl;
    data_law = λ d. refl;
  },
  (
    record { below = tt; legal = refl; data_law = λ d. refl },
    (record { below = tt; legal = refl; data_law = λ d. refl }, tt),
  ),
)

pub running-IsOrdered : IsOrdered running
running-IsOrdered = (
  record {
    below = ((omega arith, omega arith), ((omega arith, omega arith), tt));
    legal = refl;
    data_law = λ d. refl;
  },
  (
    record { below = tt; legal = refl; data_law = λ d. refl },
    (record { below = tt; legal = refl; data_law = λ d. cc }, tt),
  ),
)

pub over-IsOrdered : IsOrdered over
over-IsOrdered = (
  record {
    below = ((omega arith, omega arith), ((omega arith, omega arith), tt));
    legal = refl;
    data_law = λ d. refl;
  },
  (
    record { below = tt; legal = refl; data_law = λ d. refl },
    (record { below = tt; legal = refl; data_law = λ d. cc }, tt),
  ),
)

abbrev pub server : List Node → Server
server ns = record { nodes = ns; sent = [] }
