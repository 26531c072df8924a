-- ===== src/Server/State.antt =====
-- The data of CSCI4061_asn4/server.c: the linked list of regions that starts behind PUBLICROOT.
-- A pointer to a region is its position in the list, which never changes since regions are only
-- appended. `children` stands for the array and `num_children`, its length. The chain behind a
-- region's `root_counter` is the list `counters`. Blocks from malloc are taken to read as zero,
-- as the code expects of `open`, `closed`, `hasdata`, `num_children` and `next`.
pub mod Find
use os.Base.{
  ℕ, zero, suc, Bool, true, false, Option, none, some, List, [], ◌∷◌, ◌++◌, get_elem?,
  if◌then◌else◌, Run, use_ptr,
}
use os.Text.{Text, text_eq}

pub record Counter : Type 0 where
  pub name : Text
  pub count : ℕ

pub record Node : Type 0 where
  pub name : Text
  pub open_ : Bool
  pub closed : Bool
  pub hasdata : Bool
  pub children : List ℕ
  pub counters : List Counter

-- `sent` holds what was written to the client's socket, in order.
pub record Server : Type 0 where
  pub nodes : List Node
  pub sent : List Text

unfoldable pub create : Text → Node
create name = record {
  name = name;
  open_ = false;
  closed = false;
  hasdata = false;
  children = [];
  counters = [];
}

abbrev pub shift_found : Option (ℕ × Node) → Option (ℕ × Node)
shift_found none = none
shift_found (some (i, n)) = some (suc i, n)

-- The search loop of every handler: the first region of that name, and its position.
unfoldable pub find_node : Text → List Node → Option (ℕ × Node)
find_node name [] = none
find_node name (n ∷ ns) =
    if text_eq name n.name then some (0, n) else shift_found (find_node name ns)

-- A region read through a pointer from a `children` array.
abbrev pub deref : List Node → ℕ → Run Node
deref ns i = use_ptr (get_elem? ns i)

-- send
abbrev pub say : Text → Server → Server
say message s = record s { sent = s.sent ++ message ∷ [] }
