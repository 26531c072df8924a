-- ===== src/VoteCounter/Queue.antt =====
-- The queue of input files: addToQueue, sortQueue, and the part of decryptAll that fills it.
pub mod Pass
pub mod Sort
use os.Base.{
  ℕ, zero, suc, ◌-◌, Bool, Option, none, some, List, [], ◌∷◌, ◌++◌, length, get_elem?, set, ltb,
  ◌||◌, if◌then◌else◌,
}
use os.Base.Word.{lt_int}
use os.Text.{Text, codes, text_eq, makeargv, arg, atoi}

-- DSQ[i] and priority[i]
pub record Item : Type 0 where
  pub name : Text
  pub priority : ℕ

-- The last token but one is the letter p, and the last the priority.
abbrev pub priority_of : Option Text → Option Text → ℕ
priority_of (some mark) (some value) = if text_eq (codes "p") mark then atoi value else 2147483647
priority_of _ _ = 2147483647

abbrev pub tokens_of : Option (List Text) → List Text
tokens_of none = []
tokens_of (some ts) = ts

unfoldable pub add_to_queue : Text → List Item → List Item
add_to_queue name q =
    let argvp = tokens_of (makeargv (some name) (codes "_")) in
    let numtokens = length argvp in
    let marked = priority_of (arg argvp (numtokens - 2)) (arg argvp (numtokens - 1)) in
    q ++ record { name = name; priority = if ltb 2 numtokens then marked else 2147483647 } ∷ []

-- The test and the swap in the inner loop.
abbrev pub exchange_items : ℕ → ℕ → List Item → Option Item → Option Item → List Item
exchange_items i j q (some a) (some b) =
    if lt_int a.priority b.priority then set (set q i b) j a else q
exchange_items i j q _ _ = q

unfoldable pub exchange : ℕ → ℕ → List Item → List Item
exchange i j q = exchange_items i j q (get_elem? q i) (get_elem? q j)

-- `rounds` rounds of the inner loop, from `j`
unfoldable pub exchange_all : ℕ → ℕ → ℕ → List Item → List Item
exchange_all zero i j q = q
exchange_all (suc rounds) i j q = exchange_all rounds i (suc j) (exchange i j q)

unfoldable pub sort_rounds : ℕ → ℕ → List Item → List Item
sort_rounds zero i q = q
sort_rounds (suc rounds) i q = sort_rounds rounds (suc i) (exchange_all (length q) i 0 q)

unfoldable pub sort_queue : List Item → List Item
sort_queue q = sort_rounds (length q) 0 q

-- What readdir gives: a name, and whether it is a directory.
pub record DirEntry : Type 0 where
  pub d_name : Text
  pub is_dir : Bool

unfoldable pub queue_entries : List DirEntry → List Item → List Item
queue_entries [] q = q
queue_entries (e ∷ es) q =
    let skipped = queue_entries es q in
    let added = queue_entries es (add_to_queue e.d_name q) in
    if text_eq e.d_name (codes ".") || text_eq e.d_name (codes "..")
    then skipped
    else if e.is_dir
    then skipped
    else added

-- The queue that the threads take the names from, in order.
unfoldable pub decrypt_queue : List DirEntry → List Item
decrypt_queue entries = sort_queue (queue_entries entries [])
