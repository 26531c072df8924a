-- ===== src/Server/Votes/Add.antt =====
-- Add_Votes: what is added arrives, although a name may come to stand twice in the chain.
use os.Base.{
  ℕ, ◌%◌, Bool, true, false, not, ◌||◌, Option, none, some, List, [], ◌∷◌, ◌++◌, ◌≡◌, ◌≢◌, refl,
  ◌∙◌, inl, inr, arith, set, Run, done, Gives, Returns, Returns-bind, Gives→Returns, Gives-weaken,
  Bool-cases, if◌then◌else◌, append_assoc, append-nil,
}
use os.Base.Word.{add_int}
use os.Text.{Text, codes, text_eq, makeargv, atoi, arg, trimwhitespace}
use os.Text.Tokens.{makeargv-ne-none}
use os.Server.State.{Counter, Node, find_node}
use os.Server.State.Find.{text_eq_iff}
use os.Server.Count.Tally.{total}
use os.Server.Count.Merge.{total-lt}
use os.Server.Votes.{
  AddCode, success, region_closed, no_region, not_leaf, is_leaf, Cursor, chain, seek_add, add_entry,
  add_entries, add_parsed, add_found, add_votes,
}

total-append :
    (c : Text) (xs ys : List Counter) → total c (xs ++ ys) ≡ add_int (total c xs) (total c ys)
unfolding total
total-append c [] ys = omega (arith, total-lt c ys)
total-append c (x ∷ xs) ys = ground (arith, total-append c xs ys)

-- The votes of a pair for a candidate.
abbrev pub given : Text → Text → ℕ → ℕ
given c name votes = if text_eq name c then votes % 4294967296 else 0

total-middle :
    (c : Text) (before : List Counter) (k : Counter) (ks : List Counter)
    → total c ((before ++ k ∷ []) ++ ks) ≡ total c (before ++ k ∷ ks)
total-middle c before k ks = rw (append_assoc before (k ∷ []) ks)

total-insert :
    (c : Text) (before : List Counter) (k : Counter) (ks : List Counter)
    → total c (before ++ k ∷ ks)
      ≡ add_int (total c before) (add_int (if text_eq k.name c then k.count else 0) (total c ks))
unfolding total
total-insert c before k ks = ground (arith, total-append c before (k ∷ ks), total-lt c ks)

total-bump :
    (c name : Text) (votes : ℕ) (before : List Counter) (k : Counter) (ks : List Counter)
    → text_eq k.name name ≡ true
    → total c (before ++ record k { count = add_int k.count votes } ∷ ks)
      ≡ add_int (total c (before ++ k ∷ ks)) (given c name votes)
total-bump c name votes before k ks e =
    let k' = record k { count = add_int k.count votes } in
    ground (arith, total-insert c before k' ks, total-insert c before k ks, text_eq_iff k.name name)

seek_add-total :
    (c name : Text) (votes : ℕ) (before ks : List Counter)
    → total c (chain (seek_add name votes before ks))
      ≡ add_int (total c (before ++ ks)) (given c name votes)
unfolding seek_add
seek_add-total c name votes before [] =
    rw (append-nil (before ++ record { name = name; count = votes } ∷ []), append-nil before)
      (total-insert c before (record { name = name; count = votes }) []
        ∙ unfold total in ground (arith, total-lt c before))
seek_add-total c name votes before (k ∷ ks) = elim (Bool-cases (text_eq k.name name)) [
  | inl same ↦ rw same (total-middle c before _ ks ∙ total-bump c name votes before k ks same)
  | inr other ↦
      rw other
        (seek_add-total c name votes (before ++ k ∷ []) ks ∙ rw (append_assoc before (k ∷ []) ks))
]

abbrev pub requested_of : Text → Option (List Text) → ℕ
requested_of c (some (name ∷ votes ∷ more)) = given c name (atoi votes)
requested_of c _ = 0

-- The votes that a list of pairs `name:votes` asks for a candidate.
unfoldable pub requested : Text → List Text → ℕ
requested c [] = 0
requested c (t ∷ ts) = add_int (requested_of c (makeargv (some t) (codes ":"))) (requested c ts)

add_entry-Gives :
    (P : Bool × Cursor → Type 0) (next : Text → ℕ → Run (Bool × Cursor)) (cur : Cursor)
    (o : Option (List Text))
    → o ≢ none
    → ((name votes : Text) (more : List Text)
        → o ≡ some (name ∷ votes ∷ more)
        → Gives P (next name (atoi votes)))
    → Gives P (add_entry next cur o)
add_entry-Gives P next cur none n h = absurd (n refl)
add_entry-Gives P next cur (some []) n h = tt
add_entry-Gives P next cur (some (name ∷ [])) n h = tt
add_entry-Gives P next cur (some (name ∷ votes ∷ more)) n h = h name votes more refl

-- The chain after the loop: for each candidate the votes that were there, and those requested.
abbrev Added : Text → List Text → Cursor → Bool × Cursor → Type 0
Added c ts cur (ok, cur') =
    (ok ≡ true) × (total c (chain cur') ≡ add_int (total c (chain cur)) (requested c ts))

add_entries-Added :
    (c : Text) (ts : List Text) (cur : Cursor) → Gives (Added c ts cur) (add_entries ts cur)
unfolding add_entries requested
add_entries-Added c [] cur = (refl, omega (arith, total-lt c (chain cur)))
add_entries-Added c (t ∷ ts) cur =
    add_entry-Gives _ _ cur (makeargv (some t) (codes ":")) (makeargv-ne-none t (codes ":"))
      (λ name votes more e.
        let first = seek_add name (atoi votes) cur.before cur.behind in
        Gives-weaken _ _ (add_entries ts first) (add_entries-Added c ts first) (λ (ok, cur') (o, r).
          (o, rw (e, r, seek_add-total c name (atoi votes) cur.before cur.behind) (omega arith))))

-- Each token is a pair: the code reads through a null pointer at a token without a second part.
abbrev pub ArePairs : List Text → Type 0
ArePairs [] = Unit
ArePairs (t ∷ ts) =
    ((name : Text) × (votes : Text) × (more : List Text) × (makeargv (some t) (codes ":")
        ≡ some (name ∷ votes ∷ more)))
    × ArePairs ts

add_entries-Returns :
    (ts : List Text) (cur : Cursor) → ArePairs ts → Returns (λ r. Unit {0}) (add_entries ts cur)
unfolding add_entries
add_entries-Returns [] cur h = tt
add_entries-Returns (t ∷ ts) cur ((name, votes, more, e), h) =
    rw e (add_entries-Returns ts (seek_add name (atoi votes) cur.before cur.behind) h)

-- The result of Add_Votes and the regions afterwards, by the region that the name stands for.
abbrev pub AddOutcome :
    Text → List Text → List Node → Option (ℕ × Node) → AddCode × List Node → Type 0
AddOutcome c ts ns none (code, ns') = (code ≡ no_region) × (ns' ≡ ns)
AddOutcome c ts ns (some (i, n)) (code, ns') =
    if not (is_leaf n)
    then (code ≡ not_leaf) × (ns' ≡ ns)
    else if not n.open_ || n.closed
    then (code ≡ region_closed) × (ns' ≡ ns)
    else (code ≡ success)
      × ((ks : List Counter) × (ns' ≡ set ns i (record n { hasdata = true; counters = ks }))
          × (total c ks ≡ add_int (total c n.counters) (requested c ts)))

-- The pairs of an input: its parts between commas.
abbrev pub parts : Option (List Text) → List Text
parts none = []
parts (some ts) = ts

add_parsed-success :
    (c : Text) (ns : List Node) (i : ℕ) (n : Node) (o : Option (List Text))
    → o ≢ none
    → ArePairs (parts o)
    → Returns
        (λ (code, ns').
          (code ≡ success)
          × ((ks : List Counter) × (ns' ≡ set ns i (record n { hasdata = true; counters = ks }))
              × (total c ks ≡ add_int (total c n.counters) (requested c (parts o)))))
        (add_parsed i n ns o)
add_parsed-success c ns i n none f h = absurd (f refl)
add_parsed-success c ns i n (some ts) f h =
    let cur : Cursor = record { before = []; behind = n.counters } in
    Returns-bind (Added c ts cur) _ (add_entries ts cur) _
      (Gives→Returns (Added c ts cur) (add_entries ts cur) (add_entries-Added c ts cur)
        (add_entries-Returns ts cur h))
      (λ (ok, cur') (o, r). rw o (refl, (chain cur', refl, r)))

add_found-Outcome :
    (c input : Text) (ns : List Node) (o : Option (ℕ × Node))
    → ArePairs (parts (makeargv (some input) (codes ",")))
    → Returns (AddOutcome c (parts (makeargv (some input) (codes ","))) ns o) (add_found input ns o)
add_found-Outcome c input ns none h = (refl, refl)
add_found-Outcome c input ns (some (i, n)) h = by_flags (is_leaf n) (not n.open_ || n.closed)
  where
    by_flags :
        (leaf shut : Bool)
        → Returns
            (λ (code, ns').
              if not leaf
              then (code ≡ not_leaf) × (ns' ≡ ns)
              else if shut
              then (code ≡ region_closed) × (ns' ≡ ns)
              else (code ≡ success)
                × ((ks : List Counter) × (ns'
                      ≡ set ns i (record n { hasdata = true; counters = ks }))
                    × (total c ks
                        ≡ add_int
                            (total c n.counters)
                            (requested c (parts (makeargv (some input) (codes ",")))))))
            (if not leaf
              then done (not_leaf, ns)
              else if shut
              then done (region_closed, ns)
              else add_parsed i n ns (makeargv (some input) (codes ",")))
    by_flags false shut = (refl, refl)
    by_flags true true = (refl, refl)
    by_flags true false =
        add_parsed-success c ns i n (makeargv (some input) (codes ","))
          (makeargv-ne-none input (codes ",")) h

-- Add_Votes with both arguments, whose input consists of pairs, ends. It reports -2 for a name that
-- no region has, -3 for a region with children, and 0 for a leaf that is not open, and changes
-- nothing then. Else it reports 1, the leaf has data, for each candidate its counters hold the
-- votes that were there and those of the input, and no other region changes.
pub add_votes_lem :
    (c : Text) (argvp : List Text) (ns : List Node) (name input : Text)
    → arg argvp 1 ≡ some name
    → arg argvp 2 ≡ some input
    → ArePairs (parts (makeargv (some (trimwhitespace input)) (codes ",")))
    → Returns
        (AddOutcome c
          (parts (makeargv (some (trimwhitespace input)) (codes ",")))
          ns
          (find_node (trimwhitespace name) ns))
        (add_votes argvp ns)
unfolding add_votes
add_votes_lem c argvp ns name input a b h =
    rw b
      (rw a (add_found-Outcome c (trimwhitespace input) ns (find_node (trimwhitespace name) ns) h))
