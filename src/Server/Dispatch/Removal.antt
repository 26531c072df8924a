-- ===== src/Server/Dispatch/Removal.antt =====
-- Remove_Votes under the laws of a request: any argument ends in a fault or an answer.
use os.Base.{
  ℕ, Bool, true, false, not, ◌||◌, Option, none, some, List, [], ◌∷◌, ◌++◌, ◌≡◌, refl, get_elem?,
  Run, done, Ends, Ends-bind, Ends-weaken, if◌then◌else◌,
}
use os.Base.Word.{lt_int}
use os.Text.{Text, codes, trimwhitespace, makeargv, arg, atoi}
use os.Server.State.{Counter, Node, Server, find_node, say}
use os.Server.State.Find.{find_node-get}
use os.Server.Invariant.{IsOrdered}
use os.Server.Votes.{
  is_leaf, find_counter, reached_count, subtract, insufficient, check_entry, check_entries, Removed,
  remove_entry, remove_entries, after_removal, remove_checked, remove_parsed, remove_at,
  remove_votes,
}
use os.Server.Dispatch.Ballots.{set-Answers, counters-Turns}
use os.Server.Dispatch.Safe.{Answers, say-Answers, use_ptr-Ends}

insufficient-Ends : (o : Option ℕ) (v : Option Text) → Ends (λ b. Unit {0}) (insufficient o v)
insufficient-Ends none v = tt
insufficient-Ends (some count) none = tt
insufficient-Ends (some count) (some v) = tt

check_entry-Ends :
    (next : Run (Option (List Text))) (ks : List Counter) (o : Option (List Text))
    → Ends (λ r. Unit {0}) next
    → Ends (λ r. Unit {0}) (check_entry next ks o)
check_entry-Ends next ks none h = tt
check_entry-Ends next ks (some res) h = use_ptr-Ends _ (arg res 0) _ (λ name.
    Ends-bind _ _ (insufficient (find_counter name ks) (arg res 1)) _
      (insufficient-Ends (find_counter name ks) (arg res 1))
      (λ short q. Ends-bind _ _ next _ h (λ names q'. tt)))

check_entries-Ends :
    (ts : List Text) (ks : List Counter) → Ends (λ r. Unit {0}) (check_entries ts ks)
unfolding check_entries
check_entries-Ends [] ks = tt
check_entries-Ends (t ∷ ts) ks =
    check_entry-Ends (check_entries ts ks) ks (makeargv (some t) (codes ":"))
      (check_entries-Ends ts ks)

-- The counters at the end; none have come where there were none.
abbrev KeepsNone : List Counter → Removed → Type 0
KeepsNone ks (Removed.all_removed l) = ks ≡ [] → l ≡ []
KeepsNone ks (Removed.short_of name l) = ks ≡ [] → l ≡ []
KeepsNone ks (Removed.removal_failed l) = ks ≡ [] → l ≡ []

subtract-nil : (name : Text) (votes : ℕ) (ks : List Counter) → ks ≡ [] → subtract name votes ks ≡ []
subtract-nil name votes ks e = rw e (unfold subtract in refl)

KeepsNone-subtract :
    (name : Text) (votes : ℕ) (ks : List Counter) (r : Removed)
    → KeepsNone (subtract name votes ks) r
    → KeepsNone ks r
KeepsNone-subtract name votes ks (Removed.all_removed l) h = λ e. h (subtract-nil name votes ks e)
KeepsNone-subtract name votes ks (Removed.short_of _ l) h = λ e. h (subtract-nil name votes ks e)
KeepsNone-subtract name votes ks (Removed.removal_failed l) h =
    λ e. h (subtract-nil name votes ks e)

remove_entry-Ends :
    (next : List Counter → Run Removed) (ks : List Counter) (o : Option (List Text))
    → ((l : List Counter) → Ends (KeepsNone l) (next l))
    → Ends (KeepsNone ks) (remove_entry next ks o)
remove_entry-Ends next ks none h = λ e. e
remove_entry-Ends next ks (some []) h = tt
remove_entry-Ends next ks (some (name ∷ [])) h = tt
remove_entry-Ends next ks (some (name ∷ v ∷ more)) h =
    by_test (lt_int (reached_count name ks) (atoi v))
  where
    by_test :
        (b : Bool)
        → Ends
            (KeepsNone ks)
            (if b then done (Removed.short_of name ks) else next (subtract name (atoi v) ks))
    by_test true = λ e. e
    by_test false =
        Ends-weaken _ _ (next (subtract name (atoi v) ks)) (h (subtract name (atoi v) ks))
          (KeepsNone-subtract name (atoi v) ks)

remove_entries-Ends :
    (ts : List Text) (ks : List Counter) → Ends (KeepsNone ks) (remove_entries ts ks)
unfolding remove_entries
remove_entries-Ends [] ks = λ e. e
remove_entries-Ends (t ∷ ts) ks =
    remove_entry-Ends _ ks (makeargv (some t) (codes ":")) (λ l. remove_entries-Ends ts l)

after_removal-Answers :
    (s : Server) (i : ℕ) (n : Node) (r : Removed)
    → IsOrdered s.nodes
    → get_elem? s.nodes i ≡ some n
    → KeepsNone n.counters r
    → Answers s (after_removal i n r s)
after_removal-Answers s i n (Removed.all_removed l) h e k =
    set-Answers _ s i n _ h e (counters-Turns n l k)
after_removal-Answers s i n (Removed.short_of name l) h e k =
    set-Answers _ s i n _ h e (counters-Turns n l k)
after_removal-Answers s i n (Removed.removal_failed l) h e k =
    set-Answers _ s i n _ h e (counters-Turns n l k)

remove_parsed-Ends :
    (s : Server) (i : ℕ) (n : Node) (o : Option (List Text))
    → IsOrdered s.nodes
    → get_elem? s.nodes i ≡ some n
    → Ends (Answers s) (remove_parsed i n s o)
remove_parsed-Ends s i n none h e = say-Answers _ s h
remove_parsed-Ends s i n (some ts) h e =
    Ends-bind _ _ (check_entries ts n.counters) _ (check_entries-Ends ts n.counters)
      (λ names q. checked names)
  where
    checked : (names : Option (List Text)) → Ends (Answers s) (remove_checked ts i n s names)
    checked none = say-Answers _ s h
    checked (some []) =
        Ends-bind _ _ (remove_entries ts n.counters) _ (remove_entries-Ends ts n.counters)
          (λ r k. after_removal-Answers s i n r h e k)
    checked (some (name ∷ more)) = say-Answers _ s h

remove_at-Ends :
    (s : Server) (input name : Text) (o : Option (ℕ × Node))
    → IsOrdered s.nodes
    → find_node (trimwhitespace name) s.nodes ≡ o
    → Ends (Answers s) (remove_at input name o s)
remove_at-Ends s input name none h f = say-Answers _ s h
remove_at-Ends s input name (some (i, n)) h f = by_flags (not (is_leaf n)) (not n.open_ || n.closed)
  where
    by_flags :
        (inner shut : Bool)
        → Ends (Answers s) (
            if inner
            then done (say (codes "NL;" ++ n.name) s)
            else if shut
            then done (say (codes "RC;" ++ trimwhitespace name) s)
            else remove_parsed i n s (makeargv (some input) (codes ",")))
    by_flags true shut = say-Answers _ s h
    by_flags false true = say-Answers _ s h
    by_flags false false =
        remove_parsed-Ends s i n (makeargv (some input) (codes ",")) h
          ((find_node-get _ s.nodes i n f).0)

pub remove_votes-Answers :
    (argvp : List Text) (s : Server) → IsOrdered s.nodes → Ends (Answers s) (remove_votes argvp s)
unfolding remove_votes
remove_votes-Answers argvp s h = use_ptr-Ends _ (arg argvp 2) _ (λ input.
    use_ptr-Ends _ (arg argvp 1) _ (λ name. remove_at-Ends s (trimwhitespace input) name _ h refl))
