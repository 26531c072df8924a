-- ===== src/Server/Votes/Remove.antt =====
-- Remove_Votes: all or nothing, as long as no candidate is named twice.
use os.Base.{
  ℕ, ◌<◌, Bool, true, false, Option, none, some, List, [], ◌∷◌, ◌++◌, ◌≡◌, refl, ◌∙◌, ◌⊎◌, inl, inr,
  arith, All, done, Returns, Returns-bind, Returns-weaken, Bool-cases, ◌>>=◌, if◌then◌else◌,
}
use os.Base.Word.{add_int, lt_int}
use os.Text.{Text, codes, text_eq, makeargv, atoi, signed_value, skip_space}
use os.Server.State.{Counter, Node, Server, say}
use os.Server.State.Find.{text_eq_iff}
use os.Server.Count.Tally.{total}
use os.Server.Count.Merge.{total-lt}
use os.Server.Votes.{
  find_counter, reached_count, subtract, check_entries, Removed, all_removed, short_of,
  removal_failed, after_removal, remove_checked, remove_entries, insufficient, note_short,
  join_comma, store_counters, remove_parsed,
}
use os.Server.Votes.Add.{given, requested, ArePairs}

abbrev pub pair_of : Option (List Text) → Text × ℕ
pair_of (some (name ∷ votes ∷ more)) = (name, atoi votes)
pair_of _ = ([], 0)

-- The candidate and the number of each pair `name:votes`.
abbrev pub pairs_of : List Text → List (Text × ℕ)
pairs_of [] = []
pairs_of (t ∷ ts) = pair_of (makeargv (some t) (codes ":")) ∷ pairs_of ts

abbrev pub is_short : Option ℕ → ℕ → Bool
is_short none votes = true
is_short (some count) votes = lt_int count votes

-- The candidates that have no counter, or fewer votes than are to be removed.
abbrev pub shorts : List Counter → List (Text × ℕ) → List Text
shorts ks [] = []
shorts ks ((name, votes) ∷ ps) =
    if is_short (find_counter name ks) votes then name ∷ shorts ks ps else shorts ks ps

-- No candidate is named twice.
abbrev pub AreDistinct : List (Text × ℕ) → Type 0
AreDistinct [] = Unit
AreDistinct (p ∷ ps) = All (λ q. text_eq p.0 q.0 ≡ false) ps × AreDistinct ps

insufficient-is_short :
    (o : Option ℕ) (name votes : Text) (l : List Text)
    → (do
      short ← insufficient o (some votes)
      names ← done (some l)
      done (note_short short name names))
      ≡ done (some (if is_short o (atoi votes) then name ∷ l else l))
insufficient-is_short none name votes l = refl
insufficient-is_short (some count) name votes l = elim (Bool-cases (lt_int count (atoi votes))) [
  | inl short ↦ rw short
  | inr enough ↦ rw enough
]

pub check_entries-shorts :
    (ts : List Text) (ks : List Counter)
    → ArePairs ts
    → check_entries ts ks ≡ done (some (shorts ks (pairs_of ts)))
unfolding check_entries
check_entries-shorts [] ks h = refl
check_entries-shorts (t ∷ ts) ks ((name, votes, more, e), h) =
    rw (e, check_entries-shorts ts ks h)
      (insufficient-is_short (find_counter name ks) name votes (shorts ks (pairs_of ts)))

signed_value-lt : (s : Text) → signed_value s < 4294967296
signed_value-lt [] = omega arith
signed_value-lt (c ∷ cs) = ground arith

atoi-lt : (s : Text) → atoi s < 4294967296
unfolding atoi
atoi-lt s = signed_value-lt (skip_space s)

find_counter-subtract :
    (name other : Text) (votes : ℕ) (ks : List Counter) (count : ℕ)
    → find_counter name ks ≡ some count
    → text_eq name other ≡ false
    → find_counter other (subtract name votes ks) ≡ find_counter other ks
unfolding find_counter subtract
find_counter-subtract name other votes [] count e d = refl
find_counter-subtract name other votes (k ∷ []) count e d = ground (arith, text_eq_iff k.name name)
find_counter-subtract name other votes (k ∷ l ∷ ks) count e d =
    ground (arith, text_eq_iff k.name name, find_counter-subtract name other votes (l ∷ ks) count)

reached_count-found :
    (name : Text) (ks : List Counter) (count : ℕ)
    → find_counter name ks ≡ some count
    → reached_count name ks ≡ count
unfolding find_counter reached_count
reached_count-found name [] count e = cc
reached_count-found name (k ∷ []) count e = ground arith
reached_count-found name (k ∷ l ∷ ks) count e =
    ground (arith, reached_count-found name (l ∷ ks) count)

total-subtract :
    (c name : Text) (votes : ℕ) (ks : List Counter) (count : ℕ)
    → find_counter name ks ≡ some count
    → votes < 4294967296
    → add_int (given c name votes) (total c (subtract name votes ks)) ≡ total c ks
unfolding find_counter subtract total
total-subtract c name votes [] count e b = cc
total-subtract c name votes (k ∷ []) count e b = ground (arith, text_eq_iff k.name name)
total-subtract c name votes (k ∷ l ∷ ks) count e b = ground (
  arith,
  text_eq_iff k.name name,
  total-subtract c name votes (l ∷ ks) count,
  total-lt c (l ∷ ks),
  total-lt c ks,
)

-- No candidate of the pairs is short of votes.
abbrev pub AreCovered : List Counter → List (Text × ℕ) → Type 0
AreCovered ks [] = Unit
AreCovered ks ((name, votes) ∷ ps) =
    ((count : ℕ) × (find_counter name ks ≡ some count) × (lt_int count votes ≡ false))
    × AreCovered ks ps

is_short-covered :
    (o : Option ℕ) (votes : ℕ)
    → is_short o votes ≡ false
    → (count : ℕ) × (o ≡ some count) × (lt_int count votes ≡ false)
is_short-covered none votes h = cc
is_short-covered (some count) votes h = (count, refl, h)

shorts-AreCovered :
    (ks : List Counter) (ps : List (Text × ℕ)) → shorts ks ps ≡ [] → AreCovered ks ps
shorts-AreCovered ks [] h = tt
shorts-AreCovered ks ((name, votes) ∷ ps) h =
    elim (Bool-cases (is_short (find_counter name ks) votes)) [
      | inl short ↦ absurd (impossible (rw short at h))
      | inr enough ↦ (
        is_short-covered (find_counter name ks) votes enough,
        shorts-AreCovered ks ps (rw enough at h),
      )
    ]
  where
    impossible : name ∷ shorts ks ps ≡ [] → ⊥
    impossible e = cc

-- A subtraction for another candidate leaves the pairs covered.
AreCovered-subtract :
    (name : Text) (votes count : ℕ) (ks : List Counter) (ps : List (Text × ℕ))
    → find_counter name ks ≡ some count
    → All (λ q. text_eq name q.0 ≡ false) ps
    → AreCovered ks ps
    → AreCovered (subtract name votes ks) ps
AreCovered-subtract name votes count ks [] e d h = tt
AreCovered-subtract name votes count ks ((other, v) ∷ ps) e d ((m, f, l), h) = (
  (m, find_counter-subtract name other votes ks count e d.0 ∙ f, l),
  AreCovered-subtract name votes count ks ps e d.1 h,
)

-- All votes of the pairs for a candidate are gone.
abbrev pub Taken : Text → List Text → List Counter → Removed → Type 0
Taken c ts ks (all_removed ks') = add_int (total c ks') (requested c ts) ≡ total c ks
Taken c ts ks _ = ⊥

Taken-step :
    (c : Text) (t : Text) (ts : List Text) (ks : List Counter) (name votes : Text)
    (more : List Text) (count : ℕ) (r : Removed)
    → makeargv (some t) (codes ":") ≡ some (name ∷ votes ∷ more)
    → find_counter name ks ≡ some count
    → Taken c ts (subtract name (atoi votes) ks) r
    → Taken c (t ∷ ts) ks r
unfolding requested
Taken-step c t ts ks name votes more count (all_removed ks') e f h =
    rw e (omega (arith, total-subtract c name (atoi votes) ks count f (atoi-lt votes)))
Taken-step c t ts ks name votes more count (short_of _ _) e f h = absurd h
Taken-step c t ts ks name votes more count (removal_failed _) e f h = absurd h

remove_entries-Taken :
    (c : Text) (ts : List Text) (ks : List Counter)
    → ArePairs ts
    → AreDistinct (pairs_of ts)
    → AreCovered ks (pairs_of ts)
    → Returns (Taken c ts ks) (remove_entries ts ks)
remove_entries-Taken c [] ks h d v = unfold remove_entries requested in omega (arith, total-lt c ks)
remove_entries-Taken c (t ∷ ts) ks ((name, votes, more, e), h) d v =
    one_pair (remove_entries-Taken c ts) (rw e at d) (rw e at v)
  where
    after : List Counter
    after = subtract name (atoi votes) ks

    one_pair :
        ((l : List Counter)
          → ArePairs ts
          → AreDistinct (pairs_of ts)
          → AreCovered l (pairs_of ts)
          → Returns (Taken c ts l) (remove_entries ts l))
        → AreDistinct ((name, atoi votes) ∷ pairs_of ts)
        → AreCovered ks ((name, atoi votes) ∷ pairs_of ts)
        → Returns (Taken c (t ∷ ts) ks) (remove_entries (t ∷ ts) ks)
    one_pair rest (apart, d) ((count, f, l), v) =
        unfold remove_entries in
        rw (e, reached_count-found name ks count f, l)
          (Returns-weaken _ _ (remove_entries ts after)
            (rest after h d
              (AreCovered-subtract name (atoi votes) count ks (pairs_of ts) f apart v))
            (λ r k. Taken-step c t ts ks name votes more count r e f k))

-- One answer was sent; either it lists the candidates that are short and no region has changed, or
-- it is "SC;" and only the leaf's counters have, by all votes of the pairs.
abbrev pub RemoveOutcome : Text → List Text → ℕ → Node → Server → Server → Type 0
RemoveOutcome c ts i n s s' =
    ((short : Text) × (more : List Text) × (shorts n.counters (pairs_of ts) ≡ short ∷ more)
      × (s' ≡ say (codes "IS;" ++ join_comma (short ∷ more)) s))
    ⊎ ((ks : List Counter) × (shorts n.counters (pairs_of ts) ≡ [])
        × (s' ≡ say (codes "SC;") (store_counters i n ks s))
        × (add_int (total c ks) (requested c ts) ≡ total c n.counters))

removed_all :
    (c : Text) (ts : List Text) (i : ℕ) (n : Node) (s : Server) (r : Removed)
    → shorts n.counters (pairs_of ts) ≡ []
    → Taken c ts n.counters r
    → RemoveOutcome c ts i n s (after_removal i n r s)
removed_all c ts i n s (all_removed ks) e h = inr (ks, e, refl, h)
removed_all c ts i n s (short_of _ _) e h = absurd h
removed_all c ts i n s (removal_failed _) e h = absurd h

remove_checked-Outcome :
    (c : Text) (ts : List Text) (i : ℕ) (n : Node) (s : Server) (l : List Text)
    → ArePairs ts
    → AreDistinct (pairs_of ts)
    → shorts n.counters (pairs_of ts) ≡ l
    → Returns (RemoveOutcome c ts i n s) (remove_checked ts i n s (some l))
remove_checked-Outcome c ts i n s [] h d e =
    Returns-bind (Taken c ts n.counters) _ (remove_entries ts n.counters) _
      (remove_entries-Taken c ts n.counters h d (shorts-AreCovered n.counters (pairs_of ts) e))
      (λ r k. removed_all c ts i n s r e k)
remove_checked-Outcome c ts i n s (short ∷ more) h d e = inl (short, more, e, refl)

-- Remove_Votes from an open leaf, with an input of pairs that names no candidate twice, is all or
-- nothing. If a candidate of the pairs has no counter, or a first counter with fewer votes, the
-- answer lists these candidates and nothing changes. Else the answer is "SC;", and for each
-- candidate exactly the votes of the pairs are gone from the leaf.
pub remove_parsed-Outcome :
    (c : Text) (ts : List Text) (i : ℕ) (n : Node) (s : Server)
    → ArePairs ts
    → AreDistinct (pairs_of ts)
    → Returns (RemoveOutcome c ts i n s) (remove_parsed i n s (some ts))
remove_parsed-Outcome c ts i n s h d =
    rw (check_entries-shorts ts n.counters h)
      (remove_checked-Outcome c ts i n s (shorts n.counters (pairs_of ts)) h d refl)
