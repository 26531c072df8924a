-- ===== src/VoteCounter/Queue/Pass.antt =====
-- The inner loop of sortQueue as a pass over the list: it carries the greatest item along.
use os.Base.{
  ℕ, zero, suc, ◌+◌, false, some, List, [], ◌∷◌, ◌++◌, length, get_elem?, set, ◌≡◌, refl, sym, ap,
  ◌∙◌, inl, inr, arith, append_assoc, Bool-cases, if◌then◌else◌, length-append,
}
use os.Base.Word.{lt_int}
use os.VoteCounter.Queue.{Item, exchange, exchange_all}

-- What a carried item leaves behind, and the item that is carried out.
unfoldable pub pass : Item → List Item → List Item × Item
pass x [] = ([], x)
pass x (d ∷ ds) =
    let swapped = pass d ds in
    let kept = pass x ds in
    if lt_int x.priority d.priority then (x ∷ swapped.0, swapped.1) else (d ∷ kept.0, kept.1)

get_elem?-middle :
    (pre : List Item) (x : Item) (rest : List Item)
    → get_elem? (pre ++ x ∷ rest) (length pre) ≡ some x
get_elem?-middle [] x rest = refl
get_elem?-middle (p ∷ pre) x rest = get_elem?-middle pre x rest

set-middle :
    (pre : List Item) (x y : Item) (rest : List Item)
    → set (pre ++ x ∷ rest) (length pre) y ≡ pre ++ y ∷ rest
set-middle [] x y rest = refl
set-middle (p ∷ pre) x y rest = ap (λ l. p ∷ l) (set-middle pre x y rest)

-- Both items in their places, one before the other.
abbrev two : List Item → Item → List Item → Item → List Item → List Item
two pre d ds x rest = pre ++ d ∷ (ds ++ x ∷ rest)

two_assoc :
    (pre : List Item) (d : Item) (ds : List Item) (x : Item) (rest : List Item)
    → two pre d ds x rest ≡ (pre ++ d ∷ ds) ++ x ∷ rest
two_assoc pre d ds x rest = sym (append_assoc pre (d ∷ ds) (x ∷ rest))

get_elem?-second :
    (pre : List Item) (d : Item) (ds : List Item) (x : Item) (rest : List Item)
    → get_elem? (two pre d ds x rest) (length (pre ++ d ∷ ds)) ≡ some x
get_elem?-second pre d ds x rest =
    ap (λ l. get_elem? l (length (pre ++ d ∷ ds))) (two_assoc pre d ds x rest)
    ∙ get_elem?-middle (pre ++ d ∷ ds) x rest

set-second :
    (pre : List Item) (d : Item) (ds : List Item) (x y : Item) (rest : List Item)
    → set (two pre d ds x rest) (length (pre ++ d ∷ ds)) y ≡ two pre d ds y rest
set-second pre d ds x y rest =
    ap (λ l. set l (length (pre ++ d ∷ ds)) y) (two_assoc pre d ds x rest)
    ∙ set-middle (pre ++ d ∷ ds) x y rest
    ∙ sym (two_assoc pre d ds y rest)

-- The item at `i` behind the one at `j`.
exchange-before :
    (pre : List Item) (d : Item) (ds : List Item) (x : Item) (rest : List Item)
    → exchange (length (pre ++ d ∷ ds)) (length pre) (two pre d ds x rest)
      ≡ (if lt_int x.priority d.priority then two pre x ds d rest else two pre d ds x rest)
unfolding exchange
exchange-before pre d ds x rest =
    rw
      (
        get_elem?-second pre d ds x rest,
        get_elem?-middle pre d (ds ++ x ∷ rest),
        set-second pre d ds x d rest,
        set-middle pre d x (ds ++ d ∷ rest),
      )
      refl

-- The item at `i` before the one at `j`.
exchange-behind :
    (pre : List Item) (x : Item) (ds : List Item) (r : Item) (rest : List Item)
    → exchange (length pre) (length (pre ++ x ∷ ds)) (two pre x ds r rest)
      ≡ (if lt_int x.priority r.priority then two pre r ds x rest else two pre x ds r rest)
unfolding exchange
exchange-behind pre x ds r rest =
    rw
      (
        get_elem?-second pre x ds r rest,
        get_elem?-middle pre x (ds ++ r ∷ rest),
        set-middle pre x r (ds ++ r ∷ rest),
        ap (λ k. set (two pre r ds r rest) k x) same_place ∙ set-second pre r ds r x rest,
      )
      refl
  where
    same_place : length (pre ++ x ∷ ds) ≡ length (pre ++ r ∷ ds)
    same_place = omega (arith, length-append pre (x ∷ ds), length-append pre (r ∷ ds))

exchange-same :
    (pre : List Item) (x : Item) (rest : List Item)
    → exchange (length pre) (length pre) (pre ++ x ∷ rest) ≡ pre ++ x ∷ rest
unfolding exchange
exchange-same pre x rest = rw (get_elem?-middle pre x rest, lt_int_irrefl x.priority) refl
  where
    lt_int_irrefl : (p : ℕ) → lt_int p p ≡ false
    lt_int_irrefl p = ground arith

pub length-pass : (x : Item) (ds : List Item) → length (pass x ds).0 ≡ length ds
unfolding pass
length-pass x [] = refl
length-pass x (d ∷ ds) = elim (Bool-cases (lt_int x.priority d.priority)) [
  | inl less ↦ rw less (ap suc (length-pass d ds))
  | inr not ↦ rw not (ap suc (length-pass x ds))
]

-- The rounds up to the item's own place.
pass-before :
    (pre ds : List Item) (x : Item) (rest : List Item) (r n i j : ℕ)
    → r ≡ length ds + n
    → i ≡ length pre + length ds
    → j ≡ length pre
    → exchange_all r i j (pre ++ (ds ++ x ∷ rest))
      ≡ exchange_all n i i (pre ++ ((pass x ds).0 ++ (pass x ds).1 ∷ rest))
unfolding exchange_all pass
pass-before pre [] x rest r n i j p q e =
    let same : r ≡ n = omega arith in let here : i ≡ j = omega arith in cc
pass-before pre (d ∷ ds) x rest zero n i j p q e = absurd (omega arith)
pass-before pre (d ∷ ds) x rest (suc r) n i j p q e =
    let at : i ≡ length (pre ++ d ∷ ds) = omega (arith, length-append pre (d ∷ ds)) in
    let next : (y : Item) → i ≡ length (pre ++ y ∷ []) + length ds =
      λ y. omega (arith, length-append pre (y ∷ [])) in
    let step : (y : Item) → suc j ≡ length (pre ++ y ∷ []) =
      λ y. omega (arith, length-append pre (y ∷ [])) in
    let swapped =
      pass-before (pre ++ x ∷ []) ds d rest r n i (suc j) (omega arith) (next x) (step x) in
    let kept =
      pass-before (pre ++ d ∷ []) ds x rest r n i (suc j) (omega arith) (next d) (step d) in
    ap (λ l. exchange_all r i (suc j) l)
      (ap (λ k. exchange k j (two pre d ds x rest)) at
        ∙ ap (λ k. exchange (length (pre ++ d ∷ ds)) k (two pre d ds x rest)) e
        ∙ exchange-before pre d ds x rest)
    ∙ elim (Bool-cases (lt_int x.priority d.priority)) [
      | inl less ↦ rw less (
          ap (λ l. exchange_all r i (suc j) l) (sym (append_assoc pre (x ∷ []) (ds ++ d ∷ rest)))
          ∙ swapped
          ∙ ap (λ l. exchange_all n i i l)
              (append_assoc pre (x ∷ []) ((pass d ds).0 ++ (pass d ds).1 ∷ rest)))
      | inr not ↦ rw not (
          ap (λ l. exchange_all r i (suc j) l) (sym (append_assoc pre (d ∷ []) (ds ++ x ∷ rest)))
          ∙ kept
          ∙ ap (λ l. exchange_all n i i l)
              (append_assoc pre (d ∷ []) ((pass x ds).0 ++ (pass x ds).1 ∷ rest)))
    ]

-- The rounds behind it.
pass-behind :
    (pre : List Item) (x : Item) (mid rest : List Item) (r i j : ℕ)
    → r ≡ length rest
    → i ≡ length pre
    → j ≡ length pre + suc (length mid)
    → exchange_all r i j (pre ++ x ∷ (mid ++ rest))
      ≡ pre ++ (pass x rest).1 ∷ (mid ++ (pass x rest).0)
unfolding exchange_all pass
pass-behind pre x mid [] zero i j p q e = refl
pass-behind pre x mid [] (suc r) i j p q e = absurd (omega arith)
pass-behind pre x mid (d ∷ rest) zero i j p q e = absurd (omega arith)
pass-behind pre x mid (d ∷ rest) (suc r) i j p q e =
    let at : j ≡ length (pre ++ x ∷ mid) = omega (arith, length-append pre (x ∷ mid)) in
    let next : (y : Item) → suc j ≡ length pre + suc (length (mid ++ y ∷ [])) =
      λ y. omega (arith, length-append mid (y ∷ [])) in
    let swapped = pass-behind pre d (mid ++ x ∷ []) rest r i (suc j) (omega arith) q (next x) in
    let kept = pass-behind pre x (mid ++ d ∷ []) rest r i (suc j) (omega arith) q (next d) in
    ap (λ l. exchange_all r i (suc j) l)
      (ap (λ k. exchange k j (two pre x mid d rest)) q
        ∙ ap (λ k. exchange (length pre) k (two pre x mid d rest)) at
        ∙ exchange-behind pre x mid d rest)
    ∙ elim (Bool-cases (lt_int x.priority d.priority)) [
      | inl less ↦ rw less (
          ap (λ l. exchange_all r i (suc j) (pre ++ d ∷ l)) (sym (append_assoc mid (x ∷ []) rest))
          ∙ swapped
          ∙ ap (λ l. pre ++ (pass d rest).1 ∷ l) (append_assoc mid (x ∷ []) (pass d rest).0))
      | inr not ↦ rw not (
          ap (λ l. exchange_all r i (suc j) (pre ++ x ∷ l)) (sym (append_assoc mid (d ∷ []) rest))
          ∙ kept
          ∙ ap (λ l. pre ++ (pass x rest).1 ∷ l) (append_assoc mid (d ∷ []) (pass x rest).0))
    ]

-- The whole inner loop for the item at position `i`.
pub pass_lem :
    (pre : List Item) (x : Item) (rest : List Item) (i : ℕ)
    → i ≡ length pre
    → exchange_all (length (pre ++ x ∷ rest)) i 0 (pre ++ x ∷ rest)
      ≡ (pass x pre).0 ++ (pass (pass x pre).1 rest).1 ∷ (pass (pass x pre).1 rest).0
unfolding exchange_all
pass_lem pre x rest i e =
    let (ds, y) = pass x pre in
    let same : i ≡ length ds = omega (arith, length-pass x pre) in
    pass-before [] pre x rest (length (pre ++ x ∷ rest)) (suc (length rest)) i 0
      (omega (arith, length-append pre (x ∷ rest))) (omega arith) (omega arith)
    ∙ ap (λ l. exchange_all (length rest) i (suc i) l)
        (ap (λ k. exchange k k (ds ++ y ∷ rest)) same ∙ exchange-same ds y rest)
    ∙ pass-behind ds y [] rest (length rest) i (suc i) refl same (omega arith)
