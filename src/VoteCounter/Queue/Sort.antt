-- ===== src/VoteCounter/Queue/Sort.antt =====
-- sortQueue sorts: each round puts one item more into the sorted front, whose last item is the
-- greatest of all.
use os.Base.{
  ℕ, zero, suc, true, false, List, [], ◌∷◌, ◌++◌, length, ◌≡◌, refl, sym, ap, subst, ◌∙◌, inl, inr,
  arith, All, All-weaken, append_assoc, append-nil, Bool-cases, length-append,
}
use os.Base.Word.{lt_int}
use os.Base.Shuffle.{Shuffle, Shuffle-All, Shuffle-append, Shuffle-insert, Shuffle-of_eq}
use os.VoteCounter.Queue.{Item, exchange_all, sort_rounds, sort_queue}
use os.VoteCounter.Queue.Pass.{pass, length-pass, pass_lem}

-- The priority of the second one, an int with a sign, is not below.
abbrev pub AtMost : Item → Item → Type 0
AtMost a b = lt_int b.priority a.priority ≡ false

abbrev pub IsSorted : List Item → Type 0
IsSorted [] = Unit
IsSorted (a ∷ more) = All (AtMost a) more × IsSorted more

AtMost-trans : (a b c : Item) → AtMost a b → AtMost b c → AtMost a c
AtMost-trans a b c h k = ground arith

AtMost-refl : (a : Item) → AtMost a a
AtMost-refl a = ground arith

AtMost-of_lt : (a b : Item) → lt_int a.priority b.priority ≡ true → AtMost a b
AtMost-of_lt a b h = ground arith

All-split : (P : Item → Type 0) (xs ys : List Item) → All P (xs ++ ys) → All P xs × All P ys
All-split P [] ys h = (tt, h)
All-split P (x ∷ xs) ys (h, hs) = let (l, r) = All-split P xs ys hs in ((h, l), r)

pass-Shuffle : (x : Item) (ds : List Item) → Shuffle ((pass x ds).0 ++ (pass x ds).1 ∷ []) (x ∷ ds)
unfolding pass
pass-Shuffle x [] = Shuffle.same (x ∷ [])
pass-Shuffle x (d ∷ ds) = elim (Bool-cases (lt_int x.priority d.priority)) [
  | inl less ↦ rw less (Shuffle.skip x (pass-Shuffle d ds))
  | inr not ↦ rw not (Shuffle.trans (Shuffle.skip d (pass-Shuffle x ds)) (Shuffle.swap d x ds))
]

pass-All :
    (P : Item → Type 0) (x : Item) (ds : List Item)
    → All P (x ∷ ds)
    → All P ((pass x ds).0 ++ (pass x ds).1 ∷ [])
pass-All P x ds h = Shuffle-All P (pass-Shuffle x ds) h

pass-less :
    (x d : Item) (ds : List Item)
    → lt_int x.priority d.priority ≡ true
    → pass x (d ∷ ds) ≡ (x ∷ (pass d ds).0, (pass d ds).1)
unfolding pass
pass-less x d ds h = rw h refl

pass-not_less :
    (x d : Item) (ds : List Item)
    → AtMost d x
    → pass x (d ∷ ds) ≡ (d ∷ (pass x ds).0, (pass x ds).1)
unfolding pass
pass-not_less x d ds h = rw h refl

-- What is carried out is the greatest.
pass-greatest : (x : Item) (ds : List Item) → All (λ e. AtMost e (pass x ds).1) (x ∷ ds)
pass-greatest x [] = unfold pass in (AtMost-refl x, tt)
pass-greatest x (d ∷ ds) = elim (Bool-cases (lt_int x.priority d.priority)) [
  | inl less ↦
      let (h, hs) = pass-greatest d ds in
      subst (λ r. All (λ e. AtMost e r.1) (x ∷ d ∷ ds)) (sym (pass-less x d ds less))
        (AtMost-trans x d (pass d ds).1 (AtMost-of_lt x d less) h, (h, hs))
  | inr not ↦
      let (h, hs) = pass-greatest x ds in
      subst (λ r. All (λ e. AtMost e r.1) (x ∷ d ∷ ds)) (sym (pass-not_less x d ds not))
        (h, (AtMost-trans d x (pass x ds).1 not h, hs))
]

pass-IsSorted :
    (x : Item) (ds : List Item) → IsSorted ds → IsSorted ((pass x ds).0 ++ (pass x ds).1 ∷ [])
unfolding pass
pass-IsSorted x [] h = (tt, tt)
pass-IsSorted x (d ∷ ds) (h, hs) = elim (Bool-cases (lt_int x.priority d.priority)) [
  | inl less ↦
      let below = AtMost-of_lt x d less in
      rw less (
        pass-All (AtMost x) d ds (below, All-weaken ds (λ e k. AtMost-trans x d e below k) h),
        pass-IsSorted d ds hs,
      )
  | inr not ↦ rw not (pass-All (AtMost d) x ds (not, h), pass-IsSorted x ds hs)
]

pass-top : (x : Item) (ds : List Item) → All (λ e. AtMost e x) ds → pass x ds ≡ (ds, x)
unfolding pass
pass-top x [] h = refl
pass-top x (d ∷ ds) (h, hs) = rw (h, pass-top x ds hs) refl

-- A round for the item behind the sorted front.
round-front :
    (ds : List Item) (y x : Item) (rest : List Item) (i : ℕ)
    → i ≡ suc (length ds)
    → All (λ e. AtMost e (pass x (ds ++ y ∷ [])).1) rest
    → exchange_all (length (ds ++ y ∷ x ∷ rest)) i 0 (ds ++ y ∷ x ∷ rest)
      ≡ (pass x (ds ++ y ∷ [])).0 ++ (pass x (ds ++ y ∷ [])).1 ∷ rest
round-front ds y x rest i e h =
    let pre = ds ++ y ∷ [] in
    ap (λ l. exchange_all (length l) i 0 l) (sym (append_assoc ds (y ∷ []) (x ∷ rest)))
    ∙ pass_lem pre x rest i (omega (arith, length-append ds (y ∷ [])))
    ∙ ap (λ r. (pass x pre).0 ++ r.1 ∷ r.0) (pass-top (pass x pre).1 rest h)

round-Shuffle :
    (ds : List Item) (y x : Item) (rest : List Item)
    → Shuffle ((pass x (ds ++ y ∷ [])).0 ++ (pass x (ds ++ y ∷ [])).1 ∷ rest) (ds ++ y ∷ x ∷ rest)
round-Shuffle ds y x rest =
    let pre = ds ++ y ∷ [] in
    let (front, top) = pass x pre in
    Shuffle.trans (Shuffle-of_eq (sym (append_assoc front (top ∷ []) rest))) (
      Shuffle.trans (Shuffle-append rest (pass-Shuffle x pre)) (
        Shuffle.trans (Shuffle-insert x pre rest)
          (Shuffle-of_eq (append_assoc ds (y ∷ []) (x ∷ rest)))))

-- No item of the rest is above what the front carries out.
rest-below :
    (ds : List Item) (y x : Item) (rest : List Item)
    → All (λ e. AtMost e y) rest
    → All (λ e. AtMost e (pass x (ds ++ y ∷ [])).1) rest
rest-below ds y x rest hs =
    let top = (pass x (ds ++ y ∷ [])).1 in
    let above =
      (All-split (λ e. AtMost e top) ds (y ∷ []) (pass-greatest x (ds ++ y ∷ [])).1).1.0 in
    All-weaken rest (λ e k. AtMost-trans e y top k above) hs

abbrev Sorts : List Item → List Item → Type 0
Sorts out q = IsSorted out × Shuffle out q

-- One item more in the sorted front.
sort_rounds-from :
    (rest ds : List Item) (y : Item) (rounds i : ℕ)
    → rounds ≡ length rest
    → i ≡ suc (length ds)
    → IsSorted (ds ++ y ∷ [])
    → All (λ e. AtMost e y) rest
    → Sorts (sort_rounds rounds i (ds ++ y ∷ rest)) (ds ++ y ∷ rest)
unfolding sort_rounds
sort_rounds-from [] ds y zero i r e s h = (s, Shuffle.same (ds ++ y ∷ []))
sort_rounds-from [] ds y (suc rounds) i r e s h = absurd (omega arith)
sort_rounds-from (x ∷ rest) ds y zero i r e s h = absurd (omega arith)
sort_rounds-from (x ∷ rest) ds y (suc rounds) i r e s (h, hs) =
    let (front, top) = pass x (ds ++ y ∷ []) in
    let below = rest-below ds y x rest hs in
    let (sorted, moved) =
      sort_rounds-from rest front top rounds (suc i) (omega arith)
        (omega (arith, length-pass x (ds ++ y ∷ []), length-append ds (y ∷ [])))
        (pass-IsSorted x (ds ++ y ∷ []) s) below in
    subst (λ l. Sorts (sort_rounds rounds (suc i) l) (ds ++ y ∷ x ∷ rest))
      (sym (round-front ds y x rest i e below))
      (sorted, Shuffle.trans moved (round-Shuffle ds y x rest))

-- sortQueue leaves the same items in the order of their priorities.
pub sort_queue_lem : (q : List Item) → IsSorted (sort_queue q) × Shuffle (sort_queue q) q
unfolding sort_queue sort_rounds pass
sort_queue_lem [] = (tt, Shuffle.same [])
sort_queue_lem (x ∷ rest) =
    let (others, top) = pass x rest in
    let all = pass-All (λ e. AtMost e top) x rest (pass-greatest x rest) in
    let (sorted, moved) =
      sort_rounds-from others [] top (length rest) 1 (sym (length-pass x rest)) refl (tt, tt)
        (All-split (λ e. AtMost e top) others (top ∷ []) all).0 in
    subst (λ l. Sorts (sort_rounds (length rest) 1 l) (x ∷ rest)) (sym (pass_lem [] x rest 0 refl))
      (
        sorted,
        Shuffle.trans moved (
            Shuffle.trans (Shuffle-of_eq (ap (λ l. top ∷ l) (sym (append-nil others))))
              (Shuffle.trans (Shuffle-insert top others []) (pass-Shuffle x rest))),
      )
