-- ===== src/Client/Send.antt =====
-- write_all and getResponse of client.c, the two ends of the socket, and the loop of main.
use os.Base.{
  ℕ, zero, suc, Bool, true, false, Option, none, some, List, [], ◌∷◌, ◌++◌, take, drop, length,
  ◌==◌, if◌then◌else◌, Run, done, ◌>>=◌, ◌≡◌, refl, ap, All, ◌<◌, arith, append_assoc, append-nil,
  sym, ◌∙◌, ◌⊎◌, inl, inr, ◌≤◌,
}
use os.Text.{Text}
use os.Client.{Client, dispatch_line}

abbrev pub map_sent : Text → Option Text → Option Text
map_sent t none = none
map_sent t (some u) = some (t ++ u)

-- What arrives of `str` and of the 0 behind it, where `rets` are the results of the calls of write
-- and none of them fails; `none` while calls are outstanding.
unfoldable pub write_all : List ℕ → Text → Option Text
write_all rets [] = some []
write_all [] (c ∷ cs) = none
write_all (ret ∷ rets) (c ∷ cs) =
    map_sent (take ret ((c ∷ cs) ++ 0 ∷ [])) (write_all rets (drop ret (c ∷ cs)))

-- The reply up to its 0, each ';' read as ' ', and what is left; `none` while the reply has no end.
unfoldable pub get_response : List ℕ → Option (Text × List ℕ)
get_response [] = none
get_response (b ∷ bs) = elim (b == 0) [
  | true ↦ some ([], bs)
  | false ↦ elim (get_response bs) [
    | none ↦ none
    | some (reply, more) ↦ some ((if b == b';' then b' ' else b) ∷ reply, more)
  ]
]

-- The lines of the command file: each is dispatched, and then a reply is waited for. The bytes that
-- the server will send are given; the result is the requests and the replies, and false when the
-- client waits for a reply that does not come.
abbrev pub after_reply :
    (List ℕ → Run (List Text × List Text × Bool))
    → Option Text
    → Option (Text × List ℕ)
    → Run (List Text × List Text × Bool)
after_reply next request none = done (or_nil request, [], false)
  where
    or_nil : Option Text → List Text
    or_nil none = []
    or_nil (some t) = t ∷ []
after_reply next none (some (reply, more)) = do
  (requests, replies, over) ← next more
  done (requests, reply ∷ replies, over)
after_reply next (some request) (some (reply, more)) = do
  (requests, replies, over) ← next more
  done (request ∷ requests, reply ∷ replies, over)

unfoldable pub run_lines :
    (Text → Option (List Text)) → List Text → List ℕ → Client → Run (List Text × List Text × Bool)
run_lines lines_of [] incoming c = done ([], [], true)
run_lines lines_of (vote ∷ more) incoming c = do
  (c', request) ← dispatch_line lines_of vote c
  after_reply (λ rest. run_lines lines_of more rest c') request (get_response incoming)

take-of_le : (n : ℕ) (s : Text) → n ≤ length s → take n (s ++ 0 ∷ []) ++ drop n s ≡ s
take-of_le zero s h = refl
take-of_le (suc n) [] h = elim h [ ]
take-of_le (suc n) (c ∷ cs) h = ap (λ t. c ∷ t) (take-of_le n cs (omega arith))

take-of_lt :
    (n : ℕ) (s : Text) → length s < n → (take n (s ++ 0 ∷ []) ≡ s ++ 0 ∷ []) × (drop n s ≡ [])
take-of_lt zero s h = elim h [ ]
take-of_lt (suc zero) [] h = (refl, refl)
take-of_lt (suc (suc n)) [] h = (refl, refl)
take-of_lt (suc n) (c ∷ cs) h = let (a, b) = take-of_lt n cs (omega arith) in (ap (λ t. c ∷ t) a, b)

-- What arrived of a string.
abbrev pub Arrived : Text → Text → Type 0
Arrived str got = (got ≡ str) ⊎ (got ≡ str ++ 0 ∷ [])

drop-length : (n : ℕ) (s : Text) → length (drop n s) ≤ length s
drop-length zero s = omega arith
drop-length (suc n) [] = omega arith
drop-length (suc n) (c ∷ cs) = omega (arith, drop-length n cs)

write_all-nil : (rets : List ℕ) → write_all rets [] ≡ some []
unfolding write_all
write_all-nil [] = refl
write_all-nil (ret ∷ rets) = refl

-- What the first call sends and what the others send.
take-Arrived :
    (n : ℕ) (s : Text) (rets : List ℕ) (o : Option Text)
    → o ≡ write_all rets (drop n s)
    → ((got : Text) × (o ≡ some got) × Arrived (drop n s) got)
    → (got : Text) × (map_sent (take n (s ++ 0 ∷ [])) o ≡ some got) × Arrived s got
take-Arrived n s rets o e (got, f, q) = elim (le_or_gt n (length s)) [
  | inl h ↦ (
    take n (s ++ 0 ∷ []) ++ got,
    rw f refl,
    elim q [
      | inl p ↦ inl (rw p (take-of_le n s h))
      | inr p ↦ inr (
          rw p (
            sym (append_assoc (take n (s ++ 0 ∷ [])) (drop n s) (0 ∷ []))
            ∙ ap (λ t. t ++ 0 ∷ []) (take-of_le n s h)))
    ],
  )
  | inr h ↦ let (a, b) = take-of_lt n s h in (s ++ 0 ∷ [], nothing_left a b, inr refl)
]
  where
    le_or_gt : (a b : ℕ) → (a ≤ b) ⊎ (b < a)
    le_or_gt a b = ground arith

    nothing_left :
        take n (s ++ 0 ∷ []) ≡ s ++ 0 ∷ []
        → drop n s ≡ []
        → map_sent (take n (s ++ 0 ∷ [])) o ≡ some (s ++ 0 ∷ [])
    nothing_left a b = rw (e, a, b, write_all-nil rets) (ap some (append-nil (s ++ 0 ∷ [])))

-- However write splits a request, write_all ends after at most as many calls as the request has
-- bytes, if each call sends a byte, and then the request has arrived in order: either
-- without its 0 or with it, and nothing else.
pub write_all_lem :
    (rets : List ℕ) (str : Text)
    → All (λ ret. 0 < ret) rets
    → length str ≤ length rets
    → (got : Text) × (write_all rets str ≡ some got) × Arrived str got
unfolding write_all
write_all_lem [] [] h l = ([], refl, inl refl)
write_all_lem (ret ∷ rets) [] h l = ([], refl, inl refl)
write_all_lem [] (c ∷ cs) h l = elim l [ ]
write_all_lem (ret ∷ rets) (c ∷ cs) (p, ps) l =
    take-Arrived ret (c ∷ cs) rets (write_all rets (drop ret (c ∷ cs))) refl
      (write_all_lem rets (drop ret (c ∷ cs)) ps (shorter ret p))
  where
    shorter : (n : ℕ) → 0 < n → length (drop n (c ∷ cs)) ≤ length rets
    shorter zero p = elim p [ ]
    shorter (suc n) p = omega (arith, drop-length n cs)
