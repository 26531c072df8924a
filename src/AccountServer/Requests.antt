-- ===== src/AccountServer/Requests.antt =====
-- With two threads or more each request is answered; with one, only the first is.
use os.Base.{
  ℕ, ◌+◌, ◌%◌, ◌≤◌, ◌<◌, true, some, List, [], ◌∷◌, length, ltb, ◌==◌, if◌then◌else◌, ◌≡◌, refl,
  ◌∙◌, arith, Returns, Returns-weaken, Bool-cases, inl, inr,
}
use os.Base.Family.{update}
use os.Text.{Text, codes, makeargv, atoi}
use os.AccountServer.{Accounts, thread_function, serve_all}

module _ {Double : Type 0} (plus : Double → Double → Double) (atof : Text → Double)
    (bank_size thread_num : ℕ) where
  -- What the requests say: each an account of the bank and a change with a comma between.
  abbrev pub Says : List Text → List (ℕ × Double) → Type 0
  Says [] [] = Unit {0}
  Says [] (c ∷ cs) = ⊥
  Says (t ∷ ts) [] = ⊥
  Says (t ∷ ts) ((index, change) ∷ cs) =
      ((account : Text) × (amount : Text) × (rest : List Text) × (makeargv (some t) (codes ",")
          ≡ some (account ∷ amount ∷ rest))
        × (atoi account ≡ index)
        × (atof amount ≡ change)
        × (index < bank_size))
      × Says ts cs

  -- A balance and the changes of one account, one after the other.
  unfoldable pub credited : ℕ → Double → List (ℕ × Double) → Double
  credited k balance [] = balance
  credited k balance ((index, change) ∷ cs) =
      credited k (if index == k then plus balance change else balance) cs

  -- All changes made, one answer for each request.
  abbrev pub Served : List (ℕ × Double) → Accounts Double → Accounts Double → Type 0
  Served cs s t =
      ((k : ℕ) → t.balance k ≡ credited k (s.balance k) cs)
      × (length t.replies ≡ length s.replies + length cs)

  paid :
      (balance : ℕ → Double) (index k : ℕ) (change : Double) (cs : List (ℕ × Double))
      → credited k (update balance index (plus (balance index) change) k) cs
        ≡ credited k (balance k) ((index, change) ∷ cs)
  unfolding credited
  paid balance index k change cs = elim (Bool-cases (index == k)) [
    | inl mine ↦ let e : index ≡ k = ground arith in rw (mine, e) refl
    | inr other ↦ rw other refl
  ]

  -- With two threads or more, and i at 0 or 1, the requests of any number of connections in turn, each
  -- for an account of the bank, are all answered, and every account's balance is the one before with
  -- its changes added in their order.
  pub serve_all_lem :
      (buffers : List Text) (cs : List (ℕ × Double)) (s : Accounts Double)
      → 2 ≤ thread_num
      → s.i < 2
      → Says buffers cs
      → Returns (Served cs s) (serve_all plus atof bank_size thread_num buffers s)
  unfolding serve_all credited
  serve_all_lem [] [] s two b h = (λ k. refl, omega arith)
  serve_all_lem [] (c ∷ cs) s two b h = absurd h
  serve_all_lem (t ∷ ts) [] s two b h = absurd h
  serve_all_lem (t ∷ ts) ((index, change) ∷ cs) s two b
        ((account, amount, rest, e, x, y, inside), hs) =
      let free : ltb s.i thread_num ≡ true = ground arith in
      let within : ltb index bank_size ≡ true = ground arith in
      rw (e, free, x, y)
        (rw within (
          Returns-weaken
            (Served cs (record (thread_function plus atof bank_size thread_num index change s) {
              i = (s.i + 1) % 2;
            }))
            (Served ((index, change) ∷ cs) s) _ (serve_all_lem ts cs _ two (omega arith) hs)
            (λ u r. (λ k. r.0 k ∙ paid s.balance index k change cs, omega (arith, r.1)))))
