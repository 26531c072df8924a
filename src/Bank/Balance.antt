-- ===== src/Bank/Balance.antt =====
-- What all the threads together make of the balances.
use os.Base.{
  ℕ, suc, ◌+◌, ◌*◌, ◌<◌, true, false, none, some, List, [], ◌∷◌, length, ◌==◌, Bool-cases, inl, inr,
  ◌≡◌, ◌≢◌, arith, refl, ap, subst, ◌∙◌,
}
use os.Base.Int.{ℤ, pos, pos_part, neg_part, ◌+ℤ◌, int_laws}
use os.Base.Family.{update, sum_ℤ, sum_ℤ-update, sum, sum-update}
use os.Bank.{
  Call, account_of, changed, Stage, Thread, Bank, call_step, thread_step, Step, turn, Steps, here,
}
use os.Bank.Sums.{effect, effects, calls_left, to_come}
use os.Bank.Owners.{Fresh, IsBank, Step-IsBank}

-- The steps that a thread has still to make.
abbrev pub steps_left : List Call → Stage → ℕ
steps_left [] p = 0
steps_left (c ∷ cs) Stage.outside = 4 + 4 * length cs
steps_left (c ∷ cs) Stage.locked = 3 + 4 * length cs
steps_left (c ∷ cs) (Stage.loaded r) = 2 + 4 * length cs
steps_left (c ∷ cs) Stage.stored = 1 + 4 * length cs

abbrev pub left : Thread → ℕ
left t = steps_left t.calls t.stage

-- A step changes one thread, which comes one step nearer to its end; what it adds to a balance it
-- has no longer to add.
record Moved (i : ℕ) (b b' : Bank) : Type 0 where
  pub now : Thread
  pub only : b'.thread ≡ update b.thread i now
  pub fewer : left now + 1 ≡ left (b.thread i)
  pub kept : (k : ℕ) → b'.balance k +ℤ to_come k now ≡ b.balance k +ℤ to_come k (b.thread i)

changed-effect :
    (k : ℕ) (c : Call) (balance : ℤ) → account_of c ≡ k → changed c balance ≡ balance +ℤ effect k c
unfolding effect
changed-effect k (Call.deposit act amt) balance e =
    let t : (act == k) ≡ true = ground arith in rw t (omega int_laws)
changed-effect k (Call.withdraw act amt) balance e =
    let t : (act == k) ≡ true = ground arith in rw t (omega int_laws)

effect_other : (k : ℕ) (c : Call) → account_of c ≢ k → effect k c ≡ pos 0
unfolding effect
effect_other k c h = let t : (account_of c == k) ≡ false = ground arith in rw t refl

-- The write of the balance.
pay :
    (k : ℕ) (c : Call) (cs : List Call) (balance : ℕ → ℤ)
    → update balance (account_of c) (changed c (balance (account_of c))) k +ℤ effects k cs
      ≡ balance k +ℤ effects k (c ∷ cs)
unfolding effects
pay k c cs balance = elim (Bool-cases (account_of c == k)) [
  | inl mine ↦
      let e : account_of c ≡ k = ground arith in
      rw (mine, e, changed-effect k c (balance k) e) (omega int_laws)
  | inr other ↦
      let e : account_of c ≢ k = ground arith in rw (other, effect_other k c e) (omega int_laws)
]

some_inj {ℓ} : {A : Type ℓ} {x y : A} → some x ≡ some y → x ≡ y
some_inj e = cc

-- Thread i, as it stands, and after its step.
abbrev pub standing : List Call → Stage → Thread
standing cs p = record { calls = cs; stage = p }

call_step-Moved :
    (i : ℕ) (c : Call) (cs : List Call) (p : Stage) (b : Bank) {b' : Bank}
    → b.thread i ≡ standing (c ∷ cs) p
    → call_step i c cs p b ≡ some b'
    → Fresh b.balance (c ∷ cs) p
    → Moved i b b'
unfolding to_come
call_step-Moved i c cs Stage.outside b {b'} e q f = elim (Bool-cases (b.lock (account_of c))) [
  | inl busy ↦ let none_left : none ≡ some b' = rw busy at q in cc
  | inr free ↦ subst (Moved i b) (some_inj (rw free at q)) (record {
    now = standing (c ∷ cs) Stage.locked;
    only = refl;
    fewer = rw e (omega arith);
    kept = λ k. rw e refl;
  })
]
call_step-Moved i c cs Stage.locked b e q f = subst (Moved i b) (some_inj q) (record {
  now = standing (c ∷ cs) (Stage.loaded (b.balance (account_of c)));
  only = refl;
  fewer = rw e (omega arith);
  kept = λ k. rw e refl;
})
call_step-Moved i c cs (Stage.loaded r) b e q f = subst (Moved i b) (some_inj q) (record {
  now = standing (c ∷ cs) Stage.stored;
  only = refl;
  fewer = rw e (omega arith);
  kept = λ k. rw (e, f) (pay k c cs b.balance);
})
call_step-Moved i c cs Stage.stored b e q f = subst (Moved i b) (some_inj q) (record {
  now = standing cs Stage.outside;
  only = refl;
  fewer = rw e (start_left cs);
  kept = λ k. rw (e, from_outside k cs) refl;
})
  where
    start_left : (ds : List Call) → steps_left ds Stage.outside + 1 ≡ 1 + 4 * length ds
    start_left [] = refl
    start_left (d ∷ ds) = omega arith

    from_outside : (k : ℕ) (ds : List Call) → effects k (calls_left ds Stage.outside) ≡ effects k ds
    from_outside k [] = refl
    from_outside k (d ∷ ds) = refl

thread_step-Moved :
    (i : ℕ) (cs : List Call) (b : Bank) {b' : Bank}
    → (b.thread i).calls ≡ cs
    → thread_step i cs (b.thread i).stage b ≡ some b'
    → Fresh b.balance cs (b.thread i).stage
    → Moved i b b'
thread_step-Moved i [] b e q f = cc
thread_step-Moved i (c ∷ cs) b e q f =
    call_step-Moved i c cs (b.thread i).stage b (ap (λ ds. standing ds (b.thread i).stage) e) q f

Step-Moved : {n : ℕ} {b b' : Bank} → Step n b b' → IsBank n b → (i : ℕ) × (i < n) × Moved i b b'
Step-Moved {b = b} (turn i l q) h =
    (i, l, thread_step-Moved i (b.thread i).calls b refl q (h.fresh i))

-- A balance and what is still to come.
abbrev pub total : ℕ → ℕ → Bank → ℤ
total k n b = b.balance k +ℤ sum_ℤ (to_come k) n b.thread

balanced : (a a' m m' s s' : ℤ) → s' +ℤ m ≡ s +ℤ m' → a' +ℤ m' ≡ a +ℤ m → a' +ℤ s' ≡ a +ℤ s
balanced a a' m m' s s' h h' =
    omega (int_laws, ap pos_part h, ap neg_part h, ap pos_part h', ap neg_part h')

Step-total : {n : ℕ} {b b' : Bank} (k : ℕ) → Step n b b' → IsBank n b → total k n b' ≡ total k n b
Step-total {n} {b} {b'} k s h =
    let (i, l, m) = Step-Moved s h in
    ap (λ t. b'.balance k +ℤ sum_ℤ (to_come k) n t) m.only
    ∙ balanced (b.balance k) (b'.balance k) (to_come k (b.thread i)) (to_come k m.now) _ _
        (sum_ℤ-update (to_come k) n b.thread i m.now l) (m.kept k)

Step-left :
    {n : ℕ} {b b' : Bank}
    → Step n b b'
    → IsBank n b
    → suc (sum left n b'.thread) ≡ sum left n b.thread
Step-left {n} {b} {b'} s h =
    let (i, l, m) = Step-Moved s h in
    rw m.only (omega (arith, sum-update left n b.thread i m.now l, m.fewer))

abbrev pub count : {n : ℕ} {b c : Bank} → Steps n b c → ℕ
count (here b) = 0
count (Steps.then s r) = suc (count r)

pub Steps-IsBank : {n : ℕ} {b c : Bank} → Steps n b c → IsBank n b → IsBank n c
Steps-IsBank (here b) h = h
Steps-IsBank (Steps.then s r) h = Steps-IsBank r (Step-IsBank s h)

pub Steps-total :
    {n : ℕ} {b c : Bank} (k : ℕ) → Steps n b c → IsBank n b → total k n c ≡ total k n b
Steps-total k (here b) h = refl
Steps-total k (Steps.then s r) h = Steps-total k r (Step-IsBank s h) ∙ Step-total k s h

pub Steps-left :
    {n : ℕ} {b c : Bank} (r : Steps n b c)
    → IsBank n b
    → count r + sum left n c.thread ≡ sum left n b.thread
Steps-left (here b) h = omega arith
Steps-left (Steps.then s r) h = omega (arith, Steps-left r (Step-IsBank s h), Step-left s h)
