-- ===== src/VoteCounter/Threads/Safe.antt =====
-- What holds in every state of the threads.
use native.Mathlib.Decide.{dec_lt}
use os.Base.{
  ℕ, zero, suc, ◌+◌, ◌≤◌, ◌<◌, ◌⊎◌, inl, inr, false, some, List, [], ◌∷◌, ◌++◌, length, take,
  get_elem?, ◌≡◌, refl, sym, subst, ap, ◌∙◌, arith, get_elem?-of_lt,
}
use os.Text.{Text}
use os.VoteCounter.Threads.{Place, Pool, start, get_name_from_queue, signalled, Step, Steps}

-- The thread that decryptAll has pending and not created yet.
abbrev pub pending : Place → ℕ
pending Place.unlocked = 0
pending (Place.counting v) = 1
pending Place.testing = 1
pending Place.waiting = 1

pending-signalled : (k : Place) → pending (signalled k) ≡ pending k
pending-signalled Place.unlocked = refl
pending-signalled (Place.counting v) = refl
pending-signalled Place.testing = refl
pending-signalled Place.waiting = refl

-- The threads that have a name or had one.
abbrev pub named : Pool → ℕ
named p = p.working + length p.leaving + p.signalling + p.ended

pub record IsPool (queue : List Text) (p : Pool) : Type 0 where
  pub created_eq : p.created ≡ p.fresh + named p
  pub grab_eq : p.current_grab ≡ named p
  pub room : p.created + pending p.place ≤ length queue
  pub taken_eq : p.taken ≡ take p.current_grab queue
  pub inside : p.overrun ≡ false

length-between :
    (before after : List ℕ) (v : ℕ) → length (before ++ v ∷ after) ≡ suc (length (before ++ after))
length-between [] after v = refl
length-between (x ∷ xs) after v = ap suc (length-between xs after v)

take-suc {ℓ} :
    {A : Type ℓ} (xs : List A) (i : ℕ) {x : A}
    → get_elem? xs i ≡ some x
    → take (suc i) xs ≡ take i xs ++ x ∷ []
take-suc [] i e = cc
take-suc (y ∷ ys) zero e = cc
take-suc (y ∷ ys) (suc i) e = ap (λ l. y ∷ l) (take-suc ys i e)

take-length {ℓ} : {A : Type ℓ} (xs : List A) → take (length xs) xs ≡ xs
take-length [] = refl
take-length (x ∷ xs) = ap (λ l. x ∷ l) (take-length xs)

-- A thread takes the name that current_grab stands at.
grab-IsPool :
    (queue : List Text) (p : Pool) (others : ℕ) (name : Text)
    → p.fresh ≡ suc others
    → get_elem? queue p.current_grab ≡ some name
    → IsPool queue p
    → IsPool queue
        (record (get_name_from_queue (some name) p) { fresh = others; working = suc p.working })
grab-IsPool queue p others name e g h = record {
  created_eq = omega (arith, e, h.created_eq);
  grab_eq = omega (arith, h.grab_eq);
  room = h.room;
  taken_eq = ap (λ l. l ++ name ∷ []) h.taken_eq ∙ sym (take-suc queue p.current_grab g);
  inside = h.inside;
}

module _ (num_threads : ℕ) (queue : List Text) where
  IsPool-Step : {p q : Pool} → Step num_threads queue p q → IsPool queue p → IsPool queue q
  IsPool-Step (Step.lock p e l) h = record {
    created_eq = h.created_eq;
    grab_eq = h.grab_eq;
    room = omega (arith, l);
    taken_eq = h.taken_eq;
    inside = h.inside;
  }
  IsPool-Step (Step.count p v e) h = record {
    created_eq = h.created_eq;
    grab_eq = h.grab_eq;
    room = omega (arith, h.room, ap pending e);
    taken_eq = h.taken_eq;
    inside = h.inside;
  }
  IsPool-Step (Step.wait p e l) h = record {
    created_eq = h.created_eq;
    grab_eq = h.grab_eq;
    room = omega (arith, h.room, ap pending e);
    taken_eq = h.taken_eq;
    inside = h.inside;
  }
  IsPool-Step (Step.wake p e) h = record {
    created_eq = h.created_eq;
    grab_eq = h.grab_eq;
    room = omega (arith, h.room, ap pending e);
    taken_eq = h.taken_eq;
    inside = h.inside;
  }
  IsPool-Step (Step.create_thread p e l) h = record {
    created_eq = omega (arith, h.created_eq);
    grab_eq = h.grab_eq;
    room = omega (arith, h.room, ap pending e);
    taken_eq = h.taken_eq;
    inside = h.inside;
  }
  IsPool-Step (Step.grab p others e) h =
      let (name, g) =
        get_elem?-of_lt queue p.current_grab (omega (arith, e, h.grab_eq, h.created_eq, h.room)) in
      subst
        (λ o.
          IsPool queue
            (record (get_name_from_queue o p) { fresh = others; working = suc p.working }))
        (sym g) (grab-IsPool queue p others name e g h)
  IsPool-Step (Step.load_leave p others e) h = record {
    created_eq = omega (arith, e, h.created_eq);
    grab_eq = omega (arith, e, h.grab_eq);
    room = h.room;
    taken_eq = h.taken_eq;
    inside = h.inside;
  }
  IsPool-Step (Step.store_leave p before after v e) h = record {
    created_eq = omega (arith, h.created_eq, ap length e, length-between before after v);
    grab_eq = omega (arith, h.grab_eq, ap length e, length-between before after v);
    room = h.room;
    taken_eq = h.taken_eq;
    inside = h.inside;
  }
  IsPool-Step (Step.signal p others e) h = record {
    created_eq = omega (arith, e, h.created_eq);
    grab_eq = omega (arith, e, h.grab_eq);
    room = omega (arith, h.room, pending-signalled p.place);
    taken_eq = h.taken_eq;
    inside = h.inside;
  }

  IsPool-Steps : {p q : Pool} → Steps num_threads queue p q → IsPool queue p → IsPool queue q
  IsPool-Steps (Steps.here p) h = h
  IsPool-Steps (Steps.then s t) h = IsPool-Steps t (IsPool-Step s h)

  start-IsPool : IsPool queue start
  start-IsPool = record {
    created_eq = refl;
    grab_eq = refl;
    room = omega arith;
    taken_eq = refl;
    inside = refl;
  }

  -- In every state that the threads can reach, whatever updates of cur_threads are lost: there are no
  -- more threads than files, the names that have been taken are the first ones of the queue, one for
  -- each thread that has come so far, and none was read behind its end; and when as many threads are
  -- through as there are files, every file has been taken. That at most num_threads run is not said:
  -- a lost update breaks it.
  pub pool_lem :
      {p : Pool}
      → Steps num_threads queue start p
      → (p.created ≤ length queue)
        × (p.taken ≡ take (named p) queue)
        × (named p ≤ p.created)
        × (p.overrun ≡ false)
        × ((p.ended < length queue) ⊎ (p.taken ≡ queue))
  pool_lem {p = p} s =
      let h = IsPool-Steps s start-IsPool in
      let count = h.created_eq in
      (
        omega (arith, h.room),
        h.taken_eq ∙ ap (λ k. take k queue) h.grab_eq,
        omega (arith, count),
        h.inside,
        elim (dec_lt p.ended (length queue)) [
          | yes less ↦ inl less
          | no all ↦
              let every : p.current_grab ≡ length queue =
                omega (arith, h.grab_eq, count, h.room, all) in
              inr (h.taken_eq ∙ ap (λ k. take k queue) every ∙ take-length queue)
        ],
      )
