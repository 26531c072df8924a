-- ===== src/VoteCounter/Threads/Stuck.antt =====
-- A lost update of cur_threads in votecounter.c: decryptAll loads it, the only thread counts itself out and signals,
-- and decryptAll stores what it had loaded, and one.
use os.Base.{ℕ, ◌<◌, false, List, [], ◌∷◌, length, ◌≡◌, refl, ap, arith, ◌++◌}
use os.Base.Word.{lt_int}
use os.Text.{Text}
use os.VoteCounter.Threads.{Place, testing, Pool, start, Step, Steps}

-- In the inner loop of decryptAll, where no thread is created.
abbrev inner : Place → ℕ
inner Place.unlocked = 0
inner (Place.counting v) = 0
inner Place.testing = 1
inner Place.waiting = 1

record IsStuck (p : Pool) : Type 0 where
  waits : inner p.place ≡ 1
  counted : p.cur_threads ≡ 2
  one_created : p.created ≡ 1
  none_fresh : p.fresh ≡ 0
  none_working : p.working ≡ 0
  none_leaving : length p.leaving ≡ 0
  none_signalling : p.signalling ≡ 0

length-between : (before after : List ℕ) (v : ℕ) → 0 < length (before ++ v ∷ after)
length-between [] after v = omega arith
length-between (x ∷ xs) after v = omega arith

IsStuck-place : (p : Pool) (k : Place) → inner k ≡ 1 → IsStuck p → IsStuck (record p { place = k })
IsStuck-place p k e h = record {
  waits = e;
  counted = h.counted;
  one_created = h.one_created;
  none_fresh = h.none_fresh;
  none_working = h.none_working;
  none_leaving = h.none_leaving;
  none_signalling = h.none_signalling;
}

module _ (queue : List Text) where
  IsStuck-Step : {p q : Pool} → Step 1 queue p q → IsStuck p → IsStuck q
  IsStuck-Step (Step.lock p e l) h = absurd (omega (arith, h.waits, ap inner e))
  IsStuck-Step (Step.count p v e) h = absurd (omega (arith, h.waits, ap inner e))
  IsStuck-Step (Step.wait p e l) h = IsStuck-place p Place.waiting refl h
  IsStuck-Step (Step.wake p e) h = IsStuck-place p Place.testing refl h
  IsStuck-Step (Step.create_thread p e l) h = absurd (few p h.counted l)
    where
      few : (p : Pool) → p.cur_threads ≡ 2 → lt_int 1 p.cur_threads ≡ false → ⊥
      few p e l = ground (arith, e, l)
  IsStuck-Step (Step.grab p others e) h = absurd (omega (arith, h.none_fresh, e))
  IsStuck-Step (Step.load_leave p others e) h = absurd (omega (arith, h.none_working, e))
  IsStuck-Step (Step.store_leave p before after v e) h =
      absurd (omega (arith, h.none_leaving, ap length e, length-between before after v))
  IsStuck-Step (Step.signal p others e) h = absurd (omega (arith, h.none_signalling, e))

  IsStuck-Steps : {p q : Pool} → Steps 1 queue p q → IsStuck p → IsStuck q
  IsStuck-Steps (Steps.here p) h = h
  IsStuck-Steps (Steps.then s t) h = IsStuck-Steps t (IsStuck-Step s h)

abbrev pub stuck : Text → Pool
stuck name = record start {
  place = testing;
  created = 1;
  cur_threads = 2;
  ended = 1;
  current_grab = 1;
  taken = name ∷ [];
}

reach_stuck : (a b : Text) (more : List Text) → Steps 1 (a ∷ b ∷ more) start (stuck a)
reach_stuck a b more = Steps.then (Step.lock _ refl (omega arith)) (
    Steps.then (Step.count _ 0 refl) (
      Steps.then (Step.create_thread _ refl refl) (
        Steps.then (Step.grab _ 0 refl) (
          Steps.then (Step.lock _ refl (omega arith)) (
            Steps.then (Step.load_leave _ 0 refl) (
              Steps.then (Step.store_leave _ [] [] 1 refl) (
                Steps.then (Step.signal _ 0 refl)
                  (Steps.then (Step.count _ 1 refl) (Steps.here _)))))))))

-- With one thread allowed and two files or more, the threads can reach a state in which the first
-- thread is through and cur_threads is 2, and in every state that they can reach from there still
-- only one thread has been created: decryptAll does not end.
pub stuck_lem :
    (a b : Text) (more : List Text) {q : Pool}
    → Steps 1 (a ∷ b ∷ more) (stuck a) q
    → Steps 1 (a ∷ b ∷ more) start (stuck a) × (q.created ≡ 1)
stuck_lem a b more s = (reach_stuck a b more, (IsStuck-Steps (a ∷ b ∷ more) s is_stuck).one_created)
  where
    is_stuck : IsStuck (stuck a)
    is_stuck = record {
      waits = refl;
      counted = refl;
      one_created = refl;
      none_fresh = refl;
      none_working = refl;
      none_leaving = refl;
      none_signalling = refl;
    }
