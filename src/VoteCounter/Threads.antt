-- ===== src/VoteCounter/Threads.antt =====
-- The threads of the vote counter: the second half of decryptAll, which starts one thread for each
-- file, with getNameFromQueue and runThread. A state is what they share; each step is what one thread
-- does between two places where another one can run. `cur_threads++` and `cur_threads--` are a load
-- and a store each, and only the first is made with cq->mutex, so an update can be lost. A signal
-- wakes decryptAll only if it waits then. What a thread does with its file is the time from `grab` to
-- `load_leave`.
pub mod Safe
pub mod Stuck
use os.Base.{
  ℕ, suc, ◌+◌, ◌<◌, Bool, true, false, Option, none, some, List, [], ◌∷◌, ◌++◌, length, get_elem?,
  ◌≡◌,
}
use os.Base.Word.{add_int, sub_int, lt_int}
use os.Text.{Text}

-- Where the loop of decryptAll is: before the lock, between the load and the store of
-- `cur_threads++`, at the test of the inner loop, or in pthread_cond_wait.
pub data Place : Type 0 where
  unlocked : Place
  counting : ℕ → Place
  testing : Place
  waiting : Place

pub record Pool : Type 0 where
  pub place : Place
  pub created : ℕ
  pub cur_threads : ℕ
  -- The threads that have no name yet, those with a file, those between the load and the store of
  -- `cur_threads--` with what they have loaded, those in front of their signal, and those that are
  -- through.
  pub fresh : ℕ
  pub working : ℕ
  pub leaving : List ℕ
  pub signalling : ℕ
  pub ended : ℕ
  pub current_grab : ℕ
  pub taken : List Text
  -- A name was read behind the end of DSQ.
  pub overrun : Bool

abbrev pub start : Pool
start = record {
  place = unlocked;
  created = 0;
  cur_threads = 0;
  fresh = 0;
  working = 0;
  leaving = [];
  signalling = 0;
  ended = 0;
  current_grab = 0;
  taken = [];
  overrun = false;
}

-- getNameFromQueue
abbrev pub get_name_from_queue : Option Text → Pool → Pool
get_name_from_queue none p = record p { current_grab = suc p.current_grab; overrun = true }
get_name_from_queue (some name) p = record p {
  current_grab = suc p.current_grab;
  taken = p.taken ++ name ∷ [];
}

-- pthread_cond_signal: nothing is kept of it where nobody waits.
abbrev pub signalled : Place → Place
signalled Place.unlocked = unlocked
signalled (Place.counting v) = counting v
signalled Place.testing = testing
signalled Place.waiting = testing

module _ (num_threads : ℕ) (queue : List Text) where
  pub data Step : Pool → Pool → Type 0 where
    lock :
        (p : Pool)
        → p.place ≡ unlocked
        → p.created < length queue
        → Step p (record p { place = counting p.cur_threads })
    count :
        (p : Pool) (v : ℕ)
        → p.place ≡ counting v
        → Step p (record p { place = testing; cur_threads = add_int v 1 })
    wait :
        (p : Pool)
        → p.place ≡ testing
        → lt_int num_threads p.cur_threads ≡ true
        → Step p (record p { place = waiting })
    -- pthread_cond_wait may return without a signal.
    wake : (p : Pool) → p.place ≡ waiting → Step p (record p { place = testing })
    create_thread :
        (p : Pool)
        → p.place ≡ testing
        → lt_int num_threads p.cur_threads ≡ false
        → Step p (record p { place = unlocked; created = suc p.created; fresh = suc p.fresh })
    grab :
        (p : Pool) (others : ℕ)
        → p.fresh ≡ suc others
        → Step p (record (get_name_from_queue (get_elem? queue p.current_grab) p) {
          fresh = others;
          working = suc p.working;
        })
    load_leave :
        (p : Pool) (others : ℕ)
        → p.working ≡ suc others
        → Step p (record p { working = others; leaving = p.cur_threads ∷ p.leaving })
    store_leave :
        (p : Pool) (before after : List ℕ) (v : ℕ)
        → p.leaving ≡ before ++ v ∷ after
        → Step p (record p {
          cur_threads = sub_int v 1;
          leaving = before ++ after;
          signalling = suc p.signalling;
        })
    signal :
        (p : Pool) (others : ℕ)
        → p.signalling ≡ suc others
        → Step p (record p { place = signalled p.place; signalling = others; ended = suc p.ended })

  pub data Steps : Pool → Pool → Type 0 where
    here : (p : Pool) → Steps p p
    then : {p q r : Pool} → Step p q → Steps q r → Steps p r
