-- ===== src/AccountServer.antt =====
-- The server of CSCI4061-rec13/server.c, which adds changes to the balances of accounts. Each
-- connection sends one request, and its thread is joined before the next accept. The type double,
-- its addition and atof are parameters.
pub mod Requests
use os.Base.{
  ℕ, ◌+◌, ◌%◌, Option, none, some, List, [], ◌∷◌, ◌++◌, ltb, if◌then◌else◌, Run, done, fault, ◌>>=◌,
  use_ptr,
}
use os.Base.Family.{update}
use os.Text.{Text, codes, makeargv, arg, atoi}

-- The array of accounts, main's i, and the balances sent back, the last one first.
pub record Accounts (Double : Type 0) : Type 0 where
  pub balance : ℕ → Double
  pub i : ℕ
  pub replies : List Double

module _ {Double : Type 0} (plus : Double → Double → Double) (atof : Text → Double)
    (bank_size thread_num : ℕ) where
  -- threadFunction
  abbrev pub thread_function : ℕ → Double → Accounts Double → Accounts Double
  thread_function index change s =
      let balance = plus (s.balance index) change in
      record s { balance = update s.balance index balance; replies = balance ∷ s.replies }

  -- The client gets no answer where i has come to thread_num. An account at or behind bank_size is a
  -- write outside the array.
  abbrev pub request_tokens : Accounts Double → Option (List Text) → Run (Accounts Double)
  request_tokens s none = fault
  request_tokens s (some argvp) = do
    account ← use_ptr (arg argvp 0)
    if ltb s.i thread_num
        then (do
          change ← use_ptr (arg argvp 1)
          if ltb (atoi account) bank_size
              then done
                  (record (thread_function (atoi account) (atof change) s) { i = (s.i + 1) % 2 })
              else fault)
        else done s

  -- The loop over the connections, by what each of them sends.
  unfoldable pub serve_all : List Text → Accounts Double → Run (Accounts Double)
  serve_all [] s = done s
  serve_all (buffer ∷ more) s = do
    s' ← request_tokens s (makeargv (some buffer) (codes ","))
    serve_all more s'
