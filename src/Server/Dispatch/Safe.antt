-- ===== src/Server/Dispatch/Safe.antt =====
-- Every request keeps the children of a region behind it, moves no polls back, ends, and has one answer.
use os.Base.{
  ℕ, Bool, true, false, not, Option, none, some, List, [], ◌∷◌, ◌++◌, ◌≡◌, refl, get_elem?, Pairs,
  Pairs-weaken, Run, Ends, Returns→Ends, Ends-bind, ◌>>=◌, use_ptr, if◌then◌else◌,
}
use os.Text.{Text, trimwhitespace, arg}
use os.Server.State.{Node, Server, find_node, say}
use os.Server.Invariant.{IsOrdered}
use os.Server.Polls.{Code, open_polls, close_polls}
use os.Server.Polls.Open.{Opens, OpenOutcome, open_polls_lem}
use os.Server.Polls.Close.{Closes, CloseOutcome, close_polls_lem}
use os.Server.Count.Merge.{Absorbs}
use os.Server.Dispatch.{dispatch_open, dispatch_close}
use os.Server.Dispatch.Turns.{
  Turns, Opens-Turns, Closes-Turns, Absorbs-Turns, Turns-IsOrdered, Onward, Turns-Onward,
  Onward-refl,
}

-- From `s` to `s'` one request was handled.
pub record Answers (s s' : Server) : Type 0 where
  pub ordered : IsOrdered s'.nodes
  pub onward : Onward s.nodes s'.nodes
  pub answer : Text
  pub one_answer : s'.sent ≡ s.sent ++ answer ∷ []

-- An answer without a change to the regions.
pub say-Answers : (m : Text) (s : Server) → IsOrdered s.nodes → Answers s (say m s)
say-Answers m s h = record {
  ordered = h;
  onward = Onward-refl s.nodes;
  answer = m;
  one_answer = refl;
}

pub Turns-Answers :
    (m : Text) (s : Server) (ns : List Node)
    → IsOrdered s.nodes
    → Pairs Turns s.nodes ns
    → Answers s (say m (record s { nodes = ns }))
Turns-Answers m s ns h t = record {
  ordered = Turns-IsOrdered s.nodes ns t h;
  onward = Turns-Onward s.nodes ns t;
  answer = m;
  one_answer = refl;
}

pub Absorbs-Answers :
    (m : Text) (s : Server) (ns : List Node)
    → IsOrdered s.nodes
    → Pairs Absorbs s.nodes ns
    → Answers s (say m (record s { nodes = ns }))
Absorbs-Answers m s ns h a = Turns-Answers m s ns h (Pairs-weaken s.nodes ns Absorbs-Turns a)

same_nodes-Answers :
    (m : Text) (s : Server) (ns : List Node)
    → IsOrdered s.nodes
    → ns ≡ s.nodes
    → Answers s (say m (record s { nodes = ns }))
same_nodes-Answers m s ns h e = rw e (say-Answers m s h)

pub use_ptr-Ends :
    {A B : Type 0} (P : B → Type 0) (o : Option A) (f : A → Run B)
    → ((a : A) → Ends P (f a))
    → Ends P (use_ptr o >>= f)
use_ptr-Ends P none f h = tt
use_ptr-Ends P (some a) f h = h a

open-Answers :
    (m : Text) (s : Server) (o : Option (ℕ × Node)) (r : Code × List Node)
    → IsOrdered s.nodes
    → OpenOutcome s.nodes o r
    → Answers s (say m (record s { nodes = r.1 }))
open-Answers m s none r h q = same_nodes-Answers m s r.1 h q.1
open-Answers m s (some (i, n)) r h q = by_flags n.open_ n.closed q
  where
    by_flags :
        (a b : Bool)
        → (if a
            then (r.0 ≡ Code.already) × (r.1 ≡ s.nodes)
            else if b
            then (r.0 ≡ Code.refused) × (r.1 ≡ s.nodes)
            else (r.0 ≡ Code.success)
              × Pairs (Opens r.1) s.nodes r.1
              × (get_elem? r.1 i ≡ some (record n { open_ = true })))
        → Answers s (say m (record s { nodes = r.1 }))
    by_flags true b q = same_nodes-Answers m s r.1 h q.1
    by_flags false true q = same_nodes-Answers m s r.1 h q.1
    by_flags false false q =
        Turns-Answers m s r.1 h (Pairs-weaken s.nodes r.1 (Opens-Turns r.1) q.1)

close-Answers :
    (m : Text) (s : Server) (o : Option (ℕ × Node)) (r : Code × List Node)
    → IsOrdered s.nodes
    → CloseOutcome s.nodes o r
    → Answers s (say m (record s { nodes = r.1 }))
close-Answers m s none r h q = same_nodes-Answers m s r.1 h q.1
close-Answers m s (some (i, n)) r h q = by_flags n.closed (not n.open_) q
  where
    by_flags :
        (a b : Bool)
        → (if a
            then (r.0 ≡ Code.already) × (r.1 ≡ s.nodes)
            else if b
            then (r.0 ≡ Code.refused) × (r.1 ≡ s.nodes)
            else (r.0 ≡ Code.success)
              × Pairs (Closes r.1) s.nodes r.1
              × (get_elem? r.1 i ≡ some (record n { closed = true; open_ = false })))
        → Answers s (say m (record s { nodes = r.1 }))
    by_flags true b q = same_nodes-Answers m s r.1 h q.1
    by_flags false true q = same_nodes-Answers m s r.1 h q.1
    by_flags false false q =
        Turns-Answers m s r.1 h (Pairs-weaken s.nodes r.1 (Closes-Turns r.1) q.1)

pub dispatch_open-Answers :
    (argvp : List Text) (s : Server) → IsOrdered s.nodes → Ends (Answers s) (dispatch_open argvp s)
unfolding dispatch_open
dispatch_open-Answers argvp s h = use_ptr-Ends _ (arg argvp 1) _ (λ name.
    Ends-bind _ _ (open_polls name s.nodes) _
      (Returns→Ends _ (open_polls name s.nodes) (open_polls_lem name s.nodes h))
      (λ r q. open-Answers _ s (find_node (trimwhitespace name) s.nodes) r h q))

pub dispatch_close-Answers :
    (argvp : List Text) (s : Server) → IsOrdered s.nodes → Ends (Answers s) (dispatch_close argvp s)
unfolding dispatch_close
dispatch_close-Answers argvp s h = use_ptr-Ends _ (arg argvp 1) _ (λ name.
    Ends-bind _ _ (close_polls name s.nodes) _
      (Returns→Ends _ (close_polls name s.nodes) (close_polls_lem name s.nodes h))
      (λ r q. close-Answers _ s (find_node (trimwhitespace name) s.nodes) r h q))
