-- ===== src/Server/Thread/Serve.antt =====
-- A connection and the accept loop as sequences of answered requests.
use os.Base.{
  ℕ, ◌+◌, Bool, true, false, List, [], ◌∷◌, ◌++◌, ◌≡◌, refl, arith, length, length-append, Ends,
  Ends-bind, Ends-weaken, ◌>>=◌, ◌==◌, if◌then◌else◌,
}
use os.Text.{Text}
use os.Server.State.{Server}
use os.Server.Invariant.{IsOrdered}
use os.Server.Dispatch.{dispatch}
use os.Server.Dispatch.Answer.{dispatch-Answers}
use os.Server.Dispatch.Turns.{Onward, Onward-refl, Onward-trans}
use os.Server.Dispatch.Safe.{Answers}
use os.Server.Dag.{create_dag}
use os.Server.Dag.Forest.{create_dag-IsOrdered}
use os.Server.Thread.{run_thread, serve, main_}

-- The number of requests in the bytes of a connection: each ends with a 0.
unfoldable pub requests_in : List ℕ → ℕ
requests_in [] = 0
requests_in (b ∷ bs) = (if b == 0 then 1 else 0) + requests_in bs

-- From `s` to `s'`, `k` requests were handled.
pub record Serves (k : ℕ) (s s' : Server) : Type 0 where
  pub ordered : IsOrdered s'.nodes
  pub onward : Onward s.nodes s'.nodes
  pub answered : length s'.sent ≡ length s.sent + k

Serves-none : (s : Server) → IsOrdered s.nodes → Serves 0 s s
Serves-none s h = record { ordered = h; onward = Onward-refl s.nodes; answered = omega arith }

Answers-Serves :
    (j k : ℕ) (s m s' : Server) → Serves j s m → Serves k m s' → (i : ℕ) → i ≡ j + k → Serves i s s'
Answers-Serves j k s m s' a b i e = record {
  ordered = b.ordered;
  onward = Onward-trans s.nodes m.nodes s'.nodes a.onward b.onward;
  answered = omega (arith, a.answered, b.answered);
}

one-Serves : (s m : Server) → Answers s m → Serves 1 s m
one-Serves s m a = record {
  ordered = a.ordered;
  onward = a.onward;
  answered = rw a.one_answer (length-append s.sent (a.answer ∷ []));
}

read_byte-Serves :
    (buffer_r : Text) (b : ℕ) (bs : List ℕ) (s : Server) (ends : Bool)
    → IsOrdered s.nodes
    → ((m : Server) → IsOrdered m.nodes → Ends (Serves (requests_in bs) m) (run_thread [] bs m))
    → Ends (Serves (requests_in bs) s) (run_thread (buffer_r ++ b ∷ []) bs s)
    → Ends (Serves ((if ends then 1 else 0) + requests_in bs) s) (elim ends [
      | true ↦ do s' ← dispatch buffer_r s; run_thread [] bs s'
      | false ↦ run_thread (buffer_r ++ b ∷ []) bs s
    ])
read_byte-Serves buffer_r b bs s true h next more =
    Ends-bind _ _ (dispatch buffer_r s) _ (dispatch-Answers buffer_r s h) (λ m a.
      Ends-weaken _ _ (run_thread [] bs m) (next m a.ordered)
        (λ s' q. Answers-Serves 1 (requests_in bs) s m s' (one-Serves s m a) q _ refl))
read_byte-Serves buffer_r b bs s false h next more =
    Ends-weaken _ _ (run_thread (buffer_r ++ b ∷ []) bs s) more (λ s' q. record {
      ordered = q.ordered;
      onward = q.onward;
      answered = omega (arith, q.answered);
    })

-- A connection ends, whatever was read before it, on regions whose children stand behind them. If no
-- request faults, it has got one answer for each 0 among its bytes, the children still stand behind
-- their regions, each region is in its place with its name, which may have lost blanks at its end,
-- and no polls have gone back. A request that faults, such as AV;X, ends it without an answer.
pub run_thread-Serves :
    (buffer_r : Text) (bytes : List ℕ) (s : Server)
    → IsOrdered s.nodes
    → Ends (Serves (requests_in bytes) s) (run_thread buffer_r bytes s)
unfolding run_thread requests_in
run_thread-Serves buffer_r [] s h = Serves-none s h
run_thread-Serves buffer_r (b ∷ bs) s h =
    read_byte-Serves buffer_r b bs s (b == 0) h (λ m k. run_thread-Serves [] bs m k)
      (run_thread-Serves (buffer_r ++ b ∷ []) bs s h)

-- The requests of all connections.
unfoldable pub all_requests : List (List ℕ) → ℕ
all_requests [] = 0
all_requests (c ∷ cs) = requests_in c + all_requests cs

-- The accept loop, for any clients: if no request faults, each gets one answer in turn, the
-- children still stand behind their regions, and polls that have moved on do not go back.
pub serve-Serves :
    (clients : List (List ℕ)) (s : Server)
    → IsOrdered s.nodes
    → Ends (Serves (all_requests clients) s) (serve clients s)
unfolding serve all_requests
serve-Serves [] s h = Serves-none s h
serve-Serves (c ∷ cs) s h = Ends-bind _ _ (run_thread [] c s) _ (run_thread-Serves [] c s h) (λ m a.
    Ends-weaken _ _ (serve cs m) (serve-Serves cs m a.ordered)
      (λ s' q. Answers-Serves (requests_in c) (all_requests cs) s m s' a q _ refl))

-- The whole server, from the DAG file on: it ends on every file and any connections. If it does
-- not fault or exit, it has sent exactly as many answers as requests have come, and the children
-- of each region stand behind it and in the list.
pub main_-Serves :
    (lines : List Text) (clients : List (List ℕ))
    → Ends (λ s. IsOrdered s.nodes × (length s.sent ≡ all_requests clients)) (main_ lines clients)
unfolding main_
main_-Serves lines clients =
    Ends-bind _ _ (create_dag lines) _ (create_dag-IsOrdered lines) (λ ns h.
      Ends-weaken _ _ (serve clients (record { nodes = ns; sent = [] }))
        (serve-Serves clients (record { nodes = ns; sent = [] }) h)
        (λ s q. (q.ordered, omega (arith, q.answered))))
