-- ===== src/Server/Thread.antt =====
-- runThread and the accept loop of main: the bytes of a connection, cut into requests.
pub mod Serve
use os.Base.{
  ℕ, zero, suc, Option, none, some, List, [], ◌∷◌, ◌++◌, ◌==◌, if◌then◌else◌, Run, done, ◌>>=◌,
  Bool, true, false,
}
use os.Text.{Text}
use os.Server.State.{Node, Server}
use os.Server.Dag.{create_dag}
use os.Server.Dispatch.{dispatch}

-- The read loop: `buffer_r` grows by one byte at a time, and a 0 ends the request. The one-byte
-- buffer is taken to be followed by a 0. Bytes behind the last 0 are dropped at the end.
unfoldable pub run_thread : Text → List ℕ → Server → Run Server
run_thread buffer_r [] s = done s
run_thread buffer_r (c ∷ cs) s = elim (c == 0) [
  | true ↦ do s' ← dispatch buffer_r s; run_thread [] cs s'
  | false ↦ run_thread (buffer_r ++ c ∷ []) cs s
]

-- main joins each thread before it accepts the next client, so connections are served in turn.
unfoldable pub serve : List (List ℕ) → Server → Run Server
serve [] s = done s
serve (c ∷ cs) s = do s' ← run_thread [] c s; serve cs s'

-- main: the DAG file, then the clients.
unfoldable pub main_ : List Text → List (List ℕ) → Run Server
main_ lines clients = do ns ← create_dag lines; serve clients (record { nodes = ns; sent = [] })
