-- ===== src/Fifo/Session/Server.antt =====
-- The server's side of a session.
use unix_ipc.Prelude.{ℕ, suc, ◌≡◌, Bytes, ℤ, pos, List, [], ◌∷◌, length, NoNul, ◌≤◌, arith}
use unix_ipc.Sys.{
  Call, Reply, Os, ok, opens, makes_fifo, unlinks, reads, writes, closes, prints, allocates,
  read_only, write_only, non_block, returns, gives, Answers, after,
}
use unix_ipc.Fifo.Package.{message, new_connection, connection_success, connection_close}
use unix_ipc.Fifo.Transfer.{wire}
use unix_ipc.Fifo.EchoServer.{main}
use unix_ipc.Fifo.EchoClient.{request, greeting}
use unix_ipc.Fifo.Session.Script.{behind, written}
use unix_ipc.Fifo.Session.Many.{Visit, server_visits}

module _ (server client : Bytes) (mine theirs : ℕ) (client_fd' : ℤ)
    (heap heap' heap'' : Bytes) where
  unfoldable pub server_script : List (Call × Reply)
  server_script =
      (makes_fifo server, returns (pos 0))
      ∷ (opens server (read_only ∷ []), returns (pos mine))
      ∷ (reads (pos mine) 1024, gives (wire (request client_fd' new_connection client)))
      ∷ (prints (1 ∷ []), returns (pos 0))
      ∷ (allocates, behind heap)
      ∷ (prints client, returns (pos 0))
      ∷ (opens client (write_only ∷ non_block ∷ []), returns (pos theirs))
      ∷ (writes (pos theirs) (wire (request (pos mine) connection_success [])), written)
      ∷ (reads (pos mine) 1024, gives (wire (request client_fd' message greeting)))
      ∷ (prints [], returns (pos 0))
      ∷ (allocates, behind heap')
      ∷ (prints greeting, returns (pos 0))
      ∷ (writes (pos theirs) (wire (request client_fd' message greeting)), written)
      ∷ (reads (pos mine) 1024, gives (wire (request client_fd' connection_close [])))
      ∷ (prints (3 ∷ []), returns (pos 0))
      ∷ (allocates, behind heap'')
      ∷ (unlinks server, returns (pos 0))
      ∷ (closes (pos mine), returns (pos 0))
      ∷ []

  -- When its calls are answered as in a session with one client, whose pipe has a name of at most
  -- 1012 bytes without a NUL, the echo server accepts the client, sends its message back unchanged,
  -- and at the farewell leaves its loop and ends with 0; the descriptor of the client stays open.
  pub server_session :
      (fuel tries : ℕ) (os : Os) (h : List Call)
      → NoNul client
      → length client ≤ 1012
      → Answers os h server_script
      → main (suc (suc fuel)) (suc tries) 2 server os h ≡ (ok (pos 0), after server_script h)
  unfolding server_script
  server_session fuel tries os h n l a =
      server_visits mine client_fd' heap'' os server (visit ∷ []) (suc (suc fuel)) tries h
        (omega arith) ((n, l), ((omega arith), (omega arith)), tt) a
    where
      visit : Visit
      visit = record {
        name = client;
        text = greeting;
        fd = client_fd';
        theirs = theirs;
        heap = heap;
        heap' = heap';
      }
