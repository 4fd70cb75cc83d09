-- ===== src/Fifo/Session/Client.antt =====
-- The client's side of a session.
use unix_ipc.Prelude.{ℕ, suc, ◌≡◌, ap, Bytes, ℤ, pos, List, [], ◌∷◌, length, NoNul, ◌≤◌, arith}
use unix_ipc.Sys.{
  Call, Reply, Os, ok, opens, makes_fifo, unlinks, reads, writes, closes, prints, allocates,
  read_only, write_only, non_block, returns, gives, Answers, after,
}
use unix_ipc.Fifo.Package.{
  message, new_connection, connection_success, connection_close, default_package,
}
use unix_ipc.Fifo.Transfer.{wire, pack_lem, unpack_lem, length-wire, clear_buffer-empty}
use unix_ipc.Fifo.Files.{open_file, create_fifo, close_fifo, close_file}
use unix_ipc.Fifo.EchoClient.{main, request, greeting}
use unix_ipc.Fifo.Session.Script.{behind, written, read_whole, write_whole, Fits-short}

-- The descriptors are those that the system gives out; `server_fd'` is the server's own.
module _ (server client : Bytes) (mine theirs : ℕ) (server_fd' : ℤ) (heap heap' : Bytes) where
  unfoldable pub client_script : List (Call × Reply)
  client_script =
      (makes_fifo client, returns (pos 0))
      ∷ (opens client (read_only ∷ non_block ∷ []), returns (pos mine))
      ∷ (opens server (write_only ∷ []), returns (pos theirs))
      ∷ (writes (pos theirs) (wire (request (pos mine) new_connection client)), written)
      ∷ (reads (pos mine) 1024, gives (wire (request server_fd' connection_success [])))
      ∷ (allocates, behind heap)
      ∷ (writes (pos theirs) (wire (request (pos mine) message greeting)), written)
      ∷ (reads (pos mine) 1024, gives (wire (request (pos mine) message greeting)))
      ∷ (allocates, behind heap')
      ∷ (prints greeting, returns (pos 0))
      ∷ (writes (pos theirs) (wire (request (pos mine) connection_close [])), written)
      ∷ (unlinks client, returns (pos 0))
      ∷ (closes (pos theirs), returns (pos 0))
      ∷ (closes (pos mine), returns (pos 0))
      ∷ []

  -- When its calls are answered as in a session, and the name of its pipe has at most 1012 bytes
  -- and no NUL, the client announces its pipe, sends its greeting, shows the answer, says farewell,
  -- removes its pipe, closes both descriptors and ends with 0.
  pub client_session :
      (tries : ℕ) (os : Os) (h : List Call)
      → NoNul client
      → length client ≤ 1012
      → Answers os h client_script
      → main (suc tries) 3 server client os h ≡ (ok (pos 0), after client_script h)
  unfolding client_script main open_file create_fifo close_fifo close_file
  client_session tries os h n l
        (a1, (a2, (a3, (a4, (a5, (a6, (a7, (a8, (a9, (a10, (a11, (a12, (a13, (a14, _)))))))))))))) =
      let f1 = Fits-short new_connection client (pos mine) tt n l in
      let f2 = Fits-short connection_success [] server_fd' tt tt (omega arith) in
      let f3 = Fits-short message greeting (pos mine) tt (omega arith) (omega arith) in
      let f4 = Fits-short connection_close [] (pos mine) tt tt (omega arith) in
      rw (
        a1,
        a2,
        a3,
        pack_lem (request (pos mine) new_connection client) os _ f1,
        write_whole (pos theirs) _ os _ (length-wire _ f1) a4,
        clear_buffer-empty _ (length-wire _ f1),
        read_whole tries (pos mine) _ os _ (length-wire _ f2) a5,
        unpack_lem _ default_package heap os _ f2 (ap (λ r. r.bytes) a6),
        clear_buffer-empty _ (length-wire _ f2),
        pack_lem (request (pos mine) message greeting) os _ f3,
        write_whole (pos theirs) _ os _ (length-wire _ f3) a7,
        clear_buffer-empty _ (length-wire _ f3),
        read_whole tries (pos mine) _ os _ (length-wire _ f3) a8,
        unpack_lem _ default_package heap' os _ f3 (ap (λ r. r.bytes) a9),
        clear_buffer-empty _ (length-wire _ f3),
        pack_lem (request (pos mine) connection_close []) os _ f4,
        write_whole (pos theirs) _ os _ (length-wire _ f4) a11,
        a12,
        a13,
        a14,
      )
