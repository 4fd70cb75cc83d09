-- ===== src/Fifo/Tests.antt =====
-- Runs of the programs over named pipes, on small names.
use unix_ipc.Prelude.{◌≡◌, refl, some, Bytes, pos, List, [], ◌∷◌, fill, replicate, arith, NoNul}
use unix_ipc.Sys.{Call, Reply, ok, reads, closes, sleeps, returns, gives, after}
use unix_ipc.Sys.Replay.{replay, replay-Answers}
use unix_ipc.Fifo.Package.{Package, default_package, message, serialize, deserialize, ◌>>=◌}
use unix_ipc.Fifo.Package.RoundTrip.{layout, serialize-layout, deserialize-serialize}
use unix_ipc.Fifo.Files.{read_from, read_from_waits}
use unix_ipc.Fifo.EchoServer
use unix_ipc.Fifo.EchoServer.{find, accept, session_close, initial_connections}
use unix_ipc.Fifo.EchoClient
use unix_ipc.Fifo.Session.Many.{Visit, run_script, server_visits}
use unix_ipc.Fifo.Session.Joint.{written_to, taken_from, served, asked, joint_session}
use unix_ipc.Fifo.Connections.{session_close_lem}
use unix_ipc.Fifo.Simple
use unix_ipc.Fifo.Simple.Greeting

-- "s" and "c"
abbrev server_name : Bytes
server_name = 115 ∷ []

abbrev client_name : Bytes
client_name = 99 ∷ []

nul_free : NoNul client_name
nul_free = (λ e. cc, tt)

abbrev simple_server_calls : List (Call × Reply)
simple_server_calls = Greeting.server_script server_name client_name 3 4

abbrev simple_client_calls : List (Call × Reply)
simple_client_calls = Greeting.client_script server_name client_name 3 4

client_run_example :
    Simple.Client.main 1 3 server_name client_name (replay simple_client_calls) []
    ≡ (ok (pos 0), after simple_client_calls [])
client_run_example =
    Greeting.client_run server_name client_name 3 4 0 (replay simple_client_calls) [] nul_free
      (omega arith) (replay-Answers simple_client_calls)

joint_session_example :
    let c =
      EchoClient.main 1 3 server_name client_name
        (replay (asked server_name client_name 3 4 5 6 [] [] [] [] []))
        [] in
    let s =
      EchoServer.main 2 1 2 server_name
        (replay (served server_name client_name 3 4 5 6 [] [] [] [] []))
        [] in
    (s.0 ≡ ok (pos 0))
    × (c.0 ≡ ok (pos 0))
    × (written_to (pos 6) c.1
        ≡ taken_from (replay (served server_name client_name 3 4 5 6 [] [] [] [] [])) (pos 3) s.1)
    × (written_to (pos 4) s.1
        ≡ taken_from (replay (asked server_name client_name 3 4 5 6 [] [] [] [] [])) (pos 5) c.1)
joint_session_example =
    joint_session server_name client_name 3 4 5 6 [] [] [] [] [] 0 0 0
      (replay (served server_name client_name 3 4 5 6 [] [] [] [] []))
      (replay (asked server_name client_name 3 4 5 6 [] [] [] [] [])) nul_free (omega arith)
      (replay-Answers (served server_name client_name 3 4 5 6 [] [] [] [] []))
      (replay-Answers (asked server_name client_name 3 4 5 6 [] [] [] [] []))

-- Two clients, "c" with the message "s" and "s" with the message "c".
abbrev two_visits : List Visit
two_visits =
    record { name = client_name; text = server_name; fd = pos 7; theirs = 4; heap = []; heap' = [] }
    ∷ record {
      name = server_name;
      text = client_name;
      fd = pos 8;
      theirs = 5;
      heap = [];
      heap' = [];
    }
    ∷ []

abbrev two_visits_calls : List (Call × Reply)
two_visits_calls = run_script 3 (pos 7) [] server_name two_visits

server_visits_example :
    EchoServer.main 3 1 2 server_name (replay two_visits_calls) []
    ≡ (ok (pos 0), after two_visits_calls [])
server_visits_example =
    server_visits 3 (pos 7) [] (replay two_visits_calls) server_name two_visits 3 0 [] (omega arith)
      (
        (nul_free, omega arith),
        (((λ e. cc), tt), omega arith),
        ((((λ e. cc), tt), omega arith), (nul_free, omega arith), tt),
      )
      (replay-Answers two_visits_calls)

-- "hi" as a message of descriptor 7.
abbrev hi : Package
hi = record { type_ = message; data_ = 104 ∷ 105 ∷ []; fd_ = pos 7 }

abbrev small_buffer : Bytes
small_buffer = replicate 16 9

serialize-layout_example : serialize hi small_buffer ≡ some (layout hi (9 ∷ 9 ∷ []))
serialize-layout_example = serialize-layout hi small_buffer

deserialize-serialize_example :
    (serialize hi small_buffer >>= deserialize (33 ∷ 0 ∷ []) default_package)
    ≡ some (record default_package { data_ = 104 ∷ 105 ∷ 33 ∷ [] })
deserialize-serialize_example =
    deserialize-serialize (33 ∷ 0 ∷ []) (33 ∷ []) small_buffer hi default_package tt (ground arith)
      (omega arith) (omega arith) refl

-- Of two entries with the same descriptor the first goes.
session_close_lem_example :
    (session_close (pos 4) (pos 3 ∷ []) (replay []) [] ≡ (ok (pos 3 ∷ []), []))
    × (session_close (pos 4) (pos 3 ∷ pos 4 ∷ pos 5 ∷ pos 4 ∷ []) (replay []) []
        ≡ (ok (pos 3 ∷ pos 5 ∷ pos 4 ∷ []), closes (pos 4) ∷ []))
session_close_lem_example =
    session_close_lem (pos 4) (pos 3 ∷ []) (pos 5 ∷ pos 4 ∷ []) (replay []) [] ((λ e. cc), tt)

-- One empty read, then "hi".
abbrev late_calls : List (Call × Reply)
late_calls =
    (reads (pos 3) 2, returns (pos 0))
    ∷ (sleeps 1, returns (pos 0))
    ∷ (reads (pos 3) 2, gives (104 ∷ 105 ∷ []))
    ∷ []

read_from_waits_example :
    read_from 2 (pos 3) (0 ∷ 0 ∷ []) (replay late_calls) []
    ≡ (ok (fill (0 ∷ 0 ∷ []) (104 ∷ 105 ∷ [])), reads (pos 3) 2 ∷ sleeps 1 ∷ reads (pos 3) 2 ∷ [])
read_from_waits_example =
    read_from_waits 1 2 (pos 3) (0 ∷ 0 ∷ []) (replay late_calls) [] (omega arith) (refl, refl, tt)
      (ground arith)
