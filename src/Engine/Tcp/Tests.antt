-- ===== src/Engine/Tcp/Tests.antt =====
-- Small runs of the acceptor.
use unix_ipc.Prelude.{map, List, ℕ, ◌+◌, ◌≡◌, ◌≢◌, refl, none, Bool, true, pos, [], ◌∷◌, arith}
use unix_ipc.Sys.{Os, Prog, ok, out_of_fuel, accepts, polls, reads, returns, gives, pure}
use unix_ipc.Engine.Buffer.{static_buffer}
use unix_ipc.Sys.Replay.{replay, value_or}
use unix_ipc.Engine.NativeSocket
use unix_ipc.Engine.Socket
use unix_ipc.Engine.Socket.{Socket, listener, usual, absent, holds}
use unix_ipc.Engine.Tcp.Listener.{get_socket}
use unix_ipc.Engine.Tcp.Multiplex.{
  Acceptor, World, TcpSession, PollFd, client_request, accepts_for, construct, run_session,
  run_handler, handle_clients_socket, handle_from, handle_at, handle_event, get_count_ready, polled,
  set_revents, polling_loop, accept_client,
}
use unix_ipc.Engine.Tcp.Multiplex.Parallel.{
  IsParallel, construct-IsParallel, polling_loop-IsParallel,
}
use unix_ipc.Engine.Tcp.Multiplex.Rounds.{handle_clients_ends}
use unix_ipc.Engine.Tcp.Multiplex.Ready.{Pair}
use unix_ipc.Engine.Tcp.Multiplex.Served.{handle_clients_socket-serve_ready}
use unix_ipc.Engine.Tcp.Receiver.{Message, take_message}
use unix_ipc.Engine.Tcp.Receiver.Gathered.{round-gathered}

-- A listener at descriptor 3, whose address is not looked at.
abbrev listening : Socket
listening = record {
  socket_ = pos 3;
  type_ = listener;
  address_ = holds (record { ip_address = none; port = 80; socket_address = [] });
}

-- A user's handler that counts its calls.
abbrev counting : Socket → ℕ → Prog (Bool × ℕ)
counting s n = pure (true, n + 1)

-- Every number has its own new acceptor.
abbrev fresh : World ℕ
fresh = record { store = λ a. construct a (record { socket_ = listening }); client = 0 }

-- The listener is ready, and accepts descriptor 5.
abbrev one_client : Os
one_client = replay (
    (polls (pos 3 ∷ []), record { result = pos 1; bytes = []; revents = 64 ∷ []; ready = [] })
    ∷ (accepts (pos 3), returns (pos 5))
    ∷ [])

abbrev served : World ℕ
served = value_or (polling_loop counting 1 3 0 fresh one_client []) fresh

polling_loop-IsParallel_example : IsParallel (served.store 0)
unfolding Socket.move polling_loop get_count_ready handle_clients_socket handle_from handle_at
    handle_event run_session run_handler accept_client construct polled set_revents Socket.accept
    NativeSocket.accept Socket.copy get_socket
polling_loop-IsParallel_example =
    polling_loop-IsParallel counting one_client 0 1 3 0 fresh served []
      (accepts (pos 3) ∷ polls (pos 3 ∷ []) ∷ []) refl
      (construct-IsParallel 0 (record { socket_ = listening }))

handle_clients_ends_example :
    (handle_clients_socket counting 3 0 1 fresh one_client []).0 ≢ out_of_fuel
unfolding construct
handle_clients_ends_example =
    handle_clients_ends counting one_client 0 (λ s c h e. cc) 3 1 fresh [] (omega arith)

-- The listener at 3 is not ready; of the clients at 5 and 6, that at 6 is.
abbrev client_at : ℕ → TcpSession
client_at fd = record {
  socket_ = record { socket_ = pos fd; type_ = usual; address_ = absent };
  request_handler_ = client_request;
}

abbrev reported : ℕ → ℕ → PollFd
reported fd revents = record { fd = pos fd; events = 64; revents = revents }

abbrev pairs : List Pair
pairs =
    (record { socket_ = listening; request_handler_ = accepts_for 0 }, reported 3 0)
    ∷ (client_at 5, reported 5 0)
    ∷ (client_at 6, reported 6 64)
    ∷ []

abbrev three_sockets : Acceptor
three_sockets = record {
  listener_socket_ = listening;
  client_poll_fd_set_ = map (λ q. q.1) pairs;
  tcp_sessions_ = map (λ q. q.0) pairs;
  listener_handler_ = accepts_for 0;
}

abbrev two_clients : World ℕ
two_clients = record { store = λ a. three_sockets; client = 7 }

handle_clients_socket-serve_ready_example :
    handle_clients_socket counting 4 0 1 two_clients one_client []
    ≡ (ok (0, record two_clients { client = 8 }), [])
handle_clients_socket-serve_ready_example =
    handle_clients_socket-serve_ready counting 0 4 pairs two_clients one_client [] (omega arith)
      ((λ e. cc), ((λ e. cc), ((λ e. refl), tt))) (refl, refl)

-- The receiver keeps "hi" of the client at 6.
abbrev says_hi : Os
says_hi = replay ((reads (pos 6) 4, gives (104 ∷ 105 ∷ [])) ∷ [])

abbrev no_messages : World (List Message)
no_messages = record { store = λ a. three_sockets; client = [] }

abbrev hi_message : Message
hi_message = ((client_at 6).socket_, record (static_buffer 4) { array = 104 ∷ 105 ∷ 0 ∷ 0 ∷ [] })

round-gathered_example :
    handle_clients_socket (take_message 4) 4 0 1 no_messages says_hi []
    ≡ (ok (0, record no_messages { client = hi_message ∷ [] }), reads (pos 6) 4 ∷ [])
unfolding Socket.copy
round-gathered_example =
    round-gathered 4 says_hi 0 4 pairs no_messages [] (omega arith)
      ((λ e. cc), ((λ e. cc), ((λ e. refl), tt))) (refl, refl)
