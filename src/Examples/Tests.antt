-- ===== src/Examples/Tests.antt =====
-- Small runs of the example programs.
use unix_ipc.Prelude.{
  ◌≤◌, refl, pos, List, [], ◌∷◌, length, ◌==◌, if◌then◌else◌, store_at, load_at, fill,
}
use unix_ipc.Sys.{Os, makes_socket, accepts, polls, reads, reads_word, returns, gives}
use unix_ipc.Sys.Replay.{value_or}
use unix_ipc.Engine.Address.{
  Statics, of_ip, fell_address, get_family, get_type, get_address, get_address_str, evaluate, view,
  initial_statics,
}
use unix_ipc.Engine.Buffer
use unix_ipc.Engine.Buffer.{static_buffer}
use unix_ipc.Engine.IoOperations.{read_from, write_to}
use unix_ipc.Engine.NativeSocket
use unix_ipc.Engine.Socket
use unix_ipc.Engine.Socket.{usual, listener, absent}
use unix_ipc.Engine.Tcp.Listener.{of_address, init_socket, get_socket}
use unix_ipc.Engine.Tcp.Sender.{TcpSender, send}
use unix_ipc.Engine.Tcp.Multiplex.{
  World, construct, move_construct, set_first_handler, polled, set_revents, push_client,
  get_count_ready, accept_client, run_handler, run_session, handle_event, handle_at, handle_from,
  handle_clients_socket, polling_loop,
}
use unix_ipc.Engine.Tcp.Multiplex.Parallel.{AllParallel}
use unix_ipc.Engine.Tcp.Receiver.{Message, receive, take_message}
use unix_ipc.Examples.{address_text}
use unix_ipc.Examples.TcpSender.{send_word, send_words, Silent, send_words-Silent}
use unix_ipc.Examples.TcpReceiver.{await, await_lem}
use unix_ipc.Examples.MultiplexServer
use unix_ipc.Examples.MultiplexServer.{make_acceptor}
use unix_ipc.Examples.MultiplexServer.Started.{main-AllParallel}

-- The user types "hi", and what is read is "hi"; the listener is ready first, and its one client
-- ever after.
abbrev says_hi : Os
says_hi h (makes_socket family type) = returns (pos 3)
says_hi h (accepts l) = returns (pos 5)
says_hi h reads_word = gives (104 ∷ 105 ∷ [])
says_hi h (reads fd size) = gives (104 ∷ 105 ∷ [])
says_hi h (polls fds) = record {
  result = pos 1;
  bytes = [];
  revents = if length fds == 1 then 64 ∷ [] else 0 ∷ 64 ∷ [];
  ready = [];
}
says_hi h c = returns (pos 0)

abbrev sender : TcpSender
sender = record { socket_ = record { socket_ = pos 4; type_ = usual; address_ = absent } }

send_words-Silent_example : Silent (send_words 2 sender says_hi []).1
unfolding send_words send_word Buffer.write Buffer.copy Buffer.copy_from Buffer.copy_byte
    static_buffer send Socket.write write_to load_at
send_words-Silent_example =
    send_words-Silent 2 sender says_hi [] (send_words 2 sender says_hi []).1 refl tt

abbrev empty : World (List Message)
empty = record { store = λ a. construct a (record { socket_ = sender.socket_ }); client = [] }

abbrev five : World (List Message)
five = value_or (await 6 3 80 says_hi []) empty

await_lem_example : (5 ≤ length five.client) × AllParallel five
unfolding await of_ip fell_address get_family get_type get_address of_address init_socket receive
    take_message get_count_ready handle_clients_socket handle_from handle_at handle_event
    run_session run_handler accept_client push_client construct polled set_revents Socket.make
    Socket.bind Socket.make_listening_queue Socket.accept Socket.read Socket.move Socket.copy
    Socket.of_fd NativeSocket.make_socket NativeSocket.bind_socket NativeSocket.make_listen_queue
    NativeSocket.accept get_socket read_from static_buffer store_at
await_lem_example = await_lem 6 3 80 five says_hi [] (await 6 3 80 says_hi []).1 refl

abbrev served : World Statics
served =
    value_or (MultiplexServer.main 1 3 2 80 says_hi [])
      (record { store = empty.store; client = initial_statics })

main-AllParallel_example : AllParallel served
unfolding MultiplexServer.main make_acceptor address_text get_address_str evaluate view
    initial_statics of_ip fell_address get_family get_type get_address of_address init_socket
    polling_loop get_count_ready handle_clients_socket handle_from handle_at handle_event
    run_session run_handler accept_client push_client construct move_construct set_first_handler
    polled set_revents Socket.make Socket.bind Socket.make_listening_queue Socket.accept Socket.move
    Socket.copy Socket.of_fd NativeSocket.make_socket NativeSocket.bind_socket
    NativeSocket.make_listen_queue NativeSocket.accept get_socket store_at fill
main-AllParallel_example =
    main-AllParallel 1 3 2 80 served says_hi (MultiplexServer.main 1 3 2 80 says_hi []).1 refl
