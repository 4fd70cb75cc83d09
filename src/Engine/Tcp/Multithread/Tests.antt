-- ===== src/Engine/Tcp/Multithread/Tests.antt =====
-- Two clients of the multithread server.
use unix_ipc.Prelude.{
  arith, fill, ℤ, List, ℕ, ◌≡◌, refl, true, some, none, pos, [], ◌∷◌, ◌++◌, replicate, set, Bytes,
  store_at, load_at,
}
use unix_ipc.Sys.{
  after, Call, Reply, ok, reads, writes, prints, formats_address, accepts, returns, gives,
}
use unix_ipc.Sys.Replay.{value_or, replay, replay-Answers}
use unix_ipc.Engine.Address
use unix_ipc.Engine.Address.{SocketAddress, Statics, initial_statics}
use unix_ipc.Engine.Buffer.{static_buffer}
use unix_ipc.Engine.IoOperations.{read_from}
use unix_ipc.Engine.NativeSocket
use unix_ipc.Engine.Socket
use unix_ipc.Engine.Socket.{Socket, listener, usual, absent, holds}
use unix_ipc.Engine.Tcp.Listener.{TcpListener, get_socket}
use unix_ipc.Engine.Tcp.Multithread.{
  Session, Acceptor, make, create_new_tcp_session_thread, accepts_client, session_calls, Reach,
  begin, later, own,
}
use unix_ipc.Engine.Tcp.Multithread.Accepted.{accepted, descriptors, Reach-accepted}
use unix_ipc.Engine.Tcp.Multithread.Echo.{receiving, answer, echo, receive, handle}
use unix_ipc.Engine.Tcp.Multithread.Confined.{AllUse, session-AllUse}
use unix_ipc.Engine.Tcp.Multithread.Returned.{Returns, session-Returns}
use unix_ipc.Engine.Tcp.Multithread.Talk.{known, conversation, handle_lem}
use unix_ipc.Servers.Request.{stop}

abbrev tcp_listener : TcpListener
tcp_listener = record { socket_ = record { socket_ = pos 3; type_ = listener; address_ = absent } }

abbrev waits : Acceptor echo
waits = make echo initial_statics tcp_listener

-- The socket that `accept` makes of a reply.
abbrev client_of : Reply → Socket
client_of r = value_or (Socket.accept tcp_listener.socket_ (λ _ _. r) []) tcp_listener.socket_

-- The acceptor after a client, and after a call of the `i`-th thread.
abbrev with_client : ℕ → Acceptor echo → Acceptor echo
with_client fd a = record a {
  tcp_sessions_ = create_new_tcp_session_thread echo (client_of (returns (pos fd))) a.tcp_sessions_;
  trace = (none, accepts (pos 3), returns (pos fd)) ∷ a.trace;
}

abbrev turned : Acceptor echo → Session echo → Reply → Session echo
turned a t r = record t { state = (answer t.state a.shared r).0 }

abbrev with_call : ℕ → Session echo → Call → Reply → Acceptor echo → Acceptor echo
with_call i t c r a = record a {
  tcp_sessions_ = set a.tcp_sessions_ i (turned a t r);
  shared = (answer t.state a.shared r).1;
  trace = (some i, c, r) ∷ a.trace;
}

abbrev session : ℕ → Session echo
session fd = record {
  client_socket_ = client_of (returns (pos fd));
  state = receiving (client_of (returns (pos fd)));
}

abbrev both : Acceptor echo
both = with_client 5 (with_client 4 waits)

both-Reach : Reach echo waits both
unfolding make get_socket Socket.copy Socket.move Socket.accept NativeSocket.accept
both-Reach =
    later (later begin (accepts_client (returns (pos 4)) refl))
      (accepts_client (returns (pos 5)) refl)

-- The second client says "stop", the first says "hi", and the second has its answer.
abbrev hello : Bytes
hello = 104 ∷ 105 ∷ []

-- "1", with its NUL
abbrev one : Bytes
one = 49 ∷ 0 ∷ []

abbrev sent_back : Bytes
sent_back = stop ++ replicate 1018 0

abbrev stopped : Acceptor echo
stopped = with_call 1 (session 5) (reads (pos 5) 1024) (gives stop) both

abbrev heard : Acceptor echo
heard = with_call 0 (session 4) (reads (pos 4) 1024) (gives hello) stopped

abbrev to_show : Session echo
to_show = turned both (session 5) (gives stop)

abbrev showed : Acceptor echo
showed = with_call 1 to_show (prints stop) (returns (pos 0)) heard

abbrev to_ask : Session echo
to_ask = turned heard to_show (returns (pos 0))

abbrev asked : Acceptor echo
asked = with_call 1 to_ask (formats_address (replicate 4 0)) (gives one) showed

abbrev to_name : Session echo
to_name = turned showed to_ask (gives one)

abbrev named : Acceptor echo
named = with_call 1 to_name (prints (49 ∷ [])) (returns (pos 0)) asked

abbrev to_answer : Session echo
to_answer = turned asked to_name (returns (pos 0))

abbrev ended : Acceptor echo
ended = with_call 1 to_answer (writes (pos 5) sent_back) (returns (pos 1024)) named

ended-Reach : Reach echo waits ended
unfolding make get_socket Socket.copy Socket.move Socket.accept NativeSocket.accept answer receive
    Socket.read read_from static_buffer create_new_tcp_session_thread Socket.of_fd store_at load_at
    initial_statics Address.of_sockaddr fill
ended-Reach =
    later
      (later
        (later
          (later
            (later (later both-Reach (session_calls 1 (gives stop) {t = session 5} refl refl))
              (session_calls 0 (gives hello) {t = session 4} refl refl))
            (session_calls 1 (returns (pos 0)) {t = to_show} refl refl))
          (session_calls 1 (gives one) {t = to_ask} refl refl))
        (session_calls 1 (returns (pos 0)) {t = to_name} refl refl))
      (session_calls 1 (returns (pos 1024)) {t = to_answer} refl refl)

abbrev gone : Session echo
gone = turned named to_answer (returns (pos 1024))

session-Returns_example : Returns (own echo 1 ended.trace)
unfolding create_new_tcp_session_thread Socket.move make
session-Returns_example = session-Returns initial_statics tcp_listener ended 1 gone ended-Reach refl

session-AllUse_example : AllUse (pos 5) (own echo 1 ended.trace)
unfolding create_new_tcp_session_thread Socket.move Socket.accept NativeSocket.accept Socket.of_fd
    make
session-AllUse_example = session-AllUse initial_statics tcp_listener ended 1 gone ended-Reach refl

Reach-accepted_example : descriptors echo ended.tcp_sessions_ ≡ accepted ended.trace
Reach-accepted_example = Reach-accepted echo initial_statics tcp_listener ended ended-Reach

-- The client says "hi" and "stop".
abbrev hi : List (Bytes × ℤ)
hi = (104 ∷ 105 ∷ [], pos 1024) ∷ []

-- The address of a client, all zeros.
abbrev unknown : SocketAddress
unknown = record { ip_address = none; port = 0; socket_address = replicate 16 0 }

abbrev client : Socket
client = record { socket_ = pos 5; type_ = usual; address_ = holds unknown }

abbrev hi_calls : List (Call × Reply)
hi_calls = conversation unknown one (pos 5) initial_statics (49 ∷ []) hi (pos 1024)

handle_lem_example :
    handle 2 client initial_statics (replay hi_calls) []
    ≡ (ok (true, known unknown one initial_statics), after hi_calls [])
unfolding initial_statics fill
handle_lem_example =
    handle_lem unknown one (49 ∷ []) 2 client initial_statics hi (pos 1024) (replay hi_calls) []
      refl refl ((ground arith, omega arith, omega arith), refl, tt) (omega arith)
      (replay-Answers hi_calls)
