-- ===== src/Engine/Tcp/Multiplex.antt =====
-- socket/external/engine/net_api/acceptor/multiplex_acceptor. A handler of the listener holds
-- references to the two vectors of one acceptor, so the acceptors stand in a store and a handler
-- names the one that it refers to. The handler of client requests is the user's: it is a
-- parameter, a program that may change data of its own. (That the vectors may reallocate while
-- one of their elements runs is left out.)
mod Session
pub mod Moves
pub mod Invariant
pub mod Parallel
pub mod Rounds
pub mod Quiet
pub mod Ready
pub mod Served
use unix_ipc.Prelude.{
  ℕ, zero, suc, ◌+◌, ◌-◌, Bool, true, false, ◌&&◌, Option, none, some, Bytes, ℤ, is_neg, to_size,
  List, [], ◌∷◌, ◌++◌, map, length, get_elem?, ltb, ◌==◌, if◌then◌else◌,
}
use unix_ipc.Sys.{
  polls, poll_failed, out_of_bounds, Prog, Reply, pure, throw, or_fault, spent, skip, call, resume,
  ◌>>=◌, ◌>>◌,
}
use unix_ipc.Engine.Socket
use unix_ipc.Engine.Socket.{Socket}
use unix_ipc.Engine.Tcp.Listener.{TcpListener, get_socket}
pub use Session.{Handler, accepts_for, client_request, TcpSession}

-- `POLLRDNORM` of Linux.
abbrev pub pollrdnorm : ℕ
pollrdnorm = 64

pub record PollFd : Type 0 where
  pub fd : ℤ
  pub events : ℕ
  pub revents : ℕ

abbrev pub poll_fd : ℤ → PollFd
poll_fd fd = record { fd = fd; events = pollrdnorm; revents = 0 }

pub record Acceptor : Type 0 where
  pub listener_socket_ : Socket
  pub client_poll_fd_set_ : List PollFd
  pub tcp_sessions_ : List TcpSession
  pub listener_handler_ : Handler

-- The acceptors by their number, and the data of the user's handler.
pub record World (C : Type 0) : Type 0 where
  pub store : ℕ → Acceptor
  pub client : C

abbrev pub update : (ℕ → Acceptor) → ℕ → Acceptor → ℕ → Acceptor
update f a x b = if b == a then x else f b

-- `TcpMultiplexAcceptor(TcpListener &&, ClientRequestHandler)` at number `a`.
unfoldable pub construct : ℕ → TcpListener → Acceptor
construct a l = record {
  listener_socket_ = get_socket l;
  client_poll_fd_set_ = poll_fd (Socket.fd (get_socket l)) ∷ [];
  tcp_sessions_ = Session.make (get_socket l) (accepts_for a) ∷ [];
  listener_handler_ = accepts_for a;
}

-- `tcpSessions_[0].setRequestHandler(handler)`; `none` where there is no session.
unfoldable pub set_first_handler : Handler → List TcpSession → Option (List TcpSession)
set_first_handler handler [] = none
set_first_handler handler (s ∷ ss) = some (Session.set_request_handler s handler ∷ ss)

abbrev pub left_behind : Acceptor → Acceptor
left_behind x = record x {
  listener_socket_ = (Socket.move x.listener_socket_).1;
  client_poll_fd_set_ = [];
  tcp_sessions_ = [];
}

-- The move constructor: number `a` is made of number `b`.
unfoldable pub move_construct : (ℕ → Acceptor) → ℕ → ℕ → Prog (ℕ → Acceptor)
move_construct f a b = do
  rebound ← or_fault (set_first_handler (accepts_for a) (f b).tcp_sessions_) out_of_bounds
  let x : Acceptor = record {
    listener_socket_ = (Socket.move (f b).listener_socket_).0;
    client_poll_fd_set_ = (f b).client_poll_fd_set_;
    tcp_sessions_ = rebound;
    listener_handler_ = accepts_for a;
  }
  pure (update (update f b (left_behind (f b))) a x)

-- The move assignment, which leaves the sessions' handlers as they are.
unfoldable pub move_assign : (ℕ → Acceptor) → ℕ → ℕ → (ℕ → Acceptor)
move_assign f a b = update (update f b (left_behind (f b))) a (record (f b) {
  listener_socket_ = (Socket.move_assign (f a).listener_socket_ (f b).listener_socket_).0;
  listener_handler_ = accepts_for a;
})

-- The destructor closes every session in order.
unfoldable pub close_all : List TcpSession → Prog (Unit {0})
close_all [] = skip
close_all (s ∷ ss) = Session.close s >> close_all ss

-- What `poll` leaves in the vector: one value for each entry.
unfoldable pub set_revents : List PollFd → List ℕ → List PollFd
set_revents [] rs = []
set_revents (p ∷ ps) [] = p ∷ ps
set_revents (p ∷ ps) (r ∷ rs) = record p { revents = r } ∷ set_revents ps rs

unfoldable pub polled : Acceptor → List ℕ → Acceptor
unfolding set_revents
polled x revents = record x { client_poll_fd_set_ = set_revents x.client_poll_fd_set_ revents }

-- The two push-backs of `TcpListenerRequestHandler::operator()`.
unfoldable pub push_client : Acceptor → Socket → Acceptor
push_client x client = record x {
  client_poll_fd_set_ = x.client_poll_fd_set_ ++ poll_fd (Socket.fd client) ∷ [];
  tcp_sessions_ = x.tcp_sessions_ ++ Session.make client client_request ∷ [];
}

unfoldable pub get_count_ready : {C : Type 0} → ℕ → World C → Prog (ℕ × World C)
get_count_ready a w = do
  let x = w.store a
  r ← call (polls (map (λ p. p.fd) x.client_poll_fd_set_))
  if is_neg r.result
      then throw poll_failed
      else pure (to_size r.result, record w { store = update w.store a (polled x r.revents) })

module _ {C : Type 0} (handle : Socket → C → Prog (Bool × C)) where
  unfoldable pub accept_client : ℕ → Socket → World C → Prog (Bool × World C)
  accept_client a listener_socket w = do
    client ← Socket.accept listener_socket
    pure (true, record w { store = update w.store a (push_client (w.store a) client) })

  unfoldable pub run_handler : Handler → Socket → World C → Prog (Bool × World C)
  unfolding accept_client
  run_handler (accepts_for a) socket w = accept_client a socket w
  run_handler client_request socket w = do
    (result, c) ← handle socket w.client
    pure (result, record w { client = c })

  -- `TcpSession::operator()` hands its handler a copy of the socket.
  unfoldable pub run_session : TcpSession → World C → Prog (Bool × World C)
  unfolding run_handler
  run_session s w = run_handler s.request_handler_ (Socket.copy s.socket_) w

  unfoldable pub handle_event : TcpSession → PollFd → ℕ → World C → Prog (ℕ × World C)
  unfolding run_session
  handle_event s p ready_count w =
      if p.revents == pollrdnorm
      then (do (result, w') ← run_session s w; pure (ready_count - 1, w'))
      else pure (ready_count, w)

  -- One round of the loop at index `i`.
  unfoldable pub handle_at : ℕ → ℕ → ℕ → World C → Prog (ℕ × World C)
  unfolding handle_event
  handle_at a i ready_count w = do
    s ← or_fault (get_elem? (w.store a).tcp_sessions_ i) out_of_bounds
    p ← or_fault (get_elem? (w.store a).client_poll_fd_set_ i) out_of_bounds
    handle_event s p ready_count w

  -- The rounds of `handleClientsSocket` from index `i` on.
  unfoldable pub handle_from : ℕ → ℕ → ℕ → ℕ → World C → Prog (ℕ × World C)
  unfolding handle_at
  handle_from zero a i ready_count w = spent
  handle_from (suc fuel) a i ready_count w =
      let rest = (do
        (left, w') ← handle_at a i ready_count w
        handle_from fuel a (i + 1) left w') in
      if ltb 0 ready_count && ltb i (length (w.store a).tcp_sessions_)
      then rest
      else pure (ready_count, w)

  unfoldable pub handle_clients_socket : ℕ → ℕ → ℕ → World C → Prog (ℕ × World C)
  unfolding handle_from
  handle_clients_socket fuel a ready_count w = handle_from fuel a 0 ready_count w

  -- `rounds` of the endless `pollingLoop`; a round has at most `fuel` sessions to look at.
  unfoldable pub polling_loop : ℕ → ℕ → ℕ → World C → Prog (World C)
  unfolding get_count_ready handle_clients_socket
  polling_loop zero fuel a w = pure w
  polling_loop (suc rounds) fuel a w = do
    (ready_count, polled) ← get_count_ready a w
    (left, w') ← handle_clients_socket fuel a ready_count polled
    polling_loop rounds fuel a w'
