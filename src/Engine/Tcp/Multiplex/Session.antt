-- ===== src/Engine/Tcp/Multiplex/Session.antt =====
-- `TcpMultiplexAcceptor::TcpSession` and the kinds of handler that a session has.
use unix_ipc.Prelude.{ℕ}
use unix_ipc.Sys.{Prog}
use unix_ipc.Engine.Socket
use unix_ipc.Engine.Socket.{Socket}

-- `accepts_for a` is the listener's handler over the vectors of acceptor `a`.
pub data Handler : Type 0 where
  accepts_for : ℕ → Handler
  client_request : Handler

pub record TcpSession : Type 0 where
  pub socket_ : Socket
  pub request_handler_ : Handler

-- The constructor takes what the socket holds. `handler` is copied.
abbrev pub make : Socket → Handler → TcpSession
make socket handler = record { socket_ = (Socket.move socket).0; request_handler_ = handler }

-- The move constructor and the move assignment.
abbrev pub move : TcpSession → TcpSession
move other = record {
  socket_ = (Socket.move other.socket_).0;
  request_handler_ = other.request_handler_;
}

abbrev pub move_assign : TcpSession → TcpSession → TcpSession
move_assign s other = record s {
  socket_ = (Socket.move_assign s.socket_ other.socket_).0;
  request_handler_ = other.request_handler_;
}

abbrev pub close : TcpSession → Prog (Unit {0})
close s = Socket.close s.socket_

abbrev pub set_request_handler : TcpSession → Handler → TcpSession
set_request_handler s handler = record s { request_handler_ = handler }
