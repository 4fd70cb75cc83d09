-- ===== src/Engine/Tcp/Multithread.antt =====
-- socket/external/engine/net_api/acceptor/multithread_acceptor: one thread accepts, and each
-- client has a detached thread of its own. The threads run interleaved in any order, a call at a
-- time, with any reply. What a session's thread does is the handler's, which is an interface: a
-- state, the next call it makes, and what it makes of the reply, where both may depend on memory that
-- all threads share. (Threads that use it at once have a data race; here each does so at a call.)
pub mod Isolation
pub mod Accepted
pub mod Echo
pub mod Confined
pub mod Returned
pub mod Talk
mod Tests
use unix_ipc.Prelude.{
  ℕ, zero, suc, ◌≡◌, Bool, Option, none, some, ℤ, List, [], ◌∷◌, ◌++◌, get_elem?, set, ◌==◌,
  if◌then◌else◌,
}
use unix_ipc.Sys.{Call, Reply, Outcome, ok}
use unix_ipc.Engine.Socket
use unix_ipc.Engine.Socket.{Socket}
use unix_ipc.Engine.Tcp.Listener.{TcpListener, get_socket}

-- `ClientRequestHandler`, as a machine with shared memory `G`; `next` is `none` where it has
-- returned.
pub record Handler (S G : Type 0) : Type 0 where
  pub start : Socket → S
  pub next : S → G → Option Call
  pub answer : S → G → Reply → S × G

-- The threads' calls, newest first: `none` is the accepting thread, `some i` the `i`-th session.
abbrev pub Event : Type 0
Event = Option ℕ × Call × Reply

module _ {S G : Type 0} (handler : Handler S G) where
  -- `TcpSession` with how far its thread is.
  pub record Session : Type 0 where
    pub client_socket_ : Socket
    pub state : S

  pub record Acceptor : Type 0 where
    pub listener_socket_ : Socket
    pub tcp_sessions_ : List Session
    pub shared : G
    pub trace : List Event

  -- The constructor.
  unfoldable pub make : G → TcpListener → Acceptor
  make shared tcp_listener_socket = record {
    listener_socket_ = (Socket.move (get_socket tcp_listener_socket)).0;
    tcp_sessions_ = [];
    shared = shared;
    trace = [];
  }

  -- `createNewTcpSessionThread`: the session is made of the client's socket by a move, the thread
  -- of the session by another, and `operator()` hands the handler a copy.
  unfoldable pub create_new_tcp_session_thread : Socket → List Session → List Session
  create_new_tcp_session_thread client_socket sessions =
      let tcp_session : Socket = (Socket.move client_socket).0 in
      let task : Socket = (Socket.move tcp_session).0 in
      sessions ++ record { client_socket_ = task; state = handler.start (Socket.copy task) } ∷ []

  pub data Step (a : Acceptor) : Acceptor → Type 0 where
    -- A round of `pollingLoop`.
    accepts_client :
        (r : Reply) {client : Socket} {c : Call}
        → Socket.accept a.listener_socket_ (λ _ _. r) [] ≡ (ok client, c ∷ [])
        → Step a (record a {
          tcp_sessions_ = create_new_tcp_session_thread client a.tcp_sessions_;
          trace = (none, c, r) ∷ a.trace;
        })
    -- A call of a session's thread.
    session_calls :
        (i : ℕ) (r : Reply) {t : Session} {c : Call}
        → get_elem? a.tcp_sessions_ i ≡ some t
        → handler.next t.state a.shared ≡ some c
        → Step a (record a {
          tcp_sessions_ =
              set a.tcp_sessions_ i (record t { state = (handler.answer t.state a.shared r).0 });
          shared = (handler.answer t.state a.shared r).1;
          trace = (some i, c, r) ∷ a.trace;
        })

  pub data Reach (a : Acceptor) : Acceptor → Type 0 where
    begin : Reach a a
    later : {b c : Acceptor} → Reach a b → Step b c → Reach a c

  -- The calls of session `i` alone, newest first.
  abbrev pub own : ℕ → List Event → List (Call × Reply)
  own i [] = []
  own i ((none, c, r) ∷ trace) = own i trace
  own i ((some j, c, r) ∷ trace) = if i == j then (c, r) ∷ own i trace else own i trace

  -- The handler makes these calls, newest first, with these replies, and finds something in the shared
  -- memory at each.
  abbrev pub Ran : S → List (Call × Reply) → S → Type 0
  Ran s [] t = t ≡ s
  Ran s ((c, r) ∷ calls) t =
      (u : S) × (g : G) × Ran s calls u
      × (handler.next u g ≡ some c)
      × (t ≡ (handler.answer u g r).0)
