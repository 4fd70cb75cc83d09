-- ===== src/Engine/Tcp/Receiver/Gathered.antt =====
-- socket/external/engine/net_api/receiver/tcp_receiver.h: the messages that a round adds.
use unix_ipc.Prelude.{
  ℕ, ◌≡◌, ◌<◌, sym, ap, ◌∙◌, inl, inr, List, [], ◌∷◌, ◌++◌, length, if◌then◌else◌, append_assoc,
  append-nil, Bool-cases,
}
use unix_ipc.Sys.{Call, Os, ok, reads, resume}
use unix_ipc.Engine.Buffer.{static_buffer}
use unix_ipc.Engine.Socket
use unix_ipc.Engine.Socket.{Socket}
use unix_ipc.Engine.Tcp.Multiplex.{World, handle_clients_socket}
use unix_ipc.Engine.Tcp.Multiplex.Ready.{
  Pair, is_ready, ready_count, AllClients, Holds, serve_ready, finish,
}
use unix_ipc.Engine.Tcp.Multiplex.Served.{handle_clients_socket-serve_ready}
use unix_ipc.Engine.Tcp.Receiver.{Message, take_message, take_message_lem, received}

module _ (capacity : ℕ) (os : Os) where
  -- The message of a session whose `read` comes after the history `h`.
  abbrev pub message_of : Pair → List Call → Message
  message_of q h = (
    Socket.copy q.0.socket_,
    record (static_buffer capacity) {
      array = received capacity (os h (reads (Socket.copy q.0.socket_).socket_ capacity)).bytes;
    },
  )

  abbrev pub read_of : Pair → Call
  read_of q = reads (Socket.copy q.0.socket_).socket_ capacity

  -- One message for each ready session, in their order, and the calls that get them.
  abbrev pub gathered : List Pair → List Call → List Message
  gathered [] h = []
  gathered (q ∷ qs) h =
      if is_ready q then message_of q h ∷ gathered qs (read_of q ∷ h) else gathered qs h

  abbrev pub gathering : List Pair → List Call → List Call
  gathering [] h = h
  gathering (q ∷ qs) h = if is_ready q then gathering qs (read_of q ∷ h) else gathering qs h

  serve_ready-gathered :
      (qs : List Pair) (messages : List Message) (h : List Call)
      → serve_ready (take_message capacity) qs messages os h
        ≡ (ok (messages ++ gathered qs h), gathering qs h)
  serve_ready-gathered [] messages h = ap (λ ms. (ok ms, h)) (sym (append-nil messages))
  serve_ready-gathered (q ∷ qs) messages h = elim (Bool-cases (is_ready q)) [
    | inr n ↦ rw n (serve_ready-gathered qs messages h)
    | inl y ↦
        rw (y, take_message_lem capacity (Socket.copy q.0.socket_) messages os h)
          (serve_ready-gathered qs (messages ++ message_of q h ∷ []) (read_of q ∷ h)
            ∙ ap (λ ms. (ok ms, gathering qs (read_of q ∷ h)))
                (append_assoc messages (message_of q h ∷ []) (gathered qs (read_of q ∷ h))))
  ]

  -- Where the two vectors of the receiver's acceptor pair sessions with entries of the poll set,
  -- the ready ones, with exactly POLLRDNORM reported, are sessions of clients, the ready count is
  -- their number and the fuel is more than the pairs, a round, whatever its reads are answered,
  -- returns: it reads each ready session once, in their order, keeps after the messages of before
  -- one for each, with its socket, the bytes that came and zeros after them, and makes no other
  -- call.
  pub round-gathered :
      (a fuel : ℕ) (qs : List Pair) (w : World (List Message)) (h : List Call)
      → length qs < fuel
      → AllClients qs
      → Holds (take_message capacity) a w qs
      → handle_clients_socket (take_message capacity) fuel a (ready_count qs) w os h
        ≡ (ok (0, record w { client = w.client ++ gathered qs h }), gathering qs h)
  round-gathered a fuel qs w h l c e =
      handle_clients_socket-serve_ready (take_message capacity) a fuel qs w os h l c e
      ∙ ap (λ r. resume r.0 (finish (take_message capacity) w) os r.1)
          (serve_ready-gathered qs w.client h)
