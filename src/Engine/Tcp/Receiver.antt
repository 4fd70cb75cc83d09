-- ===== src/Engine/Tcp/Receiver.antt =====
-- socket/external/engine/net_api/receiver/tcp_receiver.h: an acceptor whose handler of client
-- requests keeps what it reads. The receiver's messages are the data of the handler.
-- (`setSenderCount` resizes a vector of messages, which have no default value, so it cannot be
-- instantiated.)
pub mod Gathered
use unix_ipc.Prelude.{
  ℕ, zero, suc, ◌-◌, ◌≤◌, ◌≡◌, refl, ap, subst, ◌∙◌, sym, Bool, true, false, some, Bytes, List, [],
  ◌∷◌, ◌++◌, length, ltb, to_size, if◌then◌else◌, take, drop, replicate, length-take,
  length-replicate, store_at, store_at-append, append_assoc, append-nil, arith, Bool-cases, inl,
  inr,
}
use unix_ipc.Sys.{Call, Os, ok, reads, Prog, pure, spent, >>=-eq-ok, pure-eq-ok, ◌>>=◌}
use unix_ipc.Engine.IoOperations.{read_from}
use unix_ipc.Engine.Buffer.{Buffer, static_buffer}
use unix_ipc.Engine.Socket
use unix_ipc.Engine.Socket.{Socket}
use unix_ipc.Engine.Tcp.Listener.{TcpListener}
use unix_ipc.Engine.Tcp.Multiplex.{
  construct, World, Handler, accepts_for, client_request, update, polled, run_handler, run_session,
  accept_client, push_client, get_count_ready, handle_clients_socket,
}
use unix_ipc.Engine.Tcp.Multiplex.Invariant.{round-keeps}
use unix_ipc.Engine.Tcp.Multiplex.Parallel.{
  AllParallel, run_session-IsParallel, set_revents-IsParallel,
}

abbrev pub Message : Type 0
Message = Socket × Buffer

-- The handler of the constructor, for messages of `capacity` bytes.
unfoldable pub take_message : ℕ → Socket → List Message → Prog (Bool × List Message)
take_message capacity socket messages = do
  (result, buffer) ← Socket.read socket (static_buffer capacity) capacity
  pure (true, messages ++ (Socket.copy socket, buffer) ∷ [])

-- The constructor: the acceptor has number 0, and no other number is used. (`reserve` changes no
-- message.)
abbrev pub make : TcpListener → World (List Message)
make listener = record { store = λ a. construct a listener; client = [] }

-- `receive`, for at most `rounds` polls of acceptor `a`.
unfoldable pub receive : ℕ → ℕ → ℕ → ℕ → ℕ → World (List Message) → Prog (World (List Message))
unfolding take_message
receive capacity zero fuel a expected w = spent
receive capacity (suc rounds) fuel a expected w = do
  (ready_count, polled) ← get_count_ready a w
  (left, w') ← handle_clients_socket (take_message capacity) fuel a ready_count polled
  let again = receive capacity rounds fuel a expected w'
  if ltb (length w'.client) expected then again else pure w'

-- What a message holds: the bytes that came, then zeros.
abbrev pub received : ℕ → Bytes → Bytes
received capacity bytes =
    take capacity bytes ++ replicate (capacity - length (take capacity bytes)) 0

drop-zeros : (k n : ℕ) → drop {A = ℕ} k (replicate n 0) ≡ replicate (n - k) 0
drop-zeros zero n = let e : n ≡ n - 0 = omega arith in ap (λ j. replicate {A = ℕ} j 0) e
drop-zeros (suc k) zero = let e : 0 ≡ 0 - suc k = omega arith in ap (λ j. replicate {A = ℕ} j 0) e
drop-zeros (suc k) (suc n) =
    let e : n - k ≡ suc n - suc k = omega arith in
    drop-zeros k n ∙ ap (λ j. replicate {A = ℕ} j 0) e

pub stored :
    (n : ℕ) (bytes : Bytes) → store_at (replicate n 0) 0 (take n bytes) ≡ some (received n bytes)
stored n bytes =
    store_at-append 0 [] (replicate n 0) (take n bytes) refl
      (omega (arith, length-take n bytes, length-replicate {A = ℕ} n 0))
    ∙ ap (λ zs. some (take n bytes ++ zs)) (drop-zeros (length (take n bytes)) n)

-- Each event of a client adds one message at the end, with the bytes that came and zeros after
-- them, whatever `read` returned.
pub take_message_lem :
    (capacity : ℕ) (s : Socket) (messages : List Message) (os : Os) (h : List Call)
    → take_message capacity s messages os h ≡ (
      ok (
        true,
        messages
            ++ (
              s,
              record (static_buffer capacity) {
                array = received capacity (os h (reads s.socket_ capacity)).bytes;
              },
            )
              ∷ [],
      ),
      reads s.socket_ capacity ∷ h,
    )
unfolding take_message Socket.read static_buffer read_from Socket.copy
take_message_lem capacity s messages os h =
    let z : ltb (to_size (os h (reads s.socket_ capacity)).result) 0 ≡ false = ground arith in
    rw (stored capacity (os h (reads s.socket_ capacity)).bytes, z) refl

-- The messages of a world begin with these ones.
abbrev pub Extends : List Message → World (List Message) → Type 0
Extends first w = (more : List Message) × (w.client ≡ first ++ more)

module _ (capacity : ℕ) (os : Os) where
  run_handler-Extends :
      (first : List Message) (x : Handler) (s : Socket) (w w' : World (List Message)) (r : Bool)
      (h g : List Call)
      → run_handler (take_message capacity) x s w os h ≡ (ok (r, w'), g)
      → Extends first w
      → Extends first w'
  unfolding run_handler accept_client
  run_handler-Extends first (accepts_for a) s w w' r h g e v =
      let (client, g', _, last) =
        >>=-eq-ok (Socket.accept s)
          (λ client.
            pure (true, record w { store = update w.store a (push_client (w.store a) client) }))
          os h e in
      subst (Extends first) (ap (λ p. p.1) (pure-eq-ok last)) v
  run_handler-Extends first client_request s w w' r h g e (more, v) =
      let ((result, c), g', one, last) =
        >>=-eq-ok (take_message capacity s w.client) (λ p. pure (p.0, record w { client = p.1 })) os
          h e in
      let m : Message = (
        s,
        record (static_buffer capacity) {
          array = received capacity (os h (reads s.socket_ capacity)).bytes;
        },
      ) in
      let kept : w.client ++ m ∷ [] ≡ c =
        ap (λ p. p.1) (pure-eq-ok (sym (take_message_lem capacity s w.client os h) ∙ one)) in
      subst (Extends first) (ap (λ p. p.1) (pure-eq-ok last))
        (more ++ m ∷ [], sym kept ∙ ap (λ ms. ms ++ m ∷ []) v ∙ append_assoc first more (m ∷ []))

  round-Extends :
      (first : List Message) (fuel a n k : ℕ) (w u x : World (List Message)) (h g1 g2 : List Call)
      → get_count_ready a w os h ≡ (ok (n, u), g1)
      → handle_clients_socket (take_message capacity) fuel a n u os g1 ≡ (ok (k, x), g2)
      → Extends first w
      → Extends first x
  unfolding run_session
  round-Extends first =
      round-keeps (take_message capacity) os (Extends first)
        (λ s. run_handler-Extends first s.request_handler_ (Socket.copy s.socket_)) (λ w a rs v. v)

  round-AllParallel :
      (fuel a n k : ℕ) (w u x : World (List Message)) (h g1 g2 : List Call)
      → get_count_ready a w os h ≡ (ok (n, u), g1)
      → handle_clients_socket (take_message capacity) fuel a n u os g1 ≡ (ok (k, x), g2)
      → AllParallel w
      → AllParallel x
  round-AllParallel =
      round-keeps (take_message capacity) os AllParallel
        (λ s w w' r h g e all b.
          run_session-IsParallel (take_message capacity) os b s w w' r h g e (all b))
        (λ w a rs all b. set_revents-IsParallel (take_message capacity) os b w a rs (all b))

  receive-keeps :
      (first : List Message) (rounds fuel a expected : ℕ) (w w' : World (List Message))
      (h g : List Call)
      → receive capacity rounds fuel a expected w os h ≡ (ok w', g)
      → AllParallel w
      → Extends first w
      → (expected ≤ length w'.client) × Extends first w' × AllParallel w'
  unfolding receive
  receive-keeps first zero fuel a expected w w' h g e all v = cc
  receive-keeps first (suc rounds) fuel a expected w w' h g e all v =
      let rest : World (List Message) → Prog (World (List Message)) = λ x.
        if ltb (length x.client) expected
        then receive capacity rounds fuel a expected x
        else pure x in
      let ((n, u), g1, one, e1) =
        >>=-eq-ok (get_count_ready a w)
          (λ q. handle_clients_socket (take_message capacity) fuel a q.0 q.1 >>= λ y. rest y.1) os h
          e in
      let ((k, x), g2, two, e2) =
        >>=-eq-ok (handle_clients_socket (take_message capacity) fuel a n u) (λ y. rest y.1) os g1
          e1 in
      let grown = round-Extends first fuel a n k w u x h g1 g2 one two v in
      let agree = round-AllParallel fuel a n k w u x h g1 g2 one two all in
      elim (Bool-cases (ltb (length x.client) expected)) [
        | inl t ↦ receive-keeps first rounds fuel a expected x w' g2 g (rw t at e2) agree grown
        | inr f ↦
            let enough : expected ≤ length x.client = ground (arith, f) in
            subst (λ y. (expected ≤ length y.client) × Extends first y × AllParallel y)
              (pure-eq-ok (rw f at e2)) (enough, grown, agree)
      ]

  -- When `receive` returns, at least the expected number of messages is there, those of before
  -- stand first and unchanged, and the poll sets still agree with the sessions, if they did before.
  pub receive_lem :
      (rounds fuel a expected : ℕ) (w w' : World (List Message)) (h g : List Call)
      → receive capacity rounds fuel a expected w os h ≡ (ok w', g)
      → AllParallel w
      → (expected ≤ length w'.client) × Extends w.client w' × AllParallel w'
  receive_lem rounds fuel a expected w w' h g e all =
      receive-keeps w.client rounds fuel a expected w w' h g e all ([], sym (append-nil w.client))
