-- ===== src/Engine/Tcp/Multiplex/Rounds.antt =====
-- How far the loop of `handleClientsSocket` goes over a vector that may grow under it.
use unix_ipc.Prelude.{
  ℕ, zero, suc, ◌+◌, ◌-◌, ◌≤◌, ◌<◌, ◌≡◌, ◌≢◌, ap, subst, Bool, true, ◌&&◌, Option, some, none, inl,
  inr, List, [], ◌∷◌, length, length-append, get_elem?, ltb, ◌==◌, arith, Bool-cases, ==_iff,
}
use unix_ipc.Sys.{
  Call, Os, ok, out_of_fuel, Prog, pure, >>=-eq-ok, pure-eq-ok, >>=-ne-spent, or_fault,
  out_of_bounds, ◌>>=◌,
}
use unix_ipc.Engine.NativeSocket
use unix_ipc.Engine.Socket
use unix_ipc.Engine.Socket.{Socket, SocketType, listener, usual}
use unix_ipc.Engine.Tcp.Multiplex.{
  PollFd, TcpSession, Handler, accepts_for, client_request, Acceptor, World, update, push_client,
  run_handler, run_session, handle_event, handle_at, handle_from, handle_clients_socket, pollrdnorm,
}

abbrev pub count : {C : Type 0} → World C → ℕ → ℕ
count w a = length (w.store a).tcp_sessions_

pub length-push_client :
    (x : Acceptor) (client : Socket)
    → length (push_client x client).tcp_sessions_ ≡ length x.tcp_sessions_ + 1
unfolding push_client
length-push_client x client = omega (
  arith,
  length-append x.tcp_sessions_
      (record { socket_ = (Socket.move client).0; request_handler_ = client_request } ∷ []),
)

update-length :
    (f : ℕ → Acceptor) (b : ℕ) (client : Socket) (a : ℕ)
    → length (update f b (push_client (f b) client) a).tcp_sessions_
      ≤ length (f a).tcp_sessions_ + 1
update-length f b client a = elim (Bool-cases (a == b)) [
  | inl e ↦ rw (e, (==_iff a b).0 e) (omega (arith, length-push_client (f b) client))
  | inr e ↦ rw e (omega arith)
]

accept-ne-spent : (s : Socket) (os : Os) (h : List Call) → (Socket.accept s os h).0 ≢ out_of_fuel
unfolding Socket.accept NativeSocket.accept
accept-ne-spent s os h e = ground arith

pub in_range : (n i k : ℕ) → (ltb 0 n && ltb i k) ≡ true → (0 < n) × (i < k)
in_range n i k t = ground arith

module _ {C : Type 0} (handle : Socket → C → Prog (Bool × C)) (os : Os) (a : ℕ) where
  run_handler_grows :
      (x : Handler) (socket : Socket) (w w' : World C) (r : Bool) (h g : List Call)
      → run_handler handle x socket w os h ≡ (ok (r, w'), g)
      → count w' a ≤ count w a + 1
  unfolding run_handler
  run_handler_grows (accepts_for b) socket w w' r h g e =
      let (client, g', _, last) =
        >>=-eq-ok (Socket.accept socket)
          (λ client.
            pure (true, record w { store = update w.store b (push_client (w.store b) client) }))
          os h e in
      subst (λ u. count u a ≤ count w a + 1) (ap (λ p. p.1) (pure-eq-ok last))
        (update-length w.store b client a)
  run_handler_grows client_request socket w w' r h g e =
      let ((result, c), g', _, last) =
        >>=-eq-ok (handle socket w.client) (λ p. pure (p.0, record w { client = p.1 })) os h e in
      subst (λ u. count u a ≤ count w a + 1) (ap (λ p. p.1) (pure-eq-ok last)) (omega arith)

  handle_event_grows :
      (s : TcpSession) (p : PollFd) (n m : ℕ) (w w' : World C) (h g : List Call)
      → handle_event handle s p n w os h ≡ (ok (m, w'), g)
      → 0 < n
      → count w' a + m ≤ count w a + n
  unfolding handle_event run_session
  handle_event_grows s p n m w w' h g e l = elim (Bool-cases (p.revents == pollrdnorm)) [
    | inl t ↦
        let ((r, v'), g', first, last) =
          >>=-eq-ok (run_session handle s w) (λ q. pure (n - 1, q.1)) os h (rw t at e) in
        subst (λ q. count q.1 a + q.0 ≤ count w a + n) (pure-eq-ok last)
          (omega
            (arith, run_handler_grows s.request_handler_ (Socket.copy s.socket_) w v' r h g' first))
    | inr f ↦ subst (λ q. count q.1 a + q.0 ≤ count w a + n) (pure-eq-ok (rw f at e)) (omega arith)
  ]

  handle_at_grows :
      (i n m : ℕ) (w w' : World C) (h g : List Call)
      → handle_at handle a i n w os h ≡ (ok (m, w'), g)
      → 0 < n
      → count w' a + m ≤ count w a + n
  unfolding handle_at
  handle_at_grows i n m w w' h g e l =
      let (s, g1, _, e1) =
        >>=-eq-ok (or_fault (get_elem? (w.store a).tcp_sessions_ i) out_of_bounds)
          (λ s. or_fault (get_elem? (w.store a).client_poll_fd_set_ i) out_of_bounds >>= λ p.
            handle_event handle s p n w)
          os h e in
      let (p, g2, _, e2) =
        >>=-eq-ok (or_fault (get_elem? (w.store a).client_poll_fd_set_ i) out_of_bounds)
          (λ p. handle_event handle s p n w) os g1 e1 in
      handle_event_grows s p n m w w' g2 g e2 l

  -- The user's handler always comes to an end.
  module _ (total : (s : Socket) (c : C) (h : List Call) → (handle s c os h).0 ≢ out_of_fuel) where
    run_handler-ne-spent :
        (x : Handler) (socket : Socket) (w : World C) (h : List Call)
        → (run_handler handle x socket w os h).0 ≢ out_of_fuel
    unfolding run_handler
    run_handler-ne-spent (accepts_for b) socket w h =
        >>=-ne-spent (Socket.accept socket)
          (λ client.
            pure (true, record w { store = update w.store b (push_client (w.store b) client) }))
          os h (accept-ne-spent socket os h) (λ c g e f. cc)
    run_handler-ne-spent client_request socket w h =
        >>=-ne-spent (handle socket w.client) (λ p. pure (p.0, record w { client = p.1 })) os h
          (total socket w.client h) (λ c g e f. cc)

    handle_event-ne-spent :
        (s : TcpSession) (p : PollFd) (n : ℕ) (w : World C) (h : List Call)
        → (handle_event handle s p n w os h).0 ≢ out_of_fuel
    unfolding handle_event run_session
    handle_event-ne-spent s p n w h = elim (Bool-cases (p.revents == pollrdnorm)) [
      | inl t ↦ rw t (
          >>=-ne-spent (run_session handle s w) (λ q. pure (n - 1, q.1)) os h
            (run_handler-ne-spent s.request_handler_ (Socket.copy s.socket_) w h) (λ c g e f. cc))
      | inr f ↦ rw f (λ e. cc)
    ]

    or_fault-ne-spent :
        {A : Type 0} (o : Option A) (h : List Call)
        → (or_fault o out_of_bounds os h).0 ≢ out_of_fuel
    or_fault-ne-spent none h e = cc
    or_fault-ne-spent (some x) h e = cc

    handle_at-ne-spent :
        (i n : ℕ) (w : World C) (h : List Call) → (handle_at handle a i n w os h).0 ≢ out_of_fuel
    unfolding handle_at
    handle_at-ne-spent i n w h =
        >>=-ne-spent (or_fault (get_elem? (w.store a).tcp_sessions_ i) out_of_bounds) _ os h
          (or_fault-ne-spent _ h)
          λ s g e.
            >>=-ne-spent (or_fault (get_elem? (w.store a).client_poll_fd_set_ i) out_of_bounds)
              (λ p. handle_event handle s p n w) os g (or_fault-ne-spent _ g)
              λ p g' e'. handle_event-ne-spent s p n w g'

    -- A step of the loop uses up one of the ready sessions or passes one on, and adds a session
    -- only where it uses one up: fuel above the sessions ahead and the ready count is enough.
    pub handle_from-ne-spent :
        (fuel i n : ℕ) (w : World C) (h : List Call)
        → count w a + n < fuel + i
        → 0 < fuel
        → (handle_from handle fuel a i n w os h).0 ≢ out_of_fuel
    unfolding handle_from
    handle_from-ne-spent zero i n w h l k = absurd (omega arith)
    handle_from-ne-spent (suc fuel) i n w h l k = elim (Bool-cases (ltb 0 n && ltb i (count w a))) [
      | inl t ↦ rw t (
          >>=-ne-spent (handle_at handle a i n w) (λ q. handle_from handle fuel a (i + 1) q.0 q.1)
            os h (handle_at-ne-spent i n w h)
            λ q g e.
              let b = in_range n i (count w a) t in
              handle_from-ne-spent fuel (i + 1) q.0 q.1 g
                (omega (arith, b, handle_at_grows i n q.0 w q.1 h g e b.0)) (omega (arith, b)))
      | inr f ↦ rw f (λ e. cc)
    ]

    -- `handleClientsSocket` ends if the user's handler does, after no more entries than there are
    -- sessions and ready descriptors, though the vector that it walks may grow.
    pub handle_clients_ends :
        (fuel n : ℕ) (w : World C) (h : List Call)
        → count w a + n < fuel
        → (handle_clients_socket handle fuel a n w os h).0 ≢ out_of_fuel
    unfolding handle_clients_socket
    handle_clients_ends fuel n w h l = handle_from-ne-spent fuel 0 n w h (omega arith) (omega arith)
