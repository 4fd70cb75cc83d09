-- ===== src/Engine/Tcp/Multiplex/Invariant.antt =====
-- Properties of a world, carried from a handler and a poll to the loops.
use unix_ipc.Prelude.{
  ℕ, zero, suc, ◌+◌, ◌-◌, ◌≡◌, ap, subst, Bool, ◌&&◌, inl, inr, List, length, get_elem?, ltb,
  is_neg, map, ◌==◌, Bool-cases,
}
use unix_ipc.Sys.{
  Call, Os, ok, Prog, pure, polls, >>=-eq-ok, pure-eq-ok, or_fault, out_of_bounds, ◌>>=◌,
}
use unix_ipc.Engine.Socket.{Socket}
use unix_ipc.Engine.Tcp.Multiplex.{
  PollFd, TcpSession, World, update, polled, run_session, handle_event, handle_at, handle_from,
  handle_clients_socket, get_count_ready, polling_loop, pollrdnorm,
}

module _ {C : Type 0} (handle : Socket → C → Prog (Bool × C)) (os : Os) (P : World C → Type 0)
    (keep : (s : TcpSession) (w w' : World C) (r : Bool) (h g : List Call)
      → run_session handle s w os h ≡ (ok (r, w'), g)
      → P w
      → P w') where
  handle_event-keeps :
      (s : TcpSession) (p : PollFd) (n m : ℕ) (w w' : World C) (h g : List Call)
      → handle_event handle s p n w os h ≡ (ok (m, w'), g)
      → P w
      → P w'
  unfolding handle_event
  handle_event-keeps s p n m w w' h g e v = elim (Bool-cases (p.revents == pollrdnorm)) [
    | inl t ↦
        let ((r, v'), g', first, last) =
          >>=-eq-ok (run_session handle s w) (λ q. pure (n - 1, q.1)) os h (rw t at e) in
        subst P (ap (λ q. q.1) (pure-eq-ok last)) (keep s w v' r h g' first v)
    | inr f ↦ subst P (ap (λ q. q.1) (pure-eq-ok (rw f at e))) v
  ]

  handle_at-keeps :
      (a i n m : ℕ) (w w' : World C) (h g : List Call)
      → handle_at handle a i n w os h ≡ (ok (m, w'), g)
      → P w
      → P w'
  unfolding handle_at
  handle_at-keeps a i n m w w' h g e v =
      let (s, g1, _, e1) =
        >>=-eq-ok (or_fault (get_elem? (w.store a).tcp_sessions_ i) out_of_bounds)
          (λ s. or_fault (get_elem? (w.store a).client_poll_fd_set_ i) out_of_bounds >>= λ p.
            handle_event handle s p n w)
          os h e in
      let (p, g2, _, e2) =
        >>=-eq-ok (or_fault (get_elem? (w.store a).client_poll_fd_set_ i) out_of_bounds)
          (λ p. handle_event handle s p n w) os g1 e1 in
      handle_event-keeps s p n m w w' g2 g e2 v

  handle_from-keeps :
      (fuel a i n m : ℕ) (w w' : World C) (h g : List Call)
      → handle_from handle fuel a i n w os h ≡ (ok (m, w'), g)
      → P w
      → P w'
  unfolding handle_from
  handle_from-keeps zero a i n m w w' h g e v = cc
  handle_from-keeps (suc fuel) a i n m w w' h g e v =
      elim (Bool-cases (ltb 0 n && ltb i (length (w.store a).tcp_sessions_))) [
        | inl t ↦
            let ((k, u), g1, first, last) =
              >>=-eq-ok (handle_at handle a i n w) (λ q. handle_from handle fuel a (i + 1) q.0 q.1)
                os h (rw t at e) in
            handle_from-keeps fuel a (i + 1) k m u w' g1 g last
              (handle_at-keeps a i n k w u h g1 first v)
        | inr f ↦ subst P (ap (λ q. q.1) (pure-eq-ok (rw f at e))) v
      ]

  module _
      (keep_polled : (w : World C) (a : ℕ) (rs : List ℕ)
        → P w
        → P (record w { store = update w.store a (polled (w.store a) rs) })) where
    get_count_ready-keeps :
        (a n : ℕ) (w w' : World C) (h g : List Call)
        → get_count_ready a w os h ≡ (ok (n, w'), g)
        → P w
        → P w'
    unfolding get_count_ready
    get_count_ready-keeps a n w w' h g e v =
        let r = os h (polls (map (λ p. p.fd) (w.store a).client_poll_fd_set_)) in
        elim (Bool-cases (is_neg r.result)) [
          | inl t ↦ let e' = rw t at e in cc
          | inr f ↦ subst P (ap (λ q. q.1) (pure-eq-ok (rw f at e))) (keep_polled w a r.revents v)
        ]

    pub round-keeps :
        (fuel a n k : ℕ) (w u x : World C) (h g1 g2 : List Call)
        → get_count_ready a w os h ≡ (ok (n, u), g1)
        → handle_clients_socket handle fuel a n u os g1 ≡ (ok (k, x), g2)
        → P w
        → P x
    round-keeps fuel a n k w u x h g1 g2 first second v =
        handle_from-keeps fuel a 0 n k u x g1 g2 (unfold handle_clients_socket in second)
          (get_count_ready-keeps a n w u h g1 first v)

    pub polling_loop-keeps :
        (rounds fuel a : ℕ) (w w' : World C) (h g : List Call)
        → polling_loop handle rounds fuel a w os h ≡ (ok w', g)
        → P w
        → P w'
    unfolding polling_loop
    polling_loop-keeps zero fuel a w w' h g e v = subst P (pure-eq-ok e) v
    polling_loop-keeps (suc rounds) fuel a w w' h g e v =
        let ((n, u), g1, first, e1) =
          >>=-eq-ok (get_count_ready a w)
            (λ q. handle_clients_socket handle fuel a q.0 q.1 >>= λ x.
              polling_loop handle rounds fuel a x.1)
            os h e in
        let ((k, x), g2, second, e2) =
          >>=-eq-ok (handle_clients_socket handle fuel a n u)
            (λ x. polling_loop handle rounds fuel a x.1) os g1 e1 in
        polling_loop-keeps rounds fuel a x w' g2 g e2
          (round-keeps fuel a n k w u x h g1 g2 first second v)
