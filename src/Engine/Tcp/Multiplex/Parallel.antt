-- ===== src/Engine/Tcp/Multiplex/Parallel.antt =====
-- The two vectors of an acceptor, entry by entry.
use unix_ipc.Prelude.{
  ℕ, ◌≡◌, refl, ap, subst, ◌∙◌, Bool, true, inl, inr, ℤ, List, [], ◌∷◌, map, ◌==◌, ==_iff,
  Bool-cases,
}
use mathlib.Core.List.{map-append}
use unix_ipc.Sys.{Call, Os, ok, Prog, pure, >>=-eq-ok, pure-eq-ok}
use unix_ipc.Engine.Socket
use unix_ipc.Engine.Socket.{Socket}
use unix_ipc.Engine.Tcp.Listener.{TcpListener, get_socket}
use unix_ipc.Engine.Tcp.Multiplex.Invariant.{polling_loop-keeps}
use unix_ipc.Engine.Tcp.Multiplex.{
  polled, PollFd, TcpSession, Handler, accepts_for, client_request, Acceptor, World, update,
  construct, push_client, set_revents, run_handler, run_session, polling_loop, poll_fd,
}

abbrev pub poll_fds : List PollFd → List ℤ
poll_fds = map (λ p. p.fd)

abbrev pub session_fds : List TcpSession → List ℤ
session_fds = map (λ s. s.socket_.socket_)

abbrev pub IsParallel : Acceptor → Type 0
IsParallel x = poll_fds x.client_poll_fd_set_ ≡ session_fds x.tcp_sessions_

pub construct-IsParallel : (a : ℕ) (l : TcpListener) → IsParallel (construct a l)
unfolding construct Socket.move get_socket
construct-IsParallel a l = refl

push_client-IsParallel :
    (x : Acceptor) (client : Socket) → IsParallel x → IsParallel (push_client x client)
unfolding push_client Socket.move
push_client-IsParallel x client e =
    rw
      (
        map-append (λ p. p.fd) x.client_poll_fd_set_ (poll_fd client.socket_ ∷ []),
        map-append (λ s. s.socket_.socket_) x.tcp_sessions_ _,
        e,
      )
      refl

poll_fds-set_revents : (ps : List PollFd) (rs : List ℕ) → poll_fds (set_revents ps rs) ≡ poll_fds ps
unfolding set_revents
poll_fds-set_revents [] rs = refl
poll_fds-set_revents (p ∷ ps) [] = refl
poll_fds-set_revents (p ∷ ps) (r ∷ rs) = ap (◌∷◌ p.fd) (poll_fds-set_revents ps rs)

abbrev pub AllParallel : {C : Type 0} → World C → Type 0
AllParallel w = (b : ℕ) → IsParallel (w.store b)

pub update-IsParallel :
    (f : ℕ → Acceptor) (a b : ℕ) (x : Acceptor)
    → (IsParallel (f a) → IsParallel x)
    → IsParallel (f b)
    → IsParallel (update f a x b)
update-IsParallel f a b x p e = elim (Bool-cases (b == a)) [
  | inl y ↦ rw y (p (subst (λ c. IsParallel (f c)) ((==_iff b a).0 y) e))
  | inr y ↦ rw y e
]

module _ {C : Type 0} (handle : Socket → C → Prog (Bool × C)) (os : Os) (b : ℕ) where
  run_handler-IsParallel :
      (x : Handler) (socket : Socket) (w w' : World C) (r : Bool) (h g : List Call)
      → run_handler handle x socket w os h ≡ (ok (r, w'), g)
      → IsParallel (w.store b)
      → IsParallel (w'.store b)
  unfolding run_handler
  run_handler-IsParallel (accepts_for a) socket w w' r h g e p =
      let (client, g', _, last) =
        >>=-eq-ok (Socket.accept socket)
          (λ client.
            pure (true, record w { store = update w.store a (push_client (w.store a) client) }))
          os h e in
      subst (λ w. IsParallel (w.store b)) (ap (λ p. p.1) (pure-eq-ok last))
        (update-IsParallel w.store a b (push_client (w.store a) client)
          (push_client-IsParallel (w.store a) client) p)
  run_handler-IsParallel client_request socket w w' r h g e p =
      let ((result, c), g', _, last) =
        >>=-eq-ok (handle socket w.client) (λ p. pure (p.0, record w { client = p.1 })) os h e in
      subst (λ w. IsParallel (w.store b)) (ap (λ p. p.1) (pure-eq-ok last)) p

  pub run_session-IsParallel :
      (s : TcpSession) (w w' : World C) (r : Bool) (h g : List Call)
      → run_session handle s w os h ≡ (ok (r, w'), g)
      → IsParallel (w.store b)
      → IsParallel (w'.store b)
  unfolding run_session
  run_session-IsParallel s = run_handler-IsParallel s.request_handler_ (Socket.copy s.socket_)

  pub set_revents-IsParallel :
      (w : World C) (a : ℕ) (rs : List ℕ)
      → IsParallel (w.store b)
      → IsParallel (update w.store a (polled (w.store a) rs) b)
  unfolding polled
  set_revents-IsParallel w a rs =
      update-IsParallel w.store a b _
        (λ p. poll_fds-set_revents (w.store a).client_poll_fd_set_ rs ∙ p)

  -- However often an acceptor polls, and whatever the system and the user's handler do, each
  -- acceptor whose poll set has the descriptors of its sessions, in their order, keeps it so,
  -- whatever the other acceptors are.
  pub polling_loop-IsParallel :
      (rounds fuel a : ℕ) (w w' : World C) (h g : List Call)
      → polling_loop handle rounds fuel a w os h ≡ (ok w', g)
      → IsParallel (w.store b)
      → IsParallel (w'.store b)
  polling_loop-IsParallel =
      polling_loop-keeps handle os (λ w. IsParallel (w.store b)) run_session-IsParallel
        set_revents-IsParallel
