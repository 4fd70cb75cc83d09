-- ===== src/Examples/MultiplexServer/Started.antt =====
-- The acceptor of the multiplex example, from its construction on.
use unix_ipc.Prelude.{ℕ, ◌≡◌, refl, subst, inl, inr, none, Bool-cases, List, [], ◌∷◌, ◌==◌}
use unix_ipc.Sys.{Call, Os, ok, prints, Prog, pure, call_, >>=-eq-ok, pure-eq-ok, ◌>>=◌, ◌>>◌}
use unix_ipc.Engine.Address.{Statics, of_ip, initial_statics}
use unix_ipc.Engine.Socket
use unix_ipc.Engine.Tcp.Listener.{TcpListener, of_address, get_socket}
use unix_ipc.Engine.Tcp.Multiplex.{
  World, Acceptor, accepts_for, set_first_handler, left_behind, update, construct, move_construct,
  polling_loop,
}
use unix_ipc.Engine.Tcp.Multiplex.Parallel.{
  IsParallel, update-IsParallel, AllParallel, construct-IsParallel, polling_loop-IsParallel,
}
use unix_ipc.Examples.{address_text}
use unix_ipc.Examples.MultiplexServer.{queue_size, handle, make_acceptor, main}

-- The move of a new acceptor leaves nothing in the one moved from, and the same vectors in the
-- other.
moved-AllParallel :
    (l : TcpListener) (store : ℕ → Acceptor) (os : Os) (h g : List Call)
    → move_construct (λ a. construct a l) 1 0 os h ≡ (ok store, g)
    → (b : ℕ) → IsParallel (store b)
unfolding move_construct construct set_first_handler Socket.move get_socket
moved-AllParallel l store os h g e =
    let f : ℕ → Acceptor = λ a. construct a l in
    let x : Acceptor = record {
      listener_socket_ = (Socket.move (f 0).listener_socket_).0;
      client_poll_fd_set_ = (f 0).client_poll_fd_set_;
      tcp_sessions_ = record { socket_ = get_socket l; request_handler_ = accepts_for 1 } ∷ [];
      listener_handler_ = accepts_for 1;
    } in
    let all : (b : ℕ) → IsParallel (update (update f 0 (left_behind (f 0))) 1 x b) = λ b.
      update-IsParallel (update f 0 (left_behind (f 0))) 1 b x (λ _. refl)
        (update-IsParallel f 0 b (left_behind (f 0)) (λ _. refl) (construct-IsParallel b l)) in
    subst (λ f. (b : ℕ) → IsParallel (f b)) (pure-eq-ok e) all

make_acceptor-AllParallel :
    (port : ℕ) (w : World Statics) (os : Os) (h g : List Call)
    → make_acceptor port os h ≡ (ok w, g)
    → AllParallel w
unfolding make_acceptor
make_acceptor-AllParallel port w os h g e =
    let last : TcpListener → Statics → Prog (World Statics) = λ l statics.
      move_construct (λ a. construct a l) 1 0 >>= λ store.
      pure (record { store = store; client = statics }) in
    let shown : TcpListener → Prog (World Statics) =
      λ l. address_text (get_socket l) initial_statics >>= λ q. call_ (prints q.0) >> last l q.1 in
    let (address, g1, _, e1) =
      >>=-eq-ok (of_ip none port) (λ address. of_address address (queue_size port) >>= shown) os h
        e in
    let (l, g2, _, e2) = >>=-eq-ok (of_address address (queue_size port)) shown os g1 e1 in
    let (q, g3, _, e3) =
      >>=-eq-ok (address_text (get_socket l) initial_statics)
        (λ q. call_ (prints q.0) >> last l q.1) os g2 e2 in
    let (store, g4, moved, e4) =
      >>=-eq-ok (move_construct (λ a. construct a l) 1 0)
        (λ store. pure (record { store = store; client = q.1 })) os (prints q.0 ∷ g3) e3 in
    subst AllParallel (pure-eq-ok e4) (moved-AllParallel l store os (prints q.0 ∷ g3) g4 moved)

-- After any number of polls of the multiplex example, whose acceptor was moved once since its
-- construction, each of the two acceptors has a poll set with the descriptors of its sessions, in
-- their order.
pub main-AllParallel :
    (rounds fuel argc port : ℕ) (w : World Statics) (os : Os) (g : List Call)
    → main rounds fuel argc port os [] ≡ (ok w, g)
    → AllParallel w
unfolding main
main-AllParallel rounds fuel argc port w os g e = elim (Bool-cases (argc == 2)) [
  | inr n ↦ let e' = rw n at e in cc
  | inl y ↦
      let e' = rw y at e in
      let (u, g1, one, two) =
        >>=-eq-ok (make_acceptor port) (polling_loop handle rounds fuel 1) os [] e' in
      λ b.
        polling_loop-IsParallel handle os b rounds fuel 1 u w g1 g two
          (make_acceptor-AllParallel port u os [] g1 one b)
]
