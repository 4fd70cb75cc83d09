-- ===== src/Engine/Tcp/Multithread/Accepted.antt =====
-- The descriptors of the sessions of the multithread acceptor.
use unix_ipc.Prelude.{
  ℤ-cases, ◌≡◌, refl, sym, inl, inr, ◌⊎◌, ap, ◌∙◌, none, some, ℤ, pos, List, [], ◌∷◌, ◌++◌, map, ℕ,
  zero, suc, set, get_elem?,
}
use mathlib.Core.List.{map-append}
use unix_ipc.Sys.{Call, Reply, ok}
use unix_ipc.Sys.Replay.{value_or}
use unix_ipc.Engine.NativeSocket
use unix_ipc.Engine.Socket
use unix_ipc.Engine.Socket.{Socket, SocketType, usual, listener}
use unix_ipc.Engine.Tcp.Listener.{TcpListener}
use unix_ipc.Engine.Tcp.Multithread.{
  Handler, Session, Acceptor, make, create_new_tcp_session_thread, Step, accepts_client,
  session_calls, Reach, begin, later, Event,
}

-- What `accept` returned, the first time first.
abbrev pub accepted : List Event → List ℤ
accepted [] = []
accepted ((none, c, r) ∷ trace) = accepted trace ++ r.result ∷ []
accepted ((some i, c, r) ∷ trace) = accepted trace

type-cases : (t : SocketType) → (t ≡ usual) ⊎ (t ≡ listener)
type-cases usual = inl refl
type-cases listener = inr refl

accept-result :
    (s client : Socket) (r : Reply) (c : Call)
    → Socket.accept s (λ _ _. r) [] ≡ (ok client, c ∷ [])
    → client.socket_ ≡ r.result
unfolding Socket.accept NativeSocket.accept Socket.of_fd
accept-result s client r c e = elim (type-cases s.type_) [
  | inl y ↦ let e' = rw y at e in cc
  | inr y ↦ elim (ℤ-cases r.result) [
    | inr (n, z) ↦ let e' = rw (y, z) at e in cc
    | inl (n, z) ↦
        let e' = rw (y, z) at e in
        let v : pos n ≡ client.socket_ = ap (λ x. (value_or x client).socket_) e' in sym v ∙ sym z
  ]
]

module _ {S G : Type 0} (handler : Handler S G) where
  abbrev pub descriptors : List (Session handler) → List ℤ
  descriptors = map (λ t. t.client_socket_.socket_)

  descriptors-set :
      (ts : List (Session handler)) (j : ℕ) (t : Session handler) (s : S)
      → get_elem? ts j ≡ some t
      → descriptors (set ts j (record t { state = s })) ≡ descriptors ts
  descriptors-set [] j t s e = refl
  descriptors-set (x ∷ ts) zero t s e =
      ap (λ x. x.client_socket_.socket_ ∷ descriptors ts) (sym x_t)
    where
      x_t : x ≡ t
      x_t = cc
  descriptors-set (x ∷ ts) (suc j) t s e =
      ap (◌∷◌ x.client_socket_.socket_) (descriptors-set ts j t s e)

  Step-accepted :
      (a b : Acceptor handler)
      → Step handler a b
      → descriptors a.tcp_sessions_ ≡ accepted a.trace
      → descriptors b.tcp_sessions_ ≡ accepted b.trace
  unfolding create_new_tcp_session_thread Socket.move
  Step-accepted a b (accepts_client r {client} {c} e) p =
      let new : Session handler = record {
        client_socket_ = (Socket.move (Socket.move client).0).0;
        state = handler.start (Socket.copy (Socket.move (Socket.move client).0).0);
      } in
      map-append (λ t. t.client_socket_.socket_) a.tcp_sessions_ (new ∷ [])
      ∙ ap (λ xs. xs ++ client.socket_ ∷ []) p
      ∙ ap (λ z. accepted a.trace ++ z ∷ []) (accept-result a.listener_socket_ client r c e)
  Step-accepted a b (session_calls j r {t} {c} e n) p =
      descriptors-set a.tcp_sessions_ j t ((handler.answer t.state a.shared r).0) e ∙ p

  -- However the threads are interleaved, and whatever the handler, the sessions of the multithread
  -- acceptor have, after the moves of their sockets, the descriptors that `accept` returned, in
  -- that order.
  pub Reach-accepted :
      (g : G) (l : TcpListener) (b : Acceptor handler)
      → Reach handler (make handler g l) b
      → descriptors b.tcp_sessions_ ≡ accepted b.trace
  unfolding make
  Reach-accepted g l b begin = refl
  Reach-accepted g l b (later {b = a} r s) = Step-accepted a b s (Reach-accepted g l a r)
