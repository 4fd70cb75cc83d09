-- ===== src/Engine/Tcp/Multiplex/Moves.antt =====
-- What an acceptor accepts into after it was moved, and what its destructor closes.
use unix_ipc.Prelude.{
  ℕ, ◌+◌, ◌≡◌, ◌≢◌, refl, ap, sym, ◌∙◌, subst, Bool, true, false, ℤ, is_neg, is_pos, List, [], ◌∷◌,
  length, ◌==◌, if◌then◌else◌, arith, ==_iff, ==_false, Bool-cases, inl, inr,
}
use unix_ipc.Sys.{Call, Os, ok, closes, Prog, pure, >>=-eq-ok, pure-eq-ok}
use unix_ipc.Engine.NativeSocket.{close_socket}
use unix_ipc.Engine.Socket
use unix_ipc.Engine.Socket.{Socket}
use unix_ipc.Engine.Tcp.Multiplex.{
  TcpSession, accepts_for, Acceptor, World, update, push_client, run_handler, run_session,
  move_construct, move_assign, set_first_handler, close_all, left_behind,
}
use unix_ipc.Engine.Tcp.Multiplex.Rounds.{count, length-push_client}

-- An event of a session whose handler names acceptor `c` adds one session there, and none anywhere
-- else.
accepts_into :
    {C : Type 0} (handle : Socket → C → Prog (Bool × C)) (c : ℕ) (socket : Socket) (w w' : World C)
    (r : Bool) (os : Os) (h g : List Call)
    → run_handler handle (accepts_for c) socket w os h ≡ (ok (r, w'), g)
    → (d : ℕ) → count w' d ≡ (if d == c then count w c + 1 else count w d)
unfolding run_handler
accepts_into handle c socket w w' r os h g e d =
    let (client, g', _, last) =
      >>=-eq-ok (Socket.accept socket)
        (λ client.
          pure (true, record w { store = update w.store c (push_client (w.store c) client) }))
        os h e in
    subst (λ u. count u d ≡ (if d == c then count w c + 1 else count w d))
      (ap (λ p. p.1) (pure-eq-ok last))
      (elim (Bool-cases (d == c)) [
        | inl t ↦ rw t (length-push_client (w.store c) client)
        | inr t ↦ rw t
      ])

module _ {C : Type 0} (handle : Socket → C → Prog (Bool × C)) (f : ℕ → Acceptor) (a b : ℕ)
    (apart : b ≢ a) (s : TcpSession) (ss : List TcpSession) (held : (f b).tcp_sessions_ ≡ s ∷ ss)
    (c : C) (os : Os) where
  abbrev rebound : TcpSession
  rebound = record s { request_handler_ = accepts_for a }

  abbrev made : ℕ → Acceptor
  made = update (update f b (left_behind (f b))) a (record {
    listener_socket_ = (Socket.move (f b).listener_socket_).0;
    client_poll_fd_set_ = (f b).client_poll_fd_set_;
    tcp_sessions_ = rebound ∷ ss;
    listener_handler_ = accepts_for a;
  })

  move_construct_lem : (h : List Call) → move_construct f a b os h ≡ (ok made, h)
  unfolding move_construct set_first_handler
  move_construct_lem h = rw held

  made_sessions : ((made a).tcp_sessions_ ≡ rebound ∷ ss) × ((made b).tcp_sessions_ ≡ [])
  made_sessions = (rw ((==_iff a a).1 refl), rw (==_false b a apart, (==_iff b b).1 refl))

  -- After a move construction the listener of the new acceptor accepts into the new acceptor, and
  -- the one moved from stays empty.
  pub move_construct_accepts :
      (f' : ℕ → Acceptor) (w' : World C) (r : Bool) (h g : List Call)
      → move_construct f a b os h ≡ (ok f', h)
      → run_session handle
          (record s { request_handler_ = accepts_for a })
          (record { store = f'; client = c })
          os
          h
        ≡ (ok (r, w'), g)
      → ((f' a).tcp_sessions_ ≡ record s { request_handler_ = accepts_for a } ∷ ss)
        × (count w' a ≡ length ss + 2)
        × (count w' b ≡ 0)
  unfolding run_session
  move_construct_accepts f' w' r h g m e =
      let same : made ≡ f' = pure-eq-ok (sym (move_construct_lem h) ∙ m) in
      let lists =
        subst (λ x. ((x a).tcp_sessions_ ≡ rebound ∷ ss) × ((x b).tcp_sessions_ ≡ [])) same
          made_sessions in
      let into =
        accepts_into handle a (Socket.copy s.socket_) (record { store = f'; client = c }) w' r os h
          g e in
      (
        lists.0,
        ground (arith, into a, ap length lists.0),
        ground (arith, into b, ap length lists.1),
      )

  -- After a move assignment the listener accepts into the acceptor that was moved from, if it did
  -- so before, and the new one does not learn of the client.
  pub move_assign_accepts :
      (w' : World C) (r : Bool) (h g : List Call)
      → s.request_handler_ ≡ accepts_for b
      → run_session handle s (record { store = move_assign f a b; client = c }) os h
        ≡ (ok (r, w'), g)
      → (((move_assign f a b) a).tcp_sessions_ ≡ s ∷ ss)
        × (count w' a ≡ length ss + 1)
        × (count w' b ≡ 1)
  unfolding move_assign run_session
  move_assign_accepts w' r h g t e =
      let into =
        accepts_into handle b (Socket.copy s.socket_)
          (record { store = move_assign f a b; client = c }) w' r os h g (rw t at e) in
      (first, ground (arith, into a, ap length first), ground (arith, into b, ap length second))
    where
      first : ((move_assign f a b) a).tcp_sessions_ ≡ s ∷ ss
      first = rw ((==_iff a a).1 refl) held

      second : ((move_assign f a b) b).tcp_sessions_ ≡ []
      second = rw (==_false b a apart, (==_iff b b).1 refl)

-- The calls of the destructor: each open descriptor above 0 is closed, in the order of the sessions.
abbrev pub closed : List TcpSession → List Call → List Call
closed [] h = h
closed (s ∷ ss) h = closed ss (if is_pos s.socket_.socket_ then closes s.socket_.socket_ ∷ h else h)

-- Where `close` does not fail, the destructor closes every session with a positive descriptor, once
-- and in order.
pub close_all_lem :
    (ss : List TcpSession) (os : Os) (h : List Call)
    → ((fd : ℤ) (g : List Call) → is_neg (os g (closes fd)).result ≡ false)
    → close_all ss os h ≡ (ok tt, closed ss h)
unfolding close_all Socket.close close_socket
close_all_lem [] os h k = refl
close_all_lem (s ∷ ss) os h k = elim (Bool-cases (is_pos s.socket_.socket_)) [
  | inl e ↦ rw (e, k s.socket_.socket_ h) (close_all_lem ss os (closes s.socket_.socket_ ∷ h) k)
  | inr e ↦ rw e (close_all_lem ss os h k)
]
