-- ===== src/Engine/Tcp/Multithread/Isolation.antt =====
-- The steps of the threads, as one session sees them.
use unix_ipc.Prelude.{
  ℕ, zero, suc, ◌≡◌, ◌≢◌, ◌<◌, ◌≤◌, refl, sym, ap, subst, ◌∙◌, inl, inr, ◌⊎◌, some, List, [], ◌∷◌,
  ◌++◌, length, length-append, get_elem?, set, ==_false, ==_iff, arith,
}
use unix_ipc.Sys.{Call, Reply}
use unix_ipc.Engine.Socket
use unix_ipc.Engine.Socket.{Socket}
use unix_ipc.Engine.Tcp.Listener.{TcpListener}
use unix_ipc.Engine.Tcp.Multithread.{
  Handler, Session, Acceptor, make, create_new_tcp_session_thread, Step, accepts_client,
  session_calls, Reach, begin, later, own, Ran,
}

module _ {S G : Type 0} (handler : Handler S G) where
  -- A session is where the handler is that has made the session's own calls, and no other, and found
  -- something in the shared memory at each.
  abbrev pub Isolated : Acceptor handler → Type 0
  Isolated a =
      (i : ℕ) (t : Session handler)
      → get_elem? a.tcp_sessions_ i ≡ some t
      → Ran handler (handler.start (Socket.copy t.client_socket_)) (own handler i a.trace) t.state

  -- Only sessions that exist have made calls.
  abbrev Known : Acceptor handler → Type 0
  Known a = (i : ℕ) → length a.tcp_sessions_ ≤ i → own handler i a.trace ≡ []

  get_elem?-append :
      {A : Type 0} (xs : List A) (x y : A) (i : ℕ)
      → get_elem? (xs ++ x ∷ []) i ≡ some y
      → (get_elem? xs i ≡ some y) ⊎ ((i ≡ length xs) × (y ≡ x))
  get_elem?-append [] x y zero e = inr (refl, cc)
  get_elem?-append [] x y (suc i) e = cc
  get_elem?-append (z ∷ xs) x y zero e = inl e
  get_elem?-append (z ∷ xs) x y (suc i) e = elim (get_elem?-append xs x y i e) [
    | inl p ↦ inl p
    | inr (p, q) ↦ inr (ap suc p, q)
  ]

  get_elem?-set :
      {A : Type 0} (xs : List A) (j i : ℕ) (x y : A)
      → get_elem? (set xs j x) i ≡ some y
      → ((i ≡ j) × (y ≡ x)) ⊎ ((i ≢ j) × (get_elem? xs i ≡ some y))
  get_elem?-set [] j i x y e = cc
  get_elem?-set (z ∷ xs) zero zero x y e = inl (refl, cc)
  get_elem?-set (z ∷ xs) zero (suc i) x y e = inr (omega arith, e)
  get_elem?-set (z ∷ xs) (suc j) zero x y e = inr (omega arith, e)
  get_elem?-set (z ∷ xs) (suc j) (suc i) x y e = elim (get_elem?-set xs j i x y e) [
    | inl (p, q) ↦ inl (ap suc p, q)
    | inr (p, q) ↦ inr (omega (arith, p), q)
  ]

  length-set : {A : Type 0} (xs : List A) (j : ℕ) (x : A) → length (set xs j x) ≡ length xs
  length-set [] j x = refl
  length-set (z ∷ xs) zero x = refl
  length-set (z ∷ xs) (suc j) x = ap suc (length-set xs j x)

  get_elem?-lt :
      {A : Type 0} (xs : List A) (i : ℕ) (x : A) → get_elem? xs i ≡ some x → i < length xs
  get_elem?-lt [] i x e = cc
  get_elem?-lt (z ∷ xs) zero x e = omega arith
  get_elem?-lt (z ∷ xs) (suc i) x e = omega (arith, get_elem?-lt xs i x e)

  Step-Known : (a b : Acceptor handler) → Step handler a b → Known a → Known b
  unfolding create_new_tcp_session_thread
  Step-Known a b (accepts_client r {client} e) k i l =
      let new : Session handler = record {
        client_socket_ = (Socket.move (Socket.move client).0).0;
        state = handler.start (Socket.copy (Socket.move (Socket.move client).0).0);
      } in
      k i (omega (arith, l, length-append a.tcp_sessions_ (new ∷ [])))
  Step-Known a b (session_calls j r {t} {c} e n) k i l =
      let moved : Session handler = record t { state = (handler.answer t.state a.shared r).0 } in
      let m = length-set a.tcp_sessions_ j moved in
      rw (==_false i j (omega (arith, l, m, get_elem?-lt a.tcp_sessions_ j t e)))
        (k i (omega (arith, l, m)))

  -- The step of a thread, seen by the session `i`.
  seen :
      (i j : ℕ) (a : Acceptor handler) (u t : Session handler) (c : Call) (r : Reply)
      → get_elem? a.tcp_sessions_ j ≡ some u
      → handler.next u.state a.shared ≡ some c
      → Isolated a
      → ((i ≡ j) × (t ≡ record u { state = (handler.answer u.state a.shared r).0 }))
        ⊎ ((i ≢ j) × (get_elem? a.tcp_sessions_ i ≡ some t))
      → Ran handler
          (handler.start (Socket.copy t.client_socket_))
          (own handler i ((some j, c, r) ∷ a.trace))
          t.state
  seen i j a u t c r e n p (inr (q, g)) = rw (==_false i j q) (p i t g)
  seen i j a u t c r e n p (inl (q, g)) =
      let go : Ran handler (handler.start (Socket.copy u.client_socket_))
          ((c, r) ∷ own handler i a.trace) (handler.answer u.state a.shared r).0 =
        (u.state, a.shared, p i u (ap (get_elem? a.tcp_sessions_) q ∙ e), n, refl) in
      rw ((==_iff i j).1 q) (
        subst
          (λ t.
            Ran handler (handler.start (Socket.copy t.client_socket_))
              ((c, r) ∷ own handler i a.trace) t.state)
          (sym g) go)

  Step-Isolated : (a b : Acceptor handler) → Step handler a b → Known a → Isolated a → Isolated b
  unfolding create_new_tcp_session_thread
  Step-Isolated a b (accepts_client r {client} e) k p i t g =
      let new : Session handler = record {
        client_socket_ = (Socket.move (Socket.move client).0).0;
        state = handler.start (Socket.copy (Socket.move (Socket.move client).0).0);
      } in
      elim (get_elem?-append a.tcp_sessions_ new t i g) [
        | inl q ↦ p i t q
        | inr (q, v) ↦
            rw (k i (omega (arith, q)))
              (subst (λ t. t.state ≡ handler.start (Socket.copy t.client_socket_)) (sym v) refl)
      ]
  Step-Isolated a b (session_calls j r {t} {c} e n) k p i v g = seen i j a t v c r e n p (
      get_elem?-set a.tcp_sessions_ j i (record t { state = (handler.answer t.state a.shared r).0 })
        v g)

  Reach-both :
      (g : G) (l : TcpListener) (b : Acceptor handler)
      → Reach handler (make handler g l) b
      → Known b × Isolated b
  unfolding make
  Reach-both g l b begin = (λ i l. refl, λ i t e. cc)
  Reach-both g l b (later {b = a} r s) =
      let (k, p) = Reach-both g l a r in (Step-Known a b s k, Step-Isolated a b s k p)

  pub Reach-Isolated :
      (g : G) (l : TcpListener) (b : Acceptor handler)
      → Reach handler (make handler g l) b
      → Isolated b
  Reach-Isolated g l b r = (Reach-both g l b r).1
