-- ===== src/Engine/Tcp/Multiplex/Ready.antt =====
-- A plain loop over the sessions of an acceptor with their entries in the poll set, which runs the
-- user's handler once for each ready session, in their order.
use unix_ipc.Prelude.{
  ℕ, ◌+◌, ◌≡◌, refl, Bool, true, inl, inr, List, [], ◌∷◌, map, ◌==◌, if◌then◌else◌, arith,
  Bool-cases,
}
use unix_ipc.Sys.{Call, Os, ok, Prog, pure, ◌>>=◌}
use unix_ipc.Engine.Socket
use unix_ipc.Engine.Socket.{Socket}
use unix_ipc.Engine.Tcp.Multiplex.{PollFd, TcpSession, World, client_request, pollrdnorm}

-- A session and its entry in the poll set.
abbrev pub Pair : Type 0
Pair = TcpSession × PollFd

abbrev pub is_ready : Pair → Bool
is_ready (s, p) = p.revents == pollrdnorm

-- How many are ready.
abbrev pub ready_count : List Pair → ℕ
ready_count [] = 0
ready_count (q ∷ qs) = (if is_ready q then 1 else 0) + ready_count qs

-- The ready ones are sessions of clients.
abbrev pub AllClients : List Pair → Type 0
AllClients [] = Unit {0}
AllClients (q ∷ qs) = (is_ready q ≡ true → q.0.request_handler_ ≡ client_request) × AllClients qs

module _ {C : Type 0} (handle : Socket → C → Prog (Bool × C)) where
  -- The plain loop.
  abbrev pub serve_ready : List Pair → C → Prog C
  serve_ready [] c = pure c
  serve_ready (q ∷ qs) c =
      if is_ready q
      then (handle (Socket.copy q.0.socket_) c >>= λ r. serve_ready qs r.1)
      else serve_ready qs c

  -- With the result of the plain loop as the new data of the handler.
  abbrev pub finish : World C → C → Prog (ℕ × World C)
  finish w c = pure (0, record w { client = c })

  -- The vectors of an acceptor are these pairs.
  abbrev pub Holds : ℕ → World C → List Pair → Type 0
  Holds a w qs =
      ((w.store a).tcp_sessions_ ≡ map (λ q. q.0) qs)
      × ((w.store a).client_poll_fd_set_ ≡ map (λ q. q.1) qs)

  pub serve_ready-none :
      (qs : List Pair) (c : C) (os : Os) (h : List Call)
      → ready_count qs ≡ 0
      → serve_ready qs c os h ≡ (ok c, h)
  serve_ready-none [] c os h z = refl
  serve_ready-none (q ∷ qs) c os h z = elim (Bool-cases (is_ready q)) [
    | inl y ↦ let z' = rw y at z in absurd (omega (arith, z'))
    | inr n ↦ let z' = rw n at z in rw n (serve_ready-none qs c os h (omega (arith, z')))
  ]
