-- ===== src/Engine/Tcp/Multiplex/Quiet.antt =====
-- Rounds of `handleClientsSocket` in which no descriptor counts as ready.
use unix_ipc.Prelude.{
  ℕ, zero, suc, ◌+◌, ◌<◌, ◌≡◌, ◌≢◌, refl, Bool, ◌&&◌, some, inl, inr, List, [], ◌∷◌, length,
  get_elem?, ltb, arith, Bool-cases, ==_false,
}
use unix_ipc.Sys.{Call, Os, ok, Prog}
use unix_ipc.Engine.Socket.{Socket}
use unix_ipc.Engine.Tcp.Multiplex.{PollFd, World, handle_event, handle_at, handle_from, pollrdnorm}
use unix_ipc.Engine.Tcp.Multiplex.Rounds.{count, in_range}

-- No entry reports exactly `POLLRDNORM`.
abbrev pub Quiet : List PollFd → Type 0
Quiet [] = Unit {0}
Quiet (p ∷ ps) = (p.revents ≢ pollrdnorm) × Quiet ps

get_elem?-Quiet :
    (ps : List PollFd) (i : ℕ) (p : PollFd)
    → Quiet ps
    → get_elem? ps i ≡ some p
    → p.revents ≢ pollrdnorm
get_elem?-Quiet [] i p q e = cc
get_elem?-Quiet (x ∷ ps) zero p q e = ground (arith, q.0)
get_elem?-Quiet (x ∷ ps) (suc i) p q e = get_elem?-Quiet ps i p q.1 e

get_elem?_total {ℓ} :
    {A : Type ℓ} (xs : List A) (i : ℕ) → i < length xs → (x : A) × (get_elem? xs i ≡ some x)
get_elem?_total [] i l = elim l [ ]
get_elem?_total (x ∷ xs) zero l = (x, refl)
get_elem?_total (x ∷ xs) (suc i) l = get_elem?_total xs i (omega arith)

-- Where no entry reports exactly POLLRDNORM, the two vectors are of one length, and the fuel is
-- more than the sessions left, a round from any index calls nothing, changes nothing and leaves the
-- ready count.
pub handle_from-Quiet :
    {C : Type 0} (handle : Socket → C → Prog (Bool × C)) (os : Os) (a fuel i n : ℕ) (w : World C)
    (h : List Call)
    → Quiet (w.store a).client_poll_fd_set_
    → length (w.store a).client_poll_fd_set_ ≡ count w a
    → count w a < fuel + i
    → 0 < fuel
    → handle_from handle fuel a i n w os h ≡ (ok (n, w), h)
unfolding handle_from handle_at handle_event
handle_from-Quiet handle os a zero i n w h q e l k = absurd (omega arith)
handle_from-Quiet handle os a (suc fuel) i n w h q e l k =
    elim (Bool-cases (ltb 0 n && ltb i (count w a))) [
      | inl t ↦
          let b = in_range n i (count w a) t in
          let (s, f) = get_elem?_total (w.store a).tcp_sessions_ i b.1 in
          let (p, g) = get_elem?_total (w.store a).client_poll_fd_set_ i (omega (arith, b, e)) in
          rw
            (
              t,
              f,
              g,
              ==_false p.revents pollrdnorm
                  (get_elem?-Quiet (w.store a).client_poll_fd_set_ i p q g),
            )
            (handle_from-Quiet handle os a fuel (i + 1) n w h q e (omega arith) (omega (arith, b)))
      | inr f ↦ rw f
    ]
