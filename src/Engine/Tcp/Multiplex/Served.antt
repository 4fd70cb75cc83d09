-- ===== src/Engine/Tcp/Multiplex/Served.antt =====
-- A round of `handleClientsSocket` against the plain loop over the ready sessions.
use unix_ipc.Prelude.{
  ℕ, zero, suc, ◌+◌, ◌-◌, ◌<◌, ◌≡◌, refl, sym, ap, subst, ◌∙◌, Bool, true, false, inl, inr, List,
  [], ◌∷◌, ◌++◌, length, ltb, arith, Bool-cases, get_elem?-map, length-map, length-append,
  append_assoc,
}
use unix_ipc.Sys.{Call, Os, ok, Prog, pure, resume, ◌>>=◌}
use unix_ipc.Sys.Laws.{>>=_assoc, >>=_cong}
use unix_ipc.Engine.Socket
use unix_ipc.Engine.Socket.{Socket}
use unix_ipc.Engine.Tcp.Multiplex.{
  World, client_request, run_handler, run_session, handle_event, handle_at, handle_from,
  handle_clients_socket,
}
use unix_ipc.Engine.Tcp.Multiplex.Ready
use unix_ipc.Engine.Tcp.Multiplex.Ready.{Pair, is_ready, ready_count, AllClients}

module _ {C : Type 0} (handle : Socket → C → Prog (Bool × C)) where
  abbrev Holds : ℕ → World C → List Pair → Type 0
  Holds = Ready.Holds handle

  abbrev serve_ready : List Pair → C → Prog C
  serve_ready = Ready.serve_ready handle

  abbrev finish : World C → C → Prog (ℕ × World C)
  finish = Ready.finish handle

  module _ (a : ℕ) (os : Os) where
    handle_at-here :
        (pre qs : List Pair) (q : Pair) (n : ℕ) (w : World C) (h : List Call)
        → Holds a w (pre ++ q ∷ qs)
        → handle_at handle a (length pre) n w os h ≡ handle_event handle q.0 q.1 n w os h
    unfolding handle_at
    handle_at-here pre qs q n w h e =
        rw (e.0, e.1, get_elem?-map (λ q. q.0) pre qs q, get_elem?-map (λ q. q.1) pre qs q) refl

    in_loop :
        (pre qs : List Pair) (q : Pair) (w : World C)
        → Holds a w (pre ++ q ∷ qs)
        → ltb (length pre) (length (w.store a).tcp_sessions_) ≡ true
    in_loop pre qs q w e =
        rw e.0 (ground (arith, length-map (λ q. q.0) (pre ++ q ∷ qs), length-append pre (q ∷ qs)))

    handle_ready :
        (q : Pair) (n : ℕ) (w : World C) (k : ℕ × World C → Prog (ℕ × World C)) (h : List Call)
        → is_ready q ≡ true
        → q.0.request_handler_ ≡ client_request
        → (handle_event handle q.0 q.1 n w >>= k) os h
          ≡ (handle (Socket.copy q.0.socket_) w.client >>= λ r.
                k (n - 1, record w { client = r.1 }))
              os h
    unfolding handle_event run_session run_handler
    handle_ready q n w k h y c =
        let s = Socket.copy q.0.socket_ in
        let one : Bool × C → Prog (Bool × World C) = λ r. pure (r.0, record w { client = r.1 }) in
        let two : Bool × World C → Prog (ℕ × World C) = λ r. pure (n - 1, r.1) in
        rw (y, c)
          (>>=_assoc (handle s w.client >>= one) two k os h
            ∙ >>=_assoc (handle s w.client) one (λ r. two r >>= k) os h)

    handle_idle :
        (q : Pair) (n : ℕ) (w : World C) (h : List Call)
        → is_ready q ≡ false
        → handle_event handle q.0 q.1 n w os h ≡ (ok (n, w), h)
    unfolding handle_event
    handle_idle q n w h e = rw e refl

    handle_from-enter :
        (fuel i n : ℕ) (w : World C) (h : List Call)
        → ltb 0 n ≡ true
        → ltb i (length (w.store a).tcp_sessions_) ≡ true
        → handle_from handle (suc fuel) a i n w os h
          ≡ (handle_at handle a i n w >>= λ r. handle_from handle fuel a (i + 1) r.0 r.1) os h
    unfolding handle_from
    handle_from-enter fuel i n w h x y = rw (x, y) refl

    handle_from-over :
        (fuel i n : ℕ) (w : World C) (h : List Call)
        → ltb 0 n ≡ false
        → handle_from handle (suc fuel) a i n w os h ≡ (ok (n, w), h)
    unfolding handle_from
    handle_from-over fuel i n w h x = rw x refl

    -- A pair after the pairs `pre`, where the loop goes on from the next index as it should.
    module _ (pre qs : List Pair) (q : Pair) (fuel : ℕ)
        (later : (w : World C) (g : List Call)
          → Holds a w (pre ++ q ∷ qs)
          → handle_from handle fuel a (length pre + 1) (ready_count qs) w os g
            ≡ (serve_ready qs w.client >>= finish w) os g)
        (w : World C) (h : List Call) (e : Holds a w (pre ++ q ∷ qs)) where
      abbrev goes_on : ℕ × World C → Prog (ℕ × World C)
      goes_on r = handle_from handle fuel a (length pre + 1) r.0 r.1

      step_ready :
          is_ready q ≡ true
          → q.0.request_handler_ ≡ client_request
          → handle_from handle (suc fuel) a (length pre) (ready_count (q ∷ qs)) w os h
            ≡ (serve_ready (q ∷ qs) w.client >>= finish w) os h
      step_ready y c =
          let s = Socket.copy q.0.socket_ in
          let m = ready_count (q ∷ qs) in
          let one : m ≡ 1 + ready_count qs = rw y refl in
          let less : m - 1 ≡ ready_count qs = omega (arith, one) in
          handle_from-enter fuel (length pre) m w h (ground (arith, one)) (in_loop pre qs q w e)
          ∙ ap (λ r. resume r.0 goes_on os r.1) (handle_at-here pre qs q m w h e)
          ∙ handle_ready q m w goes_on h y c
          ∙ >>=_cong (handle s w.client) (λ r. goes_on (m - 1, record w { client = r.1 }))
              (λ r. serve_ready qs r.1 >>= finish w) os h
              (λ r g.
                ap (λ i. goes_on (i, record w { client = r.1 }) os g) less
                ∙ later (record w { client = r.1 }) g e)
          ∙ sym (>>=_assoc (handle s w.client) (λ r. serve_ready qs r.1) (finish w) os h)
          ∙ rw y refl

      step_idle :
          is_ready q ≡ false
          → handle_from handle (suc fuel) a (length pre) (ready_count (q ∷ qs)) w os h
            ≡ (serve_ready (q ∷ qs) w.client >>= finish w) os h
      step_idle n =
          let m = ready_count (q ∷ qs) in
          let same : m ≡ ready_count qs = rw n (omega arith) in
          elim (Bool-cases (ltb 0 m)) [
            | inl more ↦
                handle_from-enter fuel (length pre) m w h more (in_loop pre qs q w e)
                ∙ ap (λ r. resume r.0 goes_on os r.1)
                    (handle_at-here pre qs q m w h e ∙ handle_idle q m w h n)
                ∙ ap (λ i. goes_on (i, w) os h) same
                ∙ later w h e
                ∙ rw n refl
            | inr none ↦
                let over : m ≡ 0 = ground (arith, none) in
                handle_from-over fuel (length pre) m w h none
                ∙ ap (λ i. (ok (i, w), h)) over
                ∙ sym (
                    ap (λ r. resume r.0 (finish w) os r.1)
                      (Ready.serve_ready-none handle (q ∷ qs) w.client os h over))
          ]

    handle_from-serve_ready :
        (qs pre : List Pair) (fuel : ℕ) (w : World C) (h : List Call)
        → length qs < fuel
        → AllClients qs
        → Holds a w (pre ++ qs)
        → handle_from handle fuel a (length pre) (ready_count qs) w os h
          ≡ (serve_ready qs w.client >>= finish w) os h
    unfolding handle_from
    handle_from-serve_ready qs pre zero w h l c e = absurd (omega (arith, l))
    handle_from-serve_ready [] pre (suc fuel) w h l c e = refl
    handle_from-serve_ready (q ∷ qs) pre (suc fuel) w h l (c, cs) e =
        let next : length (pre ++ q ∷ []) ≡ length pre + 1 =
          omega (arith, length-append pre (q ∷ [])) in
        let later : (w : World C) (g : List Call)
            → Holds a w (pre ++ q ∷ qs)
            → handle_from handle fuel a (length pre + 1) (ready_count qs) w os g
              ≡ (serve_ready qs w.client >>= finish w) os g =
          λ w g e.
            subst
              (λ i.
                handle_from handle fuel a i (ready_count qs) w os g
                ≡ (serve_ready qs w.client >>= finish w) os g)
              next
              (handle_from-serve_ready qs (pre ++ q ∷ []) fuel w g (omega (arith, l)) cs
                (subst (Holds a w) (sym (append_assoc pre (q ∷ []) qs)) e)) in
        elim (Bool-cases (is_ready q)) [
          | inl y ↦ step_ready pre qs q fuel later w h e y (c y)
          | inr n ↦ step_idle pre qs q fuel later w h e n
        ]

-- Where the two vectors of an acceptor pair sessions with poll entries, the ready ones, with
-- exactly POLLRDNORM reported, are sessions of clients, the ready count is their number, and the
-- fuel is more than the pairs, `handleClientsSocket` does what a plain loop over the pairs does
-- that runs the user's handler once for each ready one, in their order, on a copy of its socket: it
-- makes the same calls, ends or fails in the same way, and leaves 0 as the ready count, the vectors
-- as they were and the handler's data of the plain loop.
pub handle_clients_socket-serve_ready :
    {C : Type 0} (handle : Socket → C → Prog (Bool × C)) (a fuel : ℕ) (qs : List Pair) (w : World C)
    (os : Os) (h : List Call)
    → length qs < fuel
    → AllClients qs
    → Ready.Holds handle a w qs
    → handle_clients_socket handle fuel a (ready_count qs) w os h
      ≡ (Ready.serve_ready handle qs w.client >>= Ready.finish handle w) os h
unfolding handle_clients_socket
handle_clients_socket-serve_ready handle a fuel qs w os h l c e =
    handle_from-serve_ready handle a os qs [] fuel w h l c e
