-- ===== src/Servers/Poll/Requests.antt =====
-- The loop over the clients of the server over `poll`.
use unix_ipc.Prelude.{
  none, ℕ, zero, suc, ◌+◌, ◌<◌, ◌≡◌, ◌≢◌, sym, subst, some, List, [], ◌∷◌, length, get_elem?, ltb,
  ◌==◌, if◌then◌else◌, arith,
}
use unix_ipc.Sys.{Call, Os, pure, or_fault, out_of_bounds, uninitialised, ◌>>=◌}
use unix_ipc.Sys.Ensures.{inside, Ensures, >>=-Ensures, if-Ensures, or_fault-Ensures}
use unix_ipc.Servers.Select.Watched.{client-ne-listenfd}
use unix_ipc.Servers.Poll.{
  Entry, State, fds, is_ready, handle_request, request_at, requests_from, requests,
}
use unix_ipc.Servers.Poll.Watching.{Watches, Kept, handle_request-Kept, client_at}

-- An index below the length is that of an entry.
get_elem?-ne-none : (es : List Entry) (i : ℕ) → i < length es → get_elem? es i ≢ none
get_elem?-ne-none [] i l e = absurd (omega (arith, l))
get_elem?-ne-none (x ∷ es) zero l e = cc
get_elem?-ne-none (x ∷ es) (suc i) l e = get_elem?-ne-none es i (omega (arith, l)) e

pub first-ne-none :
    (es : List Entry) (l : ℕ) (clients : List ℕ) → fds es ≡ l ∷ clients → get_elem? es 0 ≢ none
first-ne-none [] l clients p e = cc
first-ne-none (x ∷ es) l clients p e = cc

pub is_ready-Ensures :
    (e : Entry) (os : Os) (h : List Call) → Ensures inside (is_ready e) os h (λ b g. g ≡ h)
unfolding is_ready
is_ready-Ensures e os h =
    >>=-Ensures inside (or_fault e.revents uninitialised) (λ r. pure (r == 64)) os h
      (λ r g. (e.revents ≡ some r) × (g ≡ h)) (λ b g. g ≡ h)
      (or_fault-Ensures inside e.revents uninitialised os h (λ _. tt)) (λ r g q. q.1)

module _ (os : Os) (listenfd : ℕ) where
  request_at-Kept :
      (e : Entry) (s : State) (h : List Call)
      → Watches os listenfd s h
      → listenfd ≢ e.fd
      → Ensures inside (request_at e s) os h (Kept os listenfd (length s.clients))
  unfolding request_at
  request_at-Kept e s h w apart =
      >>=-Ensures inside (is_ready e) (λ ready. if ready then handle_request e.fd s else pure s) os
        h (λ b g. g ≡ h) (Kept os listenfd (length s.clients)) (is_ready-Ensures e os h)
        (λ b g q.
          if-Ensures inside b (handle_request e.fd s) (pure s) os g
            (Kept os listenfd (length s.clients))
            (λ _.
              handle_request-Kept os listenfd e.fd s g (subst (Watches os listenfd s) (sym q) w)
                apart)
            (λ _. (subst (Watches os listenfd s) (sym q) w, omega arith)))

  requests_from-Watches :
      (fuel i : ℕ) (s : State) (h : List Call)
      → Watches os listenfd s h
      → 0 < i
      → 0 < fuel
      → length s.clients < fuel + i
      → Ensures inside (requests_from fuel i s) os h (Watches os listenfd)
  unfolding requests_from
  requests_from-Watches zero i s h w a b l = absurd (omega (arith, b))
  requests_from-Watches (suc fuel) i s h w a b l =
      if-Ensures inside (ltb i (length s.clients))
        (or_fault (get_elem? s.clients i) out_of_bounds >>= λ e.
          request_at e s >>= λ s'. requests_from fuel (i + 1) s')
        (pure s) os h (Watches os listenfd)
        (λ y.
          let more : i < length s.clients = ground (arith, y) in
          >>=-Ensures inside (or_fault (get_elem? s.clients i) out_of_bounds)
            (λ e. request_at e s >>= λ s'. requests_from fuel (i + 1) s') os h
            (λ e g. (get_elem? s.clients i ≡ some e) × (g ≡ h)) (Watches os listenfd)
            (or_fault-Ensures inside (get_elem? s.clients i) out_of_bounds os h
              (λ n. get_elem?-ne-none s.clients i more n))
            (λ e g q.
              >>=-Ensures inside (request_at e s) (λ s'. requests_from fuel (i + 1) s') os g
                (Kept os listenfd (length s.clients)) (Watches os listenfd)
                (request_at-Kept e s g (subst (Watches os listenfd s) (sym q.1) w) (
                  client-ne-listenfd listenfd e.fd w.clients w.distinct.0
                    (client_at s.clients i listenfd w.clients e a q.0 w.entries)))
                (λ u g1 k.
                  requests_from-Watches fuel (i + 1) u g1 k.0 (omega arith) (omega (arith, more, l))
                    (omega (arith, k.1, l)))))
        (λ _. w)

  pub requests-Watches :
      (s : State) (h : List Call)
      → Watches os listenfd s h
      → Ensures inside (requests s) os h (Watches os listenfd)
  unfolding requests
  requests-Watches s h w =
      requests_from-Watches (suc (length s.clients)) 1 s h w (omega arith) (omega arith)
        (omega arith)
