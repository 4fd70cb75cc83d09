-- ===== src/Servers/Poll/Serving/Requests.antt =====
-- The requests of a round of the server over `poll`, as events of the service.
use unix_ipc.Prelude.{
  ℕ, zero, suc, ◌+◌, ◌<◌, ◌≡◌, sym, subst, Bool, true, some, List, length, get_elem?, ltb,
  if◌then◌else◌, arith,
}
use unix_ipc.Sys.{Call, Os, Prog, pure, or_fault, out_of_bounds, ◌>>=◌}
use unix_ipc.Sys.Ensures.{
  partial, inside, Ensures, >>=-Ensures, if-Ensures, or_fault-Ensures, Ensures-partial,
}
use unix_ipc.Servers.Request.{has}
use unix_ipc.Servers.Service.Refinement.{Refined, stays-Refined, >>=-Refined}
use unix_ipc.Servers.Poll.{
  Entry, State, is_ready, handle_request, request_at, requests_from, requests,
}
use unix_ipc.Servers.Poll.Watching.{Watches, client_at}
use unix_ipc.Servers.Poll.Requests.{is_ready-Ensures}
use unix_ipc.Servers.Poll.Serving.{views, handle_request-Refined}

module _ (os : Os) (listenfd : ℕ) where
  abbrev pub Goes : State → List Call → State → List Call → Type 0
  Goes = Refined os listenfd (views os listenfd)

  -- A test of an entry, and what follows it.
  pub ready-Refined :
      (e : Entry) (act : Bool → Prog State) (s : State) (h : List Call)
      → ((b : Bool) → Ensures partial (act b) os h (Goes s h))
      → Ensures partial (is_ready e >>= act) os h (Goes s h)
  ready-Refined e act s h k =
      >>=-Ensures partial (is_ready e) act os h (λ b g. g ≡ h) (Goes s h)
        (Ensures-partial inside (is_ready e os h) (λ b g. g ≡ h) (is_ready-Ensures e os h))
        (λ b g q. subst (λ g. Ensures partial (act b) os g (Goes s h)) (sym q) (k b))

  -- An entry of the vector, and what follows it.
  pub entry-Refined :
      (i : ℕ) (f : Entry → Prog State) (s : State) (h : List Call)
      → ((e : Entry) → get_elem? s.clients i ≡ some e → Ensures partial (f e) os h (Goes s h))
      → Ensures partial (or_fault (get_elem? s.clients i) out_of_bounds >>= f) os h (Goes s h)
  entry-Refined i f s h k =
      >>=-Ensures partial (or_fault (get_elem? s.clients i) out_of_bounds) f os h
        (λ e g. (get_elem? s.clients i ≡ some e) × (g ≡ h)) (Goes s h)
        (or_fault-Ensures partial (get_elem? s.clients i) out_of_bounds os h (λ _. tt))
        (λ e g q. subst (λ g. Ensures partial (f e) os g (Goes s h)) (sym q.1) (k e q.0))

  request_at-Refined :
      (e : Entry) (s : State) (h : List Call) (w : Watches os listenfd s h)
      → has e.fd w.clients ≡ true
      → Ensures partial (request_at e s) os h (Goes s h)
  unfolding request_at
  request_at-Refined e s h w c =
      ready-Refined e (λ b. if b then handle_request e.fd s else pure s) s h
        (λ b.
          if-Ensures partial b (handle_request e.fd s) (pure s) os h (Goes s h)
            (λ _. handle_request-Refined os listenfd e.fd s h w c)
            (λ _. stays-Refined os listenfd (views os listenfd) s h w))

  requests_from-Refined :
      (fuel i : ℕ) (s : State) (h : List Call)
      → 0 < i
      → Watches os listenfd s h
      → Ensures partial (requests_from fuel i s) os h (Goes s h)
  unfolding requests_from
  requests_from-Refined zero i s h p w = tt
  requests_from-Refined (suc fuel) i s h p w =
      let next : Entry → Prog State = λ e. request_at e s >>= λ s'. requests_from fuel (i + 1) s' in
      if-Ensures partial (ltb i (length s.clients))
        (or_fault (get_elem? s.clients i) out_of_bounds >>= next) (pure s) os h (Goes s h)
        (λ _. entry-Refined i next s h (λ e q.
          >>=-Refined os listenfd (views os listenfd) (request_at e s) (requests_from fuel (i + 1))
            s h
            (request_at-Refined e s h w (client_at s.clients i listenfd w.clients e p q w.entries))
            (λ u g r. requests_from-Refined fuel (i + 1) u g (omega arith) r.0)))
        (λ _. stays-Refined os listenfd (views os listenfd) s h w)

  pub requests-Refined :
      (s : State) (h : List Call)
      → Watches os listenfd s h
      → Ensures partial (requests s) os h (Goes s h)
  unfolding requests
  requests-Refined s h w = requests_from-Refined (suc (length s.clients)) 1 s h (omega arith) w
