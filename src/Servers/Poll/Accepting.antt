-- ===== src/Servers/Poll/Accepting.antt =====
-- The entry of a client that the server over `poll` has just accepted, in the loop over the
-- clients that follows.
use unix_ipc.Prelude.{
  ℕ, zero, suc, ◌+◌, ◌≤◌, ◌<◌, ◌≡◌, ◌≢◌, refl, sym, ap, ◌∙◌, Bool, true, false, some, inl, inr, ◌⊎◌,
  Bytes, pos, negsuc, List, [], ◌∷◌, ◌++◌, length, length-append, get_elem?, ltb, ◌==◌,
  if◌then◌else◌, arith, Bool-cases, fill, c_string, bytes_eq,
}
use unix_ipc.Sys.{
  Call, Os, ok, reads, writes, closes, accepts, Prog, pure, or_fault, call_, exit, out_of_bounds,
  no_terminator, result_of, ◌>>=◌, ◌>>◌,
}
use unix_ipc.Sys.Ensures.{
  partial, inside, Ensures, >>=-Ensures, if-Ensures, or_fault-Ensures, Ensures-ok, Ensures-partial,
}
use unix_ipc.Servers.Request.{
  error_handler, checked-Ensures, error_handler-then, has, stop, request_buffer,
}
use unix_ipc.Servers.Poll.{
  Entry, State, new_entry, fds, is_ready, erase, hang_up, reply_to, take_request, handle_request,
  request_at, requests_from, requests, accept_client, after_poll,
}
use unix_ipc.Servers.Poll.Requests.{is_ready-Ensures}

shorter-erase :
    (fd : ℕ) (es : List Entry) → has fd (fds es) ≡ true → length (erase fd es) < length es
unfolding erase
shorter-erase fd [] y = cc
shorter-erase fd (e ∷ es) y = elim (Bool-cases (e.fd == fd)) [
  | inl m ↦ rw m (omega arith)
  | inr n ↦ rw n (let l = shorter-erase fd es (ground (arith, n)) in omega (arith, l))
]

-- A request leaves the entries alone or takes one away.
abbrev Served : State → State → List Call → Type 0
Served s u g = (u.clients ≡ s.clients) ⊎ (length u.clients < length s.clients)

module _ (os : Os) where
  reply_to-Served :
      (fd : ℕ) (text : Bytes) (s : State) (h : List Call)
      → Ensures inside (reply_to fd text s) os h (Served s)
  unfolding reply_to
  reply_to-Served fd text s h =
      if-Ensures inside (bytes_eq text stop) (pure (record s { is_running = false }))
        (result_of (writes (pos fd) text) >>= λ n. error_handler n >>= λ _. pure s) os h (Served s)
        (λ _. inl refl)
        (λ _.
          checked-Ensures inside (writes (pos fd) text) (λ _. pure s) os h (Served s)
            (λ n e. inl refl))

  take_request-Served :
      (fd n : ℕ) (buff : Bytes) (s : State) (h : List Call)
      → Ensures inside (take_request fd n buff s) os h (Served s)
  unfolding take_request hang_up
  take_request-Served fd n buff s h =
      let gone : State = record s { clients = erase fd s.clients } in
      if-Ensures inside (n == 0) (hang_up fd s)
        (or_fault (c_string buff) no_terminator >>= λ text. reply_to fd text s) os h (Served s)
        (λ _.
          if-Ensures inside (has fd (fds s.clients)) (call_ (closes (pos fd)) >> pure gone)
            (exit (negsuc 0)) os h (Served s) (λ y. inr (shorter-erase fd s.clients y)) (λ _. tt))
        (λ _.
          >>=-Ensures inside (or_fault (c_string buff) no_terminator) (λ text. reply_to fd text s)
            os h (λ text g. (c_string buff ≡ some text) × (g ≡ h)) (Served s)
            (or_fault-Ensures inside (c_string buff) no_terminator os h (λ _. tt))
            (λ text g q. reply_to-Served fd text s g))

  request_at-Served :
      (e : Entry) (s : State) (h : List Call) → Ensures inside (request_at e s) os h (Served s)
  unfolding request_at handle_request
  request_at-Served e s h =
      let c = reads (pos e.fd) 1024 in
      >>=-Ensures inside (is_ready e) (λ ready. if ready then handle_request e.fd s else pure s) os
        h (λ b g. g ≡ h) (Served s) (is_ready-Ensures e os h)
        (λ b g q.
          if-Ensures inside b (handle_request e.fd s) (pure s) os g (Served s)
            (λ _.
              error_handler-then inside (os g c).result
                (λ n. take_request e.fd n (fill request_buffer (os g c).bytes) s) os (c ∷ g)
                (Served s)
                (λ n _. take_request-Served e.fd n (fill request_buffer (os g c).bytes) s (c ∷ g)))
            (λ _. inl refl))

  abbrev AtMost : ℕ → State → List Call → Type 0
  AtMost n u g = length u.clients ≤ n

  -- The last entry is that of the client just accepted, and the loop has not reached it, or an
  -- entry was taken away.
  abbrev Waiting : ℕ → ℕ → List Entry → State → Type 0
  Waiting i fd old s =
      ((s.clients ≡ old ++ new_entry fd ∷ []) × (i ≤ length old)) ⊎ (length s.clients ≤ length old)

  request_at-unset :
      (fd : ℕ) (e : Entry) (s : State) (k : State → Prog State) (R : State → List Call → Type 0)
      (h : List Call)
      → e ≡ new_entry fd
      → Ensures partial (request_at e s >>= k) os h R
  unfolding request_at is_ready
  request_at-unset fd e s k R h p = rw p tt

  Waiting-step :
      (i fd : ℕ) (old : List Entry) (s u : State) (g : List Call)
      → Waiting i fd old s
      → i ≢ length old ⊎ (length s.clients ≤ length old)
      → Served s u g
      → Waiting (i + 1) fd old u
  Waiting-step i fd old s u g (inr l) n (inl q) = inr (rw q l)
  Waiting-step i fd old s u g (inr l) n (inr q) = inr (omega (arith, l, q))
  Waiting-step i fd old s u g (inl (p, l)) (inl n) (inl q) = inl (q ∙ p, omega (arith, n, l))
  Waiting-step i fd old s u g (inl (p, l)) (inr m) (inl q) = inr (rw q m)
  Waiting-step i fd old s u g (inl (p, l)) n (inr q) =
      let m = ap length p ∙ length-append old (new_entry fd ∷ []) in inr (omega (arith, m, q))

  -- The loop returns only if a client hung up in it.
  requests_from-AtMost :
      (fuel i fd : ℕ) (old : List Entry) (s : State) (h : List Call)
      → Waiting i fd old s
      → Ensures partial (requests_from fuel i s) os h (AtMost (length old))
  unfolding requests_from
  requests_from-AtMost zero i fd old s h p = tt
  requests_from-AtMost (suc fuel) i fd old s h p =
      let k : State → Prog State = λ u. requests_from fuel (i + 1) u in
      if-Ensures partial (ltb i (length s.clients))
        (or_fault (get_elem? s.clients i) out_of_bounds >>= λ e. request_at e s >>= k) (pure s) os h
        (AtMost (length old))
        (λ y.
          >>=-Ensures partial (or_fault (get_elem? s.clients i) out_of_bounds)
            (λ e. request_at e s >>= k) os h (λ e g. (get_elem? s.clients i ≡ some e) × (g ≡ h))
            (AtMost (length old))
            (or_fault-Ensures partial (get_elem? s.clients i) out_of_bounds os h (λ _. tt))
            (λ e g q. elim (reached i fd old s e p q.0) [
              | inl new ↦ request_at-unset fd e s k (AtMost (length old)) g new
              | inr n ↦
                  >>=-Ensures partial (request_at e s) k os g (Served s) (AtMost (length old))
                    (Ensures-partial inside (request_at e s os g) (Served s)
                      (request_at-Served e s g))
                    (λ u g1 v.
                      requests_from-AtMost fuel (i + 1) fd old u g1
                        (Waiting-step i fd old s u g1 p n v))
            ]))
        (λ y. left i fd old s p (ground (arith, y)))
    where
      get_elem?-last : (es : List Entry) (e : Entry) → get_elem? (es ++ e ∷ []) (length es) ≡ some e
      get_elem?-last [] e = refl
      get_elem?-last (x ∷ es) e = get_elem?-last es e

      reached :
          (i fd : ℕ) (old : List Entry) (s : State) (e : Entry)
          → Waiting i fd old s
          → get_elem? s.clients i ≡ some e
          → (e ≡ new_entry fd) ⊎ (i ≢ length old ⊎ (length s.clients ≤ length old))
      reached i fd old s e (inr l) q = inr (inr l)
      reached i fd old s e (inl (p, l)) q = elim (Bool-cases (i == length old)) [
        | inr n ↦ inr (inl (ground (arith, n)))
        | inl y ↦
            let at : i ≡ length old = ground (arith, y) in
            let z =
              sym q
              ∙ ap (λ xs. get_elem? xs i) p
              ∙ ap (get_elem? (old ++ new_entry fd ∷ [])) at
              ∙ get_elem?-last old (new_entry fd) in
            inl cc
      ]

      left :
          (i fd : ℕ) (old : List Entry) (s : State)
          → Waiting i fd old s
          → length s.clients ≤ i
          → length s.clients ≤ length old
      left i fd old s (inl (p, l)) n =
          let m = ap length p ∙ length-append old (new_entry fd ∷ []) in omega (arith, m, n, l)
      left i fd old s (inr l) n = l

  -- Where a round of the server over `poll` accepts a client while two or more descriptors are
  -- ready, and returns, there are no more entries after it than before the client was accepted: the
  -- entry of a new client, whose `revents` nothing has set, stays only if that of another is taken
  -- away.
  pub after_poll-uninitialised :
      (listenfd nready fd : ℕ) (listening : Entry) (old : List Entry) (running : Bool) (u : State)
      (h g : List Call)
      → listening.revents ≡ some 64
      → 2 ≤ nready
      → (os h (accepts (pos listenfd))).result ≡ pos fd
      → after_poll listenfd nready (record { clients = listening ∷ old; is_running = running }) os h
        ≡ (ok u, g)
      → length u.clients ≤ length (listening ∷ old)
  unfolding after_poll accept_client error_handler is_ready requests
  after_poll-uninitialised listenfd nready fd listening old running u h g r n a e =
      Ensures-ok partial
        (requests_from (suc (length w.clients)) 1 w os (accepts (pos listenfd) ∷ h))
        (AtMost (length (listening ∷ old)))
        (requests_from-AtMost (suc (length w.clients)) 1 fd (listening ∷ old) w
          (accepts (pos listenfd) ∷ h) (inl (refl, omega arith)))
        (sym (steps r a less) ∙ e)
    where
      less : ltb nready 2 ≡ false
      less = ground (arith, n)

      w : State
      w = record { clients = listening ∷ old ++ new_entry fd ∷ []; is_running = running }

      steps :
          listening.revents ≡ some 64
          → (os h (accepts (pos listenfd))).result ≡ pos fd
          → ltb nready 2 ≡ false
          → after_poll listenfd nready
              (record { clients = listening ∷ old; is_running = running })
              os
              h
            ≡ requests_from (suc (length w.clients)) 1 w os (accepts (pos listenfd) ∷ h)
      steps p q z = rw (p, q, z) refl
