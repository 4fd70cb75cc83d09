-- ===== src/Servers/Select/Loop.antt =====
-- The loops inside a round of the server over `select`, and how many clients each step leaves.
use unix_ipc.Prelude.{
  ℕ, zero, suc, ◌+◌, ◌≡◌, ◌≢◌, ◌<◌, ◌≤◌, sym, subst, false, some, Bytes, pos, negsuc, List, [], ◌∷◌,
  ◌++◌, map, length, get_elem?, ltb, ◌==◌, arith, fill, c_string, bytes_eq,
}
use unix_ipc.Sys.{
  Call, Os, Prog, out_of_fuel, reads, writes, closes, accepts, selects, pure, exit, call_,
  result_of, or_fault, no_terminator, out_of_bounds, ◌>>=◌, ◌>>◌,
}
use unix_ipc.Sys.Ensures.{
  ending, Ensures, >>=-Ensures, if-Ensures, or_fault-Ensures, map-Ensures, ending-excludes,
}
use unix_ipc.Servers.Request.{
  error_handler, checked-Ensures, error_handler-then, has, stop, request_buffer,
}
use unix_ipc.Servers.Select.Rules.{OnlyMaxfd, fd_set-Ensures, update_maxfd-Ensures}
use unix_ipc.Servers.Select.{
  State, fd_set, fd_clr, erase, update_maxfd, hang_up, reply_to, take_request, handle_request,
  accept_client, request_at, requests_from, accept_if, requests, round, to_fds,
}

length-erase : (fd : ℕ) (xs : List ℕ) → length (erase fd xs) ≤ length xs
unfolding erase
length-erase fd [] = omega arith
length-erase fd (x ∷ xs) = ground (arith, length-erase fd xs)

-- At most `n` clients are left.
abbrev Within : ℕ → State → List Call → Type 0
Within n s g = length s.clients ≤ n

module _ (os : Os) where
  update_maxfd-Within :
      (n : ℕ) (s : State) (h : List Call)
      → length s.clients ≤ n
      → Ensures ending (update_maxfd s) os h (Within n)
  update_maxfd-Within n s h l =
      map-Ensures ending (update_maxfd s os h) (OnlyMaxfd s h) (Within n)
        (update_maxfd-Ensures ending tt s os h)
        (λ u g (m, _, p, q). subst (λ u. length u.clients ≤ n) (sym p) l)

  hang_up-Within :
      (fd : ℕ) (s : State) (h : List Call)
      → Ensures ending (hang_up fd s) os h (Within (length s.clients))
  unfolding hang_up
  hang_up-Within fd s h =
      let gone : State = record s { clients = erase fd s.clients; allset = fd_clr fd s.allset } in
      if-Ensures ending (has fd s.clients) (call_ (closes (pos fd)) >> update_maxfd gone)
        (exit (negsuc 0)) os h (Within (length s.clients))
        (λ _.
          update_maxfd-Within (length s.clients) gone (closes (pos fd) ∷ h)
            (length-erase fd s.clients))
        (λ _. tt)

  reply_to-Within :
      (fd : ℕ) (text : Bytes) (s : State) (h : List Call)
      → Ensures ending (reply_to fd text s) os h (Within (length s.clients))
  unfolding reply_to
  reply_to-Within fd text s h =
      if-Ensures ending (bytes_eq text stop) (pure (record s { is_running = false }))
        (result_of (writes (pos fd) text) >>= λ n. error_handler n >>= λ _. pure s) os h
        (Within (length s.clients)) (λ _. omega arith)
        (λ _.
          checked-Ensures ending (writes (pos fd) text) (λ _. pure s) os h
            (Within (length s.clients)) (λ n e. omega arith))

  take_request-Within :
      (fd n : ℕ) (buff : Bytes) (s : State) (h : List Call)
      → Ensures ending (take_request fd n buff s) os h (Within (length s.clients))
  unfolding take_request
  take_request-Within fd n buff s h =
      if-Ensures ending (n == 0) (hang_up fd s)
        (or_fault (c_string buff) no_terminator >>= λ text. reply_to fd text s) os h
        (Within (length s.clients)) (λ _. hang_up-Within fd s h)
        (λ _.
          >>=-Ensures ending (or_fault (c_string buff) no_terminator) (λ text. reply_to fd text s)
            os h (λ text g. (c_string buff ≡ some text) × (g ≡ h)) (Within (length s.clients))
            (or_fault-Ensures ending (c_string buff) no_terminator os h (λ _. tt))
            (λ text g q. reply_to-Within fd text s g))

  request_at-Within :
      (fd : ℕ) (readset : List ℕ) (s : State) (h : List Call)
      → Ensures ending (request_at fd readset s) os h (Within (length s.clients))
  unfolding request_at handle_request
  request_at-Within fd readset s h =
      let c = reads (pos fd) 1024 in
      let answer : ℕ → Prog State = λ n. take_request fd n (fill request_buffer (os h c).bytes) s in
      if-Ensures ending (has fd readset) (handle_request fd s) (pure s) os h
        (Within (length s.clients))
        (λ _.
          error_handler-then ending (os h c).result answer os (c ∷ h) (Within (length s.clients))
            (λ n _. take_request-Within fd n (fill request_buffer (os h c).bytes) s (c ∷ h)))
        (λ _. omega arith)

  requests_from-ends :
      (fuel i : ℕ) (readset : List ℕ) (s : State) (h : List Call)
      → 0 < fuel
      → length s.clients < fuel + i
      → Ensures ending (requests_from fuel i readset s) os h (λ _ _. Unit {0})
  unfolding requests_from
  requests_from-ends zero i readset s h p l = absurd (omega (arith, p))
  requests_from-ends (suc fuel) i readset s h p l =
      let next : ℕ → Prog State =
        λ fd. request_at fd readset s >>= λ u. requests_from fuel (i + 1) readset u in
      if-Ensures ending (ltb i (length s.clients))
        (or_fault (get_elem? s.clients i) out_of_bounds >>= next) (pure s) os h (λ _ _. Unit {0})
        (λ y.
          let more : i < length s.clients = ground (arith, y) in
          >>=-Ensures ending (or_fault (get_elem? s.clients i) out_of_bounds) next os h
            (λ fd g. (get_elem? s.clients i ≡ some fd) × (g ≡ h)) (λ _ _. Unit {0})
            (or_fault-Ensures ending (get_elem? s.clients i) out_of_bounds os h (λ _. tt))
            (λ fd g q.
              >>=-Ensures ending (request_at fd readset s) (requests_from fuel (i + 1) readset) os g
                (Within (length s.clients)) (λ _ _. Unit {0}) (request_at-Within fd readset s g)
                (λ u g1 k.
                  requests_from-ends fuel (i + 1) readset u g1 (omega (arith, more, l))
                    (omega (arith, k, l)))))
        (λ _. tt)

  accept_client-ends :
      (listenfd : ℕ) (s : State) (h : List Call)
      → Ensures ending (accept_client listenfd s) os h (λ _ _. Unit {0})
  unfolding accept_client
  accept_client-ends listenfd s h =
      let c : Call = accepts (pos listenfd) in
      let more : ℕ → List ℕ → State =
        λ fd set. record s { clients = s.clients ++ fd ∷ []; allset = set } in
      checked-Ensures ending c (λ fd. fd_set fd s.allset >>= λ set. update_maxfd (more fd set)) os h
        (λ _ _. Unit {0})
        (λ fd _.
          >>=-Ensures ending (fd_set fd s.allset) (λ set. update_maxfd (more fd set)) os (c ∷ h)
            (λ set g. (fd < 1024) × (set ≡ fd ∷ s.allset) × (g ≡ c ∷ h)) (λ _ _. Unit {0})
            (fd_set-Ensures ending tt fd s.allset os (c ∷ h))
            (λ set g _.
              map-Ensures ending (update_maxfd (more fd set) os g) (OnlyMaxfd (more fd set) g)
                (λ _ _. Unit {0}) (update_maxfd-Ensures ending tt (more fd set) os g)
                (λ _ _ _. tt)))

  round-ends :
      (listenfd : ℕ) (s : State) (h : List Call)
      → Ensures ending (round listenfd s) os h (λ _ _. Unit {0})
  unfolding round requests accept_if
  round-ends listenfd s h =
      let c = selects (pos (s.maxfd + 1)) (map pos s.allset) in
      let readset = to_fds (os h c).ready in
      error_handler-then ending (os h c).result
        (λ _. accept_if listenfd readset s >>= λ u. requests readset u) os (c ∷ h) (λ _ _. Unit {0})
        (λ n _.
          >>=-Ensures ending (accept_if listenfd readset s) (λ u. requests readset u) os (c ∷ h)
            (λ _ _. Unit {0}) (λ _ _. Unit {0})
            (if-Ensures ending (has listenfd readset) (accept_client listenfd s) (pure s) os (c ∷ h)
              (λ _ _. Unit {0}) (λ _. accept_client-ends listenfd s (c ∷ h)) (λ _. tt))
            (λ u g _.
              requests_from-ends (suc (length u.clients)) 0 readset u g (omega arith)
                (omega arith)))

-- A round of the server over `select` ends, whatever the requests are and whoever hangs up in it.
pub round-ne-spent :
    (listenfd : ℕ) (s : State) (os : Os) (h : List Call) → (round listenfd s os h).0 ≢ out_of_fuel
round-ne-spent listenfd s os h =
    ending-excludes (round listenfd s os h) (λ _ _. Unit {0}) (round-ends os listenfd s h)
