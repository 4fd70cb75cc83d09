-- ===== src/Servers/Select/Rules.antt =====
-- Rules for the parts of the server over `select`: its set, its loop of rounds, its end, and the
-- whole of `main`.
use unix_ipc.Prelude.{
  ℕ, zero, suc, ◌<◌, ◌≡◌, refl, sym, subst, true, false, some, ℤ, pos, negsuc, List, [], ◌∷◌, ltb,
  ◌==◌, arith,
}
use unix_ipc.Sys.{
  Call, Os, closes, makes_socket, Prog, pure, call_, exit, fault, or_fault, out_of_bounds,
  past_the_end, ◌>>=◌, ◌>>◌,
}
use unix_ipc.Sys.Ensures.{Limits, partial, Ensures, >>=-Ensures, if-Ensures, or_fault-Ensures}
use unix_ipc.Servers.Request.{server_calls, open_server-Ensures, open_server}
use unix_ipc.Servers.Select.{
  State, fd_set, max_element, update_maxfd, round, serve, close_connections, initial, finish, main,
}

-- Only the highest descriptor is set, to that of the clients, and nothing is called.
abbrev pub OnlyMaxfd : State → List Call → State → List Call → Type 0
OnlyMaxfd s h u g =
    (m : ℕ) × (max_element s.clients ≡ some m) × (u ≡ record s { maxfd = m }) × (g ≡ h)

module _ (F : Limits) where
  pub fd_set-Ensures :
      F (some out_of_bounds)
      → (fd : ℕ) (set : List ℕ) (os : Os) (h : List Call)
      → Ensures F (fd_set fd set) os h (λ r g. (fd < 1024) × (r ≡ fd ∷ set) × (g ≡ h))
  unfolding fd_set
  fd_set-Ensures k fd set os h =
      if-Ensures F (ltb fd 1024) (pure (fd ∷ set)) (fault out_of_bounds) os h
        (λ r g. (fd < 1024) × (r ≡ fd ∷ set) × (g ≡ h)) (λ y. (ground (arith, y), refl, refl))
        (λ _. k)

  pub update_maxfd-Ensures :
      F (some past_the_end)
      → (s : State) (os : Os) (h : List Call) → Ensures F (update_maxfd s) os h (OnlyMaxfd s h)
  unfolding update_maxfd
  update_maxfd-Ensures k s os h =
      >>=-Ensures F (or_fault (max_element s.clients) past_the_end)
        (λ m. pure (record s { maxfd = m })) os h
        (λ m g. (max_element s.clients ≡ some m) × (g ≡ h)) (OnlyMaxfd s h)
        (or_fault-Ensures F (max_element s.clients) past_the_end os h (λ _. k))
        (λ m g q. (m, q.0, refl, q.1))

module _ (os : Os) where
  -- What every round keeps, the loop keeps, and it returns only when the server does not run.
  pub serve-Ensures :
      (l : ℕ) (I : State → List Call → Type 0)
      → ((s : State) (h : List Call)
          → s.is_running ≡ true
          → I s h
          → Ensures partial (round l s) os h I)
      → (fuel : ℕ) (s : State) (h : List Call) → I s h
      → Ensures partial (serve fuel l s) os h (λ u g. I u g × (u.is_running ≡ false))
  unfolding serve
  serve-Ensures l I k zero s h i = tt
  serve-Ensures l I k (suc fuel) s h i =
      if-Ensures partial s.is_running (round l s >>= serve fuel l) (pure s) os h
        (λ u g. I u g × (u.is_running ≡ false))
        (λ run.
          >>=-Ensures partial (round l s) (serve fuel l) os h I
            (λ u g. I u g × (u.is_running ≡ false)) (k s h run i)
            (λ u g j. serve-Ensures l I k fuel u g j))
        (λ e. (i, e))

  module _ (C : List Call → Type 0)
      (close : (n : ℕ) (h : List Call) → C h → C (closes (pos n) ∷ h)) where
    close_connections-Ensures :
        (fds : List ℕ) (h : List Call) → C h → Ensures partial (close_connections fds) os h (λ _. C)
    unfolding close_connections
    close_connections-Ensures [] h c = c
    close_connections-Ensures (fd ∷ fds) h c =
        close_connections-Ensures fds (closes (pos fd) ∷ h) (close fd h c)

    -- What closing keeps, the end of `main` keeps.
    pub finish-Ensures :
        (l : ℕ) (s : State) (h : List Call) → C h → Ensures partial (finish l s) os h (λ _. C)
    unfolding finish
    finish-Ensures l s h c =
        >>=-Ensures partial (close_connections s.clients)
          (λ _. call_ (closes (pos l)) >> pure (pos 0)) os h (λ _. C) (λ _. C)
          (close_connections-Ensures s.clients h c) (λ _ g k. close l g k)

  -- The rule for `main`: what holds when the loop begins, what holds when it has ended, and what
  -- holds at the end.
  pub main-Ensures :
      (fuel argc port : ℕ) (P Q : ℕ → State → List Call → Type 0) (R : List Call → Type 0)
      → ((l : ℕ)
          → (os [] (makes_socket 2 1)).result ≡ pos l
          → Ensures partial (initial l) os (server_calls port l []) (P l))
      → ((l : ℕ) (s : State) (h : List Call)
          → P l s h
          → Ensures partial (serve fuel l s) os h (Q l))
      → ((l : ℕ) (s : State) (h : List Call)
          → (os [] (makes_socket 2 1)).result ≡ pos l
          → Q l s h
          → Ensures partial (finish l s) os h (λ _. R))
      → Ensures partial (main fuel argc port) os [] (λ _. R)
  unfolding main
  main-Ensures fuel argc port P Q R start loop end =
      let from : ℕ → State → Prog ℤ = λ l s. serve fuel l s >>= finish l in
      let run : ℕ → Prog ℤ = λ l. initial l >>= from l in
      if-Ensures partial (argc == 2) (open_server port >>= run) (exit (negsuc 0)) os [] (λ _. R)
        (λ _.
          >>=-Ensures partial (open_server port) run os []
            (λ l h. ((os [] (makes_socket 2 1)).result ≡ pos l) × (h ≡ server_calls port l []))
            (λ _. R) (open_server-Ensures partial port os [])
            (λ l h q.
              subst (λ h. Ensures partial (run l) os h (λ _. R)) (sym q.1)
                (>>=-Ensures partial (initial l) (from l) os (server_calls port l []) (P l) (λ _. R)
                  (start l q.0)
                  (λ s h1 p.
                    >>=-Ensures partial (serve fuel l s) (finish l) os h1 (Q l) (λ _. R)
                      (loop l s h1 p) (λ u h2 k. end l u h2 q.0 k)))))
        (λ _. tt)
